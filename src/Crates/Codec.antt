-- ===== src/Crates/Codec.antt =====
-- The packages `rmp-serde` and `zstd`: a value as bytes, and bytes compressed.
use factorio_multiplayer_cac.Common.{ℕ, ◌≡◌, refl, Option, some, List}

-- Of one type; `none` is an error.
pub record Serde (A : Type 0) : Type 0 where
  pub write : A → Option (List ℕ)
  pub from_read : List ℕ → Option A
  pub from_read_write : (a : A) (bytes : List ℕ) → write a ≡ some bytes → from_read bytes ≡ some a

-- Compression at a level, decompression of the whole of a stream, and the bytes that can be read from
-- a decoder before the stream ends or an error comes.
pub record Zstd : Type 0 where
  pub encode : ℕ → List ℕ → List ℕ
  pub decode : List ℕ → Option (List ℕ)
  pub stream : List ℕ → List ℕ
  pub decode_encode : (level : ℕ) (bytes : List ℕ) → decode (encode level bytes) ≡ some bytes
  pub stream_encode : (level : ℕ) (bytes : List ℕ) → stream (encode level bytes) ≡ bytes

-- A code that keeps the bytes.
unfoldable pub plain_zstd : Zstd
plain_zstd = record {
  encode = λ level bytes. bytes;
  decode = λ bytes. some bytes;
  stream = λ bytes. bytes;
  decode_encode = λ level bytes. refl;
  stream_encode = λ level bytes. refl;
}
