-- ===== src/Crates/Stream.antt =====
-- The streams of `tokio` and the variable-length integer of `quinn`. What a stream carries is a list
-- of bytes; `none` is an error, as at the end of the stream.
use factorio_multiplayer_cac.Common.{
  ℕ, ◌^◌, ◌<◌, ◌≡◌, refl, ap, ◌∙◌, Option, none, some, List, [], ◌++◌, length, take, drop,
  to_le_bytes, from_le_bytes, from_le_bytes-to_le_bytes, take-length-append, drop-length-append,
  leb, le→leb, length-append, if◌then◌else◌, IsU32, arith,
}
use factorio_multiplayer_cac.Crates.Bytes.{plain_bytes, try_get_u32_le-to_le_bytes}

pub record Io : Type 0 where
  pub write_u32_le : List ℕ → ℕ → List ℕ
  pub write_all : List ℕ → List ℕ → List ℕ
  pub read_u32_le : List ℕ → Option (ℕ × List ℕ)
  pub read_exact : ℕ → List ℕ → Option (List ℕ × List ℕ)
  pub write_u32_le_lem : (sent : List ℕ) (v : ℕ) → write_u32_le sent v ≡ sent ++ to_le_bytes 4 v
  pub write_all_lem : (sent bytes : List ℕ) → write_all sent bytes ≡ sent ++ bytes
  pub read_u32_le_lem :
      (v : ℕ) (rest : List ℕ) → IsU32 v → read_u32_le (to_le_bytes 4 v ++ rest) ≡ some (v, rest)
  pub read_u32_le_nil : read_u32_le [] ≡ none
  pub read_exact_lem :
      (bytes rest : List ℕ) → read_exact (length bytes) (bytes ++ rest) ≡ some (bytes, rest)

-- `VarInt::encode` and `VarInt::decode`, for numbers below 2 ^ 62.
pub record VarInt : Type 0 where
  pub encode : ℕ → List ℕ → List ℕ
  pub decode : List ℕ → Option (ℕ × List ℕ)
  pub encode_lem : (v : ℕ) (buf : List ℕ) → encode v buf ≡ buf ++ encode v []
  pub decode_encode :
      (v : ℕ) (rest : List ℕ) → v < 2 ^ 62 → decode (encode v [] ++ rest) ≡ some (v, rest)

read_front : ℕ → List ℕ → Option (List ℕ × List ℕ)
read_front n bytes = if leb n (length bytes) then some (take n bytes, drop n bytes) else none

read_front_lem :
    (bytes rest : List ℕ) → read_front (length bytes) (bytes ++ rest) ≡ some (bytes, rest)
unfolding read_front
read_front_lem bytes rest =
    rw
      (
        le→leb (length bytes) (length (bytes ++ rest)) (omega (arith, length-append bytes rest)),
        take-length-append bytes rest,
        drop-length-append bytes rest,
      )
      refl

-- A stream that is read as it is written.
pub plain_io : Io
plain_io = record {
  write_u32_le = λ sent v. sent ++ to_le_bytes 4 v;
  write_all = λ sent bytes. sent ++ bytes;
  read_u32_le = plain_bytes.try_get_u32_le;
  read_exact = read_front;
  write_u32_le_lem = λ sent v. refl;
  write_all_lem = λ sent bytes. refl;
  read_u32_le_lem = try_get_u32_le-to_le_bytes plain_bytes;
  read_u32_le_nil = plain_bytes.try_get_u32_le_short [] (omega arith);
  read_exact_lem = read_front_lem;
}

read_word : Option (List ℕ × List ℕ) → Option (ℕ × List ℕ)
read_word none = none
read_word (some (front, rest)) = some (from_le_bytes front, rest)

read_word_lem :
    (v : ℕ) (rest : List ℕ)
    → v < 2 ^ 62
    → read_word (read_front 8 (to_le_bytes 8 v ++ rest)) ≡ some (v, rest)
unfolding read_word
read_word_lem v rest h =
    ap read_word (read_front_lem (to_le_bytes 8 v) rest)
    ∙ ap (λ (n : ℕ). some (n, rest)) (from_le_bytes-to_le_bytes 8 v (omega arith))

-- A code of eight bytes, which meets the laws of the integer.
pub eight_bytes : VarInt
eight_bytes = record {
  encode = λ v buf. buf ++ to_le_bytes 8 v;
  decode = λ bytes. read_word (read_front 8 bytes);
  encode_lem = λ v buf. refl;
  decode_encode = read_word_lem;
}
