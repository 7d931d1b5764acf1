-- ===== src/Crates/Content.antt =====
-- The packages that look into file contents: `blake3`, `miniz_oxide` and the reader of `zip`.
use factorio_multiplayer_cac.Common.{
  ℕ, ◌≤◌, ◌≡◌, refl, Option, some, none, List, length, All, IsByte, leb, le→leb, if◌then◌else◌,
  to_le_bytes, length-to_le_bytes, to_le_bytes-IsByte,
}

-- A hash is its 32 bytes.
pub record Blake3 : Type 0 where
  pub hash : List ℕ → List ℕ
  pub length_hash : (bytes : List ℕ) → length (hash bytes) ≡ 32
  pub hash_bytes : (bytes : List ℕ) → All IsByte (hash bytes)

-- `compress_to_vec_zlib` and `decompress_to_vec_zlib_with_limit`; `none` is an error.
pub record Miniz : Type 0 where
  pub compress : List ℕ → ℕ → List ℕ
  pub decompress : List ℕ → ℕ → Option (List ℕ)
  pub decompress_compress :
      (bytes : List ℕ) (level limit : ℕ)
      → length bytes ≤ limit
      → decompress (compress bytes level) limit ≡ some bytes

-- `ZipArchive`: opening, the number of entries, and an entry's name and content by its index. The
-- outer `none` is an error of `by_index`, the inner one an error of `read_to_end`.
pub record ZipReader : Type 1 where
  pub Archive : Type 0
  pub open_archive : List ℕ → Option Archive
  pub len : Archive → ℕ
  pub by_index : Archive → ℕ → Option (List ℕ × Option (List ℕ))

-- A hash of the length, and no compression.
abbrev pub length_hash : Blake3
length_hash = record {
  hash = λ bytes. to_le_bytes 32 (length bytes);
  length_hash = λ bytes. length-to_le_bytes 32 (length bytes);
  hash_bytes = λ bytes. to_le_bytes-IsByte 32 (length bytes);
}

abbrev pub no_compression : Miniz
no_compression = record {
  compress = λ bytes level. bytes;
  decompress = λ bytes limit. if leb (length bytes) limit then some bytes else none;
  decompress_compress = λ bytes level limit h. rw (le→leb (length bytes) limit h) refl;
}
