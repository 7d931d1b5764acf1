-- ===== src/Crates/Crc.antt =====
-- The package `crc`: a `Crc<u32, Table<1>>` of a reflected algorithm. A digest is its raw value.
pub mod IsoHdlc
use factorio_multiplayer_cac.Common.{
  ℕ, ◌/◌, ◌%◌, ◌^◌, ◌<◌, bit_xor, ◌≡◌, List, [], ◌∷◌, length, get_or, u32_mod,
}

pub record Crc : Type 0 where
  -- `crc.table()[0]`, `algorithm.xorout`, and the raw value of `crc.digest()`.
  pub table : List ℕ
  pub xorout : ℕ
  pub init : ℕ
  -- `Digest::update` and `Digest::finalize`.
  pub update : ℕ → List ℕ → ℕ
  pub finalize : ℕ → ℕ
  -- The entry of the table that begins with a given top byte.
  pub index_of : ℕ → ℕ
  pub length_table : length table ≡ 256
  pub table_lt : (i : ℕ) → i < 256 → get_or table i 0 < u32_mod
  pub index_of_top : (i : ℕ) → i < 256 → index_of (get_or table i 0 / 2 ^ 24) ≡ i
  pub index_of_lt : (t : ℕ) → t < 256 → index_of t < 256
  pub top_index_of : (t : ℕ) → t < 256 → get_or table (index_of t) 0 / 2 ^ 24 ≡ t
  pub xorout_lt : xorout < u32_mod
  pub init_lt : init < u32_mod
  pub update_nil : (v : ℕ) → update v [] ≡ v
  pub update_cons :
      (v b : ℕ) (bs : List ℕ)
      → update v (b ∷ bs) ≡ update (bit_xor (v / 256) (get_or table (bit_xor v b % 256) 0)) bs
  pub finalize_lem : (v : ℕ) → finalize v ≡ bit_xor v xorout

-- `crc.checksum(data)`.
abbrev pub checksum : Crc → List ℕ → ℕ
checksum c bytes = c.finalize (c.update c.init bytes)
