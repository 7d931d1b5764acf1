-- ===== src/RevCrc.antt =====
-- src/rev_crc.rs: the CRC run backwards, and the four bytes that force a CRC.
pub mod Undo
pub mod Forge
mod Runs
use mathlib.Core.List.{reverse}
use factorio_multiplayer_cac.Common.{
  ℕ, ◌+◌, ◌*◌, ◌/◌, ◌%◌, ◌^◌, bit_xor, List, [], ◌∷◌, get_or, set, replicate, u32_mod, to_le_bytes,
}
use factorio_multiplayer_cac.Crates.Crc.{Crc}

-- `algorithm` is read for its `xorout` alone.
pub record RevCrc : Type 0 where
  pub xorout : ℕ
  pub reverse_table : List ℕ

-- The loop of `RevCRC::new` at index `n`, over what is left of the table.
pub fill : List ℕ → ℕ → List ℕ → List ℕ
fill [] n reverse_table = reverse_table
fill (entry ∷ rest) n reverse_table =
    fill rest (n + 1) (set reverse_table (entry / 2 ^ 24) (bit_xor (entry * 2 ^ 8 % u32_mod) n))

pub new : Crc → RevCrc
new crc = record { xorout = crc.xorout; reverse_table = fill crc.table 0 (replicate 256 0) }

-- One round of the loop of `RevCRC::update`.
pub back : RevCrc → ℕ → ℕ → ℕ
back self value byte =
    bit_xor (bit_xor (value * 2 ^ 8 % u32_mod) (get_or self.reverse_table (value / 2 ^ 24) 0)) byte

pub back_all : RevCrc → ℕ → List ℕ → ℕ
back_all self value [] = value
back_all self value (byte ∷ rest) = back_all self (back self value byte) rest

-- `RevCRC::update`: the bytes are taken last to first.
pub update_value : RevCrc → ℕ → List ℕ → ℕ
update_value self value bytes = back_all self value (reverse bytes)

pub record RevDigest : Type 0 where
  pub crc : RevCrc
  pub value : ℕ

pub digest : RevCrc → ℕ → RevDigest
digest self initial_value = record { crc = self; value = bit_xor initial_value self.xorout }

-- `RevDigest::update`.
pub update : RevDigest → List ℕ → RevDigest
update self bytes = record self { value = update_value self.crc self.value bytes }

pub finalize : RevDigest → ℕ
finalize self = self.value

pub forge_crc : ℕ → RevDigest → List ℕ
forge_crc before_digest after_digest =
    let before = bit_xor before_digest after_digest.crc.xorout in
    to_le_bytes 4 (finalize (update after_digest (to_le_bytes 4 before)))
