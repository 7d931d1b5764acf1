-- ===== src/Crates/Crc/IsoHdlc.antt =====
-- CRC-32/ISO-HDLC, the algorithm that the program chooses, as a value of the interface: the table
-- of the reflected polynomial 0xEDB88320, and the laws checked entry by entry.
use factorio_multiplayer_cac.Common.{
  ℕ, zero, suc, ◌+◌, ◌/◌, ◌%◌, ◌^◌, ◌<◌, bit_xor, ◌≡◌, refl, true, List, [], ◌∷◌, length, get_or,
  u32_mod, ltb, ltb→lt, ◌==◌, ==_iff, if◌then◌else◌,
}
use factorio_multiplayer_cac.Common.Below.{holds_below, holds_below_lem}
use factorio_multiplayer_cac.Crates.Crc.{Crc, checksum}

shift_out : ℕ → ℕ → ℕ
shift_out zero c = c
shift_out (suc n) c = shift_out n (if c % 2 == 1 then bit_xor (c / 2) 0xEDB88320 else c / 2)

entries : ℕ → ℕ → List ℕ
unfolding shift_out
entries zero i = []
entries (suc left) i = shift_out 8 i ∷ entries left (i + 1)

table : List ℕ
unfolding entries
table = entries 256 0

find_top : List ℕ → ℕ → ℕ → ℕ
find_top [] i t = 0
find_top (e ∷ es) i t = if e / 2 ^ 24 == t then i else find_top es (i + 1) t

index_of : ℕ → ℕ
unfolding table find_top
index_of t = find_top table 0 t

update : ℕ → List ℕ → ℕ
unfolding table
update v [] = v
update v (b ∷ bs) = update (bit_xor (v / 256) (get_or table (bit_xor v b % 256) 0)) bs

entry_checks : holds_below (λ i. ltb (get_or table i 0) u32_mod) 256 ≡ true
unfolding holds_below table
entry_checks = refl

top_checks : holds_below (λ i. index_of (get_or table i 0 / 2 ^ 24) == i) 256 ≡ true
unfolding holds_below index_of
top_checks = refl

index_checks : holds_below (λ t. ltb (index_of t) 256) 256 ≡ true
unfolding holds_below index_of
index_checks = refl

inverse_checks : holds_below (λ t. get_or table (index_of t) 0 / 2 ^ 24 == t) 256 ≡ true
unfolding holds_below index_of
inverse_checks = refl

length-table : length table ≡ 256
unfolding table
length-table = refl

iso_hdlc_lt : (i : ℕ) → i < 256 → get_or table i 0 < u32_mod
iso_hdlc_lt i h = ltb→lt _ _ (holds_below_lem _ 256 i h entry_checks)

iso_hdlc_top : (i : ℕ) → i < 256 → index_of (get_or table i 0 / 2 ^ 24) ≡ i
iso_hdlc_top i h =
    (==_iff _ i).0
      (holds_below_lem (λ i. index_of (get_or table i 0 / 2 ^ 24) == i) 256 i h top_checks)

iso_hdlc_index : (t : ℕ) → t < 256 → index_of t < 256
iso_hdlc_index t h = ltb→lt _ _ (holds_below_lem (λ t. ltb (index_of t) 256) 256 t h index_checks)

iso_hdlc_inverse : (t : ℕ) → t < 256 → get_or table (index_of t) 0 / 2 ^ 24 ≡ t
iso_hdlc_inverse t h =
    (==_iff _ t).0
      (holds_below_lem (λ t. get_or table (index_of t) 0 / 2 ^ 24 == t) 256 t h inverse_checks)

pub iso_hdlc : Crc
unfolding table update
iso_hdlc = record {
  table = table;
  xorout = 0xffff_ffff;
  init = 0xffff_ffff;
  update = update;
  finalize = λ v. bit_xor v 0xffff_ffff;
  index_of = index_of;
  length_table = length-table;
  table_lt = iso_hdlc_lt;
  index_of_top = iso_hdlc_top;
  index_of_lt = iso_hdlc_index;
  top_index_of = iso_hdlc_inverse;
  xorout_lt = ltb→lt 0xffff_ffff u32_mod refl;
  init_lt = ltb→lt 0xffff_ffff u32_mod refl;
  update_nil = λ v. refl;
  update_cons = λ v b bs. refl;
  finalize_lem = λ v. refl;
}

-- The check value that the catalogue of CRC algorithms gives for the text "123456789".
check_value :
    bit_xor (update 0xffff_ffff (49 ∷ 50 ∷ 51 ∷ 52 ∷ 53 ∷ 54 ∷ 55 ∷ 56 ∷ 57 ∷ [])) 0xffff_ffff
    ≡ 0xCBF43926
unfolding update
check_value = refl

-- Further values, for the examples.
pub two_bytes : checksum iso_hdlc (1 ∷ 2 ∷ []) ≡ 0xb6cc4292
unfolding iso_hdlc update
two_bytes = refl

pub one_entry :
    iso_hdlc.update iso_hdlc.init (
      80 ∷ 75 ∷ 3 ∷ 4 ∷ 45 ∷ 0 ∷ 0 ∷ 0 ∷ 0 ∷ 0 ∷ 0 ∷ 0 ∷ 0 ∷ 0 ∷ 146 ∷ 66 ∷ 204 ∷ 182 ∷ 2 ∷ 0 ∷ 0
      ∷ 0 ∷ 2 ∷ 0 ∷ 0 ∷ 0 ∷ 1 ∷ 0 ∷ 0 ∷ 0 ∷ 97 ∷ 1 ∷ 2 ∷ [])
    ≡ 0x5a939fe2
unfolding iso_hdlc update
one_entry = refl
