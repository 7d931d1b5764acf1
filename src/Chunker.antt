-- ===== src/Chunker.antt =====
-- src/chunker.rs: the rolling hash, and the chunks that it cuts.
pub mod Rolling
pub mod Split
pub mod Local
mod Runs
use factorio_multiplayer_cac.Common.{
  ℕ, zero, suc, ◌+◌, ◌-◌, ◌*◌, ◌%◌, ◌^◌, min, Option, none, some, List, [], ◌∷◌, length, get_or,
  set, replicate, take, drop, leb, ◌==◌, ◌||◌, if◌then◌else◌, u32_mod,
}

pub record RabinKarpHash : Type 0 where
  pub hash : ℕ
  pub window : List ℕ
  pub window_pos : ℕ

abbrev pub offset : ℕ
offset = 31

abbrev pub mult : ℕ
mult = 0x08104225

abbrev pub window_size : ℕ
window_size = 32

-- `u32::wrapping_pow(MULT, WINDOW_SIZE + 1)`.
abbrev pub window_mult : ℕ
window_mult = mult ^ (window_size + 1) % u32_mod

pub new_hash : RabinKarpHash
new_hash = record { hash = 0; window = replicate window_size 0; window_pos = 0 }

-- `RabinKarpHash::update`; what it returns is the new `hash`.
pub update : RabinKarpHash → ℕ → RabinKarpHash
update self added_byte =
    let added = (added_byte + offset) % u32_mod in
    let removed = get_or self.window self.window_pos 0 * window_mult % u32_mod in
    record {
      hash = ((self.hash + added) % u32_mod * mult % u32_mod + u32_mod - removed) % u32_mod;
      window = set self.window self.window_pos added;
      window_pos = (self.window_pos + 1) % window_size;
    }

pub reset : RabinKarpHash → RabinKarpHash
reset self = record { hash = 0; window = replicate (length self.window) 0; window_pos = 0 }

abbrev pub min_chunk_size : ℕ
min_chunk_size = 512

abbrev pub max_chunk_size : ℕ
max_chunk_size = 4096

-- `hash & CHUNK_MASK` with a mask of eleven ones.
abbrev pub chunk_mask_size : ℕ
chunk_mask_size = 2048

pub record Chunker : Type 0 where
  pub rolling_hash : RabinKarpHash
  pub bytes : List ℕ

pub new : List ℕ → Chunker
unfolding new_hash
new bytes = record { rolling_hash = new_hash; bytes = bytes }

-- The `for` loop of `next`, over the bytes that it has not reached.
pub scan : RabinKarpHash → ℕ → List ℕ → RabinKarpHash × ℕ
scan h chunk_size [] = (h, chunk_size)
scan h chunk_size (byte ∷ rest) =
    let h' = update h byte in
    let more = scan h' (chunk_size + 1) rest in
    if h'.hash % chunk_mask_size == 0 || leb max_chunk_size (chunk_size + 1)
    then (h', chunk_size + 1)
    else more

pub next : Chunker → Option (List ℕ × Chunker)
unfolding scan reset
next self = elim self.bytes [
  | [] ↦ none
  | _ ∷ _ ↦
      let start = min min_chunk_size (length self.bytes) in
      let (h, chunk_size) = scan self.rolling_hash start (drop start self.bytes) in
      some (
        take chunk_size self.bytes,
        record { rolling_hash = reset h; bytes = drop chunk_size self.bytes },
      )
]

abbrev pub push_front {ℓ} : {A : Type ℓ} → A → Option (List A) → Option (List A)
push_front x none = none
push_front x (some xs) = some (x ∷ xs)

-- `for chunk in chunker`; `none` means that the fuel ran out.
pub collect : ℕ → Chunker → Option (List (List ℕ))
collect zero c = none
collect (suc fuel) c = elim (next c) [
  | none ↦ some []
  | some (chunk, c') ↦ push_front chunk (collect fuel c')
]
