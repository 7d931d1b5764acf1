-- ===== src/RevCrc/Undo.antt =====
-- A round of the backward CRC is the inverse of a round of the forward one.
use native.Mathlib.Nat.{zero-add}
use factorio_multiplayer_cac.Common.{
  ℕ, zero, suc, ◌+◌, ◌*◌, ◌/◌, ◌%◌, ◌^◌, ◌<◌, bit_xor, ◌≡◌, refl, ap, ap₂, ◌∙◌, List, [], ◌∷◌,
  length, get_or, set, replicate, length-set, length-replicate, get_or-set_self, get_or-set_ne,
  u32_mod, IsByte, IsU32, arith,
}
use factorio_multiplayer_cac.Common.Xor.{
  xor_comm, xor_cancel_right, xor_fields, xor-lt, zero-xor, xor_low_field, xor_byte_parts,
}
use factorio_multiplayer_cac.Crates.Crc.{Crc}
use factorio_multiplayer_cac.RevCrc.{fill, new, back}

word_moved : (w : ℕ) → w * 2 ^ 8 % u32_mod ≡ w % 2 ^ 24 * 256 + 0
word_moved w = omega arith

module _ (crc : Crc) where
  -- One forward round.
  abbrev pub forth : ℕ → ℕ → ℕ
  forth v b = bit_xor (v / 256) (get_or crc.table (bit_xor v b % 256) 0)

  abbrev entry_at : ℕ → ℕ
  entry_at i = get_or crc.table i 0

  Labels : List ℕ → ℕ → Type 0
  Labels rest n = (i : ℕ) → i < length rest → crc.index_of (get_or rest i 0 / 2 ^ 24) ≡ n + i

  Labels-tail : (t n : ℕ) (rest : List ℕ) → Labels (t ∷ rest) n → Labels rest (n + 1)
  unfolding Labels
  Labels-tail t n rest h = λ i lt. omega (arith, h (suc i) (omega arith))

  -- The loop leaves a slot alone that belongs to an entry it has passed.
  fill-passed :
      (rest : List ℕ) (n p : ℕ) (table : List ℕ)
      → Labels rest n
      → crc.index_of p < n
      → get_or (fill rest n table) p 0 ≡ get_or table p 0
  unfolding fill Labels
  fill-passed [] n p table h lt = refl
  fill-passed (t ∷ rest) n p table h lt =
      fill-passed rest (n + 1) p (set table (t / 2 ^ 24) (bit_xor (t * 2 ^ 8 % u32_mod) n))
        (Labels-tail t n rest h) (omega arith)
      ∙ get_or-set_ne table (t / 2 ^ 24) p _ 0
          λ e. omega (arith, h 0 (omega arith), ap (λ (x : ℕ). crc.index_of x) e)

  fill_lem :
      (rest : List ℕ) (n i : ℕ) (table : List ℕ)
      → Labels rest n
      → i < length rest
      → get_or rest i 0 / 2 ^ 24 < length table
      → get_or (fill rest n table) (get_or rest i 0 / 2 ^ 24) 0
        ≡ bit_xor (get_or rest i 0 * 2 ^ 8 % u32_mod) (n + i)
  unfolding fill
  fill_lem [] n i table h lt below = absurd (omega arith)
  fill_lem (t ∷ rest) n zero table h lt below =
      fill-passed rest (n + 1) (t / 2 ^ 24) _ (Labels-tail t n rest h)
        (unfold Labels in omega (arith, h 0 (omega arith)))
      ∙ get_or-set_self table (t / 2 ^ 24) _ 0 below
      ∙ ap (bit_xor (t * 2 ^ 8 % u32_mod)) (omega arith)
  fill_lem (t ∷ rest) n (suc i) table h lt below =
      fill_lem rest (n + 1) i _ (Labels-tail t n rest h) (omega arith) (rw length-set below)
      ∙ ap (bit_xor (get_or rest i 0 * 2 ^ 8 % u32_mod)) (omega arith)

  -- The slot of the top byte of entry `n` holds that entry, moved up, with `n` below.
  pub reverse_table_lem :
      (n : ℕ)
      → n < 256
      → get_or (new crc).reverse_table (entry_at n / 2 ^ 24) 0 ≡ entry_at n % 2 ^ 24 * 256 + n
  unfolding new
  reverse_table_lem n lt =
      fill_lem crc.table 0 n (replicate 256 0) labels (rw crc.length_table lt)
        (rw length-replicate (omega (arith, crc.table_lt n lt)))
      ∙ as_sum
    where
      labels : Labels crc.table 0
      labels = unfold Labels in λ i h. omega (arith, crc.index_of_top i (rw crc.length_table at h))

      as_sum : bit_xor (entry_at n * 2 ^ 8 % u32_mod) (0 + n) ≡ entry_at n % 2 ^ 24 * 256 + n
      as_sum =
          ap₂ bit_xor (word_moved (entry_at n)) (zero-add n)
          ∙ xor_low_field 8 (entry_at n % 2 ^ 24) 0 n (omega arith) lt
          ∙ ap (λ (t : ℕ). entry_at n % 2 ^ 24 * 256 + t) (zero-xor n)

  -- What a backward round makes of a word whose top byte is that of entry `n`.
  back_at :
      (n z b : ℕ)
      → n < 256
      → z < 2 ^ 24
      → IsByte b
      → back (new crc) (entry_at n / 2 ^ 24 * 2 ^ 24 + z) b
        ≡ bit_xor z (entry_at n % 2 ^ 24) * 256 + bit_xor n b
  unfolding back
  back_at n z b hn hz hb =
      ap (λ (t : ℕ). bit_xor t b)
        (ap₂ bit_xor low
            (ap (λ (t : ℕ). get_or (new crc).reverse_table t 0) top ∙ reverse_table_lem n hn)
          ∙ xor_fields 8 z (entry_at n % 2 ^ 24) 0 n (omega arith) hn
          ∙ ap (λ (t : ℕ). bit_xor z (entry_at n % 2 ^ 24) * 256 + t) (zero-xor n))
      ∙ xor_low_field 8 (bit_xor z (entry_at n % 2 ^ 24)) n b hn hb
    where
      low : (entry_at n / 2 ^ 24 * 2 ^ 24 + z) * 2 ^ 8 % u32_mod ≡ z * 2 ^ 8 + 0
      low = omega arith

      top : (entry_at n / 2 ^ 24 * 2 ^ 24 + z) / 2 ^ 24 ≡ entry_at n / 2 ^ 24
      top = omega arith

  -- What a forward round makes of a word, where `n` is the entry that it reads.
  forth_at :
      (q n : ℕ)
      → q < 2 ^ 24
      → bit_xor q (entry_at n) ≡ entry_at n / 2 ^ 24 * 2 ^ 24 + bit_xor q (entry_at n % 2 ^ 24)
  forth_at q n hq =
      xor_comm q (entry_at n)
      ∙ ap (λ (t : ℕ). bit_xor t q) (omega arith)
      ∙ xor_low_field 24 (entry_at n / 2 ^ 24) (entry_at n % 2 ^ 24) q (omega arith) hq
      ∙ ap (λ (t : ℕ). entry_at n / 2 ^ 24 * 2 ^ 24 + t) (xor_comm (entry_at n % 2 ^ 24) q)

  pub forth-lt : (v b : ℕ) → IsU32 v → IsU32 (forth v b)
  forth-lt v b hv =
      xor-lt 32 (v / 256) _ (omega arith) (crc.table_lt (bit_xor v b % 256) (omega arith))

  -- A backward round undoes a forward round over the same byte.
  pub back-forth : (v b : ℕ) → IsU32 v → IsByte b → back (new crc) (forth v b) b ≡ v
  back-forth v b hv hb =
      let n : ℕ = bit_xor v b % 256 in
      let low : n ≡ bit_xor (v % 256) b = (xor_byte_parts v b hb).1 in
      let z : ℕ = bit_xor (v / 256) (entry_at n % 2 ^ 24) in
      ap (λ (t : ℕ). back (new crc) t b) (forth_at (v / 256) n (omega arith))
      ∙ back_at n z b (omega arith) (xor-lt 24 (v / 256) _ (omega arith) (omega arith)) hb
      ∙ ap₂ (λ (x y : ℕ). x * 256 + y) (xor_cancel_right (v / 256) _)
          (ap (λ (t : ℕ). bit_xor t b) low ∙ xor_cancel_right (v % 256) b)
      ∙ omega arith

  -- And a forward round undoes a backward round.
  pub forth-back : (w b : ℕ) → IsU32 w → IsByte b → forth (back (new crc) w b) b ≡ w
  forth-back w b hw hb =
      let n : ℕ = crc.index_of (w / 2 ^ 24) in
      let hn : n < 256 = crc.index_of_lt (w / 2 ^ 24) (omega arith) in
      let top : entry_at n / 2 ^ 24 ≡ w / 2 ^ 24 = crc.top_index_of (w / 2 ^ 24) (omega arith) in
      let u : ℕ = entry_at n % 2 ^ 24 in
      let q : ℕ = bit_xor (w % 2 ^ 24) u in
      let split : w ≡ entry_at n / 2 ^ 24 * 2 ^ 24 + w % 2 ^ 24 = omega arith in
      let m : ℕ = bit_xor n b in
      let small : m < 256 = xor-lt 8 n b hn hb in
      let before : back (new crc) w b ≡ q * 256 + m =
        ap (λ (t : ℕ). back (new crc) t b) split ∙ back_at n (w % 2 ^ 24) b hn (omega arith) hb in
      let index : bit_xor (q * 256 + m) b % 256 ≡ n =
        (xor_byte_parts (q * 256 + m) b hb).1
        ∙ ap (λ (t : ℕ). bit_xor t b) (omega arith)
        ∙ xor_cancel_right n b in
      ap (λ (t : ℕ). forth t b) before
      ∙ ap₂ bit_xor (omega arith) (ap entry_at index)
      ∙ forth_at q n (xor-lt 24 (w % 2 ^ 24) u (omega arith) (omega arith))
      ∙ ap₂ (λ (x y : ℕ). x * 2 ^ 24 + y) top (xor_cancel_right (w % 2 ^ 24) u)
      ∙ omega arith

  pub back-lt : (w b : ℕ) → IsU32 w → IsByte b → IsU32 (back (new crc) w b)
  back-lt w b hw hb =
      let n : ℕ = crc.index_of (w / 2 ^ 24) in
      let hn : n < 256 = crc.index_of_lt (w / 2 ^ 24) (omega arith) in
      let top : entry_at n / 2 ^ 24 ≡ w / 2 ^ 24 = crc.top_index_of (w / 2 ^ 24) (omega arith) in
      let split : w ≡ entry_at n / 2 ^ 24 * 2 ^ 24 + w % 2 ^ 24 = omega arith in
      omega (
        arith,
        ap (λ (t : ℕ). back (new crc) t b) split ∙ back_at n (w % 2 ^ 24) b hn (omega arith) hb,
        xor-lt 8 n b hn hb,
        xor-lt 24 (w % 2 ^ 24) (entry_at n % 2 ^ 24) (omega arith) (omega arith),
      )
