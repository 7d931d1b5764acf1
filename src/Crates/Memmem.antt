-- ===== src/Crates/Memmem.antt =====
-- The package `memchr`: the iterator `find_iter` of `memmem::Finder`.
use factorio_multiplayer_cac.Common.{
  ℕ, zero, suc, ◌+◌, ◌<◌, ◌≡◌, refl, ap, ap₂, Bool, true, false, List, [], ◌∷◌, ◌++◌, length, drop,
  ◌==◌, if◌then◌else◌, Bool-cases, inl, inr, arith,
}
use mathlib.Core.Path.{subst}

unfoldable pub starts_with : List ℕ → List ℕ → Bool
starts_with [] bytes = true
starts_with (n ∷ ns) [] = false
starts_with (n ∷ ns) (b ∷ bs) = if n == b then starts_with ns bs else false

module _ (needle : List ℕ) where
  abbrev pub IsWithout : List ℕ → Type 0
  IsWithout bytes = (j : ℕ) → starts_with needle (drop j bytes) ≡ false

  -- These are the positions of the needle from left to right, without overlaps, in bytes that
  -- stand at a position of the haystack.
  abbrev pub IsFound : ℕ → List ℕ → List ℕ → Type 0
  IsFound start bytes [] = IsWithout bytes
  IsFound start bytes (pos ∷ positions) =
      (before : List ℕ) × (rest : List ℕ) × (pos ≡ start + length before)
      × (bytes ≡ before ++ (needle ++ rest))
      × ((j : ℕ) → j < length before → starts_with needle (drop j bytes) ≡ false)
      × IsFound (pos + length needle) rest positions

-- The positions that an iterator over a haystack gives.
pub record Memmem : Type 0 where
  pub find_iter : List ℕ → List ℕ → List ℕ
  pub find_iter_lem :
      (n : ℕ) (ns haystack : List ℕ) → IsFound (n ∷ ns) 0 haystack (find_iter (n ∷ ns) haystack)

module _ (n : ℕ) (ns : List ℕ) where
  -- A search that compares at every position, and skips what it found.
  scan : ℕ → ℕ → List ℕ → List ℕ
  scan skip pos [] = []
  scan (suc skip) pos (b ∷ bs) = scan skip (suc pos) bs
  scan zero pos (b ∷ bs) =
      let found = scan (length ns) (suc pos) bs in
      let missed = scan zero (suc pos) bs in
      if starts_with (n ∷ ns) (b ∷ bs) then pos ∷ found else missed

  IsWithout-nil : IsWithout (n ∷ ns) []
  unfolding starts_with
  IsWithout-nil zero = refl
  IsWithout-nil (suc j) = refl

  -- A byte more in front, where the needle does not stand.
  not_before :
      (b : ℕ) (bs : List ℕ) (k : ℕ)
      → starts_with (n ∷ ns) (b ∷ bs) ≡ false
      → ((j : ℕ) → j < k → starts_with (n ∷ ns) (drop j bs) ≡ false)
      → (j : ℕ) → j < suc k
      → starts_with (n ∷ ns) (drop j (b ∷ bs)) ≡ false
  not_before b bs k h before zero lt = h
  not_before b bs k h before (suc j) lt = before j (omega arith)

  IsWithout-cons :
      (b : ℕ) (bs : List ℕ)
      → starts_with (n ∷ ns) (b ∷ bs) ≡ false
      → IsWithout (n ∷ ns) bs
      → IsWithout (n ∷ ns) (b ∷ bs)
  IsWithout-cons b bs h without zero = h
  IsWithout-cons b bs h without (suc j) = without j

  IsFound-cons :
      (pos b : ℕ) (bs positions : List ℕ)
      → starts_with (n ∷ ns) (b ∷ bs) ≡ false
      → IsFound (n ∷ ns) (suc pos) bs positions
      → IsFound (n ∷ ns) pos (b ∷ bs) positions
  IsFound-cons pos b bs [] h found = IsWithout-cons b bs h found
  IsFound-cons pos b bs (p ∷ positions) h (before, rest, at, whole, first, later) = (
    b ∷ before,
    rest,
    omega arith,
    ap (◌∷◌ b) whole,
    not_before b bs (length before) h first,
    later,
  )

  starts_with-drop :
      (ms bytes : List ℕ) → starts_with ms bytes ≡ true → bytes ≡ ms ++ drop (length ms) bytes
  unfolding starts_with
  starts_with-drop [] bytes h = refl
  starts_with-drop (m ∷ ms) [] h = cc
  starts_with-drop (m ∷ ms) (b ∷ bs) h = elim (Bool-cases (m == b)) [
    | inl same ↦ ap₂ ◌∷◌ (ground arith) (starts_with-drop ms bs (rw same at h))
    | inr other ↦ cc (rw other at h)
  ]

  scan-IsFound :
      (skip pos : ℕ) (bytes : List ℕ)
      → IsFound (n ∷ ns) (pos + skip) (drop skip bytes) (scan skip pos bytes)
  unfolding scan starts_with
  scan-IsFound zero pos [] = IsWithout-nil
  scan-IsFound (suc skip) pos [] = IsWithout-nil
  scan-IsFound (suc skip) pos (b ∷ bs) =
      subst (λ p. IsFound (n ∷ ns) p (drop skip bs) (scan skip (suc pos) bs)) (omega arith)
        (scan-IsFound skip (suc pos) bs)
  scan-IsFound zero pos (b ∷ bs) = elim (Bool-cases (starts_with (n ∷ ns) (b ∷ bs))) [
    | inl found ↦
        rw (starts_with, found)
          (
            [],
            drop (length ns) bs,
            omega arith,
            starts_with-drop (n ∷ ns) (b ∷ bs) found,
            λ j lt. absurd (omega arith),
            subst (λ p. IsFound (n ∷ ns) p (drop (length ns) bs) (scan (length ns) (suc pos) bs))
                (omega arith) (scan-IsFound (length ns) (suc pos) bs),
          )
    | inr missed ↦
        rw (starts_with, missed)
          (IsFound-cons (pos + 0) b bs (scan zero (suc pos) bs) missed (
            subst (λ p. IsFound (n ∷ ns) p bs (scan zero (suc pos) bs)) (omega arith)
              (scan-IsFound zero (suc pos) bs)))
  ]

search_from : List ℕ → List ℕ → List ℕ
search_from [] haystack = []
search_from (n ∷ ns) haystack = scan n ns 0 0 haystack

-- A search that behaves so.
pub plain_search : Memmem
unfolding search_from
plain_search = record {
  find_iter = search_from;
  find_iter_lem = λ n ns haystack. scan-IsFound n ns 0 0 haystack;
}
