-- ===== src/Proxy/ServerProxy/Sorting.antt =====
-- The received blocks in the order of their numbers: when all have come, they are the numbers from
-- zero on.
use factorio_multiplayer_cac.Common.{
  ℕ, zero, suc, ◌+◌, ◌≤◌, ◌<◌, ◌≡◌, refl, sym, ap, ap₂, ◌∙◌, true, false, List, [], ◌∷◌, map,
  length, All, ltb, leb, ◌==◌, ==_iff, Bool-cases, inl, inr, arith,
}
use mathlib.Core.Path.{subst}
use factorio_multiplayer_cac.Common.BtreeSet.{contains, remove, contains-remove, length-remove}
use factorio_multiplayer_cac.FactorioProtocol.{TransferBlockPacket}
use factorio_multiplayer_cac.Proxy.ServerProxy.{range}
use factorio_multiplayer_cac.Proxy.ServerProxy.Transfer.{insert_block, sort_blocks}

abbrev pub ids : List TransferBlockPacket → List ℕ
ids blocks = map (λ (b : TransferBlockPacket). b.block_id) blocks

abbrev IsSorted : List ℕ → Type 0
IsSorted [] = Unit
IsSorted (x ∷ xs) = All (λ y. x ≤ y) xs × IsSorted xs

module _ (P : TransferBlockPacket → Type 0) where
  insert_block-All :
      (b : TransferBlockPacket) (bs : List TransferBlockPacket)
      → P b
      → All P bs
      → All P (insert_block b bs)
  unfolding insert_block
  insert_block-All b [] h hs = (h, tt)
  insert_block-All b (c ∷ bs) h hs = ground (arith, insert_block-All b bs h hs.1)

  pub sort_blocks-All : (bs : List TransferBlockPacket) → All P bs → All P (sort_blocks bs)
  unfolding sort_blocks
  sort_blocks-All [] h = tt
  sort_blocks-All (b ∷ bs) h = insert_block-All b (sort_blocks bs) h.0 (sort_blocks-All bs h.1)

ids-insert_block-All :
    (P : ℕ → Type 0) (b : TransferBlockPacket) (bs : List TransferBlockPacket)
    → P b.block_id
    → All P (ids bs)
    → All P (ids (insert_block b bs))
unfolding insert_block
ids-insert_block-All P b [] h hs = (h, tt)
ids-insert_block-All P b (c ∷ bs) h hs = ground (arith, ids-insert_block-All P b bs h hs.1)

All-le_trans : (x y : ℕ) (zs : List ℕ) → x ≤ y → All (λ z. y ≤ z) zs → All (λ z. x ≤ z) zs
All-le_trans x y [] le h = tt
All-le_trans x y (z ∷ zs) le h = (omega (arith, h.0), All-le_trans x y zs le h.1)

insert_block-IsSorted :
    (b : TransferBlockPacket) (bs : List TransferBlockPacket)
    → IsSorted (ids bs)
    → IsSorted (ids (insert_block b bs))
unfolding insert_block
insert_block-IsSorted b [] s = (tt, tt)
insert_block-IsSorted b (c ∷ bs) s = elim (Bool-cases (leb b.block_id c.block_id)) [
  | inl le ↦
      rw (insert_block, le)
        ((ground arith, All-le_trans b.block_id c.block_id (ids bs) (ground arith) s.0), s)
  | inr gt ↦
      rw (insert_block, gt)
        (
          ids-insert_block-All (λ y. c.block_id ≤ y) b bs (ground arith) s.0,
          insert_block-IsSorted b bs s.1,
        )
]

sort_blocks-IsSorted : (bs : List TransferBlockPacket) → IsSorted (ids (sort_blocks bs))
unfolding sort_blocks
sort_blocks-IsSorted [] = tt
sort_blocks-IsSorted (b ∷ bs) = insert_block-IsSorted b (sort_blocks bs) (sort_blocks-IsSorted bs)

contains-insert_block :
    (z : ℕ) (b : TransferBlockPacket) (bs : List TransferBlockPacket)
    → contains z (ids (insert_block b bs)) ≡ contains z (b.block_id ∷ ids bs)
unfolding insert_block contains
contains-insert_block z b [] = refl
contains-insert_block z b (c ∷ bs) = ground (arith, contains-insert_block z b bs)

contains-sort_blocks :
    (z : ℕ) (bs : List TransferBlockPacket)
    → contains z (ids (sort_blocks bs)) ≡ contains z (ids bs)
unfolding sort_blocks contains
contains-sort_blocks z [] = refl
contains-sort_blocks z (b ∷ bs) =
    contains-insert_block z b (sort_blocks bs) ∙ ground (arith, contains-sort_blocks z bs)

length-insert_block :
    (b : TransferBlockPacket) (bs : List TransferBlockPacket)
    → length (insert_block b bs) ≡ suc (length bs)
unfolding insert_block
length-insert_block b [] = refl
length-insert_block b (c ∷ bs) = ground (arith, length-insert_block b bs)

length-sort_blocks : (bs : List TransferBlockPacket) → length (ids (sort_blocks bs)) ≡ length bs
unfolding sort_blocks
length-sort_blocks bs = length-ids (sort_blocks bs) ∙ go bs
  where
    length-ids : (bs : List TransferBlockPacket) → length (ids bs) ≡ length bs
    length-ids [] = refl
    length-ids (b ∷ bs) = ap suc (length-ids bs)

    go : (bs : List TransferBlockPacket) → length (sort_blocks bs) ≡ length bs
    go [] = refl
    go (b ∷ bs) = length-insert_block b (sort_blocks bs) ∙ ap suc (go bs)

-- A list has as many numbers as the range whose numbers it contains.
range-le-length :
    (n i : ℕ) (xs : List ℕ) → ((j : ℕ) → i ≤ j → j < i + n → contains j xs ≡ true) → n ≤ length xs
range-le-length zero i xs all = omega arith
range-le-length (suc n) i xs all =
    let there : contains i xs ≡ true = all i (omega arith) (omega arith) in
    omega (
      arith,
      length-remove i xs there,
      range-le-length n (suc i) (remove i xs)
          (λ j lo hi. contains-remove i j xs (all j (omega arith) (omega arith)) (ground arith)),
    )

All-contains : (P : ℕ → Type 0) (j : ℕ) (xs : List ℕ) → All P xs → contains j xs ≡ true → P j
unfolding contains
All-contains P j [] h there = cc
All-contains P j (x ∷ xs) h there = elim (Bool-cases (j == x)) [
  | inl same ↦ subst P (sym ((==_iff j x).0 same)) h.0
  | inr other ↦ All-contains P j xs h.1 (rw other at there)
]

contains-behind :
    (j x : ℕ) (xs : List ℕ) → contains j (x ∷ xs) ≡ true → (j == x) ≡ false → contains j xs ≡ true
unfolding contains
contains-behind j x xs there other = rw other at there

-- The least of the numbers that fill a range is its first.
first_of_range :
    (n i x : ℕ) (xs : List ℕ)
    → IsSorted (x ∷ xs)
    → length xs ≡ n
    → ((j : ℕ) → i ≤ j → j < i + suc n → contains j (x ∷ xs) ≡ true)
    → x ≡ i
first_of_range n i x xs s size all =
    let not_above : x ≤ i = elim (Bool-cases (i == x)) [
      | inl same ↦ ground arith
      | inr other ↦
          All-contains (λ y. x ≤ y) i xs s.0
            (contains-behind i x xs (all i (omega arith) (omega arith)) other)
    ] in
    elim (Bool-cases (ltb x i)) [
      | inl below ↦ absurd (
          omega (
            arith,
            size,
            range-le-length (suc n) i xs
                (λ j lo hi. contains-behind j x xs (all j lo hi) (ground arith)),
          ))
      | inr above ↦ ground arith
    ]

sorted_range :
    (n i : ℕ) (xs : List ℕ)
    → IsSorted xs
    → length xs ≡ n
    → ((j : ℕ) → i ≤ j → j < i + n → contains j xs ≡ true)
    → xs ≡ range i n
unfolding range
sorted_range zero i [] s size all = refl
sorted_range zero i (x ∷ xs) s size all = absurd (omega (arith, size))
sorted_range (suc n) i [] s size all = absurd (omega (arith, size))
sorted_range (suc n) i (x ∷ xs) s size all =
    let first : x ≡ i = first_of_range n i x xs s (omega (arith, size)) all in
    ap₂ ◌∷◌ first (
      sorted_range n (suc i) xs s.1 (omega (arith, size)) (λ j lo hi.
        contains-behind j x xs (all j (omega arith) (omega arith)) (ground (arith, first))))

-- If there are as many blocks as the range has numbers, and all numbers are among theirs, then
-- sorted they are the range.
pub sort_blocks-range :
    (n : ℕ) (bs : List TransferBlockPacket)
    → length bs ≡ n
    → ((j : ℕ) → j < n → contains j (ids bs) ≡ true)
    → ids (sort_blocks bs) ≡ range 0 n
sort_blocks-range n bs size all =
    sorted_range n 0 (ids (sort_blocks bs)) (sort_blocks-IsSorted bs) (length-sort_blocks bs ∙ size)
      (λ j lo hi. contains-sort_blocks j bs ∙ all j (omega arith))
