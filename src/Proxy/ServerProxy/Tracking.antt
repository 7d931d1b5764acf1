-- ===== src/Proxy/ServerProxy/Tracking.antt =====
-- The numbers of the blocks in the two sets of a download and among the received blocks.
use factorio_multiplayer_cac.Common.{
  ℕ, zero, suc, ◌+◌, ◌≤◌, ◌<◌, ◌≡◌, refl, ap, ◌∙◌, true, false, List, [], ◌∷◌, ◌++◌, All, All-map,
  length, length-append, ◌==◌, Bool-cases, ◌⊎◌, inl, inr, arith,
}
use factorio_multiplayer_cac.Common.BtreeSet.{
  BtreeSet, insert, remove, contains, IsAscending, contains-insert, length-insert, contains-remove,
  contains-remove_of_missing, length-remove, remove-All, remove-IsAscending,
}
use factorio_multiplayer_cac.Proxy.ServerProxy.{range}

-- Every block of the world is queued, asked for or received; the three make up the number of the
-- blocks, none is queued and asked for at once, and at most 16 are asked for.
abbrev pub IsKnown : BtreeSet → BtreeSet → List ℕ → ℕ → Type 0
IsKnown queue inflight received id =
    (contains id queue ≡ true) ⊎ ((contains id inflight ≡ true) ⊎ (contains id received ≡ true))

pub record IsTracked (queue inflight : BtreeSet) (received : List ℕ) (total : ℕ) : Type 0 where
  pub ascending : IsAscending queue
  pub apart : All (λ id. contains id inflight ≡ false) queue
  pub count : length queue + length inflight + length received ≡ total
  pub known : (id : ℕ) → id < total → IsKnown queue inflight received id
  pub limit : length inflight ≤ 16

apart-insert :
    (id : ℕ) (queue inflight : BtreeSet)
    → All (λ j. id < j) queue
    → All (λ j. contains j inflight ≡ false) queue
    → All (λ j. contains j (insert id inflight) ≡ false) queue
apart-insert id [] inflight above apart = tt
apart-insert id (j ∷ queue) inflight above apart = (
  contains-insert id j inflight ∙ ground (arith, above, apart),
  apart-insert id queue inflight above.1 apart.1,
)

pub ask_next :
    (id : ℕ) (queue inflight : BtreeSet) (received : List ℕ) (total : ℕ)
    → length inflight < 16
    → IsTracked (id ∷ queue) inflight received total
    → IsTracked queue (insert id inflight) received total
unfolding contains
ask_next id queue inflight received total room t = record {
  ascending = t.ascending.1;
  apart = apart-insert id queue inflight t.ascending.0 t.apart.1;
  count = omega (arith, t.count, length-insert id inflight t.apart.0);
  known = λ j lt. elim (t.known j lt) [
    | inl q ↦ elim (Bool-cases (j == id)) [
      | inl same ↦ inr (inl (contains-insert id j inflight ∙ rw same refl))
      | inr other ↦ inl (rw other at q)
    ]
    | inr (inl i) ↦ inr (inl (contains-insert id j inflight ∙ ground arith))
    | inr (inr r) ↦ inr (inr r)
  ];
  limit = omega (arith, length-insert id inflight t.apart.0);
}

contains-last : (j id : ℕ) (xs : List ℕ) → (j == id) ≡ true → contains j (xs ++ id ∷ []) ≡ true
unfolding contains
contains-last j id [] h = rw h refl
contains-last j id (x ∷ xs) h = ground (arith, contains-last j id xs h)

contains-append :
    (j id : ℕ) (xs : List ℕ) → contains j xs ≡ true → contains j (xs ++ id ∷ []) ≡ true
unfolding contains
contains-append j id [] h = cc
contains-append j id (x ∷ xs) h = ground (arith, contains-append j id xs)

pub take_inflight :
    (id : ℕ) (queue inflight : BtreeSet) (received : List ℕ) (total : ℕ)
    → contains id inflight ≡ true
    → IsTracked queue inflight received total
    → IsTracked queue (remove id inflight) (received ++ id ∷ []) total
take_inflight id queue inflight received total there t = record {
  ascending = t.ascending;
  apart = All-map (λ j h. contains-remove_of_missing id j inflight h) queue t.apart;
  count = omega (arith, t.count, length-remove id inflight there, length-append received (id ∷ []));
  known = λ j lt. elim (Bool-cases (j == id)) [
    | inl same ↦ inr (inr (contains-last j id received same))
    | inr other ↦ elim (t.known j lt) [
      | inl q ↦ inl q
      | inr (inl i) ↦ inr (inl (contains-remove id j inflight i other))
      | inr (inr r) ↦ inr (inr (contains-append j id received r))
    ]
  ];
  limit = omega (arith, t.limit, length-remove id inflight there);
}

pub take_queued :
    (id : ℕ) (queue inflight : BtreeSet) (received : List ℕ) (total : ℕ)
    → contains id queue ≡ true
    → IsTracked queue inflight received total
    → IsTracked (remove id queue) inflight (received ++ id ∷ []) total
take_queued id queue inflight received total there t = record {
  ascending = remove-IsAscending id queue t.ascending;
  apart = remove-All (λ j. contains j inflight ≡ false) id queue t.apart;
  count = omega (arith, t.count, length-remove id queue there, length-append received (id ∷ []));
  known = λ j lt. elim (Bool-cases (j == id)) [
    | inl same ↦ inr (inr (contains-last j id received same))
    | inr other ↦ elim (t.known j lt) [
      | inl q ↦ inl (contains-remove id j queue q other)
      | inr (inl i) ↦ inr (inl i)
      | inr (inr r) ↦ inr (inr (contains-append j id received r))
    ]
  ];
  limit = t.limit;
}

pub length-range : (i n : ℕ) → length (range i n) ≡ n
unfolding range
length-range i zero = refl
length-range i (suc n) = ap suc (length-range (suc i) n)

pub contains-range : (id i n : ℕ) → i ≤ id → id < i + n → contains id (range i n) ≡ true
unfolding range contains
contains-range id i zero lo hi = absurd (omega arith)
contains-range id i (suc n) lo hi = elim (Bool-cases (id == i)) [
  | inl same ↦ rw same refl
  | inr later ↦ rw later (contains-range id (suc i) n (ground arith) (omega arith))
]

range-above : (k i n : ℕ) → k < i → All (λ j. k < j) (range i n)
unfolding range
range-above k i zero lt = tt
range-above k i (suc n) lt = (lt, range-above k (suc i) n (omega arith))

pub range-IsAscending : (i n : ℕ) → IsAscending (range i n)
unfolding range
range-IsAscending i zero = tt
range-IsAscending i (suc n) = (range-above i (suc i) n (omega arith), range-IsAscending (suc i) n)

pub range-All : (i n : ℕ) → All (λ id. contains id [] ≡ false) (range i n)
unfolding range contains
range-All i zero = tt
range-All i (suc n) = (refl, range-All (suc i) n)
