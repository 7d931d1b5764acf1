-- ===== src/Common/BtreeSet.antt =====
-- `BTreeSet` of the standard library, over numbers, as the ascending list that its iterator gives.
use Prim.Native.Nat.{ℕ, suc, ◌<◌}
use mathlib.Core.Path.{◌≡◌, refl}
use mathlib.Core.Bool.{Bool, true, false}
use mathlib.Core.List.{List, [], ◌∷◌, ◌++◌}
use native.Mathlib.Omega.{arith}
use factorio_multiplayer_cac.Common.Tests.{ltb, ◌==◌, if◌then◌else◌}
use factorio_multiplayer_cac.Common.Lists.{All, length}

abbrev pub BtreeSet : Type 0
BtreeSet = List ℕ

unfoldable pub insert : ℕ → BtreeSet → BtreeSet
insert x [] = x ∷ []
insert x (y ∷ ys) =
    let rest = insert x ys in if ltb x y then x ∷ y ∷ ys else if x == y then y ∷ ys else y ∷ rest

abbrev pub IsAscending : BtreeSet → Type 0
IsAscending [] = Unit
IsAscending (x ∷ xs) = All (λ y. x < y) xs × IsAscending xs

pub insert-All : (P : ℕ → Type 0) (x : ℕ) (xs : BtreeSet) → P x → All P xs → All P (insert x xs)
unfolding insert
insert-All P x [] h hs = (h, tt)
insert-All P x (y ∷ ys) h hs = ground (arith, insert-All P x ys h hs.1)

All-lt_trans : (x y : ℕ) (ys : BtreeSet) → x < y → All (λ z. y < z) ys → All (λ z. x < z) ys
All-lt_trans x y [] lt h = tt
All-lt_trans x y (z ∷ zs) lt h = (omega arith, All-lt_trans x y zs lt h.1)

pub insert-IsAscending : (x : ℕ) (xs : BtreeSet) → IsAscending xs → IsAscending (insert x xs)
unfolding insert
insert-IsAscending x [] h = (tt, tt)
insert-IsAscending x (y ∷ ys) h =
    ground (arith, insert-IsAscending x ys h.1, insert-All (λ z. y < z) x ys, All-lt_trans x y ys)

-- The greatest number comes last.
pub insert_greatest : (x : ℕ) (xs : BtreeSet) → All (λ y. y < x) xs → insert x xs ≡ xs ++ x ∷ []
unfolding insert
insert_greatest x [] h = refl
insert_greatest x (y ∷ ys) h = ground (arith, insert_greatest x ys h.1)

unfoldable pub contains : ℕ → BtreeSet → Bool
contains x [] = false
contains x (y ∷ ys) = if x == y then true else contains x ys

-- `remove` tells besides whether the number was there, as `contains` does.
unfoldable pub remove : ℕ → BtreeSet → BtreeSet
remove x [] = []
remove x (y ∷ ys) = let rest = remove x ys in if x == y then ys else y ∷ rest

pub contains-insert :
    (x z : ℕ) (ys : BtreeSet) → contains z (insert x ys) ≡ (if z == x then true else contains z ys)
unfolding insert contains
contains-insert x z [] = refl
contains-insert x z (y ∷ ys) = ground (arith, contains-insert x z ys)

pub length-insert :
    (x : ℕ) (ys : BtreeSet) → contains x ys ≡ false → length (insert x ys) ≡ suc (length ys)
unfolding insert contains
length-insert x [] h = refl
length-insert x (y ∷ ys) h = ground (arith, length-insert x ys)

pub contains-remove :
    (x z : ℕ) (ys : BtreeSet)
    → contains z ys ≡ true
    → (z == x) ≡ false
    → contains z (remove x ys) ≡ true
unfolding remove contains
contains-remove x z [] h ne = cc
contains-remove x z (y ∷ ys) h ne = ground (arith, contains-remove x z ys)

pub contains-remove_of_missing :
    (x z : ℕ) (ys : BtreeSet) → contains z ys ≡ false → contains z (remove x ys) ≡ false
unfolding remove contains
contains-remove_of_missing x z [] h = refl
contains-remove_of_missing x z (y ∷ ys) h = ground (arith, contains-remove_of_missing x z ys)

pub length-remove :
    (x : ℕ) (ys : BtreeSet) → contains x ys ≡ true → suc (length (remove x ys)) ≡ length ys
unfolding remove contains
length-remove x [] h = cc
length-remove x (y ∷ ys) h = ground (arith, length-remove x ys)

pub remove-All : (P : ℕ → Type 0) (x : ℕ) (ys : BtreeSet) → All P ys → All P (remove x ys)
unfolding remove
remove-All P x [] h = tt
remove-All P x (y ∷ ys) h = ground (arith, remove-All P x ys h.1)

pub remove-IsAscending : (x : ℕ) (ys : BtreeSet) → IsAscending ys → IsAscending (remove x ys)
unfolding remove
remove-IsAscending x [] h = tt
remove-IsAscending x (y ∷ ys) h =
    ground (arith, remove-IsAscending x ys h.1, remove-All (λ z. y < z) x ys h.0)
