-- ===== src/Common/Xor.antt =====
-- The laws of `bit_xor` at variables: an abelian group of exponent two, and its action on the
-- fields of a word, at every width.
mod Step
pub use Step.{zero-xor}
use Step.{xor-half, xor-low, xor_step}
use Prim.Native.Nat.{ℕ, zero, suc, ◌+◌, ◌*◌, ◌/◌, ◌%◌, ◌^◌, ◌≤◌, ◌<◌, bit_xor}
use mathlib.Core.Path.{◌≡◌, refl, sym, ap, ◌∙◌}
use native.Mathlib.Nat.{pow-suc, le_refl}
use native.Mathlib.Omega.{arith}

xor_comm_fuel : (n a b : ℕ) → a ≤ n → b ≤ n → bit_xor a b ≡ bit_xor b a
xor_comm_fuel zero zero zero p q = refl
xor_comm_fuel zero zero (suc b) p q = absurd (omega arith)
xor_comm_fuel zero (suc a) b p q = absurd (omega arith)
xor_comm_fuel (suc n) a b p q =
    omega (
      arith,
      xor_step a b,
      xor_step b a,
      xor_comm_fuel n (a / 2) (b / 2) (omega arith) (omega arith),
    )

pub xor_comm : (a b : ℕ) → bit_xor a b ≡ bit_xor b a
xor_comm a b = xor_comm_fuel (a + b) a b (omega arith) (omega arith)

pub xor-zero : (a : ℕ) → bit_xor a 0 ≡ a
xor-zero a = xor_comm a 0 ∙ zero-xor a

xor_self_fuel : (n a : ℕ) → a ≤ n → bit_xor a a ≡ 0
xor_self_fuel zero zero p = refl
xor_self_fuel zero (suc a) p = absurd (omega arith)
xor_self_fuel (suc n) a p = omega (arith, xor_step a a, xor_self_fuel n (a / 2) (omega arith))

pub xor_self : (a : ℕ) → bit_xor a a ≡ 0
xor_self a = xor_self_fuel a a (le_refl a)

-- One digit of each side of the associative law.
assoc_left :
    (a b c : ℕ)
    → bit_xor (bit_xor a b) c
      ≡ bit_xor (bit_xor (a / 2) (b / 2)) (c / 2) * 2 + (a % 2 + b % 2 + c % 2) % 2
assoc_left a b c = xor_step (bit_xor a b) c ∙ rw (xor-half a b, xor-low a b) (omega arith)

assoc_right :
    (a b c : ℕ)
    → bit_xor a (bit_xor b c)
      ≡ bit_xor (a / 2) (bit_xor (b / 2) (c / 2)) * 2 + (a % 2 + b % 2 + c % 2) % 2
assoc_right a b c = xor_step a (bit_xor b c) ∙ rw (xor-half b c, xor-low b c) (omega arith)

xor_assoc_fuel :
    (n a b c : ℕ) → a ≤ n → b ≤ n → c ≤ n → bit_xor (bit_xor a b) c ≡ bit_xor a (bit_xor b c)
xor_assoc_fuel zero a b c p q r = rw (le-zero a p, le-zero b q, le-zero c r) refl
  where
    le-zero : (x : ℕ) → x ≤ 0 → x ≡ 0
    le-zero x h = omega arith
xor_assoc_fuel (suc n) a b c p q r = omega (
  arith,
  assoc_left a b c,
  assoc_right a b c,
  xor_assoc_fuel n (a / 2) (b / 2) (c / 2) (omega arith) (omega arith) (omega arith),
)

pub xor_assoc : (a b c : ℕ) → bit_xor (bit_xor a b) c ≡ bit_xor a (bit_xor b c)
xor_assoc a b c = xor_assoc_fuel (a + b + c) a b c (omega arith) (omega arith) (omega arith)

pub xor_left_comm : (a b c : ℕ) → bit_xor a (bit_xor b c) ≡ bit_xor b (bit_xor a c)
xor_left_comm a b c =
    sym (xor_assoc a b c) ∙ ap (λ (t : ℕ). bit_xor t c) (xor_comm a b) ∙ xor_assoc b a c

pub xor_cancel : (a b : ℕ) → bit_xor a (bit_xor a b) ≡ b
xor_cancel a b = sym (xor_assoc a a b) ∙ ap (λ (t : ℕ). bit_xor t b) (xor_self a) ∙ zero-xor b

pub xor_cancel_right : (a b : ℕ) → bit_xor (bit_xor a b) b ≡ a
xor_cancel_right a b = xor_assoc a b b ∙ ap (bit_xor a) (xor_self b) ∙ xor-zero a

double_shift : (w v : ℕ) → 2 * (v * 2 ^ w) ≡ v * 2 ^ suc w
double_shift w v = omega (arith, ap (λ (p : ℕ). v * p) (pow-suc 2 w))

-- Exclusive or acts on the two fields of a word apart.
pub xor_fields :
    (k p q r s : ℕ)
    → r < 2 ^ k
    → s < 2 ^ k
    → bit_xor (p * 2 ^ k + r) (q * 2 ^ k + s) ≡ bit_xor p q * 2 ^ k + bit_xor r s
xor_fields zero p q r s hr hs = rw (below_one r hr, below_one s hs) (simp_sides p q)
  where
    below_one : (x : ℕ) → x < 2 ^ 0 → x ≡ 0
    below_one x h = omega arith

    simp_sides :
        (x y : ℕ) → bit_xor (x * 2 ^ 0 + 0) (y * 2 ^ 0 + 0) ≡ bit_xor x y * 2 ^ 0 + bit_xor 0 0
    simp_sides x y = ground arith
xor_fields (suc k) p q r s hr hs = ground (
  arith,
  xor_step (p * 2 ^ suc k + r) (q * 2 ^ suc k + s),
  xor_step r s,
  double_shift k p,
  double_shift k q,
  double_shift k (bit_xor p q),
  pow-suc 2 k,
  xor_fields k p q (r / 2) (s / 2),
)

pub xor-lt : (k r s : ℕ) → r < 2 ^ k → s < 2 ^ k → bit_xor r s < 2 ^ k
xor-lt zero r s hr hs = ground arith
xor-lt (suc k) r s hr hs = omega (
  arith,
  xor_step r s,
  pow-suc 2 k,
  xor-lt k (r / 2) (s / 2) (omega (arith, pow-suc 2 k)) (omega (arith, pow-suc 2 k)),
)

-- A word below the high field meets the low field only.
pub xor_low_field :
    (k q r s : ℕ) → r < 2 ^ k → s < 2 ^ k → bit_xor (q * 2 ^ k + r) s ≡ q * 2 ^ k + bit_xor r s
xor_low_field k q r s hr hs =
    ap (bit_xor (q * 2 ^ k + r)) alone
    ∙ xor_fields k q 0 r s hr hs
    ∙ ap (λ (t : ℕ). t * 2 ^ k + bit_xor r s) (xor-zero q)
  where
    alone : s ≡ 0 * 2 ^ k + s
    alone = grind arith

pub xor_byte_parts :
    (v b : ℕ) → b < 256 → (bit_xor v b / 256 ≡ v / 256) × (bit_xor v b % 256 ≡ bit_xor (v % 256) b)
xor_byte_parts v b hb =
    let e : bit_xor v b ≡ v / 256 * 256 + bit_xor (v % 256) b =
      ap (λ (t : ℕ). bit_xor t b) (omega arith)
      ∙ xor_low_field 8 (v / 256) (v % 256) b (omega arith) hb in
    let small = xor-lt 8 (v % 256) b (omega arith) hb in (omega arith, omega arith)
