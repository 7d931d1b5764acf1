-- ===== src/Common/Xor/Step.antt =====
-- What the native operation computes, digit by digit: it means a recursion with fuel, and any fuel
-- beyond the number is enough.
use Prim.Native.Nat.{
  ℕ, zero, suc, ◌+◌, ◌-◌, ◌*◌, ◌/◌, ◌%◌, ◌≤◌, ◌<◌, bit_xor, digits, differ, bit_xor-bitwise,
}
use mathlib.Core.Path.{◌≡◌, refl, ap, ◌∙◌}
use native.Mathlib.Omega.{arith}

abbrev xor_digits : ℕ → ℕ → ℕ → ℕ
xor_digits fuel x y = digits (λ rest. rest) differ fuel x y

fuel_step : (x fuel y : ℕ) → x ≤ fuel → xor_digits (suc fuel) x y ≡ xor_digits fuel x y
fuel_step zero zero y le = refl
fuel_step zero (suc fuel) y le = refl
fuel_step (suc i) zero y le = absurd (omega arith)
fuel_step (suc i) (suc fuel) y le = rw (fuel_step (suc i / 2) fuel (y / 2) (omega arith))

fuel_more : (more x y : ℕ) → xor_digits (x + more) x y ≡ xor_digits x x y
fuel_more zero x y = ap (λ fuel. xor_digits fuel x y) (omega arith)
fuel_more (suc more) x y =
    let one_more : x + suc more ≡ suc (x + more) = omega arith in
    ap (λ fuel. xor_digits fuel x y) one_more
    ∙ (fuel_step x (x + more) y (omega arith) ∙ fuel_more more x y)

fuel_enough : (fuel x y : ℕ) → x ≤ fuel → xor_digits fuel x y ≡ xor_digits x x y
fuel_enough fuel x y le =
    let split : fuel ≡ x + (fuel - x) = omega arith in
    ap (λ t. xor_digits t x y) split ∙ fuel_more (fuel - x) x y

-- On single digits the operation is addition modulo two.
differ_lem : (x y : ℕ) → x < 2 → y < 2 → differ x y ≡ (x + y) % 2
differ_lem zero zero hx hy = refl
differ_lem zero (suc zero) hx hy = refl
differ_lem (suc zero) zero hx hy = refl
differ_lem (suc zero) (suc zero) hx hy = refl
differ_lem (suc (suc x)) y hx hy = absurd (omega arith)
differ_lem x (suc (suc y)) hx hy = absurd (omega arith)

pub zero-xor : (b : ℕ) → bit_xor 0 b ≡ b
zero-xor = bit_xor-bitwise 0

step_suc : (i y : ℕ) → bit_xor (suc i) y ≡ bit_xor (suc i / 2) (y / 2) * 2 + (suc i % 2 + y % 2) % 2
step_suc i y =
    let half = suc i / 2 in
    let rest : xor_digits i half (y / 2) ≡ bit_xor half (y / 2) =
      fuel_enough i half (y / 2) (omega arith) ∙ omega (arith, bit_xor-bitwise half (y / 2)) in
    let digit = differ_lem (suc i % 2) (y % 2) (omega arith) (omega arith) in
    omega (arith, rest, digit, bit_xor-bitwise (suc i) y)

pub xor_step : (a b : ℕ) → bit_xor a b ≡ bit_xor (a / 2) (b / 2) * 2 + (a % 2 + b % 2) % 2
xor_step zero b = omega (arith, zero-xor b, zero-xor (b / 2))
xor_step (suc i) b = step_suc i b

pub xor-half : (a b : ℕ) → bit_xor a b / 2 ≡ bit_xor (a / 2) (b / 2)
xor-half a b = omega (arith, xor_step a b)

pub xor-low : (a b : ℕ) → bit_xor a b % 2 ≡ (a % 2 + b % 2) % 2
xor-low a b = omega (arith, xor_step a b)
