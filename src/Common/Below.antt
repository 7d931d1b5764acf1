-- ===== src/Common/Below.antt =====
-- A property of the numbers below a bound, settled by evaluating a test on each.
use Prim.Native.Nat.{ℕ, zero, suc, ◌<◌}
use mathlib.Core.Path.{◌≡◌}
use mathlib.Core.Bool.{Bool, true, false}
use native.Mathlib.Omega.{arith}
use factorio_multiplayer_cac.Common.Tests.{if◌then◌else◌}

unfoldable pub holds_below : (ℕ → Bool) → ℕ → Bool
holds_below test zero = true
holds_below test (suc bound) =
    let rest = holds_below test bound in if test bound then rest else false

pub holds_below_lem :
    (test : ℕ → Bool) (bound i : ℕ) → i < bound → holds_below test bound ≡ true → test i ≡ true
unfolding holds_below
holds_below_lem test zero i lt all = absurd (omega arith)
holds_below_lem test (suc bound) i lt all = ground (arith, holds_below_lem test bound i)
