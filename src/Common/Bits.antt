-- ===== src/Common/Bits.antt =====
-- "Or" of numbers whose bits do not overlap is their sum; and checks of a small range by evaluation.
use Prim.Native.Nat.{
  ℕ, zero, suc, ◌+◌, ◌*◌, ◌/◌, ◌^◌, ◌≤◌, ◌<◌, max, bit_or, digits, bit_or-bitwise,
}
use mathlib.Core.Path.{◌≡◌, ◌∙◌}
use mathlib.Core.Bool.{Bool, true, ◌&&◌}
use native.Mathlib.Omega.{arith}
use native.Mathlib.Nat.{pow-suc}

-- The test holds of `from`, `from + 1` and so on, for `count` numbers.
unfoldable pub in_row : (ℕ → Bool) → ℕ → ℕ → Bool
in_row test from zero = true
in_row test from (suc count) = test from && in_row test (suc from) count

pub in_row_holds :
    (test : ℕ → Bool) (from count x : ℕ)
    → in_row test from count ≡ true
    → from ≤ x
    → x < from + count
    → test x ≡ true
unfolding in_row
in_row_holds test from zero x row low high = absurd (omega arith)
in_row_holds test from (suc count) x row low high =
    ground (arith, in_row_holds test (suc from) count x)

-- With enough fuel for the left number, its digits go below those of the right one.
fill_low :
    (fuel k a b : ℕ)
    → a ≤ fuel
    → a < 2 ^ k
    → digits (λ rest. rest) max fuel a (2 ^ k * b) ≡ a + 2 ^ k * b
fill_low zero k (suc a) b enough low = absurd (omega arith)
fill_low zero k zero b enough low = omega arith
fill_low (suc fuel) k zero b enough low = omega arith
fill_low (suc fuel) zero (suc a) b enough low = absurd (omega arith)
fill_low (suc fuel) (suc k) (suc a) b enough low =
    let wide : 2 ^ suc k ≡ 2 ^ k * 2 = pow-suc 2 k in
    let twice : 2 ^ suc k * b ≡ 2 * (2 ^ k * b) = rw wide (grind arith) in
    let half : 2 * (2 ^ k * b) / 2 ≡ 2 ^ k * b = omega arith in
    rw twice (rw half (omega (arith, fill_low fuel k (suc a / 2) b (omega arith) (omega arith))))

-- Where the left number ends below the shift, "or" is a sum.
pub bit_or-shift : (k a b : ℕ) → a < 2 ^ k → bit_or a (2 ^ k * b) ≡ a + 2 ^ k * b
bit_or-shift k a b low = bit_or-bitwise a (2 ^ k * b) ∙ fill_low a k a b (omega arith) low
