-- ===== src/Prelude/Xor.antt =====
-- Exclusive or of numbers: the same key applied twice gives the number back.
use Prim.Native.Nat.{ℕ, zero, suc, ◌+◌, ◌*◌, ◌/◌, ◌%◌, ◌≤◌, ◌<◌, digits, differ}
use Prim.Native.Nat.{bit_xor-bitwise}
pub use Prim.Native.Nat.{bit_xor}
use mathlib.Core.Path.{◌≡◌, refl, sym, ap, ◌∙◌}
use native.Mathlib.Omega.{arith}

abbrev keep : ℕ → ℕ
keep y = y

digits_zero : (fuel y : ℕ) → digits keep differ fuel 0 y ≡ y
digits_zero zero y = refl
digits_zero (suc fuel) y = refl

-- Fuel past the first number makes no difference.
digits_enough :
    (x y fuel more : ℕ)
    → x ≤ fuel
    → x ≤ more
    → digits keep differ more x y ≡ digits keep differ fuel x y
digits_enough zero y fuel more h k = digits_zero more y ∙ sym (digits_zero fuel y)
digits_enough (suc x) y zero more h k = absurd (omega arith)
digits_enough (suc x) y (suc fuel) zero h k = absurd (omega arith)
digits_enough (suc x) y (suc fuel) (suc more) h k =
    ap (λ d. d * 2 + differ (suc x % 2) (y % 2))
      (digits_enough (suc x / 2) (y / 2) fuel more (omega arith) (omega arith))

-- The lowest digit, and what is above it.
bit_xor_step : (a b : ℕ) → bit_xor a b ≡ bit_xor (a / 2) (b / 2) * 2 + differ (a % 2) (b % 2)
bit_xor_step zero b = simp bit_xor-bitwise (omega arith)
bit_xor_step (suc a) b = simp bit_xor-bitwise (
    ap (λ d. d * 2 + differ (suc a % 2) (b % 2))
      (digits_enough (suc a / 2) (b / 2) (suc a / 2) a (omega arith) (omega arith)))

differ-lt : (a b : ℕ) → a < 2 → b < 2 → differ a b < 2
differ-lt zero b p q = q
differ-lt (suc a) zero p q = p
differ-lt (suc zero) (suc zero) p q = omega arith
differ-lt (suc zero) (suc (suc b)) p q = absurd (omega arith)
differ-lt (suc (suc a)) (suc b) p q = absurd (omega arith)

differ-differ : (a b : ℕ) → a < 2 → b < 2 → differ (differ a b) b ≡ a
differ-differ zero zero p q = refl
differ-differ zero (suc zero) p q = refl
differ-differ zero (suc (suc b)) p q = absurd (omega arith)
differ-differ (suc zero) zero p q = refl
differ-differ (suc zero) (suc zero) p q = refl
differ-differ (suc zero) (suc (suc b)) p q = absurd (omega arith)
differ-differ (suc (suc a)) b p q = absurd (omega arith)

half-bit_xor : (a b : ℕ) → bit_xor a b / 2 ≡ bit_xor (a / 2) (b / 2)
half-bit_xor a b =
    omega (arith, bit_xor_step a b, differ-lt (a % 2) (b % 2) (omega arith) (omega arith))

mod-bit_xor : (a b : ℕ) → bit_xor a b % 2 ≡ differ (a % 2) (b % 2)
mod-bit_xor a b =
    omega (arith, bit_xor_step a b, differ-lt (a % 2) (b % 2) (omega arith) (omega arith))

bit_xor-twice_fuel : (n a k : ℕ) → a ≤ n → k ≤ n → bit_xor (bit_xor a k) k ≡ a
bit_xor-twice_fuel zero zero zero p q = refl
bit_xor-twice_fuel zero zero (suc k) p q = absurd (omega arith)
bit_xor-twice_fuel zero (suc a) k p q = absurd (omega arith)
bit_xor-twice_fuel (suc n) a k p q =
    rw (bit_xor_step (bit_xor a k) k, half-bit_xor a k, mod-bit_xor a k)
      (omega (
        arith,
        bit_xor-twice_fuel n (a / 2) (k / 2) (omega arith) (omega arith),
        differ-differ (a % 2) (k % 2) (omega arith) (omega arith),
      ))

pub bit_xor-twice : (a k : ℕ) → bit_xor (bit_xor a k) k ≡ a
bit_xor-twice a k = bit_xor-twice_fuel (a + k) a k (omega arith) (omega arith)
