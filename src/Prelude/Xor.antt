-- ===== src/Prelude/Xor.antt =====
-- Exclusive or of numbers below a power of two: it stays below, and it undoes itself.
use Prim.Native.Nat.{
  ℕ, zero, suc, ◌+◌, ◌*◌, ◌/◌, ◌%◌, ◌^◌, ◌≤◌, ◌<◌, bit_xor, digits, bit_xor-bitwise, differ,
}
use mathlib.Core.Path.{◌≡◌, refl, ◌∙◌}
use native.Mathlib.Omega.{arith}
use native.Mathlib.Nat.{pow-suc}

-- The digit recursion needs as much fuel as the first number is large; more does not matter.
xor_digits : ℕ → ℕ → ℕ → ℕ
xor_digits n a b = digits (λ b. b) differ n a b

xor_digits_fuel : (n m a b : ℕ) → a ≤ n → a ≤ m → xor_digits n a b ≡ xor_digits m a b
unfolding xor_digits
xor_digits_fuel zero zero a b p q = refl
xor_digits_fuel zero (suc m) zero b p q = refl
xor_digits_fuel zero (suc m) (suc a) b p q = absurd (omega arith)
xor_digits_fuel (suc n) zero zero b p q = refl
xor_digits_fuel (suc n) zero (suc a) b p q = absurd (omega arith)
xor_digits_fuel (suc n) (suc m) zero b p q = refl
xor_digits_fuel (suc n) (suc m) (suc a) b p q =
    omega (arith, xor_digits_fuel n m (suc a / 2) (b / 2) (omega arith) (omega arith))

bit_xor_step : (a b : ℕ) → bit_xor a b ≡ bit_xor (a / 2) (b / 2) * 2 + differ (a % 2) (b % 2)
unfolding xor_digits
bit_xor_step zero b = omega (arith, bit_xor-bitwise 0 b, bit_xor-bitwise 0 (b / 2))
bit_xor_step (suc a) b = omega (
  arith,
  bit_xor-bitwise (suc a) b,
  bit_xor-bitwise (suc a / 2) (b / 2),
  xor_digits_fuel a (suc a / 2) (suc a / 2) (b / 2) (omega arith) (omega arith),
)

differ-lt : (d e : ℕ) → d < 2 → e < 2 → differ d e < 2
differ-lt zero e h k = k
differ-lt (suc zero) zero h k = omega arith
differ-lt (suc zero) (suc e) h k = omega arith
differ-lt (suc (suc d)) e h k = absurd (omega arith)

differ_cancel : (d e : ℕ) → d < 2 → e < 2 → differ d (differ d e) ≡ e
differ_cancel zero e h k = refl
differ_cancel (suc zero) zero h k = refl
differ_cancel (suc zero) (suc zero) h k = refl
differ_cancel (suc zero) (suc (suc e)) h k = absurd (omega arith)
differ_cancel (suc (suc d)) e h k = absurd (omega arith)

pub bit_xor-lt : (w a b : ℕ) → a < 2 ^ w → b < 2 ^ w → bit_xor a b < 2 ^ w
bit_xor-lt zero zero zero h k = omega arith
bit_xor-lt zero (suc a) b h k = absurd (omega arith)
bit_xor-lt zero zero (suc b) h k = absurd (omega arith)
bit_xor-lt (suc w) a b h k = omega (
  arith,
  pow-suc 2 w,
  bit_xor_step a b,
  differ-lt (a % 2) (b % 2) (omega arith) (omega arith),
  bit_xor-lt w (a / 2) (b / 2) (omega (arith, pow-suc 2 w)) (omega (arith, pow-suc 2 w)),
)

-- `a ^ (a ^ b)` is `b`.
pub bit_xor_cancel : (w a b : ℕ) → a < 2 ^ w → b < 2 ^ w → bit_xor a (bit_xor a b) ≡ b
bit_xor_cancel zero zero zero h k = refl
bit_xor_cancel zero (suc a) b h k = absurd (omega arith)
bit_xor_cancel zero zero (suc b) h k = absurd (omega arith)
bit_xor_cancel (suc w) a b h k =
    let low = differ-lt (a % 2) (b % 2) (omega arith) (omega arith) in
    let inner = bit_xor_step a b in
    let half : bit_xor a b / 2 ≡ bit_xor (a / 2) (b / 2) = omega arith in
    let rest : bit_xor a b % 2 ≡ differ (a % 2) (b % 2) = omega arith in
    let ih =
      bit_xor_cancel w (a / 2) (b / 2) (omega (arith, pow-suc 2 w)) (omega (arith, pow-suc 2 w)) in
    bit_xor_step a (bit_xor a b)
    ∙ rw (half, rest, ih, differ_cancel (a % 2) (b % 2) (omega arith) (omega arith)) (omega arith)
