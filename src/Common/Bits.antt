-- ===== src/Common/Bits.antt =====
-- `&` and `|` as arithmetic: on a byte by a table, at any width from the lowest digit on.
use Prim.Native.Nat.{
  ◌^◌, ℕ, zero, suc, ◌+◌, ◌*◌, ◌/◌, ◌%◌, ◌≤◌, ◌<◌, max, bit_and, bit_or, digits, bit_and-bitwise,
  bit_or-bitwise,
}
use mathlib.Core.Path.{◌≡◌, refl, ap}
use native.Mathlib.Nat.{pow-suc}
use Prim.Native.Nat.{min}
use mathlib.Core.Bool.{Bool, true, ◌&&◌}
use native.Mathlib.Omega.{arith}
use nusbip.Common.Tests.{◌==◌, ==_iff}

-- A test on every number below a bound.
unfoldable pub holds_below : ℕ → (ℕ → Bool) → Bool
holds_below zero p = true
holds_below (suc n) p = p n && holds_below n p

pub holds_at : (n : ℕ) (p : ℕ → Bool) (x : ℕ) → holds_below n p ≡ true → x < n → p x ≡ true
unfolding holds_below
holds_at zero p x h lt = absurd (omega arith)
holds_at (suc n) p x h lt = ground (arith, holds_at n p x)

byte_table : (f g : ℕ → ℕ) (x : ℕ) → holds_below 256 (λ b. f b == g b) ≡ true → x < 256 → f x ≡ g x
byte_table f g x table h = (==_iff _ _).0 (holds_at 256 (λ b. f b == g b) x table h)

pub top_bit : (b : ℕ) → b < 256 → bit_and b 0x80 ≡ b / 128 * 128
unfolding holds_below
top_bit b h = byte_table (λ x. bit_and x 0x80) (λ x. x / 128 * 128) b refl h

pub low_seven : (b : ℕ) → b < 256 → bit_and b 0x7f ≡ b % 128
unfolding holds_below
low_seven b h = byte_table (λ x. bit_and x 0x7f) (λ x. x % 128) b refl h

pub low_nibble : (b : ℕ) → b < 256 → bit_and b 0xf ≡ b % 16
unfolding holds_below
low_nibble b h = byte_table (λ x. bit_and x 0xf) (λ x. x % 16) b refl h

pub low_five : (b : ℕ) → b < 256 → bit_and b 0x1f ≡ b % 32
unfolding holds_below
low_five b h = byte_table (λ x. bit_and x 0x1f) (λ x. x % 32) b refl h

pub low_two : (b : ℕ) → b < 256 → bit_and b 3 ≡ b % 4
unfolding holds_below
low_two b h = byte_table (λ x. bit_and x 3) (λ x. x % 4) b refl h

-- The digit recursion does not depend on its fuel, once that is enough.
or_fuel : (n m a b : ℕ) → a ≤ n → a ≤ m → digits (λ y. y) max n a b ≡ digits (λ y. y) max m a b
or_fuel zero zero a b p q = refl
or_fuel zero (suc m) zero b p q = refl
or_fuel zero (suc m) (suc a) b p q = absurd (omega arith)
or_fuel (suc n) zero zero b p q = refl
or_fuel (suc n) zero (suc a) b p q = absurd (omega arith)
or_fuel (suc n) (suc m) zero b p q = refl
or_fuel (suc n) (suc m) (suc a) b p q =
    omega (arith, or_fuel n m (suc a / 2) (b / 2) (omega arith) (omega arith))

zero-bit_or : (b : ℕ) → bit_or 0 b ≡ b
zero-bit_or b = bit_or-bitwise 0 b

or_digit : (a b : ℕ) → bit_or a b ≡ bit_or (a / 2) (b / 2) * 2 + max (a % 2) (b % 2)
or_digit zero b = omega (arith, zero-bit_or b, zero-bit_or (b / 2))
or_digit (suc a) b = omega (
  arith,
  bit_or-bitwise (suc a) b,
  bit_or-bitwise (suc a / 2) (b / 2),
  or_fuel a (suc a / 2) (suc a / 2) (b / 2) (omega arith) (omega arith),
)

bit_or-zero_fuel : (n a : ℕ) → a ≤ n → bit_or a 0 ≡ a
bit_or-zero_fuel n zero h = refl
bit_or-zero_fuel zero (suc a) h = absurd (omega arith)
bit_or-zero_fuel (suc n) (suc a) h =
    omega (arith, or_digit (suc a) 0, bit_or-zero_fuel n (suc a / 2) (omega arith))

-- One digit of a sum whose parts have no digit in common.
shift_digit : (x a b : ℕ) → x ≡ a * 2 → bit_or x b ≡ bit_or a (b / 2) * 2 + b % 2
shift_digit x a b e = omega (arith, or_digit x b, ap (λ (t : ℕ). bit_or t (b / 2)) half)
  where
    half : x / 2 ≡ a
    half = omega arith

-- Parts that have no digit in common are put together as by `+`.
pub bit_or-eq-add : (k a b : ℕ) → b < 2 ^ k → bit_or (a * 2 ^ k) b ≡ a * 2 ^ k + b
bit_or-eq-add zero a b h = omega (
  arith,
  ap (λ (t : ℕ). bit_or (a * 1) t) zero_low,
  bit_or-zero_fuel (a * 1) (a * 1) (omega arith),
)
  where
    zero_low : b ≡ 0
    zero_low = omega arith
bit_or-eq-add (suc k) a b h = omega (
  arith,
  pow-suc 2 k,
  shift_digit (a * 2 ^ suc k) (a * 2 ^ k) b (omega (arith, ap (◌*◌ a) (pow-suc 2 k))),
  bit_or-eq-add k a (b / 2) (omega (arith, pow-suc 2 k)),
  ap (◌*◌ a) (pow-suc 2 k),
)

-- The high and the low byte of a 16-bit word, put together.
pub join_bytes : (a b : ℕ) → b < 256 → bit_or (a * 256) b ≡ a * 256 + b
join_bytes a b h = bit_or-eq-add 8 a b h

and_none : (n a : ℕ) → digits (λ y. 0) min n a 0 ≡ 0
and_none zero a = refl
and_none (suc n) zero = refl
and_none (suc n) (suc a) = omega (arith, and_none n (suc a / 2))

-- `& 1` is the lowest digit.
pub low_bit : (d : ℕ) → bit_and d 1 ≡ d % 2
low_bit zero = refl
low_bit (suc d) = omega (arith, bit_and-bitwise (suc d) 1, and_none d (suc d / 2))
