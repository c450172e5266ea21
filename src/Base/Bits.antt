-- ===== src/Base/Bits.antt =====
-- Laws of the native bit operations at variables, for the shifts and masks of the source.
use Prim.Native.Nat.{
  ℕ, zero, suc, ◌+◌, ◌*◌, ◌/◌, ◌%◌, ◌^◌, ◌≤◌, ◌<◌, min, max, bit_and, bit_or, digits,
  bit_and-bitwise, bit_or-bitwise,
}
use mathlib.Core.Path.{◌≡◌, refl, sym, ap, ◌∙◌}
use native.Mathlib.Nat.{pow-suc, div-div-eq-div-mul}
use native.Mathlib.Omega.{arith}

-- `x << k` before it is cut to a width, and `x >> k`.
abbrev pub shl : ℕ → ℕ → ℕ
shl x k = x * 2 ^ k

abbrev pub shr : ℕ → ℕ → ℕ
shr x k = x / 2 ^ k

module _ (z : ℕ → ℕ) (f : ℕ → ℕ → ℕ) where
  -- Rounds beyond the digits of the first number change nothing.
  digits-rounds : (a b n k : ℕ) → a ≤ n → n ≤ k → digits z f k a b ≡ digits z f n a b
  digits-rounds a b zero zero p q = refl
  digits-rounds zero b zero (suc k) p q = refl
  digits-rounds (suc a) b zero (suc k) p q = absurd (omega arith)
  digits-rounds a b (suc n) zero p q = absurd (omega arith)
  digits-rounds zero b (suc n) (suc k) p q = refl
  digits-rounds (suc a) b (suc n) (suc k) p q =
      rw (digits-rounds (suc a / 2) (b / 2) n k (omega arith) (omega arith))

-- One step by the lowest digit.
pub bit_or-halves : (a b : ℕ) → bit_or a b ≡ bit_or (a / 2) (b / 2) * 2 + max (a % 2) (b % 2)
bit_or-halves zero b = omega (arith, bit_or-bitwise 0 b, bit_or-bitwise 0 (b / 2))
bit_or-halves (suc a) b = omega (
  arith,
  bit_or-bitwise (suc a) b,
  bit_or-bitwise (suc a / 2) (b / 2),
  digits-rounds (λ y. y) max (suc a / 2) (b / 2) (suc a / 2) a (omega arith) (omega arith),
)

pub bit_and-halves : (a b : ℕ) → bit_and a b ≡ bit_and (a / 2) (b / 2) * 2 + min (a % 2) (b % 2)
bit_and-halves zero b = omega (arith, bit_and-bitwise 0 b, bit_and-bitwise 0 (b / 2))
bit_and-halves (suc a) b = omega (
  arith,
  bit_and-bitwise (suc a) b,
  bit_and-bitwise (suc a / 2) (b / 2),
  digits-rounds (λ y. 0) min (suc a / 2) (b / 2) (suc a / 2) a (omega arith) (omega arith),
)

zero-bit_or : (b : ℕ) → bit_or 0 b ≡ b
zero-bit_or b = bit_or-bitwise 0 b

bit_or-zero_below : (n a : ℕ) → a ≤ n → bit_or a 0 ≡ a
bit_or-zero_below n zero h = zero-bit_or 0
bit_or-zero_below zero (suc a) h = absurd (omega arith)
bit_or-zero_below (suc n) (suc a) h =
    omega (arith, bit_or-halves (suc a) 0, bit_or-zero_below n (suc a / 2) (omega arith))

bit_and-zero_below : (n a : ℕ) → a ≤ n → bit_and a 0 ≡ 0
bit_and-zero_below n zero h = bit_and-bitwise 0 0
bit_and-zero_below zero (suc a) h = absurd (omega arith)
bit_and-zero_below (suc n) (suc a) h =
    omega (arith, bit_and-halves (suc a) 0, bit_and-zero_below n (suc a / 2) (omega arith))

-- `(hi << k) | lo` is a sum where `lo` fits in k bits.
pub bit_or-shl : (k hi lo : ℕ) → lo < 2 ^ k → bit_or (shl hi k) lo ≡ shl hi k + lo
bit_or-shl zero hi lo h = ground (arith, bit_or-zero_below hi hi (omega arith))
bit_or-shl (suc k) hi lo h = ground (
  arith,
  pow-suc 2 k,
  ap (λ (t : ℕ). hi * t) (pow-suc 2 k),
  bit_or-halves (hi * 2 ^ suc k) lo,
  bit_or-shl k hi (lo / 2) (omega (arith, pow-suc 2 k)),
)

-- `lo | (hi << k)`, the other way round.
pub bit_or-shl_right : (k hi lo : ℕ) → lo < 2 ^ k → bit_or lo (shl hi k) ≡ lo + shl hi k
bit_or-shl_right zero hi lo h =
    let e : lo ≡ 0 = omega arith in rw e (omega (arith, zero-bit_or (hi * 2 ^ 0)))
bit_or-shl_right (suc k) hi lo h = ground (
  arith,
  pow-suc 2 k,
  ap (λ (t : ℕ). hi * t) (pow-suc 2 k),
  bit_or-halves lo (hi * 2 ^ suc k),
  bit_or-shl_right k hi (lo / 2) (omega (arith, pow-suc 2 k)),
)

and_one : (a : ℕ) → bit_and a 1 ≡ a % 2
and_one a = omega (arith, bit_and-halves a 1, bit_and-zero_below (a / 2) (a / 2) (omega arith))

and_three : (a : ℕ) → bit_and a 3 ≡ a % 4
and_three a = omega (arith, bit_and-halves a 3, and_one (a / 2))

and_seven : (a : ℕ) → bit_and a 7 ≡ a % 8
and_seven a = omega (arith, bit_and-halves a 7, and_three (a / 2))

-- The masks that the source uses.
pub bit_and-nibble : (a : ℕ) → bit_and a 0x0f ≡ a % 16
bit_and-nibble a = omega (arith, bit_and-halves a 15, and_seven (a / 2))

and_31 : (a : ℕ) → bit_and a 31 ≡ a % 32
and_31 a = omega (arith, bit_and-halves a 31, bit_and-nibble (a / 2))

and_63 : (a : ℕ) → bit_and a 63 ≡ a % 64
and_63 a = omega (arith, bit_and-halves a 63, and_31 (a / 2))

and_127 : (a : ℕ) → bit_and a 127 ≡ a % 128
and_127 a = omega (arith, bit_and-halves a 127, and_63 (a / 2))

pub bit_and-byte : (a : ℕ) → bit_and a 0xff ≡ a % 256
bit_and-byte a = omega (arith, bit_and-halves a 255, and_127 (a / 2))

-- A mask that is another one shifted up.
bit_and-double : (a m : ℕ) → bit_and a (m * 2) ≡ bit_and (a / 2) m * 2
bit_and-double a m = omega (arith, bit_and-halves a (m * 2), ap (bit_and (a / 2)) (halve m))
  where
    halve : (k : ℕ) → k * 2 / 2 ≡ k
    halve k = omega arith

pub bit_and-shl : (k a m : ℕ) → bit_and a (shl m k) ≡ shl (bit_and (shr a k) m) k
bit_and-shl zero a m = rw (unit_mul m, unit_mul (bit_and (a / 1) m), unit_div a)
  where
    unit_mul : (n : ℕ) → n * 2 ^ 0 ≡ n
    unit_mul n = omega arith

    unit_div : (n : ℕ) → n / 2 ^ 0 ≡ n
    unit_div n = omega arith
bit_and-shl (suc k) a m =
    ap (bit_and a) (up m)
    ∙ bit_and-double a (m * 2 ^ k)
    ∙ ap (λ (t : ℕ). t * 2) (bit_and-shl k (a / 2) m)
    ∙ sym (up (bit_and (a / 2 / 2 ^ k) m))
    ∙ ap (λ (t : ℕ). bit_and t m * 2 ^ suc k) down
  where
    up : (n : ℕ) → n * 2 ^ suc k ≡ n * 2 ^ k * 2
    up n = omega (arith, pow-suc 2 k, ap (λ (t : ℕ). n * t) (pow-suc 2 k))

    down : a / 2 / 2 ^ k ≡ a / 2 ^ suc k
    down = div-div-eq-div-mul a 2 (2 ^ k) ∙ ap (λ (t : ℕ). a / t) (omega (arith, pow-suc 2 k))
