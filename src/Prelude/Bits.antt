-- ===== src/Prelude/Bits.antt =====
-- The exclusive or and the conjunction of numbers, digit by digit.
use Prim.Native.Nat.{
  ℕ, zero, suc, ◌+◌, ◌*◌, ◌/◌, ◌%◌, ◌≤◌, ◌<◌, bit_xor, bit_and, min, digits, bitwise, differ,
  bit_xor-bitwise, bit_and-bitwise,
}
use mathlib.Core.Path.{◌≡◌, refl, sym, ap, ◌∙◌}
use mathlib.Core.Logic.{inl, inr}
use bencoscar.Prelude.Tests.{ltb, Bool-cases}
use native.Mathlib.Omega.{arith}

-- The digits of any operation, with `z` for what is left of the second number.
module _ (z : ℕ → ℕ) (f : ℕ → ℕ → ℕ) where
  one_more : (n a b : ℕ) → a ≤ n → digits z f (suc n) a b ≡ digits z f n a b
  one_more zero zero b h = refl
  one_more (suc n) zero b h = refl
  one_more zero (suc a) b h = absurd (omega arith)
  one_more (suc n) (suc a) b h =
      ap (λ t. t * 2 + f (suc a % 2) (b % 2)) (one_more n (suc a / 2) (b / 2) (omega arith))

  enough : (n a b : ℕ) → a ≤ n → digits z f n a b ≡ bitwise z f a b
  enough zero a b h = let e : 0 ≡ a = omega arith in ap (λ n. digits z f n a b) e
  enough (suc n) a b h = elim (Bool-cases (ltb n a)) [
    | inl t ↦ let e : suc n ≡ a = ground (arith, t, h) in ap (λ n. digits z f n a b) e
    | inr g ↦ let l : a ≤ n = ground (arith, g) in one_more n a b l ∙ enough n a b l
  ]

  lowest :
      (a b : ℕ)
      → bitwise z f (suc a) b ≡ bitwise z f (suc a / 2) (b / 2) * 2 + f (suc a % 2) (b % 2)
  lowest a b = ap (λ t. t * 2 + f (suc a % 2) (b % 2)) (enough a (suc a / 2) (b / 2) (omega arith))

pub zero-bit_xor : (b : ℕ) → bit_xor 0 b ≡ b
zero-bit_xor b = bit_xor-bitwise 0 b

below_two : (n : ℕ) → n < 2 → differ 0 n ≡ n
below_two n h = refl

pub bit_xor_step : (a b : ℕ) → bit_xor a b ≡ bit_xor (a / 2) (b / 2) * 2 + differ (a % 2) (b % 2)
bit_xor_step zero b =
    omega (arith, zero-bit_xor b, zero-bit_xor (b / 2), below_two (b % 2) (omega arith))
bit_xor_step (suc a) b = omega (
  arith,
  bit_xor-bitwise (suc a) b,
  bit_xor-bitwise (suc a / 2) (b / 2),
  lowest (λ b. b) differ a b,
)

-- Two digits.
differ_digit : (p q : ℕ) → p < 2 → q < 2 → differ p q < 2
differ_digit zero q h k = k
differ_digit (suc zero) zero h k = omega arith
differ_digit (suc zero) (suc zero) h k = omega arith
differ_digit (suc zero) (suc (suc q)) h k = absurd (omega arith)
differ_digit (suc (suc p)) q h k = absurd (omega arith)

differ_twice : (p q : ℕ) → p < 2 → q < 2 → differ (differ p q) q ≡ p
differ_twice zero zero h k = refl
differ_twice zero (suc zero) h k = refl
differ_twice zero (suc (suc q)) h k = absurd (omega arith)
differ_twice (suc zero) zero h k = refl
differ_twice (suc zero) (suc zero) h k = refl
differ_twice (suc zero) (suc (suc q)) h k = absurd (omega arith)
differ_twice (suc (suc p)) q h k = absurd (omega arith)

differ_swap : (p q r : ℕ) → p < 2 → q < 2 → r < 2 → differ (differ p q) r ≡ differ (differ p r) q
differ_swap zero zero zero h k l = refl
differ_swap zero zero (suc zero) h k l = refl
differ_swap zero (suc zero) zero h k l = refl
differ_swap zero (suc zero) (suc zero) h k l = refl
differ_swap (suc zero) zero zero h k l = refl
differ_swap (suc zero) zero (suc zero) h k l = refl
differ_swap (suc zero) (suc zero) zero h k l = refl
differ_swap (suc zero) (suc zero) (suc zero) h k l = refl
differ_swap (suc (suc p)) q r h k l = absurd (omega arith)
differ_swap p (suc (suc q)) r h k l = absurd (omega arith)
differ_swap p q (suc (suc r)) h k l = absurd (omega arith)

-- The two parts of an exclusive or.
xor_half : (a b : ℕ) → bit_xor a b / 2 ≡ bit_xor (a / 2) (b / 2)
xor_half a b =
    omega (arith, bit_xor_step a b, differ_digit (a % 2) (b % 2) (omega arith) (omega arith))

xor_digit : (a b : ℕ) → bit_xor a b % 2 ≡ differ (a % 2) (b % 2)
xor_digit a b =
    omega (arith, bit_xor_step a b, differ_digit (a % 2) (b % 2) (omega arith) (omega arith))

xor_twice_fuel : (n a b : ℕ) → a ≤ n → b ≤ n → bit_xor (bit_xor a b) b ≡ a
xor_twice_fuel zero zero zero h k = refl
xor_twice_fuel zero zero (suc b) h k = absurd (omega arith)
xor_twice_fuel zero (suc a) b h k = absurd (omega arith)
xor_twice_fuel (suc n) a b h k = omega (
  arith,
  bit_xor_step (bit_xor a b) b,
  ap (λ z. bit_xor z (b / 2)) (xor_half a b),
  xor_twice_fuel n (a / 2) (b / 2) (omega arith) (omega arith),
  ap (λ z. differ z (b % 2)) (xor_digit a b),
  differ_twice (a % 2) (b % 2) (omega arith) (omega arith),
)

-- The same number twice cancels.
pub bit_xor_twice : (a b : ℕ) → bit_xor (bit_xor a b) b ≡ a
bit_xor_twice a b = xor_twice_fuel (a + b) a b (omega arith) (omega arith)

xor_swap_fuel :
    (n a b c : ℕ) → a ≤ n → b ≤ n → c ≤ n → bit_xor (bit_xor a b) c ≡ bit_xor (bit_xor a c) b
xor_swap_fuel zero zero zero zero h k l = refl
xor_swap_fuel zero (suc a) b c h k l = absurd (omega arith)
xor_swap_fuel zero a (suc b) c h k l = absurd (omega arith)
xor_swap_fuel zero a b (suc c) h k l = absurd (omega arith)
xor_swap_fuel (suc n) a b c h k l = omega (
  arith,
  bit_xor_step (bit_xor a b) c,
  bit_xor_step (bit_xor a c) b,
  ap (λ z. bit_xor z (c / 2)) (xor_half a b),
  ap (λ z. bit_xor z (b / 2)) (xor_half a c),
  xor_swap_fuel n (a / 2) (b / 2) (c / 2) (omega arith) (omega arith) (omega arith),
  ap (λ z. differ z (c % 2)) (xor_digit a b),
  ap (λ z. differ z (b % 2)) (xor_digit a c),
  differ_swap (a % 2) (b % 2) (c % 2) (omega arith) (omega arith) (omega arith),
)

-- The order does not matter.
pub bit_xor_swap : (a b c : ℕ) → bit_xor (bit_xor a b) c ≡ bit_xor (bit_xor a c) b
bit_xor_swap a b c = xor_swap_fuel (a + b + c) a b c (omega arith) (omega arith) (omega arith)

half_below : (a m : ℕ) → a < m * 2 → a / 2 < m
half_below a m h = omega arith

-- Bytes stay bytes.
xor_bound : (a b m : ℕ) → bit_xor (a / 2) (b / 2) < m → bit_xor a b < m * 2
xor_bound a b m h =
    omega (arith, bit_xor_step a b, h, differ_digit (a % 2) (b % 2) (omega arith) (omega arith))

xor_zero : (a b : ℕ) → a < 1 → b < 1 → bit_xor a b < 1
xor_zero zero zero h k = omega arith
xor_zero (suc a) b h k = absurd (omega arith)
xor_zero zero (suc b) h k = absurd (omega arith)

abbrev doubled : ℕ → ℕ
doubled zero = 1
doubled (suc k) = doubled k * 2

xor_below : (k a b : ℕ) → a < doubled k → b < doubled k → bit_xor a b < doubled k
xor_below zero a b h l = xor_zero a b h l
xor_below (suc k) a b h l =
    xor_bound a b (doubled k)
      (xor_below k (a / 2) (b / 2) (half_below a (doubled k) h) (half_below b (doubled k) l))

pub bit_xor-byte : (a b : ℕ) → a < 256 → b < 256 → bit_xor a b < 256
bit_xor-byte a b h l = xor_below 8 a b h l

-- The conjunction.
nothing-bit_and : (b : ℕ) → bit_and 0 b ≡ 0
nothing-bit_and b = bit_and-bitwise 0 b

halve-bit_and : (b a : ℕ) → bit_and a b ≡ bit_and (a / 2) (b / 2) * 2 + min (a % 2) (b % 2)
halve-bit_and b zero = omega (arith, nothing-bit_and (b / 2), nothing-bit_and b)
halve-bit_and b (suc a) =
    bit_and-bitwise (suc a) b
    ∙ lowest (λ b. zero) min a b
    ∙ ap (λ t. t * 2 + min (suc a % 2) (b % 2)) (sym (bit_and-bitwise (suc a / 2) (b / 2)))

no_digits : (n a : ℕ) → digits (λ b. zero) min n a 0 ≡ 0
no_digits zero a = refl
no_digits (suc n) zero = refl
no_digits (suc n) (suc a) = omega (arith, no_digits n (suc a / 2))

-- The lowest digit, and that of the sixth place.
pub bit_and-one : (a : ℕ) → bit_and a 1 ≡ a % 2
bit_and-one a =
    omega (arith, halve-bit_and 1 a, bit_and-bitwise (a / 2) 0, no_digits (a / 2) (a / 2))

pub bit_and-sixth : (a : ℕ) → bit_and a 0x20 ≡ a / 32 % 2 * 32
bit_and-sixth a = omega (
  arith,
  halve-bit_and 0x20 a,
  halve-bit_and 0x10 (a / 2),
  halve-bit_and 8 (a / 2 / 2),
  halve-bit_and 4 (a / 2 / 2 / 2),
  halve-bit_and 2 (a / 2 / 2 / 2 / 2),
  bit_and-one (a / 2 / 2 / 2 / 2 / 2),
)
