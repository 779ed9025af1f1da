-- ===== src/Base/Bits.antt =====
-- Single bits of a number, and what `bit_and`, `bit_or` and a power of two have there.
pub mod Fields
use Prim.Native.Nat.{min, max, digits, bitwise, bit_and-bitwise, bit_or-bitwise, bit_and, bit_or}
use Prim.Native.Nat.{ℕ, zero, suc, ◌+◌, ◌-◌, ◌*◌, ◌/◌, ◌%◌, ◌^◌, ◌≤◌, ◌<◌}
use mathlib.Core.Path.{◌≡◌, refl, ap, ◌∙◌}
use mathlib.Core.Logic.{◌≢◌}
use native.Mathlib.Nat.{pow-suc}
use native.Mathlib.Omega.{arith}
use echelon_sbi.Base.Tests.{◌==◌, if◌then◌else◌}

-- `(n >> i) & 1`
unfoldable pub bit : ℕ → ℕ → ℕ
bit n zero = n % 2
bit n (suc i) = bit (n / 2) i

-- The native operations stand for a recursion on binary digits whose fuel is the first number.
module _ (z : ℕ → ℕ) (f : ℕ → ℕ → ℕ) where
  digits_enough :
      (a fuel more b : ℕ) → a ≤ fuel → a ≤ more → digits z f fuel a b ≡ digits z f more a b
  digits_enough zero zero zero b below within = refl
  digits_enough zero zero (suc more) b below within = refl
  digits_enough zero (suc fuel) zero b below within = refl
  digits_enough zero (suc fuel) (suc more) b below within = refl
  digits_enough (suc a) zero more b below within = absurd (omega arith)
  digits_enough (suc a) (suc fuel) zero b below within = absurd (omega arith)
  digits_enough (suc a) (suc fuel) (suc more) b below within =
      rw (digits_enough (suc a / 2) fuel more (b / 2) (omega arith) (omega arith))

  bitwise_lowest :
      (a b : ℕ)
      → bitwise z f (suc a) b ≡ bitwise z f (suc a / 2) (b / 2) * 2 + f (suc a % 2) (b % 2)
  bitwise_lowest a b =
      omega (arith, digits_enough (suc a / 2) a (suc a / 2) (b / 2) (omega arith) (omega arith))

pub bit_or_lowest : (a b : ℕ) → bit_or a b ≡ bit_or (a / 2) (b / 2) * 2 + max (a % 2) (b % 2)
bit_or_lowest zero b = simp bit_or-bitwise (omega arith)
bit_or_lowest (suc a) b = simp bit_or-bitwise (bitwise_lowest (λ y. y) max a b)

pub bit_and_lowest : (a b : ℕ) → bit_and a b ≡ bit_and (a / 2) (b / 2) * 2 + min (a % 2) (b % 2)
bit_and_lowest zero b = simp bit_and-bitwise (omega arith)
bit_and_lowest (suc a) b = simp bit_and-bitwise (bitwise_lowest (λ y. 0) min a b)

pub bit-lt : (n i : ℕ) → bit n i < 2
unfolding bit
bit-lt n zero = omega arith
bit-lt n (suc i) = bit-lt (n / 2) i

pub bit-zero : (i : ℕ) → bit 0 i ≡ 0
unfolding bit
bit-zero zero = refl
bit-zero (suc i) = bit-zero i

pub bit-bit_or : (a b i : ℕ) → bit (bit_or a b) i ≡ max (bit a i) (bit b i)
unfolding bit
bit-bit_or a b zero = omega (arith, bit_or_lowest a b)
bit-bit_or a b (suc i) = rw (half a b) (bit-bit_or (a / 2) (b / 2) i)
  where
    half : (x y : ℕ) → bit_or x y / 2 ≡ bit_or (x / 2) (y / 2)
    half x y = omega (arith, bit_or_lowest x y)

pub bit-bit_and : (a b i : ℕ) → bit (bit_and a b) i ≡ min (bit a i) (bit b i)
unfolding bit
bit-bit_and a b zero = omega (arith, bit_and_lowest a b)
bit-bit_and a b (suc i) = rw (half a b) (bit-bit_and (a / 2) (b / 2) i)
  where
    half : (x y : ℕ) → bit_and x y / 2 ≡ bit_and (x / 2) (y / 2)
    half x y = omega (arith, bit_and_lowest x y)

pub bit-two_pow : (k i : ℕ) → bit (2 ^ k) i ≡ (if i == k then 1 else 0)
unfolding bit
bit-two_pow zero zero = refl
bit-two_pow zero (suc i) = ground (arith, bit-zero i)
bit-two_pow (suc k) zero = ground (arith, pow-suc 2 k)
bit-two_pow (suc k) (suc i) = rw (half k) (ground (arith, bit-two_pow k i))
  where
    half : (j : ℕ) → 2 ^ suc j / 2 ≡ 2 ^ j
    half j = omega (arith, pow-suc 2 j)
