-- ===== src/Sbi/HartMask/AllHarts.antt =====
-- The mask of all harts in use, bit by bit.
use echelon_sbi.Base.{
  ℕ, zero, suc, ◌+◌, ◌-◌, ◌^◌, ◌≤◌, ◌<◌, ◌≡◌, refl, ◌↔◌, true, ◌&&◌, ◌==◌, ltb, leb, if◌then◌else◌,
  ◌<<<◌, minus, bit_or, every_below, every_below_sound, ==_iff, arith,
}
use echelon_sbi.Base.Bits.{bit, bit-lt, bit-zero, bit-bit_or, bit-two_pow}
use echelon_sbi.Machine.{Config}
use echelon_sbi.Sbi.Valid.{first_hart, is_valid_hartid}
use echelon_sbi.Sbi.HartMask.{xlen, all_harts_loop, all_harts, effective_mask, effective_base}
use echelon_sbi.Sbi.HartMask.Select.{Selects}

-- The macros make sense: some of the harts are in use, and a mask can name every hart.
pub record IsConfig (c : Config) : Type 0 where
  pub used : c.use_hart_count ≤ c.total_hart_count
  pub masked : c.total_hart_count ≤ 32

pub first_hart_lem :
    {c : Config} → IsConfig c → first_hart c ≡ c.total_hart_count - c.use_hart_count
first_hart_lem {c} ok = omega arith

shifts : every_below (λ i. 1 <<< i == 2 ^ i) 32 ≡ true
unfolding every_below
shifts = refl

one_shifted : (i : ℕ) → i < 32 → (1 <<< i) ≡ 2 ^ i
one_shifted i h = (==_iff _ _).0 (every_below_sound (λ j. 1 <<< j == 2 ^ j) 32 i h shifts)

bit-one_shifted : (i k : ℕ) → i < 32 → bit (1 <<< i) k ≡ (if k == i then 1 else 0)
bit-one_shifted i k h = rw (one_shifted i h) (bit-two_pow i k)

bit-all_harts_loop :
    (c : Config) (rounds i mask k : ℕ)
    → i + rounds ≤ 32
    → bit (all_harts_loop c rounds i mask) k
      ≡ (if leb i k && ltb k (i + rounds) then 1 else bit mask k)
unfolding all_harts_loop
bit-all_harts_loop c zero i mask k h = ground arith
bit-all_harts_loop c (suc rounds) i mask k h = ground (
  arith,
  bit-all_harts_loop c rounds (i + 1) (bit_or mask (1 <<< i)) k,
  bit-bit_or mask (1 <<< i) k,
  bit-one_shifted i k,
  bit-lt mask k,
)

bit-all_harts :
    (c : Config) (k : ℕ)
    → IsConfig c
    → bit (all_harts c) k
      ≡ (if leb (c.total_hart_count - c.use_hart_count) k && ltb k c.total_hart_count then 1 else 0)
unfolding all_harts
bit-all_harts c k ok = ground (
  arith,
  first_hart_lem ok,
  bit-zero k,
  bit-all_harts_loop c (c.total_hart_count - first_hart c) (first_hart c) 0 k,
)

-- If the harts in use are at most all harts, and those at most 32, a base of -1 selects exactly the
-- harts in use, whatever the mask is.
pub Selects-all_harts_iff :
    (c : Config) (mask h : ℕ)
    → IsConfig c
    → Selects xlen (effective_mask c mask (minus 1)) (effective_base c (minus 1)) h
      ↔ (is_valid_hartid c h ≡ true)
unfolding effective_mask effective_base is_valid_hartid
Selects-all_harts_iff c mask h ok = (
  λ (k, lt, one, same). ground (arith, first_hart_lem ok, bit-all_harts c k ok),
  λ valid. (
    h,
    ground (arith, first_hart_lem ok),
    ground (arith, first_hart_lem ok, bit-all_harts c h ok),
    ground (arith, first_hart_lem ok),
  ),
)
