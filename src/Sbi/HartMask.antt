-- ===== src/Sbi/HartMask.antt =====
-- The loops that sbi_send_ipi and the remote fences share word for word: the mask of all harts, the
-- check of each selected hart, and the action on each. `xlen` is 32.
pub mod Select
pub mod Deliver
pub mod AllHarts
use echelon_sbi.Base.{
  ℕ, zero, suc, ◌+◌, ◌-◌, ◌%◌, ◌/◌, Bool, true, false, ◌==◌, if◌then◌else◌, u32, minus, bit_or,
  ◌<<<◌,
}
use echelon_sbi.Machine.{Config}
use echelon_sbi.Machine.Run.{Cmd, pure, ◌>>=◌, ◌>>◌}
use echelon_sbi.Sbi.Valid.{first_hart, is_valid_hartid}

abbrev pub xlen : ℕ
xlen = 32

module _ (c : Config) where
  -- `for (i …; i < TOTAL_HART_COUNT; i++) hart_mask |= (1ul << i)`, with the rounds left.
  -- C does not define the shift for `i` from 32 on: it is taken for zero there, and what is said of the
  -- mask is said of 32 harts at most.
  unfoldable pub all_harts_loop : (rounds i mask : ℕ) → ℕ
  all_harts_loop zero i mask = mask
  all_harts_loop (suc rounds) i mask = all_harts_loop rounds (i + 1) (bit_or mask (1 <<< i))

  unfoldable pub all_harts : ℕ
  all_harts = all_harts_loop (c.total_hart_count - first_hart c) (first_hart c) 0

  -- `hart_mask_base == -1` selects every hart.
  unfoldable pub effective_mask : (hart_mask hart_mask_base : ℕ) → ℕ
  effective_mask hart_mask hart_mask_base =
      if hart_mask_base == minus 1 then all_harts else hart_mask

  unfoldable pub effective_base : (hart_mask_base : ℕ) → ℕ
  effective_base hart_mask_base = if hart_mask_base == minus 1 then 0 else hart_mask_base

  -- The check loop at index `i`: `false` is its early return.
  unfoldable pub check_loop : (rounds i tmp_hart_mask hart_mask_base : ℕ) → Bool
  check_loop zero i tmp base = true
  check_loop (suc rounds) i tmp base =
      let rest = check_loop rounds (i + 1) (tmp / 2) base in
      if tmp % 2 == 1 then if is_valid_hartid c (u32 (base + i)) then rest else false else rest

-- The action loop at index `i`.
unfoldable pub action_loop :
    (act : ℕ → Cmd (Unit {0})) (rounds i tmp_hart_mask hart_mask_base : ℕ) → Cmd (Unit {0})
action_loop act zero i tmp base = pure tt
action_loop act (suc rounds) i tmp base = do
  if tmp % 2 == 1 then act (u32 (base + i)) else pure tt
  action_loop act rounds (i + 1) (tmp / 2) base
