-- ===== src/Trap/PageTable.antt =====
-- `walk_pts` of interrupts/context_switch.c, the branch for a 32-bit XLEN (Sv32). `page_walk` is an
-- `int32_t`, held as its bit pattern; memory is read a word at a time.
pub mod Sv32
use echelon_sbi.Base.{
  ℕ, zero, suc, ◌+◌, ◌-◌, ◌*◌, ◌==◌, leb, ◌&&◌, if◌then◌else◌, Option, none, some, u32, bit_and,
  bit_or, bit_not, ◌<<<◌, ◌>>>◌, shift_right_signed,
}

module _ (word_at : ℕ → ℕ) (location : ℕ) where
  -- The word that a round of the walk reads.
  unfoldable pub page_entry : (page_walk shift_ammount : ℕ) → ℕ
  page_entry page_walk shift_ammount =
      let page_ptr = bit_and (shift_right_signed (page_walk <<< 2) 0) (bit_not 0xfff) in
      word_at (u32 (page_ptr + 4 * bit_and (location >>> shift_ammount) 0x3ff))

  -- The `do … while` over the levels; `none` if the fuel runs out.
  unfoldable pub walk_loop : (fuel page_walk shift_ammount : ℕ) → Option (ℕ × ℕ)
  walk_loop zero page_walk shift_ammount = none
  walk_loop (suc fuel) page_walk shift_ammount =
      let entry = page_entry page_walk shift_ammount in
      let left = shift_ammount - 10 in
      let rest = walk_loop fuel entry left in
      if bit_and entry 0xf == 1 && leb 12 left then rest else some (entry, left)

  -- `while (shift_ammount >= 12) page_walk |= location & (0x3FF << shift_ammount)`
  unfoldable pub superpage_loop : (fuel page_walk shift_ammount : ℕ) → Option ℕ
  superpage_loop zero page_walk shift_ammount = none
  superpage_loop (suc fuel) page_walk shift_ammount =
      let rest =
        superpage_loop fuel (bit_or page_walk (bit_and location (0x3ff <<< shift_ammount)))
          (shift_ammount - 10) in
      if leb 12 shift_ammount then rest else some page_walk

  abbrev pub and_then {ℓ κ} : {A : Type ℓ} {B : Type κ} → Option A → (A → Option B) → Option B
  and_then none k = none
  and_then (some a) k = k a

  -- A round takes 10 from 22, so two rounds of the walk and two tests of the second loop are enough.
  unfoldable pub walk_pts : (csr_satp : ℕ) → Option ℕ
  walk_pts csr_satp =
      if csr_satp >>> 31 == 1
      then and_then (walk_loop 2 (csr_satp <<< 10) 22) (λ (entry, left).
        and_then (superpage_loop 2 (shift_right_signed entry 10 <<< 12) left)
          (λ page_walk. some (bit_or page_walk (bit_and location 0xfff))))
      else some location
