-- ===== src/Sbi/Valid.antt =====
-- The checks of sbi_commands.c, over the macros of main.h. `TOTAL_HART_COUNT - USE_HART_COUNT` is an
-- `int` that the comparison with a hart id makes unsigned.
pub mod Ranges
use echelon_sbi.Base.{
  ℕ, ◌+◌, Bool, true, false, not, ◌||◌, ◌==◌, ltb, leb, if◌then◌else◌, u32, sub_word, bit_and,
  ◌<<<◌,
}
use echelon_sbi.Machine.{Config}

abbrev pub first_hart : Config → ℕ
first_hart c = sub_word c.total_hart_count c.use_hart_count

unfoldable pub is_valid_phys_mem_addr : Config → (address required_alignment : ℕ) → Bool
is_valid_phys_mem_addr c address required_alignment =
    if not (bit_and address (sub_word (1 <<< required_alignment) 1) == 0)
    then false
    else if ltb address c.memory_base || leb (u32 (c.memory_base + c.memory_available)) address
    then false
    else true

unfoldable pub is_valid_hartid : Config → ℕ → Bool
is_valid_hartid c hartid =
    if ltb hartid (first_hart c) || leb c.total_hart_count hartid then false else true
