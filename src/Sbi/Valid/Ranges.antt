-- ===== src/Sbi/Valid/Ranges.antt =====
-- The checks of sbi_commands.c as ranges.
use echelon_sbi.Base.{ℕ, ◌+◌, ◌-◌, ◌%◌, ◌^◌, ◌≤◌, ◌<◌, ◌≡◌, ◌↔◌, true, arith}
use echelon_sbi.Base.Bits.Fields.{bit_and-ones}
use echelon_sbi.Machine.{Config}
use echelon_sbi.Sbi.Valid.{is_valid_hartid, is_valid_phys_mem_addr}

-- A hart id is accepted exactly if it is one of the last `use_hart_count` ids below
-- `total_hart_count`, where the first count is at most the second and that fits a word.
pub is_valid_hartid_iff :
    (c : Config) (hartid : ℕ)
    → c.use_hart_count ≤ c.total_hart_count
    → c.total_hart_count < 2 ^ 32
    → (is_valid_hartid c hartid ≡ true)
      ↔ ((c.total_hart_count - c.use_hart_count ≤ hartid) × (hartid < c.total_hart_count))
unfolding is_valid_hartid
is_valid_hartid_iff c hartid used fits = ground arith

-- An address is accepted for alignment 2, the only one that the callers ask for, exactly if it is a
-- multiple of four that lies in the board's memory, where that memory ends below the last word.
pub is_valid_phys_mem_addr_iff :
    (c : Config) (address : ℕ)
    → c.memory_base + c.memory_available < 2 ^ 32
    → (is_valid_phys_mem_addr c address 2 ≡ true) ↔ (
        (address % 4 ≡ 0)
        × (c.memory_base ≤ address)
        × (address < c.memory_base + c.memory_available))
unfolding is_valid_phys_mem_addr
is_valid_phys_mem_addr_iff c address fits = ground (arith, bit_and-ones 2 address)
