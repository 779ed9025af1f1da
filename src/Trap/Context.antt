-- ===== src/Trap/Context.antt =====
-- `clear_hart_context` and `print_reg_state` of interrupts/context_switch.c
use echelon_sbi.Base.{ℕ, zero, suc, ◌+◌, leb, if◌then◌else◌, update, String, ◌∷◌, []}
use echelon_sbi.Machine.{CpuContext, reg_pc}
use echelon_sbi.Machine.Run.{Cmd, pure, read, ◌>>=◌, ◌>>◌, printm, set_context}
use echelon_sbi.Machine.Csr.{csr_read, csr_satp, csr_stvec}

-- `for (j …; j < 32; j++) regs[j] = 0`, with the rounds left.
unfoldable pub clear_regs_loop : (rounds j : ℕ) → (ℕ → ℕ) → ℕ → ℕ
clear_regs_loop zero j regs = regs
clear_regs_loop (suc rounds) j regs = clear_regs_loop rounds (j + 1) (update regs j 0)

unfoldable pub cleared_context : CpuContext → CpuContext
cleared_context c = record {
  context_id = 0;
  execution_mode = 0;
  reserved_0 = 0;
  regs = clear_regs_loop 32 0 c.regs;
}

unfoldable pub clear_hart_context : (context : ℕ) → Cmd (Unit {0})
clear_hart_context p = do c ← read λ m. m.contexts p; set_context p (cleared_context c)

-- `while (i <= limit) { printm(format, …); i += 2; }`, which gives the last `i`.
unfoldable pub print_pairs : String → (fuel limit i : ℕ) → (ℕ → ℕ) → Cmd ℕ
print_pairs format zero limit i regs = pure i
print_pairs format (suc fuel) limit i regs =
    let rest = print_pairs format fuel limit (i + 2) regs in
    if leb i limit then printm format (i ∷ regs i ∷ (i + 1) ∷ regs (i + 1) ∷ []) >> rest else pure i

-- 16 rounds are more than the 32 registers in pairs take.
unfoldable pub print_reg_state : (context : ℕ) → Cmd (Unit {0})
print_reg_state p = do
  c ← read λ m. m.contexts p
  self ← read λ m. m.mhartid
  printm "----Reg State----\n" []
  printm "\tHart ID: %u\n" (self ∷ [])
  printm "\tExecution Mode: %u\n" (c.execution_mode ∷ [])
  satp ← csr_read csr_satp
  printm "\tSATP: %08lX\n" (satp ∷ [])
  stvec ← csr_read csr_stvec
  printm "\tSTVEC: %08lX\n" (stvec ∷ [])
  printm "\t PC: %08lX\n" (c.regs reg_pc ∷ [])
  i ← print_pairs "\t x%u: %08lX\t x%u: %08lX\n" 16 8 1 c.regs
  printm "\t x%u: %08lX\tx%u: %08lX\n" (i ∷ c.regs i ∷ (i + 1) ∷ c.regs (i + 1) ∷ [])
  j ← print_pairs "\tx%u: %08lX\tx%u: %08lX\n" 16 30 (i + 2) c.regs
  printm "\tx%u: %08lX\n" (j ∷ c.regs j ∷ [])
