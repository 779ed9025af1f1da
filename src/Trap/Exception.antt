-- ===== src/Trap/Exception.antt =====
-- `exception_c_handler` of interrupts/context_switch.c on rv32. `context` is the address of the
-- trapped context. The emulation of the time CSRs is disabled in the source (`&& 0`), so what
-- `decode_instruction` finds is not used.
pub mod Spares
pub mod SparedCalls
pub mod SupervisorCall
pub mod Delegation
use echelon_sbi.Base.{
  ℕ, ◌+◌, ◌==◌, if◌then◌else◌, not, ◌||◌, update, u32, Option, none, some, ◌∷◌, [],
}
use echelon_sbi.Machine.{Config, Machine, em_m, em_u, reg_pc, reg_a0, reg_a1, reg_a6, reg_a7}
use echelon_sbi.Machine.Run.{
  Cmd, pure, read, ◌>>=◌, ◌>>◌, printm, idle_loop, set_context, s_delegation_trampoline,
}
use echelon_sbi.Machine.Csr.{csr_read, csr_bitclr, csr_satp, csr_mstatus}
use echelon_sbi.Sbi.Dispatch.{call_to_sbi}
use echelon_sbi.Trap.PageTable.{walk_pts}
use echelon_sbi.Trap.Context.{print_reg_state}

-- An exception that is fatal to the hart: interrupts off, a message, the registers, the idle loop.
unfoldable pub halt_with : (message : Cmd (Unit {0})) (context : ℕ) → Cmd (Unit {0})
halt_with message context = do
  csr_bitclr csr_mstatus 0x8
  message
  print_reg_state context
  idle_loop

-- The address of the instruction: translated unless the trap came from machine mode. A walk that
-- runs out of fuel has no address.
unfoldable pub instruction_address : (context : ℕ) → Cmd (Option ℕ)
instruction_address context = do
  csr_satp_value ← csr_read csr_satp
  c ← read λ m. m.contexts context
  word_at ← read λ m. m.word_at
  if not (c.execution_mode == em_m)
      then pure (walk_pts word_at (c.regs reg_pc) csr_satp_value)
      else pure (some (c.regs reg_pc))

report_illegal : (context : ℕ) → Option ℕ → Cmd (Unit {0})
report_illegal context none = idle_loop
report_illegal context (some instruction) = do
  word ← read λ m. m.word_at instruction
  printm "Illegal Instruction: 0x%08X\n" (word ∷ [])
  print_reg_state context
  idle_loop

unfoldable pub on_illegal_instruction : (context mtval : ℕ) → Cmd (Unit {0})
unfolding report_illegal
on_illegal_instruction context mtval = do
  instruction ← instruction_address context
  c ← read λ m. m.contexts context
  if c.execution_mode == em_u
      then s_delegation_trampoline context 2 mtval
      else report_illegal context instruction

-- A call from supervisor mode: arguments in a0 to a5, extension in a7, function in a6; the program
-- counter is moved past the `ecall` first, and the results go to a0 and a1.
unfoldable pub on_supervisor_call : Config → (context : ℕ) → Cmd (Unit {0})
on_supervisor_call cfg context = do
  old ← read λ m. m.contexts context
  set_context context (record old { regs = update old.regs reg_pc (u32 (old.regs reg_pc + 4)) })
  c ← read λ m. m.contexts context
  sbi_return ← call_to_sbi cfg (c.regs reg_a7) (c.regs reg_a6) (λ i. c.regs (reg_a0 + i))
  now ← read λ m. m.contexts context
  set_context context (record now {
    regs = update (update now.regs reg_a1 sbi_return.value) reg_a0 sbi_return.error;
  })

unfoldable pub exception_c_handler : Config → (context cause_value mtval : ℕ) → Cmd (Unit {0})
exception_c_handler cfg context cause_value mtval =
    if cause_value == 0
    then s_delegation_trampoline context cause_value mtval
    else if cause_value == 1
    then halt_with (printm "Instruction Access Fault\n" []) context
    else if cause_value == 2
    then on_illegal_instruction context mtval
    else if cause_value == 3
    then halt_with (printm "Breakpoint Exception.  Trap Handler: M-Mode\n" []) context
    else if cause_value == 4
    then s_delegation_trampoline context cause_value mtval
    else if cause_value == 5
    then halt_with (printm "Load Access Fault\n" []) context
    else if cause_value == 6
    then s_delegation_trampoline context cause_value mtval
    else if cause_value == 7
    then halt_with (printm "Store/AMO Access Fault\n" []) context
    else if cause_value == 8
    then s_delegation_trampoline context cause_value mtval
    else if cause_value == 9
    then on_supervisor_call cfg context
    else if cause_value == 11
    then (do
      self ← read λ m. m.mhartid
      halt_with
          (printm
            "ESBI Trap Caught!  Machine-Mode Environment Exception.  Trap Handler: M-Mode. mhartid: %lu.  Halting.\n"
            (self ∷ []))
          context)
    else if cause_value == 12
    then s_delegation_trampoline context cause_value mtval
    else if cause_value == 13
    then s_delegation_trampoline context cause_value mtval
    else if cause_value == 15
    then s_delegation_trampoline context cause_value mtval
    else halt_with
        (printm "ESBI Exception!  Lower 31 mcause bits: %lu.  Halting.\n" (cause_value ∷ []))
        context
