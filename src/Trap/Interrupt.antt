-- ===== src/Trap/Interrupt.antt =====
-- `interrupt_c_handler` of interrupts/context_switch.c on rv32. Cause 3 is a command from another
-- hart: the receiver's side of the mailbox. The arguments `cpu_context` and `mtval` are not used.
pub mod Quiet
pub mod Start
pub mod Receive
use echelon_sbi.Base.{
  ℕ, ◌+◌, ◌*◌, ◌==◌, if◌then◌else◌, not, update, u32, bit_and, bit_or, ◌<<<◌, ◌>>>◌, ◌∷◌, [],
}
use echelon_sbi.Machine.{
  Config, Machine, Board, custom_emu, qemu_virt, HartCommand, context_ptr, em_s, reg_pc, reg_a0,
  reg_a1, hartcmd_switchcontext, hartcmd_starthart, hartcmd_remote_fence_i,
  hartcmd_remote_sfence_vma, hartcmd_remote_sfence_vma_asid, hartcmd_smode_softint,
}
use echelon_sbi.Machine.Run.{
  Cmd, pure, read, modify, ◌>>=◌, ◌>>◌, printm, cpu_fencei, cpu_sfencevma, idle_loop,
  switch_context, set_command, set_msip, set_context, set_hsm_state, ksem_wait_hsm, ksem_post_hsm,
}
use echelon_sbi.HartCommand.{MailboxOps, on_machine}
use echelon_sbi.Machine.Csr.{
  csr_read, csr_write, csr_bitset, csr_bitclr, csr_satp, csr_mstatus, csr_medeleg, csr_mideleg,
  csr_mie, csr_mcounteren, csr_mip, csr_menvcfg, csr_menvcfgh, csr_pmpcfg0, csr_pmpaddr0,
  csr_pmpaddr1, csr_pmpaddr2,
}
use echelon_sbi.Sbi.Codes.{sbi_hsm_started}
use echelon_sbi.Trap.Context.{clear_hart_context}

-- `hart_commands[mhartid].command = 0; clint_hart_msip_ctls[mhartid] = 0`, in this order.
unfoldable pub release_mailbox : {M : Type 0} → MailboxOps M → M
release_mailbox ops = ops.next ops.reset_command ops.reset_msip

unfoldable pub setup_pmp : Cmd (Unit {0})
setup_pmp = do
  load_to ← read λ m. m.kernel_load_to_point
  csr_write csr_pmpaddr0 (bit_and (0x80000000 >>> 2) 0xffffffff)
  csr_write csr_pmpaddr1 (bit_and (load_to >>> 2) 0xffffffff)
  csr_write csr_pmpaddr2 (bit_and (0xffffffff >>> 2) 0xffffffff)
  csr_write csr_pmpcfg0 (bit_or (bit_or (0x0f <<< 16) (0x08 <<< 8)) (0x0b <<< 0))

-- Turns stimecmp on and reads back whether the hart has it.
unfoldable pub probe_sstc : Cmd (Unit {0})
probe_sstc = do
  csr_bitset csr_menvcfgh (1 <<< 31)
  csr_menucfgh ← csr_bitclr csr_menvcfgh 0
  if not (bit_and csr_menucfgh (1 <<< 31) == 0)
      then modify (λ m. record m { hart_using_ext_sstc = update m.hart_using_ext_sstc m.mhartid 1 })
      else pure tt

unfoldable pub qemu_fixes : Cmd (Unit {0})
qemu_fixes = do
  setup_pmp
  has_menvcfg ← read λ m. m.hart_has_menvcfg m.mhartid
  if not (has_menvcfg == 0) then probe_sstc else pure tt
  using_sstc ← read λ m. m.hart_using_ext_sstc m.mhartid
  if not (using_sstc == 0)
      then (do printm "\tUsing ISA Extenstion: SSTC\n" []; csr_bitset csr_mcounteren 0x2; pure tt)
      else pure tt
  if not (has_menvcfg == 0)
      then (do
        csr_bitset csr_menvcfg (3 <<< 4)
        csr_bitset csr_menvcfg (1 <<< 6)
        csr_bitset csr_menvcfg (1 <<< 7)
        pure tt)
      else pure tt

pub board_fixes : Board → Cmd (Unit {0})
board_fixes custom_emu = pure tt
board_fixes qemu_virt = qemu_fixes

unfoldable pub setup_supervisor_csrs : Cmd (Unit {0})
setup_supervisor_csrs = do
  csr_write csr_medeleg 0x0000
  csr_write csr_mideleg 0x0222
  csr_write csr_mie 0x02a
  csr_bitclr csr_mip 0xfff
  csr_write csr_satp 0
  csr_bitclr csr_mstatus 0x2a
  csr_bitset csr_mstatus 0x80
  pure tt

-- The user context that a started hart runs: supervisor mode at `param1`, its id and `param2` in
-- a0 and a1.
unfoldable pub setup_user_context : HartCommand → Cmd (Unit {0})
setup_user_context command = do
  self ← read λ m. m.mhartid
  p ← read λ m. context_ptr m.hart_contexts_user m.mhartid
  clear_hart_context p
  c ← read λ m. m.contexts p
  set_context p (record {
    context_id = self;
    execution_mode = em_s;
    reserved_0 = c.reserved_0;
    regs = update (update (update c.regs reg_pc command.param1) reg_a0 self) reg_a1 command.param2;
  })

unfoldable pub on_starthart : Config → HartCommand → Cmd (Unit {0})
unfolding board_fixes
on_starthart cfg command = do
  self ← read λ m. m.mhartid
  printm "\tStarting: %u\n" (self ∷ [])
  board_fixes cfg.board
  setup_supervisor_csrs
  setup_user_context command
  ksem_wait_hsm self
  set_hsm_state self sbi_hsm_started
  ksem_post_hsm self
  release_mailbox on_machine
  p ← read λ m. context_ptr m.hart_contexts_user m.mhartid
  switch_context p

not_handled_interrupt : (cause_value : ℕ) → Cmd (Unit {0})
not_handled_interrupt cause_value = do
  printm "ESBI Interrupt!  Lower 31 mcause bits: %lu.  Halting.\n" (cause_value ∷ [])
  idle_loop

-- The command is copied before the mailbox is released.
unfoldable pub on_hart_command : Config → (cause_value : ℕ) → Cmd (Unit {0})
unfolding not_handled_interrupt
on_hart_command cfg cause_value = do
  command ← read λ m. m.hart_commands m.mhartid
  if command.command == hartcmd_switchcontext
      then release_mailbox on_machine >> switch_context command.param0
      else if command.command == hartcmd_starthart
      then on_starthart cfg command
      else if command.command == hartcmd_remote_fence_i
      then cpu_fencei >> release_mailbox on_machine
      else if command.command == hartcmd_remote_sfence_vma
      then cpu_sfencevma >> release_mailbox on_machine
      else if command.command == hartcmd_remote_sfence_vma_asid
      then cpu_sfencevma >> release_mailbox on_machine
      else if command.command == hartcmd_smode_softint
      then release_mailbox on_machine >> csr_bitset csr_mip 0x2 >> pure tt
      else not_handled_interrupt cause_value

unfoldable pub interrupt_c_handler : Config → (cause_value : ℕ) → Cmd (Unit {0})
unfolding not_handled_interrupt
interrupt_c_handler cfg cause_value =
    if cause_value == 3
    then on_hart_command cfg cause_value
    else if cause_value == 1
    then printm "ESBI Error: S-Mode Software Interrupt trapped into M-Mode.  Halting.\n" []
      >> idle_loop
    else if cause_value == 5
    then printm "ESBI Error: S-Mode Timer Interrupt trapped into M-Mode.  Halting.\n" []
      >> idle_loop
    else if cause_value == 9
    then printm "ESBI Error: S-Mode External Interrupt trapped into M-Mode.  Halting.\n" []
      >> idle_loop
    else if cause_value == 7
    then (do
      using_sstc ← read λ m. m.hart_using_ext_sstc m.mhartid
      if using_sstc == 0
          then csr_bitclr csr_mie 0x80 >> csr_bitset csr_mip 0x20 >> pure tt
          else pure tt)
    else if cause_value == 11
    then (do
      printm "ESBI Error: M-Mode External Int received in M-Mode.  Halting.\n" []
      csr_bitclr csr_mie 0x800
      idle_loop)
    else not_handled_interrupt cause_value
