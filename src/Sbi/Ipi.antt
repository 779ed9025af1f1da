-- ===== src/Sbi/Ipi.antt =====
-- sbi_commands/ipi.c
use echelon_sbi.Base.{ℕ, ◌==◌, if◌then◌else◌, not, []}
use echelon_sbi.Machine.{Config, hartcmd_smode_softint}
use echelon_sbi.Machine.Run.{Cmd, pure, read, ◌>>=◌, ◌>>◌, printm}
use echelon_sbi.Machine.Csr.{csr_bitset, csr_mip}
use echelon_sbi.HartCommand.{on_machine, send_hart_command_que}
use echelon_sbi.Sbi.Codes.{SbiRet, sbiret, sbi_success, sbi_err_invalid_param}
use echelon_sbi.Sbi.HartMask.{effective_mask, effective_base, check_loop, action_loop, xlen}

-- The body of the action loop; the other fields of the command are what the stack held.
unfoldable pub send_ipi_to : ℕ → Cmd (Unit {0})
send_ipi_to hartid = do
  self ← read λ m. m.mhartid
  garbage ← read λ m. m.stack_command
  if hartid == self
      then csr_bitset csr_mip 0x2 >> pure tt
      else send_hart_command_que on_machine hartid
          (record garbage { command = hartcmd_smode_softint; param0 = hartid })

unfoldable pub sbi_send_ipi : Config → (hart_mask hart_mask_base : ℕ) → Cmd SbiRet
sbi_send_ipi c hart_mask hart_mask_base =
    let mask = effective_mask c hart_mask hart_mask_base in
    let base = effective_base c hart_mask_base in
    if not (check_loop c xlen 0 mask base)
    then (do printm "SBI FAILURE: SEND_IPI\n" []; pure (sbiret sbi_err_invalid_param 0))
    else (do action_loop send_ipi_to xlen 0 mask base; pure (sbiret sbi_success 0))
