-- ===== src/Sbi/RemoteFence.antt =====
-- sbi_commands/rfnc.c
use echelon_sbi.Base.{ℕ, ◌==◌, if◌then◌else◌, not, []}
use echelon_sbi.Machine.{
  Config, hartcmd_remote_fence_i, hartcmd_remote_sfence_vma, hartcmd_remote_sfence_vma_asid,
}
use echelon_sbi.Machine.Run.{Cmd, pure, read, ◌>>=◌, ◌>>◌, printm, cpu_fencei, cpu_sfencevma}
use echelon_sbi.HartCommand.{on_machine, send_hart_command_que}
use echelon_sbi.Sbi.Codes.{
  SbiRet, sbiret, sbi_success, sbi_err_invalid_param, sbi_err_not_supported,
}
use echelon_sbi.Sbi.HartMask.{effective_mask, effective_base, check_loop, action_loop, xlen}

unfoldable pub remote_fence_i_on : ℕ → Cmd (Unit {0})
remote_fence_i_on hartid = do
  self ← read λ m. m.mhartid
  garbage ← read λ m. m.stack_command
  if hartid == self
      then cpu_fencei
      else send_hart_command_que on_machine hartid
          (record garbage { command = hartcmd_remote_fence_i; param0 = hartid })

unfoldable pub sbi_remote_fence_i : Config → (hart_mask hart_mask_base : ℕ) → Cmd SbiRet
sbi_remote_fence_i c hart_mask hart_mask_base =
    let mask = effective_mask c hart_mask hart_mask_base in
    let base = effective_base c hart_mask_base in
    if not (check_loop c xlen 0 mask base)
    then (do printm "SBI FAILURE: Remote Fence.I\n" []; pure (sbiret sbi_err_invalid_param 0))
    else (do action_loop remote_fence_i_on xlen 0 mask base; pure (sbiret sbi_success 0))

unfoldable pub remote_sfence_vma_on : (start_addr size hartid : ℕ) → Cmd (Unit {0})
remote_sfence_vma_on start_addr size hartid = do
  self ← read λ m. m.mhartid
  garbage ← read λ m. m.stack_command
  if hartid == self
      then cpu_sfencevma
      else send_hart_command_que on_machine hartid (record garbage {
        command = hartcmd_remote_sfence_vma;
        param0 = hartid;
        param1 = start_addr;
        param2 = size;
      })

unfoldable pub sbi_remote_sfence_vma :
    Config → (hart_mask hart_mask_base start_addr size : ℕ) → Cmd SbiRet
sbi_remote_sfence_vma c hart_mask hart_mask_base start_addr size =
    let mask = effective_mask c hart_mask hart_mask_base in
    let base = effective_base c hart_mask_base in
    if not (check_loop c xlen 0 mask base)
    then (do printm "SBI FAILURE: Remote SFence.VMA\n" []; pure (sbiret sbi_err_invalid_param 0))
    else (do
      action_loop (remote_sfence_vma_on start_addr size) xlen 0 mask base
      pure (sbiret sbi_success 0))

unfoldable pub remote_sfence_vma_asid_on : (start_addr size asid hartid : ℕ) → Cmd (Unit {0})
remote_sfence_vma_asid_on start_addr size asid hartid = do
  self ← read λ m. m.mhartid
  garbage ← read λ m. m.stack_command
  if hartid == self
      then cpu_sfencevma
      else send_hart_command_que on_machine hartid (record garbage {
        command = hartcmd_remote_sfence_vma_asid;
        param0 = hartid;
        param1 = start_addr;
        param2 = size;
        param3 = asid;
      })

unfoldable pub sbi_remote_sfence_vma_asid :
    Config → (hart_mask hart_mask_base start_addr size asid : ℕ) → Cmd SbiRet
sbi_remote_sfence_vma_asid c hart_mask hart_mask_base start_addr size asid =
    let mask = effective_mask c hart_mask hart_mask_base in
    let base = effective_base c hart_mask_base in
    if not (check_loop c xlen 0 mask base)
    then (do
      printm "SBI FAILURE: Remote SFence.VMA_ASID\n" []
      pure (sbiret sbi_err_invalid_param 0))
    else (do
      action_loop (remote_sfence_vma_asid_on start_addr size asid) xlen 0 mask base
      pure (sbiret sbi_success 0))

-- The hypervisor fences ignore their arguments.
unfoldable pub sbi_remote_hfence_gvma_vmid : Cmd SbiRet
sbi_remote_hfence_gvma_vmid = do
  printm "SBI FAILURE: HFence.GVMA_VMID\n" []
  pure (sbiret sbi_err_not_supported 0)

unfoldable pub sbi_remote_hfence_gvma : Cmd SbiRet
sbi_remote_hfence_gvma = do
  printm "SBI FAILURE: HFence.GVMA\n" []
  pure (sbiret sbi_err_not_supported 0)

unfoldable pub sbi_remote_hfence_vvma_asid : Cmd SbiRet
sbi_remote_hfence_vvma_asid = do
  printm "SBI FAILURE: HFence.VVMA_ASID\n" []
  pure (sbiret sbi_err_not_supported 0)

unfoldable pub sbi_remote_hfence_vvma : Cmd SbiRet
sbi_remote_hfence_vvma = do
  printm "SBI FAILURE: HFence.VVMA\n" []
  pure (sbiret sbi_err_not_supported 0)
