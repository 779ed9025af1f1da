-- ===== src/Sbi/HartState.antt =====
-- sbi_commands/hsm.c: hart state management.
pub mod Outcomes
use echelon_sbi.Base.{ℕ, ◌+◌, ◌*◌, ◌==◌, leb, ◌&&◌, ◌||◌, if◌then◌else◌, not, update, []}
use echelon_sbi.Machine.{Config, Machine, context_ptr, hartcmd_starthart, reg_a0, reg_a1, reg_a2}
use echelon_sbi.Machine.Run.{
  Cmd, pure, read, ◌>>=◌, ◌>>◌, printm, ksem_wait_hsm, ksem_post_hsm, set_hsm_state, set_context,
  switch_context,
}
use echelon_sbi.HartCommand.{on_machine, send_hart_command_que}
use echelon_sbi.Sbi.Codes.{
  SbiRet, sbiret, sbi_success, sbi_err_not_supported, sbi_err_invalid_param,
  sbi_err_invalid_address, sbi_err_already_available, sbi_hsm_started, sbi_hsm_stopped,
  sbi_hsm_start_pending, sbi_hsm_suspended, sbi_hsm_resume_pending,
}
use echelon_sbi.Sbi.Valid.{is_valid_hartid, is_valid_phys_mem_addr}

-- `&hart_contexts[mhartid]`
abbrev pub machine_context : Cmd ℕ
machine_context = read λ m. context_ptr m.hart_contexts m.mhartid

-- From the lock on: the state is checked and changed while the lock is held.
unfoldable pub start_hart_locked : (hartid start_addr opaque : ℕ) → Cmd SbiRet
start_hart_locked hartid start_addr opaque = do
  ksem_wait_hsm hartid
  hart_state ← read λ m. m.sbi_hsm_states hartid
  garbage ← read λ m. m.stack_command
  if hart_state == sbi_hsm_started
        || hart_state == sbi_hsm_start_pending
        || hart_state == sbi_hsm_resume_pending
      then (do
        printm "\tNot Started: Already Available2\n" []
        ksem_post_hsm hartid
        pure (sbiret sbi_err_already_available 0))
      else (do
        set_hsm_state hartid sbi_hsm_start_pending
        ksem_post_hsm hartid
        send_hart_command_que on_machine hartid (record garbage {
          command = hartcmd_starthart;
          param0 = hartid;
          param1 = start_addr;
          param2 = opaque;
        })
        pure (sbiret sbi_success 0))

unfoldable pub sbi_hart_start : Config → (hartid start_addr opaque : ℕ) → Cmd SbiRet
sbi_hart_start c hartid start_addr opaque = do
  self ← read λ m. m.mhartid
  if not (is_valid_hartid c hartid)
      then (do printm "\tNot Started: Invalid HartID\n" []; pure (sbiret sbi_err_invalid_param 0))
      else if not (is_valid_phys_mem_addr c start_addr 2)
      then (do
        printm "\tNot Started: Invalid Memory Address\n" []
        pure (sbiret sbi_err_invalid_address 0))
      else if hartid == self
      then (do
        printm "\tNot Started: Already Available1\n" []
        pure (sbiret sbi_err_already_available 0))
      else start_hart_locked hartid start_addr opaque

-- The return after the switch is not reached.
unfoldable pub sbi_hart_stop : Cmd SbiRet
sbi_hart_stop = do
  printm "SBI: HSM_STOP\n" []
  self ← read λ m. m.mhartid
  ksem_wait_hsm self
  set_hsm_state self sbi_hsm_stopped
  ksem_post_hsm self
  context ← machine_context
  switch_context context

unfoldable pub sbi_hart_get_status : Config → ℕ → Cmd SbiRet
sbi_hart_get_status c hartid = do
  printm "SBI: HSM_STATUS\n" []
  if not (is_valid_hartid c hartid)
      then pure (sbiret sbi_err_invalid_param 0)
      else (do state ← read λ m. m.sbi_hsm_states hartid; pure (sbiret sbi_success state))

-- The two default types park the hart in its machine context, with the resume address in a2.
unfoldable pub suspend_default : (suspend_type resume_addr opaque : ℕ) → Cmd SbiRet
suspend_default suspend_type resume_addr opaque = do
  self ← read λ m. m.mhartid
  context ← machine_context
  old ← read λ m. m.contexts context
  set_context context (record old {
    regs = update (update (update old.regs reg_a0 suspend_type) reg_a1 opaque) reg_a2 resume_addr;
  })
  ksem_wait_hsm self
  set_hsm_state self sbi_hsm_suspended
  ksem_post_hsm self
  switch_context context

-- The error of a type that does not suspend.
unfoldable pub suspend_error : ℕ → ℕ
suspend_error suspend_type =
    if leb 0x00000001 suspend_type && leb suspend_type 0x0fffffff
    then sbi_err_invalid_param
    else if leb 0x10000000 suspend_type && leb suspend_type 0x7fffffff
    then sbi_err_not_supported
    else if leb 0x80000001 suspend_type && leb suspend_type 0x8fffffff
    then sbi_err_invalid_param
    else if leb 0x90000000 suspend_type && leb suspend_type 0xffffffff
    then sbi_err_not_supported
    else sbi_err_invalid_param

unfoldable pub sbi_hart_suspend : Config → (suspend_type resume_addr opaque : ℕ) → Cmd SbiRet
sbi_hart_suspend c suspend_type resume_addr opaque = do
  printm "SBI: HSM_SUSPEND\n" []
  if not (is_valid_phys_mem_addr c resume_addr 2)
      then pure (sbiret sbi_err_invalid_address 0)
      else if suspend_type == 0x00000000 || suspend_type == 0x80000000
      then suspend_default suspend_type resume_addr opaque
      else pure (sbiret (suspend_error suspend_type) 0)
