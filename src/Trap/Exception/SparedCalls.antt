-- ===== src/Trap/Exception/SparedCalls.antt =====
-- What a supervisor call leaves of the contexts when it returns: the calls over a hart mask, and
-- call_to_sbi (sbi_commands.c).
use echelon_sbi.Base.{ℕ, zero, suc, Bool, ◌==◌, if◌then◌else◌, not, u32, ◌/◌, ◌%◌, ◌+◌, arith}
use echelon_sbi.Machine.{Config, HartCommand}
use echelon_sbi.Machine.Run.{Cmd, ok, ◌>>◌}
use echelon_sbi.Machine.Csr.{csr_read, csr_bitset}
use echelon_sbi.HartCommand.{on_machine, send_hart_command_que}
use echelon_sbi.Sbi.HartMask.{check_loop, action_loop, effective_mask, effective_base, xlen}
use echelon_sbi.Sbi.HartMask.Deliver.{signal}
use echelon_sbi.Sbi.Broadcast.Calls.{
  ipi_command, fence_i_command, sfence_vma_command, sfence_vma_asid_command,
}
use echelon_sbi.Sbi.BaseExtension.{
  sbi_get_impl_version, sbi_get_mvendorid, sbi_get_marchid, sbi_get_mimpid,
}
use echelon_sbi.Sbi.Ipi.{sbi_send_ipi, send_ipi_to}
use echelon_sbi.Sbi.RemoteFence.{
  sbi_remote_fence_i, sbi_remote_sfence_vma, sbi_remote_sfence_vma_asid, remote_fence_i_on,
  remote_sfence_vma_on, remote_sfence_vma_asid_on, sbi_remote_hfence_gvma_vmid,
  sbi_remote_hfence_gvma, sbi_remote_hfence_vvma_asid, sbi_remote_hfence_vvma,
}
use echelon_sbi.Sbi.Codes.{
  SbiRet, sbi_ext_base, sbi_ext_time, sbi_ext_ipi, sbi_ext_rfnc, sbi_ext_hsm, sbi_ext_srst,
}
use echelon_sbi.Sbi.SystemReset.{sbi_system_reset}
use echelon_sbi.Sbi.Dispatch.{call_to_sbi, unsupported}
use echelon_sbi.Trap.Exception.Spares.{
  Spares, if-Spares, send_hart_command_que-Spares, sbi_get-Spares, sbi_probe_extension-Spares,
  sbi_set_timer-Spares, bind-Spares, sbi_hart_start-Spares, sbi_hart_stop-Spares,
  sbi_hart_get_status-Spares, sbi_hart_suspend-Spares,
}

action_loop-Spares :
    (act : ℕ → Cmd (Unit {0})) (n i tmp base : ℕ)
    → ((h : ℕ) → Spares (act h))
    → Spares (action_loop act n i tmp base)
unfolding action_loop
action_loop-Spares act zero i tmp base p = λ m cs same. same
action_loop-Spares act (suc n) i tmp base p =
    bind-Spares (if tmp % 2 == 1 then act (u32 (base + i)) else ok tt) _
      (if-Spares (tmp % 2 == 1) _ _ (p (u32 (base + i))) λ m cs same. same)
      λ _. action_loop-Spares act n (i + 1) (tmp / 2) base p

-- A check, a refusal with a message, and a loop of actions.
module _ (check : Bool) (refusal : Cmd SbiRet) (act : ℕ → Cmd (Unit {0})) (n i mask base : ℕ)
    (a : SbiRet) (p : (h : ℕ) → Spares (act h)) (q : Spares refusal) where
  broadcast-Spares : Spares (if check then refusal else (action_loop act n i mask base >> ok a))
  broadcast-Spares = if-Spares check _ _ q (
      bind-Spares (action_loop act n i mask base) (λ _. ok a)
        (action_loop-Spares act n i mask base p) λ _ m cs same. same)

-- The action on the caller, or a command to another hart.
signal-Spares :
    (here : Cmd (Unit {0})) (build : HartCommand → ℕ → HartCommand)
    → Spares here
    → (h : ℕ) → Spares (signal here build h)
signal-Spares here build p h m =
    if-Spares (h == m.mhartid) here (send_hart_command_que on_machine h (build m.stack_command h)) p
      (send_hart_command_que-Spares h (build m.stack_command h)) m

send_ipi_to-Spares : (h : ℕ) → Spares (send_ipi_to h)
unfolding send_ipi_to csr_bitset
send_ipi_to-Spares h = signal-Spares _ ipi_command (λ m cs same. same) h

sbi_send_ipi-Spares : (c : Config) (mask base : ℕ) → Spares (sbi_send_ipi c mask base)
unfolding sbi_send_ipi
sbi_send_ipi-Spares c mask base =
    broadcast-Spares
      (not (check_loop c xlen 0 (effective_mask c mask base) (effective_base c base))) _ send_ipi_to
      xlen 0 (effective_mask c mask base) (effective_base c base) _ send_ipi_to-Spares
      (λ m cs same. same)

remote_fence_i_on-Spares : (h : ℕ) → Spares (remote_fence_i_on h)
unfolding remote_fence_i_on
remote_fence_i_on-Spares h = signal-Spares _ fence_i_command (λ m cs same. same) h

sbi_remote_fence_i-Spares : (c : Config) (mask base : ℕ) → Spares (sbi_remote_fence_i c mask base)
unfolding sbi_remote_fence_i
sbi_remote_fence_i-Spares c mask base =
    broadcast-Spares
      (not (check_loop c xlen 0 (effective_mask c mask base) (effective_base c base))) _
      remote_fence_i_on xlen 0 (effective_mask c mask base) (effective_base c base) _
      remote_fence_i_on-Spares (λ m cs same. same)

remote_sfence_vma_on-Spares : (a s h : ℕ) → Spares (remote_sfence_vma_on a s h)
unfolding remote_sfence_vma_on
remote_sfence_vma_on-Spares a s h = signal-Spares _ (sfence_vma_command a s) (λ m cs same. same) h

sbi_remote_sfence_vma-Spares :
    (c : Config) (mask base a s : ℕ) → Spares (sbi_remote_sfence_vma c mask base a s)
unfolding sbi_remote_sfence_vma
sbi_remote_sfence_vma-Spares c mask base a s =
    broadcast-Spares
      (not (check_loop c xlen 0 (effective_mask c mask base) (effective_base c base))) _
      (remote_sfence_vma_on a s) xlen 0 (effective_mask c mask base) (effective_base c base) _
      (remote_sfence_vma_on-Spares a s) (λ m cs same. same)

remote_sfence_vma_asid_on-Spares : (a s i h : ℕ) → Spares (remote_sfence_vma_asid_on a s i h)
unfolding remote_sfence_vma_asid_on
remote_sfence_vma_asid_on-Spares a s i h =
    signal-Spares _ (sfence_vma_asid_command a s i) (λ m cs same. same) h

sbi_remote_sfence_vma_asid-Spares :
    (c : Config) (mask base a s i : ℕ) → Spares (sbi_remote_sfence_vma_asid c mask base a s i)
unfolding sbi_remote_sfence_vma_asid
sbi_remote_sfence_vma_asid-Spares c mask base a s i =
    broadcast-Spares
      (not (check_loop c xlen 0 (effective_mask c mask base) (effective_base c base))) _
      (remote_sfence_vma_asid_on a s i) xlen 0 (effective_mask c mask base) (effective_base c base)
      _ (remote_sfence_vma_asid_on-Spares a s i) (λ m cs same. same)

small_calls-Spares :
    (Spares sbi_get_impl_version
      × Spares sbi_get_mvendorid
      × Spares sbi_get_marchid
      × Spares sbi_get_mimpid)
    × (Spares sbi_remote_hfence_gvma_vmid
        × Spares sbi_remote_hfence_gvma
        × Spares sbi_remote_hfence_vvma_asid
        × Spares sbi_remote_hfence_vvma)
unfolding sbi_get_impl_version sbi_get_mvendorid sbi_get_marchid sbi_get_mimpid csr_read
    sbi_remote_hfence_gvma_vmid sbi_remote_hfence_gvma sbi_remote_hfence_vvma_asid
    sbi_remote_hfence_vvma
small_calls-Spares = (
  (λ m cs e. e, λ m cs e. e, λ m cs e. e, λ m cs e. e),
  (λ m cs e. e, λ m cs e. e, λ m cs e. e, λ m cs e. e),
)

sbi_system_reset-Spares : (c : Config) (t r : ℕ) → Spares (sbi_system_reset c t r)
unfolding sbi_system_reset
sbi_system_reset-Spares c t r m cs same = ground arith

-- A call that returns has changed no context.
pub call_to_sbi-Spares :
    (c : Config) (eid fid : ℕ) (params : ℕ → ℕ) → Spares (call_to_sbi c eid fid params)
unfolding call_to_sbi unsupported
call_to_sbi-Spares c eid fid params =
    if-Spares (eid == sbi_ext_base) _ _
      (if-Spares (fid == 0) _ _ (sbi_get-Spares.0) (
        if-Spares (fid == 1) _ _ (sbi_get-Spares.1) (
          if-Spares (fid == 2) _ _ (small_calls-Spares.0.0) (
            if-Spares (fid == 3) _ _ (sbi_probe_extension-Spares (params 0)) (
              if-Spares (fid == 4) _ _ (small_calls-Spares.0.1) (
                if-Spares (fid == 5) _ _ (small_calls-Spares.0.2)
                  (if-Spares (fid == 6) _ _ (small_calls-Spares.0.3) (λ m cs same. same))))))))
      (if-Spares (eid == sbi_ext_time) _ _
        (if-Spares (fid == 0) _ _ (sbi_set_timer-Spares _) (λ m cs same. same))
        (if-Spares (eid == sbi_ext_ipi) _ _
          (if-Spares (fid == 0) _ _ (sbi_send_ipi-Spares c (params 0) (params 1))
            (λ m cs same. same))
          (if-Spares (eid == sbi_ext_rfnc) _ _
            (if-Spares (fid == 0) _ _ (sbi_remote_fence_i-Spares c (params 0) (params 1)) (
              if-Spares (fid == 1) _ _
                (sbi_remote_sfence_vma-Spares c (params 0) (params 1) (params 2) (params 3))
                (if-Spares (fid == 2) _ _
                  (sbi_remote_sfence_vma_asid-Spares c (params 0) (params 1) (params 2) (params 3)
                    (params 4))
                  (if-Spares (fid == 3) _ _ (small_calls-Spares.1.0) (
                    if-Spares (fid == 4) _ _ (small_calls-Spares.1.1) (
                      if-Spares (fid == 5) _ _ (small_calls-Spares.1.2) (
                        if-Spares (fid == 6) _ _ (small_calls-Spares.1.3) (λ m cs same. same))))))))
            (if-Spares (eid == sbi_ext_hsm) _ _
              (if-Spares (fid == 0) _ _ (sbi_hart_start-Spares c (params 0) (params 1) (params 2)) (
                if-Spares (fid == 1) _ _ (sbi_hart_stop-Spares) (
                  if-Spares (fid == 2) _ _ (sbi_hart_get_status-Spares c (params 0)) (
                    if-Spares (fid == 3) _ _
                      (sbi_hart_suspend-Spares c (u32 (params 0)) (params 1) (params 2))
                      (λ m cs same. same)))))
              (if-Spares (eid == sbi_ext_srst) _ _
                (if-Spares (fid == 0) _ _
                  (sbi_system_reset-Spares c (u32 (params 0)) (u32 (params 1))) (λ m cs same. same))
                (λ m cs same. same))))))
