-- ===== src/Sbi/Broadcast/Calls.antt =====
-- The four calls over a mask (sbi_commands/ipi.c, sbi_commands/rfnc.c).
use echelon_sbi.Base.{ℕ, ◌≡◌, refl, false, update, bit_or, ◌∷◌, [], String}
use echelon_sbi.Machine.{
  Config, Machine, HartCommand, printed, fence_i, sfence_vma, hartcmd_smode_softint,
  hartcmd_remote_fence_i, hartcmd_remote_sfence_vma, hartcmd_remote_sfence_vma_asid,
}
use echelon_sbi.Machine.Run.{Cmd, ok, ◌>>◌, pure, cpu_fencei, cpu_sfencevma}
use echelon_sbi.Machine.Csr.{csr_bitset, with_csr, csr_mip}
use echelon_sbi.Sbi.Codes.{SbiRet, sbiret, sbi_success, sbi_err_invalid_param}
use echelon_sbi.Sbi.Valid.{is_valid_hartid}
use echelon_sbi.Sbi.HartMask.Deliver.{Raise, IsLocal}
use echelon_sbi.Sbi.Ipi.{send_ipi_to, sbi_send_ipi}
use echelon_sbi.Sbi.RemoteFence.{
  remote_fence_i_on, sbi_remote_fence_i, remote_sfence_vma_on, sbi_remote_sfence_vma,
  remote_sfence_vma_asid_on, sbi_remote_sfence_vma_asid,
}
use echelon_sbi.Sbi.Broadcast.{
  Names, IsBroadcast, AllReady, AllValid, check_passes, check_fails, loop-IsBroadcast,
}

-- The commands that the calls send; the other fields are what the stack held.
abbrev pub ipi_command : HartCommand → ℕ → HartCommand
ipi_command garbage h = record garbage { command = hartcmd_smode_softint; param0 = h }

abbrev pub fence_i_command : HartCommand → ℕ → HartCommand
fence_i_command garbage h = record garbage { command = hartcmd_remote_fence_i; param0 = h }

abbrev pub sfence_vma_command : (start_addr size : ℕ) → HartCommand → ℕ → HartCommand
sfence_vma_command start_addr size garbage h = record garbage {
  command = hartcmd_remote_sfence_vma;
  param0 = h;
  param1 = start_addr;
  param2 = size;
}

abbrev pub sfence_vma_asid_command : (start_addr size asid : ℕ) → HartCommand → ℕ → HartCommand
sfence_vma_asid_command start_addr size asid garbage h = record garbage {
  command = hartcmd_remote_sfence_vma_asid;
  param0 = h;
  param1 = start_addr;
  param2 = size;
  param3 = asid;
}

-- The caller's own supervisor software interrupt becomes pending.
abbrev pub raise_softint : Raise
raise_softint self csr = update csr self (update (csr self) csr_mip (bit_or (csr self csr_mip) 0x2))

-- A fence of the caller itself changes no CSR.
abbrev pub raise_none : Raise
raise_none self csr = csr

softint-IsLocal :
    IsLocal
      (csr_bitset csr_mip 0x2 >> pure tt)
      (λ m. with_csr m csr_mip (bit_or (m.csr m.mhartid csr_mip) 0x2))
      raise_softint
unfolding csr_bitset
softint-IsLocal = record {
  returns = λ m. refl;
  self = λ m. refl;
  garbage = λ m. refl;
  commands = λ m. refl;
  msip = λ m. refl;
  locks = λ m. refl;
  csr = λ m. refl;
}

fence_i-IsLocal : IsLocal cpu_fencei (λ m. record m { events = fence_i ∷ m.events }) raise_none
fence_i-IsLocal = record {
  returns = λ m. refl;
  self = λ m. refl;
  garbage = λ m. refl;
  commands = λ m. refl;
  msip = λ m. refl;
  locks = λ m. refl;
  csr = λ m. refl;
}

sfence_vma-IsLocal :
    IsLocal cpu_sfencevma (λ m. record m { events = sfence_vma ∷ m.events }) raise_none
sfence_vma-IsLocal = record {
  returns = λ m. refl;
  self = λ m. refl;
  garbage = λ m. refl;
  commands = λ m. refl;
  msip = λ m. refl;
  locks = λ m. refl;
  csr = λ m. refl;
}

-- The run returns success, after a broadcast.
abbrev pub Succeeds :
    (c : Config) (mask base : ℕ)
    → Raise
    → (HartCommand → ℕ → HartCommand)
    → Machine
    → Cmd SbiRet
    → Type 0
Succeeds c mask base raise build m call =
    (m' : Machine) × (call m ≡ ok (sbiret sbi_success 0) m')
    × IsBroadcast c mask base raise build m m'

-- The run returns the error, and has done nothing but print a line.
abbrev pub Rejects : String → Machine → Cmd SbiRet → Type 0
Rejects message m call =
    call m
    ≡ ok (sbiret sbi_err_invalid_param 0) (record m { events = printed message [] ∷ m.events })

module _ (c : Config) (mask base : ℕ) (m : Machine) (valid : AllValid c mask base)
    (ready : AllReady c mask base m) where
  -- If every named hart is valid and the mailboxes of the named harts other than the caller are free,
  -- sbi_send_ipi returns success with the software-interrupt command in exactly those mailboxes, the
  -- other mailboxes and all locks unchanged, and the caller's own interrupt pending exactly if it is
  -- named.
  pub sbi_send_ipi-Succeeds :
      Succeeds c mask base raise_softint ipi_command m (sbi_send_ipi c mask base)
  unfolding sbi_send_ipi send_ipi_to
  sbi_send_ipi-Succeeds =
      let (m', run, b) =
        loop-IsBroadcast c mask base raise_softint ipi_command _ _ m softint-IsLocal ready in
      (m', rw (check_passes c mask base valid, run), b)

  sbi_remote_fence_i-Succeeds :
      Succeeds c mask base raise_none fence_i_command m (sbi_remote_fence_i c mask base)
  unfolding sbi_remote_fence_i remote_fence_i_on
  sbi_remote_fence_i-Succeeds =
      let (m', run, b) =
        loop-IsBroadcast c mask base raise_none fence_i_command _ _ m fence_i-IsLocal ready in
      (m', rw (check_passes c mask base valid, run), b)

  sbi_remote_sfence_vma-Succeeds :
      (start_addr size : ℕ)
      → Succeeds c mask base raise_none
          (sfence_vma_command start_addr size)
          m
          (sbi_remote_sfence_vma c mask base start_addr size)
  unfolding sbi_remote_sfence_vma remote_sfence_vma_on
  sbi_remote_sfence_vma-Succeeds start_addr size =
      let (m', run, b) =
        loop-IsBroadcast c mask base raise_none (sfence_vma_command start_addr size) _ _ m
          sfence_vma-IsLocal ready in
      (m', rw (check_passes c mask base valid, run), b)

  sbi_remote_sfence_vma_asid-Succeeds :
      (start_addr size asid : ℕ)
      → Succeeds c mask base raise_none
          (sfence_vma_asid_command start_addr size asid)
          m
          (sbi_remote_sfence_vma_asid c mask base start_addr size asid)
  unfolding sbi_remote_sfence_vma_asid remote_sfence_vma_asid_on
  sbi_remote_sfence_vma_asid-Succeeds start_addr size asid =
      let (m', run, b) =
        loop-IsBroadcast c mask base raise_none (sfence_vma_asid_command start_addr size asid) _ _ m
          sfence_vma-IsLocal ready in
      (m', rw (check_passes c mask base valid, run), b)

  -- Under the same conditions the three remote fences return success with their own commands, the
  -- arguments included, in exactly the mailboxes of the named harts other than the caller, and every
  -- other mailbox, every lock and the CSRs unchanged.
  pub remote_fences-Succeeds :
      (start_addr size asid : ℕ)
      → Succeeds c mask base raise_none fence_i_command m (sbi_remote_fence_i c mask base)
        × Succeeds c mask base raise_none
            (sfence_vma_command start_addr size)
            m
            (sbi_remote_sfence_vma c mask base start_addr size)
        × Succeeds c mask base raise_none
            (sfence_vma_asid_command start_addr size asid)
            m
            (sbi_remote_sfence_vma_asid c mask base start_addr size asid)
  remote_fences-Succeeds start_addr size asid = (
    sbi_remote_fence_i-Succeeds,
    sbi_remote_sfence_vma-Succeeds start_addr size,
    sbi_remote_sfence_vma_asid-Succeeds start_addr size asid,
  )

-- If any named hart is invalid, sbi_send_ipi and the three remote fences return
-- SBI_ERR_INVALID_PARAM and change nothing: no valid hart that the mask also names is sent anything.
pub broadcasts-Rejects :
    (c : Config) (mask base h : ℕ) (m : Machine) (start_addr size asid : ℕ)
    → Names c mask base h
    → is_valid_hartid c h ≡ false
    → Rejects "SBI FAILURE: SEND_IPI\n" m (sbi_send_ipi c mask base)
      × Rejects "SBI FAILURE: Remote Fence.I\n" m (sbi_remote_fence_i c mask base)
      × Rejects "SBI FAILURE: Remote SFence.VMA\n" m
          (sbi_remote_sfence_vma c mask base start_addr size)
      × Rejects "SBI FAILURE: Remote SFence.VMA_ASID\n" m
          (sbi_remote_sfence_vma_asid c mask base start_addr size asid)
unfolding sbi_send_ipi sbi_remote_fence_i sbi_remote_sfence_vma sbi_remote_sfence_vma_asid
broadcasts-Rejects c mask base h m start_addr size asid s bad =
    let fails = check_fails c mask base h s bad in (rw fails, rw fails, rw fails, rw fails)
