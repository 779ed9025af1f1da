-- ===== src/Sbi/Dispatch.antt =====
-- `call_to_sbi` of sbi_commands.c. `params` are the registers a0 to a5.
pub mod Probe
use echelon_sbi.Base.{ℕ, ◌*◌, ◌%◌, ◌^◌, ◌==◌, if◌then◌else◌, u32, bit_or, ◌∷◌, []}
use echelon_sbi.Machine.{Config}
use echelon_sbi.Machine.Run.{Cmd, pure, ◌>>=◌, ◌>>◌, printm}
use echelon_sbi.Sbi.Codes.{
  SbiRet, sbiret, sbi_err_not_supported, sbi_ext_base, sbi_ext_time, sbi_ext_ipi, sbi_ext_rfnc,
  sbi_ext_hsm, sbi_ext_srst,
}
use echelon_sbi.Sbi.BaseExtension.{
  sbi_get_spec_version, sbi_get_impl_id, sbi_get_impl_version, sbi_probe_extension,
  sbi_get_mvendorid, sbi_get_marchid, sbi_get_mimpid,
}
use echelon_sbi.Sbi.Time.{sbi_set_timer}
use echelon_sbi.Sbi.Ipi.{sbi_send_ipi}
use echelon_sbi.Sbi.RemoteFence.{
  sbi_remote_fence_i, sbi_remote_sfence_vma, sbi_remote_sfence_vma_asid,
  sbi_remote_hfence_gvma_vmid, sbi_remote_hfence_gvma, sbi_remote_hfence_vvma_asid,
  sbi_remote_hfence_vvma,
}
use echelon_sbi.Sbi.HartState.{sbi_hart_start, sbi_hart_stop, sbi_hart_get_status, sbi_hart_suspend}
use echelon_sbi.Sbi.SystemReset.{sbi_system_reset}

-- No branch took the call.
unfoldable pub unsupported : (eid fid : ℕ) → Cmd SbiRet
unsupported eid fid = do
  printm "ESBI Error.  Unsupported SBI Request.  EID: 0x%08lX, FID: 0x%08lX\n" (eid ∷ fid ∷ [])
  pure (sbiret sbi_err_not_supported 0)

-- `(uint32_t)params[1] << 32 | (uint32_t)params[0]` in 64 bits.
unfoldable pub timer_param : (lo hi : ℕ) → ℕ
timer_param lo hi = bit_or ((u32 hi * 2 ^ 32) % 2 ^ 64) (u32 lo)

unfoldable pub call_to_sbi : Config → (eid fid : ℕ) → (params : ℕ → ℕ) → Cmd SbiRet
unfolding unsupported timer_param
call_to_sbi c eid fid params =
    if eid == sbi_ext_base
    then if fid == 0
      then sbi_get_spec_version
      else if fid == 1
      then sbi_get_impl_id
      else if fid == 2
      then sbi_get_impl_version
      else if fid == 3
      then sbi_probe_extension (params 0)
      else if fid == 4
      then sbi_get_mvendorid
      else if fid == 5
      then sbi_get_marchid
      else if fid == 6
      then sbi_get_mimpid
      else unsupported eid fid
    else if eid == sbi_ext_time
    then if fid == 0 then sbi_set_timer (timer_param (params 0) (params 1)) else unsupported eid fid
    else if eid == sbi_ext_ipi
    then if fid == 0 then sbi_send_ipi c (params 0) (params 1) else unsupported eid fid
    else if eid == sbi_ext_rfnc
    then if fid == 0
      then sbi_remote_fence_i c (params 0) (params 1)
      else if fid == 1
      then sbi_remote_sfence_vma c (params 0) (params 1) (params 2) (params 3)
      else if fid == 2
      then sbi_remote_sfence_vma_asid c (params 0) (params 1) (params 2) (params 3) (params 4)
      else if fid == 3
      then sbi_remote_hfence_gvma_vmid
      else if fid == 4
      then sbi_remote_hfence_gvma
      else if fid == 5
      then sbi_remote_hfence_vvma_asid
      else if fid == 6
      then sbi_remote_hfence_vvma
      else unsupported eid fid
    else if eid == sbi_ext_hsm
    then if fid == 0
      then sbi_hart_start c (params 0) (params 1) (params 2)
      else if fid == 1
      then sbi_hart_stop
      else if fid == 2
      then sbi_hart_get_status c (params 0)
      else if fid == 3
      then sbi_hart_suspend c (u32 (params 0)) (params 1) (params 2)
      else unsupported eid fid
    else if eid == sbi_ext_srst
    then if fid == 0
      then sbi_system_reset c (u32 (params 0)) (u32 (params 1))
      else unsupported eid fid
    else unsupported eid fid
