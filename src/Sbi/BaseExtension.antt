-- ===== src/Sbi/BaseExtension.antt =====
-- sbi_commands/base.c
use echelon_sbi.Base.{ℕ, ◌==◌, if◌then◌else◌, bit_or, ◌<<<◌, []}
use echelon_sbi.Machine.Run.{Cmd, pure, ◌>>=◌, ◌>>◌, printm}
use echelon_sbi.Machine.Csr.{csr_read, csr_mvendorid, csr_marchid, csr_mimpid}
use echelon_sbi.Sbi.Codes.{
  SbiRet, sbiret, sbi_success, sbi_ext_base, sbi_ext_time, sbi_ext_ipi, sbi_ext_rfnc, sbi_ext_hsm,
  sbi_ext_srst, sbi_ext_pmu,
}

unfoldable pub sbi_get_spec_version : Cmd SbiRet
sbi_get_spec_version = do
  printm "\tGet SBI specification version\n" []
  pure (sbiret sbi_success (bit_or (0 <<< 24) (3 <<< 0)))

unfoldable pub sbi_get_impl_id : Cmd SbiRet
sbi_get_impl_id = do printm "\tGet SBI implementation ID\n" []; pure (sbiret sbi_success 6)

unfoldable pub sbi_get_impl_version : Cmd SbiRet
sbi_get_impl_version = do
  printm "\tGet SBI implementation version\n" []
  pure (sbiret sbi_success 0)

unfoldable pub sbi_probe_extension : ℕ → Cmd SbiRet
sbi_probe_extension extension_id = do
  printm "\tProbe SBI extension\n" []
  if extension_id == sbi_ext_base
      then (do printm "\t\tSBI_EXT_BASE\n" []; pure (sbiret sbi_success 1))
      else if extension_id == sbi_ext_time
      then (do printm "\t\tSBI_EXT_TIME\n" []; pure (sbiret sbi_success 1))
      else if extension_id == sbi_ext_ipi
      then (do printm "\t\tSBI_EXT_IPI\n" []; pure (sbiret sbi_success 1))
      else if extension_id == sbi_ext_rfnc
      then (do printm "\t\tSBI_EXT_RFNC\n" []; pure (sbiret sbi_success 1))
      else if extension_id == sbi_ext_hsm
      then (do printm "\t\tSBI_EXT_HSM\n" []; pure (sbiret sbi_success 1))
      else if extension_id == sbi_ext_srst
      then (do printm "\t\tSBI_EXT_SRST\n" []; pure (sbiret sbi_success 1))
      else if extension_id == sbi_ext_pmu
      then (do printm "\t\tSBI_EXT_PMU\n" []; pure (sbiret sbi_success 0))
      else (do printm "\t\tNot Implemented\n" []; pure (sbiret sbi_success 0))

unfoldable pub sbi_get_mvendorid : Cmd SbiRet
unfolding csr_read
sbi_get_mvendorid = do
  printm "\tGet machine vendor ID\n" []
  value ← csr_read csr_mvendorid
  pure (sbiret sbi_success value)

unfoldable pub sbi_get_marchid : Cmd SbiRet
unfolding csr_read
sbi_get_marchid = do
  printm "\tGet machine architecture ID\n" []
  value ← csr_read csr_marchid
  pure (sbiret sbi_success value)

unfoldable pub sbi_get_mimpid : Cmd SbiRet
unfolding csr_read
sbi_get_mimpid = do
  printm "\tGet machine implementation ID\n" []
  value ← csr_read csr_mimpid
  pure (sbiret sbi_success value)
