-- ===== src/Sbi/Codes.antt =====
-- sbi_commands.h and the headers of sbi_commands/: the return type, error codes, extension and
-- function numbers, hart states. A `long` is its bit pattern.
use echelon_sbi.Base.{ℕ, minus}

-- `struct sbiret`
pub record SbiRet : Type 0 where
  pub error : ℕ
  pub value : ℕ

abbrev pub sbiret : (error value : ℕ) → SbiRet
sbiret e v = record { error = e; value = v }

abbrev pub sbi_success : ℕ
sbi_success = 0

abbrev pub sbi_err_failed : ℕ
sbi_err_failed = minus 1

abbrev pub sbi_err_not_supported : ℕ
sbi_err_not_supported = minus 2

abbrev pub sbi_err_invalid_param : ℕ
sbi_err_invalid_param = minus 3

abbrev pub sbi_err_invalid_address : ℕ
sbi_err_invalid_address = minus 5

abbrev pub sbi_err_already_available : ℕ
sbi_err_already_available = minus 6

abbrev pub sbi_ext_base : ℕ
sbi_ext_base = 0x00000010

abbrev pub sbi_ext_time : ℕ
sbi_ext_time = 0x54494d45

abbrev pub sbi_ext_ipi : ℕ
sbi_ext_ipi = 0x00735049

abbrev pub sbi_ext_rfnc : ℕ
sbi_ext_rfnc = 0x52464e43

abbrev pub sbi_ext_hsm : ℕ
sbi_ext_hsm = 0x0048534d

abbrev pub sbi_ext_srst : ℕ
sbi_ext_srst = 0x53525354

abbrev pub sbi_ext_pmu : ℕ
sbi_ext_pmu = 0x00504d55

abbrev pub sbi_hsm_started : ℕ
sbi_hsm_started = 0

abbrev pub sbi_hsm_stopped : ℕ
sbi_hsm_stopped = 1

abbrev pub sbi_hsm_start_pending : ℕ
sbi_hsm_start_pending = 2

abbrev pub sbi_hsm_suspended : ℕ
sbi_hsm_suspended = 4

abbrev pub sbi_hsm_resume_pending : ℕ
sbi_hsm_resume_pending = 6
