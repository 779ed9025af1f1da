-- ===== src/Sbi/Time.antt =====
-- sbi_commands/time.c for rv32: the 64-bit deadline goes out as two words, the high one set to its
-- maximum first, so that no deadline in between is early.
pub mod Deadline
use echelon_sbi.Base.{ℕ, ◌+◌, ◌*◌, ◌/◌, ◌^◌, ◌==◌, if◌then◌else◌, u32, minus, update}
use echelon_sbi.Machine.{Machine, clint_base, clint_mtimecmps}
use echelon_sbi.Machine.Run.{Cmd, pure, read, modify, ◌>>=◌, ◌>>◌, store32}
use echelon_sbi.Machine.Csr.{
  csr_write, csr_bitset, csr_bitclr, csr_stimecmp, csr_stimecmph, csr_mie, csr_mip,
}
use echelon_sbi.Sbi.Codes.{SbiRet, sbiret, sbi_success}

-- `mtimecmp[mhartid * 2] = v` and `mtimecmphi[mhartid * 2] = v`
unfoldable pub set_mtimecmp : (hart v : ℕ) → Cmd (Unit {0})
set_mtimecmp h v = do
  store32 (clint_base + clint_mtimecmps + 4 * (h * 2)) v
  modify λ m. record m { mtimecmp = update m.mtimecmp h v }

unfoldable pub set_mtimecmphi : (hart v : ℕ) → Cmd (Unit {0})
set_mtimecmphi h v = do
  store32 (clint_base + clint_mtimecmps + 4 + 4 * (h * 2)) v
  modify λ m. record m { mtimecmphi = update m.mtimecmphi h v }

set_stimecmp : (xtime xtimeh : ℕ) → Cmd (Unit {0})
unfolding csr_write
set_stimecmp xtime xtimeh = do
  csr_write csr_stimecmph (minus 1)
  csr_write csr_stimecmp xtime
  csr_write csr_stimecmph xtimeh

set_clint_timer : (xtime xtimeh : ℕ) → Cmd (Unit {0})
unfolding csr_bitclr csr_bitset set_mtimecmp set_mtimecmphi
set_clint_timer xtime xtimeh = do
  csr_bitclr csr_mie 0x80
  csr_bitclr csr_mip 0x20
  h ← read λ m. m.mhartid
  set_mtimecmphi h (minus 1)
  set_mtimecmp h xtime
  set_mtimecmphi h xtimeh
  csr_bitset csr_mie 0x80
  pure tt

unfoldable pub sbi_set_timer : ℕ → Cmd SbiRet
unfolding set_stimecmp set_clint_timer
sbi_set_timer stime_value = do
  let xtimeh = u32 (stime_value / 2 ^ 32)
  let xtime = u32 stime_value
  sstc ← read λ m. m.hart_using_ext_sstc m.mhartid
  if sstc == 0 then set_clint_timer xtime xtimeh else set_stimecmp xtime xtimeh
  pure (sbiret sbi_success 0)
