-- ===== src/Machine/Csr.antt =====
-- The CSR macros of inc/csr.h, on the CSRs of the running hart. A CSR is taken for a plain register.
use echelon_sbi.Base.{ℕ, update, bit_and, bit_or, bit_not}
use echelon_sbi.Machine.{Machine}
use echelon_sbi.Machine.Run.{Cmd, read, modify, ok}

-- The state with CSR `c` of the running hart set to `v`.
abbrev pub with_csr : Machine → (c v : ℕ) → Machine
with_csr m c v = record m { csr = update m.csr m.mhartid (update (m.csr m.mhartid) c v) }

unfoldable pub csr_read : ℕ → Cmd ℕ
csr_read c = read λ m. m.csr m.mhartid c

unfoldable pub csr_write : ℕ → ℕ → Cmd (Unit {0})
csr_write c v = modify λ m. with_csr m c v

-- `csrrs` and `csrrc` give the old value.
unfoldable pub csr_bitset : ℕ → ℕ → Cmd ℕ
csr_bitset c v m = let old = m.csr m.mhartid c in ok old (with_csr m c (bit_or old v))

unfoldable pub csr_bitclr : ℕ → ℕ → Cmd ℕ
csr_bitclr c v m = let old = m.csr m.mhartid c in ok old (with_csr m c (bit_and old (bit_not v)))

abbrev pub csr_satp : ℕ
csr_satp = 0x180

abbrev pub csr_stvec : ℕ
csr_stvec = 0x105

abbrev pub csr_stimecmp : ℕ
csr_stimecmp = 0x14d

abbrev pub csr_stimecmph : ℕ
csr_stimecmph = 0x15d

abbrev pub csr_mvendorid : ℕ
csr_mvendorid = 0xf11

abbrev pub csr_marchid : ℕ
csr_marchid = 0xf12

abbrev pub csr_mimpid : ℕ
csr_mimpid = 0xf13

abbrev pub csr_mstatus : ℕ
csr_mstatus = 0x300

abbrev pub csr_medeleg : ℕ
csr_medeleg = 0x302

abbrev pub csr_mideleg : ℕ
csr_mideleg = 0x303

abbrev pub csr_mie : ℕ
csr_mie = 0x304

abbrev pub csr_mcounteren : ℕ
csr_mcounteren = 0x306

abbrev pub csr_mip : ℕ
csr_mip = 0x344

abbrev pub csr_menvcfg : ℕ
csr_menvcfg = 0x30a

abbrev pub csr_menvcfgh : ℕ
csr_menvcfgh = 0x31a

abbrev pub csr_pmpcfg0 : ℕ
csr_pmpcfg0 = 0x3a0

abbrev pub csr_pmpaddr0 : ℕ
csr_pmpaddr0 = 0x3b0

abbrev pub csr_pmpaddr1 : ℕ
csr_pmpaddr1 = 0x3b1

abbrev pub csr_pmpaddr2 : ℕ
csr_pmpaddr2 = 0x3b2
