-- ===== src/Trap/Interrupt/Quiet.antt =====
-- The board's and the supervisor's CSR setup (interrupts/context_switch.c) and the state that harts share.
use echelon_sbi.Base.{not, ◌==◌, update, ◌<<<◌, []}
use echelon_sbi.Machine.{Board, custom_emu, qemu_virt}
use echelon_sbi.Machine.Run.{pure, modify, printm, ◌>>◌}
use echelon_sbi.Machine.Csr.{csr_write, csr_bitset, csr_bitclr, csr_menvcfg, csr_mcounteren}
use echelon_sbi.Machine.Ends.{IsQuiet, ends, bind, if-IsQuiet}
use echelon_sbi.Trap.Interrupt.{
  setup_pmp, probe_sstc, qemu_fixes, board_fixes, setup_supervisor_csrs,
}

pure-IsQuiet : IsQuiet (pure tt)
pure-IsQuiet m₀ m keep = ends keep

sstc-IsQuiet :
    IsQuiet
      (modify λ m. record m { hart_using_ext_sstc = update m.hart_using_ext_sstc m.mhartid 1 })
sstc-IsQuiet m₀ m keep = ends keep

setup_pmp-IsQuiet : IsQuiet setup_pmp
unfolding setup_pmp csr_write
setup_pmp-IsQuiet m₀ m keep = ends keep

probe_sstc-IsQuiet : IsQuiet probe_sstc
unfolding probe_sstc csr_bitset csr_bitclr
probe_sstc-IsQuiet m₀ m keep = if-IsQuiet _ _ _ sstc-IsQuiet pure-IsQuiet m₀ _ keep

enable_counter-IsQuiet :
    IsQuiet (do printm "\tUsing ISA Extenstion: SSTC\n" []; csr_bitset csr_mcounteren 0x2; pure tt)
unfolding csr_bitset
enable_counter-IsQuiet m₀ m keep = ends keep

enable_cache_blocks-IsQuiet : IsQuiet (do
  csr_bitset csr_menvcfg (3 <<< 4)
  csr_bitset csr_menvcfg (1 <<< 6)
  csr_bitset csr_menvcfg (1 <<< 7)
  pure tt)
unfolding csr_bitset
enable_cache_blocks-IsQuiet m₀ m keep = ends keep

qemu_fixes-IsQuiet : IsQuiet qemu_fixes
unfolding qemu_fixes
qemu_fixes-IsQuiet m₀ m keep = bind (setup_pmp-IsQuiet m₀ m keep) λ _ m₁ k₁.
    let has = not (m₁.hart_has_menvcfg m₁.mhartid == 0) in
    bind (if-IsQuiet has _ _ probe_sstc-IsQuiet pure-IsQuiet m₀ m₁ k₁) λ _ m₂ k₂.
      let using = not (m₂.hart_using_ext_sstc m₂.mhartid == 0) in
      bind (if-IsQuiet using _ _ enable_counter-IsQuiet pure-IsQuiet m₀ m₂ k₂)
        λ _ m₃ k₃. if-IsQuiet has _ _ enable_cache_blocks-IsQuiet pure-IsQuiet m₀ m₃ k₃

pub board_fixes-IsQuiet : (b : Board) → IsQuiet (board_fixes b)
unfolding board_fixes
board_fixes-IsQuiet custom_emu = pure-IsQuiet
board_fixes-IsQuiet qemu_virt = qemu_fixes-IsQuiet

pub setup_supervisor_csrs-IsQuiet : IsQuiet setup_supervisor_csrs
unfolding setup_supervisor_csrs csr_write csr_bitset csr_bitclr
setup_supervisor_csrs-IsQuiet m₀ m keep = ends keep
