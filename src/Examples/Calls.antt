-- ===== src/Examples/Calls.antt =====
-- The SBI calls at concrete inputs.
use echelon_sbi.Base.{◌≡◌, refl, ◌↔◌, ◌+◌, ◌%◌, ◌≤◌, ◌<◌, minus, true, false, arith}
use echelon_sbi.Base.Bits.{bit}
use echelon_sbi.Sbi.Valid.{is_valid_hartid, is_valid_phys_mem_addr}
use echelon_sbi.Sbi.Valid.Ranges.{is_valid_phys_mem_addr_iff}
use echelon_sbi.Sbi.HartMask.{xlen, check_loop, effective_mask, effective_base}
use echelon_sbi.Sbi.HartMask.Select.{Selects, check_loop_iff}
use echelon_sbi.Sbi.HartMask.AllHarts.{Selects-all_harts_iff, IsConfig}
use echelon_sbi.Sbi.Ipi.{sbi_send_ipi}
use echelon_sbi.Sbi.RemoteFence.{
  sbi_remote_fence_i, sbi_remote_sfence_vma, sbi_remote_sfence_vma_asid,
}
use echelon_sbi.Sbi.Broadcast.{Names, AllValid, AllReady}
use echelon_sbi.Sbi.Broadcast.Calls.{
  sbi_send_ipi-Succeeds, remote_fences-Succeeds, broadcasts-Rejects, Succeeds, Rejects, ipi_command,
  fence_i_command, sfence_vma_command, sfence_vma_asid_command, raise_softint, raise_none,
}
use echelon_sbi.Sbi.Time.Deadline.{sbi_set_timer-AllFrom, SetsTimer}
use echelon_sbi.Examples.{quad, at_rest}

-- Mask 0xe at base 0: harts 1, 2 and 3.
three-pass : check_loop quad xlen 0 (effective_mask quad 0xe 0) (effective_base quad 0) ≡ true
unfolding check_loop effective_mask effective_base is_valid_hartid
three-pass = refl

three-AllValid : AllValid quad 0xe 0
three-AllValid =
    (check_loop_iff quad xlen (effective_mask quad 0xe 0) (effective_base quad 0)).0 three-pass

three-AllReady : AllReady quad 0xe 0 at_rest
three-AllReady h named other = record { unlocked = refl; taken = refl }

sbi_send_ipi-Succeeds_example :
    Succeeds quad 0xe 0 raise_softint ipi_command at_rest (sbi_send_ipi quad 0xe 0)
sbi_send_ipi-Succeeds_example =
    sbi_send_ipi-Succeeds quad 0xe 0 at_rest three-AllValid three-AllReady

remote_fences-Succeeds_example :
    Succeeds quad 0xe 0 raise_none fence_i_command at_rest (sbi_remote_fence_i quad 0xe 0)
    × Succeeds quad 0xe 0 raise_none
        (sfence_vma_command 0x1000 0x2000)
        at_rest
        (sbi_remote_sfence_vma quad 0xe 0 0x1000 0x2000)
    × Succeeds quad 0xe 0 raise_none
        (sfence_vma_asid_command 0x1000 0x2000 5)
        at_rest
        (sbi_remote_sfence_vma_asid quad 0xe 0 0x1000 0x2000 5)
remote_fences-Succeeds_example =
    remote_fences-Succeeds quad 0xe 0 at_rest three-AllValid three-AllReady 0x1000 0x2000 5

five-named : Names quad 0x32 0 5
unfolding effective_mask effective_base bit
five-named = (5, omega arith, refl, refl)

five-invalid : is_valid_hartid quad 5 ≡ false
unfolding is_valid_hartid
five-invalid = refl

broadcasts-Rejects_example :
    Rejects "SBI FAILURE: SEND_IPI\n" at_rest (sbi_send_ipi quad 0x32 0)
    × Rejects "SBI FAILURE: Remote Fence.I\n" at_rest (sbi_remote_fence_i quad 0x32 0)
    × Rejects "SBI FAILURE: Remote SFence.VMA\n" at_rest
        (sbi_remote_sfence_vma quad 0x32 0 0x1000 0x2000)
    × Rejects "SBI FAILURE: Remote SFence.VMA_ASID\n" at_rest
        (sbi_remote_sfence_vma_asid quad 0x32 0 0x1000 0x2000 5)
broadcasts-Rejects_example =
    broadcasts-Rejects quad 0x32 0 5 at_rest 0x1000 0x2000 5 five-named five-invalid

quad-IsConfig : IsConfig quad
quad-IsConfig = record { used = omega arith; masked = omega arith }

Selects-all_harts_iff_example :
    Selects xlen (effective_mask quad 0 (minus 1)) (effective_base quad (minus 1)) 2
    ↔ (is_valid_hartid quad 2 ≡ true)
Selects-all_harts_iff_example = Selects-all_harts_iff quad 0 2 quad-IsConfig

is_valid_phys_mem_addr_iff_example :
    (is_valid_phys_mem_addr quad 0x80400000 2 ≡ true)
    ↔ ((0x80400000 % 4 ≡ 0) × (0x80000000 ≤ 0x80400000) × (0x80400000 < 0x80000000 + 0x08000000))
is_valid_phys_mem_addr_iff_example = is_valid_phys_mem_addr_iff quad 0x80400000 (omega arith)

sbi_set_timer-AllFrom_example : SetsTimer at_rest 0x300000002
sbi_set_timer-AllFrom_example =
    sbi_set_timer-AllFrom at_rest 0x300000002 (omega arith) refl (omega arith) (omega arith)
