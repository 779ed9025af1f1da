-- ===== src/Sbi/SystemReset.antt =====
-- sbi_commands/srst.c: the store to the power device of each board.
use echelon_sbi.Base.{ℕ, ◌==◌, if◌then◌else◌, not, bit_or, ◌<<<◌, []}
use echelon_sbi.Machine.{Config, Board, custom_emu, qemu_virt}
use echelon_sbi.Machine.Run.{Cmd, pure, ◌>>◌, printm, store32}
use echelon_sbi.Sbi.Codes.{SbiRet, sbiret, sbi_err_failed, sbi_err_invalid_param}

abbrev pub power_device : ℕ
power_device = 0x100000

unfoldable pub shutdown_word : Board → ℕ
shutdown_word custom_emu = 0x2
shutdown_word qemu_virt = bit_or (0 <<< 16) (0x5555 <<< 0)

unfoldable pub reset_word : Board → ℕ
reset_word custom_emu = 0x1
reset_word qemu_virt = bit_or (0 <<< 16) (0x7777 <<< 0)

-- A store that returns has not reset the system: `SBI_ERR_FAILED`.
unfoldable pub sbi_system_reset : Config → (reset_type reset_reason : ℕ) → Cmd SbiRet
unfolding shutdown_word reset_word
sbi_system_reset c reset_type reset_reason =
    if not (reset_reason == 0)
    then pure (sbiret sbi_err_invalid_param 0)
    else if reset_type == 0
    then (do
      printm "ESBI: SRST: Shutdown\n" []
      store32 power_device (shutdown_word c.board)
      pure (sbiret sbi_err_failed 0))
    else if reset_type == 1
    then (do
      printm "ESBI: SRST: Cold Reboot\n" []
      store32 power_device (reset_word c.board)
      pure (sbiret sbi_err_failed 0))
    else if reset_type == 2
    then (do
      printm "ESBI: SRST: Warm Reboot\n" []
      store32 power_device (reset_word c.board)
      pure (sbiret sbi_err_failed 0))
    else pure (sbiret sbi_err_invalid_param 0)
