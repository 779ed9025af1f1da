-- ===== src/Sbi/Dispatch/Probe.antt =====
-- `call_to_sbi` against `sbi_probe_extension`, and the effects of the small extensions.
use echelon_sbi.Base.{
  ℕ, ◌≡◌, ◌≢◌, ◌⊎◌, ◌<◌, inl, inr, ◌==◌, if◌then◌else◌, Option, none, some, ltb, leb, String, ◌∷◌,
  [], arith,
}
use echelon_sbi.Machine.{Config, Machine, Board, custom_emu, qemu_virt, Event, printed, stored}
use echelon_sbi.Machine.Run.{Run, ok}
use echelon_sbi.Sbi.Codes.{
  SbiRet, sbiret, sbi_success, sbi_err_not_supported, sbi_err_failed, sbi_err_invalid_param,
  sbi_ext_base, sbi_ext_time, sbi_ext_ipi, sbi_ext_rfnc, sbi_ext_hsm, sbi_ext_srst,
}
use echelon_sbi.Sbi.BaseExtension.{sbi_probe_extension}
use echelon_sbi.Sbi.SystemReset.{sbi_system_reset, power_device}
use echelon_sbi.Sbi.Dispatch.{call_to_sbi, unsupported}

abbrev reset_message : ℕ → String
reset_message t =
    if t == 0
    then "ESBI: SRST: Shutdown\n"
    else if t == 1
    then "ESBI: SRST: Cold Reboot\n"
    else "ESBI: SRST: Warm Reboot\n"

abbrev pub unsupported_line : (eid fid : ℕ) → Event
unsupported_line eid fid =
    printed "ESBI Error.  Unsupported SBI Request.  EID: 0x%08lX, FID: 0x%08lX\n" (eid ∷ fid ∷ [])

abbrev pub Unsupported : Config → (eid fid : ℕ) → (ℕ → ℕ) → Machine → Type 0
Unsupported c eid fid params m =
    call_to_sbi c eid fid params m
    ≡ ok (sbiret sbi_err_not_supported 0)
        (record m { events = unsupported_line eid fid ∷ m.events })

-- How many functions of an extension `call_to_sbi` knows.
abbrev pub known_functions : ℕ → ℕ
known_functions eid =
    if eid == sbi_ext_base
    then 7
    else if eid == sbi_ext_time
    then 1
    else if eid == sbi_ext_ipi
    then 1
    else if eid == sbi_ext_rfnc
    then 7
    else if eid == sbi_ext_hsm
    then 4
    else if eid == sbi_ext_srst
    then 1
    else 0

-- A call whose function number is not below the number of functions of its extension (none for an
-- unknown extension) returns SBI_ERR_NOT_SUPPORTED and does nothing but print the request.
pub call_to_sbi-Unsupported :
    (c : Config) (eid fid : ℕ) (params : ℕ → ℕ) (m : Machine)
    → (fid < known_functions eid → ⊥)
    → Unsupported c eid fid params m
unfolding call_to_sbi unsupported
call_to_sbi-Unsupported c eid fid params m unknown = ground arith

-- What a run returned, if it did.
abbrev pub reply : Run SbiRet → Option SbiRet
reply (ok r m) = some r
reply _ = none

-- sbi_probe_extension returns success for every id, with the value 1 if `call_to_sbi` knows a
-- function of that extension and the value 0 otherwise.
pub sbi_probe_extension-known :
    (eid : ℕ) (m : Machine)
    → reply (sbi_probe_extension eid m)
      ≡ some (sbiret sbi_success (if ltb 0 (known_functions eid) then 1 else 0))
unfolding sbi_probe_extension
sbi_probe_extension-known eid m = ground arith

-- What each board's power device takes for a reset type.
abbrev pub power_word : Board → (reset_type : ℕ) → Option ℕ
power_word custom_emu t = if t == 0 then some 0x2 else if leb t 2 then some 0x1 else none
power_word qemu_virt t = if t == 0 then some 0x5555 else if leb t 2 then some 0x7777 else none

abbrev pub Stores : Config → (reset_type word : ℕ) → Machine → Type 0
Stores c reset_type word m =
    (message : String) × (sbi_system_reset c reset_type 0 m
      ≡ ok (sbiret sbi_err_failed 0)
          (record m { events = stored power_device word ∷ printed message [] ∷ m.events }))

-- sbi_system_reset for reason 0 and one of the types 0, 1 and 2 prints a line and then stores the
-- board's shutdown word (type 0) or reset word to the power device; it returns SBI_ERR_FAILED, the
-- device having let it return.
pub sbi_system_reset-Stores :
    (c : Config) (reset_type word : ℕ) (m : Machine)
    → power_word c.board reset_type ≡ some word
    → Stores c reset_type word m
unfolding sbi_system_reset
sbi_system_reset-Stores c reset_type word m e = (reset_message reset_type, ground arith)

-- sbi_system_reset with another reason or type is refused, without a store or a message.
pub sbi_system_reset-refuses :
    (c : Config) (reset_type reset_reason : ℕ) (m : Machine)
    → (reset_reason ≢ 0) ⊎ (2 < reset_type)
    → sbi_system_reset c reset_type reset_reason m ≡ ok (sbiret sbi_err_invalid_param 0) m
unfolding sbi_system_reset
sbi_system_reset-refuses c reset_type reset_reason m (inl reason) = ground arith
sbi_system_reset-refuses c reset_type reset_reason m (inr kind) = ground arith
