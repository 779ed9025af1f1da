-- ===== src/Examples/Traps.antt =====
-- The trap handlers at concrete inputs.
use echelon_sbi.Base.{ℕ, ◌≡◌, refl, inl, inr, ◌==◌, some, if◌then◌else◌, ◌∷◌, [], arith}
use echelon_sbi.Machine.{Machine, printed}
use echelon_sbi.Machine.Run.{ok, delegate}
use echelon_sbi.Sbi.Codes.{sbiret, sbi_success, sbi_err_not_supported, sbi_ext_base, sbi_ext_hsm}
use echelon_sbi.Sbi.BaseExtension.{sbi_get_impl_id}
use echelon_sbi.Sbi.Dispatch.{call_to_sbi}
use echelon_sbi.Trap.Decode.{DecInst}
use echelon_sbi.Trap.PageTable.{walk_pts}
use echelon_sbi.Trap.PageTable.Sv32.{walk_pts_lem}
use echelon_sbi.Trap.Exception.{exception_c_handler}
use echelon_sbi.Trap.Exception.SupervisorCall.{
  Answers, requested, calling, supervisor_call-IsAnswered, unsupported_call-IsAnswered,
}
use echelon_sbi.Trap.Exception.Delegation.{
  Halts, masked, exception_c_handler-delegates, exception_c_handler-Halts,
}
use echelon_sbi.Trap.Interrupt.Receive.{Arrives, send-IsReceived}
use echelon_sbi.Examples.{quad, at_rest, blank_context, no_command}

-- Hart 0 has trapped from supervisor mode, with extension `eid` in a7 and function `fid` in a6.
abbrev calls : (eid fid : ℕ) → Machine
calls eid fid = record at_rest {
  contexts =
      λ p. record blank_context { regs = λ r. if r == 17 then eid else if r == 16 then fid else r };
}

abbrev impl_id_machine : Machine
impl_id_machine = record (calling 0x80012000 (calls sbi_ext_base 1)) {
  events = printed "\tGet SBI implementation ID\n" [] ∷ [];
}

impl_id_call :
    requested quad 0x80012000 (calls sbi_ext_base 1) ≡ ok (sbiret sbi_success 6) impl_id_machine
unfolding call_to_sbi sbi_get_impl_id
impl_id_call = refl

supervisor_call-IsAnswered_example :
    Answers quad 0x80012000 0 (calls sbi_ext_base 1) (sbiret sbi_success 6)
supervisor_call-IsAnswered_example =
    supervisor_call-IsAnswered quad 0x80012000 0 (calls sbi_ext_base 1) (sbiret sbi_success 6)
      impl_id_machine impl_id_call

unsupported_call-IsAnswered_example :
    Answers quad 0x80012000 0 (calls sbi_ext_hsm 9) (sbiret sbi_err_not_supported 0)
unsupported_call-IsAnswered_example =
    unsupported_call-IsAnswered quad 0x80012000 0 (calls sbi_ext_hsm 9) (λ lt. omega arith)

exception_c_handler-delegates_example :
    exception_c_handler quad 0x80012000 13 0xdead0000 at_rest
    ≡ delegate 0x80012000 13 0xdead0000 at_rest
exception_c_handler-delegates_example =
    exception_c_handler-delegates quad 0x80012000 13 0xdead0000 at_rest refl

exception_c_handler-Halts_example :
    Halts (masked at_rest) (exception_c_handler quad 0x80012000 5 0xdead0000 at_rest)
exception_c_handler-Halts_example =
    exception_c_handler-Halts quad 0x80012000 5 0xdead0000 at_rest refl (λ e. omega arith)

send-IsReceived_example : Arrives quad 2 (record no_command { command = 20; param0 = 2 }) at_rest
send-IsReceived_example =
    send-IsReceived quad 2 (record no_command { command = 20; param0 = 2 }) at_rest (inl (inr refl))
      (record { unlocked = refl; taken = refl })

-- A root table at page 0x80100 whose entry for 0xc0000000 is a leaf, a 4 MB page at 0x80400000.
abbrev tables : ℕ → ℕ
tables a = if a == 0x80100c00 then 0x201000cf else 0

walk_pts_lem_example : walk_pts tables 0xc0001234 0x80080100 ≡ some 0x80401234
walk_pts_lem_example =
    walk_pts_lem tables 0xc0001234 (omega arith) 0x80080100 (omega arith) (λ on leaf. refl)

abbrev no_inst : DecInst
no_inst = record { opcode = 0; funct3 = 0; funct7 = 0; rd = 0; rs1 = 0; rs2 = 0; imm = 0 }
