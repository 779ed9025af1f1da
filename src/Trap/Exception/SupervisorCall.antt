-- ===== src/Trap/Exception/SupervisorCall.antt =====
-- What a supervisor-mode `ecall` comes back with (interrupts/context_switch.c).
use mathlib.Core.Path.{subst, fun_ext}
use echelon_sbi.Base.{ℕ, ◌+◌, ◌<◌, ◌≡◌, ◌≢◌, refl, update, update_self, u32, arith}
use echelon_sbi.Machine.{Config, Machine, CpuContext, reg_pc, reg_a0, reg_a1, reg_a6, reg_a7}
use echelon_sbi.Machine.Run.{Run, ok, and_then}
use echelon_sbi.Sbi.Codes.{SbiRet, sbiret, sbi_err_not_supported}
use echelon_sbi.Sbi.Dispatch.{call_to_sbi}
use echelon_sbi.Sbi.Dispatch.Probe.{known_functions, call_to_sbi-Unsupported}
use echelon_sbi.Trap.Exception.{on_supervisor_call, exception_c_handler}
use echelon_sbi.Trap.Exception.Spares.{Leaves}
use echelon_sbi.Trap.Exception.SparedCalls.{call_to_sbi-Spares}

-- The context past the `ecall`.
abbrev pub stepped : CpuContext → CpuContext
stepped k = record k { regs = update k.regs reg_pc (u32 (k.regs reg_pc + 4)) }

-- The machine in which the call runs, and the call.
abbrev pub calling : (context : ℕ) → Machine → Machine
calling context m = record m { contexts = update m.contexts context (stepped (m.contexts context)) }

abbrev pub requested : Config → (context : ℕ) → Machine → Run SbiRet
requested c context m =
    let k = m.contexts context in
    call_to_sbi c (k.regs reg_a7) (k.regs reg_a6) (λ i. k.regs (reg_a0 + i)) (calling context m)

-- `context` has the result in a0 and a1, and the program counter after the `ecall`; nothing else of it
-- and no other context has changed.
pub record IsAnswered (context : ℕ) (r : SbiRet) (m m' : Machine) : Type 0 where
  pub error : (m'.contexts context).regs reg_a0 ≡ r.error
  pub value : (m'.contexts context).regs reg_a1 ≡ r.value
  pub pc : (m'.contexts context).regs reg_pc ≡ u32 ((m.contexts context).regs reg_pc + 4)
  pub kept :
      (i : ℕ)
      → i ≢ reg_a0
      → i ≢ reg_a1
      → i ≢ reg_pc
      → (m'.contexts context).regs i ≡ (m.contexts context).regs i
  pub mode : (m'.contexts context).execution_mode ≡ (m.contexts context).execution_mode
  pub others : (p : ℕ) → p ≢ context → m'.contexts p ≡ m.contexts p

-- The answer written into a machine whose contexts the call has spared.
answered : (context : ℕ) → SbiRet → Machine → Machine
answered context r m =
    let now = m.contexts context in
    record m {
      contexts =
          update m.contexts context
            (record now { regs = update (update now.regs reg_a1 r.value) reg_a0 r.error });
    }

arguments :
    (k : CpuContext)
    → ◌≡◌ {A = ℕ → ℕ} (λ i. (stepped k).regs (reg_a0 + i)) (λ i. k.regs (reg_a0 + i))
arguments k = fun_ext λ i. ground arith

on_supervisor_call_lem :
    (c : Config) (context : ℕ) (m : Machine)
    → on_supervisor_call c context m
      ≡ and_then (requested c context m) (λ r s. ok tt (answered context r s))
unfolding on_supervisor_call answered
on_supervisor_call_lem c context m =
    rw
      (
        update_self m.contexts context (stepped (m.contexts context)),
        arguments (m.contexts context),
      )
      refl

answered-IsAnswered :
    (context : ℕ) (r : SbiRet) (m s : Machine)
    → s.contexts ≡ (calling context m).contexts
    → IsAnswered context r m (answered context r s)
unfolding answered
answered-IsAnswered context r m s spared = record {
  error = ground arith;
  value = ground arith;
  pc = ground arith;
  kept = λ i n0 n1 npc. ground arith;
  mode = ground arith;
  others = λ p ne. ground arith;
}

abbrev pub Answers : Config → (context mtval : ℕ) → Machine → SbiRet → Type 0
Answers c context mtval m r =
    (m' : Machine) × (exception_c_handler c context 9 mtval m ≡ ok tt m')
    × IsAnswered context r m m'

-- An `ecall` from supervisor mode whose SBI call returns: the handler returns, and the trapped context
-- resumes after the `ecall` with the call's error in a0 and its value in a1, every other register and
-- every other context as before.
pub supervisor_call-IsAnswered :
    (c : Config) (context mtval : ℕ) (m : Machine) (r : SbiRet) (s : Machine)
    → requested c context m ≡ ok r s
    → Answers c context mtval m r
unfolding exception_c_handler
supervisor_call-IsAnswered c context mtval m r s run =
    let params = λ (i : ℕ). (m.contexts context).regs (reg_a0 + i) in
    let spared = subst (Leaves (calling context m).contexts) run (
      call_to_sbi-Spares c ((m.contexts context).regs reg_a7) ((m.contexts context).regs reg_a6)
        params (calling context m) _ refl) in
    (
      answered context r s,
      rw (on_supervisor_call_lem c context m, run) refl,
      answered-IsAnswered context r m s spared,
    )

-- An `ecall` for a function that the firmware does not have resumes with SBI_ERR_NOT_SUPPORTED in
-- a0 and zero in a1, every other register but the program counter as before.
pub unsupported_call-IsAnswered :
    (c : Config) (context mtval : ℕ) (m : Machine)
    → ((m.contexts context).regs reg_a6 < known_functions ((m.contexts context).regs reg_a7) → ⊥)
    → Answers c context mtval m (sbiret sbi_err_not_supported 0)
unsupported_call-IsAnswered c context mtval m unknown =
    let k = m.contexts context in
    supervisor_call-IsAnswered c context mtval m _ _ (
      call_to_sbi-Unsupported c (k.regs reg_a7) (k.regs reg_a6) (λ i. k.regs (reg_a0 + i))
        (calling context m) unknown)
