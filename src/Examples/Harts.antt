-- ===== src/Examples/Harts.antt =====
-- The hart state calls at concrete inputs.
use echelon_sbi.Base.{◌≡◌, refl, inl, inr, true, not, if◌then◌else◌, ◌∷◌, [], arith}
use echelon_sbi.Machine.{Machine, printed}
use echelon_sbi.Machine.Run.{ok, switch}
use echelon_sbi.Sbi.Codes.{
  sbiret, sbi_err_already_available, sbi_err_invalid_address, sbi_err_not_supported,
  sbi_hsm_stopped,
}
use echelon_sbi.Sbi.Valid.{is_valid_hartid, is_valid_phys_mem_addr}
use echelon_sbi.Sbi.HartMask.Deliver.{IsReady}
use echelon_sbi.Sbi.HartState.{sbi_hart_stop, sbi_hart_suspend}
use echelon_sbi.Sbi.HartState.Outcomes.{
  IsRunning, running, Refuses, sbi_hart_start-Refuses, with_hsm_state, sbi_hart_stop_lem,
  suspended_machine, sbi_hart_suspend_lem, sbi_hart_suspend-refuses,
}
use echelon_sbi.Trap.Lifecycle.{Starts, sbi_hart_start-IsStarted}
use echelon_sbi.Examples.{quad, at_rest}

two-valid : is_valid_hartid quad 2 ≡ true
unfolding is_valid_hartid
two-valid = refl

kernel-valid : is_valid_phys_mem_addr quad 0x80400000 2 ≡ true
unfolding is_valid_phys_mem_addr
kernel-valid = refl

two-IsReady : IsReady 2 at_rest
two-IsReady = record { unlocked = refl; taken = refl }

stopped : ¬ IsRunning sbi_hsm_stopped
stopped run = ground arith

sbi_hart_start-IsStarted_example : Starts quad 2 0x80400000 0x1234 at_rest
sbi_hart_start-IsStarted_example =
    sbi_hart_start-IsStarted quad 2 0x80400000 0x1234 at_rest two-valid kernel-valid
      (λ e. omega arith) refl stopped two-IsReady

-- Every hart is started.
abbrev at_work : Machine
at_work = record at_rest { sbi_hsm_states = λ h. 0 }

sbi_hart_start-Refuses_example : Refuses quad 2 0x80400000 0 at_work sbi_err_already_available
sbi_hart_start-Refuses_example =
    sbi_hart_start-Refuses quad 2 0x80400000 0 at_work sbi_err_already_available
      (running two-valid kernel-valid (λ e. omega arith) refl (inl refl))

sbi_hart_stop_lem_example :
    sbi_hart_stop at_rest
    ≡ switch 0x80010000
        (with_hsm_state (record at_rest { events = printed "SBI: HSM_STOP\n" [] ∷ [] }) 0 1)
sbi_hart_stop_lem_example = sbi_hart_stop_lem at_rest refl

sbi_hart_suspend_lem_example :
    sbi_hart_suspend quad 0 0x80400000 5 at_rest
    ≡ switch 0x80010000 (suspended_machine at_rest 0 0x80400000 5)
sbi_hart_suspend_lem_example =
    sbi_hart_suspend_lem quad 0 0x80400000 5 at_rest kernel-valid (inl refl) refl

sbi_hart_suspend-refuses_example :
    sbi_hart_suspend quad 0x10000000 0x80400000 5 at_rest
    ≡ ok
        (sbiret
          (if not (is_valid_phys_mem_addr quad 0x80400000 2)
            then sbi_err_invalid_address
            else sbi_err_not_supported)
          0)
        (record at_rest { events = printed "SBI: HSM_SUSPEND\n" [] ∷ [] })
sbi_hart_suspend-refuses_example =
    sbi_hart_suspend-refuses quad 0x10000000 0x80400000 5 at_rest (omega arith)
      (inr (λ e. omega arith, λ e. omega arith))
