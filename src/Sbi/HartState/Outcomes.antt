-- ===== src/Sbi/HartState/Outcomes.antt =====
-- What each call of hsm.c returns, branch by branch.
use echelon_sbi.Base.{
  String, ℕ, ◌≡◌, refl, ◌≢◌, ◌⊎◌, inl, inr, true, false, not, ltb, if◌then◌else◌, ◌<◌, ◌%◌, ◌^◌,
  update, ◌∷◌, [], arith,
}
use echelon_sbi.Machine.{
  Config, Machine, HartCommand, printed, context_ptr, hartcmd_starthart, reg_a0, reg_a1, reg_a2,
}
use echelon_sbi.Machine.Run.{ok, switch, ksem_wait_hsm, ksem_post_hsm}
use echelon_sbi.Sbi.Codes.{
  sbiret, sbi_success, sbi_err_not_supported, sbi_err_invalid_param, sbi_err_invalid_address,
  sbi_err_already_available, sbi_hsm_started, sbi_hsm_stopped, sbi_hsm_start_pending,
  sbi_hsm_suspended, sbi_hsm_resume_pending,
}
use echelon_sbi.Sbi.Valid.{is_valid_hartid, is_valid_phys_mem_addr}
use echelon_sbi.Sbi.HartMask.Deliver.{IsReady, after_send, send_hart_command_que_ready}
use echelon_sbi.Sbi.HartState.{
  start_hart_locked, sbi_hart_start, sbi_hart_stop, sbi_hart_get_status, suspend_default,
  suspend_error, sbi_hart_suspend,
}

-- States in which a hart cannot be started.
abbrev pub IsRunning : ℕ → Type 0
IsRunning state =
    (state ≡ sbi_hsm_started) ⊎ (state ≡ sbi_hsm_start_pending) ⊎ (state ≡ sbi_hsm_resume_pending)

abbrev pub start_command : HartCommand → (hartid start_addr opaque : ℕ) → HartCommand
start_command garbage hartid start_addr opaque = record garbage {
  command = hartcmd_starthart;
  param0 = hartid;
  param1 = start_addr;
  param2 = opaque;
}

-- `m` with hart `h` in state `s`, after its lock was taken and given back.
abbrev pub with_hsm_state : Machine → (h s : ℕ) → Machine
with_hsm_state m h s = record m {
  sbi_hsm_locks = update (update m.sbi_hsm_locks h 1) h 0;
  sbi_hsm_states = update m.sbi_hsm_states h s;
}

abbrev pub started_machine : Machine → (hartid start_addr opaque : ℕ) → Machine
started_machine m h start_addr opaque =
    after_send h (start_command m.stack_command h start_addr opaque)
      (with_hsm_state m h sbi_hsm_start_pending)

start_hart_locked_lem :
    (h start_addr opaque : ℕ) (m : Machine)
    → m.sbi_hsm_locks h ≡ 0
    → ¬ IsRunning (m.sbi_hsm_states h)
    → IsReady h m
    → start_hart_locked h start_addr opaque m
      ≡ ok (sbiret sbi_success 0) (started_machine m h start_addr opaque)
unfolding start_hart_locked ksem_wait_hsm ksem_post_hsm
start_hart_locked_lem h start_addr opaque m free stopped ready = ground (
  arith,
  send_hart_command_que_ready h (start_command m.stack_command h start_addr opaque)
      (with_hsm_state m h sbi_hsm_start_pending)
      (record { unlocked = ready.unlocked; taken = ready.taken }),
)

module _ (c : Config) (h start_addr opaque : ℕ) (m : Machine) where
  -- sbi_hart_start on a valid other hart that is in no running state, at a valid address and with its
  -- lock and mailbox free, returns success; the hart is then start-pending with its lock free, and
  -- its mailbox holds the start command with the address and the opaque value.
  pub sbi_hart_start_lem :
      is_valid_hartid c h ≡ true
      → is_valid_phys_mem_addr c start_addr 2 ≡ true
      → h ≢ m.mhartid
      → m.sbi_hsm_locks h ≡ 0
      → ¬ IsRunning (m.sbi_hsm_states h)
      → IsReady h m
      → sbi_hart_start c h start_addr opaque m
        ≡ ok (sbiret sbi_success 0) (started_machine m h start_addr opaque)
  unfolding sbi_hart_start
  sbi_hart_start_lem valid address other free stopped ready =
      ground (arith, start_hart_locked_lem h start_addr opaque m free stopped ready)

-- Why a start is refused, in the order of the tests, and the error for it.
pub data IsRefused (c : Config) (h start_addr : ℕ) (m : Machine) : (error : ℕ) → Type 0 where
  bad_hart : is_valid_hartid c h ≡ false → IsRefused c h start_addr m sbi_err_invalid_param
  bad_address :
      is_valid_hartid c h ≡ true
      → is_valid_phys_mem_addr c start_addr 2 ≡ false
      → IsRefused c h start_addr m sbi_err_invalid_address
  itself :
      is_valid_hartid c h ≡ true
      → is_valid_phys_mem_addr c start_addr 2 ≡ true
      → h ≡ m.mhartid
      → IsRefused c h start_addr m sbi_err_already_available
  running :
      is_valid_hartid c h ≡ true
      → is_valid_phys_mem_addr c start_addr 2 ≡ true
      → h ≢ m.mhartid
      → m.sbi_hsm_locks h ≡ 0
      → IsRunning (m.sbi_hsm_states h)
      → IsRefused c h start_addr m sbi_err_already_available

-- A machine in which nothing but a message was printed.
abbrev refused : String → Machine → Machine
refused message m = record m { events = printed message [] ∷ m.events }

abbrev pub Refuses : (c : Config) (h start_addr opaque : ℕ) (m : Machine) (error : ℕ) → Type 0
Refuses c h start_addr opaque m error =
    (m' : Machine) × (sbi_hart_start c h start_addr opaque m ≡ ok (sbiret error 0) m')
    × (m'.sbi_hsm_states ≡ m.sbi_hsm_states)
    × (m'.hart_commands ≡ m.hart_commands)
    × (m'.msip ≡ m.msip)
    × ((j : ℕ) → m'.sbi_hsm_locks j ≡ m.sbi_hsm_locks j)

-- sbi_hart_start refuses an invalid hart id, then an invalid address, then the caller itself, then a
-- hart that is started, start-pending or resume-pending and whose state lock is free, with the error of
-- the first that applies. No
-- state, mailbox or interrupt is changed, and every state lock is as it was.
pub sbi_hart_start-Refuses :
    (c : Config) (h start_addr opaque : ℕ) (m : Machine) (error : ℕ)
    → IsRefused c h start_addr m error
    → Refuses c h start_addr opaque m error
unfolding sbi_hart_start start_hart_locked ksem_wait_hsm ksem_post_hsm
sbi_hart_start-Refuses c h start_addr opaque m _ (bad_hart bad) =
    (refused "\tNot Started: Invalid HartID\n" m, rw bad refl, refl, refl, refl, λ j. refl)
sbi_hart_start-Refuses c h start_addr opaque m _ (bad_address valid bad) = (
  refused "\tNot Started: Invalid Memory Address\n" m,
  rw (valid, bad) refl,
  refl,
  refl,
  refl,
  λ j. refl,
)
sbi_hart_start-Refuses c h start_addr opaque m _ (itself valid address self) =
    (refused "\tNot Started: Already Available1\n" m, ground arith, refl, refl, refl, λ j. refl)
sbi_hart_start-Refuses c h start_addr opaque m _ (running valid address other free busy) = (
  record m {
    sbi_hsm_locks = update (update m.sbi_hsm_locks h 1) h 0;
    events = printed "\tNot Started: Already Available2\n" [] ∷ m.events;
  },
  ground arith,
  refl,
  refl,
  refl,
  λ j. ground arith,
)

-- sbi_hart_stop with the caller's state lock free marks the caller stopped, gives the lock back and
-- leaves for the caller's machine context; it never returns.
pub sbi_hart_stop_lem :
    (m : Machine)
    → m.sbi_hsm_locks m.mhartid ≡ 0
    → sbi_hart_stop m
      ≡ switch (context_ptr m.hart_contexts m.mhartid) (
          with_hsm_state
            (record m { events = printed "SBI: HSM_STOP\n" [] ∷ m.events })
            m.mhartid
            sbi_hsm_stopped)
unfolding sbi_hart_stop ksem_wait_hsm ksem_post_hsm
sbi_hart_stop_lem m free = rw free

-- The error of a suspend type that does not suspend: invalid where bits 28 to 30 are clear, and not
-- supported otherwise.
suspend_error_lem :
    (t : ℕ)
    → t < 2 ^ 32
    → suspend_error t
      ≡ (if ltb (t % 2 ^ 31) (2 ^ 28) then sbi_err_invalid_param else sbi_err_not_supported)
unfolding suspend_error
suspend_error_lem t fits = ground arith

-- The caller's machine context with what a suspended hart resumes from.
abbrev pub suspended_machine : Machine → (suspend_type resume_addr opaque : ℕ) → Machine
suspended_machine m t resume_addr opaque =
    let p = context_ptr m.hart_contexts m.mhartid in
    let old = m.contexts p in
    with_hsm_state
      (record m {
        events = printed "SBI: HSM_SUSPEND\n" [] ∷ m.events;
        contexts = update m.contexts p (record old {
          regs = update (update (update old.regs reg_a0 t) reg_a1 opaque) reg_a2 resume_addr;
        });
      })
      m.mhartid sbi_hsm_suspended

-- sbi_hart_suspend at a valid address with one of the two default types and the caller's state lock
-- free marks the caller suspended, stores type, opaque value and address in a0, a1 and a2 of its
-- machine context, gives the lock back, and leaves for that context.
pub sbi_hart_suspend_lem :
    (c : Config) (t resume_addr opaque : ℕ) (m : Machine)
    → is_valid_phys_mem_addr c resume_addr 2 ≡ true
    → (t ≡ 0x00000000) ⊎ (t ≡ 0x80000000)
    → m.sbi_hsm_locks m.mhartid ≡ 0
    → sbi_hart_suspend c t resume_addr opaque m
      ≡ switch (context_ptr m.hart_contexts m.mhartid) (suspended_machine m t resume_addr opaque)
unfolding sbi_hart_suspend suspend_default ksem_wait_hsm ksem_post_hsm
sbi_hart_suspend_lem c t resume_addr opaque m address kind free = ground arith

-- sbi_hart_suspend refuses an invalid address, and then any other 32-bit type: as an invalid
-- parameter where bits 28 to 30 of the type are clear, and as not supported otherwise. A refusal
-- changes nothing but a message.
pub sbi_hart_suspend-refuses :
    (c : Config) (t resume_addr opaque : ℕ) (m : Machine)
    → t < 2 ^ 32
    → (is_valid_phys_mem_addr c resume_addr 2 ≡ false) ⊎ ((t ≢ 0x00000000) × (t ≢ 0x80000000))
    → sbi_hart_suspend c t resume_addr opaque m
      ≡ ok
          (sbiret
            (if not (is_valid_phys_mem_addr c resume_addr 2)
              then sbi_err_invalid_address
              else if ltb (t % 2 ^ 31) (2 ^ 28)
              then sbi_err_invalid_param
              else sbi_err_not_supported)
            0)
          (record m { events = printed "SBI: HSM_SUSPEND\n" [] ∷ m.events })
unfolding sbi_hart_suspend
sbi_hart_suspend-refuses c t resume_addr opaque m fits (inl bad) = rw bad refl
sbi_hart_suspend-refuses c t resume_addr opaque m fits (inr (retentive, nonretentive)) =
    ground (arith, suspend_error_lem t fits)

-- sbi_hart_get_status gives the state of a valid hart, and refuses any other id.
pub sbi_hart_get_status_lem :
    (c : Config) (h : ℕ) (m : Machine)
    → let m' = record m { events = printed "SBI: HSM_STATUS\n" [] ∷ m.events } in
      sbi_hart_get_status c h m ≡ (
        if is_valid_hartid c h
        then ok (sbiret sbi_success (m.sbi_hsm_states h)) m'
        else ok (sbiret sbi_err_invalid_param 0) m')
unfolding sbi_hart_get_status
sbi_hart_get_status_lem c h m = ground arith
