-- ===== src/Boot/StartHart.antt =====
-- The two ends of main.c that concern the harts: what kinit leaves in their mailboxes and states, and the
-- command by which kmain starts hart 0.
use mathlib.Core.Path.{subst}
use echelon_sbi.Base.{
  ℕ, zero, suc, ◌+◌, ◌≤◌, ◌<◌, ◌≡◌, ◌≢◌, ◌⊎◌, refl, ap, ◌∙◌, inl, inr, ◌==◌, Bool-cases, update,
  update_self, update_ne, arith,
}
use echelon_sbi.Machine.{Config, Machine, HartCommand, context_ptr, hartcmd_starthart}
use echelon_sbi.Machine.Run.{
  Cmd, ok, switch, pure, read, ◌>>=◌, ◌>>◌, set_command, set_hsm_state, ksem_post_command,
  ksem_post_hsm,
}
use echelon_sbi.HartCommand.{on_machine, send_hart_command_que}
use echelon_sbi.Sbi.Codes.{sbi_hsm_stopped}
use echelon_sbi.Sbi.HartMask.Deliver.{IsReady, after_send, send_hart_command_que_ready}
use echelon_sbi.Trap.Interrupt.{interrupt_c_handler}
use echelon_sbi.Trap.Interrupt.Receive.{on_hart}
use echelon_sbi.Trap.Interrupt.Start.{IsStarted}
use echelon_sbi.Trap.Lifecycle.{on_hart_command-start}
use echelon_sbi.Boot.{Layout}

abbrev pub blank_command : HartCommand
blank_command = record {
  command = 0;
  param0 = 0;
  param1 = 0;
  param2 = 0;
  param3 = 0;
  param4 = 0;
  param5 = 0;
}

-- One round of the first loop of kinit: `ksem_init` stores a zero, as `ksem_post` does.
unfoldable pub init_hart : ℕ → Cmd (Unit {0})
init_hart i = do
  set_command i blank_command
  ksem_post_command i
  ksem_post_hsm i
  set_hsm_state i sbi_hsm_stopped

-- The rounds from `i` on, of which `left` are left.
unfoldable pub init_harts_loop : (left i : ℕ) → Cmd (Unit {0})
init_harts_loop zero i = pure tt
init_harts_loop (suc left) i = do init_hart i; init_harts_loop left (suc i)

unfoldable pub init_harts : Config → Cmd (Unit {0})
init_harts c = init_harts_loop c.total_hart_count 0

-- The command that kmain sends at its end; its other parameters are what the stack held.
unfoldable pub start_first_hart : Layout → Cmd (Unit {0})
start_first_hart layout = do
  garbage ← read λ m. m.stack_command
  send_hart_command_que on_machine 0 (record garbage {
    command = hartcmd_starthart;
    param0 = 0;
    param1 = layout.kernel_load_to_point;
    param2 = layout.dtb_load_to_point;
  })

-- A hart after kinit.
pub record IsInitial (h : ℕ) (m : Machine) : Type 0 where
  pub mailbox : m.hart_commands h ≡ blank_command
  pub unlocked : m.hart_command_que_locks h ≡ 0
  pub state_unlocked : m.sbi_hsm_locks h ≡ 0
  pub stopped : m.sbi_hsm_states h ≡ sbi_hsm_stopped

pub record SameHart (h : ℕ) (m m' : Machine) : Type 0 where
  pub mailbox : m'.hart_commands h ≡ m.hart_commands h
  pub lock : m'.hart_command_que_locks h ≡ m.hart_command_que_locks h
  pub state_lock : m'.sbi_hsm_locks h ≡ m.sbi_hsm_locks h
  pub state : m'.sbi_hsm_states h ≡ m.sbi_hsm_states h

-- The loop from `i` on initialises those harts and no other.
abbrev pub Inits : (left i : ℕ) (m : Machine) → Type 0
Inits left i m =
    (m' : Machine) × (init_harts_loop left i m ≡ ok tt m')
    × ((h : ℕ) → i ≤ h → h < i + left → IsInitial h m')
    × ((h : ℕ) → (h < i) ⊎ (i + left ≤ h) → SameHart h m m')
    × (m'.msip ≡ m.msip)

abbrev after_init : (i : ℕ) → Machine → Machine
after_init i m = record m {
  hart_commands = update m.hart_commands i blank_command;
  hart_command_que_locks = update m.hart_command_que_locks i 0;
  sbi_hsm_locks = update m.sbi_hsm_locks i 0;
  sbi_hsm_states = update m.sbi_hsm_states i sbi_hsm_stopped;
}

init_harts_loop-Inits : (left i : ℕ) (m : Machine) → Inits left i m
unfolding init_harts_loop init_hart ksem_post_command ksem_post_hsm
init_harts_loop-Inits zero i m = (
  m,
  refl,
  (λ h low high. absurd (omega arith)),
  (λ h out. record { mailbox = refl; lock = refl; state_lock = refl; state = refl }),
  refl,
)
init_harts_loop-Inits (suc left) i m =
    let (m', run, initial, same, quiet) = init_harts_loop-Inits left (suc i) (after_init i m) in
    (
      m',
      run,
      (λ h low high. elim (Bool-cases (h == i)) [
        | inl this ↦
            let e : h ≡ i = ground arith in
            let kept = same h (inl (omega arith)) in
            record {
              mailbox =
                  kept.mailbox
                  ∙ ap (update m.hart_commands i blank_command) e
                  ∙ update_self m.hart_commands i blank_command;
              unlocked = kept.lock ∙ ground arith;
              state_unlocked = kept.state_lock ∙ ground arith;
              stopped = kept.state ∙ ground arith;
            }
        | inr other ↦ let above : i < h = ground arith in initial h (omega arith) (omega arith)
      ]),
      (λ h out.
          let ne : h ≢ i = λ e. elim out [ inl low ↦ omega arith | inr high ↦ omega arith ] in
          let kept =
            same h (elim out [ inl low ↦ inl (omega arith) | inr high ↦ inr (omega arith) ]) in
          record {
            mailbox = kept.mailbox ∙ update_ne m.hart_commands i blank_command h ne;
            lock = kept.lock ∙ update_ne m.hart_command_que_locks i 0 h ne;
            state_lock = kept.state_lock ∙ update_ne m.sbi_hsm_locks i 0 h ne;
            state = kept.state ∙ update_ne m.sbi_hsm_states i sbi_hsm_stopped h ne;
          }),
      quiet,
    )

-- The first loop of kinit ends, and leaves every hart of the configuration with an empty mailbox, free
-- locks and in the state STOPPED; it changes the mailbox, the locks and the state of no other hart.
pub init_harts-Inits : (c : Config) (m : Machine) → Inits c.total_hart_count 0 m
init_harts-Inits c m = init_harts_loop-Inits c.total_hart_count 0 m

-- The command for hart 0.
abbrev pub first_command : Layout → (garbage : HartCommand) → HartCommand
first_command layout garbage = record garbage {
  command = hartcmd_starthart;
  param0 = 0;
  param1 = layout.kernel_load_to_point;
  param2 = layout.dtb_load_to_point;
}

abbrev pub FirstHartStarts : Config → Layout → Machine → Type 0
FirstHartStarts c layout m =
    (m₁ : Machine) × (start_first_hart layout m ≡ ok tt m₁)
    × (m₂ : Machine) × (interrupt_c_handler c 3 (on_hart 0 m₁)
        ≡ switch (context_ptr m.hart_contexts_user 0) m₂)
    × IsStarted 0 (first_command layout m.stack_command) (on_hart 0 m₁) m₂

-- From a machine on which hart 0 is as kinit leaves it, and has no interrupt pending, kmain's command
-- starts it.
pub start_first_hart-Starts :
    (c : Config) (layout : Layout) (m : Machine)
    → IsReady 0 m
    → m.sbi_hsm_locks 0 ≡ 0
    → FirstHartStarts c layout m
unfolding start_first_hart
start_first_hart-Starts c layout m ready free =
    let k = first_command layout m.stack_command in
    let m₁ = after_send 0 k m in
    let (m₂, run, done) =
      on_hart_command-start c (on_hart 0 m₁)
        (ap (λ (x : HartCommand). x.command) (update_self m.hart_commands 0 k)) free in
    (
      m₁,
      send_hart_command_que_ready 0 k m ready,
      m₂,
      run,
      subst (λ x. IsStarted 0 x (on_hart 0 m₁) m₂) (update_self m.hart_commands 0 k) done,
    )
