-- ===== src/Trap/Interrupt/Start.antt =====
-- The receiver of a start command.
use mathlib.Core.Path.{subst, ap, ◌∙◌}
use echelon_sbi.Base.{
  ℕ, zero, suc, ◌+◌, ◌<◌, ◌≡◌, ◌≢◌, refl, ◌&&◌, ltb, leb, if◌then◌else◌, update, arith,
}
use echelon_sbi.Machine.{
  Config, Machine, CpuContext, HartCommand, context_ptr, em_s, reg_pc, reg_a0, reg_a1,
}
use echelon_sbi.Machine.Run.{
  switch, read, set_hsm_state, switch_context, ◌>>=◌, ◌>>◌, ksem_wait_hsm, ksem_post_hsm,
}
use echelon_sbi.Machine.Ends.{Keeps, Switches, switches, Switches-run, bind_switch}
use echelon_sbi.HartCommand.{on_machine}
use echelon_sbi.Sbi.Codes.{sbi_hsm_started}
use echelon_sbi.Trap.Context.{clear_regs_loop, cleared_context, clear_hart_context}
use echelon_sbi.Trap.Interrupt.{release_mailbox, setup_user_context, on_starthart}
use echelon_sbi.Trap.Interrupt.Quiet.{board_fixes-IsQuiet, setup_supervisor_csrs-IsQuiet}

pub clear_regs_loop_lem :
    (n j : ℕ) (regs : ℕ → ℕ) (r : ℕ)
    → clear_regs_loop n j regs r ≡ (if leb j r && ltb r (j + n) then 0 else regs r)
unfolding clear_regs_loop
clear_regs_loop_lem zero j regs r = ground arith
clear_regs_loop_lem (suc n) j regs r =
    ground (arith, clear_regs_loop_lem n (j + 1) (update regs j 0) r)

-- The user context of a started hart: supervisor mode, the address of the command in the program
-- counter, the hart's id in a0, the opaque value in a1, and zero in every other register.
pub record IsStartContext (h : ℕ) (command : HartCommand) (c : CpuContext) : Type 0 where
  pub context_id : c.context_id ≡ h
  pub mode : c.execution_mode ≡ em_s
  pub pc : c.regs reg_pc ≡ command.param1
  pub a0 : c.regs reg_a0 ≡ h
  pub a1 : c.regs reg_a1 ≡ command.param2
  pub rest : (r : ℕ) → r < 32 → r ≢ reg_pc → r ≢ reg_a0 → r ≢ reg_a1 → c.regs r ≡ 0

-- Hart `h` has taken its command: it is started, its mailbox is free, and nobody else is touched.
pub record IsStarted (h : ℕ) (command : HartCommand) (m m' : Machine) : Type 0 where
  pub state : m'.sbi_hsm_states h ≡ sbi_hsm_started
  pub lock : m'.sbi_hsm_locks h ≡ 0
  pub free : (m'.msip h ≡ 0) × ((m'.hart_commands h).command ≡ 0)
  pub context : IsStartContext h command (m'.contexts (context_ptr m.hart_contexts_user h))
  pub others :
      (j : ℕ)
      → j ≢ h
      → (m'.sbi_hsm_states j ≡ m.sbi_hsm_states j)
        × (m'.msip j ≡ m.msip j)
        × (m'.hart_commands j ≡ m.hart_commands j)

-- From the user context on.
abbrev start_end : (h : ℕ) → HartCommand → Machine → Machine
start_end h command m =
    let p = context_ptr m.hart_contexts_user h in
    let cleared = update m.contexts p (cleared_context (m.contexts p)) in
    record m {
      contexts = update cleared p (record {
        context_id = h;
        execution_mode = em_s;
        reserved_0 = (cleared p).reserved_0;
        regs =
            update (update (update (cleared p).regs reg_pc command.param1) reg_a0 h) reg_a1
              command.param2;
      });
      sbi_hsm_locks = update (update m.sbi_hsm_locks h 1) h 0;
      sbi_hsm_states = update m.sbi_hsm_states h sbi_hsm_started;
      hart_commands = update m.hart_commands h (record (m.hart_commands h) { command = 0 });
      msip = update m.msip h 0;
    }

start_tail :
    (command : HartCommand) (m : Machine)
    → m.sbi_hsm_locks m.mhartid ≡ 0
    → (do
      setup_user_context command
      ksem_wait_hsm m.mhartid
      set_hsm_state m.mhartid sbi_hsm_started
      ksem_post_hsm m.mhartid
      release_mailbox on_machine
      p ← read λ m. context_ptr m.hart_contexts_user m.mhartid
      switch_context {A = Unit {0}} p)
        m
      ≡ switch (context_ptr m.hart_contexts_user m.mhartid) (start_end m.mhartid command m)
unfolding setup_user_context clear_hart_context release_mailbox ksem_wait_hsm ksem_post_hsm
start_tail command m free = rw free

start_end_context :
    (h : ℕ) (command : HartCommand) (m : Machine)
    → IsStartContext h command
        ((start_end h command m).contexts (context_ptr m.hart_contexts_user h))
unfolding cleared_context
start_end_context h command m =
    let p = context_ptr m.hart_contexts_user h in
    record {
      context_id = ground arith;
      mode = ground arith;
      pc = ground arith;
      a0 = ground arith;
      a1 = ground arith;
      rest = λ r lt npc na0 na1. ground (arith, clear_regs_loop_lem 32 0 (m.contexts p).regs r);
    }

start_end-IsStarted :
    (command : HartCommand) (m₀ m : Machine)
    → Keeps m₀ m
    → IsStarted m₀.mhartid command m₀ (start_end m₀.mhartid command m)
start_end-IsStarted command m₀ m keep = record {
  state = ground arith;
  lock = ground arith;
  free = (ground arith, ground arith);
  context =
      subst
        (λ q.
          IsStartContext m₀.mhartid command
            ((start_end m₀.mhartid command m).contexts (context_ptr q m₀.mhartid)))
        keep.8 (start_end_context m₀.mhartid command m);
  others = λ j ne. (ground arith, ground arith, ground arith);
}

abbrev pub AtStart : HartCommand → Machine → ℕ → Machine → Type 0
AtStart command m context m' =
    (context ≡ context_ptr m.hart_contexts_user m.mhartid) × IsStarted m.mhartid command m m'

-- The two CSR setups keep what the harts share, and the rest is `start_tail`.
on_starthart-Switches :
    (c : Config) (command : HartCommand) (m : Machine)
    → m.sbi_hsm_locks m.mhartid ≡ 0
    → Switches (AtStart command m) (on_starthart c command m)
unfolding on_starthart
on_starthart-Switches c command m free =
    bind_switch
      (board_fixes-IsQuiet c.board m _ (refl, refl, refl, refl, refl, refl, refl, refl, refl))
      λ _ m₁ k₁. bind_switch (setup_supervisor_csrs-IsQuiet m m₁ k₁) λ _ m₂ k₂.
        rw (← k₂.0, start_tail command m₂ (ground arith))
          (switches (
            ground arith,
            start_end-IsStarted command (record m { mhartid = m₂.mhartid }) m₂
                (refl, k₂.1, k₂.2, k₂.3, k₂.4, k₂.5, k₂.6, k₂.7, k₂.8),
          ))

-- The start of a hart, as an equation.
pub on_starthart-IsStarted :
    (c : Config) (command : HartCommand) (m : Machine)
    → m.sbi_hsm_locks m.mhartid ≡ 0
    → (m' : Machine) × (on_starthart c command m
        ≡ switch (context_ptr m.hart_contexts_user m.mhartid) m')
      × IsStarted m.mhartid command m m'
on_starthart-IsStarted c command m free =
    let (_, m', run, (at, done)) = Switches-run (on_starthart-Switches c command m free) in
    (m', run ∙ ap (λ (p : ℕ). switch p m') at, done)
