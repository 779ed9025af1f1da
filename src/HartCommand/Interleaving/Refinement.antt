-- ===== src/HartCommand/Interleaving/Refinement.antt =====
-- The code of the senders and of the receiver (interrupts/context_switch.c) in any interleaving is a run
-- of the steps.
use mathlib.Core.Path.{subst}
use echelon_sbi.Base.{ℕ, ◌≡◌, refl, sym, ap, ◌∙◌, ◌==◌, Bool-cases, inl, inr, update, List, [], ◌∷◌}
use echelon_sbi.Machine.{HartCommand}
use echelon_sbi.HartCommand.{send_hart_command_que}
use echelon_sbi.HartCommand.Interleaving.{
  CanRelease, SenderAt, out, locking, waiting, writing, raising, unlocking, running, handling,
  clearing, Mailbox, Step, begin, lock, find_clear, write, raise, unlock, enter, clear_command,
  clear_msip, use_state, Steps, stop, then_step, IsInitial,
}
use echelon_sbi.HartCommand.Interleaving.Delivery.{
  IsSound, initial-IsSound, Steps-IsSound, IsDelivered, Steps-IsDelivered,
}
use echelon_sbi.Trap.Interrupt.{release_mailbox}
use echelon_sbi.HartCommand.Interleaving.Code.{
  Access, Running, Goes, call, takes, finds_zero, stores, interrupts, gives, traps, resets,
  resets_interrupt, uses_state, GoesOn, done, then_goes,
}
use echelon_sbi.HartCommand.Interleaving.Places.{
  left_of, Matches, at_take, at_find, at_store, at_interrupt, at_give, at_call, at_trap, at_reset,
  at_reset_interrupt,
}

module _ (h : ℕ) where
  -- A sender goes to another place.
  goes_to :
      (c : Running) (s : Mailbox) (i : ℕ) (rest : List Access) (a : SenderAt)
      → Matches h c s
      → left_of h a ≡ rest
      → (j : ℕ) → update c.sender i rest j ≡ left_of h (update s.sender i a j)
  goes_to c s i rest a m left j = elim (Bool-cases (j == i)) [
    | inl this ↦ rw this (sym left)
    | inr other ↦ rw other (m.senders j)
  ]

  -- What the code does next is a step.
  abbrev IsStep : Mailbox → Running → Type 0
  IsStep s d = (t : Mailbox) × Step s t × Matches h d t

  Goes-IsStep :
      {c d : Running} → Goes h c d → (s : Mailbox) → Matches h c s → IsSound s → IsStep s d
  unfolding send_hart_command_que release_mailbox
  Goes-IsStep (call {c} i self k idle) s m v =
      let at = at_call h (s.sender i) (sym (m.senders i) ∙ idle) in
      (
        record s { sender = update s.sender i (locking k) },
        begin i k at,
        record {
          lock_word = m.lock_word;
          pending = m.pending;
          command = m.command;
          state = m.state;
          senders = goes_to c s i _ (locking k) m refl;
          receives = m.receives;
          log = m.log;
        },
      )
  Goes-IsStep (takes {c} i rest next free) s m v =
      let (k, at, left) = at_take h (s.sender i) rest (sym (m.senders i) ∙ next) in
      (
        record s { lock = 1; sender = update s.sender i (waiting k) },
        lock i k at (sym m.lock_word ∙ free),
        record {
          lock_word = refl;
          pending = m.pending;
          command = m.command;
          state = m.state;
          senders = goes_to c s i rest (waiting k) m left;
          receives = m.receives;
          log = m.log;
        },
      )
  Goes-IsStep (finds_zero {c} i rest next clear) s m v =
      let (k, at, left) = at_find h (s.sender i) rest (sym (m.senders i) ∙ next) in
      (
        record s { sender = update s.sender i (writing k) },
        find_clear i k at (sym m.pending ∙ clear),
        record {
          lock_word = m.lock_word;
          pending = m.pending;
          command = m.command;
          state = m.state;
          senders = goes_to c s i rest (writing k) m left;
          receives = m.receives;
          log = m.log;
        },
      )
  Goes-IsStep (stores {c} i k rest next) s m v =
      let (at, left) = at_store h (s.sender i) k rest (sym (m.senders i) ∙ next) in
      (
        record s { slot = k; sender = update s.sender i (raising k) },
        write i k at,
        record {
          lock_word = m.lock_word;
          pending = m.pending;
          command = refl;
          state = m.state;
          senders = goes_to c s i rest (raising k) m left;
          receives = m.receives;
          log = m.log;
        },
      )
  Goes-IsStep (interrupts {c} i rest next) s m v =
      let (k, at, left) = at_interrupt h (s.sender i) rest (sym (m.senders i) ∙ next) in
      let stored : c.slot ≡ k = m.command ∙ v.written i k at in
      (
        record s { msip = 1; sent = k ∷ s.sent; sender = update s.sender i unlocking },
        raise i k at,
        record {
          lock_word = m.lock_word;
          pending = refl;
          command = m.command;
          state = m.state;
          senders = goes_to c s i rest unlocking m left;
          receives = m.receives;
          log = (rw (stored, m.log.0) refl, m.log.1);
        },
      )
  Goes-IsStep (gives {c} i rest next) s m v =
      let (at, left) = at_give h (s.sender i) rest (sym (m.senders i) ∙ next) in
      (
        record s { lock = 0; sender = update s.sender i out },
        unlock i at,
        record {
          lock_word = refl;
          pending = m.pending;
          command = m.command;
          state = m.state;
          senders = goes_to c s i rest out m left;
          receives = m.receives;
          log = m.log;
        },
      )
  Goes-IsStep (traps {c} idle raised) s m v = (
    record s { receiver = handling; received = s.slot ∷ s.received },
    enter (at_trap h s.receiver (sym m.receives ∙ idle)) (sym m.pending ∙ raised),
    record {
      lock_word = m.lock_word;
      pending = m.pending;
      command = m.command;
      state = m.state;
      senders = m.senders;
      receives = refl;
      log = (m.log.0, rw (m.command, m.log.1) refl);
    },
  )
  Goes-IsStep (resets {c} rest next free) s m v =
      let (at, left) = at_reset h s.receiver rest (sym m.receives ∙ next) in
      (
        record s { receiver = clearing; slot = record s.slot { command = 0 } },
        clear_command at (
            subst (λ (x : HartCommand). CanRelease x.command s.state_lock) m.command
              (subst (CanRelease c.slot.command) m.state free)),
        record {
          lock_word = m.lock_word;
          pending = m.pending;
          command = ap (λ (x : HartCommand). record x { command = 0 }) m.command;
          state = m.state;
          senders = m.senders;
          receives = sym left;
          log = m.log;
        },
      )
  Goes-IsStep (resets_interrupt {c} rest next) s m v =
      let (at, left) = at_reset_interrupt h s.receiver rest (sym m.receives ∙ next) in
      (
        record s { receiver = running; msip = 0 },
        clear_msip at,
        record {
          lock_word = m.lock_word;
          pending = refl;
          command = m.command;
          state = m.state;
          senders = m.senders;
          receives = sym left;
          log = m.log;
        },
      )
  Goes-IsStep (uses_state {c} v) s m sound = (
    record s { state_lock = v },
    use_state v,
    record {
      lock_word = m.lock_word;
      pending = m.pending;
      command = m.command;
      state = refl;
      senders = m.senders;
      receives = m.receives;
      log = m.log;
    },
  )

-- A mailbox that nobody uses.
pub record IsIdle (c : Running) : Type 0 where
  pub free : c.lock ≡ 0
  pub quiet : c.msip ≡ 0
  pub all_out : (i : ℕ) → c.sender i ≡ []
  pub at_work : c.receiver ≡ []
  pub nothing : c.sent ≡ c.received

abbrev pub idle_mailbox : Running → Mailbox
idle_mailbox c = record {
  lock = c.lock;
  msip = c.msip;
  slot = c.slot;
  state_lock = c.state_lock;
  sender = λ i. out;
  receiver = running;
  sent = c.sent;
  received = c.received;
}

idle-IsInitial : (c : Running) → IsIdle c → IsInitial (idle_mailbox c)
idle-IsInitial c idle = record {
  free = idle.free;
  quiet = idle.quiet;
  all_out = λ i. refl;
  at_work = refl;
  nothing = idle.nothing;
}

-- The same run in steps, and what it delivers.
abbrev pub Follows : (h : ℕ) → Running → Running → Type 0
Follows h c d = (t : Mailbox) × Steps (idle_mailbox c) t × Matches h d t

GoesOn-Follows : (h : ℕ) {c d : Running} → IsIdle c → GoesOn h c d → Follows h c d
GoesOn-Follows h {c} idle done = (
  idle_mailbox c,
  stop,
  record {
    lock_word = refl;
    pending = refl;
    command = refl;
    state = refl;
    senders = idle.all_out;
    receives = idle.at_work;
    log = (refl, refl);
  },
)
GoesOn-Follows h {c} idle (then_goes run last) =
    let (s, steps, matches) = GoesOn-Follows h idle run in
    let sound = Steps-IsSound steps (initial-IsSound (idle_mailbox c) (idle-IsInitial c idle)) in
    let (t, step, matches') = Goes-IsStep h last s matches sound in
    (t, then_step steps step, matches')

abbrev pub Delivers : (h : ℕ) → Running → Running → Type 0
Delivers h c d = (t : Mailbox) × Steps (idle_mailbox c) t × Matches h d t × IsDelivered t

-- From a mailbox that nobody uses on, every interleaving of the accesses that send_hart_command_que makes
-- in any number of senders, and release_mailbox in the receiver once it has copied the command, is an
-- interleaving of the steps: the mailbox, the state lock and what was sent and received are the same,
-- every sender and the receiver stand where their code has left to do what the steps have. So no two
-- senders hold the mailbox at once, and what was received is what was sent, but for a command that still
-- stands in the mailbox.
pub GoesOn-Delivers : (h : ℕ) (c d : Running) → IsIdle c → GoesOn h c d → Delivers h c d
GoesOn-Delivers h c d idle run =
    let (t, steps, matches) = GoesOn-Follows h idle run in
    (t, steps, matches, Steps-IsDelivered (idle_mailbox c) t (idle-IsInitial c idle) steps)
