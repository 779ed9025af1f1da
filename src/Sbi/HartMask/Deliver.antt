-- ===== src/Sbi/HartMask/Deliver.antt =====
-- What the action loop does to the machine when the mailbox of each other selected hart is ready.
use mathlib.Core.Path.{fun_ext, subst, ◌∙◌}
use echelon_sbi.Base.{
  ℕ, zero, suc, ◌+◌, ◌/◌, ◌%◌, ◌^◌, ◌<◌, ◌≡◌, refl, Bool, true, false, ◌&&◌, ◌||◌, not, ◌==◌,
  if◌then◌else◌, u32, update, ◌∷◌, arith,
}
use echelon_sbi.Machine.{Machine, HartCommand, fence_i, sfence_vma}
use echelon_sbi.Machine.Run.{Cmd, ok, read, ◌>>=◌, ksem_wait_command, ksem_post_command, wait_msip}
use echelon_sbi.HartCommand.{on_machine, send_hart_command_que}
use echelon_sbi.Sbi.HartMask.{action_loop}
use echelon_sbi.Sbi.HartMask.Select.{selects, selects_later}

-- A command can be sent to `h` without waiting.
pub record IsReady (h : ℕ) (m : Machine) : Type 0 where
  pub unlocked : m.hart_command_que_locks h ≡ 0
  pub taken : m.msip h ≡ 0

-- The machine after `send_hart_command_que h c`.
abbrev pub after_send : ℕ → HartCommand → Machine → Machine
after_send h c m = record m {
  hart_commands = update m.hart_commands h c;
  msip = update m.msip h 1;
  hart_command_que_locks = update (update m.hart_command_que_locks h 1) h 0;
  events = fence_i ∷ sfence_vma ∷ m.events;
}

pub send_hart_command_que_ready :
    (h : ℕ) (c : HartCommand) (m : Machine)
    → IsReady h m
    → send_hart_command_que on_machine h c m ≡ ok tt (after_send h c m)
unfolding send_hart_command_que ksem_wait_command ksem_post_command wait_msip
send_hart_command_que_ready h c m r = rw (r.unlocked, r.taken)

-- The common form of the four actions: `here` on the running hart, a command to any other.
abbrev pub signal :
    (here : Cmd (Unit {0})) (build : HartCommand → ℕ → HartCommand) → ℕ → Cmd (Unit {0})
signal here build h = do
  self ← read λ m. m.mhartid
  garbage ← read λ m. m.stack_command
  if h == self then here else send_hart_command_que on_machine h (build garbage h)

-- What an action does to the CSRs of the hart that runs it.
abbrev pub Raise : Type 0
Raise = (self : ℕ) → (ℕ → ℕ → ℕ) → ℕ → ℕ → ℕ

-- The action on the running hart always returns, and spares the mailboxes.
pub record IsLocal (here : Cmd (Unit {0})) (after : Machine → Machine) (raise : Raise)
    : Type 0 where
  pub returns : (m : Machine) → here m ≡ ok tt (after m)
  pub self : (m : Machine) → (after m).mhartid ≡ m.mhartid
  pub garbage : (m : Machine) → (after m).stack_command ≡ m.stack_command
  pub commands : (m : Machine) → (after m).hart_commands ≡ m.hart_commands
  pub msip : (m : Machine) → (after m).msip ≡ m.msip
  pub locks : (m : Machine) → (after m).hart_command_que_locks ≡ m.hart_command_que_locks
  pub csr : (m : Machine) → (after m).csr ≡ raise m.mhartid m.csr

-- The mailboxes of `m'` are those of `m` with a command to each hart of `to`, and the CSRs are those
-- of `m`, raised if the running hart is hit.
pub record Delivered (raise : Raise) (build : HartCommand → ℕ → HartCommand) (hits : Bool)
    (to : ℕ → Bool) (m m' : Machine) : Type 0 where
  pub self : m'.mhartid ≡ m.mhartid
  pub garbage : m'.stack_command ≡ m.stack_command
  pub commands :
      (h : ℕ) → m'.hart_commands h ≡ (if to h then build m.stack_command h else m.hart_commands h)
  pub msip : (h : ℕ) → m'.msip h ≡ (if to h then 1 else m.msip h)
  pub locks : (h : ℕ) → m'.hart_command_que_locks h ≡ m.hart_command_que_locks h
  pub csr : m'.csr ≡ (if hits then raise m.mhartid m.csr else m.csr)

-- Selected, and not the running hart.
abbrev pub remote : (n i tmp base self h : ℕ) → Bool
remote n i tmp base self h = selects n i tmp base h && not (h == self)

module _ (here : Cmd (Unit {0})) (after : Machine → Machine) (raise : Raise)
    (build : HartCommand → ℕ → HartCommand) (loc : IsLocal here after raise) where
  -- One round.
  abbrev round_end : (i tmp base : ℕ) → Machine → Machine
  round_end i tmp base m =
      let h = u32 (base + i) in
      if tmp % 2 == 1
      then if h == m.mhartid then after m else after_send h (build m.stack_command h) m
      else m

  abbrev round_to : (i tmp base self h : ℕ) → Bool
  round_to i tmp base self h = tmp % 2 == 1 && (h == u32 (base + i) && not (h == self))

  abbrev round_hits : (i tmp base self : ℕ) → Bool
  round_hits i tmp base self = tmp % 2 == 1 && self == u32 (base + i)

  round_Delivered :
      (i tmp base : ℕ) (m : Machine)
      → ((h : ℕ) → round_to i tmp base m.mhartid h ≡ true → IsReady h m)
      → Delivered raise build
          (round_hits i tmp base m.mhartid)
          (round_to i tmp base m.mhartid)
          m
          (round_end i tmp base m)
  round_Delivered i tmp base m ready = record {
    self = ground (arith, loc.self m);
    garbage = ground (arith, loc.garbage m);
    commands = λ h. ground (arith, loc.commands m);
    msip = λ h. ground (arith, loc.msip m);
    locks = λ h. ground (arith, loc.locks m, ready h);
    csr = ground (arith, loc.csr m);
  }

  -- Deliveries to two groups of harts, the first of them disjoint from the second.
  Delivered-trans :
      (hits hits' : Bool) (to to' : ℕ → Bool) (m m' m'' : Machine)
      → (hits && hits') ≡ false
      → Delivered raise build hits to m m'
      → Delivered raise build hits' to' m' m''
      → Delivered raise build (hits || hits') (λ h. to h || to' h) m m''
  Delivered-trans hits hits' to to' m m' m'' once d e = record {
    self = ground (arith, d.self, e.self);
    garbage = ground (arith, d.garbage, e.garbage);
    commands = λ h. ground (arith, d.garbage, d.commands h, e.commands h);
    msip = λ h. ground (arith, d.msip h, e.msip h);
    locks = λ h. ground (arith, d.locks h, e.locks h);
    csr = ground (arith, d.self, d.csr, e.csr);
  }

  round_returns :
      (i tmp base : ℕ) (m : Machine)
      → ((h : ℕ) → round_to i tmp base m.mhartid h ≡ true → IsReady h m)
      → (if tmp % 2 == 1 then signal here build (u32 (base + i)) else ok tt) m
        ≡ ok tt (round_end i tmp base m)
  round_returns i tmp base m ready = ground (
    arith,
    loc.returns m,
    ready (u32 (base + i)),
    send_hart_command_que_ready (u32 (base + i)) (build m.stack_command (u32 (base + i))) m,
  )

  Delivered-resp :
      (hits : Bool) (to to' : ℕ → Bool) (m m' : Machine)
      → ((h : ℕ) → to h ≡ to' h)
      → Delivered raise build hits to m m'
      → Delivered raise build hits to' m m'
  Delivered-resp hits to to' m m' same d = rw (← fun_ext same) d

  IsReady-later :
      (n i tmp base self : ℕ) (m m' : Machine)
      → n < 2 ^ 32
      → Delivered raise build (round_hits i tmp base self) (round_to i tmp base self) m m'
      → ((h : ℕ) → remote (suc n) i tmp base self h ≡ true → IsReady h m)
      → (h : ℕ) → remote n (i + 1) (tmp / 2) base self h ≡ true
      → IsReady h m'
  unfolding selects
  IsReady-later n i tmp base self m m' small d ready h e = record {
    unlocked = ground (arith, d.locks h, ready h);
    taken = ground (arith, d.msip h, ready h, selects_later n i (tmp / 2) base small);
  }

  -- The loop returns, and has delivered to every other hart that the mask selects.
  pub action_loop-Delivered :
      (n i tmp base self : ℕ) (m : Machine)
      → n < 2 ^ 32
      → m.mhartid ≡ self
      → ((h : ℕ) → remote n i tmp base self h ≡ true → IsReady h m)
      → (m' : Machine) × (action_loop (signal here build) n i tmp base m ≡ ok tt m')
        × Delivered raise build (selects n i tmp base self) (remote n i tmp base self) m m'
  unfolding action_loop selects
  action_loop-Delivered zero i tmp base self m small me ready = (
    m,
    refl,
    record {
      self = refl;
      garbage = refl;
      commands = λ h. refl;
      msip = λ h. refl;
      locks = λ h. refl;
      csr = refl;
    },
  )
  action_loop-Delivered (suc n) i tmp base self m small me ready =
      let first : (h : ℕ) → round_to i tmp base m.mhartid h ≡ true → IsReady h m =
        λ h e. ready h (ground arith) in
      let m₁ = round_end i tmp base m in
      let d =
        subst (λ s. Delivered raise build (round_hits i tmp base s) (round_to i tmp base s) m m₁) me
          (round_Delivered i tmp base m first) in
      let (m₂, run, e) =
        action_loop-Delivered n (i + 1) (tmp / 2) base self m₁ (omega arith) (d.self ∙ me)
          (IsReady-later n i tmp base self m m₁ (omega arith) d ready) in
      (
        m₂,
        rw (round_returns i tmp base m first) run,
        Delivered-resp _ (λ h. round_to i tmp base self h || remote n (i + 1) (tmp / 2) base self h)
            _ m m₂ (λ h. ground arith)
            (Delivered-trans (round_hits i tmp base self) (selects n (i + 1) (tmp / 2) base self)
              (round_to i tmp base self) (remote n (i + 1) (tmp / 2) base self) m m₁ m₂
              (ground (arith, selects_later n i (tmp / 2) base (omega arith))) d e),
      )
