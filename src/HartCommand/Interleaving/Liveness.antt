-- ===== src/HartCommand/Interleaving/Liveness.antt =====
-- Runs of the steps of senders and receiver (interrupts/context_switch.c): nobody waits for ever if all
-- commands are those for which the receiver waits for nothing.
use echelon_sbi.Base.{
  ℕ, ◌≡◌, ◌≢◌, inl, inr, refl, sym, ap, ◌∙◌, Bool, true, false, ◌==◌, Bool-cases, update, arith,
}
use echelon_sbi.Machine.{HartCommand}
use echelon_sbi.HartCommand.Interleaving.{
  is_prompt, SenderAt, out, locking, waiting, writing, raising, unlocking, ReceiverAt, running,
  handling, clearing, Mailbox, Step, begin, lock, find_clear, write, raise, unlock, enter,
  clear_command, clear_msip, use_state, Steps, stop, then_step, IsInitial,
}
use echelon_sbi.HartCommand.Interleaving.Delivery.{holds, IsSound, initial-IsSound, Steps-IsSound}

-- The command that a sender has to send is one of those.
abbrev pub is_prompt_at : SenderAt → Bool
is_prompt_at out = true
is_prompt_at (locking k) = is_prompt k.command
is_prompt_at (waiting k) = is_prompt k.command
is_prompt_at (writing k) = is_prompt k.command
is_prompt_at (raising k) = is_prompt k.command
is_prompt_at unlocking = true

abbrev pub is_clearing : ReceiverAt → Bool
is_clearing clearing = true
is_clearing _ = false

-- Every new sender of a run has such a command.
abbrev pub is_prompt_step : {s t : Mailbox} → Step s t → Bool
is_prompt_step (begin i k at) = is_prompt k.command
is_prompt_step _ = true

unfoldable pub AllPrompt : {s t : Mailbox} → Steps s t → Type 0
AllPrompt stop = Unit
AllPrompt (then_step run last) = AllPrompt run × (is_prompt_step last ≡ true)

record IsPromptly (s : Mailbox) : Type 0 where
  pub senders : (i : ℕ) → is_prompt_at (s.sender i) ≡ true
  pub stands : s.msip ≡ 1 → is_clearing s.receiver ≡ false → is_prompt s.slot.command ≡ true

initial-IsPromptly : (s : Mailbox) → IsInitial s → IsPromptly s
initial-IsPromptly s z = record {
  senders = λ i. rw (z.all_out i) refl;
  stands = λ pending open_slot. absurd (ground (arith, z.quiet));
}

-- A sender moves and keeps its command.
moved :
    (s : Mailbox) (i : ℕ) (a : SenderAt)
    → IsPromptly s
    → is_prompt_at a ≡ true
    → (j : ℕ) → is_prompt_at (update s.sender i a j) ≡ true
moved s i a p prompt j = elim (Bool-cases (j == i)) [
  | inl this ↦ rw this prompt
  | inr other ↦ rw other (p.senders j)
]

kept : (s : Mailbox) (i : ℕ) (a : SenderAt) → s.sender i ≡ a → IsPromptly s → is_prompt_at a ≡ true
kept s i a at p = ap is_prompt_at (sym at) ∙ p.senders i

Step-IsPromptly :
    {s t : Mailbox} (step : Step s t)
    → is_prompt_step step ≡ true
    → IsSound s
    → IsPromptly s
    → IsPromptly t
Step-IsPromptly (begin {s} i k at) new v p = record {
  senders = moved s i (locking k) p new;
  stands = p.stands;
}
Step-IsPromptly (lock {s} i k at free) new v p = record {
  senders = moved s i (waiting k) p (kept s i (locking k) at p);
  stands = p.stands;
}
Step-IsPromptly (find_clear {s} i k at clear) new v p = record {
  senders = moved s i (writing k) p (kept s i (waiting k) at p);
  stands = p.stands;
}
Step-IsPromptly (write {s} i k at) new v p = record {
  senders = moved s i (raising k) p (kept s i (writing k) at p);
  stands = λ pending open_slot. absurd (ground (arith, v.empty i));
}
Step-IsPromptly (raise {s} i k at) new v p = record {
  senders = moved s i unlocking p refl;
  stands = λ pending open_slot.
      ap (λ (c : HartCommand). is_prompt c.command) (v.written i k at) ∙ kept s i (raising k) at p;
}
Step-IsPromptly (unlock {s} i at) new v p = record {
  senders = moved s i out p refl;
  stands = p.stands;
}
Step-IsPromptly (enter {s} at pending) new v p = record {
  senders = p.senders;
  stands = λ _ open_slot. p.stands pending (rw at refl);
}
Step-IsPromptly (clear_command {s} at free) new v p = record {
  senders = p.senders;
  stands = λ _ open_slot. absurd (ground arith);
}
Step-IsPromptly (clear_msip {s} at) new v p = record {
  senders = p.senders;
  stands = λ pending _. absurd (ground arith);
}
Step-IsPromptly (use_state {s} k) new v p = record { senders = p.senders; stands = p.stands }

-- A new sender, and a call that only takes or gives the state lock.
abbrev pub comes_from_outside : {s t : Mailbox} → Step s t → Bool
comes_from_outside (begin i k at) = true
comes_from_outside (use_state v) = true
comes_from_outside _ = false

abbrev pub CanGoOn : Mailbox → Type 0
CanGoOn t = (u : Mailbox) × (step : Step t u) × (comes_from_outside step ≡ false)

receiver_goes_on : (t : Mailbox) → IsPromptly t → t.msip ≡ 1 → CanGoOn t
receiver_goes_on t prompt pending = go t.receiver refl
  where
    go : (r : ReceiverAt) → t.receiver ≡ r → CanGoOn t
    go running at = (_, enter at pending, refl)
    go handling at = (_, clear_command at (inl (prompt.stands pending (ground arith))), refl)
    go clearing at = (_, clear_msip at, refl)

holder_goes_on :
    (t : Mailbox) → IsSound t → IsPromptly t → (i : ℕ) → holds (t.sender i) ≡ true → CanGoOn t
holder_goes_on t v prompt i h = go (t.sender i) refl
  where
    go : (a : SenderAt) → t.sender i ≡ a → CanGoOn t
    go out at = absurd (ground arith)
    go (locking k) at = absurd (ground arith)
    go (waiting k) at = elim (Bool-cases (t.msip == 0)) [
      | inl clear ↦ (_, find_clear i k at (ground arith), refl)
      | inr pending ↦ receiver_goes_on t prompt (v.binary (ground arith))
    ]
    go (writing k) at = (_, write i k at, refl)
    go (raising k) at = (_, raise i k at, refl)
    go unlocking at = (_, unlock i at, refl)

sender_goes_on : (t : Mailbox) → IsSound t → IsPromptly t → (i : ℕ) → t.sender i ≢ out → CanGoOn t
sender_goes_on t v prompt i busy = go (t.sender i) refl
  where
    go : (a : SenderAt) → t.sender i ≡ a → CanGoOn t
    go out at = absurd (busy at)
    go (locking k) at = elim (Bool-cases (t.lock == 0)) [
      | inl free ↦ (_, lock i k at (ground arith), refl)
      | inr taken ↦ let (j, h) = v.owner (ground arith) in holder_goes_on t v prompt j h
    ]
    go (waiting k) at = holder_goes_on t v prompt i (ground arith)
    go (writing k) at = holder_goes_on t v prompt i (ground arith)
    go (raising k) at = holder_goes_on t v prompt i (ground arith)
    go unlocking at = holder_goes_on t v prompt i (ground arith)

Steps-IsPromptly : {s t : Mailbox} (run : Steps s t) → AllPrompt run → IsInitial s → IsPromptly t
unfolding AllPrompt
Steps-IsPromptly {s} stop all z = initial-IsPromptly s z
Steps-IsPromptly {s} (then_step run last) (all, new) z =
    Step-IsPromptly last new (Steps-IsSound run (initial-IsSound s z)) (Steps-IsPromptly run all z)

-- If every new sender of an interleaving that starts where nobody sends and nothing is pending has a
-- command for which the receiver waits for nothing (a fence, a software interrupt or a switch of
-- context), it does not get stuck while a sender is under way: some hart can go on, without a new sender.
pub Steps-CanGoOn :
    (s t : Mailbox) (i : ℕ) (run : Steps s t)
    → IsInitial s
    → AllPrompt run
    → t.sender i ≢ out
    → CanGoOn t
Steps-CanGoOn s t i run z all busy =
    sender_goes_on t (Steps-IsSound run (initial-IsSound s z)) (Steps-IsPromptly run all z) i busy
