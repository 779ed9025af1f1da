-- ===== src/HartCommand/Interleaving/Places.antt =====
-- Where a sender or the receiver stands, by what its code (interrupts/context_switch.c) has still to do.
use echelon_sbi.Base.{ℕ, ◌≡◌, refl, ap, List, [], ◌∷◌, arith}
use echelon_sbi.Machine.{HartCommand}
use echelon_sbi.HartCommand.Interleaving.{
  SenderAt, out, locking, waiting, writing, raising, unlocking, ReceiverAt, running, handling,
  clearing, Mailbox,
}
use echelon_sbi.HartCommand.Interleaving.Code.{
  Access, take, give, find_zero, interrupt, reset, reset_interrupt, store, Running,
}

module _ (h : ℕ) where
  -- What is left to do at each place of a sender, and of the receiver.
  abbrev pub left_of : SenderAt → List Access
  left_of out = []
  left_of (locking k) = take h ∷ find_zero h ∷ store h k ∷ interrupt h ∷ give h ∷ []
  left_of (waiting k) = find_zero h ∷ store h k ∷ interrupt h ∷ give h ∷ []
  left_of (writing k) = store h k ∷ interrupt h ∷ give h ∷ []
  left_of (raising k) = interrupt h ∷ give h ∷ []
  left_of unlocking = give h ∷ []

  abbrev pub left_to_receive : ReceiverAt → List Access
  left_to_receive running = []
  left_to_receive handling = reset h ∷ reset_interrupt h ∷ []
  left_to_receive clearing = reset_interrupt h ∷ []

  pub record Matches (c : Running) (s : Mailbox) : Type 0 where
    pub lock_word : c.lock ≡ s.lock
    pub pending : c.msip ≡ s.msip
    pub command : c.slot ≡ s.slot
    pub state : c.state_lock ≡ s.state_lock
    pub senders : (i : ℕ) → c.sender i ≡ left_of (s.sender i)
    pub receives : c.receiver ≡ left_to_receive s.receiver
    pub log : (c.sent ≡ s.sent) × (c.received ≡ s.received)

  -- The place of a sender, by its next access.
  pub at_take :
      (a : SenderAt) (rest : List Access)
      → left_of a ≡ take h ∷ rest
      → (k : HartCommand) × (a ≡ locking k) × (left_of (waiting k) ≡ rest)
  at_take (locking k) rest e = (k, refl, ground arith)
  at_take out rest e = absurd (ground arith)
  at_take (waiting k) rest e = absurd (ground arith)
  at_take (writing k) rest e = absurd (ground arith)
  at_take (raising k) rest e = absurd (ground arith)
  at_take unlocking rest e = absurd (ground arith)

  pub at_find :
      (a : SenderAt) (rest : List Access)
      → left_of a ≡ find_zero h ∷ rest
      → (k : HartCommand) × (a ≡ waiting k) × (left_of (writing k) ≡ rest)
  at_find out rest e = absurd (ground arith)
  at_find (locking k) rest e = absurd (ground arith)
  at_find (waiting k) rest e = (k, refl, ground arith)
  at_find (writing k) rest e = absurd (ground arith)
  at_find (raising k) rest e = absurd (ground arith)
  at_find unlocking rest e = absurd (ground arith)

  pub at_store :
      (a : SenderAt) (x : HartCommand) (rest : List Access)
      → left_of a ≡ store h x ∷ rest
      → (a ≡ writing x) × (left_of (raising x) ≡ rest)
  at_store out x rest e = absurd (ground arith)
  at_store (locking k) x rest e = absurd (ground arith)
  at_store (waiting k) x rest e = absurd (ground arith)
  at_store (writing k) x rest e = (ap writing (ground arith), ground arith)
  at_store (raising k) x rest e = absurd (ground arith)
  at_store unlocking x rest e = absurd (ground arith)

  pub at_interrupt :
      (a : SenderAt) (rest : List Access)
      → left_of a ≡ interrupt h ∷ rest
      → (k : HartCommand) × (a ≡ raising k) × (left_of unlocking ≡ rest)
  at_interrupt out rest e = absurd (ground arith)
  at_interrupt (locking k) rest e = absurd (ground arith)
  at_interrupt (waiting k) rest e = absurd (ground arith)
  at_interrupt (writing k) rest e = absurd (ground arith)
  at_interrupt (raising k) rest e = (k, refl, ground arith)
  at_interrupt unlocking rest e = absurd (ground arith)

  pub at_give :
      (a : SenderAt) (rest : List Access)
      → left_of a ≡ give h ∷ rest
      → (a ≡ unlocking) × ([] ≡ rest)
  at_give out rest e = absurd (ground arith)
  at_give (locking k) rest e = absurd (ground arith)
  at_give (waiting k) rest e = absurd (ground arith)
  at_give (writing k) rest e = absurd (ground arith)
  at_give (raising k) rest e = absurd (ground arith)
  at_give unlocking rest e = (refl, ground arith)

  pub at_call : (a : SenderAt) → left_of a ≡ [] → a ≡ out
  at_call out e = refl
  at_call (locking k) e = absurd (ground arith)
  at_call (waiting k) e = absurd (ground arith)
  at_call (writing k) e = absurd (ground arith)
  at_call (raising k) e = absurd (ground arith)
  at_call unlocking e = absurd (ground arith)

  pub at_trap : (a : ReceiverAt) → left_to_receive a ≡ [] → a ≡ running
  at_trap running e = refl
  at_trap handling e = absurd (ground arith)
  at_trap clearing e = absurd (ground arith)

  pub at_reset :
      (a : ReceiverAt) (rest : List Access)
      → left_to_receive a ≡ reset h ∷ rest
      → (a ≡ handling) × (left_to_receive clearing ≡ rest)
  at_reset running rest e = absurd (ground arith)
  at_reset handling rest e = (refl, ground arith)
  at_reset clearing rest e = absurd (ground arith)

  pub at_reset_interrupt :
      (a : ReceiverAt) (rest : List Access)
      → left_to_receive a ≡ reset_interrupt h ∷ rest
      → (a ≡ clearing) × ([] ≡ rest)
  at_reset_interrupt running rest e = absurd (ground arith)
  at_reset_interrupt handling rest e = absurd (ground arith)
  at_reset_interrupt clearing rest e = (refl, ground arith)
