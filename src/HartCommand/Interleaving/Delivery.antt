-- ===== src/HartCommand/Interleaving/Delivery.antt =====
-- Runs of the steps of senders and receiver (interrupts/context_switch.c): the invariant.
use echelon_sbi.Base.{
  ℕ, ◌≡◌, ◌≢◌, ◌⊎◌, inl, inr, refl, Bool, true, false, ◌==◌, ◌&&◌, Bool-cases, if◌then◌else◌, ◌∷◌,
  arith,
}
use echelon_sbi.Machine.{HartCommand}
use echelon_sbi.HartCommand.Interleaving.{
  SenderAt, out, locking, waiting, writing, raising, unlocking, ReceiverAt, running, Mailbox, Step,
  begin, lock, find_clear, write, raise, unlock, enter, clear_command, clear_msip, use_state, Steps,
  stop, then_step, IsInitial,
}

-- Between the lock and the unlock.
abbrev pub holds : SenderAt → Bool
holds out = false
holds (locking k) = false
holds (waiting k) = true
holds (writing k) = true
holds (raising k) = true
holds unlocking = true

-- Between the test of the interrupt and its raise.
abbrev pub fills : SenderAt → Bool
fills (writing k) = true
fills (raising k) = true
fills _ = false

abbrev pub is_running : ReceiverAt → Bool
is_running running = true
is_running _ = false

pub record IsSound (s : Mailbox) : Type 0 where
  pub one : (i j : ℕ) → holds (s.sender i) ≡ true → holds (s.sender j) ≡ true → i ≡ j
  pub held : (i : ℕ) → holds (s.sender i) ≡ true → s.lock ≡ 1
  pub empty : (i : ℕ) → fills (s.sender i) ≡ true → s.msip ≡ 0
  pub written : (i : ℕ) (k : HartCommand) → s.sender i ≡ raising k → s.slot ≡ k
  pub busy : is_running s.receiver ≡ false → s.msip ≡ 1
  pub owner : s.lock ≢ 0 → (i : ℕ) × (holds (s.sender i) ≡ true)
  pub binary : s.msip ≢ 0 → s.msip ≡ 1
  pub history :
      s.sent ≡ (if s.msip == 1 && is_running s.receiver then s.slot ∷ s.received else s.received)

pub initial-IsSound : (s : Mailbox) → IsInitial s → IsSound s
initial-IsSound s z = record {
  one = λ i j a b. ground (arith, z.all_out i);
  held = λ i a. ground (arith, z.all_out i);
  empty = λ i a. ground (arith, z.all_out i);
  written = λ i k a. ground (arith, z.all_out i);
  busy = λ a. ground (arith, z.at_work);
  owner = λ ne. absurd (ground (arith, z.free));
  binary = λ ne. absurd (ground (arith, z.quiet));
  history = ground (arith, z.quiet, z.nothing);
}

pub Step-IsSound : {s t : Mailbox} → Step s t → IsSound s → IsSound t
Step-IsSound (begin {s} i k at) v = record {
  one = λ a b x y. ground (arith, v.one a b);
  held = λ a x. ground (arith, v.held a);
  empty = λ a x. ground (arith, v.empty a);
  written = λ a c x. ground (arith, v.written a c);
  busy = v.busy;
  owner = λ ne. let (j, h) = v.owner ne in (j, ground arith);
  binary = v.binary;
  history = v.history;
}
Step-IsSound (lock {s} i k at free) v = record {
  one = λ a b x y. ground (arith, v.held a, v.held b);
  held = λ a x. refl;
  empty = λ a x. ground (arith, v.empty a);
  written = λ a c x. ground (arith, v.written a c);
  busy = v.busy;
  owner = λ ne. (i, ground arith);
  binary = v.binary;
  history = v.history;
}
Step-IsSound (find_clear {s} i k at clear) v = record {
  one = λ a b x y. ground (arith, v.one a b);
  held = λ a x. ground (arith, v.held a);
  empty = λ a x. ground (arith, v.empty a);
  written = λ a c x. ground (arith, v.written a c);
  busy = v.busy;
  owner = λ ne. let (j, h) = v.owner ne in (j, ground arith);
  binary = v.binary;
  history = v.history;
}
Step-IsSound (write {s} i k at) v = record {
  one = λ a b x y. ground (arith, v.one a b);
  held = λ a x. ground (arith, v.held a);
  empty = λ a x. ground (arith, v.empty a, v.empty i);
  written = λ a c x. ground (arith, v.one a i);
  busy = v.busy;
  owner = λ ne. let (j, h) = v.owner ne in (j, ground arith);
  binary = v.binary;
  history = ground (arith, v.empty i, v.history);
}
Step-IsSound (raise {s} i k at) v = record {
  one = λ a b x y. ground (arith, v.one a b);
  held = λ a x. ground (arith, v.held a);
  empty = λ a x. ground (arith, v.one a i);
  written = λ a c x. ground (arith, v.written a c);
  busy = λ x. refl;
  owner = λ ne. let (j, h) = v.owner ne in (j, ground arith);
  binary = λ ne. refl;
  history = ground (arith, v.empty i, v.written i k, v.busy, v.history);
}
Step-IsSound (unlock {s} i at) v = record {
  one = λ a b x y. ground (arith, v.one a b);
  held = λ a x. ground (arith, v.one a i);
  empty = λ a x. ground (arith, v.empty a);
  written = λ a c x. ground (arith, v.written a c);
  busy = v.busy;
  owner = λ ne. absurd (ne refl);
  binary = v.binary;
  history = v.history;
}
Step-IsSound (enter {s} at pending) v = record {
  one = v.one;
  held = v.held;
  empty = v.empty;
  written = v.written;
  busy = λ x. pending;
  owner = v.owner;
  binary = v.binary;
  history = ground (arith, v.history);
}
Step-IsSound (clear_command {s} at free) v = record {
  one = v.one;
  held = v.held;
  empty = v.empty;
  written = λ a c x. ground (arith, v.empty a, v.busy);
  busy = ground (arith, v.busy);
  owner = v.owner;
  binary = v.binary;
  history = ground (arith, v.history);
}
Step-IsSound (clear_msip {s} at) v = record {
  one = v.one;
  held = v.held;
  empty = λ a x. refl;
  written = v.written;
  busy = λ x. absurd (ground arith);
  owner = v.owner;
  binary = λ ne. absurd (ne refl);
  history = ground (arith, v.history);
}
Step-IsSound (use_state {s} k) v = record {
  one = v.one;
  held = v.held;
  empty = v.empty;
  written = v.written;
  busy = v.busy;
  owner = v.owner;
  binary = v.binary;
  history = v.history;
}

pub Steps-IsSound : {s t : Mailbox} → Steps s t → IsSound s → IsSound t
Steps-IsSound stop v = v
Steps-IsSound (then_step run last) v = Step-IsSound last (Steps-IsSound run v)

-- What holds after any interleaving.
pub record IsDelivered (t : Mailbox) : Type 0 where
  pub exclusive : (i j : ℕ) → holds (t.sender i) ≡ true → holds (t.sender j) ≡ true → i ≡ j
  pub history : (t.sent ≡ t.received) ⊎ ((t.sent ≡ t.slot ∷ t.received) × (t.msip ≡ 1))

delivered :
    (t : Mailbox)
    → IsSound t
    → (t.sent ≡ t.received) ⊎ ((t.sent ≡ t.slot ∷ t.received) × (t.msip ≡ 1))
delivered t v = elim (Bool-cases (t.msip == 1 && is_running t.receiver)) [
  | inl pending ↦ inr (ground (arith, v.history), ground arith)
  | inr none ↦ inl (ground (arith, v.history))
]

-- From a state in which nobody sends and nothing is pending, every interleaving keeps two senders from
-- holding the mailbox at once, and the commands that the receiver has copied are exactly those whose
-- interrupt was raised, in that order and unchanged, but for one that still stands in the mailbox with
-- its interrupt pending.
pub Steps-IsDelivered : (s t : Mailbox) → IsInitial s → Steps s t → IsDelivered t
Steps-IsDelivered s t z run =
    let v = Steps-IsSound run (initial-IsSound s z) in
    record { exclusive = v.one; history = delivered t v }
