-- ===== src/HartCommand/Interleaving/Code.antt =====
-- The code of the senders and of the receiver (interrupts/context_switch.c), access by access, in any
-- interleaving, against the steps. A sender runs send_hart_command_que as a list of accesses; so does
-- the receiver run release_mailbox, after it has copied the command.
use echelon_sbi.Base.{ℕ, ◌≡◌, update, List, [], ◌∷◌, ◌++◌}
use echelon_sbi.Machine.{HartCommand}
use echelon_sbi.HartCommand.{MailboxOps, send_hart_command_que}
use echelon_sbi.HartCommand.Interleaving.{CanRelease}
use echelon_sbi.Trap.Interrupt.{release_mailbox}

-- One access, with the hart whose mailbox it is to.
pub data Access : Type 0 where
  take give find_zero interrupt reset reset_interrupt : (hart_id : ℕ) → Access
  store : (hart_id : ℕ) → HartCommand → Access

-- A program as the list of its accesses, on the hart `self`.
abbrev pub accesses : (self : ℕ) → MailboxOps (List Access)
accesses self = record {
  next = λ a b. a ++ b;
  sfence = [];
  fence = [];
  take_lock = λ h. take h ∷ [];
  wait_clear = λ h. find_zero h ∷ [];
  store_command = λ h k. store h k ∷ [];
  raise_msip = λ h. interrupt h ∷ [];
  give_lock = λ h. give h ∷ [];
  reset_command = reset self ∷ [];
  reset_msip = reset_interrupt self ∷ [];
}

-- The mailbox, with what every sender and the receiver have still to do.
pub record Running : Type 0 where
  pub lock : ℕ
  pub msip : ℕ
  pub slot : HartCommand
  pub state_lock : ℕ
  pub sender : ℕ → List Access
  pub receiver : List Access
  pub sent : List HartCommand
  pub received : List HartCommand

-- One hart goes on with its code; `h` is the receiver. An access waits until it can be made.
pub data Goes (h : ℕ) : Running → Running → Type 0 where
  call :
      {c : Running} (i self : ℕ) (k : HartCommand)
      → c.sender i ≡ []
      → Goes h c
          (record c { sender = update c.sender i (send_hart_command_que (accesses self) h k) })
  takes :
      {c : Running} (i : ℕ) (rest : List Access)
      → c.sender i ≡ take h ∷ rest
      → c.lock ≡ 0
      → Goes h c (record c { lock = 1; sender = update c.sender i rest })
  finds_zero :
      {c : Running} (i : ℕ) (rest : List Access)
      → c.sender i ≡ find_zero h ∷ rest
      → c.msip ≡ 0
      → Goes h c (record c { sender = update c.sender i rest })
  stores :
      {c : Running} (i : ℕ) (k : HartCommand) (rest : List Access)
      → c.sender i ≡ store h k ∷ rest
      → Goes h c (record c { slot = k; sender = update c.sender i rest })
  interrupts :
      {c : Running} (i : ℕ) (rest : List Access)
      → c.sender i ≡ interrupt h ∷ rest
      → Goes h c (record c { msip = 1; sent = c.slot ∷ c.sent; sender = update c.sender i rest })
  gives :
      {c : Running} (i : ℕ) (rest : List Access)
      → c.sender i ≡ give h ∷ rest
      → Goes h c (record c { lock = 0; sender = update c.sender i rest })
  traps :
      {c : Running}
      → c.receiver ≡ []
      → c.msip ≡ 1
      → Goes h c
          (record c { receiver = release_mailbox (accesses h); received = c.slot ∷ c.received })
  resets :
      {c : Running} (rest : List Access)
      → c.receiver ≡ reset h ∷ rest
      → CanRelease c.slot.command c.state_lock
      → Goes h c (record c { receiver = rest; slot = record c.slot { command = 0 } })
  resets_interrupt :
      {c : Running} (rest : List Access)
      → c.receiver ≡ reset_interrupt h ∷ rest
      → Goes h c (record c { receiver = rest; msip = 0 })
  uses_state : {c : Running} (v : ℕ) → Goes h c (record c { state_lock = v })

pub data GoesOn (h : ℕ) : Running → Running → Type 0 where
  done : {c : Running} → GoesOn h c c
  then_goes : {c d e : Running} → GoesOn h c d → Goes h d e → GoesOn h c e
