-- ===== src/HartCommand/Interleaving.antt =====
-- One mailbox under any interleaving of its senders and its receiver: the memory accesses of
-- send_hart_command_que and of the release in interrupt_c_handler (interrupts/context_switch.c), one
-- step each. The lock is that of thread_locking.S. The words of a command are written and copied
-- in one step. The receiver frees the mailbox at once for the commands that it only carries out, for a
-- start command once its state lock is free, and never for a command that it does not know.
pub mod Delivery
pub mod Liveness
pub mod Code
pub mod Places
pub mod Refinement
use echelon_sbi.Base.{ℕ, ◌≡◌, ◌⊎◌, Bool, true, ◌==◌, ◌||◌, update, List, ◌∷◌}
use echelon_sbi.Machine.{
  HartCommand, hartcmd_switchcontext, hartcmd_starthart, hartcmd_remote_fence_i,
  hartcmd_remote_sfence_vma, hartcmd_remote_sfence_vma_asid, hartcmd_smode_softint,
}

-- The commands for which the receiver waits for nothing.
abbrev pub is_prompt : (command : ℕ) → Bool
is_prompt command =
    command == hartcmd_switchcontext
    || command == hartcmd_remote_fence_i
    || command == hartcmd_remote_sfence_vma
    || command == hartcmd_remote_sfence_vma_asid
    || command == hartcmd_smode_softint

-- When the receiver comes to free the mailbox: a start command waits for the hart's state lock.
abbrev pub CanRelease : (command state_lock : ℕ) → Type 0
CanRelease command state_lock =
    (is_prompt command ≡ true) ⊎ ((command ≡ hartcmd_starthart) × (state_lock ≡ 0))

-- Where a sender stands, with the command that it has to send.
pub data SenderAt : Type 0 where
  out : SenderAt
  locking waiting writing raising : HartCommand → SenderAt
  unlocking : SenderAt

-- Where the receiver stands: outside of the handler, with a copy of the command, with the mailbox's
-- command set to zero.
pub data ReceiverAt : Type 0 where
  running handling clearing : ReceiverAt

pub record Mailbox : Type 0 where
  pub lock : ℕ
  pub msip : ℕ
  pub slot : HartCommand
  -- the receiver's `sbi_hsm_locks`
  pub state_lock : ℕ
  pub sender : ℕ → SenderAt
  pub receiver : ReceiverAt
  -- every command whose interrupt was raised, and every command that the receiver copied, newest first
  pub sent : List HartCommand
  pub received : List HartCommand

-- One access by one hart.
pub data Step : Mailbox → Mailbox → Type 0 where
  begin :
      {s : Mailbox} (i : ℕ) (k : HartCommand)
      → s.sender i ≡ out
      → Step s (record s { sender = update s.sender i (locking k) })
  lock :
      {s : Mailbox} (i : ℕ) (k : HartCommand)
      → s.sender i ≡ locking k
      → s.lock ≡ 0
      → Step s (record s { lock = 1; sender = update s.sender i (waiting k) })
  find_clear :
      {s : Mailbox} (i : ℕ) (k : HartCommand)
      → s.sender i ≡ waiting k
      → s.msip ≡ 0
      → Step s (record s { sender = update s.sender i (writing k) })
  write :
      {s : Mailbox} (i : ℕ) (k : HartCommand)
      → s.sender i ≡ writing k
      → Step s (record s { slot = k; sender = update s.sender i (raising k) })
  raise :
      {s : Mailbox} (i : ℕ) (k : HartCommand)
      → s.sender i ≡ raising k
      → Step s (record s { msip = 1; sent = k ∷ s.sent; sender = update s.sender i unlocking })
  unlock :
      {s : Mailbox} (i : ℕ)
      → s.sender i ≡ unlocking
      → Step s (record s { lock = 0; sender = update s.sender i out })
  enter :
      {s : Mailbox}
      → s.receiver ≡ running
      → s.msip ≡ 1
      → Step s (record s { receiver = handling; received = s.slot ∷ s.received })
  clear_command :
      {s : Mailbox}
      → s.receiver ≡ handling
      → CanRelease s.slot.command s.state_lock
      → Step s (record s { receiver = clearing; slot = record s.slot { command = 0 } })
  clear_msip :
      {s : Mailbox} → s.receiver ≡ clearing → Step s (record s { receiver = running; msip = 0 })
  -- The calls of hsm.c take the state lock and give it back.
  use_state : {s : Mailbox} (v : ℕ) → Step s (record s { state_lock = v })

-- A run, from its first state on.
pub data Steps : Mailbox → Mailbox → Type 0 where
  stop : {s : Mailbox} → Steps s s
  then_step : {s t u : Mailbox} → Steps s t → Step t u → Steps s u

-- Nobody sends, nobody handles, nothing was sent.
pub record IsInitial (s : Mailbox) : Type 0 where
  pub free : s.lock ≡ 0
  pub quiet : s.msip ≡ 0
  pub all_out : (i : ℕ) → s.sender i ≡ out
  pub at_work : s.receiver ≡ running
  pub nothing : s.sent ≡ s.received
