-- ===== src/HartCommand.antt =====
-- Sending a command to another hart: `send_hart_command_que`, `_lck`, `_blk` and `_ret` of
-- interrupts/context_switch.c. Each waits for the receiver's software interrupt to be clear before it
-- writes the mailbox, and holds the mailbox's lock while it writes.
pub mod Interleaving
use echelon_sbi.Base.{ℕ, List, [], ◌∷◌}
use echelon_sbi.Machine.{HartCommand}
use echelon_sbi.Machine.Run.{
  Cmd, pure, read, ◌>>=◌, ◌>>◌, cpu_sfencevma, cpu_fencei, ksem_wait_command, ksem_post_command,
  wait_msip, set_msip, set_command,
}

-- The accesses to a mailbox, for any reading `M` of what a program is: a command over the machine, or
-- the list of its accesses. `next` is the semicolon.
pub record MailboxOps (M : Type 0) : Type 0 where
  pub next : M → M → M
  pub sfence : M
  pub fence : M
  pub take_lock : (hart_id : ℕ) → M
  pub wait_clear : (hart_id : ℕ) → M
  pub store_command : (hart_id : ℕ) → HartCommand → M
  pub raise_msip : (hart_id : ℕ) → M
  pub give_lock : (hart_id : ℕ) → M
  pub reset_command : M
  pub reset_msip : M

-- `hart_commands[mhartid].command = 0`, and `clint_hart_msip_ctls[mhartid] = 0`.
abbrev pub reset_own_command : Cmd (Unit {0})
reset_own_command = do
  self ← read λ m. m.mhartid
  c ← read λ m. m.hart_commands self
  set_command self (record c { command = 0 })

abbrev pub reset_own_msip : Cmd (Unit {0})
reset_own_msip = do self ← read λ m. m.mhartid; set_msip self 0

-- Each access on the machine; the last two are to the mailbox of the hart itself.
abbrev pub on_machine : MailboxOps (Cmd (Unit {0}))
on_machine = record {
  next = λ a b. a >> b;
  sfence = cpu_sfencevma;
  fence = cpu_fencei;
  take_lock = ksem_wait_command;
  wait_clear = wait_msip;
  store_command = set_command;
  raise_msip = λ h. set_msip h 1;
  give_lock = ksem_post_command;
  reset_command = reset_own_command;
  reset_msip = reset_own_msip;
}

-- One after the other.
abbrev pub in_order : {M : Type 0} → MailboxOps M → M → List M → M
in_order ops a [] = a
in_order ops a (b ∷ bs) = ops.next a (in_order ops b bs)

unfoldable pub send_hart_command_que : {M : Type 0} → MailboxOps M → ℕ → HartCommand → M
send_hart_command_que ops hart_id command = in_order ops ops.sfence (
    ops.fence
    ∷ ops.take_lock hart_id
    ∷ ops.wait_clear hart_id
    ∷ ops.store_command hart_id command
    ∷ ops.raise_msip hart_id
    ∷ ops.give_lock hart_id
    ∷ [])

unfoldable pub send_hart_command_lck : ℕ → HartCommand → Cmd (Unit {0})
send_hart_command_lck hart_id command = do
  cpu_sfencevma
  cpu_fencei
  ksem_wait_command hart_id
  wait_msip hart_id
  set_command hart_id command
  set_msip hart_id 1

unfoldable pub send_hart_command_blk : ℕ → HartCommand → Cmd (Unit {0})
send_hart_command_blk hart_id command = do
  cpu_sfencevma
  cpu_fencei
  ksem_wait_command hart_id
  wait_msip hart_id
  set_command hart_id command
  set_msip hart_id 1
  wait_msip hart_id
  ksem_post_command hart_id

-- Returns what the receiver left in the mailbox.
unfoldable pub send_hart_command_ret : ℕ → HartCommand → Cmd HartCommand
send_hart_command_ret hart_id command = do
  cpu_sfencevma
  cpu_fencei
  ksem_wait_command hart_id
  wait_msip hart_id
  set_command hart_id command
  set_msip hart_id 1
  wait_msip hart_id
  reply ← read λ m. m.hart_commands hart_id
  ksem_post_command hart_id
  pure reply
