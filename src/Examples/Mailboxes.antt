-- ===== src/Examples/Mailboxes.antt =====
-- The mailbox steps at concrete inputs.
use echelon_sbi.Base.{update, ℕ, refl, ◌∷◌, [], arith}
use echelon_sbi.Machine.{HartCommand}
use echelon_sbi.HartCommand.{send_hart_command_que}
use echelon_sbi.HartCommand.Interleaving.{
  SenderAt, out, locking, waiting, running, Mailbox, begin, lock, Steps, stop, then_step, IsInitial,
}
use echelon_sbi.HartCommand.Interleaving.Delivery.{IsDelivered, Steps-IsDelivered}
use echelon_sbi.HartCommand.Interleaving.Liveness.{AllPrompt, CanGoOn, Steps-CanGoOn}
use echelon_sbi.HartCommand.Interleaving.Code.{
  take, give, find_zero, interrupt, store, Running, call, takes, GoesOn, done, then_goes,
}
use echelon_sbi.HartCommand.Interleaving.Refinement.{Delivers, GoesOn-Delivers}
use echelon_sbi.Examples.{no_command}

abbrev fence : HartCommand
fence = record no_command { command = 17; param0 = 2 }

abbrev empty_box : Mailbox
empty_box = record {
  lock = 0;
  msip = 0;
  slot = no_command;
  state_lock = 0;
  sender = λ i. out;
  receiver = running;
  sent = [];
  received = [];
}

empty_box-IsInitial : IsInitial empty_box
empty_box-IsInitial = record {
  free = refl;
  quiet = refl;
  all_out = λ i. refl;
  at_work = refl;
  nothing = refl;
}

abbrev at_sender : Mailbox → ℕ → SenderAt → Mailbox
at_sender s i a = record s { sender = update s.sender i a }

-- Harts 0 and 1 want to send a fence; hart 1 has the lock.
abbrev contended : Mailbox
contended =
    at_sender
      (record (at_sender (at_sender empty_box 0 (locking fence)) 1 (locking fence)) { lock = 1 }) 1
      (waiting fence)

abbrev contended_run : Steps empty_box contended
contended_run =
    then_step (then_step (then_step stop (begin 0 fence refl)) (begin 1 fence refl))
      (lock 1 fence refl refl)

Steps-IsDelivered_example : IsDelivered contended
Steps-IsDelivered_example = Steps-IsDelivered empty_box contended empty_box-IsInitial contended_run

Steps-CanGoOn_example : CanGoOn contended
unfolding AllPrompt
Steps-CanGoOn_example =
    Steps-CanGoOn empty_box contended 0 contended_run empty_box-IsInitial (((tt, refl), refl), refl)
      (λ e. ground arith)

-- The same mailbox, and the accesses of the code: hart 0 sends a fence to hart 2 and has the lock.
abbrev unused : Running
unused = record {
  lock = 0;
  msip = 0;
  slot = no_command;
  state_lock = 0;
  sender = λ i. [];
  receiver = [];
  sent = [];
  received = [];
}

abbrev called : Running
called = record unused {
  sender =
      update unused.sender 0 (take 2 ∷ find_zero 2 ∷ store 2 fence ∷ interrupt 2 ∷ give 2 ∷ []);
}

abbrev locked : Running
locked = record called {
  lock = 1;
  sender = update called.sender 0 (find_zero 2 ∷ store 2 fence ∷ interrupt 2 ∷ give 2 ∷ []);
}

locked-GoesOn : GoesOn 2 unused locked
unfolding send_hart_command_que
locked-GoesOn = then_goes (then_goes done (call 0 0 fence refl)) (takes 0 _ refl refl)

GoesOn-Delivers_example : Delivers 2 unused locked
GoesOn-Delivers_example =
    GoesOn-Delivers 2 unused locked
      (record { free = refl; quiet = refl; all_out = λ i. refl; at_work = refl; nothing = refl })
      locked-GoesOn
