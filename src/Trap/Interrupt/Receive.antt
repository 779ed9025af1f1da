-- ===== src/Trap/Interrupt/Receive.antt =====
-- The receiver of the fence and software-interrupt commands, and the timer interrupt.
use mathlib.Core.Path.{subst, sym}
use echelon_sbi.Base.{
  update_self, ℕ, ◌≡◌, ◌≢◌, ◌⊎◌, inl, inr, refl, ◌==◌, if◌then◌else◌, update, bit_and, bit_or,
  bit_not, List, ◌∷◌, [], arith,
}
use echelon_sbi.Base.Bits.{bit, bit-lt, bit-bit_or, bit-bit_and}
use echelon_sbi.Machine.{
  Config, Machine, HartCommand, Event, printed, fence_i, sfence_vma, hartcmd_switchcontext,
  hartcmd_starthart, hartcmd_remote_fence_i, hartcmd_remote_sfence_vma,
  hartcmd_remote_sfence_vma_asid, hartcmd_smode_softint,
}
use echelon_sbi.Machine.Run.{ok, idle}
use echelon_sbi.Machine.Csr.{csr_bitset, csr_bitclr, with_csr, csr_mip, csr_mie}
use echelon_sbi.HartCommand.{on_machine, send_hart_command_que}
use echelon_sbi.Sbi.HartMask.Deliver.{IsReady, after_send, send_hart_command_que_ready}
use echelon_sbi.Trap.Interrupt.{
  release_mailbox, on_hart_command, interrupt_c_handler, not_handled_interrupt,
}

-- The machine, seen from hart `h`.
abbrev pub on_hart : ℕ → Machine → Machine
on_hart h m = record m { mhartid = h }

-- The commands that the receiver carries out and returns from.
abbrev pub IsSignal : ℕ → Type 0
IsSignal k =
    ((k ≡ hartcmd_remote_fence_i) ⊎ (k ≡ hartcmd_smode_softint))
    ⊎ ((k ≡ hartcmd_remote_sfence_vma) ⊎ (k ≡ hartcmd_remote_sfence_vma_asid))

-- What the receiver does for the command, once.
abbrev pub effects : ℕ → List Event → List Event
effects k es =
    if k == hartcmd_remote_fence_i
    then fence_i ∷ es
    else if k == hartcmd_smode_softint
    then es
    else sfence_vma ∷ es

-- Hart `h` has carried out the command that `m` had in its mailbox.
pub record IsReceived (h : ℕ) (m m' : Machine) : Type 0 where
  pub returned : m'.mhartid ≡ h
  pub free : m'.msip h ≡ 0
  pub command : (m'.hart_commands h).command ≡ 0
  pub effect : m'.events ≡ effects (m.hart_commands h).command m.events
  pub softint : bit (m'.csr h csr_mip) 1 ≡ (
      if (m.hart_commands h).command == hartcmd_smode_softint then 1 else bit (m.csr h csr_mip) 1)
  pub csr : (k : ℕ) → k ≢ csr_mip → m'.csr h k ≡ m.csr h k
  pub others : (j : ℕ) → j ≢ h → (m'.hart_commands j ≡ m.hart_commands j) × (m'.msip j ≡ m.msip j)
  pub locks : m'.hart_command_que_locks ≡ m.hart_command_que_locks

abbrev pub received : Machine → Machine
received m =
    let h = m.mhartid in
    let k = (m.hart_commands h).command in
    record m {
      events = effects k m.events;
      hart_commands = update m.hart_commands h (record (m.hart_commands h) { command = 0 });
      msip = update m.msip h 0;
      csr =
          if k == hartcmd_smode_softint
          then update m.csr h (update (m.csr h) csr_mip (bit_or (m.csr h csr_mip) 0x2))
          else m.csr;
    }

softint_bit : bit 0x2 1 ≡ 1
unfolding bit
softint_bit = refl

pub interrupt_received :
    (c : Config) (m : Machine)
    → IsSignal (m.hart_commands m.mhartid).command
    → interrupt_c_handler c 3 m ≡ ok tt (received m)
unfolding interrupt_c_handler on_hart_command release_mailbox csr_bitset
interrupt_received c m (inl (inl k)) = rw k refl
interrupt_received c m (inl (inr k)) = rw k refl
interrupt_received c m (inr (inl k)) = rw k refl
interrupt_received c m (inr (inr k)) = rw k refl

received-IsReceived : (m : Machine) → IsReceived m.mhartid m (received m)
received-IsReceived m = record {
  returned = refl;
  free = ground arith;
  command = ground arith;
  effect = refl;
  softint = ground (
    arith,
    bit-bit_or (m.csr m.mhartid csr_mip) 0x2 1,
    softint_bit,
    bit-lt (m.csr m.mhartid csr_mip) 1,
  );
  csr = λ k ne. ground arith;
  others = λ j ne. (ground arith, ground arith);
  locks = refl;
}

abbrev pub Arrives : Config → (h : ℕ) → HartCommand → Machine → Type 0
Arrives c h command m =
    (m₁ : Machine) × (send_hart_command_que on_machine h command m ≡ ok tt m₁)
    × ((m₁.hart_commands h ≡ command) × (m₁.msip h ≡ 1))
    × (m₂ : Machine) × (interrupt_c_handler c 3 (on_hart h m₁) ≡ ok tt m₂)
    × IsReceived h m₁ m₂
    × IsReady h m₂

-- A fence or a software interrupt that is sent to a hart whose mailbox is free gets there: the sender
-- returns, and the interrupt that it raises makes the receiver return too, having carried out that
-- command once, with its mailbox free for the next sender and no other mailbox changed.
pub send-IsReceived :
    (c : Config) (h : ℕ) (command : HartCommand) (m : Machine)
    → IsSignal command.command
    → IsReady h m
    → Arrives c h command m
send-IsReceived c h command m signal ready =
    let m₁ = after_send h command m in
    let run = interrupt_received c (on_hart h m₁) (
      subst (λ (k : HartCommand). IsSignal k.command) (sym (update_self m.hart_commands h command))
        signal) in
    let got = received-IsReceived (on_hart h m₁) in
    (
      m₁,
      send_hart_command_que_ready h command m ready,
      (ground arith, ground arith),
      received (on_hart h m₁),
      run,
      record {
        returned = got.returned;
        free = got.free;
        command = got.command;
        effect = got.effect;
        softint = got.softint;
        csr = got.csr;
        others = got.others;
        locks = got.locks;
      },
      record { unlocked = ground arith; taken = ground arith },
    )

timer_mask : (bit 0x20 5 ≡ 1) × (bit (bit_not 0x80) 7 ≡ 0)
unfolding bit
timer_mask = (refl, refl)

abbrev timer_taken : Machine → Machine
timer_taken m =
    let m₁ = with_csr m csr_mie (bit_and (m.csr m.mhartid csr_mie) (bit_not 0x80)) in
    with_csr m₁ csr_mip (bit_or (m₁.csr m.mhartid csr_mip) 0x20)

abbrev pub PassesTimer : Config → Machine → Type 0
PassesTimer c m =
    (m' : Machine) × (interrupt_c_handler c 7 m ≡ ok tt m')
    × (bit (m'.csr m.mhartid csr_mie) 7 ≡ 0)
    × (bit (m'.csr m.mhartid csr_mip) 5 ≡ 1)

-- The machine timer interrupt on a hart without stimecmp is passed on: the handler returns with the
-- machine timer interrupt off, until a new deadline is set, and the supervisor's pending.
pub timer_interrupt_lem :
    (c : Config) (m : Machine) → m.hart_using_ext_sstc m.mhartid ≡ 0 → PassesTimer c m
unfolding interrupt_c_handler csr_bitset csr_bitclr
timer_interrupt_lem c m plain =
    let mie = m.csr m.mhartid csr_mie in
    let mip = m.csr m.mhartid csr_mip in
    (
      timer_taken m,
      rw plain refl,
      ground (arith, bit-bit_and mie (bit_not 0x80) 7, timer_mask.1),
      ground (arith, bit-bit_or mip 0x20 5, bit-lt mip 5, timer_mask.0),
    )

-- The line that an interrupt without a handler prints.
abbrev pub idle_line : ℕ → Event
idle_line cause =
    if cause == 1
    then printed "ESBI Error: S-Mode Software Interrupt trapped into M-Mode.  Halting.\n" []
    else if cause == 5
    then printed "ESBI Error: S-Mode Timer Interrupt trapped into M-Mode.  Halting.\n" []
    else if cause == 9
    then printed "ESBI Error: S-Mode External Interrupt trapped into M-Mode.  Halting.\n" []
    else printed "ESBI Interrupt!  Lower 31 mcause bits: %lu.  Halting.\n" (cause ∷ [])

-- An interrupt without a handler, or a software interrupt without a command that is known.
abbrev pub IsUnknown : (cause command : ℕ) → Type 0
IsUnknown cause command =
    ((cause ≢ 3) × (cause ≢ 7) × (cause ≢ 11))
    ⊎ ((cause ≡ 3)
        × (¬ IsSignal command)
        × (command ≢ hartcmd_switchcontext)
        × (command ≢ hartcmd_starthart))

-- Any interrupt but 3, 7 and 11, and a software interrupt whose mailbox holds no command that the
-- firmware knows, idles the receiver after one line of output, with nothing else changed: such a
-- mailbox is not freed.
pub interrupt_c_handler-idles :
    (c : Config) (cause : ℕ) (m : Machine)
    → IsUnknown cause (m.hart_commands m.mhartid).command
    → interrupt_c_handler c cause m ≡ idle (record m { events = idle_line cause ∷ m.events })
unfolding interrupt_c_handler on_hart_command not_handled_interrupt
interrupt_c_handler-idles c cause m (inl (n3, n7, n11)) = ground arith
interrupt_c_handler-idles c cause m (inr (three, unknown, n1, n14)) = ground arith
