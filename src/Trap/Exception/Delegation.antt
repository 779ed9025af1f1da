-- ===== src/Trap/Exception/Delegation.antt =====
-- Which exceptions go on to the supervisor, and how the others stop the hart.
use echelon_sbi.Base.{
  ℕ, zero, suc, ◌+◌, ◌≡◌, ◌≢◌, refl, ap, ◌∙◌, Bool, true, false, ◌==◌, ◌||◌, ◌&&◌, Bool-cases, inl,
  inr, leb, if◌then◌else◌, not, bit_and, bit_not, String, List, ◌∷◌, Option, some, none, arith,
}
use echelon_sbi.Machine.{Config, Machine, Event, em_u, em_m, reg_pc}
use echelon_sbi.Machine.Run.{Run, Cmd, ok, idle, delegate, and_then, emit}
use echelon_sbi.Machine.Csr.{with_csr, csr_read, csr_bitclr, csr_mstatus, csr_satp}
use echelon_sbi.Machine.Ends.{Ends, ends, Ends-run, bind}
use echelon_sbi.Trap.PageTable.{walk_pts}
use echelon_sbi.Trap.Context.{print_pairs, print_reg_state}
use echelon_sbi.Trap.Exception.{
  halt_with, instruction_address, report_illegal, on_illegal_instruction, exception_c_handler,
}

-- `m` is `m₀` but for the events.
abbrev pub Prints : Machine → Machine → Type 0
Prints m₀ m = (es : List Event) × (m ≡ record m₀ { events = es })

abbrev OnlyPrints : {A : Type 0} → Cmd A → Type 0
OnlyPrints c = (m₀ m : Machine) → Prints m₀ m → Ends (λ _ m'. Prints m₀ m') (c m)

emitted :
    (m₀ : Machine) {m : Machine} (e : Event)
    → Prints m₀ m
    → Prints m₀ (record m { events = e ∷ m.events })
emitted m₀ e (es, same) = (e ∷ es, ap (λ (s : Machine). record s { events = e ∷ s.events }) same)

if-OnlyPrints :
    {A : Type 0} (b : Bool) (x y : Cmd A)
    → OnlyPrints x
    → OnlyPrints y
    → OnlyPrints (if b then x else y)
if-OnlyPrints true x y p q = p
if-OnlyPrints false x y p q = q

print_pairs-OnlyPrints :
    (format : String) (fuel limit i : ℕ) (regs : ℕ → ℕ)
    → OnlyPrints (print_pairs format fuel limit i regs)
unfolding print_pairs
print_pairs-OnlyPrints format zero limit i regs = λ m₀ m p. ends p
print_pairs-OnlyPrints format (suc fuel) limit i regs =
    if-OnlyPrints (leb i limit) _ _
      (λ m₀ m p. print_pairs-OnlyPrints format fuel limit (i + 2) regs m₀ _ (emitted m₀ _ p))
      λ m₀ m p. ends p

print_reg_state-OnlyPrints : (context : ℕ) → OnlyPrints (print_reg_state context)
unfolding print_reg_state csr_read
print_reg_state-OnlyPrints context m₀ m p =
    bind
      (print_pairs-OnlyPrints _ 16 8 1 _ m₀ _
        (emitted m₀ _ (emitted m₀ _ (emitted m₀ _ (emitted m₀ _ (emitted m₀ _ (emitted m₀ _ p)))))))
      λ i m₁ p₁.
        bind (print_pairs-OnlyPrints _ 16 30 (i + 2) _ m₀ _ (emitted m₀ _ p₁))
          λ j m₂ p₂. ends (emitted m₀ _ p₂)

-- The machine with its interrupts off.
abbrev pub masked : Machine → Machine
masked m = with_csr m csr_mstatus (bit_and (m.csr m.mhartid csr_mstatus) (bit_not 0x8))

-- The run idles for ever in `m` but for what it printed.
abbrev pub Halts : Machine → Run (Unit {0}) → Type 0
Halts m r = (es : List Event) × (r ≡ idle (record m { events = es }))

abbrev halted : Machine → Run (Unit {0})
halted = idle

idle-Halts :
    (m : Machine) (r : Run (Unit {0}))
    → Ends (λ _ m'. Prints m m') r
    → Halts m (and_then r (λ _. idle))
idle-Halts m r e =
    let (_, m', run, (es, same)) = Ends-run e in
    (
      es,
      ap (λ (x : Run (Unit {0})). and_then x (λ _. idle)) run ∙ ap (λ (s : Machine). halted s) same,
    )

halt_with-Halts :
    (e : Event) (context : ℕ) (m : Machine) → Halts (masked m) (halt_with (emit e) context m)
unfolding halt_with csr_bitclr
halt_with-Halts e context m =
    idle-Halts (masked m) _ (print_reg_state-OnlyPrints context (masked m) _ (e ∷ m.events, refl))

-- The causes that the supervisor handles: misaligned accesses, calls from user mode, page faults.
abbrev pub is_delegated : ℕ → Bool
is_delegated cause =
    cause == 0
    || cause == 4
    || cause == 6
    || cause == 8
    || cause == 12
    || cause == 13
    || cause == 15

report_illegal-Halts :
    (context : ℕ) (at : Option ℕ) (m : Machine) → Halts m (report_illegal context at m)
unfolding report_illegal
report_illegal-Halts context none m = (m.events, refl)
report_illegal-Halts context (some i) m =
    idle-Halts m _ (print_reg_state-OnlyPrints context m _ (emitted m _ (m.events, refl)))

instruction_address-returns :
    (context : ℕ) (m : Machine) → (at : Option ℕ) × (instruction_address context m ≡ ok at m)
unfolding instruction_address csr_read
instruction_address-returns context m =
    let k = m.contexts context in
    (
      if not (k.execution_mode == em_m)
          then walk_pts m.word_at (k.regs reg_pc) (m.csr m.mhartid csr_satp)
          else some (k.regs reg_pc),
      ground arith,
    )

on_illegal_instruction_lem :
    (context mtval : ℕ) (m : Machine)
    → (at : Option ℕ) × (on_illegal_instruction context mtval m
        ≡ (if (m.contexts context).execution_mode == em_u
              then delegate context 2 mtval
              else report_illegal context at)
            m)
unfolding on_illegal_instruction
on_illegal_instruction_lem context mtval m =
    let (at, run) = instruction_address-returns context m in (at, rw run refl)

illegal-Halts :
    (context mtval : ℕ) (m : Machine)
    → (m.contexts context).execution_mode ≢ em_u
    → Halts m (on_illegal_instruction context mtval m)
illegal-Halts context mtval m above =
    let (at, run) = on_illegal_instruction_lem context mtval m in
    let (es, halt) = report_illegal-Halts context at m in (es, ground (arith, run, halt))

if-Halts :
    (m₀ m : Machine) (b : Bool) (x y : Cmd (Unit {0}))
    → (b ≡ true → Halts m₀ (x m))
    → (b ≡ false → Halts m₀ (y m))
    → Halts m₀ ((if b then x else y) m)
if-Halts m₀ m true x y p q = p refl
if-Halts m₀ m false x y p q = q refl

fatal-Halts :
    (c : Config) (context cause mtval : ℕ) (m : Machine)
    → is_delegated cause ≡ false
    → cause ≢ 2
    → cause ≢ 9
    → Halts (masked m) (exception_c_handler c context cause mtval m)
unfolding exception_c_handler
fatal-Halts c context cause mtval m d n2 n9 =
    if-Halts (masked m) m (cause == 0) _ _ (λ e. absurd (ground arith))
      (λ _.
        if-Halts (masked m) m (cause == 1) _ _ (λ _. halt_with-Halts _ context m)
          (λ _.
            if-Halts (masked m) m (cause == 2) _ _ (λ e. absurd (ground arith))
              (λ _.
                if-Halts (masked m) m (cause == 3) _ _ (λ _. halt_with-Halts _ context m)
                  (λ _.
                    if-Halts (masked m) m (cause == 4) _ _ (λ e. absurd (ground arith))
                      (λ _.
                        if-Halts (masked m) m (cause == 5) _ _ (λ _. halt_with-Halts _ context m)
                          (λ _.
                            if-Halts (masked m) m (cause == 6) _ _ (λ e. absurd (ground arith))
                              (λ _.
                                if-Halts (masked m) m (cause == 7) _ _
                                  (λ _. halt_with-Halts _ context m)
                                  (λ _.
                                    if-Halts (masked m) m (cause == 8) _ _
                                      (λ e. absurd (ground arith))
                                      (λ _.
                                        if-Halts (masked m) m (cause == 9) _ _
                                          (λ e. absurd (ground arith))
                                          (λ _.
                                            if-Halts (masked m) m (cause == 11) _ _
                                              (λ _. halt_with-Halts _ context m)
                                              (λ _.
                                                if-Halts (masked m) m (cause == 12) _ _
                                                  (λ e. absurd (ground arith))
                                                  (λ _.
                                                    if-Halts (masked m) m (cause == 13) _ _
                                                      (λ e. absurd (ground arith))
                                                      (λ _.
                                                        if-Halts (masked m) m (cause == 15) _ _
                                                          (λ e. absurd (ground arith))
                                                          (λ _.
                                                            halt_with-Halts _ context
                                                            m))))))))))))))

-- What goes on to the supervisor, with the mode of the trapped context.
abbrev pub enters_supervisor : (mode cause : ℕ) → Bool
enters_supervisor mode cause = is_delegated cause || (cause == 2 && mode == em_u)

-- A misaligned access, a call from user mode, a page fault, and an illegal instruction of user mode
-- enter the supervisor's handler with the cause and the trap value, the machine unchanged.
pub exception_c_handler-delegates :
    (c : Config) (context cause mtval : ℕ) (m : Machine)
    → enters_supervisor (m.contexts context).execution_mode cause ≡ true
    → exception_c_handler c context cause mtval m ≡ delegate context cause mtval m
unfolding exception_c_handler
exception_c_handler-delegates c context cause mtval m d =
    ground (arith, (on_illegal_instruction_lem context mtval m).1)

illegal_cause-Halts :
    (c : Config) (context cause mtval : ℕ) (m : Machine)
    → cause ≡ 2
    → (m.contexts context).execution_mode ≢ em_u
    → Halts m (exception_c_handler c context cause mtval m)
unfolding exception_c_handler
illegal_cause-Halts c context cause mtval m two above = rw two (illegal-Halts context mtval m above)

-- Any other exception that is not a call from supervisor mode idles the hart. Nothing but output is
-- changed, save that the hart's interrupts are off; an illegal instruction above user mode leaves
-- them as they are.
pub exception_c_handler-Halts :
    (c : Config) (context cause mtval : ℕ) (m : Machine)
    → enters_supervisor (m.contexts context).execution_mode cause ≡ false
    → cause ≢ 9
    → Halts (if cause == 2 then m else masked m) (exception_c_handler c context cause mtval m)
exception_c_handler-Halts c context cause mtval m d n9 = elim (Bool-cases (cause == 2)) [
  | inl two ↦ rw two (illegal_cause-Halts c context cause mtval m (ground arith) (ground arith))
  | inr other ↦ rw other (fatal-Halts c context cause mtval m (ground arith) (ground arith) n9)
]
