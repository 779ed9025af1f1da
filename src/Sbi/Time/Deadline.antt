-- ===== src/Sbi/Time/Deadline.antt =====
-- The timer of rv32 is compared as two words: what it shows while sbi_set_timer rewrites them.
use Prim.Native.Nat.{min}
use echelon_sbi.Base.{
  ℕ, ◌+◌, ◌*◌, ◌/◌, ◌^◌, ◌≤◌, ◌<◌, ◌≡◌, refl, ◌==◌, if◌then◌else◌, u32, minus, update, List, [],
  ◌∷◌, arith, bit_or, bit_and, bit_not,
}
use echelon_sbi.Base.Bits.{bit, bit-lt, bit-bit_or, bit-bit_and}
use echelon_sbi.Base.Bits.Fields.{bit_or_sum}
use echelon_sbi.Machine.{Machine, Event, stored, clint_base, clint_mtimecmps}
use echelon_sbi.Machine.Run.{ok}
use echelon_sbi.Machine.Csr.{with_csr, csr_bitset, csr_bitclr, csr_mie, csr_mip}
use echelon_sbi.Sbi.Codes.{sbiret, sbi_success}
use echelon_sbi.Sbi.Time.{sbi_set_timer, set_mtimecmp, set_mtimecmphi}
use echelon_sbi.Sbi.Dispatch.{timer_param}

-- The addresses of a hart's two compare words, as the CLINT lays them out: eight bytes a hart.
abbrev pub low_address : ℕ → ℕ
low_address h = 0x02004000 + 8 * h

abbrev pub high_address : ℕ → ℕ
high_address h = 0x02004004 + 8 * h

abbrev pub deadline : (hi lo : ℕ) → ℕ
deadline hi lo = hi * 2 ^ 32 + lo

-- The deadlines that the device of hart `h` shows after each store of a run, for the events of the
-- run from the oldest on.
pub shown : (h hi lo : ℕ) → List Event → List ℕ
shown h hi lo [] = []
shown h hi lo (stored a v ∷ es) =
    let hi' = if a == high_address h then v else hi in
    let lo' = if a == low_address h then v else lo in deadline hi' lo' ∷ shown h hi' lo' es
shown h hi lo (e ∷ es) = shown h hi lo es

abbrev pub AllFrom : ℕ → List ℕ → Type 0
AllFrom bound [] = Unit
AllFrom bound (d ∷ ds) = (bound ≤ d) × AllFrom bound ds

timer_enable : bit 0x80 7 ≡ 1
unfolding bit
timer_enable = refl

timer_pending : bit (bit_not 0x20) 5 ≡ 0
unfolding bit
timer_pending = refl

-- The stores of sbi_set_timer, oldest first.
abbrev pub timer_stores : Machine → ℕ → List Event
timer_stores m t =
    stored (high_address m.mhartid) (minus 1)
    ∷ stored (low_address m.mhartid) (u32 t)
    ∷ stored (high_address m.mhartid) (t / 2 ^ 32)
    ∷ []

abbrev pub SetsTimer : Machine → ℕ → Type 0
SetsTimer m t =
    (m' : Machine) × (sbi_set_timer t m ≡ ok (sbiret sbi_success 0) m')
    × (m'.events
        ≡ stored (high_address m.mhartid) (t / 2 ^ 32)
          ∷ stored (low_address m.mhartid) (u32 t)
          ∷ stored (high_address m.mhartid) (minus 1)
          ∷ m.events)
    × (deadline (m'.mtimecmphi m.mhartid) (m'.mtimecmp m.mhartid) ≡ t)
    × AllFrom (min t (deadline (m.mtimecmphi m.mhartid) (m.mtimecmp m.mhartid)))
        (shown m.mhartid (m.mtimecmphi m.mhartid) (m.mtimecmp m.mhartid) (timer_stores m t))
    × (bit (m'.csr m.mhartid csr_mie) 7 ≡ 1)
    × (bit (m'.csr m.mhartid csr_mip) 5 ≡ 0)

module _ (m : Machine) (t : ℕ) (bound : t < 2 ^ 64) where
  -- The stores never show a deadline before both the old one and the new one.
  shown-AllFrom :
      (hi lo : ℕ)
      → hi < 2 ^ 32
      → lo < 2 ^ 32
      → AllFrom (min t (deadline hi lo)) (shown m.mhartid hi lo (timer_stores m t))
  unfolding shown
  shown-AllFrom hi lo high low = ground arith

  -- The machine that sbi_set_timer leaves, without stimecmp.
  abbrev timer_machine : Machine
  timer_machine =
      let h = m.mhartid in
      let m₁ = with_csr m csr_mie (bit_and (m.csr h csr_mie) (bit_not 0x80)) in
      let m₂ = with_csr m₁ csr_mip (bit_and (m₁.csr h csr_mip) (bit_not 0x20)) in
      let m₃ = record m₂ {
        mtimecmp = update m.mtimecmp h (u32 t);
        mtimecmphi = update (update m.mtimecmphi h (minus 1)) h (u32 (t / 2 ^ 32));
        events =
            stored (clint_base + clint_mtimecmps + 4 + 4 * (h * 2)) (u32 (t / 2 ^ 32))
            ∷ stored (clint_base + clint_mtimecmps + 4 * (h * 2)) (u32 t)
            ∷ stored (clint_base + clint_mtimecmps + 4 + 4 * (h * 2)) (minus 1)
            ∷ m.events;
      } in
      with_csr m₃ csr_mie (bit_or (m₃.csr h csr_mie) 0x80)

  sbi_set_timer_run :
      m.hart_using_ext_sstc m.mhartid ≡ 0
      → sbi_set_timer t m ≡ ok (sbiret sbi_success 0) timer_machine
  unfolding sbi_set_timer set_mtimecmp set_mtimecmphi csr_bitset csr_bitclr
  sbi_set_timer_run plain = rw plain

  timer_mie : bit (timer_machine.csr m.mhartid csr_mie) 7 ≡ 1
  timer_mie =
      rw now
        (omega (arith, bit-bit_or (bit_and old (bit_not 0x80)) 0x80 7, timer_enable, bit-lt _ 7))
    where
      old : ℕ
      old = m.csr m.mhartid csr_mie

      now : timer_machine.csr m.mhartid csr_mie ≡ bit_or (bit_and old (bit_not 0x80)) 0x80
      now = ground arith

  timer_mip : bit (timer_machine.csr m.mhartid csr_mip) 5 ≡ 0
  timer_mip = rw now (omega (arith, bit-bit_and old (bit_not 0x20) 5, timer_pending))
    where
      old : ℕ
      old = m.csr m.mhartid csr_mip

      now : timer_machine.csr m.mhartid csr_mip ≡ bit_and old (bit_not 0x20)
      now = ground arith

  -- On a hart without stimecmp and for a 64-bit time, sbi_set_timer returns success and stores to the
  -- caller's compare words the high word's maximum, the low word and then the high word. The words
  -- then hold the time, no deadline shown on the way is before both the old one and the new one, the
  -- machine timer interrupt is enabled, and the supervisor's is no longer pending.
  pub sbi_set_timer-AllFrom :
      m.hart_using_ext_sstc m.mhartid ≡ 0
      → m.mtimecmphi m.mhartid < 2 ^ 32
      → m.mtimecmp m.mhartid < 2 ^ 32
      → SetsTimer m t
  sbi_set_timer-AllFrom plain high low = (
    timer_machine,
    sbi_set_timer_run plain,
    ground arith,
    ground arith,
    shown-AllFrom _ _ high low,
    timer_mie,
    timer_mip,
  )

-- The two argument registers of the call are joined to the 64-bit time.
pub timer_param_lem : (lo hi : ℕ) → lo < 2 ^ 32 → hi < 2 ^ 32 → timer_param lo hi ≡ hi * 2 ^ 32 + lo
unfolding timer_param
timer_param_lem lo hi low high = ground (arith, bit_or_sum 32 hi lo)
