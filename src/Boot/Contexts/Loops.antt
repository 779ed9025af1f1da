-- ===== src/Boot/Contexts/Loops.antt =====
-- The allocations and the loops of kinit (main.c), one by one.
pub mod Room
use mathlib.Core.Path.{subst}
use echelon_sbi.Base.{
  ℕ, zero, suc, ◌+◌, ◌%◌, ◌^◌, ◌≤◌, ◌<◌, ◌≡◌, ◌≢◌, ◌⊎◌, inl, inr, refl, sym, ◌∙◌, ◌==◌, Bool-cases,
  some, ◌∷◌, update, update_self, update_ne, arith,
}
use echelon_sbi.Machine.{Config, Machine, CpuContext, context_ptr, em_m, fence_i, sfence_vma}
use echelon_sbi.Machine.Run.{ok, spin, wait_msip}
use echelon_sbi.Machine.Csr.{with_csr}
use echelon_sbi.Allocator.Requests.{needed}
use echelon_sbi.Allocator.Stacks.{stack_top}
use echelon_sbi.Allocator.InOrder.{IsFilled, kmalloc-Next, kmalloc_stack-NextStack}
use echelon_sbi.Allocator.{Heap, header}
use echelon_sbi.Trap.Context.{cleared_context}
use echelon_sbi.Trap.Interrupt.Start.{clear_regs_loop_lem}
use echelon_sbi.Boot.Contexts.{
  stack_size, reg_sp, reg_tp, csr_mscratch, first_context, init_contexts_loop, clear_contexts_loop,
  raise_harts_loop, wait_harts_loop,
}
use echelon_sbi.Boot.Contexts.Loops.Room.{harts_room}

-- The context of a hart in machine mode: its thread storage and its stack, of the stack's size but for
-- less than 16 bytes, lie from `low` on, and all other registers are zero.
pub record IsHartContext (low i : ℕ) (c : CpuContext) : Type 0 where
  pub id : c.context_id ≡ i
  pub mode : c.execution_mode ≡ em_m
  pub aligned : c.regs reg_sp % 16 ≡ 0
  pub stack : low + stack_size < c.regs reg_sp + 16
  pub thread : low ≤ c.regs reg_tp
  pub rest : (r : ℕ) → r < 32 → r ≢ reg_sp → r ≢ reg_tp → c.regs r ≡ 0

pub record IsClear (c : CpuContext) : Type 0 where
  pub id : c.context_id ≡ 0
  pub mode : c.execution_mode ≡ 0
  pub rest : (r : ℕ) → r < 32 → c.regs r ≡ 0

pub cleared_context-IsClear : (c : CpuContext) → IsClear (cleared_context c)
unfolding cleared_context
cleared_context-IsClear c = record {
  id = refl;
  mode = refl;
  rest = λ r below. ground (arith, clear_regs_loop_lem 32 0 c.regs r);
}

pub first_context-IsHartContext :
    (low i tp sp : ℕ) (c : CpuContext)
    → sp % 16 ≡ 0
    → low + stack_size < sp + 16
    → low ≤ tp
    → IsHartContext low i (first_context i tp sp c)
first_context-IsHartContext low i tp sp c aligned stack thread =
    let clear = cleared_context-IsClear c in
    record {
      id = refl;
      mode = refl;
      aligned = aligned;
      stack = stack;
      thread = thread;
      rest = λ r below no_sp no_tp. let zero_reg = clear.rest r below in ground arith;
    }

-- Contexts of the array with these numbers have the property, the others are as they were.
abbrev pub Changes :
    (P : ℕ → CpuContext → Type 0) (left i base : ℕ) (contexts after : ℕ → CpuContext) → Type 0
Changes P left i base contexts after =
    ((j : ℕ) → i ≤ j → j < i + left → P j (after (context_ptr base j)))
    × ((j : ℕ)
        → (j < i) ⊎ (i + left ≤ j)
        → after (context_ptr base j) ≡ contexts (context_ptr base j))

-- A loop that changes the first context and then the others.
pub Changes-suc :
    (P : ℕ → CpuContext → Type 0) (left i base : ℕ) (contexts after : ℕ → CpuContext)
    (c : CpuContext)
    → P i c
    → Changes P left (suc i) base (update contexts (context_ptr base i) c) after
    → Changes P (suc left) i base contexts after
Changes-suc P left i base contexts after c good (changed, kept) = (
  (λ j low high. elim (Bool-cases (j == i)) [
    | inl this ↦
        let same : j ≡ i = ground arith in
        subst (λ k. P k (after (context_ptr base k))) (sym same)
          (subst (P i)
            (sym (kept i (inl (omega arith)) ∙ update_self contexts (context_ptr base i) c)) good)
    | inr other ↦ let above : i < j = ground arith in changed j (omega arith) (omega arith)
  ]),
  (λ j out.
      kept j (elim out [ inl low ↦ inl (omega arith) | inr high ↦ inr (omega arith) ])
      ∙ update_ne contexts (context_ptr base i) c (context_ptr base j)
          (λ e. elim out [ inl low ↦ omega arith | inr high ↦ omega arith ])),
)

-- The loop over the contexts of the harts in machine mode.
abbrev pub SetsContexts :
    (low left i base tls_size : ℕ) (contexts : ℕ → CpuContext) → Heap → (e top : ℕ) → Type 0
SetsContexts low left i base tls_size contexts h e top =
    (after : ℕ → CpuContext) × (h' : Heap) × (init_contexts_loop left i base tls_size contexts h
      ≡ some (after, h'))
    × IsFilled h' e (top + harts_room left tls_size)
    × Changes (IsHartContext low) left i base contexts after

pub init_contexts_loop-Sets :
    (low left i base tls_size : ℕ) (contexts : ℕ → CpuContext) (h : Heap) (e top : ℕ)
    → IsFilled h e top
    → e < 2 ^ 32
    → 0 < tls_size
    → low ≤ top
    → top + harts_room left tls_size ≤ e
    → SetsContexts low left i base tls_size contexts h e top
unfolding init_contexts_loop
init_contexts_loop-Sets low zero i base tls_size contexts h e top filled bound some_storage above
      room =
    (
      contexts,
      h,
      refl,
      subst (IsFilled h e) (omega arith) filled,
      ((λ j low high. absurd (omega arith)), (λ j out. refl)),
    )
init_contexts_loop-Sets low (suc left) i base tls_size contexts h e top filled bound some_storage
      above room =
    let (h1, run1, filled1) =
      kmalloc-Next tls_size h e top filled some_storage (omega arith) (omega arith) in
    let (h2, run2, filled2) =
      kmalloc_stack-NextStack stack_size h1 e (top + needed tls_size) filled1 (omega arith)
        (omega arith) in
    let at = context_ptr base i in
    let tp = top + header in
    let sp = stack_top (top + needed tls_size + header) stack_size in
    let c = first_context i tp sp (contexts at) in
    let (after, h3, run3, filled3, changes) =
      init_contexts_loop-Sets low left (suc i) base tls_size (update contexts at c) h2 e _ filled2
        bound some_storage (omega arith) (omega arith) in
    (
      after,
      h3,
      rw (run1, run2) run3,
      subst (IsFilled h3 e) (omega arith) filled3,
      Changes-suc (IsHartContext low) left i base contexts after c
          (first_context-IsHartContext low i tp sp (contexts at) (omega arith) (omega arith)
            (omega arith))
          changes,
    )

pub clear_contexts_loop-Changes :
    (left i base : ℕ) (contexts : ℕ → CpuContext)
    → Changes (λ _ c. IsClear c) left i base contexts (clear_contexts_loop left i base contexts)
unfolding clear_contexts_loop
clear_contexts_loop-Changes zero i base contexts =
    ((λ j low high. absurd (omega arith)), (λ j out. refl))
clear_contexts_loop-Changes (suc left) i base contexts =
    let at = context_ptr base i in
    let c = cleared_context (contexts at) in
    Changes-suc (λ _ d. IsClear d) left i base contexts
      (clear_contexts_loop left (suc i) base (update contexts at c)) c
      (cleared_context-IsClear (contexts at))
      (clear_contexts_loop-Changes left (suc i) base (update contexts at c))

-- The machine with the array of contexts, before the interrupts.
abbrev pub placed : Config → (hartid base : ℕ) (contexts : ℕ → CpuContext) → Machine → Machine
placed c hartid base contexts m =
    let n = c.total_hart_count in
    let scratch = context_ptr (context_ptr base n) hartid in
    with_csr
      (record m {
        contexts = contexts;
        hart_contexts = base;
        hart_contexts_exception = context_ptr base n;
        hart_contexts_user = context_ptr (context_ptr base n) n;
        events = fence_i ∷ sfence_vma ∷ m.events;
      })
      csr_mscratch scratch

-- The interrupts that kinit raises.
abbrev pub with_msip : (ℕ → ℕ) → Machine → Machine
with_msip msip m = record m { msip = msip }

abbrev pub Raises : (left i : ℕ) → Machine → Type 0
Raises left i m =
    (msip : ℕ → ℕ) × (raise_harts_loop left i m ≡ ok tt (with_msip msip m))
    × ((j : ℕ) → i ≤ j → j < i + left → msip j ≡ 1)
    × ((j : ℕ) → (j < i) ⊎ (i + left ≤ j) → msip j ≡ m.msip j)

pub raise_harts_loop-Raises : (left i : ℕ) (m : Machine) → Raises left i m
unfolding raise_harts_loop
raise_harts_loop-Raises zero i m =
    (m.msip, refl, (λ j low high. absurd (omega arith)), (λ j out. refl))
raise_harts_loop-Raises (suc left) i m =
    let (msip, run, raised, kept) =
      raise_harts_loop-Raises left (suc i) (with_msip (update m.msip i 1) m) in
    (
      msip,
      run,
      (λ j low high. elim (Bool-cases (j == i)) [
        | inl this ↦ let before = kept j (inl (ground arith)) in ground arith
        | inr other ↦ let above : i < j = ground arith in raised j (omega arith) (omega arith)
      ]),
      (λ j out.
          let before = kept j (ground arith) in
          let differ : j ≢ i = λ e. elim out [ inl low ↦ omega arith | inr high ↦ omega arith ] in
          before ∙ update_ne m.msip i 1 j differ),
    )

pub wait_harts_loop-waits :
    (left i : ℕ) (m : Machine) → 0 < left → m.msip i ≡ 1 → wait_harts_loop left i m ≡ spin m
unfolding wait_harts_loop wait_msip
wait_harts_loop-waits zero i m some_hart raised = absurd (omega arith)
wait_harts_loop-waits (suc left) i m some_hart raised = rw raised refl
