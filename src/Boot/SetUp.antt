-- ===== src/Boot/SetUp.antt =====
-- kinit of main.c: what it leaves when it comes to wait for the harts.
use mathlib.Core.Path.{subst}
use echelon_sbi.Base.{ℕ, ◌+◌, ◌*◌, ◌^◌, ◌≤◌, ◌<◌, ◌≡◌, inl, sym, ap, some, [], ◌∷◌, refl, arith}
use echelon_sbi.Machine.{Config, Machine, CpuContext, context_ptr}
use echelon_sbi.Machine.Run.{Run, spin}
use echelon_sbi.Machine.Csr.{csr_write}
use echelon_sbi.Allocator.{Heap, kallocinit}
use echelon_sbi.Allocator.Sections.{section}
use echelon_sbi.Allocator.Requests.{kallocinit-IsHeap}
use echelon_sbi.Allocator.InOrder.{IsTight, IsFilled}
use echelon_sbi.Boot.StartHart.{IsInitial, init_harts, init_harts-Inits, FirstHartStarts}
use echelon_sbi.Boot.{Layout}
use echelon_sbi.Boot.Contexts.{
  Arrays, csr_mscratch, heap_size, clear_contexts_loop, kinit_machine, kinit,
}
use echelon_sbi.Boot.Contexts.Loops.{
  IsClear, IsHartContext, clear_contexts_loop-Changes, init_contexts_loop-Sets, placed,
  raise_harts_loop-Raises, wait_harts_loop-waits, with_msip,
}
use echelon_sbi.Boot.Contexts.Loops.Room.{
  AreApart, arrays_room, harts_room, allocate_arrays-Allocates,
}

-- What kinit leaves on the hart that runs it; storage and stacks of the harts lie from `low` on.
pub record IsSetUp (c : Config) (hartid low : ℕ) (m : Machine) : Type 0 where
  pub harts :
      (i : ℕ)
      → i < c.total_hart_count
      → IsHartContext low i (m.contexts (context_ptr m.hart_contexts i))
  pub exception :
      (i : ℕ)
      → i < c.total_hart_count
      → IsClear (m.contexts (context_ptr m.hart_contexts_exception i))
  pub user :
      (i : ℕ) → i < c.total_hart_count → IsClear (m.contexts (context_ptr m.hart_contexts_user i))
  pub scratch : m.csr m.mhartid csr_mscratch ≡ context_ptr m.hart_contexts_exception hartid
  pub initial : (i : ℕ) → i < c.total_hart_count → IsInitial i m
  pub raised : (i : ℕ) → i < c.total_hart_count → m.msip i ≡ 1

abbrev AllContexts : (low n base : ℕ) (contexts : ℕ → CpuContext) → Type 0
AllContexts low n base contexts =
    ((i : ℕ) → i < n → IsHartContext low i (contexts (context_ptr base i)))
    × ((i : ℕ) → n ≤ i → i < n * 3 → IsClear (contexts (context_ptr base i)))

kinit_machine-IsSetUp :
    (c : Config) (hartid low base : ℕ) (contexts : ℕ → CpuContext) (m : Machine)
    → 0 < c.total_hart_count
    → AllContexts low c.total_hart_count base contexts
    → (m' : Machine) × (kinit_machine c hartid base contexts m ≡ spin m')
      × IsSetUp c hartid low m'
      × (m'.hart_contexts ≡ base)
unfolding kinit_machine init_harts csr_write
kinit_machine-IsSetUp c hartid low base contexts m some_hart (harts, clear) =
    let n = c.total_hart_count in
    let (m1, run1, initial, _, _) = init_harts-Inits c m in
    let m2 = placed c hartid base contexts m1 in
    let (msip, run2, raised, _) = raise_harts_loop-Raises n 0 m2 in
    let m3 = with_msip msip m2 in
    let run3 = wait_harts_loop-waits n 0 m3 some_hart (raised 0 (omega arith) (omega arith)) in
    (
      m3,
      rw (run1, run2) run3,
      record {
        harts = harts;
        exception = λ i below.
            subst (λ a. IsClear (contexts a)) (omega arith)
              (clear (n + i) (omega arith) (omega arith));
        user = λ i below.
            subst (λ a. IsClear (contexts a)) (omega arith)
              (clear (n + n + i) (omega arith) (omega arith));
        scratch = ground arith;
        initial = λ i below.
            let first = initial i (omega arith) (omega arith) in
            record {
              mailbox = first.mailbox;
              unlocked = first.unlocked;
              state_unlocked = first.state_unlocked;
              stopped = first.stopped;
            };
        raised = λ i below. raised i (omega arith) (omega arith);
      },
      refl,
    )

-- The heap of kinit has room for all that it takes.
abbrev pub HasRoom : Config → (heap_start tls_size : ℕ) → Type 0
HasRoom c heap_start tls_size =
    (2 ^ 31 ≤ heap_start)
    × (heap_start + heap_size < 2 ^ 32)
    × (arrays_room c.total_hart_count + harts_room c.total_hart_count tls_size ≤ heap_size)

abbrev pub SetsUp : Config → (heap_start tls_size hartid : ℕ) → Heap → Machine → Type 0
SetsUp c heap_start tls_size hartid h m =
    let n = c.total_hart_count in
    let low = heap_start + arrays_room n in
    (arrays : Arrays) × (h' : Heap) × (m' : Machine) × (kinit c heap_start tls_size hartid h m
      ≡ some (arrays, h', spin m'))
    × AreApart n heap_start low arrays
    × IsFilled h' (heap_start + heap_size) (low + harts_room n tls_size)
    × IsSetUp c hartid low m'
    × (m'.hart_contexts ≡ arrays.hart_contexts)

kallocinit_end :
    (heap_start : ℕ) (h : Heap)
    → (kallocinit heap_start (heap_start + heap_size) h).mem_block_end ≡ heap_start + heap_size
unfolding kallocinit
kallocinit_end heap_start h = ground arith

kallocinit-IsFilled :
    (heap_start : ℕ) (h : Heap)
    → 2 ^ 31 ≤ heap_start
    → heap_start + heap_size < 2 ^ 32
    → IsFilled
        (kallocinit heap_start (heap_start + heap_size) h)
        (heap_start + heap_size)
        heap_start
unfolding IsTight
kallocinit-IsFilled heap_start h high bound = record {
  sections = section heap_start 0 ∷ [];
  heap = kallocinit-IsHeap heap_start (heap_start + heap_size) h high (omega arith) bound;
  tight = omega arith;
  end = kallocinit_end heap_start h;
}

-- If there is a hart, some thread storage, and room for everything in a heap in the upper half of the
-- address space, kinit serves all its requests and then waits for the harts to answer its interrupts. The
-- arrays of mailboxes, locks, states and contexts lie in the heap one behind the other, and the heap is
-- well-formed. Every hart of the configuration has an empty mailbox, free locks, the state STOPPED and its
-- interrupt raised; the context of its machine mode has its number, machine mode, and thread storage and a
-- stack behind the arrays, the stack ending at a multiple of 16 and less than 16 bytes short of its
-- size, and every other register zero; and the contexts of its exceptions and of its user are clear. The
-- scratch register points to the context of the running hart's exceptions.
pub kinit-SetsUp :
    (c : Config) (heap_start tls_size hartid : ℕ) (h : Heap) (m : Machine)
    → 0 < c.total_hart_count
    → 0 < tls_size
    → HasRoom c heap_start tls_size
    → SetsUp c heap_start tls_size hartid h m
unfolding kinit
kinit-SetsUp c heap_start tls_size hartid h m some_hart some_storage (high, bound, room) =
    let n = c.total_hart_count in
    let e = heap_start + heap_size in
    let low = heap_start + arrays_room n in
    let (arrays, h1, run1, filled1, apart) =
      allocate_arrays-Allocates c (kallocinit heap_start e h) e heap_start
        (kallocinit-IsFilled heap_start h high bound) bound some_hart (omega arith) in
    let base = arrays.hart_contexts in
    let (contexts, h2, run2, filled2, (harts, _)) =
      init_contexts_loop-Sets low n 0 base tls_size m.contexts h1 e low filled1 bound some_storage
        (omega arith) (omega arith) in
    let (clear, kept) = clear_contexts_loop-Changes (n * 2) n base contexts in
    let all : AllContexts low n base (clear_contexts_loop (n * 2) n base contexts) = (
      (λ i below.
          subst (IsHartContext low i) (sym (kept i (inl below)))
            (harts i (omega arith) (omega arith))),
      (λ i above below. clear i above (omega arith)),
    ) in
    let (m', run3, set_up, same) =
      kinit_machine-IsSetUp c hartid low base (clear_contexts_loop (n * 2) n base contexts) m
        some_hart all in
    (
      arrays,
      h2,
      m',
      rw (run1, run2) (ap (λ (r : Run (Unit {0})). some (arrays, h2, r)) run3),
      apart,
      filled2,
      set_up,
      same,
    )

-- The machine in which the harts have answered has other interrupt flags.
abbrev pub StartsHart :
    Config
    → (heap_start tls_size hartid : ℕ) (layout : Layout) (msip : ℕ → ℕ) → Heap
    → Machine
    → Type 0
StartsHart c heap_start tls_size hartid layout msip h m =
    (arrays : Arrays) × (h' : Heap) × (m' : Machine) × (kinit c heap_start tls_size hartid h m
      ≡ some (arrays, h', spin m'))
    × FirstHartStarts c layout (with_msip msip m')
