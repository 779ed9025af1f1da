-- ===== src/Boot/Contexts.antt =====
-- kinit of main.c: the heap, the arrays that it takes from there, the contexts of the harts with their
-- stacks and thread storage, and the interrupts that it sends. What the thread storage holds is
-- left out.
pub mod Loops
use echelon_sbi.Base.{ℕ, zero, suc, ◌+◌, ◌*◌, Option, none, some, update, u32}
use echelon_sbi.Machine.{Config, Machine, CpuContext, context_ptr, ct_size, em_m}
use echelon_sbi.Machine.Run.{
  Cmd, Run, pure, modify, ◌>>=◌, ◌>>◌, cpu_sfencevma, cpu_fencei, set_msip, wait_msip,
}
use echelon_sbi.Machine.Csr.{csr_write}
use echelon_sbi.Allocator.{Heap, kallocinit, kmalloc, kmalloc_stack, option_bind}
use echelon_sbi.Trap.Context.{cleared_context}
use echelon_sbi.Boot.StartHart.{init_harts}

abbrev pub stack_size : ℕ
stack_size = 0x1000

abbrev pub reg_sp : ℕ
reg_sp = 2

abbrev pub reg_tp : ℕ
reg_tp = 4

abbrev pub csr_mscratch : ℕ
csr_mscratch = 0x340

-- `&KHEAP_START + 0x10000`, where KHEAP_START is a pointer, of four bytes.
abbrev pub heap_size : ℕ
heap_size = 0x10000 * 4

-- The addresses of the arrays, each zero if there was no room for it.
pub record Arrays : Type 0 where
  pub hart_commands : ℕ
  pub hart_command_que_locks : ℕ
  pub sbi_hsm_locks : ℕ
  pub sbi_hsm_states : ℕ
  pub hart_contexts : ℕ

unfoldable pub allocate_arrays : Config → Heap → Option (Arrays × Heap)
allocate_arrays c h =
    let n = c.total_hart_count in
    option_bind (kmalloc (u32 (n * 28)) h) λ (commands, h1).
      option_bind (kmalloc (u32 (n * 4)) h1) λ (locks, h2).
        option_bind (kmalloc (u32 (n * 4)) h2) λ (state_locks, h3).
          option_bind (kmalloc (u32 (n * 4)) h3) λ (states, h4).
            option_bind (kmalloc (u32 (n * 3 * ct_size)) h4) λ (contexts, h5). some (
              record {
                hart_commands = commands;
                hart_command_que_locks = locks;
                sbi_hsm_locks = state_locks;
                sbi_hsm_states = states;
                hart_contexts = contexts;
              },
              h5,
            )

-- The context of a hart in machine mode, with its thread storage and its stack.
abbrev pub first_context : (i tp sp : ℕ) → CpuContext → CpuContext
first_context i tp sp old = record (cleared_context old) {
  context_id = i;
  execution_mode = em_m;
  regs = update (update (cleared_context old).regs reg_tp tp) reg_sp sp;
}

-- The rounds from `i` on, of which `left` are left.
unfoldable pub init_contexts_loop :
    (left i base tls_size : ℕ) (contexts : ℕ → CpuContext) → Heap → Option ((ℕ → CpuContext) × Heap)
init_contexts_loop zero i base tls_size contexts h = some (contexts, h)
init_contexts_loop (suc left) i base tls_size contexts h =
    option_bind (kmalloc tls_size h) λ (tp, h1).
      option_bind (kmalloc_stack stack_size h1) λ (sp, h2).
        let at = context_ptr base i in
        init_contexts_loop left (suc i) base tls_size
          (update contexts at (first_context i tp sp (contexts at))) h2

unfoldable pub clear_contexts_loop : (left i base : ℕ) (contexts : ℕ → CpuContext) → ℕ → CpuContext
clear_contexts_loop zero i base contexts = contexts
clear_contexts_loop (suc left) i base contexts =
    let at = context_ptr base i in
    clear_contexts_loop left (suc i) base (update contexts at (cleared_context (contexts at)))

unfoldable pub raise_harts_loop : (left i : ℕ) → Cmd (Unit {0})
raise_harts_loop zero i = pure tt
raise_harts_loop (suc left) i = do set_msip i 1; raise_harts_loop left (suc i)

unfoldable pub wait_harts_loop : (left i : ℕ) → Cmd (Unit {0})
wait_harts_loop zero i = pure tt
wait_harts_loop (suc left) i = do wait_msip i; wait_harts_loop left (suc i)

-- What kinit does besides the heap: the array of the contexts is at `base`.
unfoldable pub kinit_machine :
    Config → (hartid base : ℕ) (contexts : ℕ → CpuContext) → Cmd (Unit {0})
kinit_machine c hartid base contexts =
    let n = c.total_hart_count in
    do
      init_harts c
      modify λ m. record m {
        contexts = contexts;
        hart_contexts = base;
        hart_contexts_exception = context_ptr base n;
        hart_contexts_user = context_ptr (context_ptr base n) n;
      }
      csr_write csr_mscratch (context_ptr (context_ptr base n) hartid)
      cpu_sfencevma
      cpu_fencei
      raise_harts_loop n 0
      wait_harts_loop n 0

-- The machine has the mailboxes, locks, states and contexts by hart, each kind apart from the others, as
-- they are where all arrays have their own memory: what follows is said for such a heap.
unfoldable pub kinit :
    Config
    → (heap_start tls_size hartid : ℕ) → Heap
    → Machine
    → Option (Arrays × Heap × Run (Unit {0}))
kinit c heap_start tls_size hartid h m =
    let n = c.total_hart_count in
    option_bind (allocate_arrays c (kallocinit heap_start (heap_start + heap_size) h))
      λ (arrays, with_arrays).
        let base = arrays.hart_contexts in
        option_bind (init_contexts_loop n 0 base tls_size m.contexts with_arrays) λ (contexts, h').
          some (
            arrays,
            h',
            kinit_machine c hartid base (clear_contexts_loop (n * 2) n base contexts) m,
          )
