-- ===== src/Boot/Contexts/Loops/Room.antt =====
-- The arrays of kinit (main.c) in the heap, and the room that it needs.
use mathlib.Core.Path.{subst}
use echelon_sbi.Base.{ℕ, zero, suc, ◌+◌, ◌*◌, ◌^◌, ◌≤◌, ◌<◌, ◌≡◌, refl, ap, ◌∙◌, some, u32, arith}
use echelon_sbi.Machine.{Config, ct_size}
use echelon_sbi.Allocator.Requests.{needed}
use echelon_sbi.Allocator.InOrder.{IsFilled, kmalloc-Next}
use echelon_sbi.Allocator.{Heap, header, kmalloc}
use echelon_sbi.Boot.Contexts.{Arrays, stack_size, allocate_arrays}

-- What the arrays take from the heap, and what so many harts take for their storage and stacks.
abbrev pub arrays_room : (n : ℕ) → ℕ
arrays_room n =
    needed (n * 28) + needed (n * 4) + needed (n * 4) + needed (n * 4) + needed (n * 3 * ct_size)

abbrev pub hart_room : (tls_size : ℕ) → ℕ
hart_room tls_size = needed tls_size + needed (stack_size + 0x20)

abbrev pub harts_room : (left tls_size : ℕ) → ℕ
harts_room zero tls_size = 0
harts_room (suc left) tls_size = hart_room tls_size + harts_room left tls_size

-- The arrays for `n` harts lie from `low` on one behind the other, and end before `high`.
pub record AreApart (n low high : ℕ) (a : Arrays) : Type 0 where
  pub commands : low < a.hart_commands
  pub locks : a.hart_commands + n * 28 < a.hart_command_que_locks
  pub state_locks : a.hart_command_que_locks + n * 4 < a.sbi_hsm_locks
  pub states : a.sbi_hsm_locks + n * 4 < a.sbi_hsm_states
  pub contexts : a.sbi_hsm_states + n * 4 < a.hart_contexts
  pub end : a.hart_contexts + n * 3 * ct_size ≤ high

abbrev pub Allocates : (c : Config) (h : Heap) (e top : ℕ) → Type 0
Allocates c h e top =
    (arrays : Arrays) × (h' : Heap) × (allocate_arrays c h ≡ some (arrays, h'))
    × IsFilled h' e (top + arrays_room c.total_hart_count)
    × AreApart c.total_hart_count top (top + arrays_room c.total_hart_count) arrays

pub sizes :
    (n : ℕ)
    → n * 3 * ct_size < 2 ^ 32
    → (u32 (n * 28) ≡ n * 28) × (u32 (n * 4) ≡ n * 4) × (u32 (n * 3 * ct_size) ≡ n * 3 * ct_size)
sizes n fits = (omega arith, omega arith, omega arith)

-- The five requests, if they are served.
pub allocate_arrays_run :
    (c : Config) (h h1 h2 h3 h4 h5 : Heap) (a : Arrays)
    → let n = c.total_hart_count in
      kmalloc (u32 (n * 28)) h ≡ some (a.hart_commands, h1)
      → kmalloc (u32 (n * 4)) h1 ≡ some (a.hart_command_que_locks, h2)
      → kmalloc (u32 (n * 4)) h2 ≡ some (a.sbi_hsm_locks, h3)
      → kmalloc (u32 (n * 4)) h3 ≡ some (a.sbi_hsm_states, h4)
      → kmalloc (u32 (n * 3 * ct_size)) h4 ≡ some (a.hart_contexts, h5)
      → allocate_arrays c h ≡ some (a, h5)
unfolding allocate_arrays
allocate_arrays_run c h h1 h2 h3 h4 h5 a run1 run2 run3 run4 run5 =
    rw (run1, run2, run3, run4, run5) refl

pub allocate_arrays-Allocates :
    (c : Config) (h : Heap) (e top : ℕ)
    → IsFilled h e top
    → e < 2 ^ 32
    → 0 < c.total_hart_count
    → top + arrays_room c.total_hart_count ≤ e
    → Allocates c h e top
allocate_arrays-Allocates c h e top filled bound some_hart room =
    let n = c.total_hart_count in
    let (s28, s4, s420) = sizes n (omega (arith, room, bound)) in
    let (h1, run1, filled1) =
      kmalloc-Next (n * 28) h e top filled (omega arith) (omega arith) (omega arith) in
    let (h2, run2, filled2) =
      kmalloc-Next (n * 4) h1 e _ filled1 (omega arith) (omega arith) (omega arith) in
    let (h3, run3, filled3) =
      kmalloc-Next (n * 4) h2 e _ filled2 (omega arith) (omega arith) (omega arith) in
    let (h4, run4, filled4) =
      kmalloc-Next (n * 4) h3 e _ filled3 (omega arith) (omega arith) (omega arith) in
    let (h5, run5, filled5) =
      kmalloc-Next (n * 3 * ct_size) h4 e _ filled4 (omega arith) (omega arith) (omega arith) in
    (
      record {
        hart_commands = top + header;
        hart_command_que_locks = top + needed (n * 28) + header;
        sbi_hsm_locks = top + needed (n * 28) + needed (n * 4) + header;
        sbi_hsm_states = top + needed (n * 28) + needed (n * 4) + needed (n * 4) + header;
        hart_contexts =
            top + needed (n * 28) + needed (n * 4) + needed (n * 4) + needed (n * 4) + header;
      },
      h5,
      allocate_arrays_run c h h1 h2 h3 h4 h5 _ (ap (λ k. kmalloc k h) s28 ∙ run1)
          (ap (λ k. kmalloc k h1) s4 ∙ run2) (ap (λ k. kmalloc k h2) s4 ∙ run3)
          (ap (λ k. kmalloc k h3) s4 ∙ run4) (ap (λ k. kmalloc k h4) s420 ∙ run5),
      subst (IsFilled h5 e) (omega arith) filled5,
      record {
        commands = omega arith;
        locks = omega arith;
        state_locks = omega arith;
        states = omega arith;
        contexts = omega arith;
        end = omega arith;
      },
    )
