-- ===== src/Allocator/Stacks.antt =====
-- kmalloc_stack and kfree_stack (memalloc.c).
use mathlib.Core.Path.{subst}
use echelon_sbi.Base.{
  ℕ, ◌+◌, ◌-◌, ◌*◌, ◌/◌, ◌%◌, ◌^◌, ◌≤◌, ◌<◌, ◌≡◌, refl, false, ◌==◌, some, List, ◌∷◌, update,
  update_self, u32, word_mod, bit_and, bit_not, arith,
}
use echelon_sbi.Base.Bits.Fields.{bit_and-ones_shifted}
use echelon_sbi.Allocator.{Heap, header, kfree, kmalloc_stack, kfree_stack}
use echelon_sbi.Allocator.Sections.{Section, first_fit}
use echelon_sbi.Allocator.Round.{first_fit_bounds}
use echelon_sbi.Allocator.Requests.{IsHeap, Serves, needed, kmalloc-Serves}

-- The top of a stack of `size` bytes in the allocation at `allocation`.
abbrev pub stack_top : (allocation size : ℕ) → ℕ
stack_top allocation size = (allocation + size) / 16 * 16

pub stack_pointer_lem :
    (a size : ℕ)
    → a + size + 0x20 < 2 ^ 32
    → (bit_and (u32 (a + size + 0x10)) (bit_not 0xf) ≡ stack_top a size + 0x10)
      × (u32 (stack_top a size + 0x10 + word_mod - 0x10) ≡ stack_top a size)
stack_pointer_lem a size fits =
    (ground (arith, bit_and-ones_shifted 4 28 (u32 (a + size + 0x10))), omega arith)

-- A stack whose allocation is kept above its top.
pub record IsStack (size allocation p : ℕ) (h : Heap) : Type 0 where
  pub aligned : p % 16 ≡ 0
  pub above : allocation + size < p + 16
  pub below : p ≤ allocation + size
  pub kept : h.word_at (p + 0x10) ≡ allocation
  pub freed : kfree_stack p h ≡ kfree allocation h

IsStack-written :
    (size a : ℕ) (h : Heap)
    → 2 ^ 31 ≤ a
    → a + size + 0x20 < 2 ^ 32
    → IsStack size a
        (stack_top a size)
        (record h { word_at = update h.word_at (stack_top a size + 0x10) a })
unfolding kfree_stack
IsStack-written size a h high fits =
    let p = stack_top a size in
    let slot : u32 (p + 0x10) ≡ p + 0x10 = omega arith in
    let there : (p == 0) ≡ false = ground arith in
    record {
      aligned = omega arith;
      above = omega arith;
      below = omega arith;
      kept = update_self h.word_at (p + 0x10) a;
      freed = rw (slot, there, update_self h.word_at (p + 0x10) a) refl;
    }

abbrev pub Stacks : (size new : ℕ) → Heap → Type 0
Stacks size new h =
    (p : ℕ) × (h' : Heap) × (kmalloc_stack size h ≡ some (p, h')) × IsStack size (new + header) p h'

-- If the first fit finds a place for 32 bytes more than the size, kmalloc_stack returns a pointer that
-- is a multiple of 16, at most the size above the allocation and less than 16 bytes short of that. The
-- word 16 bytes above it lies in the allocation and holds its address, and kfree_stack of the pointer
-- frees that allocation.
pub kmalloc_stack-Stacks :
    (size new : ℕ) (h : Heap) (s : Section) (rest ys : List Section)
    → IsHeap h (s ∷ rest)
    → size + 44 < 2 ^ 32
    → first_fit h.mem_block_end (needed (size + 0x20)) (s ∷ rest) ≡ some (new, ys)
    → Stacks size new h
unfolding kmalloc_stack
kmalloc_stack-Stacks size new h s rest ys heap fits found =
    let xs = s ∷ rest in
    let (h', run, heap', _) =
      subst (Serves (size + 0x20) h xs) found
        (kmalloc-Serves (size + 0x20) h s rest heap (omega arith) (omega arith)) in
    let (low, within) =
      first_fit_bounds h.word_at h.mem_block_end (needed (size + 0x20)) h.mem_block_start new xs ys
        heap.chain found in
    let high = heap.high in
    let bound = heap.bound in
    let a = new + header in
    let request : u32 (size + 0x20) ≡ size + 0x20 = omega arith in
    let there : (a == 0) ≡ false = ground arith in
    let (pointer, top) = stack_pointer_lem a size (omega arith) in
    (
      stack_top a size,
      record h' { word_at = update h'.word_at (stack_top a size + 0x10) a },
      rw (request, run, there, pointer, top) refl,
      IsStack-written size a h' (omega arith) (omega arith),
    )
