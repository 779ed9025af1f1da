-- ===== src/Examples/Memory.antt =====
-- The allocator at concrete inputs.
use echelon_sbi.Base.{◌≡◌, refl, ◌∷◌, [], some, true, false, ◌==◌, arith}
use echelon_sbi.Allocator.{Heap, kallocinit, kfree}
use echelon_sbi.Allocator.Sections.{section, IsChain, first_fit}
use echelon_sbi.Allocator.Free.{release}
use echelon_sbi.Allocator.Pointers.{kfree-IsHeap}
use echelon_sbi.Allocator.RoundTrip.{AllUsed, GivesBack, kmalloc-GivesBack}
use echelon_sbi.Allocator.Stacks.{Stacks, kmalloc_stack-Stacks}
use echelon_sbi.Allocator.Requests.{IsHeap, Serves, kmalloc-Serves, kallocinit-IsHeap}

abbrev no_heap : Heap
no_heap = record { word_at = λ a. 0; mem_block_start = 0; mem_block_end = 0 }

kallocinit-IsHeap_example :
    IsHeap (kallocinit 0x80010000 0x80010040 no_heap) (section 0x80010000 0 ∷ [])
kallocinit-IsHeap_example =
    kallocinit-IsHeap 0x80010000 0x80010040 no_heap (omega arith) (omega arith) (omega arith)

-- One section of 24 bytes, in a block of 64.
abbrev used_heap : Heap
used_heap = record {
  word_at = λ a. elim (a == 0x80010000) [ true ↦ 24 | false ↦ 0 ];
  mem_block_start = 0x80010000;
  mem_block_end = 0x80010040;
}

used_heap-IsHeap : IsHeap used_heap (section 0x80010000 24 ∷ [])
unfolding IsChain
used_heap-IsHeap = record {
  chain = ((refl, refl, omega arith), (refl, omega arith, omega arith), refl);
  high = omega arith;
  bound = omega arith;
}

kmalloc-Serves_example :
    Serves 10 used_heap
      (section 0x80010000 24 ∷ [])
      (some (0x80010018, section 0x80010000 24 ∷ section 0x80010018 20 ∷ []))
unfolding first_fit
kmalloc-Serves_example =
    kmalloc-Serves 10 used_heap (section 0x80010000 24) [] used_heap-IsHeap (omega arith)
      (omega arith)

kfree-IsHeap_example :
    (h' : Heap) × (kfree 0x80010008 used_heap ≡ some h') × IsHeap h' (section 0x80010000 0 ∷ [])
unfolding release
kfree-IsHeap_example =
    kfree-IsHeap 0x80010008 used_heap (section 0x80010000 24) [] used_heap-IsHeap (omega arith)
      (omega arith)

kmalloc-GivesBack_example : GivesBack 10 used_heap (section 0x80010000 24 ∷ [])
unfolding first_fit AllUsed
kmalloc-GivesBack_example =
    kmalloc-GivesBack 10 0x80010018 used_heap (section 0x80010000 24) []
      (section 0x80010000 24 ∷ section 0x80010018 20 ∷ []) used_heap-IsHeap tt (omega arith)
      (omega arith) refl

-- A block of 4096 bytes with one section of 24.
abbrev stack_heap : Heap
stack_heap = record used_heap { mem_block_end = 0x80011000 }

stack_heap-IsHeap : IsHeap stack_heap (section 0x80010000 24 ∷ [])
unfolding IsChain
stack_heap-IsHeap = record {
  chain = ((refl, refl, omega arith), (refl, omega arith, omega arith), refl);
  high = omega arith;
  bound = omega arith;
}

kmalloc_stack-Stacks_example : Stacks 256 0x80010018 stack_heap
unfolding first_fit
kmalloc_stack-Stacks_example =
    kmalloc_stack-Stacks 256 0x80010018 stack_heap (section 0x80010000 24) []
      (section 0x80010000 24 ∷ section 0x80010018 296 ∷ []) stack_heap-IsHeap (omega arith) refl
