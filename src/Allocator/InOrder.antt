-- ===== src/Allocator/InOrder.antt =====
-- memalloc.c: requests without a free in between are served one behind the other, while there is room.
use mathlib.Core.Path.{subst}
use mathlib.Core.Option.{some_inj}
use echelon_sbi.Base.{
  ℕ, ◌+◌, ◌^◌, ◌≤◌, ◌<◌, ◌≡◌, refl, sym, ap, ◌∙◌, Bool, true, false, ◌==◌, leb, if◌then◌else◌,
  Bool-cases, inl, inr, Option, none, some, List, [], ◌∷◌, update, u32, arith,
}
use echelon_sbi.Allocator.{Heap, header, with_words, option_map, kmalloc, kmalloc_stack}
use echelon_sbi.Allocator.Sections.{Section, limit, behind, first_fit}
use echelon_sbi.Allocator.Round.{first_fit_bounds}
use echelon_sbi.Allocator.Requests.{IsHeap, Serves, needed, kmalloc-Serves}
use echelon_sbi.Allocator.Stacks.{stack_top, stack_pointer_lem}
use echelon_sbi.Allocator.Written.{first_fit-InData, IsChain-written}

-- Every section ends where the next one starts, and the last one at `top`.
unfoldable pub IsTight : (top : ℕ) → List Section → Type 0
IsTight top [] = top < 0
IsTight top (s ∷ []) = s.address + s.size ≡ top
IsTight top (s ∷ t ∷ rest) = (s.address + s.size ≡ t.address) × IsTight top (t ∷ rest)

IsTight-cons :
    (e top : ℕ) (s : Section) (ys : List Section)
    → s.address + s.size ≡ limit e ys
    → IsTight top ys
    → IsTight top (s ∷ ys)
unfolding IsTight
IsTight-cons e top s [] meets tight = absurd (omega arith)
IsTight-cons e top s (t ∷ rest) meets tight = (meets, tight)

-- The first fit is behind the last section.
abbrev FitsLast : (e size top : ℕ) → List Section → Type 0
FitsLast e size top xs =
    (ys : List Section) × (first_fit e size xs ≡ some (top, ys))
    × IsTight (top + size) ys
    × (limit e ys ≡ limit e xs)

first_fit_last :
    (e size : ℕ) (s : Section)
    → s.address + s.size + size ≤ e
    → FitsLast e size (s.address + s.size) (s ∷ [])
unfolding first_fit IsTight
first_fit_last e size s room =
    let fits : leb (s.address + s.size + size) e ≡ true = ground arith in
    (
      behind s size [],
      rw fits refl,
      elim (Bool-cases (s.size == 0)) [
        | inl empty ↦ let none_used : s.size ≡ 0 = ground arith in rw empty (omega arith)
        | inr used ↦ rw used (refl, refl)
      ],
      elim (Bool-cases (s.size == 0)) [ inl empty ↦ rw empty refl | inr used ↦ rw used refl ],
    )

first_fit-FitsLast :
    (e size top : ℕ) (xs : List Section)
    → IsTight top xs
    → 0 < size
    → top + size ≤ e
    → FitsLast e size top xs
unfolding first_fit IsTight
first_fit-FitsLast e size top [] tight some_size room = absurd (omega arith)
first_fit-FitsLast e size top (s ∷ []) tight some_size room =
    subst (λ t. FitsLast e size t (s ∷ [])) tight (first_fit_last e size s (omega arith))
first_fit-FitsLast e size top (s ∷ t ∷ rest) (meets, tight) some_size room =
    let (ys, later, tight', same) = first_fit-FitsLast e size top (t ∷ rest) tight some_size room in
    let full : leb (s.address + s.size + size) t.address ≡ false = ground arith in
    (
      s ∷ ys,
      rw (full, later) refl,
      IsTight-cons e (top + size) s ys (meets ∙ sym same) tight',
      refl,
    )

-- kmalloc does not move the end of the block.
kmalloc_end :
    (h h' : Heap) (p : ℕ) (refused : Bool) (r : Option (ℕ × (ℕ → ℕ)))
    → (if refused then some (0, h) else option_map (with_words h) r) ≡ some (p, h')
    → h'.mem_block_end ≡ h.mem_block_end
kmalloc_end h h' p true r e = ap (λ (x : ℕ × Heap). x.1.mem_block_end) (sym (some_inj.0 e))
kmalloc_end h h' p false none e = absurd (ground arith)
kmalloc_end h h' p false (some (q, w)) e =
    ap (λ (x : ℕ × Heap). x.1.mem_block_end) (sym (some_inj.0 e))

kmalloc-end :
    (size : ℕ) (h h' : Heap) (p : ℕ)
    → kmalloc size h ≡ some (p, h')
    → h'.mem_block_end ≡ h.mem_block_end
unfolding kmalloc
kmalloc-end size h h' p run = kmalloc_end h h' p _ _ run

-- A heap of sections without gaps, of which the last ends at `top`, in a block that ends at `e`.
pub record IsFilled (h : Heap) (e top : ℕ) : Type 0 where
  pub sections : List Section
  pub heap : IsHeap h sections
  pub tight : IsTight top sections
  pub end : h.mem_block_end ≡ e

-- The next request is served at `top`.
abbrev pub Next : (size : ℕ) → Heap → (e top : ℕ) → Type 0
Next size h e top =
    (h' : Heap) × (kmalloc size h ≡ some (top + header, h')) × IsFilled h' e (top + needed size)

request_served :
    (size : ℕ) (h : Heap) (xs : List Section) (top : ℕ)
    → IsHeap h xs
    → IsTight top xs
    → 0 < size
    → size + 12 < 2 ^ 32
    → Serves size h xs (first_fit h.mem_block_end (needed size) xs)
unfolding IsTight
request_served size h [] top heap tight some_size fits = absurd (omega arith)
request_served size h (s ∷ rest) top heap tight some_size fits =
    kmalloc-Serves size h s rest heap some_size fits

pub kmalloc-Next :
    (size : ℕ) (h : Heap) (e top : ℕ)
    → IsFilled h e top
    → 0 < size
    → size + 12 < 2 ^ 32
    → top + needed size ≤ e
    → Next size h e top
kmalloc-Next size h e top filled some_size fits room =
    let xs = filled.sections in
    let (ys, found, tight, _) =
      first_fit-FitsLast h.mem_block_end (needed size) top xs filled.tight (omega arith)
        (omega (arith, room, filled.end)) in
    let (h', run, heap, _) =
      subst (Serves size h xs) found
        (request_served size h xs top filled.heap filled.tight some_size fits) in
    (
      h',
      run,
      record {
        sections = ys;
        heap = heap;
        tight = tight;
        end = kmalloc-end size h h' (top + header) run ∙ filled.end;
      },
    )

-- The stack in the next allocation.
abbrev pub NextStack : (size : ℕ) → Heap → (e top : ℕ) → Type 0
NextStack size h e top =
    (h' : Heap) × (kmalloc_stack size h ≡ some (stack_top (top + header) size, h'))
    × IsFilled h' e (top + needed (size + 0x20))

pub kmalloc_stack-NextStack :
    (size : ℕ) (h : Heap) (e top : ℕ)
    → IsFilled h e top
    → size + 44 < 2 ^ 32
    → top + needed (size + 0x20) ≤ e
    → NextStack size h e top
unfolding kmalloc_stack
kmalloc_stack-NextStack size h e top filled fits room =
    let xs = filled.sections in
    let (ys, found, tight, _) =
      first_fit-FitsLast h.mem_block_end (needed (size + 0x20)) top xs filled.tight (omega arith)
        (omega (arith, room, filled.end)) in
    let (h', run, heap, _) = subst (Serves (size + 0x20) h xs) found (
      request_served (size + 0x20) h xs top filled.heap filled.tight (omega arith) (omega arith)) in
    let (low, within) =
      first_fit_bounds h.word_at h.mem_block_end (needed (size + 0x20)) h.mem_block_start top xs ys
        filled.heap.chain found in
    let high = filled.heap.high in
    let bound = filled.heap.bound in
    let a = top + header in
    let request : u32 (size + 0x20) ≡ size + 0x20 = omega arith in
    let there : (a == 0) ≡ false = ground arith in
    let (pointer, stack) = stack_pointer_lem a size (omega arith) in
    let slot = stack_top a size + 0x10 in
    (
      record h' { word_at = update h'.word_at slot a },
      rw (request, run, there, pointer, stack) refl,
      record {
        sections = ys;
        heap = record {
          chain =
              IsChain-written h'.word_at h'.mem_block_end h'.mem_block_start slot a ys heap.chain (
                first_fit-InData h.mem_block_end (needed (size + 0x20)) top slot xs ys found
                  (omega arith) (omega arith));
          high = heap.high;
          bound = heap.bound;
        };
        tight = tight;
        end = kmalloc-end (size + 0x20) h h' a run ∙ filled.end;
      },
    )
