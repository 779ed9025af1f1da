-- ===== src/Allocator/RoundTrip.antt =====
-- kmalloc followed by kfree (memalloc.c).
use mathlib.Core.Path.{subst, sym, ap, ◌∙◌}
use echelon_sbi.Base.{
  ℕ, ◌+◌, ◌-◌, ◌^◌, ◌<◌, ◌≡◌, ◌≢◌, refl, Bool, true, false, inl, inr, ◌==◌, if◌then◌else◌, some,
  List, [], ◌∷◌, arith,
}
use echelon_sbi.Allocator.{Heap, header, next_field, kmalloc, kfree}
use echelon_sbi.Allocator.Sections.{Section, section, limit, IsChain, behind, first_fit}
use echelon_sbi.Allocator.Round.{pick, first_fit_bounds, later_link}
use echelon_sbi.Allocator.Search.{far_lem, rest_of}
use echelon_sbi.Allocator.Requests.{IsHeap, Serves, needed, kmalloc-Serves}
use echelon_sbi.Allocator.Free.{remove, release}
use echelon_sbi.Allocator.Pointers.{kfree-IsHeap}

-- No section is empty.
unfoldable pub AllUsed : List Section → Type 0
AllUsed [] = Unit
AllUsed (s ∷ rest) = (s.size ≢ 0) × AllUsed rest

-- A place further on is above the section.
above :
    (w : ℕ → ℕ) (e size first new : ℕ) (s : Section) (rest zs : List Section)
    → IsChain w e first (s ∷ rest)
    → first_fit e size rest ≡ some (new, zs)
    → (s.address == new) ≡ false
unfolding IsChain
above w e size first new s rest zs c found =
    let at = c.0.0 in
    let far = far_lem first (limit e rest) s c.1.0 c.1.1 in
    let (link, _) = later_link w e size (w (next_field first)) new rest zs c.2 found in
    let (low, _) = first_fit_bounds w e size (w (next_field first)) new rest zs c.2 found in
    ground arith

remove_behind :
    (new size : ℕ) (rest : List Section) → size ≢ 0 → remove new (section new size ∷ rest) ≡ rest
unfolding remove
remove_behind new size rest some_size = ground arith

miss_remove :
    (new : ℕ) (s : Section) (ys : List Section)
    → (s.address == new) ≡ false
    → remove new (s ∷ ys) ≡ s ∷ remove new ys
unfolding remove
miss_remove new s ys miss = rw miss refl

remove-first_fit :
    (w : ℕ → ℕ) (e size first new : ℕ) (xs ys : List Section)
    → IsChain w e first xs
    → AllUsed xs
    → size ≢ 0
    → first_fit e size xs ≡ some (new, ys)
    → remove new ys ≡ xs
unfolding first_fit AllUsed
remove-first_fit w e size first new [] ys c used some_size found = absurd (ground arith)
remove-first_fit w e size first new (s ∷ rest) ys c used some_size found =
    elim (pick _ _ new _ ys s (first_fit e size rest) found) [
      | inl (here, same, list) ↦
          let sized : (s.size == 0) ≡ false = ground (arith, used.0) in
          let miss : (s.address == (s.address + s.size)) ≡ false = ground (arith, used.0) in
          subst (λ l. remove new l ≡ s ∷ rest) list
            (subst (λ n. remove n (behind s size rest) ≡ s ∷ rest) same
              (rw sized (
                miss_remove (s.address + s.size) s (section (s.address + s.size) size ∷ rest) miss
                ∙ ap (λ (l : List Section). s ∷ l)
                    (remove_behind (s.address + s.size) size rest some_size))))
      | inr (full, (zs, later, list)) ↦
          subst (λ l. remove new l ≡ s ∷ rest) list
            (miss_remove new s zs (above w e size first new s rest zs c later)
              ∙ ap (λ (l : List Section). s ∷ l)
                  (remove-first_fit w e size (w (next_field first)) new rest zs
                    (rest_of w e first s rest c) used.1 some_size later))
    ]

same_section :
    (s : Section) (rest : List Section) → s.size ≡ 0 → section s.address 0 ∷ rest ≡ s ∷ rest
same_section s rest empty = ap (λ (n : ℕ). section s.address n ∷ rest) (sym empty)

-- The first section may be empty, and is then taken over and given back.
release-first_fit :
    (w : ℕ → ℕ) (e size first new : ℕ) (s : Section) (rest ys : List Section)
    → IsChain w e first (s ∷ rest)
    → AllUsed rest
    → size ≢ 0
    → first_fit e size (s ∷ rest) ≡ some (new, ys)
    → release new ys ≡ s ∷ rest
unfolding first_fit release
release-first_fit w e size first new s rest ys c used some_size found =
    elim (pick _ _ new _ ys s (first_fit e size rest) found) [
      | inl (here, same, list) ↦
          subst (λ l. release new l ≡ s ∷ rest) list
            (subst (λ n. release n (behind s size rest) ≡ s ∷ rest) same
              (placed (s.size == 0) refl))
      | inr (full, (zs, later, list)) ↦
          subst (λ l. release new l ≡ s ∷ rest) list
            (rw (above w e size first new s rest zs c later) (
              ap (λ (l : List Section). s ∷ l)
                (remove-first_fit w e size (w (next_field first)) new rest zs
                  (rest_of w e first s rest c) used some_size later)))
    ]
  where
    placed :
        (b : Bool)
        → (s.size == 0) ≡ b
        → release (s.address + s.size) (
            if b
            then section s.address size ∷ rest
            else s ∷ section (s.address + s.size) size ∷ rest)
          ≡ s ∷ rest
    placed true empty =
        let hit : (s.address == (s.address + s.size)) ≡ true = ground (arith, empty) in
        rw hit (same_section s rest (ground (arith, empty)))
    placed false sized =
        let miss : (s.address == (s.address + s.size)) ≡ false = ground (arith, sized) in
        rw miss (
          ap (λ (l : List Section). s ∷ l) (remove_behind (s.address + s.size) size rest some_size))

free_new :
    (new : ℕ) (h : Heap) (ys xs : List Section)
    → IsHeap h ys
    → new + header < 2 ^ 32
    → release new ys ≡ xs
    → (h' : Heap) × (kfree (new + header) h ≡ some h') × IsHeap h' xs
unfolding IsChain
free_new new h [] xs heap fits back =
    let low = heap.chain in let high = heap.high in absurd (omega arith)
free_new new h (y ∷ ys) xs heap fits back =
    let (h', run, left) = kfree-IsHeap (new + header) h y ys heap (omega arith) fits in
    let same : new + header - header ≡ new = omega arith in
    (h', run, subst (IsHeap h') back (subst (λ n. IsHeap h' (release n (y ∷ ys))) same left))

-- A request that is served and then freed leaves the heap with the sections that it had.
abbrev pub GivesBack : (size : ℕ) (h : Heap) (xs : List Section) → Type 0
GivesBack size h xs =
    (p : ℕ) × (h' : Heap) × (kmalloc size h ≡ some (p, h'))
    × (p ≢ 0)
    × (h'' : Heap) × (kfree p h' ≡ some h'')
    × IsHeap h'' xs

-- If the sections behind the first of a heap are in use, and the first fit finds a place for a request
-- of at least a byte that a word can hold with its header, then kmalloc returns a pointer other than
-- zero, kfree of that pointer returns, and the heap then holds exactly the sections that it held before.
pub kmalloc-GivesBack :
    (size new : ℕ) (h : Heap) (s : Section) (rest ys : List Section)
    → IsHeap h (s ∷ rest)
    → AllUsed rest
    → 0 < size
    → size + 12 < 2 ^ 32
    → first_fit h.mem_block_end (needed size) (s ∷ rest) ≡ some (new, ys)
    → GivesBack size h (s ∷ rest)
kmalloc-GivesBack size new h s rest ys heap used some_size fits found =
    let xs = s ∷ rest in
    let (h', run, heap', _) =
      subst (Serves size h xs) found (kmalloc-Serves size h s rest heap some_size fits) in
    let (low, within) =
      first_fit_bounds h.word_at h.mem_block_end (needed size) h.mem_block_start new xs ys
        heap.chain found in
    let high = heap.high in
    let bound = heap.bound in
    let back =
      release-first_fit h.word_at h.mem_block_end (needed size) h.mem_block_start new s rest ys
        heap.chain used (λ none. omega arith) found in
    let (h'', freed, left) = free_new new h' ys xs heap' (omega arith) back in
    (new + header, h', run, λ zero_pointer. omega arith, h'', freed, left)
