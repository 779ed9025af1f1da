-- ===== src/Allocator/Pointers.antt =====
-- kfree as a whole (memalloc.c).
use mathlib.Core.Path.{subst, sym, ap, ◌∙◌}
use echelon_sbi.Base.{
  ℕ, zero, suc, ◌+◌, ◌-◌, ◌^◌, ◌≤◌, ◌<◌, ◌≡◌, ◌≢◌, refl, true, false, Bool-cases, inl, inr, ◌⊎◌,
  ◌==◌, ◌||◌, ltb, leb, lt→ltb, if◌then◌else◌, some, List, [], ◌∷◌, length, update, u32, word_mod,
  arith,
}
use echelon_sbi.Allocator.{Heap, header, next_field, kfree_loop, kfree, rounds}
use echelon_sbi.Allocator.Sections.{Section, section, limit, IsChain}
use echelon_sbi.Allocator.Allocate.{IsChain-beyond}
use echelon_sbi.Allocator.Search.{link_kept, far_lem}
use echelon_sbi.Allocator.Requests.{IsHeap, length-chain}
use echelon_sbi.Allocator.Free.{remove, release, kfree_loop-Removes}

apart :
    (a target first e : ℕ)
    → first ≡ a
    → first < e
    → (target < first) ⊎ (e ≤ target)
    → (a == target) ≡ false
apart a target first e at before out = ground arith

-- No section is outside of the block.
remove_outside :
    (w : ℕ → ℕ) (e first target : ℕ) (xs : List Section)
    → IsChain w e first xs
    → (target < first) ⊎ (e ≤ target)
    → remove target xs ≡ xs
unfolding remove IsChain
remove_outside w e first target [] c out = refl
remove_outside w e first target (s ∷ []) c out =
    rw (apart s.address target first e c.0.0 (omega (arith, far_lem first e s c.1.0 c.1.1)) out)
      refl
remove_outside w e first target (s ∷ t ∷ rest) c out =
    let far = far_lem first t.address s c.1.0 c.1.1 in
    let link = c.2.0.0 in
    let further : (target < w (next_field first)) ⊎ (e ≤ target) = ground arith in
    rw (apart s.address target first e c.0.0 (omega arith) out) (
      ap (λ (ys : List Section). s ∷ ys)
        (remove_outside w e (w (next_field first)) target (t ∷ rest) c.2 further))

-- The first section is emptied.
empty-IsChain :
    (w : ℕ → ℕ) (e first : ℕ) (s : Section) (rest : List Section)
    → IsChain w e first (s ∷ rest)
    → IsChain (update w first 0) e first (section s.address 0 ∷ rest)
unfolding IsChain
empty-IsChain w e first s rest c =
    let (at, used, positive) = c.0 in
    let (wide, room, inside) = c.1 in
    let far = far_lem first (limit e rest) s wide room in
    let tail =
      IsChain-beyond w (update w first 0) e (w (next_field first)) rest c.2
        λ x le. off first x (omega arith) in
    (
      (at, here first, positive),
      (refl, far, inside),
      subst (λ n. IsChain (update w first 0) e n rest)
          (sym (off first (next_field first) (omega arith))) tail.0,
    )
  where
    off : (a x : ℕ) → x ≢ a → update w a 0 x ≡ w x
    off a x ne = ground arith

    here : (a : ℕ) → update w a 0 a ≡ 0
    here a = ground arith

abbrev Released : (fuel e target first : ℕ) (w : ℕ → ℕ) (xs : List Section) → Type 0
Released fuel e target first w xs =
    (w' : ℕ → ℕ) × (kfree_loop fuel e target first 0 w ≡ some w') × IsChain w' e first xs

module _ (fuel e target first : ℕ) (w : ℕ → ℕ) (s : Section) (rest : List Section)
    (c : IsChain w e first (s ∷ rest)) where
  first_round : kfree_loop (suc fuel) e target first 0 w ≡ (
      if s.address == target
      then if s.size == 0 then some w else some (update w first 0)
      else if w (next_field first) == 0
      then some w
      else kfree_loop fuel e target (w (next_field first)) first w)
  unfolding kfree_loop IsChain
  first_round =
      let (at, used, positive) = c.0 in
      let far = far_lem first (limit e rest) s c.1.0 c.1.1 in
      let within = c.1.2 in
      let inside : ltb first e ≡ true = lt→ltb first e (omega arith) in rw (inside, used, at) refl

  emptied : s.size ≡ 0 → IsChain w e first (section s.address 0 ∷ rest)
  unfolding IsChain
  emptied size =
      let (at, used, positive) = c.0 in
      ((at, used ∙ size, positive), (refl, far_lem first (limit e rest) s c.1.0 c.1.1, c.1.2), c.2)

  first_hit :
      (s.address == target) ≡ true
      → Released (suc fuel) e target first w (release target (s ∷ rest))
  unfolding release
  first_hit hit = elim (Bool-cases (s.size == 0)) [
    | inl empty ↦ (w, first_round ∙ rw (hit, empty) refl, rw hit (emptied (ground arith)))
    | inr sized ↦ (
      update w first 0,
      first_round ∙ rw (hit, sized) refl,
      rw hit (empty-IsChain w e first s rest c),
    )
  ]

first-Released :
    (fuel e target first : ℕ) (w : ℕ → ℕ) (s : Section) (rest : List Section)
    → IsChain w e first (s ∷ rest)
    → length (s ∷ rest) ≤ fuel
    → Released fuel e target first w (release target (s ∷ rest))
unfolding release IsChain
first-Released zero e target first w s rest c enough = absurd (omega arith)
first-Released (suc fuel) e target first w s [] c enough = elim (Bool-cases (s.address == target)) [
  | inl hit ↦ first_hit fuel e target first w s [] c hit
  | inr miss ↦ (w, first_round fuel e target first w s [] c ∙ rw (miss, c.2) refl, rw miss c)
]
first-Released (suc fuel) e target first w s (n ∷ rest) c enough =
    elim (Bool-cases (s.address == target)) [
      | inl hit ↦ first_hit fuel e target first w s (n ∷ rest) c hit
      | inr miss ↦
          let (w', run, d, below) =
            kfree_loop-Removes fuel e target first s w n rest c (omega arith) in
          (
            w',
            first_round fuel e target first w s (n ∷ rest) c
                ∙ rw (miss, link_kept (w (next_field first)) c.2.0.2) run,
            rw miss d,
          )
    ]

release_outside :
    (w : ℕ → ℕ) (e first target : ℕ) (s : Section) (rest : List Section)
    → IsChain w e first (s ∷ rest)
    → (target < first) ⊎ (e ≤ target)
    → release target (s ∷ rest) ≡ s ∷ rest
unfolding release remove IsChain
release_outside w e first target s rest c out =
    let far = far_lem first (limit e rest) s c.1.0 c.1.1 in
    let within = c.1.2 in
    let miss = apart s.address target first e c.0.0 (omega arith) out in
    let skipped : remove target (s ∷ rest) ≡ s ∷ remove target rest = rw miss refl in
    rw miss (sym skipped ∙ remove_outside w e first target (s ∷ rest) c out)

-- kfree returns for every heap with sections and every pointer at or above a header's size. If the
-- pointer is the data of a section, the heap then holds the sections without that one, where the first
-- section stays as an empty one; for any other pointer, and for a section that is empty already, it
-- holds the sections that it held.
pub kfree-IsHeap :
    (ptr : ℕ) (h : Heap) (s : Section) (rest : List Section)
    → IsHeap h (s ∷ rest)
    → header ≤ ptr
    → ptr < 2 ^ 32
    → (h' : Heap) × (kfree ptr h ≡ some h') × IsHeap h' (release (ptr - header) (s ∷ rest))
unfolding kfree
kfree-IsHeap ptr h s rest heap low fits =
    let target : u32 (ptr + word_mod - header) ≡ ptr - header = omega arith in
    elim (Bool-cases (ltb (ptr - header) h.mem_block_start || leb h.mem_block_end (ptr - header))) [
      | inl out ↦ (
        h,
        rw (target, out) refl,
        subst (IsHeap h)
            (sym (
              release_outside h.word_at h.mem_block_end h.mem_block_start (ptr - header) s rest
                heap.chain (ground arith)))
            heap,
      )
      | inr inside ↦
          let (w', run, c) =
            first-Released (rounds h) h.mem_block_end (ptr - header) h.mem_block_start h.word_at s
              rest heap.chain
              (omega (
                arith,
                length-chain h.word_at h.mem_block_end h.mem_block_start (s ∷ rest) heap.chain,
              )) in
          (
            record h { word_at = w' },
            rw (target, inside, run) refl,
            record { chain = c; high = heap.high; bound = heap.bound },
          )
    ]
