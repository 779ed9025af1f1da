-- ===== src/Allocator/Requests.antt =====
-- kmalloc and kallocinit as a whole (memalloc.c).
use echelon_sbi.Base.{
  ℕ, zero, suc, ◌+◌, ◌-◌, ◌*◌, ◌/◌, ◌^◌, ◌≤◌, ◌<◌, ◌≡◌, refl, Bool, true, false, ◌==◌, ◌||◌, ltb,
  leb, if◌then◌else◌, Option, none, some, List, [], ◌∷◌, length, u32, arith, ◌∙◌,
}
use echelon_sbi.Allocator.{
  Heap, header, next_field, kmalloc_loop, kmalloc, round_up, rounds, option_map, with_words,
  kallocinit,
}
use echelon_sbi.Allocator.Sections.{Section, section, IsChain, keep, first_fit}
use echelon_sbi.Allocator.Allocate.{IsPlaced}
use echelon_sbi.Allocator.Round.{chain_round, limits, keep-none}
use echelon_sbi.Allocator.Search.{kmalloc_loop-Finds, far_lem}

-- Every section takes a header's room, so that the rounds are enough.
pub length-chain :
    (w : ℕ → ℕ) (e first : ℕ) (xs : List Section) → IsChain w e first xs → length xs ≤ e - first
unfolding IsChain
length-chain w e first [] c = omega arith
length-chain w e first (s ∷ []) (at, room, c) = omega (arith, far_lem first e s room.0 room.1)
length-chain w e first (s ∷ t ∷ rest) (at, room, c) = omega (
  arith,
  far_lem first t.address s room.0 room.1,
  c.0.0,
  length-chain w e (w (next_field first)) (t ∷ rest) c,
)

pick_none :
    (b : Bool) (here : ℕ × List Section) (s : Section) (r : Option (ℕ × List Section))
    → (if b then some here else keep s r) ≡ none
    → (b ≡ false) × (r ≡ none)
pick_none true here s r e = absurd (ground arith)
pick_none false here s r e = (refl, keep-none s r e)

either_way : {A : Type 0} (b : Bool) (p r : A) → (b ≡ false → r ≡ p) → (if b then p else r) ≡ p
either_way true p r same = refl
either_way false p r same = same refl

kmalloc_loop-full :
    (fuel e size first : ℕ) (w : ℕ → ℕ) (s : Section) (rest : List Section)
    → IsChain w e first (s ∷ rest)
    → length (s ∷ rest) ≤ fuel
    → e < 2 ^ 32
    → 2 ^ 31 ≤ first
    → header ≤ size
    → size < 2 ^ 32
    → first_fit e size (s ∷ rest) ≡ none
    → kmalloc_loop fuel e size first w ≡ some (0, w)
unfolding first_fit IsChain
kmalloc_loop-full zero e size first w s rest c enough bound high large fits full =
    absurd (omega arith)
kmalloc_loop-full (suc fuel) e size first w s [] c enough bound high large fits full =
    let (nofit, _) = pick_none _ _ s none full in
    chain_round w fuel e size first s [] c bound high large fits
    ∙ rw (nofit, c.2)
        (either_way (leb (2 ^ 32) (s.address + s.size + size)) (some (0, w)) (some (0, w))
          λ _. refl)
kmalloc_loop-full (suc fuel) e size first w s (t ∷ rest) c enough bound high large fits full =
    let (nofit, later) = pick_none _ _ s (first_fit e size (t ∷ rest)) full in
    let next = w (next_field first) in
    let (_, _, _, _, covered) = limits w fuel e size first s (t ∷ rest) c bound high large fits in
    let at = c.0.0 in
    let link = c.2.0.0 in
    let wanted =
      kmalloc_loop-full fuel e size next w t rest c.2 (omega arith) bound (omega arith) large fits
        later in
    chain_round w fuel e size first s (t ∷ rest) c bound high large fits
    ∙ rw nofit (
        either_way (leb (2 ^ 32) (s.address + s.size + size)) (some (0, w))
          (if next == 0 then some (0, w) else kmalloc_loop fuel e size next w)
          λ _. either_way (next == 0) (some (0, w)) (kmalloc_loop fuel e size next w) λ _. wanted)

-- The block of a heap holds these sections, and lies in the upper half of the address space, where the
-- board's memory is.
pub record IsHeap (h : Heap) (xs : List Section) : Type 0 where
  pub chain : IsChain h.word_at h.mem_block_end h.mem_block_start xs
  pub high : 2 ^ 31 ≤ h.mem_block_start
  pub bound : h.mem_block_end < 2 ^ 32

-- A request in whole words, with its header.
abbrev pub needed : ℕ → ℕ
needed size = (size + 3) / 4 * 4 + header

round_up_lem : (size : ℕ) → size + 3 < 2 ^ 32 → round_up size ≡ (size + 3) / 4 * 4
unfolding round_up
round_up_lem size fits = ground arith

-- How a request ends, by what the first fit says.
abbrev pub Serves : (size : ℕ) (h : Heap) (xs : List Section) → Option (ℕ × List Section) → Type 0
Serves size h xs none = kmalloc size h ≡ some (0, h)
Serves size h xs (some (new, ys)) =
    (h' : Heap) × (kmalloc size h ≡ some (new + header, h'))
    × IsHeap h' ys
    × IsPlaced h.mem_block_end h.mem_block_start h.word_at h'.word_at xs ys

kmalloc_run :
    (size : ℕ) (h : Heap)
    → 0 < size
    → size + 12 < 2 ^ 32
    → kmalloc size h
      ≡ option_map
          (with_words h)
          (kmalloc_loop (rounds h) h.mem_block_end (needed size) h.mem_block_start h.word_at)
unfolding kmalloc
kmalloc_run size h some_size fits =
    let rounded = (size + 3) / 4 * 4 in
    let whole : u32 (rounded + header) ≡ rounded + header = omega arith in
    let tests : (rounded == 0 || ltb (rounded + header) rounded) ≡ false = ground arith in
    rw (round_up_lem size (omega arith), whole, tests) refl

-- kmalloc returns for every heap with sections and every request of at least a byte that a word can hold
-- with its header. If the first fit on the list of sections finds a place, the result is the address
-- behind the new section's header, the heap then holds exactly the first fit's sections, and the data of
-- every old section is unchanged. If it finds none, the result is zero and the heap is unchanged.
pub kmalloc-Serves :
    (size : ℕ) (h : Heap) (s : Section) (rest : List Section)
    → IsHeap h (s ∷ rest)
    → 0 < size
    → size + 12 < 2 ^ 32
    → Serves size h (s ∷ rest) (first_fit h.mem_block_end (needed size) (s ∷ rest))
kmalloc-Serves size h s rest heap some_size fits =
    go (first_fit h.mem_block_end (needed size) (s ∷ rest)) refl
  where
    go :
        (r : Option (ℕ × List Section))
        → first_fit h.mem_block_end (needed size) (s ∷ rest) ≡ r
        → Serves size h (s ∷ rest) r
    go none full =
        kmalloc_run size h some_size fits
        ∙ rw
            (kmalloc_loop-full (rounds h) h.mem_block_end (needed size) h.mem_block_start h.word_at
              s rest heap.chain
              (omega (
                arith,
                length-chain h.word_at h.mem_block_end h.mem_block_start (s ∷ rest) heap.chain,
              ))
              heap.bound heap.high (omega arith) (omega arith) full)
            refl
    go (some (new, ys)) found =
        let (w', run, p) =
          kmalloc_loop-Finds (rounds h) h.mem_block_end (needed size) h.mem_block_start new
            h.word_at (s ∷ rest) ys heap.chain
            (omega (
              arith,
              length-chain h.word_at h.mem_block_end h.mem_block_start (s ∷ rest) heap.chain,
            ))
            heap.bound heap.high (omega arith) (omega arith) found in
        (
          record h { word_at = w' },
          kmalloc_run size h some_size fits ∙ rw run refl,
          record { chain = p.chain; high = heap.high; bound = heap.bound },
          p,
        )

-- kallocinit of a block in the upper half of the address space, with room for a header, makes it a
-- heap of one empty section.
pub kallocinit-IsHeap :
    (block_start block_end : ℕ) (h : Heap)
    → 2 ^ 31 ≤ block_start
    → block_start + header ≤ block_end
    → block_end < 2 ^ 32
    → IsHeap (kallocinit block_start block_end h) (section block_start 0 ∷ [])
unfolding kallocinit IsChain
kallocinit-IsHeap a e h high room bound =
    let ordered : ltb e a ≡ false = ground arith in
    let large : ltb (e - a) header ≡ false = ground arith in
    rw (ordered, large)
      (record {
        chain = ((refl, ground arith, omega arith), (refl, room, omega arith), ground arith);
        high = high;
        bound = bound;
      })
