-- ===== src/Allocator.antt =====
-- memalloc.c on rv32: a block of memory with a list of sections, each with a header of two words, its
-- size (the header included) and the address of the next section. Memory is read and written a word
-- at a time. The loops run on fuel, and give `none` if it runs out.
pub mod Sections
pub mod Allocate
pub mod Round
pub mod Search
pub mod Requests
pub mod Free
pub mod Pointers
pub mod RoundTrip
pub mod Stacks
pub mod Written
pub mod InOrder
use echelon_sbi.Base.{
  ℕ, zero, suc, ◌+◌, ◌-◌, ◌%◌, ◌==◌, ltb, leb, ◌||◌, not, if◌then◌else◌, Option, none, some, update,
  u32, word_mod, bit_and, bit_not,
}

-- The words of memory, and the globals.
pub record Heap : Type 0 where
  pub word_at : ℕ → ℕ
  pub mem_block_start : ℕ
  pub mem_block_end : ℕ

-- `sizeof(struct alloc_section)`, and the offset of its second field.
abbrev pub header : ℕ
header = 8

abbrev pub next_field : ℕ → ℕ
next_field section = section + 4

-- As many rounds as the block has bytes are more than it has sections.
abbrev pub rounds : Heap → ℕ
rounds h = suc (h.mem_block_end - h.mem_block_start)

unfoldable pub kallocinit : (block_start block_end : ℕ) → Heap → Heap
kallocinit block_start block_end h =
    if ltb block_end block_start
    then h
    else if ltb (block_end - block_start) header
    then h
    else record h {
      mem_block_start = block_start;
      mem_block_end = block_end;
      word_at = update (update h.word_at block_start 0) (next_field block_start) 0;
    }

-- A request in whole words.
unfoldable pub round_up : ℕ → ℕ
round_up size = if not (size % 4 == 0) then u32 (size + (4 - size % 4)) else size

-- The section behind `section`, which takes its place if that one is empty.
unfoldable pub place : (word_at : ℕ → ℕ) (section new size next : ℕ) → ℕ → ℕ
place word_at section new size next =
    update (update (update word_at (next_field section) new) new size) (next_field new) next

-- The `while` of kmalloc, for a size with the header; it gives the result and the memory.
unfoldable pub kmalloc_loop :
    (fuel block_end size section : ℕ) (word_at : ℕ → ℕ) → Option (ℕ × (ℕ → ℕ))
unfolding place
kmalloc_loop zero block_end size section word_at = none
kmalloc_loop (suc fuel) block_end size section word_at =
    let used = word_at section in
    let next = word_at (next_field section) in
    let rest = kmalloc_loop fuel block_end size next word_at in
    let new = u32 (section + used) in
    if not (ltb section block_end)
    then some (0, word_at)
    else if ltb (u32 (section + size)) section
    then some (0, word_at)
    else if ltb (u32 (section + used + size)) section
    then some (0, word_at)
    else if next == 0
    then if leb (u32 (section + used + size)) block_end
      then some (u32 (new + header), place word_at section new size 0)
      else some (0, word_at)
    else if leb (u32 (section + used + size)) next
    then some (u32 (new + header), place word_at section new size next)
    else rest

abbrev pub with_words : Heap → ℕ × (ℕ → ℕ) → ℕ × Heap
with_words h (p, word_at) = (p, record h { word_at = word_at })

abbrev pub option_map : {A B : Type 0} → (A → B) → Option A → Option B
option_map f none = none
option_map f (some a) = some (f a)

abbrev pub option_bind : {A B : Type 0} → Option A → (A → Option B) → Option B
option_bind none k = none
option_bind (some a) k = k a

unfoldable pub kmalloc : (size : ℕ) → Heap → Option (ℕ × Heap)
kmalloc size h =
    let rounded = round_up size in
    if rounded == 0 || ltb (u32 (rounded + header)) rounded
    then some (0, h)
    else option_map (with_words h) (
        kmalloc_loop (rounds h) h.mem_block_end (u32 (rounded + header)) h.mem_block_start
          h.word_at)

-- The `while` of kfree, with 0 for no previous section.
unfoldable pub kfree_loop :
    (fuel block_end target section prev_section : ℕ) (word_at : ℕ → ℕ) → Option (ℕ → ℕ)
kfree_loop zero block_end target section prev_section word_at = none
kfree_loop (suc fuel) block_end target section prev_section word_at =
    let next = word_at (next_field section) in
    let rest = kfree_loop fuel block_end target next section word_at in
    if not (ltb section block_end)
    then some word_at
    else if section == target
    then if word_at section == 0
      then some word_at
      else if prev_section == 0
      then some (update word_at section 0)
      else some (update (update word_at section 0) (next_field prev_section) next)
    else if next == 0
    then some word_at
    else rest

unfoldable pub kfree : (ptr : ℕ) → Heap → Option Heap
kfree ptr h =
    let target = u32 (ptr + word_mod - header) in
    if ltb target h.mem_block_start || leb h.mem_block_end target
    then some h
    else option_map (λ word_at. record h { word_at = word_at })
        (kfree_loop (rounds h) h.mem_block_end target h.mem_block_start 0 h.word_at)

-- A stack is an allocation with the allocation's address kept above its top.
unfoldable pub kmalloc_stack : (size : ℕ) → Heap → Option (ℕ × Heap)
kmalloc_stack size h = option_bind (kmalloc (u32 (size + 0x20)) h) λ (allocation, h').
    if allocation == 0
    then some (0, h')
    else (let stack_pointer = bit_and (u32 (allocation + size + 0x10)) (bit_not 0xf) in
        some (
          u32 (stack_pointer + word_mod - 0x10),
          record h' { word_at = update h'.word_at stack_pointer allocation },
        ))

unfoldable pub kfree_stack : (ptr : ℕ) → Heap → Option Heap
kfree_stack ptr h = if ptr == 0 then some h else kfree (h.word_at (u32 (ptr + 0x10))) h
