-- ===== src/Pages.antt =====
-- memalloc.c on rv32: the pages, of which nothing calls the functions. A page in every run of 1024 is a
-- section with a word for each page of the run: 0 for one that was never given out, 1 for one that is
-- in use, and else the next free page. Memory is read and written a word at a time.
-- The address of a page and of its entry are taken to lie within the address space, as pointers into one
-- block do in C.
pub mod Clear
pub mod Free
pub mod Fresh
pub mod RoundTrip
use echelon_sbi.Base.{
  ℕ, zero, suc, ◌+◌, ◌-◌, ◌*◌, ◌/◌, ◌%◌, ◌==◌, ltb, leb, ◌||◌, ◌&&◌, not, if◌then◌else◌, update,
  u32, word_mod, bit_and, bit_not,
}

abbrev pub page_size : ℕ
page_size = 0x1000

-- `PAGE_SIZE / PAGE_ENTRY_SIZE`
abbrev pub page_entries : ℕ
page_entries = 1024

-- The words of memory, and the globals.
pub record Pages : Type 0 where
  pub word_at : ℕ → ℕ
  pub mem_page_start : ℕ
  pub mem_page_end : ℕ
  pub mem_page_num_allocated : ℕ
  pub mem_page_next_free : ℕ
  pub mem_page_length : ℕ
  pub mem_page_max_length : ℕ

-- `&section[pagearray_index].used_pages[page_index]`
abbrev pub used_pages : (start pagearray_index page_index : ℕ) → ℕ
used_pages start pagearray_index page_index = start + pagearray_index * page_size + page_index * 4

-- So many words from `at` on become zero.
unfoldable pub clear_words : (count at : ℕ) (word_at : ℕ → ℕ) → ℕ → ℕ
clear_words zero at word_at = word_at
clear_words (suc count) at word_at = clear_words count (at + 4) (update word_at at 0)

-- `memset(page_location, 0, PAGE_SIZE)`
unfoldable pub clear_page : (page_location : ℕ) (word_at : ℕ → ℕ) → ℕ → ℕ
clear_page page_location word_at = clear_words page_entries page_location word_at

-- An empty section: its own page is in use.
unfoldable pub empty_section : (start pagearray_index : ℕ) (word_at : ℕ → ℕ) → ℕ → ℕ
empty_section start pagearray_index word_at =
    clear_words 1023 (used_pages start pagearray_index 1)
      (update word_at (used_pages start pagearray_index 0) 1)

-- The page behind the one that `block_start` lies in, or behind it.
unfoldable pub first_page : (block_start : ℕ) → ℕ
first_page block_start =
    let aligned =
      if not (block_start % page_size == 0)
      then u32 (block_start + (page_size - block_start % page_size))
      else block_start in
    u32 (aligned + page_size)

unfoldable pub kalloc_pageinit : (block_start block_end : ℕ) → Pages → Pages
kalloc_pageinit block_start block_end p =
    let start = first_page block_start in
    let end = bit_and block_end (bit_not 0xFFF) in
    if ltb start block_start || leb end start
    then record p { mem_page_next_free = 0 }
    else record p {
      word_at = empty_section start 0 p.word_at;
      mem_page_start = start;
      mem_page_end = end;
      mem_page_num_allocated = 0;
      mem_page_next_free = 1;
      mem_page_length = 1;
      mem_page_max_length = u32 (start + word_mod - end) / page_size;
    }

-- A page that was never given out; `marked` is memory with its entry set.
unfoldable pub take_fresh : (page_location pagearray_index : ℕ) (marked : ℕ → ℕ) → Pages → Pages
take_fresh page_location pagearray_index marked p =
    let own = used_pages p.mem_page_start pagearray_index 0 in
    let counted = update marked own (u32 (marked own + 1)) in
    let next = u32 (p.mem_page_next_free + 1) in
    let len = u32 (p.mem_page_length + 1) in
    let taken = u32 (p.mem_page_num_allocated + 1) in
    if not (next % page_entries == 0)
    then record p {
      word_at = clear_page page_location counted;
      mem_page_num_allocated = taken;
      mem_page_next_free = next;
      mem_page_length = len;
    }
    else if len == p.mem_page_max_length
    then record p {
      word_at = clear_page page_location (update counted own 0);
      mem_page_num_allocated = taken;
      mem_page_next_free = 0;
      mem_page_length = len;
    }
    else record p {
      word_at =
          clear_page page_location
            (empty_section p.mem_page_start (pagearray_index + 1) (update counted own 0));
      mem_page_num_allocated = taken;
      mem_page_next_free = u32 (next + 1);
      mem_page_length = u32 (len + 1);
    }

-- A page that was freed; its entry was the next free page.
unfoldable pub take_freed :
    (page_location pagearray_index page_entry : ℕ) (marked : ℕ → ℕ) → Pages → Pages
take_freed page_location pagearray_index page_entry marked p =
    let first =
      if page_entry / page_entries == pagearray_index then page_entry % page_entries else 0 in
    record p {
      word_at =
          clear_page page_location
            (update marked (used_pages p.mem_page_start pagearray_index 0) first);
      mem_page_num_allocated = u32 (p.mem_page_num_allocated + 1);
      mem_page_next_free = page_entry;
    }

unfoldable pub kalloc_page : Pages → ℕ × Pages
kalloc_page p =
    let page_location = p.mem_page_start + p.mem_page_next_free * page_size in
    let pagearray_index = p.mem_page_next_free / page_entries in
    let at = used_pages p.mem_page_start pagearray_index (p.mem_page_next_free % page_entries) in
    let page_entry = p.word_at at in
    let marked = update p.word_at at 1 in
    if p.mem_page_next_free == 0
    then (0, p)
    else if not (page_entry == 0)
    then (page_location, take_freed page_location pagearray_index page_entry marked p)
    else if p.mem_page_length == p.mem_page_max_length
    then (0, record p { word_at = update marked at 0 })
    else (page_location, take_fresh page_location pagearray_index marked p)
