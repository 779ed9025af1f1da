-- ===== src/Pages/Fresh.antt =====
-- memalloc.c: pages that are given out one after the other, none of them freed.
use echelon_sbi.Base.{
  ℕ, zero, suc, ◌+◌, ◌-◌, ◌*◌, ◌/◌, ◌%◌, ◌^◌, ◌≤◌, ◌<◌, ◌≡◌, ◌⊎◌, inl, inr, refl, ap, ◌∙◌, false,
  ◌==◌, ltb, leb, ◌||◌, List, [], ◌∷◌, update, u32, word_mod, bit_and, bit_not, lt_or_le, arith,
}
use mathlib.Core.Path.{subst}
use echelon_sbi.Pages.{
  Pages, page_size, page_entries, used_pages, clear_words, clear_page, empty_section, first_page,
  kalloc_pageinit, take_fresh, kalloc_page,
}
use echelon_sbi.Pages.Clear.{
  clear_words-outside, clear_words-inside, clear_page-outside, clear_page-inside,
}

-- So many calls of kalloc_page.
unfoldable pub take_pages : (count : ℕ) → Pages → List ℕ × Pages
take_pages zero p = ([], p)
take_pages (suc count) p =
    let (a, q) = kalloc_page p in let (others, r) = take_pages count q in (a ∷ others, r)

unfoldable pub pages_from : (at count : ℕ) → List ℕ
pages_from at zero = []
pages_from at (suc count) = at ∷ pages_from (at + page_size) count

-- The pages before `n` were given out, those of the first run from `n` on were not, and `before` is what
-- memory held; the section is the page 0.
pub record IsFresh (start : ℕ) (before : ℕ → ℕ) (n : ℕ) (p : Pages) : Type 0 where
  pub starts : p.mem_page_start ≡ start
  pub some_pages : 0 < n
  pub next : p.mem_page_next_free ≡ n
  pub len : p.mem_page_length ≡ n
  pub allocated : p.mem_page_num_allocated ≡ n - 1
  pub limit : page_entries < p.mem_page_max_length
  pub unused : (j : ℕ) → n ≤ j → j < page_entries → p.word_at (used_pages start 0 j) ≡ 0
  pub cleared : (j : ℕ) → j < (n - 1) * page_entries → p.word_at (start + page_size + j * 4) ≡ 0
  pub kept : (a : ℕ) → (a < start) ⊎ (start + n * page_size ≤ a) → p.word_at a ≡ before a

module _ (start : ℕ) (before : ℕ → ℕ) (n : ℕ) (p : Pages) (fresh : IsFresh start before n p)
    (first_run : suc n < page_entries) where
  abbrev page : ℕ
  page = start + n * page_size

  abbrev marked : ℕ → ℕ
  marked = update p.word_at (used_pages start 0 n) 1

  abbrev counted : ℕ → ℕ
  counted = update marked (used_pages start 0 0) (u32 (marked (used_pages start 0 0) + 1))

  abbrev taken : Pages
  taken = record p {
    word_at = clear_page page counted;
    mem_page_num_allocated = u32 (p.mem_page_num_allocated + 1);
    mem_page_next_free = u32 (n + 1);
    mem_page_length = u32 (n + 1);
  }

  kalloc_page_taken : kalloc_page p ≡ (page, taken)
  unfolding kalloc_page take_fresh
  kalloc_page_taken =
      let run : n / page_entries ≡ 0 = omega (arith, first_run) in
      let rest : n % page_entries ≡ n = omega (arith, first_run) in
      let some_page : (n == 0) ≡ false = ground (arith, fresh.some_pages) in
      let free : p.word_at (used_pages start 0 n) ≡ 0 =
        fresh.unused n (omega arith) (omega arith) in
      let room : (n == p.mem_page_max_length) ≡ false = ground (arith, fresh.limit) in
      let within : (u32 (n + 1) % page_entries == 0) ≡ false = ground arith in
      rw (fresh.next, fresh.starts, fresh.len, run, rest, some_page, free, room, within) refl

  -- Outside of the page only the two entries have changed.
  taken_outside : (a : ℕ) → (a < page) ⊎ (page + page_size ≤ a) → taken.word_at a ≡ counted a
  taken_outside a out = clear_page-outside page counted a out

  taken-unused : (j : ℕ) → suc n ≤ j → j < page_entries → taken.word_at (used_pages start 0 j) ≡ 0
  taken-unused j after below =
      let some_pages = fresh.some_pages in
      let unused = fresh.unused j (omega arith) below in
      taken_outside (used_pages start 0 j) (inl (omega arith)) ∙ ground arith

  taken-cleared :
      (j : ℕ) → j < (suc n - 1) * page_entries → taken.word_at (start + page_size + j * 4) ≡ 0
  taken-cleared j below =
      let some_pages = fresh.some_pages in
      elim (lt_or_le j ((n - 1) * page_entries)) [
        | inl earlier ↦
            let cleared = fresh.cleared j earlier in
            taken_outside (start + page_size + j * 4) (inl (omega arith)) ∙ ground arith
        | inr here ↦
            ap taken.word_at (omega arith)
            ∙ clear_page-inside page counted (j - (n - 1) * page_entries) (omega arith)
      ]

  taken-kept : (a : ℕ) → (a < start) ⊎ (start + suc n * page_size ≤ a) → taken.word_at a ≡ before a
  taken-kept a out =
      let some_pages = fresh.some_pages in
      let kept = fresh.kept a (ground arith) in taken_outside a (ground arith) ∙ ground arith

  taken-IsFresh : IsFresh start before (suc n) taken
  taken-IsFresh = record {
    starts = fresh.starts;
    some_pages = omega arith;
    next = omega arith;
    len = omega arith;
    allocated = ground (arith, fresh.allocated, fresh.some_pages);
    limit = fresh.limit;
    unused = taken-unused;
    cleared = taken-cleared;
    kept = taken-kept;
  }

take_pages-IsFresh :
    (start : ℕ) (before : ℕ → ℕ) (count n : ℕ) (p : Pages)
    → IsFresh start before n p
    → n + count < page_entries
    → ((take_pages count p).0 ≡ pages_from (start + n * page_size) count)
      × IsFresh start before (n + count) (take_pages count p).1
unfolding take_pages pages_from
take_pages-IsFresh start before zero n p fresh room =
    (refl, subst (λ k. IsFresh start before k p) (omega arith) fresh)
take_pages-IsFresh start before (suc count) n p fresh room =
    let run = kalloc_page_taken start before n p fresh (omega arith) in
    let q = taken start before n p fresh (omega arith) in
    let (list, fresh') =
      take_pages-IsFresh start before count (suc n) q
        (taken-IsFresh start before n p fresh (omega arith)) (omega arith) in
    rw run (
      ap (λ (l : List ℕ). (start + n * page_size) ∷ l)
          (list ∙ ap (λ (a : ℕ). pages_from a count) (omega arith)),
      subst (λ k. IsFresh start before k (take_pages count q).1) (omega arith) fresh',
    )

-- The words of the first section, and what was there before.
init_word :
    (start : ℕ) (before : ℕ → ℕ) (j : ℕ)
    → 0 < j
    → j < page_entries
    → empty_section start 0 before (used_pages start 0 j) ≡ 0
unfolding empty_section
init_word start before j some_page below =
    ap (clear_words 1023 (used_pages start 0 1) (update before (used_pages start 0 0) 1))
      (omega arith)
    ∙ clear_words-inside 1023 (used_pages start 0 1) _ (j - 1) (omega arith)

init_outside :
    (start : ℕ) (before : ℕ → ℕ) (a : ℕ)
    → (a < start) ⊎ (start + page_size ≤ a)
    → empty_section start 0 before a ≡ before a
unfolding empty_section
init_outside start before a out =
    clear_words-outside 1023 (used_pages start 0 1) _ a (ground arith) ∙ ground arith

-- The room that kalloc_pageinit was given.
abbrev pub room_end : (block_end : ℕ) → ℕ
room_end block_end = bit_and block_end (bit_not 0xFFF)

kalloc_pageinit-IsFresh :
    (block_start block_end : ℕ) (p : Pages)
    → block_start ≤ first_page block_start
    → first_page block_start < room_end block_end
    → room_end block_end ≤ first_page block_start + 2 ^ 31
    → room_end block_end < word_mod
    → IsFresh (first_page block_start) p.word_at 1 (kalloc_pageinit block_start block_end p)
unfolding kalloc_pageinit
kalloc_pageinit-IsFresh block_start block_end p no_wrap room small word =
    let start = first_page block_start in
    let taken : (ltb start block_start || leb (room_end block_end) start) ≡ false = ground arith in
    rw taken (record {
      starts = refl;
      some_pages = omega arith;
      next = refl;
      len = refl;
      allocated = refl;
      limit = omega (arith, room, small, word);
      unused = λ j after below. init_word start p.word_at j after below;
      cleared = λ j below. absurd (omega arith);
      kept = λ a out. init_outside start p.word_at a (ground arith);
    })

-- The pages in order, and what memory holds then.
abbrev pub Takes : (block_start block_end count : ℕ) → Pages → Type 0
Takes block_start block_end count p =
    ((take_pages count (kalloc_pageinit block_start block_end p)).0
      ≡ pages_from (first_page block_start + page_size) count)
    × IsFresh (first_page block_start) p.word_at (suc count)
        (take_pages count (kalloc_pageinit block_start block_end p)).1

-- If kalloc_pageinit is given a block that has room for a section, and that is no longer than 2 GiB, the
-- next 1022 calls of kalloc_page at most give the pages behind the section one after the other, each
-- with its words zero at the end, and change no word in front of the section or behind the last page
-- that was given: whether the block holds as many pages or not, as long as the last page ends within
-- the address space.
pub take_pages-pages_from :
    (block_start block_end count : ℕ) (p : Pages)
    → block_start ≤ first_page block_start
    → first_page block_start < room_end block_end
    → room_end block_end ≤ first_page block_start + 2 ^ 31
    → room_end block_end < word_mod
    → count < 1023
    → first_page block_start + suc count * page_size ≤ word_mod
    → Takes block_start block_end count p
take_pages-pages_from block_start block_end count p no_wrap room small word few reachable =
    let (list, fresh) =
      take_pages-IsFresh (first_page block_start) p.word_at count 1
        (kalloc_pageinit block_start block_end p)
        (kalloc_pageinit-IsFresh block_start block_end p no_wrap room small word) (omega arith) in
    (
      list ∙ ap (λ (a : ℕ). pages_from a count) (omega arith),
      subst
          (λ k.
            IsFresh (first_page block_start) p.word_at k
              (take_pages count (kalloc_pageinit block_start block_end p)).1)
          (omega arith) fresh,
    )
