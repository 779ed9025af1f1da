-- ===== src/Pages/RoundTrip.antt =====
-- memalloc.c: a page that is freed is the next one that is given out.
use echelon_sbi.Base.{
  ℕ, ◌+◌, ◌-◌, ◌*◌, ◌/◌, ◌%◌, ◌≤◌, ◌<◌, ◌≡◌, ◌≢◌, ◌⊎◌, refl, ap, ◌∙◌, false, true, ◌==◌, ltb, leb,
  not, ◌||◌, if◌then◌else◌, update, word_mod, arith,
}
use echelon_sbi.Pages.{Pages, page_size, page_entries, used_pages, take_freed, kalloc_page}
use echelon_sbi.Pages.Clear.{clear_page-outside, clear_page-inside}
use echelon_sbi.Pages.Free.{free_first, kfree_page}

-- The address of a page, and of its entry.
abbrev pub page_of : Pages → (i : ℕ) → ℕ
page_of p i = p.mem_page_start + i * page_size

abbrev pub entry_of : Pages → (i : ℕ) → ℕ
entry_of p i = used_pages p.mem_page_start (i / page_entries) (i % page_entries)

abbrev pub own_of : Pages → (i : ℕ) → ℕ
own_of p i = used_pages p.mem_page_start (i / page_entries) 0

-- The page is given out again, its words zero; what is outside of it and its section's two entries
-- is as before.
pub record IsBack (p : Pages) (i : ℕ) (q : Pages) : Type 0 where
  pub next_free : q.mem_page_next_free ≡ p.mem_page_next_free
  pub allocated : q.mem_page_num_allocated ≡ p.mem_page_num_allocated
  pub len : q.mem_page_length ≡ p.mem_page_length
  pub in_use : q.word_at (entry_of p i) ≡ 1
  pub cleared : (j : ℕ) → j < page_entries → q.word_at (page_of p i + j * 4) ≡ 0
  pub kept :
      (a : ℕ)
      → (a < page_of p i) ⊎ (page_of p i + page_size ≤ a)
      → a ≢ entry_of p i
      → a ≢ own_of p i
      → q.word_at a ≡ p.word_at a

abbrev pub GivesBack : Pages → (i : ℕ) → Type 0
GivesBack p i =
    (q : Pages) × (kalloc_page (kfree_page (page_of p i) p) ≡ (page_of p i, q)) × IsBack p i q

module _ (p : Pages) (i : ℕ) (aligned : p.mem_page_start % page_size ≡ 0)
    (ordinary : i % page_entries ≢ 0) (given : i < p.mem_page_next_free) where
  kfree_page_first :
      kfree_page (page_of p i) p ≡ free_first (i / page_entries) (i % page_entries) i p
  unfolding kfree_page
  kfree_page_first =
      let index : (page_of p i - p.mem_page_start) / page_size ≡ i = omega arith in
      let valid : (page_of p i == 0
            || not (page_of p i % page_size == 0)
            || leb (page_of p i) p.mem_page_start
            || i == 0)
          ≡ false =
        ground arith in
      let below : ltb i p.mem_page_next_free ≡ true = ground arith in rw (index, valid, below) refl

  -- The state between the two calls, and after them.
  abbrev between : Pages
  between = free_first (i / page_entries) (i % page_entries) i p

  abbrev after : Pages
  after =
      take_freed (page_of p i) (i / page_entries) p.mem_page_next_free
        (update between.word_at (entry_of p i) 1) between

  next_free_between : between.mem_page_next_free ≡ i
  unfolding free_first
  next_free_between = refl

  start_between : between.mem_page_start ≡ p.mem_page_start
  unfolding free_first
  start_between = refl

  between_entry : between.word_at (entry_of p i) ≡ p.mem_page_next_free
  unfolding free_first
  between_entry = ground arith

  kalloc_page_again : kalloc_page between ≡ (page_of p i, after)
  unfolding kalloc_page
  kalloc_page_again =
      let some_page : (i == 0) ≡ false = ground arith in
      let linked : (p.mem_page_next_free == 0) ≡ false = ground arith in
      rw (next_free_between, start_between, some_page, between_entry, linked) refl

  -- A word that the last clearing leaves.
  after_outside :
      (a : ℕ)
      → (a < page_of p i) ⊎ (page_of p i + page_size ≤ a)
      → after.word_at a
        ≡ update
            (update between.word_at (entry_of p i) 1)
            (own_of p i)
            (if p.mem_page_next_free / page_entries == i / page_entries
              then p.mem_page_next_free % page_entries
              else 0)
            a
  unfolding take_freed
  after_outside a out = rw (start_between) (clear_page-outside (page_of p i) _ a out)

  after_kept :
      (a : ℕ)
      → (a < page_of p i) ⊎ (page_of p i + page_size ≤ a)
      → a ≢ entry_of p i
      → a ≢ own_of p i
      → after.word_at a ≡ p.word_at a
  unfolding free_first
  after_kept a out entry own = after_outside a out ∙ ground arith

  -- The entry lies in the section's page, which is before the page.
  after_entry : after.word_at (entry_of p i) ≡ 1
  unfolding free_first
  after_entry = after_outside (entry_of p i) (ground arith) ∙ ground arith

  given-IsBack :
      0 < p.mem_page_num_allocated → p.mem_page_num_allocated < word_mod → IsBack p i after
  unfolding take_freed free_first
  given-IsBack some_page small = record {
    next_free = refl;
    allocated = omega arith;
    len = refl;
    in_use = after_entry;
    cleared = λ j below. clear_page-inside (page_of p i) _ j below;
    kept = after_kept;
  }

-- A page whose number is below that of the first free page is freed, and is the next page that is given
-- out: its entry is in use again, its words are zero, the first free page and the counts are as before,
-- and no word but those and the first entry of its section has changed. The pages have to start at a
-- multiple of the size of a page, the page may not be that of a section, and one page at least has to be
-- counted as given out.
pub kfree_page-GivesBack :
    (p : Pages) (i : ℕ)
    → p.mem_page_start % page_size ≡ 0
    → i % page_entries ≢ 0
    → i < p.mem_page_next_free
    → 0 < p.mem_page_num_allocated
    → p.mem_page_num_allocated < word_mod
    → GivesBack p i
kfree_page-GivesBack p i aligned ordinary given some_page small = (
  after p i aligned ordinary given,
  ap kalloc_page (kfree_page_first p i aligned ordinary given)
      ∙ kalloc_page_again p i aligned ordinary given,
  given-IsBack p i aligned ordinary given some_page small,
)
