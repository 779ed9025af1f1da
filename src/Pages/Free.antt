-- ===== src/Pages/Free.antt =====
-- memalloc.c: kfree_page.
use echelon_sbi.Base.{
  ℕ, zero, suc, ◌+◌, ◌-◌, ◌/◌, ◌%◌, ◌==◌, ltb, leb, ◌||◌, ◌&&◌, not, if◌then◌else◌, update, u32,
  word_mod,
}
use echelon_sbi.Pages.{Pages, page_size, page_entries, used_pages}

-- The last entry of a section, from `final` on and before the one at which `left` ends, that is not 1.
unfoldable pub final_loop : (left i final : ℕ) (entry : ℕ → ℕ) → ℕ
final_loop zero i final entry = final
final_loop (suc left) i final entry =
    final_loop left (suc i) (if entry i == 1 then final else i) entry

-- `section[k].used_pages[final_page_index]`, from the first free page of that section on.
unfoldable pub final_page : (k end : ℕ) → Pages → ℕ
final_page k end p =
    let entry = λ (j : ℕ). p.word_at (used_pages p.mem_page_start k j) in
    let first = entry 0 in let i = u32 (first + 1) in final_loop (end - i) i first entry

-- The page is chained behind the last free page before it, which is in the section `k`.
unfoldable pub chain_page : (k end index_to_free : ℕ) (word_at : ℕ → ℕ) → Pages → Pages
chain_page k end index_to_free word_at p =
    let last = used_pages p.mem_page_start k (final_page k end p) in
    record p {
      word_at = update word_at last index_to_free;
      mem_page_num_allocated = u32 (p.mem_page_num_allocated + word_mod - 1);
    }

-- The sections before `k` that may have a free page, the nearest one first.
unfoldable pub section_loop : (k pagearray_index page_index index_to_free : ℕ) → Pages → Pages
section_loop zero pagearray_index page_index index_to_free p = p
section_loop (suc k) pagearray_index page_index index_to_free p =
    let entry = used_pages p.mem_page_start in
    let rest = section_loop k pagearray_index page_index index_to_free p in
    let linked =
      update p.word_at (entry pagearray_index page_index)
        (p.word_at (entry k (final_page k page_entries p))) in
    if not (p.word_at (entry k 0) == 0)
    then chain_page k page_entries index_to_free
        (update linked (entry pagearray_index 0) page_index) p
    else rest

-- A page before all free pages is the first of them then.
unfoldable pub free_first : (pagearray_index page_index index_to_free : ℕ) → Pages → Pages
free_first pagearray_index page_index index_to_free p =
    let entry = used_pages p.mem_page_start pagearray_index in
    record p {
      word_at =
          update (update p.word_at (entry page_index) p.mem_page_next_free) (entry 0) page_index;
      mem_page_next_free = index_to_free;
      mem_page_num_allocated = u32 (p.mem_page_num_allocated + word_mod - 1);
    }

unfoldable pub kfree_page : (ptr : ℕ) → Pages → Pages
kfree_page ptr p =
    let index_to_free = (ptr - p.mem_page_start) / page_size in
    let pagearray_index = index_to_free / page_entries in
    let page_index = index_to_free % page_entries in
    let entry = λ (j : ℕ). used_pages p.mem_page_start pagearray_index j in
    let first = p.word_at (entry 0) in
    let linked =
      update p.word_at (entry page_index)
        (p.word_at (entry (final_page pagearray_index page_index p))) in
    if ptr == 0 || not (ptr % page_size == 0) || leb ptr p.mem_page_start || index_to_free == 0
    then p
    else if ltb index_to_free p.mem_page_next_free
    then free_first pagearray_index page_index index_to_free p
    else if not (first == 0) && ltb first page_index
    then chain_page pagearray_index page_index index_to_free linked p
    else section_loop pagearray_index pagearray_index page_index index_to_free p
