-- ===== src/Pages/Clear.antt =====
-- What a run of words that is cleared holds.
use echelon_sbi.Base.{ℕ, zero, suc, ◌+◌, ◌*◌, ◌≤◌, ◌<◌, ◌≡◌, ◌⊎◌, refl, ap, ◌∙◌, update, arith}
use echelon_sbi.Pages.{page_size, page_entries, clear_words, clear_page}

pub clear_words-outside :
    (count at : ℕ) (word_at : ℕ → ℕ) (a : ℕ)
    → (a < at) ⊎ (at + count * 4 ≤ a)
    → clear_words count at word_at a ≡ word_at a
unfolding clear_words
clear_words-outside zero at word_at a out = refl
clear_words-outside (suc count) at word_at a out =
    clear_words-outside count (at + 4) (update word_at at 0) a (ground arith) ∙ ground arith

pub clear_words-inside :
    (count at : ℕ) (word_at : ℕ → ℕ) (i : ℕ)
    → i < count
    → clear_words count at word_at (at + i * 4) ≡ 0
unfolding clear_words
clear_words-inside zero at word_at i below = absurd (omega arith)
clear_words-inside (suc count) at word_at zero below =
    clear_words-outside count (at + 4) (update word_at at 0) (at + 0) (ground arith) ∙ ground arith
clear_words-inside (suc count) at word_at (suc i) below =
    ap (clear_words count (at + 4) (update word_at at 0)) (omega arith)
    ∙ clear_words-inside count (at + 4) (update word_at at 0) i (omega arith)

pub clear_page-outside :
    (page : ℕ) (word_at : ℕ → ℕ) (a : ℕ)
    → (a < page) ⊎ (page + page_size ≤ a)
    → clear_page page word_at a ≡ word_at a
unfolding clear_page
clear_page-outside page word_at a out =
    clear_words-outside page_entries page word_at a (ground arith)

pub clear_page-inside :
    (page : ℕ) (word_at : ℕ → ℕ) (i : ℕ)
    → i < page_entries
    → clear_page page word_at (page + i * 4) ≡ 0
unfolding clear_page
clear_page-inside page word_at i below = clear_words-inside page_entries page word_at i below
