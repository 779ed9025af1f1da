-- ===== src/Allocator/Sections.antt =====
-- The sections of a block as a list: the abstract view of memalloc.c.
use echelon_sbi.Base.{
  ℕ, ◌+◌, ◌≤◌, ◌<◌, ◌≡◌, true, ◌==◌, ◌||◌, leb, if◌then◌else◌, Option, none, some, List, [], ◌∷◌,
}
use echelon_sbi.Allocator.{header, next_field}

pub record Section : Type 0 where
  pub address : ℕ
  pub size : ℕ

abbrev pub section : (address size : ℕ) → Section
section a n = record { address = a; size = n }

-- Where the section after ends at the latest: at the next one, or at the end of the block.
abbrev pub limit : (block_end : ℕ) → List Section → ℕ
limit block_end [] = block_end
limit block_end (s ∷ rest) = s.address

-- What a section covers: its header at least.
abbrev pub extent : Section → ℕ
extent s = if s.size == 0 then header else s.size

-- The memory holds these sections from `first` on: sizes and links are in the headers, the last link is
-- zero, sections do not overlap, and all lie in the block. Only an empty section is smaller than
-- its header.
unfoldable pub IsChain : (word_at : ℕ → ℕ) (block_end first : ℕ) → List Section → Type 0
IsChain word_at block_end first [] = first ≡ 0
IsChain word_at block_end first (s ∷ rest) =
    ((first ≡ s.address) × (word_at first ≡ s.size) × (0 < first))
    × (((s.size == 0 || leb header s.size) ≡ true)
        × (first + extent s ≤ limit block_end rest)
        × (limit block_end rest ≤ block_end))
    × IsChain word_at block_end (word_at (next_field first)) rest

-- A new section right behind `s`, in place of `s` if that is empty.
abbrev pub behind : Section → (size : ℕ) → List Section → List Section
behind s size rest =
    if s.size == 0
    then section s.address size ∷ rest
    else s ∷ section (s.address + s.size) size ∷ rest

abbrev pub keep : Section → Option (ℕ × List Section) → Option (ℕ × List Section)
keep s none = none
keep s (some (a, ys)) = some (a, s ∷ ys)

-- The first gap that is large enough, and the list with a section there.
unfoldable pub first_fit : (block_end size : ℕ) → List Section → Option (ℕ × List Section)
first_fit block_end size [] = none
first_fit block_end size (s ∷ rest) =
    let later = first_fit block_end size rest in
    if leb (s.address + s.size + size) (limit block_end rest)
    then some (s.address + s.size, behind s size rest)
    else keep s later
