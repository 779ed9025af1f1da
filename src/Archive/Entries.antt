-- ===== src/Archive/Entries.antt =====
-- An archive as a list of its entries, and what a search in it should give.
use echelon_sbi.Base.{
  ℕ, ◌+◌, ◌*◌, ◌%◌, ◌^◌, ◌<◌, ◌≡◌, ◌≢◌, ◌⊎◌, inl, inr, sym, ◌∙◌, Bool, List, [], ◌∷◌, length,
  word_mod,
}
use echelon_sbi.Text.{IsText, codes}
use echelon_sbi.Archive.{HeaderPwbCpio, header_size, half_at, Search, found, not_found}
use echelon_sbi.Archive.Halfwords.{IsHeader, host_order}

-- The header is as the archive has it: of the size of the file, `hi16` is the high half.
pub record Entry : Type 0 where
  pub swapped : Bool
  pub header : HeaderPwbCpio
  pub name : List ℕ

abbrev pub even : ℕ → ℕ
even size = size + size % 2

abbrev pub file_size : Entry → ℕ
file_size e = e.header.h_filesize.hi16 * 2 ^ 16 + e.header.h_filesize.lw16

-- Where the file of an entry starts, and where the next entry does.
abbrev pub file_of : (at : ℕ) → Entry → ℕ
file_of at e = at + header_size + even e.header.h_namesize

abbrev pub next_of : (at : ℕ) → Entry → ℕ
next_of at e = at + header_size + (even e.header.h_namesize + even (file_size e))

-- The memory holds an entry, whose size an address can go past.
unfoldable pub IsEntry : (memory : ℕ → ℕ) (at : ℕ) → Entry → Type 0
IsEntry memory at e =
    IsHeader memory e.swapped at e.header
    × (e.header.h_namesize < 2 ^ 16)
    × (even e.header.h_namesize + even (file_size e) < word_mod)
    × IsText memory (at + header_size) e.name
    × (length e.name < word_mod)

-- What ends an archive: the entry with the name of a trailer, or no entry.
pub data End : Type 0 where
  trailer : Entry → End
  broken : End

abbrev pub trailer_name : List ℕ
trailer_name = codes "TRAILER!!!"

unfoldable pub IsArchive : (memory : ℕ → ℕ) (at : ℕ) → List Entry → End → Type 0
unfolding IsEntry
IsArchive memory at [] (trailer e) = IsEntry memory at e × (e.name ≡ trailer_name)
IsArchive memory at [] broken = (half_at memory at ≢ 0x71C7) × (half_at memory at ≢ 0xC771)
IsArchive memory at (e ∷ es) end =
    IsEntry memory at e × (e.name ≢ trailer_name) × IsArchive memory (next_of at e) es end

-- The result of a search: the first entry with the name, or none.
unfoldable pub Finds : (name : List ℕ) (at : ℕ) → List Entry → End → Search → Type 0
Finds name at [] (trailer e) result =
    ((e.name ≡ name) × (result ≡ found (file_of at e) (host_order e.header)))
    ⊎ ((e.name ≢ name) × (result ≡ not_found))
Finds name at [] broken result = result ≡ not_found
Finds name at (e ∷ es) end result =
    ((e.name ≡ name) × (result ≡ found (file_of at e) (host_order e.header)))
    ⊎ ((e.name ≢ name) × Finds name (next_of at e) es end result)

-- A search has one result.
pub Finds-same :
    (name : List ℕ) (at : ℕ) (es : List Entry) (end : End) (r q : Search)
    → Finds name at es end r
    → Finds name at es end q
    → r ≡ q
unfolding Finds
Finds-same name at [] (trailer e) r q (inl (n, er)) (inl (m, eq)) = er ∙ sym eq
Finds-same name at [] (trailer e) r q (inl (n, er)) (inr (m, eq)) = absurd (m n)
Finds-same name at [] (trailer e) r q (inr (n, er)) (inl (m, eq)) = absurd (n m)
Finds-same name at [] (trailer e) r q (inr (n, er)) (inr (m, eq)) = er ∙ sym eq
Finds-same name at [] broken r q er eq = er ∙ sym eq
Finds-same name at (e ∷ es) end r q (inl (n, er)) (inl (m, eq)) = er ∙ sym eq
Finds-same name at (e ∷ es) end r q (inl (n, er)) (inr (m, eq)) = absurd (m n)
Finds-same name at (e ∷ es) end r q (inr (n, er)) (inl (m, eq)) = absurd (n m)
Finds-same name at (e ∷ es) end r q (inr (n, fr)) (inr (m, fq)) =
    Finds-same name (next_of at e) es end r q fr fq
