-- ===== src/Archive/Lookup.antt =====
-- get_cpio_entry_header finds the first entry with a name.
use echelon_sbi.Base.{
  ℕ, zero, suc, ◌+◌, ◌%◌, ◌^◌, ◌<◌, ◌≡◌, ◌≢◌, inl, inr, refl, ap, ◌∙◌, true, false, ◌==◌, not, ◌&&◌,
  if◌then◌else◌, Bool-cases, ==-false, Option, some, List, [], ◌∷◌, length, u32, word_mod, bit_and,
  arith,
}
use echelon_sbi.Base.Bits.Fields.{bit_and-ones}
use echelon_sbi.Text.{IsText}
use echelon_sbi.Text.Strings.{strcmp}
use echelon_sbi.Text.Compare.{strcmp-Compares}
use echelon_sbi.Archive.{
  header_size, vl32, make_even, header_at, half_at, Search, found, not_found, entry_loop,
  get_cpio_entry_header,
}
use echelon_sbi.Archive.Halfwords.{host_order, read_entry-IsHeader, magic-IsHeader}
use echelon_sbi.Archive.Entries.{
  Entry, even, file_size, file_of, next_of, IsEntry, End, trailer, broken, trailer_name, IsArchive,
  Finds,
}

make_even-lt : (size : ℕ) → even size < word_mod → make_even size ≡ even size
make_even-lt size fits =
    let low : bit_and size 1 ≡ size % 2 ^ 1 = bit_and-ones 1 size in rw low (omega arith)

-- One round, by what the comparisons of the names find.
module _ (memory : ℕ → ℕ) (filename trailer_at fuel at : ℕ) (e : Entry)
    (there : IsEntry memory at e) where
  abbrev after : Option Search
  after = entry_loop fuel filename trailer_at (next_of at e) memory

  round_named :
      (r : ℕ)
      → strcmp (at + header_size) filename memory ≡ some r
      → r ≡ 0
      → entry_loop (suc fuel) filename trailer_at at memory
        ≡ some (found (file_of at e) (host_order e.header))
  unfolding entry_loop IsEntry
  round_named r compared same =
      let (header, name_fits, fits, text, short) = there in
      let named : (r == 0) ≡ true = ground arith in
      rw
        (
          magic-IsHeader memory e.swapped at e.header header,
          compared,
          named,
          read_entry-IsHeader memory e.swapped at e.header header,
          make_even-lt e.header.h_namesize (omega arith),
        )
        refl

  round_other :
      (r q : ℕ)
      → strcmp (at + header_size) filename memory ≡ some r
      → r ≢ 0
      → strcmp (at + header_size) trailer_at memory ≡ some q
      → entry_loop (suc fuel) filename trailer_at at memory
        ≡ (if q == 0 then some not_found else after)
  unfolding entry_loop IsEntry
  round_other r q compared differs ended =
      let (header, name_fits, fits, text, short) = there in
      let other : (r == 0) ≡ false = ground arith in
      let size : make_even (vl32 (host_order e.header).h_filesize) ≡ even (file_size e) =
        make_even-lt (vl32 (host_order e.header).h_filesize) (omega arith)
        ∙ ap (λ (n : ℕ). n + n % 2) (omega arith) in
      let step : at
            + header_size
            + u32
                (make_even e.header.h_namesize + make_even (vl32 (host_order e.header).h_filesize))
          ≡ next_of at e =
        rw (make_even-lt e.header.h_namesize (omega arith), size) (omega arith) in
      rw
        (
          magic-IsHeader memory e.swapped at e.header header,
          compared,
          other,
          ended,
          read_entry-IsHeader memory e.swapped at e.header header,
          step,
        )
        refl

round_broken :
    (memory : ℕ → ℕ) (filename trailer_at fuel at : ℕ)
    → half_at memory at ≢ 0x71C7
    → half_at memory at ≢ 0xC771
    → entry_loop (suc fuel) filename trailer_at at memory ≡ some not_found
unfolding entry_loop header_at
round_broken memory filename trailer_at fuel at not_native not_swapped =
    let stops : (not (half_at memory at == 0x71C7) && not (half_at memory at == 0xC771)) ≡ true =
      ground arith in
    rw stops refl

module _ (memory : ℕ → ℕ) (filename trailer_at : ℕ) (name : List ℕ)
    (filename_there : IsText memory filename name)
    (trailer_there : IsText memory trailer_at trailer_name) where
  entry_loop-Finds :
      (fuel at : ℕ) (es : List Entry) (end : End)
      → length es < fuel
      → IsArchive memory at es end
      → (result : Search) × (entry_loop fuel filename trailer_at at memory ≡ some result)
        × Finds name at es end result
  unfolding IsArchive Finds IsEntry
  entry_loop-Finds zero at es end enough archive = absurd (omega arith)
  entry_loop-Finds (suc fuel) at [] broken enough (not_native, not_swapped) =
      (not_found, round_broken memory filename trailer_at fuel at not_native not_swapped, refl)
  entry_loop-Finds (suc fuel) at [] (trailer e) enough (there, ends) =
      let (header, name_fits, fits, text, short) = there in
      let (r, compared, same) =
        strcmp-Compares memory (at + header_size) filename e.name name short text filename_there in
      let (q, ended, last) =
        strcmp-Compares memory (at + header_size) trailer_at e.name trailer_name short text
          trailer_there in
      let stops : (q == 0) ≡ true = let z = last.1 ends in ground arith in
      elim (Bool-cases (r == 0)) [
        | inl named ↦
            let zero_r : r ≡ 0 = ground arith in
            (
              found (file_of at e) (host_order e.header),
              round_named memory filename trailer_at fuel at e there r compared zero_r,
              inl (same.0 zero_r, refl),
            )
        | inr other ↦
            let some_r : r ≢ 0 = λ z. ground arith in
            (
              not_found,
              round_other memory filename trailer_at fuel at e there r q compared some_r ended
                  ∙ rw stops refl,
              inr ((λ equal. some_r (same.1 equal)), refl),
            )
      ]
  entry_loop-Finds (suc fuel) at (e ∷ es) end enough (there, goes_on, archive) =
      let (header, name_fits, fits, text, short) = there in
      let (r, compared, same) =
        strcmp-Compares memory (at + header_size) filename e.name name short text filename_there in
      let (q, ended, last) =
        strcmp-Compares memory (at + header_size) trailer_at e.name trailer_name short text
          trailer_there in
      let more : (q == 0) ≡ false = ground (arith, ==-false q 0 λ z. goes_on (last.0 z)) in
      elim (Bool-cases (r == 0)) [
        | inl named ↦
            let zero_r : r ≡ 0 = ground arith in
            (
              found (file_of at e) (host_order e.header),
              round_named memory filename trailer_at fuel at e there r compared zero_r,
              inl (same.0 zero_r, refl),
            )
        | inr other ↦
            let some_r : r ≢ 0 = λ z. ground arith in
            let (result, run, finds) =
              entry_loop-Finds fuel (next_of at e) es end (omega arith) archive in
            (
              result,
              round_other memory filename trailer_at fuel at e there r q compared some_r ended
                  ∙ rw more run,
              inr ((λ equal. some_r (same.1 equal)), finds),
            )
      ]

-- For an archive of fewer than 2 ^ 32 entries in memory, each in either byte order, the search ends,
-- and returns the file and the header of the first entry with the name, the trailer included, or
-- nothing if none has it.
pub get_cpio_entry_header-Finds :
    (memory : ℕ → ℕ) (filename trailer_at : ℕ) (name : List ℕ)
    → IsText memory filename name
    → IsText memory trailer_at trailer_name
    → (at : ℕ) (es : List Entry) (end : End) → length es < word_mod
    → IsArchive memory at es end
    → (result : Search) × (get_cpio_entry_header filename trailer_at at memory ≡ some result)
      × Finds name at es end result
unfolding get_cpio_entry_header
get_cpio_entry_header-Finds memory filename trailer_at name named ended at es end few archive =
    entry_loop-Finds memory filename trailer_at name named ended word_mod at es end few archive
