-- ===== src/Print/Characters.antt =====
-- What the conversions of printm for characters and strings write.
use echelon_sbi.Base.{
  ℕ, zero, suc, ◌+◌, ◌%◌, ◌^◌, ◌<◌, ◌≡◌, ◌≢◌, refl, ap, ◌∙◌, true, false, ◌==◌, ltb, leb,
  if◌then◌else◌, some, List, [], ◌∷◌, length, update, u8, u32, word_mod, arith,
}
use echelon_sbi.Text.{slice, IsText}
use echelon_sbi.Text.Strings.{strlen, strnlen}
use echelon_sbi.Text.Compare.{strlen_lem, strnlen_lem}
use echelon_sbi.Text.Slices.{slice-IsText, slice-same}
use echelon_sbi.Print.{Printer, end_special}
use echelon_sbi.Print.Convert.{conversion, va_arg, print_character, print_text}
use echelon_sbi.Print.Emit.{emit, write-literal, write-emit}
use echelon_sbi.Print.Conversion.{Wrote, reached}
use echelon_sbi.Print.Directive.{Options, first}

module _ (memory : ℕ → ℕ) where
  -- The length that printm finds for a string, and the characters that it has.
  printed_length : ℕ → List ℕ → ℕ
  printed_length zero cs = length cs
  printed_length (suc w) cs = if leb (length cs) (suc w) then length cs else suc w

  printed_length_lem :
      (w address : ℕ) (cs : List ℕ)
      → length cs < word_mod
      → IsText memory address cs
      → (if ltb 0 w then some (strnlen address w memory) else strlen address memory)
        ≡ some (printed_length w cs)
  unfolding printed_length
  printed_length_lem zero address cs short text = strlen_lem memory address cs short text
  printed_length_lem (suc w) address cs short text =
      let positive : ltb 0 (suc w) ≡ true = ground arith in
      rw positive (ap (λ (n : ℕ). some n) (strnlen_lem memory address (suc w) cs text))

  slice-first :
      (w address : ℕ) (cs : List ℕ)
      → IsText memory address cs
      → slice memory address (if leb (length cs) w then length cs else w) ≡ first w cs
  unfolding slice IsText
  slice-first zero address [] text = refl
  slice-first zero address (c ∷ cs) text =
      let longer : leb (length (c ∷ cs)) 0 ≡ false = ground arith in rw longer refl
  slice-first (suc w) address [] text =
      let shorter : leb 0 (suc w) ≡ true = ground arith in rw shorter refl
  slice-first (suc w) address (c ∷ cs) text =
      let count : (if leb (length (c ∷ cs)) (suc w) then length (c ∷ cs) else suc w)
          ≡ suc (if leb (length cs) w then length cs else w) =
        ground arith in
      ap (λ (n : ℕ). slice memory address n) count
      ∙ rw (text.0, slice-first w (suc address) cs text.2) refl

  slice-printed_length :
      (w address : ℕ) (cs : List ℕ)
      → IsText memory address cs
      → slice (λ i. memory (address + i)) 0 (printed_length w cs)
        ≡ (if w == 0 then cs else first w cs)
  unfolding printed_length
  slice-printed_length w address cs text =
      slice-same (λ i. memory (address + i)) memory 0 address (printed_length w cs)
        (λ a b low high e. let ab : address + a ≡ b = omega arith in ap memory ab)
      ∙ go w
    where
      go :
          (w : ℕ) → slice memory address (printed_length w cs) ≡ (if w == 0 then cs else first w cs)
      go zero = slice-IsText memory address cs text
      go (suc w) =
          let positive : (suc w == 0) ≡ false = ground arith in
          rw positive (slice-first (suc w) address cs text)

module _ (memory : ℕ → ℕ) (o : Options) (t : Printer) where
  pub character-Wrote :
      (arg : ℕ)
      → Wrote
          (reached o t)
          (arg % 2 ^ 8 ∷ [])
          (conversion memory b'c' (record (reached o t) { ap = arg ∷ t.ap }))
  unfolding conversion va_arg print_character end_special emit slice
  character-Wrote arg =
      let buf = update t.buf 0 (u8 arg) in
      let s = record (reached o t) { buf = buf } in
      (buf, ap (λ (u : Printer). some (end_special u)) (write-emit buf 1 s))

  pub percent-Wrote : Wrote (reached o t) (b'%' ∷ []) (conversion memory b'%' (reached o t))
  unfolding conversion end_special emit
  percent-Wrote =
      (t.buf, ap (λ (u : Printer). some (end_special u)) (write-literal (b'%' ∷ []) (reached o t)))

  pub string-Wrote :
      (address : ℕ) (cs : List ℕ)
      → address ≢ 0
      → address < word_mod
      → length cs < word_mod
      → IsText memory address cs
      → Wrote
          (reached o t)
          (if o.width == 0 then cs else first o.width cs)
          (conversion memory b's' (record (reached o t) { ap = address ∷ t.ap }))
  unfolding conversion va_arg print_text end_special emit
  string-Wrote address cs some_address fits short text =
      let at : u32 address ≡ address = omega arith in
      let present : (address == 0) ≡ false = ground arith in
      let n = printed_length memory o.width cs in
      let f : ℕ → ℕ = λ i. memory (address + i) in
      rw (at, present, printed_length_lem memory o.width address cs short text)
        (
          t.buf,
          ap (λ (u : Printer). some (end_special u))
              (write-emit f n (reached o t)
                ∙ ap (λ (xs : List ℕ). emit xs (reached o t))
                    (slice-printed_length memory o.width address cs text)),
        )
