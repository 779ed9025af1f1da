-- ===== src/Print/Prefix.antt =====
-- What printm does with the options of a directive: it comes to the letter with its flags and its
-- width set.
pub mod Settings
use mathlib.Core.List.{map, append_assoc}
use native.Mathlib.Nat.{pow-suc}
use echelon_sbi.Base.{
  ℕ, zero, suc, ◌+◌, ◌-◌, ◌*◌, ◌/◌, ◌%◌, ◌^◌, ◌<◌, ◌≡◌, refl, ap, ◌∙◌, Bool, true, false, not, ◌&&◌,
  ◌||◌, ◌==◌, leb, some, ◌>>=◌, List, [], ◌∷◌, ◌++◌, u32, word_mod, arith,
}
use echelon_sbi.Print.{Flags, Printer, no_flags, modifier, width_digit, enter_special, write}
use echelon_sbi.Print.Convert.{format_loop, format_character, special_character, conversion}
use echelon_sbi.Print.Layout.{digits}
use echelon_sbi.Print.Digits.{map-append}
use echelon_sbi.Print.Directive.{
  LengthModifier, no_modifier, char_modifier, short_modifier, long_modifier, long_long_modifier,
  Options, NumberKind, decimal, integer, unsigned_decimal, octal, lower_hex, upper_hex, pointer,
  kind_letter, when, modifier_text, width_text, directive_text,
}
use echelon_sbi.Print.Prefix.Settings.{special, flags_of, with_modifier}

module _ (memory : ℕ → ℕ) where
  -- One character of the options, for each of them.
  altform_read :
      (b : Bool) (f : Flags) (s : Printer) (rest : List ℕ)
      → format_loop memory (when b b'#' ++ rest) (special (record f { altform = false }) false s)
        ≡ format_loop memory rest (special (record f { altform = b }) false s)
  unfolding format_loop format_character special_character modifier
  altform_read true f s rest = refl
  altform_read false f s rest = refl

  zeropad_read :
      (b : Bool) (f : Flags) (s : Printer) (rest : List ℕ)
      → format_loop memory (when b b'0' ++ rest) (special (record f { zeropad = false }) false s)
        ≡ format_loop memory rest (special (record f { zeropad = b }) false s)
  unfolding format_loop format_character special_character modifier
  zeropad_read true f s rest = refl
  zeropad_read false f s rest = refl

  leftadj_read :
      (b : Bool) (f : Flags) (s : Printer) (rest : List ℕ)
      → format_loop memory (when b b'-' ++ rest) (special (record f { leftadj = false }) false s)
        ≡ format_loop memory rest (special (record f { leftadj = b }) false s)
  unfolding format_loop format_character special_character modifier
  leftadj_read true f s rest = refl
  leftadj_read false f s rest = refl

  spacepd_read :
      (b : Bool) (f : Flags) (s : Printer) (rest : List ℕ)
      → format_loop memory (when b b' ' ++ rest) (special (record f { spacepd = false }) false s)
        ≡ format_loop memory rest (special (record f { spacepd = b }) false s)
  unfolding format_loop format_character special_character modifier
  spacepd_read true f s rest = refl
  spacepd_read false f s rest = refl

  asigned_read :
      (b : Bool) (f : Flags) (s : Printer) (rest : List ℕ)
      → format_loop memory (when b b'+' ++ rest) (special (record f { asigned = false }) false s)
        ≡ format_loop memory rest (special (record f { asigned = b }) false s)
  unfolding format_loop format_character special_character modifier
  asigned_read true f s rest = refl
  asigned_read false f s rest = refl

  options_read :
      (o : Options) (s : Printer) (rest : List ℕ)
      → format_loop memory
          (when o.altform b'#'
            ++ (when o.zeropad b'0'
                ++ (when o.leftadj b'-' ++ (when o.spacepd b' ' ++ (when o.asigned b'+' ++ rest)))))
          (special no_flags false s)
        ≡ format_loop memory rest (special (flags_of o) false s)
  options_read o s rest =
      altform_read o.altform no_flags s _
      ∙ zeropad_read o.zeropad (record no_flags { altform = o.altform }) s _
      ∙ leftadj_read o.leftadj (record no_flags { altform = o.altform; zeropad = o.zeropad }) s _
      ∙ spacepd_read o.spacepd
          (record no_flags { altform = o.altform; zeropad = o.zeropad; leftadj = o.leftadj }) s _
      ∙ asigned_read o.asigned
          (record no_flags {
            altform = o.altform;
            zeropad = o.zeropad;
            leftadj = o.leftadj;
            spacepd = o.spacepd;
          })
          s rest

  -- A character that is a digit of the width.
  width_digit_read :
      (f : Flags) (wide : Bool) (s : Printer) (c : ℕ) (rest : List ℕ)
      → (c == 0) ≡ false
      → (c == b'%') ≡ false
      → ((c == b'0' && wide) || (leb b'1' c && leb c b'9')) ≡ true
      → format_loop memory (c ∷ rest) (special f wide s)
        ≡ format_loop memory rest (width_digit c (special f wide s))
  unfolding format_loop format_character special_character
  width_digit_read f wide s c rest not_end not_percent digit = rw (not_end, not_percent, digit) refl

  digit_read :
      (f : Flags) (wide : Bool) (s : Printer) (d : ℕ) (rest : List ℕ)
      → d < 10
      → ((d == 0) && not wide) ≡ false
      → format_loop memory ((d + b'0') ∷ rest) (special f wide s)
        ≡ format_loop memory rest
            (special f true (record s { fdwidth = u32 (u32 (s.fdwidth * 10) + d) }))
  unfolding width_digit
  digit_read f wide s d rest below leading =
      let not_end : ((d + b'0') == 0) ≡ false = ground arith in
      let not_percent : ((d + b'0') == b'%') ≡ false = ground arith in
      let digit : (((d + b'0') == b'0' && wide) || (leb b'1' (d + b'0') && leb (d + b'0') b'9'))
          ≡ true =
        ground arith in
      let e : d + b'0' - b'0' ≡ d = omega arith in
      width_digit_read f wide s (d + b'0') rest not_end not_percent digit
      ∙ ap
          (λ (x : ℕ).
            format_loop memory rest
              (special f true (record s { fdwidth = u32 (u32 (s.fdwidth * 10) + x) })))
          e

  -- The digits of a number that an `unsigned int` holds.
  digits_read :
      (fuel width : ℕ) (f : Flags) (s : Printer) (rest : List ℕ)
      → width < 2 ^ fuel
      → width < word_mod
      → format_loop memory
          (map (λ d. d + b'0') (digits fuel 10 width) ++ rest)
          (special f false (record s { fdwidth = 0 }))
        ≡ format_loop memory rest (special f (not (width == 0)) (record s { fdwidth = width }))
  unfolding digits
  digits_read zero zero f s rest enough fits = refl
  digits_read zero (suc width) f s rest enough fits = absurd (omega arith)
  digits_read (suc fuel) zero f s rest enough fits = refl
  digits_read (suc fuel) (suc n) f s rest enough fits =
      let width = suc n in
      let ds = digits fuel 10 (width / 10) in
      let c = width % 10 + b'0' in
      let half : width / 10 < 2 ^ fuel = omega (arith, pow-suc 2 fuel) in
      let positive : (width == 0) ≡ false = ground arith in
      let leading : ((width % 10 == 0) && not (not (width / 10 == 0))) ≡ false = ground arith in
      let sum : u32 (u32 (width / 10 * 10) + width % 10) ≡ width = omega arith in
      let text : map (λ d. d + b'0') (ds ++ (width % 10 ∷ [])) ++ rest
          ≡ map (λ d. d + b'0') ds ++ (c ∷ rest) =
        ap (λ (xs : List ℕ). xs ++ rest) (map-append (λ d. d + b'0') ds (width % 10 ∷ []))
        ∙ append_assoc (map (λ d. d + b'0') ds) (c ∷ []) rest in
      rw positive (
        ap (λ (xs : List ℕ). format_loop memory xs (special f false (record s { fdwidth = 0 })))
          text
        ∙ digits_read fuel (width / 10) f s (c ∷ rest) half (omega arith)
        ∙ digit_read f (not (width / 10 == 0)) (record s { fdwidth = width / 10 }) (width % 10) rest
            (omega arith) leading
        ∙ ap (λ (x : ℕ). format_loop memory rest (special f true (record s { fdwidth = x }))) sum)

  -- A letter that ends the directive.
  abbrev pub IsLetter : ℕ → Type 0
  IsLetter letter =
      (wide : Bool) (f : Flags) (s : Printer) (rest : List ℕ)
      → format_loop memory (letter ∷ rest) (special f wide s)
        ≡ (conversion memory letter (special f false s) >>= λ t. format_loop memory rest t)

  modifier_read :
      (m : LengthModifier) (wide : Bool) (o : Options) (letter : ℕ) (s : Printer) (rest : List ℕ)
      → IsLetter letter
      → format_loop memory (modifier_text m ++ (letter ∷ rest)) (special (flags_of o) wide s) ≡ (
          conversion memory letter (special (with_modifier m (flags_of o)) false s) >>= λ t.
          format_loop memory rest t)
  unfolding format_loop format_character special_character modifier
  modifier_read no_modifier wide o letter s rest is_letter = is_letter wide (flags_of o) s rest
  modifier_read char_modifier wide o letter s rest is_letter =
      is_letter false (with_modifier char_modifier (flags_of o)) s rest
  modifier_read short_modifier wide o letter s rest is_letter =
      is_letter false (with_modifier short_modifier (flags_of o)) s rest
  modifier_read long_modifier wide o letter s rest is_letter =
      is_letter false (with_modifier long_modifier (flags_of o)) s rest
  modifier_read long_long_modifier wide o letter s rest is_letter =
      is_letter false (with_modifier long_long_modifier (flags_of o)) s rest

  -- The whole of a directive up to its letter, from a state without flags.
  pub directive_read :
      (o : Options) (letter : ℕ) (s : Printer) (rest : List ℕ)
      → o.width < word_mod
      → IsLetter letter
      → format_loop memory (directive_text o letter rest) (record s { flags = no_flags }) ≡ (
          conversion memory letter (
            special
              (with_modifier o.modifier (flags_of o))
              false
              (record (write (some s.buf) s.j s) { j = 0; fdwidth = o.width }))
          >>= λ t. format_loop memory rest t)
  unfolding directive_text format_loop format_character enter_special write
  directive_read o letter s rest fits is_letter =
      let opened = record (write (some s.buf) s.j s) { j = 0; fdwidth = 0 } in
      let tail = modifier_text o.modifier ++ (letter ∷ rest) in
      options_read o opened (width_text o.width ++ tail)
      ∙ digits_read 64 o.width (flags_of o) opened tail (omega arith) fits
      ∙ modifier_read o.modifier (not (o.width == 0)) o letter (record opened { fdwidth = o.width })
          rest is_letter

  pub kind_letter-IsLetter : (kind : NumberKind) → IsLetter (kind_letter kind)
  unfolding format_loop format_character special_character modifier
  kind_letter-IsLetter decimal wide f s rest = refl
  kind_letter-IsLetter integer wide f s rest = refl
  kind_letter-IsLetter unsigned_decimal wide f s rest = refl
  kind_letter-IsLetter octal wide f s rest = refl
  kind_letter-IsLetter lower_hex wide f s rest = refl
  kind_letter-IsLetter upper_hex wide f s rest = refl
  kind_letter-IsLetter pointer wide f s rest = refl

  pub character-IsLetter : IsLetter b'c'
  unfolding format_loop format_character special_character modifier
  character-IsLetter wide f s rest = refl

  pub string-IsLetter : IsLetter b's'
  unfolding format_loop format_character special_character modifier
  string-IsLetter wide f s rest = refl

  pub percent-IsLetter : IsLetter b'%'
  unfolding format_loop format_character special_character modifier
  percent-IsLetter wide f s rest = refl
