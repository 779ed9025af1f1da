-- ===== src/Print/Conversion.antt =====
-- What the conversions of printm write is what the directives say.
use mathlib.Core.Path.{subst, ap₂}
use echelon_sbi.Base.{
  ℕ, ◌-◌, ◌^◌, ◌<◌, ◌≡◌, refl, sym, ap, ◌∙◌, Bool, false, leb, if◌then◌else◌, Option, some, List,
  [], ◌∷◌, ◌++◌, u32, arith,
}
use echelon_sbi.Text.{send}
use echelon_sbi.Print.{Printer, no_flags, end_special}
use echelon_sbi.Print.Numeral.{itoa, radix}
use echelon_sbi.Print.Convert.{
  conversion, va_arg, signed_cast, unsigned_cast, sign_prefix, signed_field, unsigned_field,
  print_signed, print_unsigned, print_prefixed, print_octal, print_lower_hex, print_upper_hex,
}
use echelon_sbi.Print.Layout.{numeral}
use echelon_sbi.Print.Digits.{Shrinks, itoa-IsNumeral}
use echelon_sbi.Print.Emit.{emit}
use echelon_sbi.Print.Fields.{signed_field-layout, unsigned_field-layout, prefixed_field-layout}
use echelon_sbi.Print.Prefix.Settings.{special, with_modifier, flags_of}
use echelon_sbi.Print.Directive.{
  LengthModifier, no_modifier, char_modifier, short_modifier, long_modifier, long_long_modifier,
  Options, NumberKind, decimal, integer, unsigned_decimal, octal, lower_hex, upper_hex, pointer,
  kind_letter, number_text, is_negative, magnitude, unsigned_value, sign, field,
}

-- The casts of the code give the value that the type says.
negative_cast :
    (m : LengthModifier) (o : Options) (arg : ℕ)
    → leb (2 ^ 63) (signed_cast (with_modifier m (flags_of o)) arg) ≡ is_negative m arg
unfolding signed_cast
negative_cast no_modifier o arg = ground arith
negative_cast char_modifier o arg = ground arith
negative_cast short_modifier o arg = ground arith
negative_cast long_modifier o arg = ground arith
negative_cast long_long_modifier o arg = ground arith

abbrev absolute : ℕ → ℕ
absolute num = if leb (2 ^ 63) num then 2 ^ 64 - num else num

magnitude_cast :
    (m : LengthModifier) (o : Options) (arg : ℕ)
    → absolute (signed_cast (with_modifier m (flags_of o)) arg) ≡ magnitude m arg
unfolding signed_cast
magnitude_cast no_modifier o arg = ground arith
magnitude_cast char_modifier o arg = ground arith
magnitude_cast short_modifier o arg = ground arith
magnitude_cast long_modifier o arg = ground arith
magnitude_cast long_long_modifier o arg = ground arith

value_cast :
    (m : LengthModifier) (o : Options) (arg : ℕ)
    → unsigned_cast (with_modifier m (flags_of o)) arg ≡ unsigned_value m arg
unfolding unsigned_cast
value_cast no_modifier o arg = refl
value_cast char_modifier o arg = refl
value_cast short_modifier o arg = refl
value_cast long_modifier o arg = refl
value_cast long_long_modifier o arg = refl

magnitude-lt : (m : LengthModifier) (arg : ℕ) → magnitude m arg < 2 ^ 64
magnitude-lt no_modifier arg = ground arith
magnitude-lt char_modifier arg = ground arith
magnitude-lt short_modifier arg = ground arith
magnitude-lt long_modifier arg = ground arith
magnitude-lt long_long_modifier arg = ground arith

unsigned_value-lt : (m : LengthModifier) (arg : ℕ) → unsigned_value m arg < 2 ^ 64
unsigned_value-lt no_modifier arg = omega arith
unsigned_value-lt char_modifier arg = omega arith
unsigned_value-lt short_modifier arg = omega arith
unsigned_value-lt long_modifier arg = omega arith
unsigned_value-lt long_long_modifier arg = omega arith

-- Outside a directive again, with a text written.
abbrev pub Wrote : (s : Printer) (bytes : List ℕ) → Option Printer → Type 0
Wrote s bytes result =
    (buf : ℕ → ℕ) × (result
      ≡ some (record s { buf = buf; j = 0; flags = no_flags; sent = s.sent ++ send bytes }))

Shrinks-eight : Shrinks 8
Shrinks-eight n = omega arith

Shrinks-ten : Shrinks 10
Shrinks-ten n = omega arith

Shrinks-sixteen : Shrinks 16
Shrinks-sixteen n = omega arith

module _ (o : Options) (t : Printer) where
  -- The state in which a conversion is reached, and the one behind it.
  abbrev pub reached : Printer
  reached = special (with_modifier o.modifier (flags_of o)) false (record t { fdwidth = o.width })

  abbrev wrote : (buf : ℕ → ℕ) (bytes : List ℕ) → Printer
  wrote buf bytes = record reached {
    buf = buf;
    j = 0;
    flags = no_flags;
    sent = t.sent ++ send bytes;
  }

  signed_wrote :
      (negative : Bool) (number : ℕ)
      → number < 2 ^ 64
      → end_special (
          signed_field o.leftadj o.zeropad
            (sign_prefix negative reached.flags)
            (itoa number t.buf 64 10).0
            (record reached { buf = (itoa number t.buf 64 10).1 }))
        ≡ wrote (itoa number t.buf 64 10).1 (field o (sign o negative) (numeral 10 number))
  unfolding end_special emit sign_prefix
  signed_wrote negative number fits =
      let (counted, written) = itoa-IsNumeral number t.buf 10 Shrinks-ten fits in
      ap end_special (
        signed_field-layout (record reached { buf = (itoa number t.buf 64 10).1 })
          (itoa number t.buf 64 10).0 (numeral 10 number) counted written o.leftadj o.zeropad
          negative reached.flags)

  unsigned_wrote :
      (number : ℕ)
      → number < 2 ^ 64
      → end_special (
          unsigned_field o.leftadj o.zeropad
            (itoa number t.buf 64 10).0
            (record reached { buf = (itoa number t.buf 64 10).1 }))
        ≡ wrote (itoa number t.buf 64 10).1 (field o [] (numeral 10 number))
  unfolding end_special emit
  unsigned_wrote number fits =
      let (counted, written) = itoa-IsNumeral number t.buf 10 Shrinks-ten fits in
      ap end_special (
        unsigned_field-layout (record reached { buf = (itoa number t.buf 64 10).1 })
          (itoa number t.buf 64 10).0 (numeral 10 number) counted written o.leftadj o.zeropad)

  prefixed_wrote :
      (prefix : List ℕ) (base number : ℕ)
      → Shrinks (radix base)
      → number < 2 ^ 64
      → print_prefixed prefix base number reached
        ≡ wrote
            (itoa number t.buf 64 base).1
            (field o (if o.altform then prefix else []) (numeral base number))
  unfolding print_prefixed end_special emit
  prefixed_wrote prefix base number shrinks fits =
      let (counted, written) = itoa-IsNumeral number t.buf base shrinks fits in
      ap end_special (
        prefixed_field-layout (record reached { buf = (itoa number t.buf 64 base).1 })
          (itoa number t.buf 64 base).0 (numeral base number) counted written o.leftadj o.zeropad
          o.altform prefix)

  print_signed-Wrote :
      (arg : ℕ)
      → Wrote reached
          (field o (sign o (is_negative o.modifier arg)) (numeral 10 (magnitude o.modifier arg)))
          (some (print_signed arg reached))
  unfolding print_signed signed_cast
  print_signed-Wrote arg =
      let num = signed_cast reached.flags arg in
      let negative = negative_cast o.modifier o arg in
      let size = magnitude_cast o.modifier o arg in
      (
        (itoa (absolute num) t.buf 64 10).1,
        ap (λ (s : Printer). some s)
            (signed_wrote (leb (2 ^ 63) num) (absolute num)
                (subst (λ n. n < 2 ^ 64) (sym size) (magnitude-lt o.modifier arg))
              ∙ ap₂
                  (λ (b : Bool) (n : ℕ).
                    wrote (itoa (absolute num) t.buf 64 10).1 (field o (sign o b) (numeral 10 n)))
                  negative size),
      )

  print_unsigned-Wrote :
      (arg : ℕ)
      → Wrote reached
          (field o [] (numeral 10 (unsigned_value o.modifier arg)))
          (some (print_unsigned arg reached))
  unfolding print_unsigned unsigned_cast
  print_unsigned-Wrote arg =
      let n = unsigned_cast reached.flags arg in
      let value = value_cast o.modifier o arg in
      (
        (itoa n t.buf 64 10).1,
        ap (λ (s : Printer). some s)
            (unsigned_wrote n
                (subst (λ x. x < 2 ^ 64) (sym value) (unsigned_value-lt o.modifier arg))
              ∙ ap (λ (x : ℕ). wrote (itoa n t.buf 64 10).1 (field o [] (numeral 10 x))) value),
      )

  prefixed-Wrote :
      (prefix : List ℕ) (base n value : ℕ)
      → Shrinks (radix base)
      → n ≡ value
      → value < 2 ^ 64
      → Wrote reached
          (field o (if o.altform then prefix else []) (numeral base value))
          (some (print_prefixed prefix base n reached))
  prefixed-Wrote prefix base n value shrinks e fits = (
    (itoa n t.buf 64 base).1,
    ap (λ (s : Printer). some s)
        (prefixed_wrote prefix base n shrinks (subst (λ x. x < 2 ^ 64) (sym e) fits)
          ∙ ap
              (λ (x : ℕ).
                wrote (itoa n t.buf 64 base).1
                  (field o (if o.altform then prefix else []) (numeral base x)))
              e),
  )

  -- Each conversion of a number takes its argument and writes its text.
  pub number-Wrote :
      (memory : ℕ → ℕ) (kind : NumberKind) (arg : ℕ)
      → Wrote reached
          (number_text o kind arg)
          (conversion memory (kind_letter kind) (record reached { ap = arg ∷ t.ap }))
  unfolding conversion va_arg print_octal print_lower_hex print_upper_hex unsigned_cast
  number-Wrote memory decimal arg = print_signed-Wrote arg
  number-Wrote memory integer arg = print_signed-Wrote arg
  number-Wrote memory unsigned_decimal arg = print_unsigned-Wrote arg
  number-Wrote memory octal arg =
      prefixed-Wrote (b'0' ∷ []) 8 (unsigned_cast reached.flags arg) (unsigned_value o.modifier arg)
        Shrinks-eight (value_cast o.modifier o arg) (unsigned_value-lt o.modifier arg)
  number-Wrote memory lower_hex arg =
      prefixed-Wrote (b'0' ∷ b'x' ∷ []) 16 (unsigned_cast reached.flags arg)
        (unsigned_value o.modifier arg) Shrinks-sixteen (value_cast o.modifier o arg)
        (unsigned_value-lt o.modifier arg)
  number-Wrote memory upper_hex arg =
      prefixed-Wrote (b'0' ∷ b'X' ∷ []) 240 (unsigned_cast reached.flags arg)
        (unsigned_value o.modifier arg) Shrinks-sixteen (value_cast o.modifier o arg)
        (unsigned_value-lt o.modifier arg)
  number-Wrote memory pointer arg =
      prefixed-Wrote (b'0' ∷ b'x' ∷ []) 16 (u32 arg) (u32 arg) Shrinks-sixteen refl (omega arith)
