-- ===== src/Print/Directive.antt =====
-- Formats as C's standard describes them: the parts of a format as data, the characters and the
-- arguments that they stand for, and what each part writes.
use mathlib.Core.List.{map}
use echelon_sbi.Base.{
  ℕ, zero, suc, ◌+◌, ◌-◌, ◌%◌, ◌^◌, ◌<◌, ◌≢◌, Bool, ◌==◌, leb, if◌then◌else◌, List, [], ◌∷◌, ◌++◌,
  length, word_mod,
}
use echelon_sbi.Text.{IsText}
use echelon_sbi.Print.Layout.{digits, numeral, layout}

pub data LengthModifier : Type 0 where
  no_modifier char_modifier short_modifier long_modifier long_long_modifier : LengthModifier

-- The options of a directive; a width of zero is none.
pub record Options : Type 0 where
  pub altform : Bool
  pub zeropad : Bool
  pub leftadj : Bool
  pub spacepd : Bool
  pub asigned : Bool
  pub width : ℕ
  pub modifier : LengthModifier

pub data NumberKind : Type 0 where
  decimal integer unsigned_decimal octal lower_hex upper_hex pointer : NumberKind

-- A text for itself, or a directive with its argument. A string is an address, with the text there.
pub data Part : Type 0 where
  plain : List ℕ → Part
  number : Options → NumberKind → (arg : ℕ) → Part
  character : Options → (arg : ℕ) → Part
  string : Options → (address : ℕ) → List ℕ → Part
  percent : Options → Part

-- The characters of a format.
abbrev pub when : Bool → ℕ → List ℕ
when b c = if b then c ∷ [] else []

abbrev pub modifier_text : LengthModifier → List ℕ
modifier_text no_modifier = []
modifier_text char_modifier = b'h' ∷ b'h' ∷ []
modifier_text short_modifier = b'h' ∷ []
modifier_text long_modifier = b'l' ∷ []
modifier_text long_long_modifier = b'l' ∷ b'l' ∷ []

abbrev pub kind_letter : NumberKind → ℕ
kind_letter decimal = b'd'
kind_letter integer = b'i'
kind_letter unsigned_decimal = b'u'
kind_letter octal = b'o'
kind_letter lower_hex = b'x'
kind_letter upper_hex = b'X'
kind_letter pointer = b'p'

abbrev pub width_text : (width : ℕ) → List ℕ
width_text width = map (λ d. d + b'0') (digits 64 10 width)

-- A directive, up to its letter.
unfoldable pub directive_text : Options → (letter : ℕ) → (rest : List ℕ) → List ℕ
directive_text o letter rest =
    b'%' ∷ when o.altform b'#'
    ++ (when o.zeropad b'0'
        ++ (when o.leftadj b'-'
            ++ (when o.spacepd b' '
                ++ (when o.asigned b'+'
                    ++ (width_text o.width ++ (modifier_text o.modifier ++ (letter ∷ rest)))))))

unfoldable pub format_text : List Part → List ℕ
unfolding directive_text
format_text [] = []
format_text (plain cs ∷ ps) = cs ++ format_text ps
format_text (number o kind arg ∷ ps) = directive_text o (kind_letter kind) (format_text ps)
format_text (character o arg ∷ ps) = directive_text o b'c' (format_text ps)
format_text (string o address cs ∷ ps) = directive_text o b's' (format_text ps)
format_text (percent o ∷ ps) = directive_text o b'%' (format_text ps)

-- The arguments of a call with that format.
unfoldable pub arguments_of : List Part → List ℕ
arguments_of [] = []
arguments_of (plain cs ∷ ps) = arguments_of ps
arguments_of (number o kind arg ∷ ps) = arg ∷ arguments_of ps
arguments_of (character o arg ∷ ps) = arg ∷ arguments_of ps
arguments_of (string o address cs ∷ ps) = address ∷ arguments_of ps
arguments_of (percent o ∷ ps) = arguments_of ps

-- The bits of an argument that its type has.
abbrev pub bits : LengthModifier → ℕ
bits no_modifier = 32
bits char_modifier = 8
bits short_modifier = 16
bits long_modifier = 32
bits long_long_modifier = 64

abbrev pub unsigned_value : LengthModifier → ℕ → ℕ
unsigned_value m arg = arg % 2 ^ bits m

abbrev pub is_negative : LengthModifier → ℕ → Bool
is_negative m arg = leb (2 ^ (bits m - 1)) (arg % 2 ^ bits m)

abbrev pub magnitude : LengthModifier → ℕ → ℕ
magnitude m arg = if is_negative m arg then 2 ^ bits m - arg % 2 ^ bits m else arg % 2 ^ bits m

abbrev pub sign : Options → (negative : Bool) → List ℕ
sign o negative =
    if negative
    then b'-' ∷ []
    else if o.asigned
    then b'+' ∷ []
    else if o.spacepd
    then b' ' ∷ []
    else []

abbrev pub field : Options → (prefix body : List ℕ) → List ℕ
field o prefix body = layout o.leftadj o.zeropad o.width prefix body

-- The numeral of base -16 has upper-case letters.
abbrev pub number_text : Options → NumberKind → ℕ → List ℕ
number_text o decimal arg =
    field o (sign o (is_negative o.modifier arg)) (numeral 10 (magnitude o.modifier arg))
number_text o integer arg =
    field o (sign o (is_negative o.modifier arg)) (numeral 10 (magnitude o.modifier arg))
number_text o unsigned_decimal arg = field o [] (numeral 10 (unsigned_value o.modifier arg))
number_text o octal arg =
    field o (if o.altform then b'0' ∷ [] else []) (numeral 8 (unsigned_value o.modifier arg))
number_text o lower_hex arg =
    field o (if o.altform then b'0' ∷ b'x' ∷ [] else [])
      (numeral 16 (unsigned_value o.modifier arg))
number_text o upper_hex arg =
    field o (if o.altform then b'0' ∷ b'X' ∷ [] else [])
      (numeral (256 - 16) (unsigned_value o.modifier arg))
number_text o pointer arg =
    field o (if o.altform then b'0' ∷ b'x' ∷ [] else []) (numeral 16 (arg % 2 ^ 32))

-- The first characters of a text.
abbrev pub first : ℕ → List ℕ → List ℕ
first zero cs = []
first (suc n) [] = []
first (suc n) (c ∷ cs) = c ∷ first n cs

-- printm reads the width of a string as its precision, and none for a character.
unfoldable pub rendered : List Part → List ℕ
rendered [] = []
rendered (plain cs ∷ ps) = cs ++ rendered ps
rendered (number o kind arg ∷ ps) = number_text o kind arg ++ rendered ps
rendered (character o arg ∷ ps) = arg % 2 ^ 8 ∷ rendered ps
rendered (string o address cs ∷ ps) = (if o.width == 0 then cs else first o.width cs) ++ rendered ps
rendered (percent o ∷ ps) = b'%' ∷ rendered ps

abbrev pub IsPlain : List ℕ → Type 0
IsPlain [] = Unit {0}
IsPlain (c ∷ cs) = (c ≢ 0) × (c ≢ b'%') × IsPlain cs

-- A format that has no `%` and no zero in its texts, widths that an `unsigned int` holds, and strings
-- that are in memory.
unfoldable pub IsFormat : (memory : ℕ → ℕ) → List Part → Type 0
IsFormat memory [] = Unit {0}
IsFormat memory (plain cs ∷ ps) = IsPlain cs × IsFormat memory ps
IsFormat memory (number o kind arg ∷ ps) = (o.width < word_mod) × IsFormat memory ps
IsFormat memory (character o arg ∷ ps) = (o.width < word_mod) × IsFormat memory ps
IsFormat memory (string o address cs ∷ ps) =
    (o.width < word_mod)
    × (address ≢ 0)
    × (address < word_mod)
    × (length cs < word_mod)
    × IsText memory address cs
    × IsFormat memory ps
IsFormat memory (percent o ∷ ps) = (o.width < word_mod) × IsFormat memory ps
