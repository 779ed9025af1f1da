-- ===== src/Print/Layout.antt =====
-- What a conversion of printf writes, without the steps of printm.c: the numeral of a number, and
-- its place in a field.
use mathlib.Core.List.{map}
use echelon_sbi.Base.{
  ℕ, zero, suc, ◌+◌, ◌-◌, ◌*◌, ◌/◌, ◌%◌, Bool, ◌==◌, if◌then◌else◌, List, [], ◌∷◌, ◌++◌, length,
}
use echelon_sbi.Print.Numeral.{digit_character, letter_offset, radix}

-- The digits of a number, the highest first, and none of zero.
unfoldable pub digits : (fuel base number : ℕ) → List ℕ
digits zero base number = []
digits (suc fuel) base number =
    let rest = digits fuel base (number / base) in
    if number == 0 then [] else rest ++ (number % base ∷ [])

-- The number that digits stand for.
unfoldable pub value : (base : ℕ) → List ℕ → ℕ → ℕ
value base [] above = above
value base (d ∷ ds) above = value base ds (above * base + d)

-- A number of 64 bits has at most 64 digits. `base` is as for `_itoa`.
unfoldable pub numeral : (base number : ℕ) → List ℕ
numeral base number =
    if number == 0
    then b'0' ∷ []
    else map (digit_character (letter_offset base)) (digits 64 (radix base) number)

unfoldable pub repeat : (count c : ℕ) → List ℕ
repeat zero c = []
repeat (suc count) c = c ∷ repeat count c

-- A body with its prefix in a field of a width.
unfoldable pub layout : (is_left is_zero : Bool) (width : ℕ) (prefix body : List ℕ) → List ℕ
layout is_left is_zero width prefix body =
    let missing = width - (length prefix + length body) in
    if is_left
    then prefix ++ body ++ repeat missing b' '
    else if is_zero
    then prefix ++ repeat missing b'0' ++ body
    else repeat missing b' ' ++ (prefix ++ body)
