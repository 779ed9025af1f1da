-- ===== src/Print/ReadBack.antt =====
-- The number that `_itoa` was given is what its digits stand for.
use mathlib.Core.List.{map}
use native.Mathlib.Nat.{div-add-mod', div-lt_iff_lt-mul, mod-lt, mul-le-mul_left, pow-suc}
use echelon_sbi.Base.{
  ℕ, zero, suc, ◌+◌, ◌-◌, ◌*◌, ◌/◌, ◌%◌, ◌^◌, ◌≤◌, ◌<◌, ◌≡◌, refl, ap, ◌∙◌, ◌==◌, leb,
  if◌then◌else◌, List, [], ◌∷◌, ◌++◌, Bool-cases, false, inl, inr, arith,
}
use echelon_sbi.Text.{slice}
use echelon_sbi.Print.Numeral.{digit_character, letter_offset, radix, itoa}
use echelon_sbi.Print.Layout.{digits, numeral}
use echelon_sbi.Print.Digits.{Shrinks, map-append, itoa-IsNumeral}

-- The digit that a character stands for.
unfoldable pub digit_of : ℕ → ℕ
digit_of c = if leb b'a' c then c - b'a' + 10 else if leb b'A' c then c - b'A' + 10 else c - b'0'

-- The number that characters stand for, behind digits that stand for `above`.
unfoldable pub number_of : (base : ℕ) → List ℕ → (above : ℕ) → ℕ
unfolding digit_of
number_of base [] above = above
number_of base (c ∷ cs) above = number_of base cs (above * base + digit_of c)

pub Shrinks-of : (base : ℕ) → 1 < base → Shrinks base
Shrinks-of base more n =
    let wide : (n / 2 + 1) * 2 ≤ (n / 2 + 1) * base = mul-le-mul_left (n / 2 + 1) (omega arith) in
    let small : n / base < n / 2 + 1 =
      (div-lt_iff_lt-mul {k = base} {x = n} {y = n / 2 + 1} (omega arith)).1 (omega arith) in
    omega arith

number_of-append :
    (base : ℕ) (xs : List ℕ) (c above : ℕ)
    → number_of base (xs ++ (c ∷ [])) above ≡ number_of base xs above * base + digit_of c
unfolding number_of
number_of-append base [] c above = refl
number_of-append base (x ∷ xs) c above = number_of-append base xs c (above * base + digit_of x)

digit_of-digit_character :
    (base d : ℕ) → d < 16 → digit_of (digit_character (letter_offset base) d) ≡ d
unfolding digit_of digit_character
digit_of-digit_character base d below = ground arith

number_of-digits :
    (base fuel number : ℕ)
    → Shrinks (radix base)
    → 1 < radix base
    → radix base ≤ 16
    → number < 2 ^ fuel
    → number_of
        (radix base)
        (map (digit_character (letter_offset base)) (digits fuel (radix base) number))
        0
      ≡ number
unfolding number_of digits
number_of-digits base zero number shrinks more few enough = omega arith
number_of-digits base (suc fuel) number shrinks more few enough = elim (Bool-cases (number == 0)) [
  | inl none_left ↦ rw none_left (ground arith)
  | inr some_left ↦
      let f = digit_character (letter_offset base) in
      let b = radix base in
      let half : number / b < 2 ^ fuel = omega (arith, shrinks number, pow-suc 2 fuel) in
      let low : number % b < b = mod-lt number (omega arith) in
      let ds = digits fuel b (number / b) in
      let above = number_of-digits base fuel (number / b) shrinks more few half in
      let last = digit_of-digit_character base (number % b) (omega arith) in
      let whole = div-add-mod' number b in
      rw
        (
          some_left,
          map-append f ds (number % b ∷ []),
          number_of-append b (map f ds) (f (number % b)) 0,
          above,
          last,
        )
        whole
]

zero_text : (b : ℕ) → number_of b (b'0' ∷ []) 0 ≡ 0
unfolding number_of
zero_text b = omega arith

number_of-numeral :
    (base number : ℕ)
    → 1 < radix base
    → radix base ≤ 16
    → number < 2 ^ 64
    → number_of (radix base) (numeral base number) 0 ≡ number
unfolding numeral
number_of-numeral base zero more few enough = zero_text (radix base)
number_of-numeral base (suc n) more few enough =
    let positive : (suc n == 0) ≡ false = ground arith in
    rw positive (number_of-digits base 64 (suc n) (Shrinks-of (radix base) more) more few enough)

-- For a base from 2 to 16, of either sign, `_itoa` on a number of 64 bits and an array of 64 bytes
-- leaves characters that read back as that number.
pub itoa-GivesBack :
    (number : ℕ) (buf : ℕ → ℕ) (base : ℕ)
    → 1 < radix base
    → radix base ≤ 16
    → number < 2 ^ 64
    → number_of (radix base) (slice (itoa number buf 64 base).1 0 (itoa number buf 64 base).0) 0
      ≡ number
itoa-GivesBack number buf base more few enough =
    let (count, written) = itoa-IsNumeral number buf base (Shrinks-of (radix base) more) enough in
    ap (λ (cs : List ℕ). number_of (radix base) cs 0) written
    ∙ number_of-numeral base number more few enough
