-- ===== src/Print/Digits.antt =====
-- The loops of `_itoa` write the numeral of their number.
use mathlib.Core.List.{map}
use native.Mathlib.Nat.{pow-suc}
use echelon_sbi.Base.{
  ℕ, zero, suc, ◌+◌, ◌/◌, ◌%◌, ◌^◌, ◌≤◌, ◌<◌, ◌≡◌, ◌≢◌, refl, sym, ap, ◌∙◌, ◌==◌, leb, ltb, ◌⊎◌,
  Bool-cases, inl, inr, true, false, if◌then◌else◌, List, [], ◌∷◌, ◌++◌, length, length-append,
  update, update_self, update_ne, arith,
}
use echelon_sbi.Text.{slice}
use echelon_sbi.Text.Slices.{slice-last}
use echelon_sbi.Print.Numeral.{
  digit_character, digit_loop, reverse_loop, letter_offset, radix, finish, itoa,
}
use echelon_sbi.Print.Layout.{digits, numeral}

-- The bytes of a range, the last one first.
unfoldable mirror : (f : ℕ → ℕ) (p n : ℕ) → List ℕ
mirror f p zero = []
mirror f p (suc n) = mirror f (suc p) n ++ (f p ∷ [])

swap : (j k : ℕ) (buf : ℕ → ℕ) → ℕ → ℕ
swap j k buf = update (update buf k (buf j)) j (buf k)

swap_other : (j k : ℕ) (buf : ℕ → ℕ) (a : ℕ) → a ≢ j → a ≢ k → swap j k buf a ≡ buf a
unfolding swap
swap_other j k buf a not_j not_k = ground arith

swap_low : (j k : ℕ) (buf : ℕ → ℕ) (a : ℕ) → a ≡ k → k ≢ j → swap j k buf a ≡ buf j
unfolding swap
swap_low j k buf a e apart = ground arith

swap_high : (j k : ℕ) (buf : ℕ → ℕ) (a : ℕ) → a ≡ j → swap j k buf a ≡ buf k
unfolding swap
swap_high j k buf a e = ground arith

pub reverse_loop_outside :
    (j k : ℕ) (buf : ℕ → ℕ) (a : ℕ) → (j ≤ a) ⊎ (a < k) → reverse_loop j k buf a ≡ buf a
unfolding reverse_loop swap
reverse_loop_outside zero k buf a out = refl
reverse_loop_outside (suc j) k buf a out = elim (Bool-cases (leb j k)) [
  | inl met ↦ rw met refl
  | inr apart ↦
      let far : k < j = ground arith in
      let not_j : a ≢ j = λ e. elim out [ inl high ↦ omega arith | inr low ↦ omega arith ] in
      let not_k : a ≢ k = λ e. elim out [ inl high ↦ omega arith | inr low ↦ omega arith ] in
      rw apart (
        reverse_loop_outside j (suc k) (swap j k buf) a
          (elim out [ inl high ↦ inl (omega arith) | inr low ↦ inr (omega arith) ])
        ∙ swap_other j k buf a not_j not_k)
]

-- The second loop exchanges the places that are equally far from both ends.
reverse_loop_inside :
    (j k : ℕ) (buf : ℕ → ℕ) (a b : ℕ)
    → k ≤ a
    → a < j
    → a + b + 1 ≡ j + k
    → reverse_loop j k buf a ≡ buf b
unfolding reverse_loop swap
reverse_loop_inside zero k buf a b low high e = absurd (omega arith)
reverse_loop_inside (suc j) k buf a b low high e = elim (Bool-cases (leb j k)) [
  | inl met ↦
      let le : j ≤ k = ground arith in let middle : a ≡ b = omega arith in rw met (ap buf middle)
  | inr apart ↦
      let far : k < j = ground arith in
      elim (Bool-cases (a == k)) [
        | inl at_k ↦
            let ak : a ≡ k = ground arith in
            let bj : j ≡ b = omega arith in
            rw apart (
              reverse_loop_outside j (suc k) (swap j k buf) a (inr (omega arith))
              ∙ swap_low j k buf a ak (λ eq. omega arith)
              ∙ ap buf bj)
        | inr not_k ↦
            let above : k < a = ground arith in
            elim (Bool-cases (a == j)) [
              | inl at_j ↦
                  let aj : a ≡ j = ground arith in
                  let bk : k ≡ b = omega arith in
                  rw apart (
                    reverse_loop_outside j (suc k) (swap j k buf) a (inl (omega arith))
                    ∙ swap_high j k buf a aj
                    ∙ ap buf bk)
              | inr not_j ↦
                  let below : a < j = ground arith in
                  rw apart (
                    reverse_loop_inside j (suc k) (swap j k buf) a b (omega arith) below
                      (omega arith)
                    ∙ swap_other j k buf b (λ eq. omega arith) (λ eq. omega arith))
            ]
      ]
]

slice-mirror :
    (f g : ℕ → ℕ) (p q n : ℕ)
    → ((a b : ℕ) → p ≤ a → a < p + n → a + b + 1 ≡ n + p + q → f a ≡ g b)
    → slice f p n ≡ mirror g q n
unfolding slice mirror
slice-mirror f g p q zero same = refl
slice-mirror f g p q (suc n) same =
    let last : f (p + n) ≡ g q = same (p + n) q (omega arith) (omega arith) (omega arith) in
    let others : slice f p n ≡ mirror g (suc q) n =
      slice-mirror f g p (suc q) n
        λ a b low high e. same a b (omega arith) (omega arith) (omega arith) in
    slice-last f p n ∙ rw (others, last) refl

slice-reverse_loop : (n : ℕ) (buf : ℕ → ℕ) → slice (reverse_loop n 0 buf) 0 n ≡ mirror buf 0 n
slice-reverse_loop n buf =
    slice-mirror (reverse_loop n 0 buf) buf 0 0 n
      λ a b low high e. reverse_loop_inside n 0 buf a b low (omega arith) (omega arith)

-- A base that halves a number at least.
abbrev pub Shrinks : ℕ → Type 0
Shrinks base = (n : ℕ) → n / base ≤ n / 2

pub map-append : (f : ℕ → ℕ) (xs ys : List ℕ) → map f (xs ++ ys) ≡ map f xs ++ map f ys
map-append f [] ys = refl
map-append f (x ∷ xs) ys = ap (λ (zs : List ℕ). f x ∷ zs) (map-append f xs ys)

-- What the first loop leaves: the digits, the lowest first, from `i` on.
abbrev Writes : (ds : List ℕ) (offset i : ℕ) (buf : ℕ → ℕ) → ℕ × (ℕ → ℕ) → Type 0
Writes ds offset i buf result =
    (result.0 ≡ i + length ds)
    × (mirror result.1 i (length ds) ≡ map (digit_character offset) ds)
    × ((a : ℕ) → a < i → result.1 a ≡ buf a)

digit_loop-Writes :
    (base offset : ℕ)
    → Shrinks base
    → (left number i : ℕ) (buf : ℕ → ℕ) → number < 2 ^ left
    → Writes (digits left base number) offset i buf (digit_loop left number base offset i buf)
unfolding digit_loop digits mirror
digit_loop-Writes base offset shrinks zero number i buf enough =
    (omega arith, refl, λ a below. refl)
digit_loop-Writes base offset shrinks (suc left) number i buf enough =
    elim (Bool-cases (number == 0)) [
      | inl none_left ↦
          let stop : ltb 0 number ≡ false = ground arith in
          rw (none_left, stop) (omega arith, refl, λ a below. refl)
      | inr more ↦
          let go_on : ltb 0 number ≡ true = ground arith in
          let c = digit_character offset (number % base) in
          let half : number / base < 2 ^ left = omega (arith, shrinks number, pow-suc 2 left) in
          let (count, written, kept) =
            digit_loop-Writes base offset shrinks left (number / base) (suc i) (update buf i c)
              half in
          let ds = digits left base (number / base) in
          let longer : length (ds ++ (number % base ∷ [])) ≡ suc (length ds) =
            omega (arith, length-append ds (number % base ∷ [])) in
          let first = kept i (omega arith) ∙ update_self buf i c in
          rw (more, go_on, longer)
            (
              omega arith,
              rw (written, first)
                  (sym (map-append (digit_character offset) ds (number % base ∷ []))),
              λ a below. kept a (omega arith) ∙ update_ne buf i c a (λ e. omega arith),
            )
    ]

length-digits : (fuel base number : ℕ) → length (digits fuel base number) ≤ fuel
unfolding digits
length-digits zero base number = omega arith
length-digits (suc fuel) base number =
    let shorter = length-digits fuel base (number / base) in
    let longer = length-append (digits fuel base (number / base)) (number % base ∷ []) in
    ground arith

length-map : (f : ℕ → ℕ) (xs : List ℕ) → length (map f xs) ≡ length xs
length-map f [] = refl
length-map f (x ∷ xs) = ap (λ (n : ℕ). suc n) (length-map f xs)

-- No number but zero is without digits.
digits-some : (fuel base number : ℕ) → number ≢ 0 → length (digits (suc fuel) base number) ≢ 0
unfolding digits
digits-some fuel base number positive e =
    let longer = length-append (digits fuel base (number / base)) (number % base ∷ []) in
    ground arith

-- `_itoa` leaves the numeral of its number at the start of its array, and returns its length.
abbrev pub IsNumeral : (numeral : List ℕ) → ℕ × (ℕ → ℕ) → Type 0
IsNumeral numeral result = (result.0 ≡ length numeral) × (slice result.1 0 result.0 ≡ numeral)

finish-IsNumeral :
    (offset number : ℕ) (ds : List ℕ) (result : ℕ × (ℕ → ℕ))
    → result.0 ≡ length ds
    → mirror result.1 0 (length ds) ≡ map (digit_character offset) ds
    → number ≢ 0
    → length ds ≢ 0
    → IsNumeral
        (if number == 0 then b'0' ∷ [] else map (digit_character offset) ds)
        (finish 64 result)
unfolding finish
finish-IsNumeral offset number ds (i, buf) count written positive some_digit =
    let number_positive : (number == 0) ≡ false = ground arith in
    let count_positive : (i == 0) ≡ false = ground arith in
    rw (number_positive, count_positive)
      (
        count ∙ sym (length-map (digit_character offset) ds),
        slice-reverse_loop i buf ∙ rw count written,
      )

finish-zero : (offset : ℕ) (ds : List ℕ) (buf : ℕ → ℕ) → IsNumeral (b'0' ∷ []) (finish 64 (0, buf))
unfolding finish slice reverse_loop
finish-zero offset ds buf = (refl, refl)

digit_loop-zero :
    (left base offset i : ℕ) (buf : ℕ → ℕ) → digit_loop left 0 base offset i buf ≡ (i, buf)
unfolding digit_loop
digit_loop-zero zero base offset i buf = refl
digit_loop-zero (suc left) base offset i buf = refl

pub itoa-IsNumeral :
    (number : ℕ) (buf : ℕ → ℕ) (base : ℕ)
    → Shrinks (radix base)
    → number < 2 ^ 64
    → IsNumeral (numeral base number) (itoa number buf 64 base)
unfolding itoa numeral
itoa-IsNumeral zero buf base shrinks enough =
    rw (digit_loop-zero 64 (radix base) (letter_offset base) 0 buf) (finish-zero 0 [] buf)
itoa-IsNumeral (suc n) buf base shrinks enough =
    let (count, written, kept) =
      digit_loop-Writes (radix base) (letter_offset base) shrinks 64 (suc n) 0 buf enough in
    finish-IsNumeral (letter_offset base) (suc n) (digits 64 (radix base) (suc n))
      (digit_loop 64 (suc n) (radix base) (letter_offset base) 0 buf) (omega arith) written
      (λ e. omega arith) (digits-some 63 (radix base) (suc n) λ e. omega arith)
