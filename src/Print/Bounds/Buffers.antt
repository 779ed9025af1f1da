-- ===== src/Print/Bounds/Buffers.antt =====
-- The array of printm that its numbers go to, and what the parts of a field leave of it (printm.c).
use echelon_sbi.Base.{
  ℕ, zero, suc, ◌+◌, ◌/◌, ◌%◌, ◌≤◌, ◌≡◌, refl, ◌∙◌, Bool, true, false, ◌==◌, ltb, if◌then◌else◌,
  Bool-cases, inl, inr, some, List, [], ◌∷◌, update, update_ne, arith,
}
use echelon_sbi.Print.{Printer, write}
use echelon_sbi.Print.Numeral.{digit_character, digit_loop, letter_offset, radix, finish, itoa}
use echelon_sbi.Print.Digits.{reverse_loop_outside}
use echelon_sbi.Print.Convert.{literal, pad_loop, signed_field, unsigned_field, prefixed_field}

-- The bytes from the 64th on are what they were.
abbrev pub Keeps : (before after : ℕ → ℕ) → Type 0
Keeps before after = (a : ℕ) → 64 ≤ a → after a ≡ before a

pub digit_loop-Keeps :
    (left number base offset i : ℕ) (buf : ℕ → ℕ)
    → i + left ≤ 64
    → ((digit_loop left number base offset i buf).0 ≤ i + left)
      × Keeps buf (digit_loop left number base offset i buf).1
unfolding digit_loop
digit_loop-Keeps zero number base offset i buf room = (omega arith, λ a high. refl)
digit_loop-Keeps (suc left) number base offset i buf room =
    let c = digit_character offset (number % base) in
    let (few, keeps) =
      digit_loop-Keeps left (number / base) base offset (suc i) (update buf i c) (omega arith) in
    elim (Bool-cases (ltb 0 number)) [
      | inl more ↦
          rw more (omega arith, λ a high. keeps a high ∙ update_ne buf i c a (λ e. omega arith))
      | inr done ↦ rw done (omega arith, λ a high. refl)
    ]

pub finish-Keeps :
    (result : ℕ × (ℕ → ℕ))
    → result.0 ≤ 64
    → ((finish 64 result).0 ≤ 64) × Keeps result.1 (finish 64 result).1
unfolding finish
finish-Keeps (i, buf) room = elim (Bool-cases (i == 0)) [
  | inl no_digit ↦
      let zero_count : i ≡ 0 = ground arith in
      rw no_digit (
        omega arith,
        λ a high.
            reverse_loop_outside (suc i) 0 (update buf 0 b'0') a (inl (omega arith))
            ∙ update_ne buf 0 b'0' a (λ e. omega arith),
      )
  | inr some_digits ↦
      rw some_digits (room, λ a high. reverse_loop_outside i 0 buf a (inl (omega arith)))
]

-- `_itoa` writes to the 64 bytes of its array, and returns no more.
pub itoa-Keeps :
    (number : ℕ) (buf : ℕ → ℕ) (base : ℕ)
    → ((itoa number buf 64 base).0 ≤ 64) × Keeps buf (itoa number buf 64 base).1
unfolding itoa
itoa-Keeps number buf base =
    let (few, keeps) =
      digit_loop-Keeps 64 number (radix base) (letter_offset base) 0 buf (omega arith) in
    let (few', keeps') =
      finish-Keeps (digit_loop 64 number (radix base) (letter_offset base) 0 buf) (omega arith) in
    (few', λ a high. keeps' a high ∙ keeps a high)

pub pad_loop-buf : (fuel full pad : ℕ) (s : Printer) → (pad_loop fuel full pad s).buf ≡ s.buf
unfolding pad_loop write
pad_loop-buf zero full pad s = refl
pad_loop-buf (suc fuel) full pad s = elim (Bool-cases (ltb full s.fdwidth)) [
  | inl narrow ↦
      rw narrow (pad_loop-buf fuel (suc full) pad (write (some (literal (pad ∷ []))) 1 s))
  | inr wide ↦ rw wide refl
]

pub unsigned_field-buf :
    (is_left zeropad : Bool) (n : ℕ) (s : Printer)
    → (unsigned_field is_left zeropad n s).buf ≡ s.buf
unfolding unsigned_field write
unsigned_field-buf true zeropad n s = pad_loop-buf s.fdwidth _ _ _
unsigned_field-buf false zeropad n s = pad_loop-buf s.fdwidth _ _ _

pub prefixed_field-buf :
    (is_left zeropad altform : Bool) (prefix : List ℕ) (n : ℕ) (s : Printer)
    → (prefixed_field is_left zeropad altform prefix n s).buf ≡ s.buf
unfolding prefixed_field write
prefixed_field-buf true zeropad true prefix n s = pad_loop-buf s.fdwidth _ _ _
prefixed_field-buf true zeropad false prefix n s = pad_loop-buf s.fdwidth _ _ _
prefixed_field-buf false true true prefix n s = pad_loop-buf s.fdwidth _ _ _
prefixed_field-buf false true false prefix n s = pad_loop-buf s.fdwidth _ _ _
prefixed_field-buf false false true prefix n s = pad_loop-buf s.fdwidth _ _ _
prefixed_field-buf false false false prefix n s = pad_loop-buf s.fdwidth _ _ _

pub if-buf :
    (b : Bool) (x y : Printer) (buf : ℕ → ℕ)
    → x.buf ≡ buf
    → y.buf ≡ buf
    → (if b then x else y).buf ≡ buf
if-buf true x y buf ex ey = ex
if-buf false x y buf ex ey = ey

pub signed_field-buf :
    (is_left zeropad : Bool) (prefix : List ℕ) (n : ℕ) (s : Printer)
    → (signed_field is_left zeropad prefix n s).buf ≡ s.buf
unfolding signed_field write
signed_field-buf true zeropad prefix n s = pad_loop-buf s.fdwidth _ _ _
signed_field-buf false true prefix n s = pad_loop-buf s.fdwidth _ _ _
signed_field-buf false false prefix n s =
    if-buf _ _ _ s.buf (pad_loop-buf s.fdwidth _ _ _) (pad_loop-buf s.fdwidth _ _ _)
