-- ===== src/Print/Bounds.antt =====
-- printm writes no byte outside its buffer, whatever the format and the arguments are.
mod Buffers
use mathlib.Core.Path.{subst}
use mathlib.Core.Option.{some_inj}
use echelon_sbi.Base.{
  ◌^◌, ℕ, suc, ◌+◌, ◌-◌, ◌%◌, ◌<◌, ◌≡◌, refl, ap, ◌∙◌, Bool, true, false, ◌||◌, ◌==◌, ltb, leb,
  if◌then◌else◌, Bool-cases, inl, inr, Option, some, none, ◌>>=◌, List, [], ◌∷◌, update_ne, u8, u32,
  arith,
}
use echelon_sbi.Text.Strings.{strlen, strnlen}
use echelon_sbi.Print.{
  Flags, Printer, write, plain_character, enter_special, end_special, width_digit, modifier,
}
use echelon_sbi.Print.Numeral.{itoa}
use echelon_sbi.Print.Convert.{
  literal, signed_cast, unsigned_cast, sign_prefix, print_signed, print_unsigned, print_prefixed,
  print_octal, print_lower_hex, print_upper_hex, print_character, print_text, va_arg,
  is_unsupported, conversion, special_character, format_character, format_loop,
}
use echelon_sbi.Print.Bounds.Buffers.{
  Keeps, itoa-Keeps, unsigned_field-buf, prefixed_field-buf, signed_field-buf,
}

-- The index stays inside the buffer too.
abbrev pub IsInside : (s t : Printer) → Type 0
IsInside s t = (t.j < 64) × Keeps s.buf t.buf

abbrev pub Stays : Printer → Option Printer → Type 0
Stays s result = (t : Printer) → result ≡ some t → IsInside s t

some-Stays : (s u : Printer) → IsInside s u → Stays s (some u)
some-Stays s u inside t e = subst (λ v. IsInside s v) (some_inj.0 e) inside

if-Stays :
    (s : Printer) (b : Bool) (x y : Option Printer)
    → Stays s x
    → Stays s y
    → Stays s (if b then x else y)
if-Stays s true x y sx sy = sx
if-Stays s false x y sx sy = sy

print_signed-IsInside : (arg : ℕ) (s : Printer) → IsInside s (print_signed arg s)
unfolding print_signed end_special
print_signed-IsInside arg s =
    let num = signed_cast s.flags arg in
    let negative = leb (2 ^ 63) num in
    let r = itoa (if negative then 2 ^ 64 - num else num) s.buf 64 10 in
    (
      omega arith,
      λ a high.
          ap (λ (f : ℕ → ℕ). f a)
            (signed_field-buf s.flags.leftadj s.flags.zeropad (sign_prefix negative s.flags) r.0
              (record s { buf = r.1 }))
          ∙ (itoa-Keeps (if negative then 2 ^ 64 - num else num) s.buf 10).1 a high,
    )

print_unsigned-IsInside : (arg : ℕ) (s : Printer) → IsInside s (print_unsigned arg s)
unfolding print_unsigned end_special
print_unsigned-IsInside arg s =
    let r = itoa (unsigned_cast s.flags arg) s.buf 64 10 in
    (
      omega arith,
      λ a high.
          ap (λ (f : ℕ → ℕ). f a)
            (unsigned_field-buf s.flags.leftadj s.flags.zeropad r.0 (record s { buf = r.1 }))
          ∙ (itoa-Keeps (unsigned_cast s.flags arg) s.buf 10).1 a high,
    )

print_prefixed-IsInside :
    (prefix : List ℕ) (base number : ℕ) (s : Printer)
    → IsInside s (print_prefixed prefix base number s)
unfolding print_prefixed end_special
print_prefixed-IsInside prefix base number s =
    let r = itoa number s.buf 64 base in
    (
      omega arith,
      λ a high.
          ap (λ (f : ℕ → ℕ). f a)
            (prefixed_field-buf s.flags.leftadj s.flags.zeropad s.flags.altform prefix r.0
              (record s { buf = r.1 }))
          ∙ (itoa-Keeps number s.buf base).1 a high,
    )

va_arg-Stays :
    (convert : ℕ → Printer → Option Printer) (s : Printer)
    → ((arg : ℕ) (rest : List ℕ) → Stays s (convert arg (record s { ap = rest })))
    → Stays s (va_arg convert s)
unfolding va_arg
va_arg-Stays convert s stays =
    elim s.ap
      as (λ (args : List ℕ).
        Stays s (elim args [ [] ↦ none | arg ∷ rest ↦ convert arg (record s { ap = rest }) ])) [
          | [] ↦ λ t e. absurd (ground arith)
          | arg ∷ rest ↦ stays arg rest
        ]

print_character-IsInside : (arg : ℕ) (s : Printer) → IsInside s (print_character arg s)
unfolding print_character end_special write
print_character-IsInside arg s =
    (omega arith, λ a high. update_ne s.buf 0 (u8 arg) a λ e. omega arith)

print_text-Stays : (memory : ℕ → ℕ) (arg : ℕ) (s : Printer) → Stays s (print_text memory arg s)
unfolding print_text end_special write
print_text-Stays memory arg s =
    elim (if ltb 0 s.fdwidth
        then some (strnlen (u32 arg) s.fdwidth memory)
        else strlen (u32 arg) memory)
      as (λ (found : Option ℕ). Stays s (
        found >>= λ n. some (
          end_special
            (write (if u32 arg == 0 then none else some λ i. memory (u32 arg + i)) n s)))) [
              | none ↦ λ t e. absurd (ground arith)
              | some n ↦ some-Stays s _ (omega arith, λ a high. refl)
            ]

number-Stays :
    (print : ℕ → Printer → Printer) (s : Printer)
    → ((arg : ℕ) (t : Printer) → IsInside t (print arg t))
    → Stays s (va_arg (λ arg t. some (print arg t)) s)
number-Stays print s inside =
    va_arg-Stays (λ arg t. some (print arg t)) s
      λ arg rest.
        some-Stays s (print arg (record s { ap = rest })) (inside arg (record s { ap = rest }))

end_special-IsInside : (s : Printer) → IsInside s (end_special s)
unfolding end_special
end_special-IsInside s = (omega arith, λ a high. refl)

conversion-Stays :
    (memory : ℕ → ℕ) (c : ℕ) (s : Printer) → s.j < 64 → Stays s (conversion memory c s)
unfolding conversion print_octal print_lower_hex print_upper_hex end_special write
conversion-Stays memory c s room =
    if-Stays s (c == b'd' || c == b'i') (va_arg (λ arg t. some (print_signed arg t)) s) _
      (number-Stays print_signed s print_signed-IsInside)
      (if-Stays s (c == b'u') (va_arg (λ arg t. some (print_unsigned arg t)) s) _
        (number-Stays print_unsigned s print_unsigned-IsInside)
        (if-Stays s (c == b'o') (va_arg (λ arg t. some (print_octal arg t)) s) _
          (number-Stays print_octal s λ arg t. print_prefixed-IsInside _ _ _ t)
          (if-Stays s (c == b'x' || c == b'p') (va_arg (λ arg t. some (print_lower_hex c arg t)) s)
            _ (number-Stays (print_lower_hex c) s λ arg t. print_prefixed-IsInside _ _ _ t)
            (if-Stays s (c == b'X') (va_arg (λ arg t. some (print_upper_hex arg t)) s) _
              (number-Stays print_upper_hex s λ arg t. print_prefixed-IsInside _ _ _ t)
              (if-Stays s (c == b'c') (va_arg (λ arg t. some (print_character arg t)) s) _
                (number-Stays print_character s print_character-IsInside)
                (if-Stays s (c == b's') (va_arg (λ arg t. print_text memory arg t) s) _
                  (va_arg-Stays (λ arg t. print_text memory arg t) s
                    λ arg rest. print_text-Stays memory arg (record s { ap = rest }))
                  (if-Stays s (c == b'%') _ _
                    (some-Stays s (end_special (write (some (literal (b'%' ∷ []))) 1 s))
                      (end_special-IsInside (write (some (literal (b'%' ∷ []))) 1 s)))
                    (if-Stays s (is_unsupported c) (some (end_special s)) (some s)
                      (some-Stays s (end_special s) (end_special-IsInside s))
                      (some-Stays s s (room, λ a high. refl))))))))))

special_character-Stays :
    (memory : ℕ → ℕ) (c : ℕ) (s : Printer) → s.j < 64 → Stays s (special_character memory c s)
unfolding special_character width_digit
special_character-Stays memory c s room =
    if-Stays s _ _ _ (some-Stays s _ (room, λ a high. refl))
      (elim (modifier c (record s.flags { fdwidth = false }))
        as (λ (m : Option Flags). Stays s (elim m [
          | some flags ↦ some (record s { flags = flags })
          | none ↦ conversion memory c (record s { flags = record s.flags { fdwidth = false } })
        ])) [
          | none ↦
              conversion-Stays memory c (record s { flags = record s.flags { fdwidth = false } })
                room
          | some flags ↦ some-Stays s _ (room, λ a high. refl)
        ])

plain_character-IsInside : (c : ℕ) (s : Printer) → s.j < 64 → IsInside s (plain_character c s)
unfolding plain_character write
plain_character-IsInside c s room = elim (Bool-cases (suc s.j == 64)) [
  | inl full ↦ rw full (omega arith, λ a high. update_ne s.buf s.j c a λ e. omega arith)
  | inr space ↦ rw space (ground arith, λ a high. update_ne s.buf s.j c a λ e. omega arith)
]

format_character-Stays :
    (memory : ℕ → ℕ) (c : ℕ) (s : Printer) → s.j < 64 → Stays s (format_character memory c s)
unfolding format_character enter_special write
format_character-Stays memory c s room =
    if-Stays s _ _ _ (some-Stays s _ (plain_character-IsInside c s room)) (
      if-Stays s _ _ _ (special_character-Stays memory c s room)
        (some-Stays s _ (omega arith, λ a high. refl)))

-- From a state whose index is inside the buffer, the loop of printm keeps it there and changes no byte
-- behind the 64 of the buffer, for every format, argument and memory.
pub format_loop-Stays :
    (memory : ℕ → ℕ) (format : List ℕ) (s : Printer)
    → s.j < 64
    → Stays s (format_loop memory format s)
unfolding format_loop
format_loop-Stays memory [] s room = some-Stays s s (room, λ a high. refl)
format_loop-Stays memory (c ∷ cs) s room =
    if-Stays s _ _ _ (some-Stays s s (room, λ a high. refl)) (
      elim (format_character memory c s)
          as (λ (r : Option Printer). Stays s r → Stays s (r >>= λ u. format_loop memory cs u)) [
            | none ↦ λ stays t e. absurd (ground arith)
            | some u ↦ λ stays t e.
                let (room', keeps) = stays u refl in
                let (room'', keeps') = format_loop-Stays memory cs u room' t e in
                (room'', λ a high. keeps' a high ∙ keeps a high)
          ]
        (format_character-Stays memory c s room))
