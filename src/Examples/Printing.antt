-- ===== src/Examples/Printing.antt =====
-- The text routines and printm on concrete bytes.
use echelon_sbi.Base.{
  ℕ, suc, ◌≡◌, refl, inl, ◌-◌, ◌+◌, ◌==◌, ◌&&◌, not, Bool, true, false, some, List, [], ◌∷◌, arith,
}
use echelon_sbi.Text.{codes, IsText, slice, send, uart_write, uart_write_loop, uart_putc}
use echelon_sbi.Text.Strings.{strlen, strnlen, strcmp, memcpy}
use echelon_sbi.Text.Compare.{Compares, strcmp-Compares}
use echelon_sbi.Text.Copies.{Holds, memcpy-Holds}
use echelon_sbi.Print.ReadBack.{number_of, itoa-GivesBack}
use echelon_sbi.Print.Bounds.{Stays, format_loop-Stays}
use echelon_sbi.Print.Directive.{
  Options, Part, plain, number, string, percent, decimal, upper_hex, no_modifier, char_modifier,
  format_text, arguments_of, rendered, IsPlain, IsFormat,
}
use echelon_sbi.Print.Render.{printm-Renders}
use echelon_sbi.Print.{
  Printer, no_flags, write, plain_character, enter_special, end_special, width_digit, modifier,
}
use echelon_sbi.Print.Numeral.{digit_character, digit_loop, reverse_loop, finish, itoa}
use echelon_sbi.Print.Convert.{
  literal, signed_cast, unsigned_cast, pad_loop, signed_field, sign_prefix, print_signed,
  unsigned_field, print_unsigned, prefixed_field, print_prefixed, print_octal, print_lower_hex,
  print_upper_hex, print_character, print_text, va_arg, conversion, special_character,
  format_character, format_loop, printm,
}

abbrev greeting : ℕ → ℕ
greeting = literal (codes "hi there")

number_line :
    printm greeting
      (λ i. 170)
      (codes "n=%5d|%-6x|%#010X|%+i %hhu %s %lld %05d%%\n")
      (42 ∷ 255 ∷ 48879 ∷ 7 ∷ 511 ∷ 3 ∷ 18446744073709551615 ∷ 4294967293 ∷ [])
    ≡ some (codes "n=   42|ff    |0X0000BEEF|+7 255 there -1 -0003%\n\r")
unfolding printm uart_write uart_write_loop uart_putc write plain_character enter_special
    end_special width_digit modifier signed_cast unsigned_cast pad_loop signed_field sign_prefix
    print_signed unsigned_field print_unsigned prefixed_field print_prefixed print_octal
    print_lower_hex print_upper_hex print_character print_text va_arg conversion special_character
    format_character format_loop itoa finish digit_loop reverse_loop digit_character strlen strnlen
number_line = refl

-- Texts in a concrete memory, by a test.
abbrev pub text_test : (memory : ℕ → ℕ) (at : ℕ) → List ℕ → Bool
text_test memory at [] = memory at == 0
text_test memory at (c ∷ cs) = (memory at == c) && (not (c == 0) && text_test memory (suc at) cs)

pub IsText-tested :
    (memory : ℕ → ℕ) (at : ℕ) (cs : List ℕ) → text_test memory at cs ≡ true → IsText memory at cs
unfolding IsText
IsText-tested memory at [] passes = ground arith
IsText-tested memory at (c ∷ cs) passes =
    (ground arith, (λ e. ground arith), IsText-tested memory (suc at) cs (ground arith))

abbrev options : Options
options = record {
  altform = true;
  zeropad = true;
  leftadj = false;
  spacepd = false;
  asigned = true;
  width = 10;
  modifier = no_modifier;
}

abbrev parts : List Part
parts =
    plain (codes "id ")
    ∷ number options upper_hex 0xBEEF
    ∷ plain (codes ": ")
    ∷ string (record options { width = 0 }) 3 (codes "there")
    ∷ number (record options { modifier = char_modifier }) decimal 0x1FD
    ∷ percent (record options { width = 0 })
    ∷ []

there-IsText : IsText greeting 3 (codes "there")
there-IsText = IsText-tested greeting 3 (codes "there") refl

abbrev plain_test : List ℕ → Bool
plain_test [] = true
plain_test (c ∷ cs) = not (c == 0) && (not (c == b'%') && plain_test cs)

IsPlain-tested : (cs : List ℕ) → plain_test cs ≡ true → IsPlain cs
IsPlain-tested [] passes = tt
IsPlain-tested (c ∷ cs) passes =
    ((λ e. ground arith), (λ e. ground arith), IsPlain-tested cs (ground arith))

parts-IsFormat : IsFormat greeting parts
unfolding IsFormat
parts-IsFormat =
    let id_plain : IsPlain (codes "id ") = IsPlain-tested (codes "id ") refl in
    let colon_plain : IsPlain (codes ": ") = IsPlain-tested (codes ": ") refl in
    (
      id_plain,
      (
        omega arith,
        (
          colon_plain,
          (
            omega arith,
            (λ e. omega arith),
            omega arith,
            omega arith,
            there-IsText,
            (omega arith, (omega arith, tt)),
          ),
        ),
      ),
    )

printm-Renders_example :
    printm greeting (λ i. 170) (format_text parts) (arguments_of parts)
    ≡ some (send (rendered parts))
printm-Renders_example = printm-Renders greeting (λ i. 170) parts parts-IsFormat

abbrev full_printer : Printer
full_printer = record {
  buf = λ i. 170;
  j = 63;
  flags = no_flags;
  fdwidth = 0;
  ap = 5 ∷ [];
  sent = [];
}

format_loop-Stays_example :
    Stays full_printer (format_loop greeting (codes "abc%99lX") full_printer)
format_loop-Stays_example = format_loop-Stays greeting (codes "abc%99lX") full_printer (omega arith)

itoa-GivesBack_example :
    number_of 16 (slice (itoa 0xBEEF (λ i. 0) 64 240).1 0 (itoa 0xBEEF (λ i. 0) 64 240).0) 0
    ≡ 0xBEEF
itoa-GivesBack_example =
    itoa-GivesBack 0xBEEF (λ i. 0) 240 (omega arith) (omega arith) (omega arith)

strcmp-Compares_example : Compares (codes "there") (codes "here") (strcmp 3 4 greeting)
strcmp-Compares_example =
    strcmp-Compares greeting 3 4 (codes "there") (codes "here") (omega arith) there-IsText
      (IsText-tested greeting 4 (codes "here") refl)

memcpy-Holds_example :
    Holds greeting 1 (1 + 5) (λ a. greeting (3 + (a - 1))) (memcpy 1 3 5 greeting)
memcpy-Holds_example = memcpy-Holds 1 3 5 greeting (inl (omega arith))
