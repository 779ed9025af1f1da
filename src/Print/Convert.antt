-- ===== src/Print/Convert.antt =====
-- printm.c: the conversions, and the whole of printm.
use echelon_sbi.Base.{
  ℕ, zero, suc, ◌+◌, ◌-◌, ◌%◌, ◌^◌, Bool, false, not, ◌&&◌, ◌||◌, ◌==◌, ltb, leb, if◌then◌else◌,
  Option, none, some, ◌>>=◌, List, [], ◌∷◌, length, update, u8, u16, u32,
}
use echelon_sbi.Text.Strings.{strlen, strnlen}
use echelon_sbi.Print.{
  Flags, no_flags, is_clear, Printer, write, plain_character, enter_special, end_special,
  width_digit, modifier,
}
use echelon_sbi.Print.Numeral.{itoa}

abbrev pub u64 : ℕ → ℕ
u64 n = n % 2 ^ 64

-- A signed number of `width` bits, as a `signed long long`.
abbrev pub sign_extend : (width n : ℕ) → ℕ
sign_extend width n = if ltb n (2 ^ (width - 1)) then n else n + (2 ^ 64 - 2 ^ width)

-- The array of a text literal.
abbrev pub literal : List ℕ → ℕ → ℕ
literal [] i = 0
literal (c ∷ cs) i = if i == 0 then c else literal cs (i - 1)

-- The type of the next argument, after its length modifiers.
unfoldable pub signed_cast : Flags → ℕ → ℕ
signed_cast f arg =
    if f.lmod_hh
    then sign_extend 8 (u8 arg)
    else if f.lmod_ll
    then u64 arg
    else if f.lmod_h
    then sign_extend 16 (u16 arg)
    else sign_extend 32 (u32 arg)

unfoldable pub unsigned_cast : Flags → ℕ → ℕ
unsigned_cast f arg =
    if f.lmod_hh
    then u8 arg
    else if f.lmod_ll
    then u64 arg
    else if f.lmod_h
    then u16 arg
    else u32 arg

-- `while (full_number_length < fdwidth) { _printm(pad, 1); full_number_length++; }`, which has
-- no more than `fdwidth` rounds.
unfoldable pub pad_loop : (fuel full_number_length pad : ℕ) → Printer → Printer
pad_loop zero full_number_length pad s = s
pad_loop (suc fuel) full_number_length pad s =
    let rest = pad_loop fuel (suc full_number_length) pad (write (some (literal (pad ∷ []))) 1 s) in
    if ltb full_number_length s.fdwidth then rest else s

-- The number of the current argument, in the array `buf`.
abbrev pub write_number : (number_length : ℕ) → Printer → Printer
write_number number_length s = write (some s.buf) number_length s

-- What `d` and `i` write for a prefix and a number in `buf`, with the flags `leftadj` and `zeropad`.
-- The prefix is a null pointer once it is written, or if it is empty.
unfoldable pub signed_field :
    (is_left zeropad : Bool) (prefix : List ℕ) (number_length : ℕ) → Printer → Printer
signed_field is_left zeropad prefix number_length s =
    let full_number_length = length prefix in
    let with_prefix = write (some (literal prefix)) full_number_length s in
    let is_zero = not is_left && zeropad in
    let left =
      if is_left
      then write_number number_length with_prefix
      else if is_zero
      then with_prefix
      else s in
    let has_prefix = not (is_left || is_zero) && not (full_number_length == 0) in
    let padded =
      pad_loop s.fdwidth (full_number_length + number_length) (if is_zero then b'0' else b' ')
        left in
    let prefixed = if has_prefix then write (some (literal prefix)) 1 padded else padded in
    if is_left then prefixed else write_number number_length prefixed

-- The prefix of a number that is not negative, and of one that is.
unfoldable pub sign_prefix : (is_negative : Bool) → Flags → List ℕ
sign_prefix is_negative f =
    if is_negative
    then b'-' ∷ []
    else if f.asigned
    then b'+' ∷ []
    else if f.spacepd
    then b' ' ∷ []
    else []

-- `d` and `i`. A negative `signed long long` is a bit pattern from 2 ^ 63 on.
unfoldable pub print_signed : ℕ → Printer → Printer
print_signed arg s =
    let num = signed_cast s.flags arg in
    let is_negative = leb (2 ^ 63) num in
    let number = if is_negative then 2 ^ 64 - num else num in
    let (number_length, buf) = itoa number s.buf 64 10 in
    end_special (
      signed_field s.flags.leftadj s.flags.zeropad (sign_prefix is_negative s.flags) number_length
        (record s { buf = buf }))

unfoldable pub unsigned_field : (is_left zeropad : Bool) (number_length : ℕ) → Printer → Printer
unsigned_field is_left zeropad number_length s =
    let left = if is_left then write_number number_length s else s in
    let pad = if not is_left && zeropad then b'0' else b' ' in
    let padded = pad_loop s.fdwidth number_length pad left in
    if is_left then padded else write_number number_length padded

-- `u`
unfoldable pub print_unsigned : ℕ → Printer → Printer
print_unsigned arg s =
    let (number_length, buf) = itoa (unsigned_cast s.flags arg) s.buf 64 10 in
    end_special
      (unsigned_field s.flags.leftadj s.flags.zeropad number_length (record s { buf = buf }))

-- What `o`, `x`, `p` and `X` write for a number in `buf` and the prefix that `#` asks for. The flag
-- `zeropad` is set where the number is on the left, so that the prefix is not written again.
unfoldable pub prefixed_field :
    (is_left zeropad altform : Bool) (prefix : List ℕ) (number_length : ℕ) → Printer → Printer
prefixed_field is_left zeropad altform prefix number_length s =
    let with_prefix = if altform then write (some (literal prefix)) (length prefix) s else s in
    let left =
      if is_left
      then write_number number_length with_prefix
      else if zeropad
      then with_prefix
      else s in
    let pad = if not is_left && zeropad then b'0' else b' ' in
    let full_number_length = number_length + (if altform then length prefix else 0) in
    let padded = pad_loop s.fdwidth full_number_length pad left in
    let prefixed =
      if not (is_left || zeropad) && altform
      then write (some (literal prefix)) (length prefix) padded
      else padded in
    if is_left then prefixed else write_number number_length prefixed

unfoldable pub print_prefixed : (prefix : List ℕ) (base number : ℕ) → Printer → Printer
print_prefixed prefix base number s =
    let (number_length, buf) = itoa number s.buf 64 base in
    end_special (
      prefixed_field s.flags.leftadj s.flags.zeropad s.flags.altform prefix number_length
        (record s { buf = buf }))

-- `o`
unfoldable pub print_octal : ℕ → Printer → Printer
print_octal arg s = print_prefixed (b'0' ∷ []) 8 (unsigned_cast s.flags arg) s

-- `x`, and `p`, whose argument is a pointer.
unfoldable pub print_lower_hex : (c arg : ℕ) → Printer → Printer
print_lower_hex c arg s =
    print_prefixed (b'0' ∷ b'x' ∷ []) 16 (if c == b'p' then u32 arg else unsigned_cast s.flags arg)
      s

-- `X`; the base is the `signed char` -16.
unfoldable pub print_upper_hex : ℕ → Printer → Printer
print_upper_hex arg s = print_prefixed (b'0' ∷ b'X' ∷ []) 240 (unsigned_cast s.flags arg) s

-- `c`
unfoldable pub print_character : ℕ → Printer → Printer
print_character arg s =
    let started = record s { buf = update s.buf 0 (u8 arg) } in
    end_special (write (some started.buf) 1 started)

-- `s`: the field width bounds the length.
unfoldable pub print_text : (memory : ℕ → ℕ) (arg : ℕ) → Printer → Option Printer
print_text memory arg s =
    let at = u32 arg in
    let str = if at == 0 then none else some λ i. memory (at + i) in
    let found = if ltb 0 s.fdwidth then some (strnlen at s.fdwidth memory) else strlen at memory in
    do str_length ← found; some (end_special (write str str_length s))

-- `va_arg`: the next argument goes to a conversion.
unfoldable pub va_arg : (ℕ → Printer → Option Printer) → Printer → Option Printer
va_arg convert s = elim s.ap [ [] ↦ none | arg ∷ ap ↦ convert arg (record s { ap = ap }) ]

-- The letters of C's other conversions.
abbrev pub is_unsupported : ℕ → Bool
is_unsupported c =
    c == b'e'
    || c == b'E'
    || c == b'f'
    || c == b'F'
    || c == b'g'
    || c == b'G'
    || c == b'a'
    || c == b'A'
    || c == b'C'
    || c == b'S'
    || c == b'n'
    || c == b'M'

unfoldable pub conversion : (memory : ℕ → ℕ) (c : ℕ) → Printer → Option Printer
conversion memory c s =
    if c == b'd' || c == b'i'
    then va_arg (λ arg t. some (print_signed arg t)) s
    else if c == b'u'
    then va_arg (λ arg t. some (print_unsigned arg t)) s
    else if c == b'o'
    then va_arg (λ arg t. some (print_octal arg t)) s
    else if c == b'x' || c == b'p'
    then va_arg (λ arg t. some (print_lower_hex c arg t)) s
    else if c == b'X'
    then va_arg (λ arg t. some (print_upper_hex arg t)) s
    else if c == b'c'
    then va_arg (λ arg t. some (print_character arg t)) s
    else if c == b's'
    then va_arg (λ arg t. print_text memory arg t) s
    else if c == b'%'
    then some (end_special (write (some (literal (b'%' ∷ []))) 1 s))
    else if is_unsupported c
    then some (end_special s)
    else some s

-- A character behind a `%`.
unfoldable pub special_character : (memory : ℕ → ℕ) (c : ℕ) → Printer → Option Printer
special_character memory c s =
    if (c == b'0' && s.flags.fdwidth) || (leb b'1' c && leb c b'9')
    then some (width_digit c s)
    else let ended = record s { flags = record s.flags { fdwidth = false } } in
      elim (modifier c ended.flags) [
        | some flags ↦ some (record ended { flags = flags })
        | none ↦ conversion memory c ended
      ]

unfoldable pub format_character : (memory : ℕ → ℕ) (c : ℕ) → Printer → Option Printer
format_character memory c s =
    if not (c == b'%') && is_clear s.flags
    then some (plain_character c s)
    else if s.flags.special
    then special_character memory c s
    else some (enter_special s)

-- The loop over the characters of the format.
unfoldable pub format_loop : (memory : ℕ → ℕ) (format : List ℕ) → Printer → Option Printer
format_loop memory [] s = some s
format_loop memory (c ∷ cs) s =
    if c == 0 then some s else do t ← format_character memory c s; format_loop memory cs t

-- printm, for a format given by its bytes: what it sends to the console. Its `buf` holds what the stack
-- held.
unfoldable pub printm :
    (memory stack : ℕ → ℕ) (format : List ℕ) (arguments : List ℕ) → Option (List ℕ)
printm memory stack format arguments = do
  s ←
      format_loop memory format
        (record { buf = stack; j = 0; flags = no_flags; fdwidth = 0; ap = arguments; sent = [] })
  some (if ltb 0 s.j then (write (some s.buf) s.j s).sent else s.sent)
