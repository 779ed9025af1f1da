-- ===== src/Print/Numeral.antt =====
-- `_itoa` of printm.c: the digits of a number, written to an array from the last one on, and
-- reversed there.
use echelon_sbi.Base.{
  ℕ, zero, suc, ◌+◌, ◌-◌, ◌/◌, ◌%◌, ◌==◌, ltb, leb, ◌&&◌, if◌then◌else◌, update, u8,
}

-- The character of a digit.
unfoldable pub digit_character : (hex_offset digit : ℕ) → ℕ
digit_character hex_offset digit = if leb 10 digit then u8 (digit + hex_offset) else digit + b'0'

-- The first loop, with `left` places left in the array; it gives `i` and the array.
unfoldable pub digit_loop : (left number base hex_offset i : ℕ) (buf : ℕ → ℕ) → ℕ × (ℕ → ℕ)
digit_loop zero number base hex_offset i buf = (i, buf)
digit_loop (suc left) number base hex_offset i buf =
    let rest =
      digit_loop left (number / base) base hex_offset (suc i)
        (update buf i (digit_character hex_offset (number % base))) in
    if ltb 0 number then rest else (i, buf)

-- The second loop. It counts `j` down.
unfoldable pub reverse_loop : (j k : ℕ) (buf : ℕ → ℕ) → ℕ → ℕ
reverse_loop zero k buf = buf
reverse_loop (suc j) k buf =
    let rest = reverse_loop j (suc k) (update (update buf k (buf j)) j (buf k)) in
    if leb j k then buf else rest

-- The parameter `base` is a `signed char`, given by its bit pattern: a negative one asks for upper-case
-- letters.
abbrev pub letter_offset : (base : ℕ) → ℕ
letter_offset base = if leb 128 base then b'A' - 10 else b'a' - 10

abbrev pub radix : (base : ℕ) → ℕ
radix base = if leb 128 base then 256 - base else base

-- What follows the first loop: the character of zero, and the second loop. It gives the length too.
unfoldable pub finish : (buf_len : ℕ) → ℕ × (ℕ → ℕ) → ℕ × (ℕ → ℕ)
finish buf_len (i, buf) =
    let is_zero = ltb 0 buf_len && i == 0 in
    let length = if is_zero then suc i else i in
    (length, reverse_loop length 0 (if is_zero then update buf 0 b'0' else buf))

unfoldable pub itoa : (number : ℕ) (buf : ℕ → ℕ) (buf_len base : ℕ) → ℕ × (ℕ → ℕ)
itoa number buf buf_len base =
    finish buf_len (digit_loop buf_len number (radix base) (letter_offset base) 0 buf)
