-- ===== src/Print.antt =====
-- printm.c on rv32: the state of printm, and what it does with each character of a format. The flags
-- are Booleans, one for each bit of the word `flags`; the bytes that go to drivers/uart.c are in `sent`.
-- An argument is its bit pattern, and one that `va_arg` does not find makes the result `none`.
pub mod Numeral
pub mod Convert
pub mod Layout
pub mod Digits
pub mod Emit
pub mod Fields
pub mod ReadBack
pub mod Directive
pub mod Prefix
pub mod Conversion
pub mod Bounds
pub mod Characters
pub mod Render
use echelon_sbi.Base.{
  ℕ, zero, suc, ◌+◌, ◌-◌, ◌*◌, ◌≡◌, Bool, true, false, not, ◌&&◌, ◌||◌, ◌==◌, ltb, leb,
  if◌then◌else◌, Option, none, some, List, [], ◌∷◌, ◌++◌, update, u32,
}
use echelon_sbi.Text.{uart_write}

pub record Flags : Type 0 where
  pub special : Bool
  pub altform : Bool
  pub zeropad : Bool
  pub leftadj : Bool
  pub spacepd : Bool
  pub asigned : Bool
  pub lmod_hh : Bool
  pub lmod_h : Bool
  pub lmod_l : Bool
  pub lmod_ll : Bool
  pub fdwidth : Bool

abbrev pub no_flags : Flags
no_flags = record {
  special = false;
  altform = false;
  zeropad = false;
  leftadj = false;
  spacepd = false;
  asigned = false;
  lmod_hh = false;
  lmod_h = false;
  lmod_l = false;
  lmod_ll = false;
  fdwidth = false;
}

-- `flags == 0`
abbrev pub is_clear : Flags → Bool
is_clear f = not (
    f.special || f.altform || f.zeropad || f.leftadj || f.spacepd || f.asigned || f.lmod_hh
    || f.lmod_h || f.lmod_l || f.lmod_ll || f.fdwidth)

-- The local variables of printm, the arguments that are left, and the bytes that were sent.
pub record Printer : Type 0 where
  pub buf : ℕ → ℕ
  pub j : ℕ
  pub flags : Flags
  pub fdwidth : ℕ
  pub ap : List ℕ
  pub sent : List ℕ

-- `_printm`
unfoldable pub write : (buffer : Option (ℕ → ℕ)) (length : ℕ) → Printer → Printer
write buffer length s = record s { sent = s.sent ++ uart_write buffer length }

-- A character that stands for itself.
unfoldable pub plain_character : ℕ → Printer → Printer
plain_character c s =
    let stored = record s { buf = update s.buf s.j c; j = suc s.j } in
    if stored.j == 64 then record (write (some stored.buf) stored.j stored) { j = 0 } else stored

-- The start of a directive.
unfoldable pub enter_special : Printer → Printer
enter_special s = record (write (some s.buf) s.j s) {
  j = 0;
  fdwidth = 0;
  flags = record no_flags { special = true };
}

unfoldable pub end_special : Printer → Printer
end_special s = record s { flags = no_flags; j = 0 }

-- A digit of the field width.
unfoldable pub width_digit : ℕ → Printer → Printer
width_digit c s = record s {
  fdwidth = u32 (u32 (s.fdwidth * 10) + (c - b'0'));
  flags = record s.flags { fdwidth = true };
}

-- The modifiers: `none` for any other character.
unfoldable pub modifier : ℕ → Flags → Option Flags
modifier c f =
    if c == b'#'
    then some (record f { altform = true })
    else if c == b'0'
    then some (record f { zeropad = true })
    else if c == b'-'
    then some (record f { leftadj = true })
    else if c == b' '
    then some (record f { spacepd = true })
    else if c == b'+'
    then some (record f { asigned = true })
    else if c == b'h'
    then some (record f { lmod_hh = f.lmod_h || f.lmod_hh; lmod_h = true })
    else if c == b'l'
    then some (record f { lmod_ll = f.lmod_l || f.lmod_ll; lmod_l = true })
    else none
