-- ===== src/Print/Prefix/Settings.antt =====
-- The flags of printm that the options of a directive stand for (printm.c).
use echelon_sbi.Base.{Bool, true, false}
use echelon_sbi.Print.{Flags, Printer, no_flags}
use echelon_sbi.Print.Directive.{
  LengthModifier, char_modifier, short_modifier, long_modifier, long_long_modifier, Options,
}

-- Behind a `%`; `wide` says that the last character was a digit of the width.
abbrev pub special : Flags → (wide : Bool) → Printer → Printer
special f wide s = record s { flags = record f { special = true; fdwidth = wide } }

-- The flags that the options set.
abbrev pub flags_of : Options → Flags
flags_of o = record no_flags {
  altform = o.altform;
  zeropad = o.zeropad;
  leftadj = o.leftadj;
  spacepd = o.spacepd;
  asigned = o.asigned;
}

-- The flags that a length modifier sets.
abbrev pub is_char_modifier : LengthModifier → Bool
is_char_modifier char_modifier = true
is_char_modifier m = false

abbrev pub is_short_modifier : LengthModifier → Bool
is_short_modifier char_modifier = true
is_short_modifier short_modifier = true
is_short_modifier m = false

abbrev pub is_long_modifier : LengthModifier → Bool
is_long_modifier long_modifier = true
is_long_modifier long_long_modifier = true
is_long_modifier m = false

abbrev pub is_long_long_modifier : LengthModifier → Bool
is_long_long_modifier long_long_modifier = true
is_long_long_modifier m = false

abbrev pub with_modifier : LengthModifier → Flags → Flags
with_modifier m f = record f {
  lmod_hh = is_char_modifier m;
  lmod_h = is_short_modifier m;
  lmod_l = is_long_modifier m;
  lmod_ll = is_long_long_modifier m;
}
