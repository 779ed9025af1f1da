-- ===== src/Archive.antt =====
-- dataparse/cpio_parse.c on rv32, which is little-endian: an archive of PWB cpio entries in memory, and
-- the search for one of them. The loop over the entries runs on fuel, and gives `none` if it runs
-- out; the address of the text "TRAILER!!!" is a parameter.
pub mod Halfwords
pub mod Entries
pub mod Lookup
use echelon_sbi.Base.{
  ℕ, zero, suc, ◌+◌, ◌*◌, ◌/◌, ◌^◌, ◌==◌, not, ◌&&◌, if◌then◌else◌, Option, none, some, ◌>>=◌, u8,
  u32, word_mod, bit_and, bit_or,
}
use echelon_sbi.Text.Strings.{strcmp}

-- `struct bits16`, by whose halves `vl32` of the union is read: the half at the lower address is the
-- low one.
pub record Halves : Type 0 where
  pub hi16 : ℕ
  pub lw16 : ℕ

abbrev pub vl32 : Halves → ℕ
vl32 h = h.hi16 + h.lw16 * 2 ^ 16

pub record HeaderPwbCpio : Type 0 where
  pub h_magic : ℕ
  pub h_dev : ℕ
  pub h_ino : ℕ
  pub h_mode : ℕ
  pub h_uid : ℕ
  pub h_gid : ℕ
  pub h_nlink : ℕ
  pub h_majmin : ℕ
  pub h_mtime : Halves
  pub h_namesize : ℕ
  pub h_filesize : Halves

-- `sizeof(struct header_pwb_cpio)`
abbrev pub header_size : ℕ
header_size = 26

unfoldable pub cpio_parse_swap_endianess_16 : ℕ → ℕ
cpio_parse_swap_endianess_16 val =
    bit_or (bit_and (val * 2 ^ 8) 0xFF00) (bit_and (val / 2 ^ 8) 0x00FF)

abbrev pub swap_halves : Halves → Halves
swap_halves h = record { hi16 = h.lw16; lw16 = h.hi16 }

-- The header with the bytes of its fields exchanged.
unfoldable pub swap_fields : HeaderPwbCpio → HeaderPwbCpio
swap_fields h = record {
  h_magic = cpio_parse_swap_endianess_16 h.h_magic;
  h_dev = cpio_parse_swap_endianess_16 h.h_dev;
  h_ino = cpio_parse_swap_endianess_16 h.h_ino;
  h_mode = cpio_parse_swap_endianess_16 h.h_mode;
  h_uid = cpio_parse_swap_endianess_16 h.h_uid;
  h_gid = cpio_parse_swap_endianess_16 h.h_gid;
  h_nlink = cpio_parse_swap_endianess_16 h.h_nlink;
  h_majmin = cpio_parse_swap_endianess_16 h.h_majmin;
  h_mtime = record {
    hi16 = cpio_parse_swap_endianess_16 h.h_mtime.hi16;
    lw16 = cpio_parse_swap_endianess_16 h.h_mtime.lw16;
  };
  h_namesize = cpio_parse_swap_endianess_16 h.h_namesize;
  h_filesize = record {
    hi16 = cpio_parse_swap_endianess_16 h.h_filesize.hi16;
    lw16 = cpio_parse_swap_endianess_16 h.h_filesize.lw16;
  };
}

unfoldable pub read_entry : HeaderPwbCpio → HeaderPwbCpio
read_entry cpio_head =
    let fixed = if not (cpio_head.h_magic == 0x71C7) then swap_fields cpio_head else cpio_head in
    -- The first byte of the `uint16_t` 0x0123.
    let is_little_endian = u8 0x0123 == 0x23 in
    if is_little_endian
    then record fixed {
      h_mtime = swap_halves fixed.h_mtime;
      h_filesize = swap_halves fixed.h_filesize;
    }
    else fixed

-- A `uint16_t` in memory, and the copy of a header out of it.
unfoldable pub half_at : (memory : ℕ → ℕ) (at : ℕ) → ℕ
half_at memory at = memory at + memory (at + 1) * 2 ^ 8

unfoldable pub header_at : (memory : ℕ → ℕ) (at : ℕ) → HeaderPwbCpio
header_at memory at = record {
  h_magic = half_at memory at;
  h_dev = half_at memory (at + 2);
  h_ino = half_at memory (at + 4);
  h_mode = half_at memory (at + 6);
  h_uid = half_at memory (at + 8);
  h_gid = half_at memory (at + 10);
  h_nlink = half_at memory (at + 12);
  h_majmin = half_at memory (at + 14);
  h_mtime = record { hi16 = half_at memory (at + 16); lw16 = half_at memory (at + 18) };
  h_namesize = half_at memory (at + 20);
  h_filesize = record { hi16 = half_at memory (at + 22); lw16 = half_at memory (at + 24) };
}

-- Names and files start at even addresses.
abbrev pub make_even : ℕ → ℕ
make_even size = u32 (size + bit_and size 1)

-- What the search returns: where the file is, with its header in `buffer`, or a null pointer.
pub data Search : Type 0 where
  found : (address : ℕ) → HeaderPwbCpio → Search
  not_found : Search

-- The loop; `at` is `ptr` behind the entries that were passed.
unfoldable pub entry_loop : (fuel filename trailer at : ℕ) (memory : ℕ → ℕ) → Option Search
entry_loop zero filename trailer at memory = none
entry_loop (suc fuel) filename trailer at memory =
    let head = header_at memory at in
    let name = at + header_size in
    let entry = read_entry head in
    let namesize = make_even entry.h_namesize in
    let filesize = make_even (vl32 entry.h_filesize) in
    let rest = entry_loop fuel filename trailer (name + u32 (namesize + filesize)) memory in
    if not (head.h_magic == 0x71C7) && not (head.h_magic == 0xC771)
    then some not_found
    else (strcmp name filename memory >>= λ differs.
        if differs == 0
        then some (found (name + namesize) entry)
        else (strcmp name trailer memory >>= λ goes_on.
            if goes_on == 0 then some not_found else rest))

-- More rounds than the address space has entries.
unfoldable pub get_cpio_entry_header :
    (filename trailer cpio_archive : ℕ) (memory : ℕ → ℕ) → Option Search
get_cpio_entry_header filename trailer cpio_archive memory =
    entry_loop word_mod filename trailer cpio_archive memory
