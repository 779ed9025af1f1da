-- ===== src/Archive/Halfwords.antt =====
-- The halfwords of a header, in either order of their bytes.
use echelon_sbi.Base.{
  ℕ, ◌+◌, ◌*◌, ◌/◌, ◌%◌, ◌^◌, ◌<◌, ◌≡◌, ◌≢◌, refl, ap, ◌∙◌, Bool, true, false, ◌==◌, not, ◌&&◌,
  if◌then◌else◌, bit_and, arith,
}
use echelon_sbi.Base.Bits.Fields.{bit_and-ones, bit_and-ones_shifted, bit_or_sum}
use echelon_sbi.Archive.{
  HeaderPwbCpio, cpio_parse_swap_endianess_16, swap_fields, swap_halves, read_entry, half_at,
  header_at,
}

-- The bytes of a halfword change places.
swap_bytes :
    (val : ℕ) → val < 2 ^ 16 → cpio_parse_swap_endianess_16 val ≡ val % 2 ^ 8 * 2 ^ 8 + val / 2 ^ 8
unfolding cpio_parse_swap_endianess_16
swap_bytes val fits =
    let high : bit_and (val * 2 ^ 8) 0xFF00 ≡ val * 2 ^ 8 / 2 ^ 8 % 2 ^ 8 * 2 ^ 8 =
      bit_and-ones_shifted 8 8 (val * 2 ^ 8) in
    let low : bit_and (val / 2 ^ 8) 0xFF ≡ val / 2 ^ 8 % 2 ^ 8 = bit_and-ones 8 (val / 2 ^ 8) in
    let same : val * 2 ^ 8 / 2 ^ 8 % 2 ^ 8 ≡ val % 2 ^ 8 = omega arith in
    let top : val / 2 ^ 8 % 2 ^ 8 ≡ val / 2 ^ 8 = omega arith in
    rw (high, low, same, top) (bit_or_sum 8 (val % 2 ^ 8) (val / 2 ^ 8) (omega arith))

-- Exchanging the bytes of a halfword twice gives it back.
pub cpio_parse_swap_endianess_16-Undoes :
    (val : ℕ) → val < 2 ^ 16 → cpio_parse_swap_endianess_16 (cpio_parse_swap_endianess_16 val) ≡ val
cpio_parse_swap_endianess_16-Undoes val fits =
    let once = swap_bytes val fits in
    let twice = swap_bytes (val % 2 ^ 8 * 2 ^ 8 + val / 2 ^ 8) (omega arith) in
    rw (once, twice) (omega arith)

-- The memory holds a halfword, its low byte first or, if the archive is swapped, its high byte.
unfoldable pub IsHalf : (memory : ℕ → ℕ) (swapped : Bool) (at val : ℕ) → Type 0
IsHalf memory swapped at val =
    (val < 2 ^ 16)
    × (memory at ≡ (if swapped then val / 2 ^ 8 else val % 2 ^ 8))
    × (memory (at + 1) ≡ (if swapped then val % 2 ^ 8 else val / 2 ^ 8))

half_at-native :
    (memory : ℕ → ℕ) (at val : ℕ) → IsHalf memory false at val → half_at memory at ≡ val
unfolding IsHalf half_at
half_at-native memory at val (fits, low, high) = omega arith

half_at-swapped :
    (memory : ℕ → ℕ) (at val : ℕ)
    → IsHalf memory true at val
    → cpio_parse_swap_endianess_16 (half_at memory at) ≡ val
unfolding IsHalf half_at
half_at-swapped memory at val (fits, low, high) =
    let read : memory at + memory (at + 1) * 2 ^ 8 ≡ val % 2 ^ 8 * 2 ^ 8 + val / 2 ^ 8 =
      omega arith in
    rw (read, swap_bytes (val % 2 ^ 8 * 2 ^ 8 + val / 2 ^ 8) (omega arith)) (omega arith)

-- The memory holds a header, in the order of the archive: of a number of 32 bits, its high half first.
unfoldable pub IsHeader : (memory : ℕ → ℕ) (swapped : Bool) (at : ℕ) → HeaderPwbCpio → Type 0
IsHeader memory swapped at h =
    (h.h_magic ≡ 0x71C7)
    × IsHalf memory swapped at h.h_magic
    × IsHalf memory swapped (at + 2) h.h_dev
    × IsHalf memory swapped (at + 4) h.h_ino
    × IsHalf memory swapped (at + 6) h.h_mode
    × IsHalf memory swapped (at + 8) h.h_uid
    × IsHalf memory swapped (at + 10) h.h_gid
    × IsHalf memory swapped (at + 12) h.h_nlink
    × IsHalf memory swapped (at + 14) h.h_majmin
    × IsHalf memory swapped (at + 16) h.h_mtime.hi16
    × IsHalf memory swapped (at + 18) h.h_mtime.lw16
    × IsHalf memory swapped (at + 20) h.h_namesize
    × IsHalf memory swapped (at + 22) h.h_filesize.hi16
    × IsHalf memory swapped (at + 24) h.h_filesize.lw16

-- The halves as this machine reads their 32 bits.
abbrev pub host_order : HeaderPwbCpio → HeaderPwbCpio
host_order h = record h { h_mtime = swap_halves h.h_mtime; h_filesize = swap_halves h.h_filesize }

magic-native :
    (memory : ℕ → ℕ) (at : ℕ) (h : HeaderPwbCpio)
    → IsHeader memory false at h
    → (header_at memory at).h_magic ≡ 0x71C7
unfolding IsHeader header_at
magic-native memory at h there = half_at-native memory at h.h_magic there.1 ∙ there.0

magic-swapped :
    (memory : ℕ → ℕ) (at : ℕ) (h : HeaderPwbCpio)
    → IsHeader memory true at h
    → (header_at memory at).h_magic ≡ 0xC771
unfolding IsHeader header_at half_at IsHalf
magic-swapped memory at h there =
    let (fits, low, high) = there.1 in let magic = there.0 in omega arith

read_entry-Keeps : (x : HeaderPwbCpio) → x.h_magic ≡ 0x71C7 → read_entry x ≡ host_order x
unfolding read_entry
read_entry-Keeps x e = let native : (x.h_magic == 0x71C7) ≡ true = ground arith in rw native refl

read_entry-Swaps :
    (x : HeaderPwbCpio) → x.h_magic ≢ 0x71C7 → read_entry x ≡ host_order (swap_fields x)
unfolding read_entry
read_entry-Swaps x differs =
    let swapped : (x.h_magic == 0x71C7) ≡ false = ground arith in rw swapped refl

header_at-native :
    (memory : ℕ → ℕ) (at : ℕ) (h : HeaderPwbCpio)
    → IsHeader memory false at h
    → header_at memory at ≡ h
unfolding IsHeader header_at
header_at-native memory at h there =
    let (
      _, magic, dev, ino, mode, uid, gid, nlink, majmin, mtime_high, mtime_low, namesize, size_high,
      size_low,
    ) =
      there in
    rw
      (
        half_at-native memory at h.h_magic magic,
        half_at-native memory (at + 2) h.h_dev dev,
        half_at-native memory (at + 4) h.h_ino ino,
        half_at-native memory (at + 6) h.h_mode mode,
        half_at-native memory (at + 8) h.h_uid uid,
        half_at-native memory (at + 10) h.h_gid gid,
        half_at-native memory (at + 12) h.h_nlink nlink,
        half_at-native memory (at + 14) h.h_majmin majmin,
        half_at-native memory (at + 16) h.h_mtime.hi16 mtime_high,
        half_at-native memory (at + 18) h.h_mtime.lw16 mtime_low,
        half_at-native memory (at + 20) h.h_namesize namesize,
        half_at-native memory (at + 22) h.h_filesize.hi16 size_high,
        half_at-native memory (at + 24) h.h_filesize.lw16 size_low,
      )
      refl

header_at-swapped :
    (memory : ℕ → ℕ) (at : ℕ) (h : HeaderPwbCpio)
    → IsHeader memory true at h
    → swap_fields (header_at memory at) ≡ h
unfolding IsHeader header_at swap_fields
header_at-swapped memory at h there =
    let (
      _, magic, dev, ino, mode, uid, gid, nlink, majmin, mtime_high, mtime_low, namesize, size_high,
      size_low,
    ) =
      there in
    rw
      (
        half_at-swapped memory at h.h_magic magic,
        half_at-swapped memory (at + 2) h.h_dev dev,
        half_at-swapped memory (at + 4) h.h_ino ino,
        half_at-swapped memory (at + 6) h.h_mode mode,
        half_at-swapped memory (at + 8) h.h_uid uid,
        half_at-swapped memory (at + 10) h.h_gid gid,
        half_at-swapped memory (at + 12) h.h_nlink nlink,
        half_at-swapped memory (at + 14) h.h_majmin majmin,
        half_at-swapped memory (at + 16) h.h_mtime.hi16 mtime_high,
        half_at-swapped memory (at + 18) h.h_mtime.lw16 mtime_low,
        half_at-swapped memory (at + 20) h.h_namesize namesize,
        half_at-swapped memory (at + 22) h.h_filesize.hi16 size_high,
        half_at-swapped memory (at + 24) h.h_filesize.lw16 size_low,
      )
      refl

-- read_entry gives the header that the archive holds, in either order of its bytes, with the halves of
-- its two long numbers in the order of this machine.
pub read_entry-IsHeader :
    (memory : ℕ → ℕ) (swapped : Bool) (at : ℕ) (h : HeaderPwbCpio)
    → IsHeader memory swapped at h
    → read_entry (header_at memory at) ≡ host_order h
read_entry-IsHeader memory true at h there =
    read_entry-Swaps (header_at memory at)
      (λ e. absurd (let m = magic-swapped memory at h there in omega arith))
    ∙ ap host_order (header_at-swapped memory at h there)
read_entry-IsHeader memory false at h there =
    read_entry-Keeps (header_at memory at) (magic-native memory at h there)
    ∙ ap host_order (header_at-native memory at h there)

-- Its magic number is one of the two that the search goes on with.
pub magic-IsHeader :
    (memory : ℕ → ℕ) (swapped : Bool) (at : ℕ) (h : HeaderPwbCpio)
    → IsHeader memory swapped at h
    → (not ((header_at memory at).h_magic == 0x71C7)
        && not ((header_at memory at).h_magic == 0xC771))
      ≡ false
magic-IsHeader memory true at h there = let m = magic-swapped memory at h there in ground arith
magic-IsHeader memory false at h there = let m = magic-native memory at h there in ground arith
