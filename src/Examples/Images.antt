-- ===== src/Examples/Images.antt =====
-- An archive at a concrete input, in a memory that holds a device tree too.
use echelon_sbi.Base.{ℕ, ◌≡◌, refl, ◌-◌, ltb, if◌then◌else◌, true, some, List, [], ◌∷◌, ◌++◌, arith}
use echelon_sbi.Text.{codes}
use echelon_sbi.Print.Convert.{literal}
use echelon_sbi.Archive.{Search, get_cpio_entry_header}
use echelon_sbi.Archive.Halfwords.{IsHalf, IsHeader}
use echelon_sbi.Archive.Entries.{Entry, IsEntry, End, trailer, trailer_name, IsArchive, Finds}
use echelon_sbi.Archive.Lookup.{get_cpio_entry_header-Finds}
use echelon_sbi.DeviceTree.Tokens.{start_text, end_text}
use echelon_sbi.Examples.Printing.{IsText-tested}

-- One memory for all. A device tree is at 0x100, with a root node that has one property, and with the
-- names that are looked for behind it, at 0x148 and 0x15B; the names of the kernel and of the trailer
-- are at 0x300 and 0x320. An archive, its bytes exchanged, is at 0x20000000: the entry "kernel.bin" with a
-- file of 24 bytes that asks for the offset 0x400000, and the trailer.
abbrev tree_bytes : List ℕ
tree_bytes =
    0xD0 ∷ 0x0D ∷ 0xFE ∷ 0xED ∷ 0 ∷ 0 ∷ 0 ∷ 91 ∷ 0 ∷ 0 ∷ 0 ∷ 40 ∷ 0 ∷ 0 ∷ 0 ∷ 72 ∷ 0 ∷ 0 ∷ 0 ∷ 40
    ∷ 0 ∷ 0 ∷ 0 ∷ 17 ∷ 0 ∷ 0 ∷ 0 ∷ 16 ∷ 0 ∷ 0 ∷ 0 ∷ 0 ∷ 0 ∷ 0 ∷ 0 ∷ 19 ∷ 0 ∷ 0 ∷ 0 ∷ 32 ∷ 0 ∷ 0 ∷ 0
    ∷ 1 ∷ 0 ∷ 0 ∷ 0 ∷ 0 ∷ 0 ∷ 0 ∷ 0 ∷ 3 ∷ 0 ∷ 0 ∷ 0 ∷ 4 ∷ 0 ∷ 0 ∷ 0 ∷ 0 ∷ 0x86 ∷ 0 ∷ 0x10 ∷ 0 ∷ 0
    ∷ 0 ∷ 0 ∷ 2 ∷ 0 ∷ 0 ∷ 0 ∷ 9 ∷ []

abbrev kernel_bytes : List ℕ
kernel_bytes =
    0x71 ∷ 0xC7 ∷ 0 ∷ 1 ∷ 0 ∷ 2 ∷ 0 ∷ 3 ∷ 0 ∷ 4 ∷ 0 ∷ 5 ∷ 0 ∷ 6 ∷ 0 ∷ 7 ∷ 0 ∷ 8 ∷ 0 ∷ 9 ∷ 0 ∷ 11 ∷ 0
    ∷ 0 ∷ 0 ∷ 24 ∷ []

abbrev file_bytes : List ℕ
file_bytes =
    7 ∷ 7 ∷ 7 ∷ 7 ∷ 7 ∷ 7 ∷ 7 ∷ 7 ∷ 0 ∷ 0 ∷ 0x40 ∷ 0 ∷ 0 ∷ 0 ∷ 0 ∷ 0 ∷ 24 ∷ 0 ∷ 0 ∷ 0 ∷ 0 ∷ 0 ∷ 0
    ∷ 0 ∷ []

abbrev trailer_bytes : List ℕ
trailer_bytes =
    0x71 ∷ 0xC7 ∷ 0 ∷ 0 ∷ 0 ∷ 0 ∷ 0 ∷ 0 ∷ 0 ∷ 0 ∷ 0 ∷ 0 ∷ 0 ∷ 0 ∷ 0 ∷ 0 ∷ 0 ∷ 0 ∷ 0 ∷ 0 ∷ 0 ∷ 11 ∷ 0
    ∷ 0 ∷ 0 ∷ 0 ∷ []

abbrev pub boot_memory : ℕ → ℕ
boot_memory a =
    if ltb a 0x300
    then literal (tree_bytes ++ start_text ++ (0 ∷ []) ++ end_text) (a - 0x100)
    else if ltb a 0x320
    then literal (codes "kernel.bin") (a - 0x300)
    else if ltb a 0x20000000
    then literal (codes "TRAILER!!!") (a - 0x320)
    else literal
        (kernel_bytes
          ++ codes "kernel.bin"
          ++ (0 ∷ 0 ∷ [])
          ++ file_bytes
          ++ trailer_bytes
          ++ codes "TRAILER!!!")
        (a - 0x20000000)

abbrev pub kernel_entry : Entry
kernel_entry = record {
  swapped = true;
  header = record {
    h_magic = 0x71C7;
    h_dev = 1;
    h_ino = 2;
    h_mode = 3;
    h_uid = 4;
    h_gid = 5;
    h_nlink = 6;
    h_majmin = 7;
    h_mtime = record { hi16 = 8; lw16 = 9 };
    h_namesize = 11;
    h_filesize = record { hi16 = 0; lw16 = 24 };
  };
  name = codes "kernel.bin";
}

abbrev pub trailer_entry : Entry
trailer_entry = record {
  swapped = true;
  header = record {
    h_magic = 0x71C7;
    h_dev = 0;
    h_ino = 0;
    h_mode = 0;
    h_uid = 0;
    h_gid = 0;
    h_nlink = 0;
    h_majmin = 0;
    h_mtime = record { hi16 = 0; lw16 = 0 };
    h_namesize = 11;
    h_filesize = record { hi16 = 0; lw16 = 0 };
  };
  name = trailer_name;
}

kernel-IsHeader : IsHeader boot_memory true 0x20000000 kernel_entry.header
unfolding IsHeader IsHalf
kernel-IsHeader = (
  refl,
  (omega arith, refl, refl),
  (omega arith, refl, refl),
  (omega arith, refl, refl),
  (omega arith, refl, refl),
  (omega arith, refl, refl),
  (omega arith, refl, refl),
  (omega arith, refl, refl),
  (omega arith, refl, refl),
  (omega arith, refl, refl),
  (omega arith, refl, refl),
  (omega arith, refl, refl),
  (omega arith, refl, refl),
  (omega arith, refl, refl),
)

trailer-IsHeader : IsHeader boot_memory true 0x2000003E trailer_entry.header
unfolding IsHeader IsHalf
trailer-IsHeader = (
  refl,
  (omega arith, refl, refl),
  (omega arith, refl, refl),
  (omega arith, refl, refl),
  (omega arith, refl, refl),
  (omega arith, refl, refl),
  (omega arith, refl, refl),
  (omega arith, refl, refl),
  (omega arith, refl, refl),
  (omega arith, refl, refl),
  (omega arith, refl, refl),
  (omega arith, refl, refl),
  (omega arith, refl, refl),
  (omega arith, refl, refl),
)

kernel-IsEntry : IsEntry boot_memory 0x20000000 kernel_entry
unfolding IsEntry
kernel-IsEntry = (
  kernel-IsHeader,
  omega arith,
  omega arith,
  IsText-tested boot_memory 0x2000001A (codes "kernel.bin") refl,
  omega arith,
)

trailer-IsEntry : IsEntry boot_memory 0x2000003E trailer_entry
unfolding IsEntry
trailer-IsEntry = (
  trailer-IsHeader,
  omega arith,
  omega arith,
  IsText-tested boot_memory 0x20000058 trailer_name refl,
  omega arith,
)

pub kernel-IsArchive : IsArchive boot_memory 0x20000000 (kernel_entry ∷ []) (trailer trailer_entry)
unfolding IsArchive
kernel-IsArchive = (kernel-IsEntry, (λ e. ground arith), (trailer-IsEntry, refl))

abbrev FindsIn :
    (memory : ℕ → ℕ) (filename trailer_at at : ℕ) (name : List ℕ) → List Entry → End → Type 0
FindsIn memory filename trailer_at at name es end =
    (result : Search) × (get_cpio_entry_header filename trailer_at at memory ≡ some result)
    × Finds name at es end result

get_cpio_entry_header-Finds_example :
    FindsIn boot_memory 0x300 0x320 0x20000000
      (codes "kernel.bin")
      (kernel_entry ∷ [])
      (trailer trailer_entry)
get_cpio_entry_header-Finds_example =
    get_cpio_entry_header-Finds boot_memory 0x300 0x320 (codes "kernel.bin")
      (IsText-tested boot_memory 0x300 (codes "kernel.bin") refl)
      (IsText-tested boot_memory 0x320 trailer_name refl) 0x20000000 (kernel_entry ∷ [])
      (trailer trailer_entry) (omega arith) kernel-IsArchive
