-- ===== src/Examples/Systems.antt =====
-- The whole of kmain at concrete inputs: a system with a kernel in the archive, and one with no archive.
use echelon_sbi.Base.{ℕ, ◌≡◌, refl, inl, inr, ltb, if◌then◌else◌, true, some, [], ◌∷◌, sym, arith}
use mathlib.Core.Path.{subst}
use echelon_sbi.Text.{codes}
use echelon_sbi.Text.Copies.{CopiesForward}
use echelon_sbi.Archive.{half_at, found}
use echelon_sbi.Archive.Halfwords.{host_order}
use echelon_sbi.Archive.Entries.{broken, trailer, trailer_name, IsArchive, Finds}
use echelon_sbi.DeviceTree.{word_at}
use echelon_sbi.DeviceTree.Tokens.{IsStruct, start_text, end_text, tokens_initrd, token_initrd}
use echelon_sbi.Boot.{Image, Located, located, header_word, idle, kmain}
use echelon_sbi.Boot.Place.{IsPlace}
use echelon_sbi.Boot.Copy.{text_offset}
use echelon_sbi.Boot.Whole.{IsSystem, HasTree, Boots, kmain-Boots, kmain-idle}
use echelon_sbi.Examples.Printing.{IsText-tested}
use echelon_sbi.Examples.Images.{boot_memory, kernel_entry, trailer_entry, kernel-IsArchive}
use echelon_sbi.Examples.Boots.{tree_tokens, small_tree-at, is_tree, small_tree-IsStruct}

abbrev image : Image
image = record {
  programimage_start = 0x80000000;
  shift_32 = λ b. 0;
  kernel_name = 0x300;
  dtb_name = 0;
  initramfs_name = 0;
  trailer_name = 0x320;
  start_name = 0x148;
  end_name = 0x15B;
}

kernel-IsSystem : IsSystem image boot_memory (kernel_entry ∷ []) (trailer trailer_entry)
kernel-IsSystem = record {
  kernel_named = IsText-tested boot_memory 0x300 (codes "kernel.bin") refl;
  trailer_named = IsText-tested boot_memory 0x320 trailer_name refl;
  start_named = IsText-tested boot_memory 0x148 start_text refl;
  end_named = IsText-tested boot_memory 0x15B end_text refl;
  few = omega arith;
  there = kernel-IsArchive;
}

has_tree : HasTree image boot_memory 0x100 tree_tokens
has_tree = record {
  swapped = true;
  is_tree = is_tree;
  there =
      subst (λ t. IsStruct boot_memory t t.dt_struct tree_tokens) (sym small_tree-at)
        small_tree-IsStruct;
}

abbrev kernel : Located
kernel = record { address = 0x20000026; h_magic = 0x71C7; h_filesize = 24 }

kernel-located : located (found 0x20000026 (host_order kernel_entry.header)) ≡ kernel
unfolding located
kernel-located = refl

kernel_wants : text_offset image kernel boot_memory ≡ 0x400000
unfolding header_word word_at
kernel_wants = refl

kernel_forward : (p : ℕ) → IsPlace 0x80400000 0x80010000 p → CopiesForward p 0x20000026 24
kernel_forward p place = let low = place.from_wanted in inr (omega arith)

kmain-Boots_example : Boots image 0x100 0 0x80010000 0x86001000 kernel boot_memory
unfolding located Finds header_word word_at tokens_initrd token_initrd
kmain-Boots_example =
    kmain-Boots image boot_memory (kernel_entry ∷ []) (trailer trailer_entry) kernel-IsSystem 0x100
      0 0x80010000 0x20000026 (host_order kernel_entry.header) tree_tokens (inl refl) (omega arith)
      has_tree (omega arith) (inl (refl, refl)) (omega arith) (omega arith) (omega arith)
      kernel_forward

-- Flash memory that is empty.
abbrev empty_flash : ℕ → ℕ
empty_flash a = if ltb a 0x20000000 then boot_memory a else 0

empty-IsSystem : IsSystem image empty_flash [] broken
unfolding IsArchive half_at
empty-IsSystem = record {
  kernel_named = IsText-tested empty_flash 0x300 (codes "kernel.bin") refl;
  trailer_named = IsText-tested empty_flash 0x320 trailer_name refl;
  start_named = IsText-tested empty_flash 0x148 start_text refl;
  end_named = IsText-tested empty_flash 0x15B end_text refl;
  few = omega arith;
  there = (omega arith, omega arith);
}

kmain-idle_example : kmain image 0x100 0 0x80010000 empty_flash ≡ some idle
unfolding Finds
kmain-idle_example =
    kmain-idle image empty_flash [] broken empty-IsSystem 0x100 0 0x80010000 (inl refl) refl
