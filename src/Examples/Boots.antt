-- ===== src/Examples/Boots.antt =====
-- A device tree, and the boot, at concrete inputs.
use mathlib.Core.Path.{subst}
use echelon_sbi.Base.{sym, ℕ, ◌≡◌, refl, inr, ◌+◌, true, some, List, [], ◌∷◌, arith}
use echelon_sbi.Text.{IsText}
use echelon_sbi.DeviceTree.{
  Tree, word_at, fixed_word_at, tree_at, stored, dtb_parse, dtb_parse_swap_endianess_32,
}
use echelon_sbi.DeviceTree.Bytes.{IsWord}
use echelon_sbi.DeviceTree.Align.{IsBytes}
use echelon_sbi.DeviceTree.Tokens.{
  Token, begin_node, end_node, property, IsToken, next_of, IsStruct, start_text, end_text,
  tokens_initrd,
}
use echelon_sbi.DeviceTree.Walk.{dtb_parse-Reads}
use echelon_sbi.Boot.{Layout, kernel_place}
use echelon_sbi.Boot.Place.{IsPlace, kernel_place-IsPlace}
use echelon_sbi.Allocator.{Heap}
use echelon_sbi.Boot.SetUp.{SetsUp, kinit-SetsUp}
use echelon_sbi.Examples.{quad, at_rest}
use echelon_sbi.Examples.Printing.{IsText-tested}
use echelon_sbi.Examples.Images.{boot_memory}

abbrev pub tree_tokens : List Token
tree_tokens = begin_node [] ∷ property 0 start_text (0x86 ∷ 0 ∷ 0x10 ∷ 0 ∷ []) ∷ end_node ∷ []

abbrev pub small_tree : Tree
small_tree = record {
  swapped = true;
  dt_struct = 0x128;
  dt_strings = 0x148;
  size_dt_struct = 32;
  start_name = 0x148;
  end_name = 0x15B;
}

pub small_tree-at : tree_at boot_memory true 0x100 0x148 0x15B ≡ small_tree
unfolding tree_at fixed_word_at word_at dtb_parse_swap_endianess_32
small_tree-at = refl

pub is_tree : word_at boot_memory 0x100 ≡ 0xEDFE0DD0
unfolding word_at
is_tree = refl

pub small_tree-IsStruct : IsStruct boot_memory small_tree 0x128 tree_tokens
unfolding IsStruct IsToken IsWord IsBytes next_of IsText
small_tree-IsStruct = (
  omega arith,
  omega arith,
  ((omega arith, refl, refl, refl, refl), refl, omega arith),
  omega arith,
  omega arith,
  (
    omega arith,
    omega arith,
    (
      (omega arith, refl, refl, refl, refl),
      (omega arith, refl, refl, refl, refl),
      (omega arith, refl, refl, refl, refl),
      IsText-tested boot_memory 0x148 start_text refl,
      omega arith,
      (refl, omega arith, (refl, omega arith, (refl, omega arith, (refl, omega arith, tt)))),
    ),
    omega arith,
    omega arith,
    (
      omega arith,
      omega arith,
      (omega arith, refl, refl, refl, refl),
      omega arith,
      omega arith,
      inr (inr (omega arith, refl, refl, refl, refl)),
    ),
  ),
)

dtb_parse-Reads_example :
    dtb_parse 0x100 0x148 0x15B boot_memory
    ≡ some (
        stored
          (tokens_initrd tree_tokens (record { linux_initrd_start = 0; linux_initrd_end = 0 })))
dtb_parse-Reads_example =
    dtb_parse-Reads boot_memory true 0x100 0x148 0x15B
      (IsText-tested boot_memory 0x148 start_text refl)
      (IsText-tested boot_memory 0x15B end_text refl) is_tree tree_tokens
      (subst (λ t. IsStruct boot_memory t t.dt_struct tree_tokens) (sym small_tree-at)
        small_tree-IsStruct)

abbrev Places : (programimage_start text_offset mem_block_end : ℕ) → Type 0
Places programimage_start text_offset mem_block_end =
    (p : ℕ) × (kernel_place programimage_start text_offset mem_block_end ≡ some p)
    × IsPlace (programimage_start + text_offset) mem_block_end p

kernel_place-IsPlace_example : Places 0x80000000 0x400000 0x80510000
kernel_place-IsPlace_example =
    kernel_place-IsPlace 0x80000000 0x400000 0x80510000 (omega arith) (omega arith)

abbrev places : Layout
places = record {
  kernel_load_to_point = 0x80200000;
  dtb_load_to_point = 0x82000000;
  initramfs_load_to_point = 0x84000000;
}

abbrev no_heap : Heap
no_heap = record { word_at = λ a. 7; mem_block_start = 0; mem_block_end = 0 }

kinit-SetsUp_example : SetsUp quad 0x80020000 0x40 0 no_heap at_rest
kinit-SetsUp_example =
    kinit-SetsUp quad 0x80020000 0x40 0 no_heap at_rest (omega arith) (omega arith)
      (omega arith, omega arith, omega arith)
