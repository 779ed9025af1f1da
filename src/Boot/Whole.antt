-- ===== src/Boot/Whole.antt =====
-- kmain from one end to the other: what it finds in the archive and the device tree, and where it puts it.
use echelon_sbi.Base.{
  ℕ, ◌+◌, ◌-◌, ◌≤◌, ◌<◌, ◌≡◌, ◌≢◌, ◌⊎◌, inl, inr, refl, ap, ◌∙◌, Bool, false, ◌==◌, not, ◌&&◌,
  ==-false, some, List, length, word_mod, arith,
}
use echelon_sbi.Text.{codes, IsText}
use echelon_sbi.Text.Copies.{Holds, CopiesForward}
use echelon_sbi.Archive.{HeaderPwbCpio, Search, found, not_found}
use echelon_sbi.Archive.Entries.{Entry, End, trailer_name, IsArchive, Finds, Finds-same}
use echelon_sbi.Archive.Lookup.{get_cpio_entry_header-Finds}
use echelon_sbi.DeviceTree.{word_at, tree_at}
use echelon_sbi.DeviceTree.Tokens.{Token, IsStruct, start_text, end_text, tokens_initrd}
use echelon_sbi.DeviceTree.Walk.{magic, dtb_parse-Reads}
use echelon_sbi.Boot.{
  Image, Located, elsewhere, located, archive, idle, ready, from_archive, locate_kernel,
  fw_dynamic_info_magic_value, locate_dtb, locate_initramfs, load, kmain, megapage, dtb_place,
}
use echelon_sbi.Boot.Place.{IsPlace}
use echelon_sbi.Boot.Copy.{text_offset, image_size, kernel_size, load-Loads}

-- The system that the previous stage left: the archive in memory, with the texts that kmain compares.
pub record IsSystem (image : Image) (memory : ℕ → ℕ) (es : List Entry) (end : End) : Type 0 where
  pub kernel_named : IsText memory image.kernel_name (codes "kernel.bin")
  pub trailer_named : IsText memory image.trailer_name trailer_name
  pub start_named : IsText memory image.start_name start_text
  pub end_named : IsText memory image.end_name end_text
  pub few : length es < word_mod
  pub there : IsArchive memory archive es end

-- Register a2 is zero, or what it points to is no description of the next stage.
abbrev pub NoDescription : (init_reg_a2 : ℕ) (memory : ℕ → ℕ) → Type 0
NoDescription init_reg_a2 memory =
    (init_reg_a2 ≡ 0) ⊎ (word_at memory init_reg_a2 ≢ fw_dynamic_info_magic_value)

module _ (image : Image) (memory : ℕ → ℕ) (es : List Entry) (end : End)
    (system : IsSystem image memory es end) (init_reg_a2 : ℕ)
    (undescribed : NoDescription init_reg_a2 memory) where
  kernel-Found :
      (result : Search)
      → Finds (codes "kernel.bin") archive es end result
      → locate_kernel image init_reg_a2 memory ≡ some (located result)
  unfolding locate_kernel from_archive
  kernel-Found result finds =
      let (r, run, finds') =
        get_cpio_entry_header-Finds memory image.kernel_name image.trailer_name (codes "kernel.bin")
          system.kernel_named system.trailer_named archive es end system.few system.there in
      let same = Finds-same (codes "kernel.bin") archive es end r result finds' finds in
      let plain : (not (init_reg_a2 == 0)
            && word_at memory init_reg_a2 == fw_dynamic_info_magic_value)
          ≡ false =
        elim undescribed [ inl zero_reg ↦ ground arith | inr other ↦ ground arith ] in
      rw (plain, run) (ap (λ (s : Search). some (located s)) same)

  kernel_missing :
      (init_reg_a1 mem_block_end : ℕ)
      → Finds (codes "kernel.bin") archive es end not_found
      → kmain image init_reg_a1 init_reg_a2 mem_block_end memory ≡ some idle
  unfolding kmain located
  kernel_missing init_reg_a1 mem_block_end nowhere = rw (kernel-Found not_found nowhere) refl

  -- A device tree that register a1 gives.
  module _ (init_reg_a1 : ℕ) (given : init_reg_a1 ≢ 0) (swapped : Bool) (ts : List Token)
      (is_tree : word_at memory init_reg_a1 ≡ magic swapped)
      (tree_there : IsStruct memory
        (tree_at memory swapped init_reg_a1 image.start_name image.end_name)
        (tree_at memory swapped init_reg_a1 image.start_name image.end_name).dt_struct
        ts) where
    abbrev pub initrd : ℕ
    initrd =
        (tokens_initrd ts
          (record { linux_initrd_start = 0; linux_initrd_end = 0 })).linux_initrd_start

    initramfs-Found :
        initrd ≢ 0 → locate_initramfs image init_reg_a1 init_reg_a1 memory ≡ some (elsewhere initrd)
    unfolding locate_initramfs
    initramfs-Found some_initrd =
        let read =
          dtb_parse-Reads memory swapped init_reg_a1 image.start_name image.end_name
            system.start_named system.end_named is_tree ts tree_there in
        rw (==-false init_reg_a1 0 given, read, ==-false initrd 0 some_initrd) refl

    kmain-load :
        (file mem_block_end : ℕ) (header : HeaderPwbCpio)
        → Finds (codes "kernel.bin") archive es end (found file header)
        → file ≢ 0
        → initrd ≢ 0
        → kmain image init_reg_a1 init_reg_a2 mem_block_end memory
          ≡ load image init_reg_a1 mem_block_end
              (located (found file header))
              (elsewhere init_reg_a1)
              (elsewhere initrd)
              memory
    unfolding kmain located locate_dtb
    kmain-load file mem_block_end header somewhere some_file some_initrd =
        rw
          (
            kernel-Found (found file header) somewhere,
            ==-false file 0 some_file,
            ==-false init_reg_a1 0 given,
            ==-false init_reg_a1 0 given,
            initramfs-Found some_initrd,
            ==-false initrd 0 some_initrd,
          )
          refl

-- If the previous stage describes no next stage and the archive has no entry "kernel.bin", kmain halts
-- in idle_loop, whatever its other registers are.
pub kmain-idle :
    (image : Image) (memory : ℕ → ℕ) (es : List Entry) (end : End)
    → IsSystem image memory es end
    → (init_reg_a1 init_reg_a2 mem_block_end : ℕ) → NoDescription init_reg_a2 memory
    → Finds (codes "kernel.bin") archive es end not_found
    → kmain image init_reg_a1 init_reg_a2 mem_block_end memory ≡ some idle
kmain-idle image memory es end system init_reg_a1 init_reg_a2 mem_block_end undescribed nowhere =
    kernel_missing image memory es end system init_reg_a2 undescribed init_reg_a1 mem_block_end
      nowhere

-- A device tree at an address, with what its tokens say of the file system.
pub record HasTree (image : Image) (memory : ℕ → ℕ) (at : ℕ) (ts : List Token) : Type 0 where
  pub swapped : Bool
  pub is_tree : word_at memory at ≡ magic swapped
  pub there :
      IsStruct memory
        (tree_at memory swapped at image.start_name image.end_name)
        (tree_at memory swapped at image.start_name image.end_name).dt_struct
        ts

abbrev pub initrd_start : List Token → ℕ
initrd_start ts =
    (tokens_initrd ts (record { linux_initrd_start = 0; linux_initrd_end = 0 })).linux_initrd_start

-- kmain ends with the kernel of the archive in its place, and nothing else changed.
abbrev pub Boots :
    Image
    → (init_reg_a1 init_reg_a2 mem_block_end initrd : ℕ) (kernel : Located) (memory : ℕ → ℕ)
    → Type 0
Boots image init_reg_a1 init_reg_a2 mem_block_end initrd kernel memory =
    (p : ℕ) × IsPlace (image.programimage_start + text_offset image kernel memory) mem_block_end p
    × (after : ℕ → ℕ) × (kmain image init_reg_a1 init_reg_a2 mem_block_end memory
        ≡ some (
            ready
              (record {
                kernel_load_to_point = p;
                dtb_load_to_point =
                    dtb_place (elsewhere init_reg_a1) p (image_size image kernel memory)
                      init_reg_a1;
                initramfs_load_to_point = initrd;
              })
              after))
    × Holds memory p (p + kernel_size image kernel memory) (λ a. memory (kernel.address + (a - p)))
        (some after)

-- If the previous stage gives a device tree in a1, with the address of a file system in it, and
-- describes no next stage, and the archive has an entry "kernel.bin", kmain ends with that entry's file
-- copied to the least multiple of 2 MiB from the wanted address and the end of the heap on, with no
-- other byte of memory changed, with the address of the tree as a1 gives it, rounded down to a multiple
-- of 16, and with the address of the file system as the tree gives it. The wanted address and the end
-- of the heap have to be 2 MiB below the end of the address space at least, and no place may lie inside
-- the file before it is copied.
pub kmain-Boots :
    (image : Image) (memory : ℕ → ℕ) (es : List Entry) (end : End)
    → IsSystem image memory es end
    → (init_reg_a1 init_reg_a2 mem_block_end file : ℕ) (header : HeaderPwbCpio) (ts : List Token)
    → NoDescription init_reg_a2 memory
    → init_reg_a1 ≢ 0
    → HasTree image memory init_reg_a1 ts
    → initrd_start ts ≢ 0
    → Finds (codes "kernel.bin") archive es end (found file header)
    → file ≢ 0
    → image.programimage_start + text_offset image (located (found file header)) memory + megapage
      ≤ word_mod
    → mem_block_end + megapage ≤ word_mod
    → ((p : ℕ)
        → IsPlace
            (image.programimage_start + text_offset image (located (found file header)) memory)
            mem_block_end
            p
        → CopiesForward p file (kernel_size image (located (found file header)) memory))
    → Boots image init_reg_a1 init_reg_a2 mem_block_end
        (initrd_start ts)
        (located (found file header))
        memory
unfolding located
kmain-Boots image memory es end system init_reg_a1 init_reg_a2 mem_block_end file header ts
      undescribed given tree some_initrd somewhere some_file wanted_fits end_fits forward =
    let kernel = located (found file header) in
    let (p, place, after, run, copied) =
      load-Loads image init_reg_a1 mem_block_end kernel (elsewhere init_reg_a1)
        (elsewhere (initrd_start ts)) memory wanted_fits end_fits forward refl refl in
    (
      p,
      place,
      after,
      kmain-load image memory es end system init_reg_a2 undescribed init_reg_a1 given tree.swapped
            ts tree.is_tree tree.there file mem_block_end header somewhere some_file some_initrd
          ∙ run,
      copied,
    )
