-- ===== src/Boot/Copy.antt =====
-- The parts of the system in their places.
use echelon_sbi.Base.{
  ℕ, ◌+◌, ◌-◌, ◌≤◌, ◌≡◌, refl, true, ◌==◌, not, if◌then◌else◌, some, word_mod, arith,
}
use echelon_sbi.Text.Copies.{Holds, CopiesForward, memcpy-Holds}
use echelon_sbi.DeviceTree.{word_at}
use echelon_sbi.Boot.{
  Image, Located, ready, header_word, megapage, dtb_place, initramfs_place, copy_from_archive, load,
}
use echelon_sbi.Boot.Place.{IsPlace, kernel_place-IsPlace}

-- What the header of the kernel says, and how much of it is copied.
module _ (image : Image) (kernel : Located) (memory : ℕ → ℕ) where
  abbrev pub text_offset : ℕ
  text_offset =
      header_word image (word_at memory (kernel.address + 8)) (word_at memory (kernel.address + 12))

  abbrev pub image_size : ℕ
  image_size =
      header_word image (word_at memory (kernel.address + 16))
        (word_at memory (kernel.address + 20))

  abbrev pub kernel_size : ℕ
  kernel_size = if not (kernel.h_magic == 0) then kernel.h_filesize else image_size

-- The kernel is in its place, and nothing else has changed.
abbrev pub Loads :
    Image
    → (init_reg_a1 mem_block_end : ℕ) (kernel dtb initramfs : Located) (memory : ℕ → ℕ) → Type 0
Loads image init_reg_a1 mem_block_end kernel dtb initramfs memory =
    (p : ℕ) × IsPlace (image.programimage_start + text_offset image kernel memory) mem_block_end p
    × (after : ℕ → ℕ) × (load image init_reg_a1 mem_block_end kernel dtb initramfs memory
        ≡ some (
            ready
              (record {
                kernel_load_to_point = p;
                dtb_load_to_point = dtb_place dtb p (image_size image kernel memory) init_reg_a1;
                initramfs_load_to_point = initramfs.address;
              })
              after))
    × Holds memory p (p + kernel_size image kernel memory) (λ a. memory (kernel.address + (a - p)))
        (some after)

-- If the device tree and the file system are where the previous stage put them, the last part of kmain
-- ends with the kernel, and only that, copied to its place, which is as `kernel_place` chooses it, and
-- with the given address of the device tree, rounded down to a multiple of 16, and that of the file
-- system. The wanted address and the end of the heap have to be 2 MiB below the end of the address
-- space at least, and no place may lie inside the kernel before it is copied.
pub load-Loads :
    (image : Image) (init_reg_a1 mem_block_end : ℕ) (kernel dtb initramfs : Located)
    (memory : ℕ → ℕ)
    → image.programimage_start + text_offset image kernel memory + megapage ≤ word_mod
    → mem_block_end + megapage ≤ word_mod
    → ((p : ℕ)
        → IsPlace (image.programimage_start + text_offset image kernel memory) mem_block_end p
        → CopiesForward p kernel.address (kernel_size image kernel memory))
    → dtb.h_magic ≡ 0
    → initramfs.h_magic ≡ 0
    → Loads image init_reg_a1 mem_block_end kernel dtb initramfs memory
unfolding load copy_from_archive initramfs_place
load-Loads image init_reg_a1 mem_block_end kernel dtb initramfs memory wanted_fits end_fits forward
      dtb_given initramfs_given =
    let (p, placed, place) =
      kernel_place-IsPlace image.programimage_start (text_offset image kernel memory) mem_block_end
        wanted_fits end_fits in
    let (after, copied, holds) =
      memcpy-Holds p kernel.address (kernel_size image kernel memory) memory (forward p place) in
    let no_dtb : (dtb.h_magic == 0) ≡ true = ground arith in
    let no_initramfs : (initramfs.h_magic == 0) ≡ true = ground arith in
    (p, place, after, rw (placed, copied, no_dtb, no_initramfs) refl, (after, refl, holds))
