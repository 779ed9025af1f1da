-- ===== src/Boot.antt =====
-- kmain of main.c on rv32, from the registers of the previous stage to the command that starts hart 0: where
-- the kernel, the device tree and the initial file system are, and where they go. The lines that it
-- prints are left out. Where the linker and the compiler put the texts and the program is a parameter,
-- as is the value of a 32-bit shift of a 32-bit word, which C does not define.
pub mod Place
pub mod Copy
pub mod StartHart
pub mod Contexts
pub mod SetUp
pub mod Whole
use echelon_sbi.Base.{
  ℕ, zero, suc, ◌+◌, ◌*◌, ◌/◌, ◌^◌, ◌==◌, ltb, not, ◌&&◌, if◌then◌else◌, Option, none, some, ◌>>=◌,
  u32, word_mod, bit_and, bit_or, bit_not,
}
use echelon_sbi.Text.Strings.{memcpy}
use echelon_sbi.Archive.{HeaderPwbCpio, Search, found, not_found, vl32, get_cpio_entry_header}
use echelon_sbi.DeviceTree.{word_at, Parsed, untouched, stored, dtb_parse}

-- What the linker and the compiler settle.
pub record Image : Type 0 where
  pub programimage_start : ℕ
  pub shift_32 : ℕ → ℕ
  pub kernel_name : ℕ
  pub dtb_name : ℕ
  pub initramfs_name : ℕ
  pub trailer_name : ℕ
  pub start_name : ℕ
  pub end_name : ℕ

-- `(void*)(0x20000000)`
abbrev pub archive : ℕ
archive = 0x20000000

abbrev pub fw_dynamic_info_magic_value : ℕ
fw_dynamic_info_magic_value = 0x4942534f

-- A part of the system where it was found: at zero if it was not. The header's magic number is zero if it
-- comes from no archive.
pub record Located : Type 0 where
  pub address : ℕ
  pub h_magic : ℕ
  pub h_filesize : ℕ

abbrev pub elsewhere : (address : ℕ) → Located
elsewhere address = record { address = address; h_magic = 0; h_filesize = 0 }

unfoldable pub located : Search → Located
located not_found = elsewhere 0
located (found address header) = record {
  address = address;
  h_magic = header.h_magic;
  h_filesize = vl32 header.h_filesize;
}

unfoldable pub from_archive : Image → (name : ℕ) (memory : ℕ → ℕ) → Option Located
from_archive image name memory =
    get_cpio_entry_header name image.trailer_name archive memory >>= λ s. some (located s)

unfoldable pub locate_kernel : Image → (init_reg_a2 : ℕ) (memory : ℕ → ℕ) → Option Located
locate_kernel image init_reg_a2 memory =
    let is_dynamic =
      not (init_reg_a2 == 0) && word_at memory init_reg_a2 == fw_dynamic_info_magic_value in
    let unloaded_kernel_ptr = if is_dynamic then word_at memory (init_reg_a2 + 8) else 0 in
    if unloaded_kernel_ptr == 0
    then from_archive image image.kernel_name memory
    else some (elsewhere unloaded_kernel_ptr)

unfoldable pub locate_dtb : Image → (init_reg_a1 : ℕ) (memory : ℕ → ℕ) → Option Located
locate_dtb image init_reg_a1 memory =
    if init_reg_a1 == 0
    then from_archive image image.dtb_name memory
    else some (elsewhere init_reg_a1)

-- The start address that the device tree gives, if dtb_parse stores one.
abbrev pub initrd_of : Parsed → ℕ
initrd_of untouched = 0
initrd_of (stored i) = i.linux_initrd_start

-- A tree that a register gave is read for the file system.
unfoldable pub locate_initramfs :
    Image → (init_reg_a1 unloaded_dtb_ptr : ℕ) (memory : ℕ → ℕ) → Option Located
locate_initramfs image init_reg_a1 unloaded_dtb_ptr memory =
    let parsed =
      if not (init_reg_a1 == 0)
      then dtb_parse unloaded_dtb_ptr image.start_name image.end_name memory
      else some untouched in
    parsed >>= λ p.
    if initrd_of p == 0
    then from_archive image image.initramfs_name memory
    else some (elsewhere (initrd_of p))

-- Two words of the header of the kernel as one.
unfoldable pub header_word : Image → (a b : ℕ) → ℕ
header_word image a b = bit_or (image.shift_32 b) a

-- 2 MiB
abbrev pub megapage : ℕ
megapage = 0x00200000

unfoldable pub raise_loop : (fuel mem_block_end kernel_load_to_point : ℕ) → Option ℕ
raise_loop zero mem_block_end kernel_load_to_point = none
raise_loop (suc fuel) mem_block_end kernel_load_to_point =
    let rest = raise_loop fuel mem_block_end (u32 (kernel_load_to_point + megapage)) in
    if ltb kernel_load_to_point mem_block_end then rest else some kernel_load_to_point

-- As many rounds as the address space has pages of 2 MiB, and one.
unfoldable pub kernel_place : (programimage_start text_offset mem_block_end : ℕ) → Option ℕ
kernel_place programimage_start text_offset mem_block_end =
    let wanted = u32 (programimage_start + text_offset) in
    let aligned =
      if not (bit_and wanted 0x001FFFFF == 0)
      then u32 (bit_and wanted (bit_not 0x001FFFFF) + megapage)
      else wanted in
    raise_loop 2049 mem_block_end aligned

-- Where the parts go.
pub record Layout : Type 0 where
  pub kernel_load_to_point : ℕ
  pub dtb_load_to_point : ℕ
  pub initramfs_load_to_point : ℕ

unfoldable pub dtb_place : Located → (kernel_load_to_point image_size init_reg_a1 : ℕ) → ℕ
dtb_place dtb kernel_load_to_point image_size init_reg_a1 =
    let wanted =
      if not (dtb.h_magic == 0)
      then u32 (kernel_load_to_point + image_size + 0x10)
      else init_reg_a1 in
    bit_and wanted (bit_not 0xF)

unfoldable pub initramfs_place : Located → ℕ
initramfs_place initramfs = if not (initramfs.h_magic == 0) then 0x86000000 else initramfs.address

-- A part from the archive is copied to its place.
unfoldable pub copy_from_archive : Located → (place : ℕ) (memory : ℕ → ℕ) → Option (ℕ → ℕ)
copy_from_archive part place memory =
    if not (part.h_magic == 0)
    then memcpy place part.address part.h_filesize memory
    else some memory

-- The end of kmain: `idle_loop`, or the parts in their places, before hart 0 is started.
pub data Boot : Type 0 where
  idle : Boot
  ready : Layout → (memory : ℕ → ℕ) → Boot

unfoldable pub load :
    Image
    → (init_reg_a1 mem_block_end : ℕ) (kernel dtb initramfs : Located) (memory : ℕ → ℕ)
    → Option Boot
load image init_reg_a1 mem_block_end kernel dtb initramfs memory =
    let text_offset =
      header_word image (word_at memory (kernel.address + 8))
        (word_at memory (kernel.address + 12)) in
    let image_size =
      header_word image (word_at memory (kernel.address + 16))
        (word_at memory (kernel.address + 20)) in
    let kernel_size = if not (kernel.h_magic == 0) then kernel.h_filesize else image_size in
    kernel_place image.programimage_start text_offset mem_block_end >>= λ kernel_load_to_point.
    memcpy kernel_load_to_point kernel.address kernel_size memory >>= λ with_kernel.
    let dtb_load_to_point = dtb_place dtb kernel_load_to_point image_size init_reg_a1 in
    copy_from_archive dtb dtb_load_to_point with_kernel >>= λ with_dtb.
    let initramfs_load_to_point = initramfs_place initramfs in
    copy_from_archive initramfs initramfs_load_to_point with_dtb >>= λ with_all. some (
      ready
        (record {
          kernel_load_to_point = kernel_load_to_point;
          dtb_load_to_point = dtb_load_to_point;
          initramfs_load_to_point = initramfs_load_to_point;
        })
        with_all)

unfoldable pub kmain :
    Image → (init_reg_a1 init_reg_a2 mem_block_end : ℕ) (memory : ℕ → ℕ) → Option Boot
kmain image init_reg_a1 init_reg_a2 mem_block_end memory =
    locate_kernel image init_reg_a2 memory >>= λ kernel.
    if kernel.address == 0
    then some idle
    else (locate_dtb image init_reg_a1 memory >>= λ dtb.
        if dtb.address == 0
        then some idle
        else (locate_initramfs image init_reg_a1 dtb.address memory >>= λ initramfs.
            if initramfs.address == 0
            then some idle
            else load image init_reg_a1 mem_block_end kernel dtb initramfs memory))
