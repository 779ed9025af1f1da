-- ===== src/Boot/Place.antt =====
-- Where kmain puts the kernel and the device tree.
use echelon_sbi.Base.{
  ℕ, zero, suc, ◌+◌, ◌*◌, ◌/◌, ◌%◌, ◌^◌, ◌≤◌, ◌<◌, ◌≡◌, ◌≢◌, refl, ◌∙◌, false, ◌==◌, ltb,
  Bool-cases, ==-false, inl, inr, some, u32, word_mod, bit_and, bit_not, arith,
}
use echelon_sbi.Base.Bits.Fields.{bit_and-ones, bit_and-ones_shifted}
use echelon_sbi.Boot.{Located, megapage, raise_loop, kernel_place, dtb_place}

-- The least multiple of 2 MiB from two addresses on.
pub record IsPlace (wanted mem_block_end p : ℕ) : Type 0 where
  pub aligned : p % megapage ≡ 0
  pub from_wanted : wanted ≤ p
  pub from_end : mem_block_end ≤ p
  pub least : (q : ℕ) → q % megapage ≡ 0 → wanted ≤ q → mem_block_end ≤ q → p ≤ q

raise_loop-IsPlace :
    (fuel mem_block_end p : ℕ)
    → 0 < fuel
    → mem_block_end + megapage ≤ p + fuel * megapage
    → mem_block_end + megapage ≤ word_mod
    → p % megapage ≡ 0
    → p < word_mod
    → (q : ℕ) × (raise_loop fuel mem_block_end p ≡ some q) × IsPlace p mem_block_end q
unfolding raise_loop
raise_loop-IsPlace zero mem_block_end p more enough room aligned fits = absurd (omega arith)
raise_loop-IsPlace (suc fuel) mem_block_end p more enough room aligned fits =
    elim (Bool-cases (ltb p mem_block_end)) [
      | inl below ↦
          let lower : p < mem_block_end = ground arith in
          let next : u32 (p + megapage) ≡ p + megapage = omega arith in
          let step : raise_loop (suc fuel) mem_block_end p
              ≡ raise_loop fuel mem_block_end (p + megapage) =
            rw (below, next) refl in
          let (q, run, place) =
            raise_loop-IsPlace fuel mem_block_end (p + megapage) (omega arith) (omega arith) room
              (omega arith) (omega arith) in
          let from = place.from_wanted in
          (
            q,
            step ∙ run,
            record {
              aligned = place.aligned;
              from_wanted = omega arith;
              from_end = place.from_end;
              least = λ r r_aligned r_wanted r_end. place.least r r_aligned (omega arith) r_end;
            },
          )
      | inr above ↦
          let high : mem_block_end ≤ p = ground arith in
          (
            p,
            rw above refl,
            record {
              aligned = aligned;
              from_wanted = omega arith;
              from_end = high;
              least = λ r r_aligned r_wanted r_end. r_wanted;
            },
          )
    ]

-- If the wanted address and the end of the heap are 2 MiB below the end of the address space at least,
-- the loop of kmain ends, and puts the kernel at the least multiple of 2 MiB that is not below the
-- wanted address nor inside the heap.
pub kernel_place-IsPlace :
    (programimage_start text_offset mem_block_end : ℕ)
    → programimage_start + text_offset + megapage ≤ word_mod
    → mem_block_end + megapage ≤ word_mod
    → (p : ℕ) × (kernel_place programimage_start text_offset mem_block_end ≡ some p)
      × IsPlace (programimage_start + text_offset) mem_block_end p
unfolding kernel_place
kernel_place-IsPlace programimage_start text_offset mem_block_end wanted_fits end_fits =
    let wanted = programimage_start + text_offset in
    let same : u32 (programimage_start + text_offset) ≡ wanted = omega arith in
    let low : bit_and wanted 0x001FFFFF ≡ wanted % 2 ^ 21 = bit_and-ones 21 wanted in
    let high : bit_and wanted (bit_not 0x001FFFFF) ≡ wanted / 2 ^ 21 % 2 ^ 11 * 2 ^ 21 =
      bit_and-ones_shifted 21 11 wanted in
    elim (Bool-cases (wanted % 2 ^ 21 == 0)) [
      | inl even ↦
          let e : wanted % 2 ^ 21 ≡ 0 = ground arith in
          let step : kernel_place programimage_start text_offset mem_block_end
              ≡ raise_loop 2049 mem_block_end wanted =
            rw (same, low, even) refl in
          let (q, run, place) =
            raise_loop-IsPlace 2049 mem_block_end wanted (omega arith) (omega arith) end_fits e
              (omega arith) in
          (q, step ∙ run, place)
      | inr odd ↦
          let e : wanted % 2 ^ 21 ≢ 0 = λ z. ground arith in
          let up : ℕ = wanted / 2 ^ 21 * 2 ^ 21 + megapage in
          let next : u32 (wanted / 2 ^ 21 % 2 ^ 11 * 2 ^ 21 + megapage) ≡ up = omega arith in
          let step : kernel_place programimage_start text_offset mem_block_end
              ≡ raise_loop 2049 mem_block_end up =
            rw (same, low, odd, high, next) refl in
          let (q, run, place) =
            raise_loop-IsPlace 2049 mem_block_end up (omega arith) (omega arith) end_fits
              (omega arith) (omega arith) in
          let from = place.from_wanted in
          (
            q,
            step ∙ run,
            record {
              aligned = place.aligned;
              from_wanted = omega arith;
              from_end = place.from_end;
              least = λ r r_aligned r_wanted r_end. place.least r r_aligned (omega arith) r_end;
            },
          )
    ]

-- A device tree from the archive goes to a multiple of 16 behind the kernel, less than 32 bytes behind
-- it, if there is room below the end of the address space.
pub dtb_place-bounds :
    (dtb : Located) (kernel_load_to_point image_size init_reg_a1 : ℕ)
    → dtb.h_magic ≢ 0
    → kernel_load_to_point + image_size + 0x10 < word_mod
    → (dtb_place dtb kernel_load_to_point image_size init_reg_a1 % 16 ≡ 0)
      × (kernel_load_to_point + image_size
          < dtb_place dtb kernel_load_to_point image_size init_reg_a1)
      × (dtb_place dtb kernel_load_to_point image_size init_reg_a1
          ≤ kernel_load_to_point + image_size + 16)
unfolding dtb_place
dtb_place-bounds dtb kernel_load_to_point image_size init_reg_a1 from_archive fits =
    let wanted = kernel_load_to_point + image_size + 0x10 in
    let part : (dtb.h_magic == 0) ≡ false = ==-false dtb.h_magic 0 from_archive in
    let same : u32 (kernel_load_to_point + image_size + 0x10) ≡ wanted = omega arith in
    let mask : bit_and wanted (bit_not 0xF) ≡ wanted / 2 ^ 4 % 2 ^ 28 * 2 ^ 4 =
      bit_and-ones_shifted 4 28 wanted in
    rw (part, same, mask) (omega arith, omega arith, omega arith)
