-- ===== src/Trap/PageTable/Sv32.antt =====
-- `walk_pts` against the Sv32 translation.
use mathlib.Core.Path.{ap}
use echelon_sbi.Base.{
  ℕ, ◌+◌, ◌*◌, ◌/◌, ◌%◌, ◌^◌, ◌<◌, ◌≤◌, ◌≡◌, Bool, lt_or_le, true, false, ◌==◌, ltb, Bool-cases,
  inl, inr, if◌then◌else◌, some, bit_and, bit_or, bit_not, ◌<<<◌, ◌>>>◌, shift_right_signed, arith,
}
use echelon_sbi.Base.Bits.Fields.{bit_or_sum, bit_and-ones, bit_and-ones_shifted}
use echelon_sbi.Trap.PageTable.{page_entry, walk_loop, superpage_loop, walk_pts}

-- The table that an entry or the root points to: its page number, below 2 ^ 20 of which the 32-bit
-- firmware reaches.
abbrev pub page_of : ℕ → ℕ
page_of entry = entry / 2 ^ 10 % 2 ^ 20 * 2 ^ 12

-- A pointer to a table has V set and R, W and X clear.
abbrev pub is_pointer : ℕ → Bool
is_pointer entry = entry % 16 == 1

-- The two levels of Sv32 on the page number of the root.
abbrev pub translate : (word_at : ℕ → ℕ) (location root : ℕ) → ℕ
translate word_at location root =
    let first = word_at (root % 2 ^ 20 * 2 ^ 12 + 4 * (location / 2 ^ 22)) in
    let second = word_at (page_of first + 4 * (location / 2 ^ 12 % 2 ^ 10)) in
    if is_pointer first
    then page_of second + location % 2 ^ 12
    else page_of first + location % 2 ^ 22

-- A leaf at the first level covers 4 MB and is aligned to it.
abbrev pub IsAligned : (word_at : ℕ → ℕ) (location root : ℕ) → Type 0
IsAligned word_at location root =
    let first = word_at (root % 2 ^ 20 * 2 ^ 12 + 4 * (location / 2 ^ 22)) in
    is_pointer first ≡ false → first / 2 ^ 10 % 2 ^ 10 ≡ 0

table_base :
    (entry : ℕ) → bit_and (shift_right_signed (entry <<< 2) 0) (bit_not 0xfff) ≡ page_of entry
table_base entry = ground (arith, bit_and-ones_shifted 12 20 (entry <<< 2))

leaf_base : (entry : ℕ) → (shift_right_signed entry 10 <<< 12) ≡ page_of entry
leaf_base entry = ground arith

module _ (word_at : ℕ → ℕ) (location : ℕ) (bound : location < 2 ^ 32) where
  first_entry :
      (satp : ℕ)
      → page_entry word_at location (satp <<< 10) 22
        ≡ word_at (satp % 2 ^ 20 * 2 ^ 12 + 4 * (location / 2 ^ 22))
  unfolding page_entry
  first_entry satp =
      ap word_at (ground (arith, table_base (satp <<< 10), bit_and-ones 10 (location >>> 22)))

  second_entry :
      (entry : ℕ)
      → page_entry word_at location entry 12
        ≡ word_at (page_of entry + 4 * (location / 2 ^ 12 % 2 ^ 10))
  unfolding page_entry
  second_entry entry =
      ap word_at (ground (arith, table_base entry, bit_and-ones 10 (location >>> 12)))

  superpage :
      (entry : ℕ)
      → entry / 2 ^ 10 % 2 ^ 10 ≡ 0
      → bit_or
          (bit_or (shift_right_signed entry 10 <<< 12) (bit_and location (0x3ff <<< 12)))
          (bit_and location 0xfff)
        ≡ page_of entry + location % 2 ^ 22
  superpage entry aligned = ground (
    arith,
    leaf_base entry,
    bit_and-ones_shifted 12 10 location,
    bit_and-ones 12 location,
    bit_or_sum 22 (entry / 2 ^ 20 % 2 ^ 10) (location / 2 ^ 12 % 2 ^ 10 * 2 ^ 12),
    bit_or_sum 12 (entry / 2 ^ 20 % 2 ^ 10 * 2 ^ 10 + location / 2 ^ 12 % 2 ^ 10)
        (location % 2 ^ 12),
  )

  page :
      (entry : ℕ)
      → bit_or (shift_right_signed entry 10 <<< 12) (bit_and location 0xfff)
        ≡ page_of entry + location % 2 ^ 12
  page entry = ground (
    arith,
    leaf_base entry,
    bit_and-ones 12 location,
    bit_or_sum 12 (entry / 2 ^ 10 % 2 ^ 20) (location % 2 ^ 12),
  )

  abbrev first : ℕ → ℕ
  first satp = word_at (satp % 2 ^ 20 * 2 ^ 12 + 4 * (location / 2 ^ 22))

  walk_pointer :
      (satp : ℕ)
      → is_pointer (first satp) ≡ true
      → walk_loop word_at location 2 (satp <<< 10) 22
        ≡ some (word_at (page_of (first satp) + 4 * (location / 2 ^ 12 % 2 ^ 10)), 2)
  unfolding walk_loop
  walk_pointer satp pointer =
      ground (arith, first_entry satp, bit_and-ones 4 (first satp), second_entry (first satp))

  walk_leaf :
      (satp : ℕ)
      → is_pointer (first satp) ≡ false
      → walk_loop word_at location 2 (satp <<< 10) 22 ≡ some (first satp, 12)
  unfolding walk_loop
  walk_leaf satp leaf = ground (arith, first_entry satp, bit_and-ones 4 (first satp))

  -- For a 32-bit satp and a 32-bit address, walk_pts ends, within the fuel of the model, if with Sv32 on
  -- a leaf that the first level gives is aligned to 4 MB. With translation off it gives the address
  -- itself, and with Sv32 on the two-level translation, the 4 KB page of the second entry or the 4 MB page
  -- of the first, with the number of every page cut to 20 bits, which the firmware's 32-bit pointers
  -- reach.
  pub walk_pts_lem :
      (satp : ℕ)
      → satp < 2 ^ 32
      → (2 ^ 31 ≤ satp → IsAligned word_at location satp)
      → walk_pts word_at location satp
        ≡ some (if ltb satp (2 ^ 31) then location else translate word_at location satp)
  unfolding walk_pts superpage_loop
  walk_pts_lem satp fits aligned = elim (lt_or_le satp (2 ^ 31)) [
    | inl off ↦ ground arith
    | inr on ↦ elim (Bool-cases (is_pointer (first satp))) [
      | inl pointer ↦
          rw (walk_pointer satp pointer) (
            ground
              (arith, page (word_at (page_of (first satp) + 4 * (location / 2 ^ 12 % 2 ^ 10)))))
      | inr leaf ↦
          rw (walk_leaf satp leaf) (ground (arith, superpage (first satp) (aligned on leaf)))
    ]
  ]
