-- ===== src/DeviceTree/Bytes.antt =====
-- The words of a device tree, in either order of their bytes.
use echelon_sbi.Base.{
  ℕ, zero, suc, ◌+◌, ◌*◌, ◌/◌, ◌%◌, ◌^◌, ◌≤◌, ◌<◌, ◌≡◌, refl, sym, ap, ◌∙◌, Bool, true, false,
  if◌then◌else◌, u32, bit_and, bit_or, arith,
}
use echelon_sbi.Base.Bits.{bit_or_lowest}
use echelon_sbi.Base.Bits.Fields.{bit_and-ones, bit_and-ones_shifted, bit_or_sum, bit_or-zero}
use echelon_sbi.DeviceTree.{dtb_parse_swap_endianess_32, word_at, fixed_word_at}

bit_or_comm_within : (n a b : ℕ) → a ≤ n → b ≤ n → bit_or a b ≡ bit_or b a
bit_or_comm_within zero a b ha hb = let ab : a ≡ b = omega arith in cc ab
bit_or_comm_within (suc n) zero zero ha hb = refl
bit_or_comm_within (suc n) a b ha hb =
    let halves = bit_or_comm_within n (a / 2) (b / 2) (omega arith) (omega arith) in
    let ab = bit_or_lowest a b in let ba = bit_or_lowest b a in omega (arith, ab, ba, halves)

pub bit_or_comm : (a b : ℕ) → bit_or a b ≡ bit_or b a
bit_or_comm a b = bit_or_comm_within (a + b) a b (omega arith) (omega arith)

-- Disjoint fields, the lower one first.
bit_or_above : (k q r : ℕ) → r < 2 ^ k → bit_or r (q * 2 ^ k) ≡ r + q * 2 ^ k
bit_or_above k q r below = bit_or_comm r (q * 2 ^ k) ∙ bit_or_sum k q r below ∙ omega arith

-- The number of four bytes, the lowest first.
abbrev pub four : (b0 b1 b2 b3 : ℕ) → ℕ
four b0 b1 b2 b3 = b0 + b1 * 2 ^ 8 + b2 * 2 ^ 16 + b3 * 2 ^ 24

-- Exchanging the bytes of a word reverses them.
pub dtb_parse_swap_endianess_32_lem :
    (b0 b1 b2 b3 : ℕ)
    → b0 < 2 ^ 8
    → b1 < 2 ^ 8
    → b2 < 2 ^ 8
    → b3 < 2 ^ 8
    → dtb_parse_swap_endianess_32 (four b0 b1 b2 b3) ≡ four b3 b2 b1 b0
unfolding dtb_parse_swap_endianess_32
dtb_parse_swap_endianess_32_lem b0 b1 b2 b3 h0 h1 h2 h3 =
    let val = four b0 b1 b2 b3 in
    let third : bit_and (val / 2 ^ 8) 65280 ≡ b2 * 2 ^ 8 =
      bit_and-ones_shifted 8 8 (val / 2 ^ 8) ∙ omega arith in
    let second : bit_and (u32 (val * 2 ^ 8)) 16711680 ≡ b1 * 2 ^ 16 =
      bit_and-ones_shifted 16 8 (u32 (val * 2 ^ 8)) ∙ omega arith in
    let top : bit_and (val / 2 ^ 24) 255 ≡ b3 = bit_and-ones 8 (val / 2 ^ 24) ∙ omega arith in
    let first : bit_and (u32 (val * 2 ^ 24)) 4278190080 ≡ b0 * 2 ^ 24 =
      bit_and-ones_shifted 24 8 (u32 (val * 2 ^ 24)) ∙ omega arith in
    let one : bit_or 0 (b2 * 2 ^ 8) ≡ b2 * 2 ^ 8 =
      bit_or_comm 0 (b2 * 2 ^ 8) ∙ bit_or-zero (b2 * 2 ^ 8) in
    let two : bit_or (b2 * 2 ^ 8) (b1 * 2 ^ 16) ≡ b2 * 2 ^ 8 + b1 * 2 ^ 16 =
      bit_or_above 16 b1 (b2 * 2 ^ 8) (omega arith) in
    let even_bytes : b2 * 2 ^ 8 + b1 * 2 ^ 16 ≡ (b2 + b1 * 2 ^ 8) * 2 ^ 8 = omega arith in
    let three : bit_or ((b2 + b1 * 2 ^ 8) * 2 ^ 8) b3 ≡ (b2 + b1 * 2 ^ 8) * 2 ^ 8 + b3 =
      bit_or_sum 8 (b2 + b1 * 2 ^ 8) b3 h3 in
    rw (third, second, top, first, one, two, even_bytes, three)
      (bit_or_above 24 b0 ((b2 + b1 * 2 ^ 8) * 2 ^ 8 + b3) (omega arith) ∙ omega arith)

-- Exchanging the bytes of a word twice gives it back.
pub dtb_parse_swap_endianess_32-Undoes :
    (val : ℕ) → val < 2 ^ 32 → dtb_parse_swap_endianess_32 (dtb_parse_swap_endianess_32 val) ≡ val
dtb_parse_swap_endianess_32-Undoes val fits =
    let b0 = val % 2 ^ 8 in
    let b1 = val / 2 ^ 8 % 2 ^ 8 in
    let b2 = val / 2 ^ 16 % 2 ^ 8 in
    let b3 = val / 2 ^ 24 in
    let whole : four b0 b1 b2 b3 ≡ val = omega arith in
    let once =
      dtb_parse_swap_endianess_32_lem b0 b1 b2 b3 (omega arith) (omega arith) (omega arith)
        (omega arith) in
    let twice =
      dtb_parse_swap_endianess_32_lem b3 b2 b1 b0 (omega arith) (omega arith) (omega arith)
        (omega arith) in
    ap (λ (x : ℕ). dtb_parse_swap_endianess_32 (dtb_parse_swap_endianess_32 x)) (sym whole)
    ∙ ap (λ (x : ℕ). dtb_parse_swap_endianess_32 x) once
    ∙ twice
    ∙ whole

-- The memory holds a word, its low byte first or, if the tree is swapped, its high byte.
unfoldable pub IsWord : (memory : ℕ → ℕ) (swapped : Bool) (at val : ℕ) → Type 0
IsWord memory swapped at val =
    (val < 2 ^ 32)
    × (memory at ≡ (if swapped then val / 2 ^ 24 else val % 2 ^ 8))
    × (memory (at + 1) ≡ (if swapped then val / 2 ^ 16 % 2 ^ 8 else val / 2 ^ 8 % 2 ^ 8))
    × (memory (at + 2) ≡ (if swapped then val / 2 ^ 8 % 2 ^ 8 else val / 2 ^ 16 % 2 ^ 8))
    × (memory (at + 3) ≡ (if swapped then val % 2 ^ 8 else val / 2 ^ 24))

pub fixed_word_at-IsWord :
    (memory : ℕ → ℕ) (swapped : Bool) (at val : ℕ)
    → IsWord memory swapped at val
    → fixed_word_at memory swapped at ≡ val
unfolding fixed_word_at word_at IsWord
fixed_word_at-IsWord memory false at val (fits, m0, m1, m2, m3) = omega arith
fixed_word_at-IsWord memory true at val (fits, m0, m1, m2, m3) =
    rw (m0, m1, m2, m3)
      (dtb_parse_swap_endianess_32_lem (val / 2 ^ 24) (val / 2 ^ 16 % 2 ^ 8) (val / 2 ^ 8 % 2 ^ 8)
          (val % 2 ^ 8) (omega arith) (omega arith) (omega arith) (omega arith)
        ∙ omega arith)
