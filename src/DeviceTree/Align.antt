-- ===== src/DeviceTree/Align.antt =====
-- The next token of a device tree, and the number that the bytes of a property make.
use echelon_sbi.Base.{
  ℕ, suc, ◌+◌, ◌-◌, ◌*◌, ◌/◌, ◌%◌, ◌^◌, ◌≤◌, ◌<◌, ◌≡◌, ◌≢◌, refl, ap, ◌∙◌, ◌==◌, Bool-cases, inl,
  inr, List, [], ◌∷◌, length, u32, word_mod, sub_word, ◌<<<◌, bit_and, bit_or, bit_not, arith,
}
use echelon_sbi.Base.Bits.Fields.{bit_and-ones, bit_and-ones_shifted, bit_or_sum}
use echelon_sbi.DeviceTree.{align, value_loop}

-- A number up to the next multiple of four.
abbrev pub up_to_four : ℕ → ℕ
up_to_four n = (n + 3) / 4 * 4

pub align_lem :
    (dt_struct addr : ℕ)
    → dt_struct ≤ addr
    → addr < word_mod
    → dt_struct + up_to_four (addr - dt_struct) < word_mod
    → align dt_struct (u32 addr) ≡ dt_struct + up_to_four (addr - dt_struct)
unfolding align
align_lem dt_struct addr above fits next_fits =
    let offset : sub_word (u32 addr) dt_struct ≡ addr - dt_struct = omega arith in
    let n = addr - dt_struct in
    let low : bit_and n 3 ≡ n % 2 ^ 2 = bit_and-ones 2 n in
    let high : bit_and n (bit_not 3) ≡ n / 4 * 4 = bit_and-ones_shifted 2 30 n ∙ omega arith in
    elim (Bool-cases (n % 2 ^ 2 == 0)) [
      | inl even ↦ let e : n % 4 ≡ 0 = ground arith in rw (offset, low, even) (omega arith)
      | inr odd ↦ let e : n % 4 ≢ 0 = λ z. ground arith in rw (offset, low, odd, high) (omega arith)
    ]

-- The memory holds bytes.
unfoldable pub IsBytes : (memory : ℕ → ℕ) (at : ℕ) → List ℕ → Type 0
IsBytes memory at [] = Unit {0}
IsBytes memory at (b ∷ bs) = (memory at ≡ b) × (b < 2 ^ 8) × IsBytes memory (suc at) bs

-- The low 32 bits of the number that bytes make, the highest first, behind those of `above`.
abbrev pub big_endian : (above : ℕ) → List ℕ → ℕ
big_endian above [] = above
big_endian above (b ∷ bs) = big_endian ((above * 2 ^ 8 + b) % 2 ^ 32) bs

pub value_loop-big_endian :
    (bytes : List ℕ) (at value : ℕ) (memory : ℕ → ℕ)
    → IsBytes memory at bytes
    → value_loop (length bytes) at value memory ≡ big_endian value bytes
unfolding value_loop IsBytes
value_loop-big_endian [] at value memory there = refl
value_loop-big_endian (b ∷ bs) at value memory (here, fits, there) =
    let shifted : value <<< 8 ≡ value % 2 ^ 24 * 2 ^ 8 = omega arith in
    let joined : bit_or (value % 2 ^ 24 * 2 ^ 8) b ≡ value % 2 ^ 24 * 2 ^ 8 + b =
      bit_or_sum 8 (value % 2 ^ 24) b fits in
    let same : value % 2 ^ 24 * 2 ^ 8 + b ≡ (value * 2 ^ 8 + b) % 2 ^ 32 = omega arith in
    let step : bit_or (value <<< 8) (memory at) ≡ (value * 2 ^ 8 + b) % 2 ^ 32 =
      rw (here, shifted, joined) same in
    ap (λ (v : ℕ). value_loop (length bs) (suc at) v memory) step
    ∙ value_loop-big_endian bs (suc at) ((value * 2 ^ 8 + b) % 2 ^ 32) memory there
