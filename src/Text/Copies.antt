-- ===== src/Text/Copies.antt =====
-- What string.c leaves in memory: the bytes that it fills or copies, and all others as they were.
use mathlib.Core.Path.{subst}
use echelon_sbi.Base.{
  ℕ, zero, suc, ◌+◌, ◌-◌, ◌%◌, ◌^◌, ◌≤◌, ◌<◌, ◌≡◌, ◌≢◌, ◌⊎◌, inl, inr, refl, sym, ap, ◌∙◌, ◌==◌,
  ◌&&◌, Bool-cases, leb, ltb, if◌then◌else◌, Option, some, List, [], ◌∷◌, length, update, update_ne,
  bit_and, word_mod, u8, true, false, arith,
}
use echelon_sbi.Base.Bits.Fields.{bit_and-ones}
use echelon_sbi.Text.{IsText}
use echelon_sbi.Text.Slices.{IsText-same}
use echelon_sbi.Text.Strings.{memset, memset_loop, memcpy, memcpy_loop, strcpy, strcpy_loop}

-- The bytes of a range are the given ones, all others as before.
abbrev pub Holds : (before : ℕ → ℕ) (first end : ℕ) (bytes : ℕ → ℕ) → Option (ℕ → ℕ) → Type 0
Holds before first end bytes result =
    (after : ℕ → ℕ) × (result ≡ some after)
    × ((a : ℕ) → after a ≡ (if leb first a && ltb a end then bytes a else before a))

memset_loop-Holds :
    (fuel ptr end_addr value : ℕ) (memory : ℕ → ℕ)
    → ptr ≤ end_addr
    → end_addr < ptr + fuel
    → Holds memory ptr end_addr (λ a. value) (memset_loop fuel ptr end_addr value memory)
unfolding memset_loop
memset_loop-Holds zero ptr end_addr value memory le enough = absurd (omega arith)
memset_loop-Holds (suc fuel) ptr end_addr value memory le enough =
    elim (Bool-cases (ltb ptr end_addr)) [
      | inl below ↦
          let lt : ptr < end_addr = ground arith in
          let (after, result, holds) =
            memset_loop-Holds fuel (suc ptr) end_addr value (update memory ptr value) (omega arith)
              (omega arith) in
          (after, rw below result, λ a. let h = holds a in ground arith)
      | inr above ↦ (memory, rw above refl, λ a. ground arith)
    ]

-- memset ends and leaves the low byte of its second argument in the `n` bytes from `s` on, and every
-- other byte as it was.
pub memset-Holds :
    (s c n : ℕ) (memory : ℕ → ℕ) → Holds memory s (s + n) (λ a. u8 c) (memset s c n memory)
unfolding memset
memset-Holds s c n memory =
    let low : bit_and c 255 ≡ c % 2 ^ 8 = bit_and-ones 8 c in
    let byte : u8 c ≡ u8 (bit_and c 255) = rw low omega arith in
    let filled =
      memset_loop-Holds (suc n) s (s + n) (u8 (bit_and c 255)) memory (omega arith) (omega arith) in
    rw byte filled

-- A copy from the first byte to the last takes no byte that it has overwritten.
abbrev pub CopiesForward : (dest src n : ℕ) → Type 0
CopiesForward dest src n = (dest ≤ src) ⊎ (src + n ≤ dest)

memcpy_loop-Holds :
    (fuel dest src n : ℕ) (memory : ℕ → ℕ)
    → n < fuel
    → CopiesForward dest src n
    → Holds memory dest
        (dest + n)
        (λ a. memory (src + (a - dest)))
        (memcpy_loop fuel dest src (dest + n) memory)
unfolding memcpy_loop
memcpy_loop-Holds zero dest src n memory enough forward = absurd (omega arith)
memcpy_loop-Holds (suc fuel) dest src zero memory enough forward =
    let done : (dest == (dest + 0)) ≡ true = ground arith in
    (memory, rw done refl, λ a. ground arith)
memcpy_loop-Holds (suc fuel) dest src (suc n) memory enough forward =
    let more : (dest == (dest + suc n)) ≡ false = ground arith in
    let end_addr : suc dest + n ≡ dest + suc n = omega arith in
    let changed : ℕ → ℕ = update memory dest (memory src) in
    let (after, result, holds) =
      memcpy_loop-Holds fuel (suc dest) (suc src) n changed (omega arith)
        (elim forward [ inl le ↦ inl (omega arith) | inr ge ↦ inr (omega arith) ]) in
    let kept : (a : ℕ)
        → dest < a
        → a < dest + suc n
        → changed (suc src + (a - suc dest)) ≡ memory (src + (a - dest)) =
      λ a low high.
        let e : suc src + (a - suc dest) ≡ src + (a - dest) = omega arith in
        let apart : src + (a - dest) ≢ dest = λ same. omega arith in
        ap changed e ∙ update_ne memory dest (memory src) (src + (a - dest)) apart in
    let first : memory (src + (dest - dest)) ≡ memory src = ap memory (omega arith) in
    let moved : memcpy_loop fuel (suc dest) (suc src) (dest + suc n) changed ≡ some after =
      subst (λ e. memcpy_loop fuel (suc dest) (suc src) e changed ≡ some after) end_addr result in
    (
      after,
      rw more moved,
      λ a.
          let h = holds a in
          elim (Bool-cases (a == dest)) [
            | inl same ↦
                let at : a ≡ dest = ground arith in
                let b : memory (src + (a - dest)) ≡ memory src = ap memory (omega arith) in
                ground arith
            | inr differ ↦ let k = kept a in ground arith
          ],
    )

-- memcpy ends on every range that does not start inside the bytes it copies, and leaves the `n` bytes
-- from `dest` on as those from `src` on were, and every other byte as it was.
pub memcpy-Holds :
    (dest src n : ℕ) (memory : ℕ → ℕ)
    → CopiesForward dest src n
    → Holds memory dest (dest + n) (λ a. memory (src + (a - dest))) (memcpy dest src n memory)
unfolding memcpy
memcpy-Holds dest src n memory forward =
    memcpy_loop-Holds (suc n) dest src n memory (omega arith) forward

strcpy_loop-Holds :
    (fuel dest src i from_src : ℕ) (memory : ℕ → ℕ) (cs : List ℕ)
    → from_src ≡ src + i
    → length cs < fuel
    → CopiesForward (dest + i) (src + i) (suc (length cs))
    → IsText memory from_src cs
    → Holds memory
        (dest + i)
        (dest + i + suc (length cs))
        (λ a. memory (src + (a - dest)))
        (strcpy_loop fuel dest src i memory)
unfolding strcpy_loop IsText
strcpy_loop-Holds zero dest src i from_src memory cs e enough forward text = absurd (omega arith)
strcpy_loop-Holds (suc fuel) dest src i from_src memory [] e enough forward text =
    let here : memory (src + i) ≡ 0 = subst (λ a. memory a ≡ 0) e text in
    let done : (memory (src + i) == 0) ≡ true = ground arith in
    (
      update memory (dest + i) (memory (src + i)),
      rw done refl,
      λ a. elim (Bool-cases (a == (dest + i))) [
        | inl same ↦
            let at : a ≡ dest + i = ground arith in
            let b : memory (src + (a - dest)) ≡ memory (src + i) = ap memory (omega arith) in
            ground arith
        | inr differ ↦ ground arith
      ],
    )
strcpy_loop-Holds (suc fuel) dest src i from_src memory (c ∷ cs) e enough forward text =
    let here : memory (src + i) ≡ c = subst (λ a. memory a ≡ c) e text.0 in
    let some_byte : c ≢ 0 = text.1 in
    let more : (memory (src + i) == 0) ≡ false = ground arith in
    let changed : ℕ → ℕ = update memory (dest + i) (memory (src + i)) in
    let kept : (a : ℕ)
        → dest + i < a
        → a < dest + i + suc (suc (length cs))
        → changed (src + (a - dest)) ≡ memory (src + (a - dest)) =
      λ a low high.
        update_ne memory (dest + i) (memory (src + i)) (src + (a - dest)) λ same. omega arith in
    let text_kept : IsText changed (suc from_src) cs =
      IsText-same memory changed (suc from_src) (suc from_src) cs
        (λ a b low high same.
          let ab : a ≡ b = omega arith in
          let apart : b ≢ dest + i = λ eq. omega arith in
          ap memory ab ∙ sym (update_ne memory (dest + i) (memory (src + i)) b apart))
        text.2 in
    let (after, result, holds) =
      strcpy_loop-Holds fuel dest src (suc i) (suc from_src) changed cs (omega arith) (omega arith)
        (elim forward [ inl le ↦ inl (omega arith) | inr ge ↦ inr (omega arith) ]) text_kept in
    (
      after,
      rw more result,
      λ a.
          let h = holds a in
          elim (Bool-cases (a == (dest + i))) [
            | inl same ↦
                let at : a ≡ dest + i = ground arith in
                let b : memory (src + (a - dest)) ≡ memory (src + i) = ap memory (omega arith) in
                ground arith
            | inr differ ↦ let k = kept a in ground arith
          ],
    )

-- strcpy ends on a text of less than 2 ^ 32 bytes that the memory holds at its second argument, and
-- copies it with its zero, if the copy does not start inside the text; it changes no other byte.
pub strcpy-Holds :
    (dest src : ℕ) (memory : ℕ → ℕ) (cs : List ℕ)
    → length cs < word_mod
    → CopiesForward dest src (suc (length cs))
    → IsText memory src cs
    → Holds memory dest
        (dest + suc (length cs))
        (λ a. memory (src + (a - dest)))
        (strcpy dest src memory)
unfolding strcpy
strcpy-Holds dest src memory cs short forward text =
    let d : dest + 0 ≡ dest = omega arith in
    let s : src + 0 ≡ src = omega arith in
    let copied =
      strcpy_loop-Holds word_mod dest src 0 src memory cs (omega arith) short (rw (d, s) forward)
        text in
    subst
      (λ p.
        Holds memory p (p + suc (length cs)) (λ a. memory (src + (a - dest)))
          (strcpy_loop word_mod dest src 0 memory))
      d copied
