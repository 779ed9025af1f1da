-- ===== src/Text/Compare.antt =====
-- What string.c finds out about texts: their length, and whether two are the same.
use mathlib.Core.List.{cons-eq-cons}
use mathlib.Core.Path.{subst}
use echelon_sbi.Base.{
  ℕ, zero, suc, ◌+◌, ◌<◌, ◌≡◌, ◌≢◌, ◌↔◌, refl, ◌==◌, Bool-cases, inl, inr, leb, if◌then◌else◌,
  Option, some, List, [], ◌∷◌, length, word_mod, arith,
}
use echelon_sbi.Text.{IsText}
use echelon_sbi.Text.Strings.{strlen, strlen_loop, strnlen, strnlen_loop, strcmp, strcmp_loop}

strlen_loop_lem :
    (fuel str i at total : ℕ) (memory : ℕ → ℕ) (cs : List ℕ)
    → at ≡ str + i
    → total ≡ i + length cs
    → length cs < fuel
    → IsText memory at cs
    → strlen_loop fuel str i memory ≡ some total
unfolding strlen_loop IsText
strlen_loop_lem zero str i at total memory cs e t enough text = absurd (omega arith)
strlen_loop_lem (suc fuel) str i at total memory [] e t enough text =
    let here : memory (str + i) ≡ 0 = subst (λ a. memory a ≡ 0) e text in ground arith
strlen_loop_lem (suc fuel) str i at total memory (c ∷ cs) e t enough text =
    let later =
      strlen_loop_lem fuel str (suc i) (suc at) total memory cs (omega arith) (omega arith)
        (omega arith) text.2 in
    let here : memory (str + i) ≡ c = subst (λ a. memory a ≡ c) e text.0 in
    let some_byte : c ≢ 0 = text.1 in ground arith

-- strlen returns the length of a text of less than 2 ^ 32 bytes that the memory holds at its
-- argument.
pub strlen_lem :
    (memory : ℕ → ℕ) (str : ℕ) (cs : List ℕ)
    → length cs < word_mod
    → IsText memory str cs
    → strlen str memory ≡ some (length cs)
unfolding strlen
strlen_lem memory str cs short text =
    strlen_loop_lem word_mod str 0 str (length cs) memory cs (omega arith) (omega arith) short text

strnlen_loop_lem :
    (left str i at : ℕ) (memory : ℕ → ℕ) (cs : List ℕ)
    → at ≡ str + i
    → IsText memory at cs
    → strnlen_loop left str i memory ≡ i + (if leb (length cs) left then length cs else left)
unfolding strnlen_loop IsText
strnlen_loop_lem zero str i at memory cs e text = ground arith
strnlen_loop_lem (suc left) str i at memory [] e text =
    let here : memory (str + i) ≡ 0 = subst (λ a. memory a ≡ 0) e text in ground arith
strnlen_loop_lem (suc left) str i at memory (c ∷ cs) e text =
    let later = strnlen_loop_lem left str (suc i) (suc at) memory cs (omega arith) text.2 in
    let here : memory (str + i) ≡ c = subst (λ a. memory a ≡ c) e text.0 in
    let some_byte : c ≢ 0 = text.1 in ground arith

-- strnlen returns the length of the text at its argument, or its second argument if that is less.
pub strnlen_lem :
    (memory : ℕ → ℕ) (str maxlen : ℕ) (cs : List ℕ)
    → IsText memory str cs
    → strnlen str maxlen memory ≡ (if leb (length cs) maxlen then length cs else maxlen)
unfolding strnlen
strnlen_lem memory str maxlen cs text =
    let found = strnlen_loop_lem maxlen str 0 str memory cs (omega arith) text in ground arith

-- What a comparison of two texts returns: zero just if they are the same.
abbrev pub Compares : (xs ys : List ℕ) → Option ℕ → Type 0
Compares xs ys result = (r : ℕ) × (result ≡ some r) × ((r ≡ 0) ↔ (xs ≡ ys))

strcmp_loop_lem :
    (fuel s1 s2 i at1 at2 : ℕ) (memory : ℕ → ℕ) (xs ys : List ℕ)
    → at1 ≡ s1 + i
    → at2 ≡ s2 + i
    → length xs < fuel
    → IsText memory at1 xs
    → IsText memory at2 ys
    → Compares xs ys (strcmp_loop fuel s1 s2 i memory)
unfolding strcmp_loop IsText
strcmp_loop_lem zero s1 s2 i at1 at2 memory xs ys e1 e2 enough x y = absurd (omega arith)
strcmp_loop_lem (suc fuel) s1 s2 i at1 at2 memory [] [] e1 e2 enough x y =
    let here1 : memory (s1 + i) ≡ 0 = subst (λ a. memory a ≡ 0) e1 x in
    let here2 : memory (s2 + i) ≡ 0 = subst (λ a. memory a ≡ 0) e2 y in
    (0, ground arith, ((λ e. refl), λ e. refl))
strcmp_loop_lem (suc fuel) s1 s2 i at1 at2 memory [] (y ∷ ys) e1 e2 enough tx ty =
    let here1 : memory (s1 + i) ≡ 0 = subst (λ a. memory a ≡ 0) e1 tx in
    let here2 : memory (s2 + i) ≡ y = subst (λ a. memory a ≡ y) e2 ty.0 in
    let some_byte : y ≢ 0 = ty.1 in
    (1, ground arith, ((λ e. absurd (omega arith)), λ e. absurd (ground arith)))
strcmp_loop_lem (suc fuel) s1 s2 i at1 at2 memory (x ∷ xs) [] e1 e2 enough tx ty =
    let here1 : memory (s1 + i) ≡ x = subst (λ a. memory a ≡ x) e1 tx.0 in
    let here2 : memory (s2 + i) ≡ 0 = subst (λ a. memory a ≡ 0) e2 ty in
    let some_byte : x ≢ 0 = tx.1 in
    (1, ground arith, ((λ e. absurd (omega arith)), λ e. absurd (ground arith)))
strcmp_loop_lem (suc fuel) s1 s2 i at1 at2 memory (x ∷ xs) (y ∷ ys) e1 e2 enough tx ty =
    let here1 : memory (s1 + i) ≡ x = subst (λ a. memory a ≡ x) e1 tx.0 in
    let here2 : memory (s2 + i) ≡ y = subst (λ a. memory a ≡ y) e2 ty.0 in
    let some_byte : x ≢ 0 = tx.1 in
    let (r, result, same) =
      strcmp_loop_lem fuel s1 s2 (suc i) (suc at1) (suc at2) memory xs ys (omega arith)
        (omega arith) (omega arith) tx.2 ty.2 in
    elim (Bool-cases (x == y)) [
      | inl equal ↦
          let xy : x ≡ y = ground arith in
          (r, ground arith, ((λ e. cc (xy, same.0 e)), λ e. same.1 (cons-eq-cons.0 e).1))
      | inr differ ↦
          let xy : x ≢ y = λ e. ground arith in
          (1, ground arith, ((λ e. absurd (omega arith)), λ e. absurd (xy (cons-eq-cons.0 e).0)))
    ]

-- strcmp ends on two texts that the memory holds, the first of less than 2 ^ 32 bytes, and returns
-- zero exactly if they are the same text.
pub strcmp-Compares :
    (memory : ℕ → ℕ) (s1 s2 : ℕ) (xs ys : List ℕ)
    → length xs < word_mod
    → IsText memory s1 xs
    → IsText memory s2 ys
    → Compares xs ys (strcmp s1 s2 memory)
unfolding strcmp
strcmp-Compares memory s1 s2 xs ys short tx ty =
    strcmp_loop_lem word_mod s1 s2 0 s1 s2 memory xs ys (omega arith) (omega arith) short tx ty
