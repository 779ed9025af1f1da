-- ===== src/Text/Slices.antt =====
-- Lemmas on the bytes of a range, and on what drivers/uart.c sends of them.
use mathlib.Core.List.{append_assoc}
use echelon_sbi.Base.{
  ℕ, zero, suc, ◌+◌, ◌≤◌, ◌<◌, ◌≡◌, refl, sym, ap, ◌∙◌, some, List, [], ◌∷◌, ◌++◌, length, update,
  arith,
}
use echelon_sbi.Text.{slice, IsText, uart_putc, send, uart_write, uart_write_loop}

-- The same bytes at two places.
pub slice-same :
    (f g : ℕ → ℕ) (p q n : ℕ)
    → ((a b : ℕ) → p ≤ a → a < p + n → a + q ≡ b + p → f a ≡ g b)
    → slice f p n ≡ slice g q n
unfolding slice
slice-same f g p q zero same = refl
slice-same f g p q (suc n) same =
    let first : f p ≡ g q = same p q (omega arith) (omega arith) (omega arith) in
    let others : slice f (suc p) n ≡ slice g (suc q) n =
      slice-same f g (suc p) (suc q) n
        λ a b low high e. same a b (omega arith) (omega arith) (omega arith) in
    rw (first, others) refl

pub slice-last : (f : ℕ → ℕ) (p n : ℕ) → slice f p (suc n) ≡ slice f p n ++ (f (p + n) ∷ [])
unfolding slice
slice-last f p zero = let e : p ≡ p + 0 = omega arith in ap (λ (q : ℕ). f q ∷ []) e
slice-last f p (suc n) =
    let e : suc p + n ≡ p + suc n = omega arith in
    ap (λ (xs : List ℕ). f p ∷ xs)
      (slice-last f (suc p) n ∙ ap (λ (q : ℕ). slice f (suc p) n ++ (f q ∷ [])) e)

-- A byte is written behind a range.
pub slice-update : (f : ℕ → ℕ) (n c : ℕ) → slice (update f n c) 0 (suc n) ≡ slice f 0 n ++ (c ∷ [])
slice-update f n c =
    let before : slice (update f n c) 0 n ≡ slice f 0 n =
      slice-same (update f n c) f 0 0 n λ a b low high e. ground arith in
    let last : update f n c (0 + n) ≡ c = ground arith in
    slice-last (update f n c) 0 n ∙ rw (before, last) refl

pub send-append : (xs ys : List ℕ) → send (xs ++ ys) ≡ send xs ++ send ys
unfolding send
send-append [] ys = refl
send-append (x ∷ xs) ys = cc (send-append xs ys, append_assoc (uart_putc x) (send xs) (send ys))

uart_write_loop-slice :
    (str : ℕ → ℕ) (at count : ℕ) → uart_write_loop str at count ≡ send (slice str at count)
unfolding uart_write_loop send slice
uart_write_loop-slice str at zero = refl
uart_write_loop-slice str at (suc count) =
    ap (λ (ys : List ℕ). uart_putc (str at) ++ ys) (uart_write_loop-slice str (suc at) count)

pub uart_write-slice :
    (str : ℕ → ℕ) (count : ℕ) → uart_write (some str) count ≡ send (slice str 0 count)
unfolding uart_write
uart_write-slice str count = uart_write_loop-slice str 0 count

-- The bytes of a text, and the zero behind them.
pub slice-IsText :
    (memory : ℕ → ℕ) (at : ℕ) (cs : List ℕ) → IsText memory at cs → slice memory at (length cs) ≡ cs
unfolding slice IsText
slice-IsText memory at [] text = refl
slice-IsText memory at (c ∷ cs) text = rw (text.0, slice-IsText memory (suc at) cs text.2) refl

pub IsText-same :
    (f g : ℕ → ℕ) (p q : ℕ) (cs : List ℕ)
    → ((a b : ℕ) → p ≤ a → a ≤ p + length cs → a + q ≡ b + p → f a ≡ g b)
    → IsText f p cs
    → IsText g q cs
unfolding IsText
IsText-same f g p q [] same text = sym (same p q (omega arith) (omega arith) (omega arith)) ∙ text
IsText-same f g p q (c ∷ cs) same text = (
  sym (same p q (omega arith) (omega arith) (omega arith)) ∙ text.0,
  text.1,
  IsText-same f g (suc p) (suc q) cs
      (λ a b low high e. same a b (omega arith) (omega arith) (omega arith)) text.2,
)
