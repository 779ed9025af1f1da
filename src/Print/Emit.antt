-- ===== src/Print/Emit.antt =====
-- What printm sends, as one text: calls of `_printm` one after the other, and its loop for padding.
use mathlib.Core.List.{append_assoc, append-nil}
use echelon_sbi.Base.{
  ℕ, zero, suc, ◌-◌, ◌≤◌, ◌≡◌, refl, sym, ap, ◌∙◌, ltb, ◌==◌, true, false, some, List, [], ◌∷◌,
  ◌++◌, length, arith,
}
use echelon_sbi.Text.{slice, send}
use echelon_sbi.Text.Slices.{uart_write-slice, send-append}
use echelon_sbi.Print.{Printer, write}
use echelon_sbi.Print.Layout.{repeat}
use echelon_sbi.Print.Convert.{literal, pad_loop}

-- A text goes to the console.
unfoldable pub emit : List ℕ → Printer → Printer
emit bytes s = record s { sent = s.sent ++ send bytes }

pub emit-emit : (xs ys : List ℕ) (s : Printer) → emit ys (emit xs s) ≡ emit (xs ++ ys) s
unfolding emit
emit-emit xs ys s =
    let e : s.sent ++ send xs ++ send ys ≡ s.sent ++ send (xs ++ ys) =
      append_assoc s.sent (send xs) (send ys) ∙ rw (send-append xs ys) refl in
    ap (λ (out : List ℕ). record s { sent = out }) e

pub emit-nil : (s : Printer) → emit [] s ≡ s
unfolding emit send
emit-nil s = ap (λ (out : List ℕ). record s { sent = out }) (append-nil s.sent)

pub write-emit :
    (f : ℕ → ℕ) (count : ℕ) (s : Printer) → write (some f) count s ≡ emit (slice f 0 count) s
unfolding write emit
write-emit f count s =
    ap (λ (out : List ℕ). record s { sent = s.sent ++ out }) (uart_write-slice f count)

slice-literal_from :
    (xs : List ℕ) (f : ℕ → ℕ) (p : ℕ)
    → ((a : ℕ) → p ≤ a → f a ≡ literal xs (a - p))
    → slice f p (length xs) ≡ xs
unfolding slice
slice-literal_from [] f p same = refl
slice-literal_from (x ∷ xs) f p same =
    let at : p - p ≡ 0 = omega arith in
    let first : f p ≡ x = same p (omega arith) ∙ rw at refl in
    let others : slice f (suc p) (length xs) ≡ xs = slice-literal_from xs f (suc p) λ a low.
      let behind : ((a - p) == 0) ≡ false = ground arith in
      let e : a - p - 1 ≡ a - suc p = omega arith in
      same a (omega arith) ∙ rw behind (ap (λ (i : ℕ). literal xs i) e) in
    rw (first, others) refl

pub write-literal :
    (xs : List ℕ) (s : Printer) → write (some (literal xs)) (length xs) s ≡ emit xs s
write-literal xs s =
    write-emit (literal xs) (length xs) s
    ∙ ap (λ (bytes : List ℕ). emit bytes s)
        (slice-literal_from xs (literal xs) 0
          λ a low. let e : a ≡ a - 0 = omega arith in ap (λ (i : ℕ). literal xs i) e)

pad_loop-emit_within :
    (fuel full pad missing : ℕ) (s : Printer)
    → missing ≡ s.fdwidth - full
    → missing ≤ fuel
    → pad_loop fuel full pad s ≡ emit (repeat missing pad) s
unfolding pad_loop repeat emit
pad_loop-emit_within zero full pad zero s e enough = sym (emit-nil s)
pad_loop-emit_within zero full pad (suc missing) s e enough = absurd (omega arith)
pad_loop-emit_within (suc fuel) full pad zero s e enough =
    let wide : ltb full s.fdwidth ≡ false = ground arith in rw wide (sym (emit-nil s))
pad_loop-emit_within (suc fuel) full pad (suc missing) s e enough =
    let narrow : ltb full s.fdwidth ≡ true = ground arith in
    let one : write (some (literal (pad ∷ []))) 1 s ≡ emit (pad ∷ []) s =
      write-literal (pad ∷ []) s in
    rw (narrow, one)
      (pad_loop-emit_within fuel (suc full) pad missing (emit (pad ∷ []) s) (omega arith)
          (omega arith)
        ∙ emit-emit (pad ∷ []) (repeat missing pad) s)

-- The loop pads to the field width.
pub pad_loop-emit :
    (full pad : ℕ) (s : Printer)
    → pad_loop s.fdwidth full pad s ≡ emit (repeat (s.fdwidth - full) pad) s
pad_loop-emit full pad s =
    pad_loop-emit_within s.fdwidth full pad (s.fdwidth - full) s refl (omega arith)
