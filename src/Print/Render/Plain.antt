-- ===== src/Print/Render/Plain.antt =====
-- A character that stands for itself, in the buffer of printm (printm.c).
use mathlib.Core.List.{append_assoc, append-nil}
use echelon_sbi.Base.{
  ℕ, suc, ◌<◌, ◌≡◌, sym, ap, ◌∙◌, ◌==◌, Bool-cases, inl, inr, some, List, [], ◌∷◌, ◌++◌, update,
  arith,
}
use echelon_sbi.Text.{slice, send, uart_write}
use echelon_sbi.Text.Slices.{slice-update, uart_write-slice, send-append}
use echelon_sbi.Print.{Printer, no_flags, write, plain_character}

-- What was sent, and what waits in the buffer.
abbrev pub written : Printer → List ℕ
written s = s.sent ++ send (slice s.buf 0 s.j)

-- Outside a directive.
abbrev pub ready : Printer → Printer
ready s = record s { flags = no_flags }

-- A character goes behind the others, into the buffer or, with those before it, to the console.
pub plain_character_lem :
    (c : ℕ) (s : Printer)
    → s.j < 64
    → (written (plain_character c s) ≡ written s ++ send (c ∷ [])) × ((plain_character c s).j < 64)
unfolding plain_character write slice send
plain_character_lem c s room =
    let all : send (slice (update s.buf s.j c) 0 (suc s.j))
        ≡ send (slice s.buf 0 s.j) ++ send (c ∷ []) =
      ap (λ (xs : List ℕ). send xs) (slice-update s.buf s.j c)
      ∙ send-append (slice s.buf 0 s.j) (c ∷ []) in
    let behind : s.sent ++ send (slice (update s.buf s.j c) 0 (suc s.j))
        ≡ written s ++ send (c ∷ []) =
      ap (λ (xs : List ℕ). s.sent ++ xs) all
      ∙ sym (append_assoc s.sent (send (slice s.buf 0 s.j)) (send (c ∷ []))) in
    elim (Bool-cases (suc s.j == 64)) [
      | inl full ↦
          let flushed : s.sent ++ uart_write (some (update s.buf s.j c)) (suc s.j) ++ []
              ≡ written s ++ send (c ∷ []) =
            append-nil (s.sent ++ uart_write (some (update s.buf s.j c)) (suc s.j))
            ∙ ap (λ (xs : List ℕ). s.sent ++ xs) (uart_write-slice (update s.buf s.j c) (suc s.j))
            ∙ behind in
          rw full (flushed, omega arith)
      | inr space ↦ rw space (behind, ground arith)
    ]
