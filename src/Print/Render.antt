-- ===== src/Print/Render.antt =====
-- printm as a whole: its buffer for plain text, and a format of many parts.
mod Plain
use mathlib.Core.Path.{subst}
use mathlib.Core.List.{append_assoc, append-nil}
use echelon_sbi.Base.{
  ℕ, suc, ◌%◌, ◌^◌, ◌<◌, ◌≡◌, ◌≢◌, refl, sym, ap, ◌∙◌, false, ◌==◌, ltb, if◌then◌else◌, Bool-cases,
  inl, inr, Option, some, ◌>>=◌, List, [], ◌∷◌, ◌++◌, word_mod, arith,
}
use echelon_sbi.Text.{slice, send, uart_write}
use echelon_sbi.Text.Slices.{uart_write-slice, send-append}
use echelon_sbi.Print.{Printer, no_flags, write, plain_character}
use echelon_sbi.Print.Convert.{conversion, format_loop, format_character, printm}
use echelon_sbi.Print.Prefix.{
  IsLetter, directive_read, kind_letter-IsLetter, character-IsLetter, string-IsLetter,
  percent-IsLetter,
}
use echelon_sbi.Print.Conversion.{Wrote, reached, number-Wrote}
use echelon_sbi.Print.Characters.{character-Wrote, string-Wrote, percent-Wrote}
use echelon_sbi.Print.Directive.{
  Options, kind_letter, number_text, first, Part, plain, number, character, string, percent,
  directive_text, format_text, arguments_of, rendered, IsPlain, IsFormat,
}
use echelon_sbi.Print.Render.Plain.{written, ready, plain_character_lem}

-- A run over a format, with what it has written at the end.
abbrev Writes : (memory : ℕ → ℕ) (format : List ℕ) (s : Printer) (bytes : List ℕ) → Type 0
Writes memory format s bytes =
    (t : Printer) × (format_loop memory format s ≡ some t) × (written t ≡ bytes)

module _ (memory : ℕ → ℕ) where
  plain_read :
      (c : ℕ) (cs : List ℕ) (s : Printer)
      → c ≢ 0
      → c ≢ b'%'
      → format_loop memory (c ∷ cs) (ready s) ≡ format_loop memory cs (plain_character c (ready s))
  unfolding format_loop format_character
  plain_read c cs s not_end not_percent =
      let more : (c == 0) ≡ false = ground arith in
      let itself : (c == b'%') ≡ false = ground arith in rw (more, itself) refl

  plain_character-ready :
      (c : ℕ) (s : Printer) → plain_character c (ready s) ≡ ready (plain_character c s)
  unfolding plain_character write
  plain_character-ready c s = elim (Bool-cases (suc s.j == 64)) [
    | inl full ↦ rw full refl
    | inr space ↦ rw space refl
  ]

  plain_character-ap : (c : ℕ) (s : Printer) → (plain_character c s).ap ≡ s.ap
  unfolding plain_character write
  plain_character-ap c s = elim (Bool-cases (suc s.j == 64)) [
    | inl full ↦ rw full refl
    | inr space ↦ rw space refl
  ]

  -- Plain text goes through the buffer.
  plain-Writes :
      (cs rest : List ℕ) (s : Printer) (bytes : List ℕ)
      → IsPlain cs
      → s.j < 64
      → ((t : Printer)
          → t.j < 64
          → t.ap ≡ s.ap
          → written t ≡ written s ++ send cs
          → Writes memory rest (ready t) bytes)
      → Writes memory (cs ++ rest) (ready s) bytes
  unfolding send
  plain-Writes [] rest s bytes ok room later = later s room refl (sym (append-nil (written s)))
  plain-Writes (c ∷ cs) rest s bytes (not_end, not_percent, ok) room later =
      let (sent, room') = plain_character_lem c s room in
      let (t, run, result) =
        plain-Writes cs rest (plain_character c s) bytes ok room' λ t small same e.
          later t small (same ∙ plain_character-ap c s) (
            e
            ∙ ap (λ (xs : List ℕ). xs ++ send cs) sent
            ∙ append_assoc (written s) (send (c ∷ [])) (send cs)
            ∙ ap (λ (xs : List ℕ). written s ++ xs) (sym (send-append (c ∷ []) cs))) in
      (
        t,
        plain_read c (cs ++ rest) s not_end not_percent
            ∙ ap (λ (u : Printer). format_loop memory (cs ++ rest) u) (plain_character-ready c s)
            ∙ run,
        result,
      )

  -- The state in which a directive starts, and the arguments that it leaves.
  abbrev opened : (s : Printer) (args : List ℕ) → Printer
  opened s args = record (write (some s.buf) s.j s) { j = 0; ap = args }

  directive-Writes :
      (o : Options) (letter : ℕ) (rest : List ℕ) (s : Printer) (given args text bytes : List ℕ)
      → o.width < word_mod
      → IsLetter memory letter
      → s.ap ≡ given
      → Wrote
          (reached o (opened s args))
          text
          (conversion memory letter (record (reached o (opened s args)) { ap = given }))
      → ((t : Printer)
          → t.j < 64
          → t.ap ≡ args
          → written t ≡ written s ++ send text
          → Writes memory rest (ready t) bytes)
      → Writes memory (directive_text o letter rest) (ready s) bytes
  unfolding write slice send
  directive-Writes o letter rest s given args text bytes fits is_letter e wrote later =
      let (buf, converted) =
        subst
          (λ xs.
            Wrote (reached o (opened s args)) text
              (conversion memory letter (record (reached o (opened s args)) { ap = xs })))
          (sym e) wrote in
      let u = record (reached o (opened s args)) {
        buf = buf;
        j = 0;
        flags = no_flags;
        sent = (opened s args).sent ++ send text;
      } in
      let flushed : written u ≡ written s ++ send text =
        append-nil (s.sent ++ uart_write (some s.buf) s.j ++ send text)
        ∙ ap (λ (xs : List ℕ). s.sent ++ xs ++ send text) (uart_write-slice s.buf s.j) in
      let (t, run, result) = later u (omega arith) refl flushed in
      (
        t,
        directive_read memory o letter s rest fits is_letter
            ∙ ap (λ (r : Option Printer). r >>= λ v. format_loop memory rest v) converted
            ∙ run,
        result,
      )

  text_behind :
      (before text later after : List ℕ)
      → after ≡ before ++ send text
      → after ++ send later ≡ before ++ send (text ++ later)
  text_behind before text later after e =
      ap (λ (xs : List ℕ). xs ++ send later) e
      ∙ append_assoc before (send text) (send later)
      ∙ ap (λ (xs : List ℕ). before ++ xs) (sym (send-append text later))

  -- A format of parts, from any state outside a directive.
  abbrev Plays : List Part → Type 0
  Plays ps =
      (s : Printer)
      → s.j < 64
      → s.ap ≡ arguments_of ps
      → Writes memory (format_text ps) (ready s) (written s ++ send (rendered ps))

  play_later :
      (ps : List Part) (s : Printer) (text bytes : List ℕ)
      → Plays ps
      → bytes ≡ text ++ rendered ps
      → (t : Printer) → t.j < 64
      → t.ap ≡ arguments_of ps
      → written t ≡ written s ++ send text
      → Writes memory (format_text ps) (ready t) (written s ++ send bytes)
  play_later ps s text bytes plays whole t small args e =
      let (u, run, result) = plays t small args in
      (
        u,
        run,
        result
            ∙ text_behind (written s) text (rendered ps) (written t) e
            ∙ ap (λ (xs : List ℕ). written s ++ send xs) (sym whole),
      )

  nil-Writes : (s : Printer) → Writes memory [] (ready s) (written s ++ send [])
  unfolding format_loop send
  nil-Writes s = (ready s, refl, sym (append-nil (written s)))

  format_text-Plays : (ps : List Part) → IsFormat memory ps → Plays ps
  unfolding format_text arguments_of rendered IsFormat
  format_text-Plays [] ok s small args = nil-Writes s
  format_text-Plays (plain cs ∷ ps) ok s small args =
      plain-Writes cs (format_text ps) s (written s ++ send (cs ++ rendered ps)) ok.0 small
        λ t less same e.
          play_later ps s cs (cs ++ rendered ps) (format_text-Plays ps ok.1) refl t less
            (same ∙ args) e
  format_text-Plays (number o kind arg ∷ ps) ok s small args =
      let text = number_text o kind arg in
      directive-Writes o (kind_letter kind) (format_text ps) s (arg ∷ arguments_of ps)
        (arguments_of ps) text (written s ++ send (text ++ rendered ps)) ok.0
        (kind_letter-IsLetter memory kind) args
        (number-Wrote o (opened s (arguments_of ps)) memory kind arg)
        (play_later ps s text (text ++ rendered ps) (format_text-Plays ps ok.1) refl)
  format_text-Plays (character o arg ∷ ps) ok s small args =
      let text = arg % 2 ^ 8 ∷ [] in
      directive-Writes o b'c' (format_text ps) s (arg ∷ arguments_of ps) (arguments_of ps) text
        (written s ++ send (text ++ rendered ps)) ok.0 (character-IsLetter memory) args
        (character-Wrote memory o (opened s (arguments_of ps)) arg)
        (play_later ps s text (text ++ rendered ps) (format_text-Plays ps ok.1) refl)
  format_text-Plays (string o address cs ∷ ps) (width, some_address, fits, short, there, ok) s small
        args =
      let text = if o.width == 0 then cs else first o.width cs in
      directive-Writes o b's' (format_text ps) s (address ∷ arguments_of ps) (arguments_of ps) text
        (written s ++ send (text ++ rendered ps)) width (string-IsLetter memory) args
        (string-Wrote memory o (opened s (arguments_of ps)) address cs some_address fits short
          there)
        (play_later ps s text (text ++ rendered ps) (format_text-Plays ps ok) refl)
  format_text-Plays (percent o ∷ ps) ok s small args =
      let text = b'%' ∷ [] in
      directive-Writes o b'%' (format_text ps) s (arguments_of ps) (arguments_of ps) text
        (written s ++ send (text ++ rendered ps)) ok.0 (percent-IsLetter memory) args
        (percent-Wrote memory o (opened s (arguments_of ps)))
        (play_later ps s text (text ++ rendered ps) (format_text-Plays ps ok.1) refl)

-- What is in the buffer at the end is sent, if there is anything.
flush : (t : Printer) → (if ltb 0 t.j then (write (some t.buf) t.j t).sent else t.sent) ≡ written t
unfolding write slice send
flush t = elim (Bool-cases (ltb 0 t.j)) [
  | inl some_left ↦ rw some_left (ap (λ (xs : List ℕ). t.sent ++ xs) (uart_write-slice t.buf t.j))
  | inr none_left ↦
      let empty : t.j ≡ 0 = ground arith in
      rw none_left
        (sym (append-nil t.sent) ∙ ap (λ (n : ℕ). t.sent ++ send (slice t.buf 0 n)) (sym empty))
]

-- printm, called with the characters and the arguments of a format whose texts have no `%`, whose
-- widths an `unsigned int` holds, and whose strings are in memory, ends, and sends the text that the
-- format stands for, with a carriage return behind each line feed. What its buffer held before does
-- not matter.
pub printm-Renders :
    (memory stack : ℕ → ℕ) (ps : List Part)
    → IsFormat memory ps
    → printm memory stack (format_text ps) (arguments_of ps) ≡ some (send (rendered ps))
unfolding printm slice send
printm-Renders memory stack ps ok =
    let start : Printer = record {
      buf = stack;
      j = 0;
      flags = no_flags;
      fdwidth = 0;
      ap = arguments_of ps;
      sent = [];
    } in
    let (t, run, result) = format_text-Plays memory ps ok start (omega arith) refl in
    rw run (ap (λ (xs : List ℕ). some xs) (flush t ∙ result))
