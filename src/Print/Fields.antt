-- ===== src/Print/Fields.antt =====
-- The fields that the conversions of printm.c write are those of the layout.
use mathlib.Core.List.{append_assoc}
use echelon_sbi.Base.{
  ℕ, ◌+◌, ◌-◌, ◌≡◌, sym, ap, ◌∙◌, if◌then◌else◌, Bool, true, false, some, List, [], ◌∷◌, ◌++◌,
  length, arith,
}
use echelon_sbi.Text.{slice}
use echelon_sbi.Print.{Flags, Printer, write}
use echelon_sbi.Print.Layout.{repeat, layout}
use echelon_sbi.Print.Convert.{
  literal, pad_loop, signed_field, unsigned_field, prefixed_field, sign_prefix,
}
use echelon_sbi.Print.Emit.{emit, emit-emit, write-emit, write-literal, pad_loop-emit}

-- The number that stands in `buf`.
module _ (s : Printer) (number_length : ℕ) (body : List ℕ) (counted : number_length ≡ length body)
    (written : slice s.buf 0 number_length ≡ body) where
  write_body :
      (bytes : List ℕ) → write (some s.buf) number_length (emit bytes s) ≡ emit (bytes ++ body) s
  write_body bytes =
      write-emit s.buf number_length (emit bytes s)
      ∙ ap (λ (xs : List ℕ). emit xs (emit bytes s)) written
      ∙ emit-emit bytes body s

  body_first : write (some s.buf) number_length s ≡ emit body s
  body_first = write-emit s.buf number_length s ∙ ap (λ (xs : List ℕ). emit xs s) written

  pad_behind :
      (bytes : List ℕ) (full missing pad : ℕ)
      → missing ≡ s.fdwidth - full
      → pad_loop s.fdwidth full pad (emit bytes s) ≡ emit (bytes ++ repeat missing pad) s
  unfolding emit
  pad_behind bytes full missing pad e =
      pad_loop-emit full pad (emit bytes s)
      ∙ emit-emit bytes (repeat (s.fdwidth - full) pad) s
      ∙ ap (λ (m : ℕ). emit (bytes ++ repeat m pad) s) (sym e)

  pad_first :
      (full missing pad : ℕ)
      → missing ≡ s.fdwidth - full
      → pad_loop s.fdwidth full pad s ≡ emit (repeat missing pad) s
  pad_first full missing pad e =
      pad_loop-emit full pad s ∙ ap (λ (m : ℕ). emit (repeat m pad) s) (sym e)

  prefix_behind :
      (bytes prefix : List ℕ)
      → write (some (literal prefix)) (length prefix) (emit bytes s) ≡ emit (bytes ++ prefix) s
  prefix_behind bytes prefix = write-literal prefix (emit bytes s) ∙ emit-emit bytes prefix s

  pub unsigned_field-layout :
      (is_left zeropad : Bool)
      → unsigned_field is_left zeropad number_length s
        ≡ emit (layout is_left zeropad s.fdwidth [] body) s
  unfolding unsigned_field layout emit
  unsigned_field-layout true zeropad =
      let e : s.fdwidth - (0 + length body) ≡ s.fdwidth - number_length = omega arith in
      rw body_first (pad_behind body number_length (s.fdwidth - (0 + length body)) b' ' e)
  unsigned_field-layout false true =
      let missing = s.fdwidth - (0 + length body) in
      let e : missing ≡ s.fdwidth - number_length = omega arith in
      rw (pad_first number_length missing b'0' e) (write_body (repeat missing b'0'))
  unsigned_field-layout false false =
      let missing = s.fdwidth - (0 + length body) in
      let e : missing ≡ s.fdwidth - number_length = omega arith in
      rw (pad_first number_length missing b' ' e) (write_body (repeat missing b' '))

  pub prefixed_field-layout :
      (is_left zeropad altform : Bool) (prefix : List ℕ)
      → prefixed_field is_left zeropad altform prefix number_length s
        ≡ emit (layout is_left zeropad s.fdwidth (if altform then prefix else []) body) s
  unfolding prefixed_field layout emit
  prefixed_field-layout true zeropad true prefix =
      let missing = s.fdwidth - (length prefix + length body) in
      let e : missing ≡ s.fdwidth - (number_length + length prefix) = omega arith in
      rw (write-literal prefix s, write_body prefix)
        (pad_behind (prefix ++ body) (number_length + length prefix) missing b' ' e)
  prefixed_field-layout true zeropad false prefix =
      let missing = s.fdwidth - (0 + length body) in
      let e : missing ≡ s.fdwidth - (number_length + 0) = omega arith in
      rw body_first (pad_behind body (number_length + 0) missing b' ' e)
  prefixed_field-layout false true true prefix =
      let missing = s.fdwidth - (length prefix + length body) in
      let e : missing ≡ s.fdwidth - (number_length + length prefix) = omega arith in
      rw (write-literal prefix s, pad_behind prefix (number_length + length prefix) missing b'0' e)
        (write_body (prefix ++ repeat missing b'0'))
  prefixed_field-layout false true false prefix =
      let missing = s.fdwidth - (0 + length body) in
      let e : missing ≡ s.fdwidth - (number_length + 0) = omega arith in
      rw (pad_first (number_length + 0) missing b'0' e) (write_body (repeat missing b'0'))
  prefixed_field-layout false false true prefix =
      let missing = s.fdwidth - (length prefix + length body) in
      let e : missing ≡ s.fdwidth - (number_length + length prefix) = omega arith in
      rw
        (
          pad_first (number_length + length prefix) missing b' ' e,
          prefix_behind (repeat missing b' ') prefix,
        )
        (write_body (repeat missing b' ' ++ prefix)
          ∙ ap (λ (xs : List ℕ). emit xs s) (append_assoc (repeat missing b' ') prefix body))
  prefixed_field-layout false false false prefix =
      let missing = s.fdwidth - (0 + length body) in
      let e : missing ≡ s.fdwidth - (number_length + 0) = omega arith in
      rw (pad_first (number_length + 0) missing b' ' e) (write_body (repeat missing b' '))

  -- A prefix of one character at most.
  signed_field_none :
      (is_left zeropad : Bool)
      → signed_field is_left zeropad [] number_length s
        ≡ emit (layout is_left zeropad s.fdwidth [] body) s
  unfolding signed_field layout emit
  signed_field_none true zeropad =
      let missing = s.fdwidth - (0 + length body) in
      let e : missing ≡ s.fdwidth - (0 + number_length) = omega arith in
      rw (write-literal [] s, write_body []) (pad_behind body (0 + number_length) missing b' ' e)
  signed_field_none false true =
      let missing = s.fdwidth - (0 + length body) in
      let e : missing ≡ s.fdwidth - (0 + number_length) = omega arith in
      rw (write-literal [] s, pad_behind [] (0 + number_length) missing b'0' e)
        (write_body (repeat missing b'0'))
  signed_field_none false false =
      let missing = s.fdwidth - (0 + length body) in
      let e : missing ≡ s.fdwidth - (0 + number_length) = omega arith in
      rw (pad_first (0 + number_length) missing b' ' e) (write_body (repeat missing b' '))

  signed_field_one :
      (is_left zeropad : Bool) (c : ℕ)
      → signed_field is_left zeropad (c ∷ []) number_length s
        ≡ emit (layout is_left zeropad s.fdwidth (c ∷ []) body) s
  unfolding signed_field layout emit
  signed_field_one true zeropad c =
      let missing = s.fdwidth - (1 + length body) in
      let e : missing ≡ s.fdwidth - (1 + number_length) = omega arith in
      rw (write-literal (c ∷ []) s, write_body (c ∷ []))
        (pad_behind (c ∷ body) (1 + number_length) missing b' ' e)
  signed_field_one false true c =
      let missing = s.fdwidth - (1 + length body) in
      let e : missing ≡ s.fdwidth - (1 + number_length) = omega arith in
      rw (write-literal (c ∷ []) s, pad_behind (c ∷ []) (1 + number_length) missing b'0' e)
        (write_body (c ∷ repeat missing b'0'))
  signed_field_one false false c =
      let missing = s.fdwidth - (1 + length body) in
      let e : missing ≡ s.fdwidth - (1 + number_length) = omega arith in
      rw
        (pad_first (1 + number_length) missing b' ' e, prefix_behind (repeat missing b' ') (c ∷ []))
        (write_body (repeat missing b' ' ++ (c ∷ []))
          ∙ ap (λ (xs : List ℕ). emit xs s) (append_assoc (repeat missing b' ') (c ∷ []) body))

  pub signed_field-layout :
      (is_left zeropad is_negative : Bool) (f : Flags)
      → signed_field is_left zeropad (sign_prefix is_negative f) number_length s
        ≡ emit (layout is_left zeropad s.fdwidth (sign_prefix is_negative f) body) s
  unfolding sign_prefix
  signed_field-layout is_left zeropad true f = signed_field_one is_left zeropad b'-'
  signed_field-layout is_left zeropad false f =
      elim f.asigned
        as (λ (asigned : Bool).
          signed_field is_left zeropad
            (if asigned then b'+' ∷ [] else if f.spacepd then b' ' ∷ [] else []) number_length s
          ≡ emit
              (layout is_left zeropad s.fdwidth
                (if asigned then b'+' ∷ [] else if f.spacepd then b' ' ∷ [] else []) body)
              s) [
                | true ↦ signed_field_one is_left zeropad b'+'
                | false ↦
                    elim f.spacepd
                      as (λ (spacepd : Bool).
                        signed_field is_left zeropad (if spacepd then b' ' ∷ [] else [])
                          number_length s
                        ≡ emit
                            (layout is_left zeropad s.fdwidth (if spacepd then b' ' ∷ [] else [])
                              body)
                            s) [
                              | true ↦ signed_field_one is_left zeropad b' '
                              | false ↦ signed_field_none is_left zeropad
                            ]
              ]
