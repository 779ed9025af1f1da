-- ===== src/DeviceTree/Walk.antt =====
-- dtb_parse reads from a device tree what its tokens say.
use echelon_sbi.Base.{
  ℕ, zero, suc, ◌+◌, ◌-◌, ◌≤◌, ◌<◌, ◌≡◌, ◌≢◌, ◌⊎◌, inl, inr, ◌↔◌, refl, ◌∙◌, Bool, true, false,
  ◌==◌, ltb, ◌&&◌, if◌then◌else◌, Bool-cases, ==-false, some, List, [], ◌∷◌, length, u32, word_mod,
  arith,
}
use echelon_sbi.Text.{IsText}
use echelon_sbi.Text.Compare.{strcmp-Compares, strlen_lem}
use echelon_sbi.DeviceTree.{
  Tree, Initrd, fdt_begin_node, fdt_end_node, fdt_prop, fdt_nop, fdt_end, take_property, walk_loop,
  word_at, tree_at, stored, dtb_parse,
}
use echelon_sbi.DeviceTree.Bytes.{IsWord, fixed_word_at-IsWord}
use echelon_sbi.DeviceTree.Align.{align_lem, IsBytes, value_loop-big_endian}
use echelon_sbi.DeviceTree.Tokens.{
  Token, begin_node, end_node, property, nop, unknown, IsToken, end_of, next_of, limit, IsStruct,
  start_text, end_text, same_text, same_text_iff, token_initrd, tokens_initrd,
}

-- A comparison with a text, as a test.
compared : (xs ys : List ℕ) (r : ℕ) → ((r ≡ 0) ↔ (xs ≡ ys)) → (r == 0) ≡ same_text xs ys
compared xs ys r same = elim (Bool-cases (same_text xs ys)) [
  | inl equal ↦ let z : r ≡ 0 = same.1 ((same_text_iff xs ys).0 equal) in ground arith
  | inr differ ↦
      let nz : r ≢ 0 = λ z. let equal = (same_text_iff xs ys).1 (same.0 z) in ground arith in
      ground arith
]

some_if :
    (b c : Bool) (x y z : Initrd)
    → (if b then some x else if c then some y else some z)
      ≡ some (if b then x else if c then y else z)
some_if true c x y z = refl
some_if false true x y z = refl
some_if false false x y z = refl

module _ (memory : ℕ → ℕ) (tree : Tree) (start_there : IsText memory tree.start_name start_text)
    (end_there : IsText memory tree.end_name end_text) where
  take_property_lem :
      (nameoff value_at : ℕ) (name value : List ℕ) (found : Initrd)
      → IsText memory (tree.dt_strings + nameoff) name
      → length name < word_mod
      → IsBytes memory value_at value
      → take_property tree (tree.dt_strings + nameoff) value_at (length value) memory found
        ≡ some (token_initrd (property nameoff name value) found)
  unfolding take_property token_initrd
  take_property_lem nameoff value_at name value found named short bytes =
      let (r, first, is_start) =
        strcmp-Compares memory (tree.dt_strings + nameoff) tree.start_name name start_text short
          named start_there in
      let (q, second, is_end) =
        strcmp-Compares memory (tree.dt_strings + nameoff) tree.end_name name end_text short named
          end_there in
      let value_start =
        value_loop-big_endian value value_at found.linux_initrd_start memory bytes in
      let value_end = value_loop-big_endian value value_at found.linux_initrd_end memory bytes in
      rw
        (
          first,
          second,
          compared name start_text r is_start,
          compared name end_text q is_end,
          value_start,
          value_end,
        )
        (some_if (same_text name start_text) (same_text name end_text) _ _ found)

  inside_test :
      (at : ℕ)
      → at < tree.dt_strings
      → at < limit tree
      → (ltb at tree.dt_strings && ltb at (limit tree)) ≡ true
  inside_test at strings struct = ground arith

  -- One round of the loop.
  Steps : (fuel at : ℕ) (t : Token) (depth : ℕ) (found : Initrd) → Type 0
  Steps fuel at t depth found =
      (depth' : ℕ) × (walk_loop (suc fuel) tree at depth memory found
        ≡ walk_loop fuel tree (next_of tree at t) depth' memory (token_initrd t found))

  walk_loop-Steps :
      (fuel at : ℕ) (t : Token) (depth : ℕ) (found : Initrd)
      → tree.dt_struct ≤ at
      → at < tree.dt_strings
      → at < limit tree
      → IsToken memory tree at t
      → end_of at t < word_mod
      → next_of tree at t < word_mod
      → Steps fuel at t depth found
  unfolding Steps walk_loop next_of token_initrd IsToken
  walk_loop-Steps fuel at (begin_node name) depth found above strings struct (word, text, short)
        fits next_fits =
      let aligned =
        align_lem tree.dt_struct (at + 4 + (length name + 1)) (omega arith) fits next_fits in
      (
        u32 (depth + 1),
        rw
            (
              inside_test at strings struct,
              fixed_word_at-IsWord memory tree.swapped at fdt_begin_node word,
              strlen_lem memory (at + 4) name short text,
              aligned,
            )
            refl,
      )
  walk_loop-Steps fuel at end_node depth found above strings struct word fits next_fits = (
    if ltb 0 depth then depth - 1 else depth,
    rw
        (
          inside_test at strings struct,
          fixed_word_at-IsWord memory tree.swapped at fdt_end_node word,
        )
        refl,
  )
  walk_loop-Steps fuel at (property nameoff name value) depth found above strings struct
        (word, len_word, off_word, text, short, bytes) fits next_fits =
      let aligned =
        align_lem tree.dt_struct (at + 12 + length value) (omega arith) fits next_fits in
      (
        depth,
        rw
            (
              inside_test at strings struct,
              fixed_word_at-IsWord memory tree.swapped at fdt_prop word,
              fixed_word_at-IsWord memory tree.swapped (at + 4) (length value) len_word,
              fixed_word_at-IsWord memory tree.swapped (at + 8) nameoff off_word,
              take_property_lem nameoff (at + 12) name value found text short bytes,
              aligned,
            )
            refl,
      )
  walk_loop-Steps fuel at nop depth found above strings struct word fits next_fits = (
    depth,
    rw (inside_test at strings struct, fixed_word_at-IsWord memory tree.swapped at fdt_nop word)
        refl,
  )
  walk_loop-Steps fuel at (unknown w) depth found above strings struct
        (word, not_begin, not_end_node, not_prop, not_nop, not_end) fits next_fits =
      (
        depth,
        rw
            (
              inside_test at strings struct,
              fixed_word_at-IsWord memory tree.swapped at w word,
              ==-false w fdt_end not_end,
              ==-false w fdt_end_node not_end_node,
              ==-false w fdt_begin_node not_begin,
              ==-false w fdt_nop not_nop,
              ==-false w fdt_prop not_prop,
            )
            refl,
      )

  next_of-ge : (at : ℕ) (t : Token) → tree.dt_struct ≤ at → at + 4 ≤ next_of tree at t
  unfolding next_of
  next_of-ge at (begin_node name) above = omega arith
  next_of-ge at end_node above = omega arith
  next_of-ge at (property nameoff name value) above = omega arith
  next_of-ge at nop above = omega arith
  next_of-ge at (unknown w) above = omega arith

  -- Nothing is left.
  walk_loop_ends :
      (fuel at depth : ℕ) (found : Initrd)
      → (limit tree ≤ at) ⊎ (tree.dt_strings ≤ at) ⊎ IsWord memory tree.swapped at fdt_end
      → walk_loop (suc fuel) tree at depth memory found ≡ some found
  unfolding walk_loop
  walk_loop_ends fuel at depth found (inl past) =
      let outside : (ltb at tree.dt_strings && ltb at (limit tree)) ≡ false = ground arith in
      rw outside refl
  walk_loop_ends fuel at depth found (inr (inl past)) =
      let outside : (ltb at tree.dt_strings && ltb at (limit tree)) ≡ false = ground arith in
      rw outside refl
  walk_loop_ends fuel at depth found (inr (inr word)) =
      elim (Bool-cases (ltb at tree.dt_strings && ltb at (limit tree))) [
        | inl inside ↦ rw (inside, fixed_word_at-IsWord memory tree.swapped at fdt_end word) refl
        | inr outside ↦ rw outside refl
      ]

  walk_loop-Reads :
      (ts : List Token) (fuel at depth : ℕ) (found : Initrd)
      → 0 < fuel
      → limit tree < at + fuel
      → tree.dt_struct ≤ at
      → IsStruct memory tree at ts
      → walk_loop fuel tree at depth memory found ≡ some (tokens_initrd ts found)
  unfolding IsStruct tokens_initrd Steps
  walk_loop-Reads ts zero at depth found more enough above there = absurd (omega arith)
  walk_loop-Reads [] (suc fuel) at depth found more enough above there =
      walk_loop_ends fuel at depth found there
  walk_loop-Reads (t ∷ ts) (suc fuel) at depth found more enough above
        (strings, struct, token, fits, next_fits, there) =
      let later = next_of-ge at t above in
      let (depth', step) =
        walk_loop-Steps fuel at t depth found above strings struct token fits next_fits in
      step
      ∙ walk_loop-Reads ts fuel (next_of tree at t) depth' (token_initrd t found) (omega arith)
          (omega arith) (omega arith) there

-- The magic number of a tree in either order of its bytes.
abbrev pub magic : Bool → ℕ
magic swapped = if swapped then 0xEDFE0DD0 else 0xD00DFEED

-- For a device tree in memory, in either order of its bytes, dtb_parse ends, and gives the addresses
-- that its properties `linux,initrd-start` and `linux,initrd-end` hold, and zero for one that it does
-- not have.
pub dtb_parse-Reads :
    (memory : ℕ → ℕ) (swapped : Bool) (dtb_location start_name end_name : ℕ)
    → IsText memory start_name start_text
    → IsText memory end_name end_text
    → word_at memory dtb_location ≡ magic swapped
    → (ts : List Token)
    → IsStruct memory
        (tree_at memory swapped dtb_location start_name end_name)
        (tree_at memory swapped dtb_location start_name end_name).dt_struct
        ts
    → dtb_parse dtb_location start_name end_name memory
      ≡ some (stored (tokens_initrd ts (record { linux_initrd_start = 0; linux_initrd_end = 0 })))
unfolding dtb_parse tree_at
dtb_parse-Reads memory false dtb_location start_name end_name start_there end_there is_tree ts
      there =
    let tree = tree_at memory false dtb_location start_name end_name in
    let native : (word_at memory dtb_location == 0xD00DFEED) ≡ true = ground arith in
    rw
      (
        native,
        walk_loop-Reads memory tree start_there end_there ts (suc tree.size_dt_struct)
            tree.dt_struct 0 (record { linux_initrd_start = 0; linux_initrd_end = 0 }) (omega arith)
            (omega arith) (omega arith) there,
      )
      refl
dtb_parse-Reads memory true dtb_location start_name end_name start_there end_there is_tree ts
      there =
    let tree = tree_at memory true dtb_location start_name end_name in
    let not_native : (word_at memory dtb_location == 0xD00DFEED) ≡ false = ground arith in
    let exchanged : (word_at memory dtb_location == 0xEDFE0DD0) ≡ true = ground arith in
    rw
      (
        not_native,
        exchanged,
        walk_loop-Reads memory tree start_there end_there ts (suc tree.size_dt_struct)
            tree.dt_struct 0 (record { linux_initrd_start = 0; linux_initrd_end = 0 }) (omega arith)
            (omega arith) (omega arith) there,
      )
      refl
