-- ===== src/DeviceTree/Tokens.antt =====
-- A device tree as a list of tokens, and what dtb_parse should find in it.
use mathlib.Core.List.{cons-eq-cons}
use echelon_sbi.Base.{
  ℕ, ◌+◌, ◌-◌, ◌≤◌, ◌<◌, ◌≡◌, ◌≢◌, ◌⊎◌, ◌↔◌, refl, Bool, true, false, ◌==◌, ◌&&◌, if◌then◌else◌,
  List, [], ◌∷◌, length, word_mod, ==_iff, arith,
}
use echelon_sbi.Text.{IsText, codes}
use echelon_sbi.DeviceTree.{Tree, Initrd, fdt_begin_node, fdt_end_node, fdt_prop, fdt_nop, fdt_end}
use echelon_sbi.DeviceTree.Bytes.{IsWord}
use echelon_sbi.DeviceTree.Align.{up_to_four, IsBytes, big_endian}

pub data Token : Type 0 where
  begin_node : (name : List ℕ) → Token
  end_node : Token
  property : (nameoff : ℕ) (name value : List ℕ) → Token
  nop : Token
  unknown : ℕ → Token

-- The memory holds a token.
unfoldable pub IsToken : (memory : ℕ → ℕ) → Tree → (at : ℕ) → Token → Type 0
IsToken memory tree at (begin_node name) =
    IsWord memory tree.swapped at fdt_begin_node
    × IsText memory (at + 4) name
    × (length name < word_mod)
IsToken memory tree at end_node = IsWord memory tree.swapped at fdt_end_node
IsToken memory tree at (property nameoff name value) =
    IsWord memory tree.swapped at fdt_prop
    × IsWord memory tree.swapped (at + 4) (length value)
    × IsWord memory tree.swapped (at + 8) nameoff
    × IsText memory (tree.dt_strings + nameoff) name
    × (length name < word_mod)
    × IsBytes memory (at + 12) value
IsToken memory tree at nop = IsWord memory tree.swapped at fdt_nop
IsToken memory tree at (unknown word) =
    IsWord memory tree.swapped at word
    × (word ≢ fdt_begin_node)
    × (word ≢ fdt_end_node)
    × (word ≢ fdt_prop)
    × (word ≢ fdt_nop)
    × (word ≢ fdt_end)

-- Where a token's own bytes end, and where the next token is.
abbrev pub end_of : (at : ℕ) → Token → ℕ
end_of at (begin_node name) = at + 4 + (length name + 1)
end_of at (property nameoff name value) = at + 12 + length value
end_of at t = at + 4

unfoldable pub next_of : Tree → (at : ℕ) → Token → ℕ
next_of tree at (begin_node name) =
    tree.dt_struct + up_to_four (end_of at (begin_node name) - tree.dt_struct)
next_of tree at (property nameoff name value) =
    tree.dt_struct + up_to_four (end_of at (property nameoff name value) - tree.dt_struct)
next_of tree at t = at + 4

abbrev pub limit : Tree → ℕ
limit tree = tree.dt_struct + tree.size_dt_struct

-- The memory holds tokens from an address on, up to the end of the block or its last token.
unfoldable pub IsStruct : (memory : ℕ → ℕ) → Tree → (at : ℕ) → List Token → Type 0
unfolding IsToken next_of
IsStruct memory tree at [] =
    (limit tree ≤ at) ⊎ (tree.dt_strings ≤ at) ⊎ IsWord memory tree.swapped at fdt_end
IsStruct memory tree at (t ∷ ts) =
    (at < tree.dt_strings)
    × (at < limit tree)
    × IsToken memory tree at t
    × (end_of at t < word_mod)
    × (next_of tree at t < word_mod)
    × IsStruct memory tree (next_of tree at t) ts

abbrev pub start_text : List ℕ
start_text = codes "linux,initrd-start"

abbrev pub end_text : List ℕ
end_text = codes "linux,initrd-end"

abbrev pub same_text : (xs ys : List ℕ) → Bool
same_text [] [] = true
same_text (x ∷ xs) (y ∷ ys) = (x == y) && same_text xs ys
same_text xs ys = false

-- The addresses that the properties of a tree give. What several properties of one name say is strung
-- together, as in the code.
unfoldable pub token_initrd : Token → Initrd → Initrd
token_initrd (property nameoff name value) found =
    if same_text name start_text
    then record found { linux_initrd_start = big_endian found.linux_initrd_start value }
    else if same_text name end_text
    then record found { linux_initrd_end = big_endian found.linux_initrd_end value }
    else found
token_initrd t found = found

unfoldable pub tokens_initrd : List Token → Initrd → Initrd
tokens_initrd [] found = found
tokens_initrd (t ∷ ts) found = tokens_initrd ts (token_initrd t found)

-- A test on texts.
pub same_text_iff : (xs ys : List ℕ) → (same_text xs ys ≡ true) ↔ (xs ≡ ys)
same_text_iff [] [] = ((λ e. refl), λ e. refl)
same_text_iff [] (y ∷ ys) = ((λ e. absurd (ground arith)), λ e. absurd (ground arith))
same_text_iff (x ∷ xs) [] = ((λ e. absurd (ground arith)), λ e. absurd (ground arith))
same_text_iff (x ∷ xs) (y ∷ ys) =
    let rest = same_text_iff xs ys in
    let head = ==_iff x y in
    (
      (λ e. cons-eq-cons.1 (head.0 (ground arith), rest.0 (ground arith))),
      λ e.
          let (hx, hxs) = cons-eq-cons.0 e in
          let a = head.1 hx in let b = rest.1 hxs in ground arith,
    )
