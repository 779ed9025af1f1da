-- ===== src/DeviceTree.antt =====
-- dataparse/dtb_parse.c on rv32, which is little-endian: a flattened device tree in memory, and the walk
-- over its structure block. The walk runs on fuel, and gives `none` if it runs out; where the two names
-- lie that it looks for is a parameter. The loop over the reserved ranges only counts them in a
-- variable that nothing reads, and is left out.
pub mod Bytes
pub mod Align
pub mod Tokens
pub mod Walk
use echelon_sbi.Base.{
  ℕ, zero, suc, ◌+◌, ◌-◌, ◌*◌, ◌/◌, ◌^◌, ◌==◌, ltb, not, ◌&&◌, true, false, if◌then◌else◌, Option,
  none, some, ◌>>=◌, Bool, u32, word_mod, sub_word, bit_and, bit_or, bit_not, ◌<<<◌, ◌>>>◌,
}
use echelon_sbi.Text.Strings.{strcmp, strlen}

-- The loop of the exchange: `i` is below `bitwidth`, 32, for two rounds.
unfoldable pub swap_loop : (rounds val i j k retval : ℕ) → ℕ
swap_loop zero val i j k retval = retval
swap_loop (suc rounds) val i j k retval =
    let right = bit_or retval (bit_and (val >>> i) (0xFF <<< k)) in
    let both = bit_or right (bit_and (val <<< i) (0xFF <<< j)) in
    swap_loop rounds val (i + 16) (j + 8) (sub_word k 8) both

unfoldable pub dtb_parse_swap_endianess_32 : ℕ → ℕ
unfolding swap_loop
dtb_parse_swap_endianess_32 val = swap_loop 2 val 8 16 8 0

-- A `uint32_t` in memory.
unfoldable pub word_at : (memory : ℕ → ℕ) (at : ℕ) → ℕ
word_at memory at =
    memory at + memory (at + 1) * 2 ^ 8 + memory (at + 2) * 2 ^ 16 + memory (at + 3) * 2 ^ 24

-- `ptr` is not null if the words are to be exchanged.
unfoldable pub fixed_word_at : (memory : ℕ → ℕ) (swapped : Bool) (at : ℕ) → ℕ
fixed_word_at memory swapped at =
    if swapped then dtb_parse_swap_endianess_32 (word_at memory at) else word_at memory at

abbrev pub fdt_begin_node : ℕ
fdt_begin_node = 1

abbrev pub fdt_end_node : ℕ
fdt_end_node = 2

abbrev pub fdt_prop : ℕ
fdt_prop = 3

abbrev pub fdt_nop : ℕ
fdt_nop = 4

abbrev pub fdt_end : ℕ
fdt_end = 9

-- The next address that is a multiple of four bytes behind `dt_struct`; `addr` is a `uintRL_t`.
unfoldable pub align : (dt_struct addr : ℕ) → ℕ
align dt_struct addr =
    let offset = sub_word addr dt_struct in
    let aligned =
      if not (bit_and offset 3 == 0) then u32 (bit_and offset (bit_not 3) + 4) else offset in
    u32 (aligned + dt_struct)

-- `for (uint32_t j = 0; j < len; j++) { value <<= 8; value |= byte_ptr[j]; }`
unfoldable pub value_loop : (left at value : ℕ) (memory : ℕ → ℕ) → ℕ
value_loop zero at value memory = value
value_loop (suc left) at value memory =
    value_loop left (suc at) (bit_or (value <<< 8) (memory at)) memory

-- What dtb_parse knows of the tree, and what it looks for.
pub record Tree : Type 0 where
  pub swapped : Bool
  pub dt_struct : ℕ
  pub dt_strings : ℕ
  pub size_dt_struct : ℕ
  pub start_name : ℕ
  pub end_name : ℕ

pub record Initrd : Type 0 where
  pub linux_initrd_start : ℕ
  pub linux_initrd_end : ℕ

-- A property, whose value starts at `value`.
unfoldable pub take_property : Tree → (name value len : ℕ) (memory : ℕ → ℕ) → Initrd → Option Initrd
take_property tree name value len memory found = strcmp name tree.start_name memory >>= λ not_start.
    if not_start == 0
    then some
        (record found { linux_initrd_start = value_loop len value found.linux_initrd_start memory })
    else (strcmp name tree.end_name memory >>= λ not_end.
        if not_end == 0
        then some
            (record found { linux_initrd_end = value_loop len value found.linux_initrd_end memory })
        else some found)

-- The loop over the structure block; `i` is the address of a token.
unfoldable pub walk_loop :
    (fuel : ℕ) → Tree → (i tree_depth : ℕ) (memory : ℕ → ℕ) → Initrd → Option Initrd
walk_loop zero tree i tree_depth memory found = none
walk_loop (suc fuel) tree i tree_depth memory found =
    let token = fixed_word_at memory tree.swapped i in
    let len = fixed_word_at memory tree.swapped (i + 4) in
    let nameoff = fixed_word_at memory tree.swapped (i + 8) in
    let go_on = λ (next : ℕ) (depth : ℕ) (f : Initrd). walk_loop fuel tree next depth memory f in
    if ltb i tree.dt_strings && ltb i (tree.dt_struct + tree.size_dt_struct)
    then (if token == fdt_end
        then some found
        else if token == fdt_end_node
        then go_on (i + 4) (if ltb 0 tree_depth then tree_depth - 1 else tree_depth) found
        else if token == fdt_begin_node
        then (strlen (i + 4) memory >>= λ length.
            go_on (align tree.dt_struct (u32 (i + 4 + (length + 1)))) (u32 (tree_depth + 1)) found)
        else if token == fdt_nop
        then go_on (i + 4) tree_depth found
        else if token == fdt_prop
        then (take_property tree (tree.dt_strings + nameoff) (i + 12) len memory found >>= λ f.
            go_on (align tree.dt_struct (u32 (i + 12 + len))) tree_depth f)
        else go_on (i + 4) tree_depth found)
    else some found

-- The magic number says in which order the bytes are; with another one, dtb_parse does nothing. Else it
-- stores both addresses, zero if there is no such property.
pub data Parsed : Type 0 where
  untouched : Parsed
  stored : Initrd → Parsed

unfoldable pub tree_at :
    (memory : ℕ → ℕ) (swapped : Bool) (dtb_location start_name end_name : ℕ) → Tree
tree_at memory swapped dtb_location start_name end_name = record {
  swapped = swapped;
  dt_struct = dtb_location + fixed_word_at memory swapped (dtb_location + 8);
  dt_strings = dtb_location + fixed_word_at memory swapped (dtb_location + 12);
  size_dt_struct = fixed_word_at memory swapped (dtb_location + 36);
  start_name = start_name;
  end_name = end_name;
}

-- A token has four bytes at least.
unfoldable pub dtb_parse : (dtb_location start_name end_name : ℕ) (memory : ℕ → ℕ) → Option Parsed
dtb_parse dtb_location start_name end_name memory =
    let magic = word_at memory dtb_location in
    let walk = λ (swapped : Bool).
      let tree = tree_at memory swapped dtb_location start_name end_name in
      walk_loop (suc tree.size_dt_struct) tree tree.dt_struct 0 memory
        (record { linux_initrd_start = 0; linux_initrd_end = 0 })
      >>= λ found. some (stored found) in
    if magic == 0xD00DFEED
    then walk false
    else if magic == 0xEDFE0DD0
    then walk true
    else some untouched
