-- ===== src/Text/Strings.antt =====
-- string.c, over a memory of bytes. The loops without a bound of their own run on fuel, and give
-- `none` if it runs out.
use echelon_sbi.Base.{
  ℕ, zero, suc, ◌+◌, ◌==◌, ltb, not, if◌then◌else◌, Option, none, some, update, u8, word_mod,
  bit_and,
}

-- `ptr` runs from `s` to `s + n`.
unfoldable pub memset_loop : (fuel ptr end_addr value : ℕ) (memory : ℕ → ℕ) → Option (ℕ → ℕ)
memset_loop zero ptr end_addr value memory = none
memset_loop (suc fuel) ptr end_addr value memory =
    let rest = memset_loop fuel (suc ptr) end_addr value (update memory ptr value) in
    if ltb ptr end_addr then rest else some memory

unfoldable pub memset : (s c n : ℕ) (memory : ℕ → ℕ) → Option (ℕ → ℕ)
unfolding memset_loop
memset s c n memory = memset_loop (suc n) s (s + n) (u8 (bit_and c 255)) memory

unfoldable pub memcpy_loop : (fuel ptr_dest ptr_src dest_end : ℕ) (memory : ℕ → ℕ) → Option (ℕ → ℕ)
memcpy_loop zero ptr_dest ptr_src dest_end memory = none
memcpy_loop (suc fuel) ptr_dest ptr_src dest_end memory =
    let rest =
      memcpy_loop fuel (suc ptr_dest) (suc ptr_src) dest_end
        (update memory ptr_dest (memory ptr_src)) in
    if not (ptr_dest == dest_end) then rest else some memory

unfoldable pub memcpy : (dest src n : ℕ) (memory : ℕ → ℕ) → Option (ℕ → ℕ)
unfolding memcpy_loop
memcpy dest src n memory = memcpy_loop (suc n) dest src (dest + n) memory

unfoldable pub strlen_loop : (fuel str i : ℕ) (memory : ℕ → ℕ) → Option ℕ
strlen_loop zero str i memory = none
strlen_loop (suc fuel) str i memory =
    let rest = strlen_loop fuel str (suc i) memory in
    if not (memory (str + i) == 0) then rest else some i

-- No text is longer than the address space.
unfoldable pub strlen : (str : ℕ) (memory : ℕ → ℕ) → Option ℕ
unfolding strlen_loop
strlen str memory = strlen_loop word_mod str 0 memory

-- The loop of strnlen has `maxlen - i` rounds left.
unfoldable pub strnlen_loop : (left str i : ℕ) (memory : ℕ → ℕ) → ℕ
strnlen_loop zero str i memory = i
strnlen_loop (suc left) str i memory =
    let rest = strnlen_loop left str (suc i) memory in if memory (str + i) == 0 then i else rest

unfoldable pub strnlen : (str maxlen : ℕ) (memory : ℕ → ℕ) → ℕ
unfolding strnlen_loop
strnlen str maxlen memory = strnlen_loop maxlen str 0 memory

unfoldable pub strcpy_loop : (fuel dest src i : ℕ) (memory : ℕ → ℕ) → Option (ℕ → ℕ)
strcpy_loop zero dest src i memory = none
strcpy_loop (suc fuel) dest src i memory =
    let rest = strcpy_loop fuel dest src (suc i) (update memory (dest + i) (memory (src + i))) in
    if not (memory (src + i) == 0) then rest else some (update memory (dest + i) (memory (src + i)))

unfoldable pub strcpy : (dest src : ℕ) (memory : ℕ → ℕ) → Option (ℕ → ℕ)
unfolding strcpy_loop
strcpy dest src memory = strcpy_loop word_mod dest src 0 memory

unfoldable pub strcmp_loop : (fuel s1 s2 i : ℕ) (memory : ℕ → ℕ) → Option ℕ
strcmp_loop zero s1 s2 i memory = none
strcmp_loop (suc fuel) s1 s2 i memory =
    let rest = strcmp_loop fuel s1 s2 (suc i) memory in
    if memory (s1 + i) == memory (s2 + i)
    then (if memory (s1 + i) == 0 then some 0 else rest)
    else some 1

unfoldable pub strcmp : (s1 s2 : ℕ) (memory : ℕ → ℕ) → Option ℕ
unfolding strcmp_loop
strcmp s1 s2 memory = strcmp_loop word_mod s1 s2 0 memory

-- The loop of strncmp has `n - i` rounds left.
unfoldable pub strncmp_loop : (left s1 s2 i : ℕ) (memory : ℕ → ℕ) → ℕ
strncmp_loop zero s1 s2 i memory = 0
strncmp_loop (suc left) s1 s2 i memory =
    let rest = strncmp_loop left s1 s2 (suc i) memory in
    if memory (s1 + i) == memory (s2 + i) then (if memory (s1 + i) == 0 then 0 else rest) else 1

unfoldable pub strncmp : (s1 s2 n : ℕ) (memory : ℕ → ℕ) → ℕ
unfolding strncmp_loop
strncmp s1 s2 n memory = strncmp_loop n s1 s2 0 memory
