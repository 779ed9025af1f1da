-- ===== src/Base/Word.antt =====
-- Machine words of rv32 as native numbers: the casts, and the operations of C on them.
use Prim.Native.Nat.{ℕ, ◌+◌, ◌-◌, ◌*◌, ◌/◌, ◌%◌, ◌^◌}
use echelon_sbi.Base.Tests.{ltb, if◌then◌else◌}

abbrev pub u8 : ℕ → ℕ
u8 n = n % 2 ^ 8

abbrev pub u16 : ℕ → ℕ
u16 n = n % 2 ^ 16

abbrev pub u32 : ℕ → ℕ
u32 n = n % 2 ^ 32

-- `uintRL_t`, `size_t`, `unsigned long` and pointers on rv32.
abbrev pub word_mod : ℕ
word_mod = 2 ^ 32

-- The bit pattern of `-n`.
abbrev pub minus : ℕ → ℕ
minus n = 2 ^ 32 - n

-- `~n`
abbrev pub bit_not : ℕ → ℕ
bit_not n = 2 ^ 32 - 1 - n

abbrev pub sub_word : ℕ → ℕ → ℕ
sub_word a b = u32 (a + 2 ^ 32 - b)

infixl 75 ◌<<<◌ ◌>>>◌
abbrev pub ◌<<<◌ : ℕ → ℕ → ℕ
x <<< k = u32 (x * 2 ^ k)

abbrev pub ◌>>>◌ : ℕ → ℕ → ℕ
x >>> k = x / 2 ^ k

-- `>>` of an `int32_t`: the vacated bits copy the sign.
abbrev pub shift_right_signed : ℕ → ℕ → ℕ
shift_right_signed x k = if ltb x (2 ^ 31) then x / 2 ^ k else x / 2 ^ k + (2 ^ 32 - 2 ^ (32 - k))
