-- ===== src/Text.antt =====
-- Bytes in memory and on the console: text by its address, and drivers/uart.c. A pointer stands for
-- the address of its first byte, and goes past no end of the address space.
pub mod Strings
pub mod Slices
pub mod Copies
pub mod Compare
use Prim.Native.Char.{code}
use echelon_sbi.Base.{
  ℕ, zero, suc, ◌+◌, ◌<◌, ◌≡◌, ◌≢◌, ◌==◌, if◌then◌else◌, String, Option, none, some, List, [], ◌∷◌,
  ◌++◌,
}

-- The bytes of a text literal, without the zero at its end.
abbrev pub codes : String → List ℕ
codes String.[] = []
codes (String.◌∷◌ c s) = code c ∷ codes s

-- The `count` bytes from `first` on.
unfoldable pub slice : (bytes : ℕ → ℕ) (first count : ℕ) → List ℕ
slice bytes first zero = []
slice bytes first (suc count) = bytes first ∷ slice bytes (suc first) count

-- The memory holds a text at an address, and a zero behind it.
unfoldable pub IsText : (memory : ℕ → ℕ) (at : ℕ) → List ℕ → Type 0
IsText memory at [] = memory at ≡ 0
IsText memory at (c ∷ cs) = (memory at ≡ c) × (c ≢ 0) × IsText memory (suc at) cs

-- What the transmit register is given, in order.
unfoldable pub uart_putc : ℕ → List ℕ
uart_putc c = c ∷ (if c == b'\n' then b'\r' ∷ [] else [])

-- A text, as the terminal is sent it.
unfoldable pub send : List ℕ → List ℕ
unfolding uart_putc
send [] = []
send (c ∷ cs) = uart_putc c ++ send cs

-- The loop of uart_write, over the bytes from its pointer on.
unfoldable pub uart_write_loop : (str : ℕ → ℕ) (at count : ℕ) → List ℕ
unfolding uart_putc
uart_write_loop str at zero = []
uart_write_loop str at (suc count) = uart_putc (str at) ++ uart_write_loop str (suc at) count

-- A null pointer is `none`, any other pointer the bytes from there on.
unfoldable pub uart_write : (str : Option (ℕ → ℕ)) (count : ℕ) → List ℕ
unfolding uart_write_loop
uart_write none count = []
uart_write (some str) count = uart_write_loop str 0 count
