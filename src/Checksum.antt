-- ===== src/Checksum.antt =====
-- libhdk/checksum.cpp and libhdk/checksum.hpp: CRC-32 by slicing on four tables, and the same
-- checksum at compile time on one. `get_type_id` is of libhdk/marshall/marshall_type_info.hpp.
-- Words are native numbers below 2 ^ 32; memory is a list of bytes; the byte order is the
-- little-endian one (the other branch of the `#if` names variables that do not exist).
mod Tables
mod TableSingle
pub mod Polynomial
pub mod Slicing
pub mod Laws
pub mod Injective
pub mod Loops
pub mod Detection
pub mod Static
pub mod TypeId
mod Tests
use debianbox.Base.{
  ℕ, zero, suc, ◌+◌, ◌-◌, ◌*◌, ◌/◌, ◌%◌, ◌^◌, List, [], ◌∷◌, Option, none, some, get_or, length,
  leb, ◌==◌, if◌then◌else◌, take,
}
use debianbox.Base.Bits.{◌^^◌}
use Tables.{crc32_table_multi_0, crc32_table_multi_1, crc32_table_multi_2, crc32_table_multi_3}
use TableSingle.{crc32_table_single}

-- `x >> k`.
infixl 70 ◌>>>◌
abbrev pub ◌>>>◌ : ℕ → ℕ → ℕ
x >>> k = x / 2 ^ k

-- `x & 0xFF`.
abbrev pub low_byte : ℕ → ℕ
low_byte x = x % 2 ^ 8

-- `~x` of a `uint32_t`.
abbrev pub complement : ℕ → ℕ
complement x = 0xffff_ffff - x

-- The four tables: `crc32_table_multi[k][i]`.
unfoldable pub multi_0 : ℕ → ℕ
unfolding crc32_table_multi_0
multi_0 i = get_or crc32_table_multi_0 i 0

unfoldable pub multi_1 : ℕ → ℕ
unfolding crc32_table_multi_1
multi_1 i = get_or crc32_table_multi_1 i 0

unfoldable pub multi_2 : ℕ → ℕ
unfolding crc32_table_multi_2
multi_2 i = get_or crc32_table_multi_2 i 0

unfoldable pub multi_3 : ℕ → ℕ
unfolding crc32_table_multi_3
multi_3 i = get_or crc32_table_multi_3 i 0

unfoldable pub single : ℕ → ℕ
unfolding crc32_table_single
single i = get_or crc32_table_single i 0

-- `*(const uint32_t*)p` where the four bytes at `p` are given.
abbrev pub load_word : ℕ → ℕ → ℕ → ℕ → ℕ
load_word a b c d = a + 2 ^ 8 * (b + 2 ^ 8 * (c + 2 ^ 8 * d))

-- The body of the first loop.
pub word_step : ℕ → ℕ → ℕ
word_step crc word =
    let one = word ^^ crc in
    multi_0 (low_byte (one >>> 24))
    ^^ multi_1 (low_byte (one >>> 16))
    ^^ multi_2 (low_byte (one >>> 8))
    ^^ multi_3 (low_byte one)

-- The body of the second.
pub byte_step : ℕ → ℕ → ℕ
byte_step crc b = (crc >>> 8) ^^ multi_0 (low_byte crc ^^ b)

pub record Cursor : Type 0 where
  pub current : List ℕ
  pub left : ℕ
  pub crc : ℕ

-- `while (length >= 4)`; `none` is a read past the end of the buffer.
pub words : List ℕ → ℕ → ℕ → Option Cursor
unfolding word_step
words (a ∷ b ∷ c ∷ d ∷ rest) left crc =
    let next = words rest (left - 4) (word_step crc (load_word a b c d)) in
    if leb 4 left
    then next
    else some (record { current = a ∷ b ∷ c ∷ d ∷ rest; left = left; crc = crc })
words current left crc =
    if leb 4 left then none else some (record { current = current; left = left; crc = crc })

-- `while (length-- != 0)`.
pub bytes : List ℕ → ℕ → ℕ → Option ℕ
unfolding byte_step
bytes current zero crc = some crc
bytes [] (suc left) crc = none
bytes (b ∷ rest) (suc left) crc = bytes rest left (byte_step crc b)

finish : Option ℕ → Option ℕ
finish none = none
finish (some crc) = some (complement crc)

remaining : Option Cursor → Option ℕ
unfolding bytes
remaining none = none
remaining (some c) = bytes c.current c.left c.crc

-- `crc32(data, length, previous_crc32)`.
unfoldable pub crc32 : List ℕ → ℕ → ℕ → Option ℕ
unfolding words finish remaining
crc32 memory len previous = finish (remaining (words memory len (complement previous)))

-- `crc32_static`: `s` is the array, its terminating null included, so that the recursion
-- `i == N - 1` stops at the last element.
unfoldable pub crc32_static : List ℕ → ℕ → ℕ
crc32_static [] h = h ^^ 0xffff_ffff
crc32_static (c ∷ []) h = h ^^ 0xffff_ffff
crc32_static (c ∷ d ∷ s) h = crc32_static (d ∷ s) ((h >>> 8) ^^ single (low_byte (h ^^ c)))

-- `get_type_id(type_name, prev_crc32)`, `strlen` included.
unfoldable pub strlen : List ℕ → ℕ
strlen [] = 0
strlen (c ∷ s) = if c == 0 then 0 else suc (strlen s)

unfoldable pub get_type_id : List ℕ → ℕ → Option ℕ
unfolding crc32 strlen
get_type_id type_name previous = crc32 type_name (strlen type_name) previous
