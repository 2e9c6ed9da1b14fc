-- ===== src/Checksum/Polynomial.antt =====
-- The checksum as its defining bitwise recursion, the polynomial 0xEDB88320 reflected. Every
-- table of checksum.cpp and checksum.hpp is a table of this recursion.
use native.Mathlib.Nat.{pow-suc}
use debianbox.Base.{
  ℕ, zero, suc, ◌+◌, ◌*◌, ◌/◌, ◌%◌, ◌^◌, ◌<◌, ◌≡◌, refl, sym, ap, ap₂, ◌∙◌, arith, ◌==◌, ==_iff,
  passes, passes_sound, true,
}
use debianbox.Base.Bits.{◌^^◌, xor-zero, xor_xor_xor_comm, xor-half, xor-low, xor_fields, xor-lt}
use debianbox.Checksum.{multi_0, multi_1, multi_2, multi_3, single}

abbrev pub polynomial : ℕ
polynomial = 0xedb8_8320

abbrev feedback : ℕ → ℕ
feedback zero = 0
feedback (suc b) = polynomial

-- One bit: shift right, and feed the polynomial back if a one falls out.
unfoldable pub shift_bit : ℕ → ℕ
shift_bit y = y / 2 ^^ feedback (y % 2)

unfoldable pub shift_bits : ℕ → ℕ → ℕ
unfolding shift_bit
shift_bits zero y = y
shift_bits (suc n) y = shift_bits n (shift_bit y)

-- Eight bits.
abbrev pub shift_byte : ℕ → ℕ
shift_byte y = shift_bits 8 y

feedback-xor : (x y : ℕ) → x < 2 → y < 2 → feedback ((x + y) % 2) ≡ feedback x ^^ feedback y
feedback-xor zero zero p q = refl
feedback-xor zero (suc zero) p q = refl
feedback-xor (suc zero) zero p q = refl
feedback-xor (suc zero) (suc zero) p q = refl
feedback-xor zero (suc (suc y)) p q = absurd (omega arith)
feedback-xor (suc zero) (suc (suc y)) p q = absurd (omega arith)
feedback-xor (suc (suc x)) y p q = absurd (omega arith)

shift_bit-xor : (a b : ℕ) → shift_bit (a ^^ b) ≡ shift_bit a ^^ shift_bit b
unfolding shift_bit
shift_bit-xor a b =
    ap₂ ◌^^◌ (xor-half a b)
      (ap feedback (xor-low a b) ∙ feedback-xor (a % 2) (b % 2) (omega arith) (omega arith))
    ∙ xor_xor_xor_comm (a / 2) (b / 2) (feedback (a % 2)) (feedback (b % 2))

-- The recursion is linear.
pub shift_bits-xor : (n a b : ℕ) → shift_bits n (a ^^ b) ≡ shift_bits n a ^^ shift_bits n b
unfolding shift_bits
shift_bits-xor zero a b = refl
shift_bits-xor (suc n) a b =
    ap (shift_bits n) (shift_bit-xor a b) ∙ shift_bits-xor n (shift_bit a) (shift_bit b)

shift_bit-double : (a : ℕ) → shift_bit (a * 2) ≡ a
unfolding shift_bit
shift_bit-double a = rw (quotient, remainder) (xor-zero a)
  where
    quotient : a * 2 / 2 ≡ a
    quotient = omega arith

    remainder : a * 2 % 2 ≡ 0
    remainder = omega arith

-- It shifts zeros out unchanged.
pub shift_bits-mul-pow : (n a : ℕ) → shift_bits n (a * 2 ^ n) ≡ a
unfolding shift_bits
shift_bits-mul-pow zero a = omega arith
shift_bits-mul-pow (suc n) a =
    ap (λ (t : ℕ). shift_bits n (shift_bit t)) twice
    ∙ ap (shift_bits n) (shift_bit-double (a * 2 ^ n))
    ∙ shift_bits-mul-pow n a
  where
    twice : a * 2 ^ suc n ≡ a * 2 ^ n * 2
    twice = omega (arith, ap (λ (t : ℕ). a * t) (pow-suc 2 n))

-- So eight steps act on the low byte alone, and shift the rest down.
pub shift_byte-split : (y : ℕ) → shift_byte y ≡ y / 2 ^ 8 ^^ shift_byte (y % 2 ^ 8)
shift_byte-split y =
    ap shift_byte (sym (xor_fields 8 (y / 2 ^ 8) (y % 2 ^ 8) (omega arith) ∙ whole))
    ∙ shift_bits-xor 8 (y / 2 ^ 8 * 2 ^ 8) (y % 2 ^ 8)
    ∙ ap (λ (t : ℕ). t ^^ shift_byte (y % 2 ^ 8)) (shift_bits-mul-pow 8 (y / 2 ^ 8))
  where
    whole : y / 2 ^ 8 * 2 ^ 8 + y % 2 ^ 8 ≡ y
    whole = omega arith

feedback-lt : (b : ℕ) → feedback b < 2 ^ 32
feedback-lt zero = omega arith
feedback-lt (suc b) = omega arith

pub shift_bits-lt : (n y : ℕ) → y < 2 ^ 32 → shift_bits n y < 2 ^ 32
unfolding shift_bits shift_bit
shift_bits-lt zero y h = h
shift_bits-lt (suc n) y h =
    shift_bits-lt n (y / 2 ^^ feedback (y % 2))
      (xor-lt 32 (y / 2) (feedback (y % 2)) (omega arith) (feedback-lt (y % 2)))

-- The tables, checked at all 256 indices.
table_0 : passes (λ i. multi_0 i == shift_byte i) 256 ≡ true
unfolding passes multi_0 shift_bits
table_0 = refl

table_1 : passes (λ i. multi_1 i == shift_byte (multi_0 i)) 256 ≡ true
unfolding passes multi_0 multi_1 shift_bits
table_1 = refl

table_2 : passes (λ i. multi_2 i == shift_byte (multi_1 i)) 256 ≡ true
unfolding passes multi_1 multi_2 shift_bits
table_2 = refl

table_3 : passes (λ i. multi_3 i == shift_byte (multi_2 i)) 256 ≡ true
unfolding passes multi_2 multi_3 shift_bits
table_3 = refl

table_single : passes (λ i. single i == multi_0 i) 256 ≡ true
unfolding passes multi_0 single
table_single = refl

-- The row `k` of the tables is the recursion run over `k + 1` bytes, and the table of the
-- compile-time checksum is the first row, at every byte.
pub tables_lem :
    (i : ℕ)
    → i < 256
    → (multi_0 i ≡ shift_byte i)
      × (multi_1 i ≡ shift_byte (multi_0 i))
      × (multi_2 i ≡ shift_byte (multi_1 i))
      × (multi_3 i ≡ shift_byte (multi_2 i))
      × (single i ≡ multi_0 i)
tables_lem i h = (
  (==_iff _ _).0 (passes_sound _ 256 i h table_0),
  (==_iff _ _).0 (passes_sound _ 256 i h table_1),
  (==_iff _ _).0 (passes_sound _ 256 i h table_2),
  (==_iff _ _).0 (passes_sound _ 256 i h table_3),
  (==_iff _ _).0 (passes_sound _ 256 i h table_single),
)
