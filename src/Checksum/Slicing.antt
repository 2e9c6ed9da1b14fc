-- ===== src/Checksum/Slicing.antt =====
-- One round of each loop of `crc32` against the bitwise recursion.
use debianbox.Base.{ℕ, ◌+◌, ◌*◌, ◌/◌, ◌%◌, ◌^◌, ◌<◌, ◌≡◌, sym, ap, ap₂, ◌∙◌, arith}
use debianbox.Base.Bits.{◌^^◌, zero-xor, xor_comm, xor_assoc, xor_fields, xor-lt}
use debianbox.Checksum.{
  multi_0, multi_1, multi_2, multi_3, byte_step, word_step, load_word, low_byte, ◌>>>◌,
}
use debianbox.Checksum.Polynomial.{
  shift_byte, shift_byte-split, shift_bits-xor, shift_bits-mul-pow, tables_lem,
}

-- The checksum of one byte on top of `crc`, bit by bit.
abbrev pub fold_byte : ℕ → ℕ → ℕ
fold_byte crc b = shift_byte (crc ^^ b)

module _ (crc b : ℕ) (small : b < 256) where
  pub low_small : low_byte crc ^^ b < 2 ^ 8
  low_small = xor-lt 8 (crc % 2 ^ 8) b (omega arith) small

  pub xor-parts : crc ^^ b ≡ crc / 2 ^ 8 * 2 ^ 8 + (low_byte crc ^^ b)
  xor-parts =
      ap (λ (t : ℕ). t ^^ b) (sym (xor_fields 8 (crc / 2 ^ 8) (crc % 2 ^ 8) (omega arith) ∙ whole))
      ∙ xor_assoc (crc / 2 ^ 8 * 2 ^ 8) (crc % 2 ^ 8) b
      ∙ xor_fields 8 (crc / 2 ^ 8) (low_byte crc ^^ b) low_small
    where
      whole : crc / 2 ^ 8 * 2 ^ 8 + crc % 2 ^ 8 ≡ crc
      whole = omega arith

  -- The byte loop's round is eight steps of the recursion.
  pub byte_step-fold_byte : byte_step crc b ≡ fold_byte crc b
  unfolding byte_step
  byte_step-fold_byte = sym (
      shift_byte-split (crc ^^ b)
      ∙ ap₂ ◌^^◌ upper (ap shift_byte lower ∙ sym (tables_lem (low_byte crc ^^ b) low_small).0))
    where
      upper : (crc ^^ b) / 2 ^ 8 ≡ crc / 2 ^ 8
      upper = omega (arith, xor-parts, low_small)

      lower : (crc ^^ b) % 2 ^ 8 ≡ low_byte crc ^^ b
      lower = omega (arith, xor-parts, low_small)

byte_small : (y : ℕ) → low_byte y < 256
byte_small y = omega arith

pub one_byte : (y : ℕ) → shift_byte y ≡ y / 2 ^ 8 ^^ multi_0 (low_byte y)
one_byte y =
    shift_byte-split y
    ∙ ap (λ (t : ℕ). y / 2 ^ 8 ^^ t) (sym (tables_lem (low_byte y) (byte_small y)).0)

two_bytes :
    (y : ℕ)
    → shift_byte (shift_byte y)
      ≡ y / 2 ^ 8 / 2 ^ 8 ^^ multi_0 (low_byte (y / 2 ^ 8)) ^^ multi_1 (low_byte y)
two_bytes y =
    ap shift_byte (one_byte y)
    ∙ shift_bits-xor 8 (y / 2 ^ 8) (multi_0 (low_byte y))
    ∙ ap₂ ◌^^◌ (one_byte (y / 2 ^ 8)) (sym (tables_lem (low_byte y) (byte_small y)).1)

three_bytes :
    (y : ℕ)
    → shift_byte (shift_byte (shift_byte y))
      ≡ y / 2 ^ 8 / 2 ^ 8 / 2 ^ 8
        ^^ multi_0 (low_byte (y / 2 ^ 8 / 2 ^ 8))
        ^^ multi_1 (low_byte (y / 2 ^ 8))
        ^^ multi_2 (low_byte y)
three_bytes y =
    ap (λ (t : ℕ). shift_byte (shift_byte t)) (one_byte y)
    ∙ ap shift_byte (shift_bits-xor 8 (y / 2 ^ 8) (multi_0 (low_byte y)))
    ∙ shift_bits-xor 8 (shift_byte (y / 2 ^ 8)) (shift_byte (multi_0 (low_byte y)))
    ∙ ap₂ ◌^^◌ (two_bytes (y / 2 ^ 8)) (
        sym (ap shift_byte (tables_lem (low_byte y) (byte_small y)).1)
        ∙ sym (tables_lem (low_byte y) (byte_small y)).2)

four_bytes :
    (y : ℕ)
    → shift_byte (shift_byte (shift_byte (shift_byte y)))
      ≡ y / 2 ^ 8 / 2 ^ 8 / 2 ^ 8 / 2 ^ 8
        ^^ multi_0 (low_byte (y / 2 ^ 8 / 2 ^ 8 / 2 ^ 8))
        ^^ multi_1 (low_byte (y / 2 ^ 8 / 2 ^ 8))
        ^^ multi_2 (low_byte (y / 2 ^ 8))
        ^^ multi_3 (low_byte y)
four_bytes y =
    ap (λ (t : ℕ). shift_byte (shift_byte (shift_byte t))) (one_byte y)
    ∙ ap (λ (t : ℕ). shift_byte (shift_byte t))
        (shift_bits-xor 8 (y / 2 ^ 8) (multi_0 (low_byte y)))
    ∙ ap shift_byte (shift_bits-xor 8 (shift_byte (y / 2 ^ 8)) (shift_byte (multi_0 (low_byte y))))
    ∙ shift_bits-xor 8 (shift_byte (shift_byte (y / 2 ^ 8)))
        (shift_byte (shift_byte (multi_0 (low_byte y))))
    ∙ ap₂ ◌^^◌ (three_bytes (y / 2 ^ 8)) (
        sym (ap (λ (t : ℕ). shift_byte (shift_byte t)) (tables_lem (low_byte y) (byte_small y)).1)
        ∙ sym (ap shift_byte (tables_lem (low_byte y) (byte_small y)).2)
        ∙ sym (tables_lem (low_byte y) (byte_small y)).3)

-- A byte below a number is absorbed by one step, which leaves the number in its place.
absorb : (crc b r : ℕ) → b < 256 → shift_byte ((b + 2 ^ 8 * r) ^^ crc) ≡ r ^^ fold_byte crc b
absorb crc b r small =
    ap shift_byte (
      ap (λ (t : ℕ). t ^^ crc) (swapped ∙ sym (xor_fields 8 r b small))
      ∙ xor_assoc (r * 2 ^ 8) b crc
      ∙ ap (λ (t : ℕ). r * 2 ^ 8 ^^ t) (xor_comm b crc))
    ∙ shift_bits-xor 8 (r * 2 ^ 8) (crc ^^ b)
    ∙ ap (λ (t : ℕ). t ^^ fold_byte crc b) (shift_bits-mul-pow 8 r)
  where
    swapped : b + 2 ^ 8 * r ≡ r * 2 ^ 8 + b
    swapped = omega arith

-- Four bytes as one word: the recursion over the word is the byte round on each of them.
pub four-fold_byte :
    (crc a b c d : ℕ)
    → a < 256
    → b < 256
    → c < 256
    → d < 256
    → shift_byte (shift_byte (shift_byte (shift_byte (load_word a b c d ^^ crc))))
      ≡ fold_byte (fold_byte (fold_byte (fold_byte crc a) b) c) d
four-fold_byte crc a b c d ha hb hc hd =
    ap (λ (t : ℕ). shift_byte (shift_byte (shift_byte t))) (absorb crc a _ ha)
    ∙ ap (λ (t : ℕ). shift_byte (shift_byte t)) (absorb (fold_byte crc a) b _ hb)
    ∙ ap shift_byte (absorb (fold_byte (fold_byte crc a) b) c d hc)
    ∙ ap shift_byte (xor_comm d (fold_byte (fold_byte (fold_byte crc a) b) c))

-- The word loop's round on four bytes is the byte round on each of them in turn.
pub word_step-fold_byte :
    (crc a b c d : ℕ)
    → crc < 2 ^ 32
    → a < 256
    → b < 256
    → c < 256
    → d < 256
    → word_step crc (load_word a b c d) ≡ fold_byte (fold_byte (fold_byte (fold_byte crc a) b) c) d
unfolding word_step
word_step-fold_byte crc a b c d hcrc ha hb hc hd = sym (
    sym (four-fold_byte crc a b c d ha hb hc hd)
    ∙ four_bytes one
    ∙ rw (top, third, second, zero-xor))
  where
    one : ℕ
    one = load_word a b c d ^^ crc

    one_small : one < 2 ^ 32
    one_small = xor-lt 32 (load_word a b c d) crc (omega arith) hcrc

    top : one / 2 ^ 8 / 2 ^ 8 / 2 ^ 8 / 2 ^ 8 ≡ 0
    top = omega (arith, one_small)

    third : one / 2 ^ 8 / 2 ^ 8 / 2 ^ 8 ≡ one >>> 24
    third = omega arith

    second : one / 2 ^ 8 / 2 ^ 8 ≡ one >>> 16
    second = omega arith
