-- ===== src/Checksum/Injective.antt =====
-- The bitwise recursion loses nothing: it is one to one on words, and on checksums.
use debianbox.Base.{
  ℕ, zero, suc, ◌/◌, ◌%◌, ◌^◌, ◌<◌, ◌≡◌, ◌⊎◌, inl, inr, refl, sym, ap, ◌∙◌, arith, List, [], ◌∷◌,
}
use debianbox.Base.Bits.{◌^^◌, xor-zero, zero-xor, xor_self, xor_cancel, xor-lt}
use debianbox.Checksum.Polynomial.{
  polynomial, shift_bit, shift_bits, shift_byte, shift_bits-xor, shift_bits-lt,
}
use debianbox.Checksum.Slicing.{fold_byte}
use debianbox.Checksum.Laws.{IsBytes, fold_bytes, fold_byte-lt}

zero_sum : (a b : ℕ) → a ^^ b ≡ 0 → a ≡ b
zero_sum a b e = sym (xor_cancel a b) ∙ ap (λ (t : ℕ). t ^^ b) e ∙ zero-xor b

pub same_sum : (a b c : ℕ) → a ^^ c ≡ b ^^ c → a ≡ b
same_sum a b c e = sym (xor_cancel a c) ∙ ap (λ (t : ℕ). t ^^ c) e ∙ xor_cancel b c

-- The highest bit of the polynomial is set, so that a step of the recursion loses nothing.
shift_bit-zero : (y : ℕ) → y < 2 ^ 32 → shift_bit y ≡ 0 → y ≡ 0
unfolding shift_bit
shift_bit-zero y h e = elim (bit_cases (y % 2) (omega arith)) [
  | inl even ↦ omega (arith, even, xor-zero (y / 2), rw even at e)
  | inr odd ↦ absurd (omega (arith, odd, zero_sum (y / 2) polynomial (rw odd at e)))
]
  where
    bit_cases : (b : ℕ) → b < 2 → (b ≡ 0) ⊎ (b ≡ 1)
    bit_cases zero k = inl refl
    bit_cases (suc zero) k = inr refl
    bit_cases (suc (suc b)) k = absurd (omega arith)

shift_bits-zero : (n y : ℕ) → y < 2 ^ 32 → shift_bits n y ≡ 0 → y ≡ 0
unfolding shift_bits
shift_bits-zero zero y h e = e
shift_bits-zero (suc n) y h e =
    shift_bit-zero y h (shift_bits-zero n (shift_bit y) (shift_bits-lt 1 y h) e)

-- The recursion is one to one on words.
shift_bits-injective :
    (n x y : ℕ) → x < 2 ^ 32 → y < 2 ^ 32 → shift_bits n x ≡ shift_bits n y → x ≡ y
shift_bits-injective n x y hx hy e = zero_sum x y (
    shift_bits-zero n (x ^^ y) (xor-lt 32 x y hx hy)
      (shift_bits-xor n x y ∙ ap (λ (t : ℕ). t ^^ shift_bits n y) e ∙ xor_self (shift_bits n y)))

-- The same bytes keep two checksums apart.
pub fold_bytes-injective :
    (c d : ℕ) (bs : List ℕ)
    → c < 2 ^ 32
    → d < 2 ^ 32
    → IsBytes bs
    → fold_bytes c bs ≡ fold_bytes d bs
    → c ≡ d
unfolding fold_bytes
fold_bytes-injective c d [] hc hd k e = e
fold_bytes-injective c d (b ∷ bs) hc hd k e = same_sum c d b (
    shift_bits-injective 8 (c ^^ b) (d ^^ b) (xor-lt 32 c b hc (omega arith))
      (xor-lt 32 d b hd (omega arith))
      (fold_bytes-injective (fold_byte c b) (fold_byte d b) bs (fold_byte-lt c b hc k.0)
        (fold_byte-lt d b hd k.0) k.1 e))

shift_byte-injective :
    (n x y : ℕ)
    → x < 2 ^ 32
    → y < 2 ^ 32
    → shift_bits n (shift_byte x) ≡ shift_bits n (shift_byte y)
    → x ≡ y
shift_byte-injective n x y hx hy e = shift_bits-injective 8 x y hx hy (
    shift_bits-injective n (shift_byte x) (shift_byte y) (shift_bits-lt 8 x hx)
      (shift_bits-lt 8 y hy) e)

pub four-injective :
    (x y : ℕ)
    → x < 2 ^ 32
    → y < 2 ^ 32
    → shift_byte (shift_byte (shift_byte (shift_byte x)))
      ≡ shift_byte (shift_byte (shift_byte (shift_byte y)))
    → x ≡ y
four-injective x y hx hy e =
    let lt = shift_bits-lt 8 in
    let hx' = lt (shift_byte x) (lt x hx) in
    let hy' = lt (shift_byte y) (lt y hy) in
    shift_byte-injective 8 x y hx hy
      (shift_byte-injective 8 (shift_byte (shift_byte x)) (shift_byte (shift_byte y)) hx' hy' e)
