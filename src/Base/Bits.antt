-- ===== src/Base/Bits.antt =====
-- The laws of `^` on unsigned words of every width, from the recursion on binary digits.
use Prim.Native.Nat.{ℕ, zero, suc, ◌+◌, ◌-◌, ◌*◌, ◌/◌, ◌%◌, ◌^◌, ◌≤◌, ◌<◌, bit_xor}
use Prim.Native.Nat.{bit_xor-bitwise, digits, differ}
use mathlib.Core.Path.{◌≡◌, refl, sym, ◌∙◌, ap}
use native.Mathlib.Decide.{dec_le}
use native.Mathlib.Nat.{pow-suc, mul_comm, one-le-pow}
use native.Mathlib.Omega.{arith}

infixl 60 ◌^^◌
abbrev pub ◌^^◌ : ℕ → ℕ → ℕ
a ^^ b = bit_xor a b

-- The recursion on digits that `bit_xor` stands for, with its count of rounds.
abbrev run : ℕ → ℕ → ℕ → ℕ
run rounds = digits (λ y. y) differ rounds

extra_round : (n x y : ℕ) → x ≤ n → run (suc n) x y ≡ run n x y
extra_round zero zero y h = refl
extra_round zero (suc x) y h = absurd (omega arith)
extra_round (suc n) zero y h = refl
extra_round (suc n) (suc x) y h = omega (arith, extra_round n (suc x / 2) (y / 2) (omega arith))

spare_rounds : (n m x y : ℕ) → x ≤ m → m ≤ n → run n x y ≡ run m x y
spare_rounds zero m x y h k = let same : zero ≡ m = omega arith in ap (λ (t : ℕ). run t x y) same
spare_rounds (suc n) m x y h k = elim (dec_le m n) [
  | yes below ↦ extra_round n x y (omega arith) ∙ spare_rounds n m x y h below
  | no above ↦ let same : suc n ≡ m = omega arith in ap (λ (t : ℕ). run t x y) same
]

pub zero-xor : (b : ℕ) → 0 ^^ b ≡ b
zero-xor b = bit_xor-bitwise 0 b

differ-digits : (x y : ℕ) → x < 2 → y < 2 → differ x y ≡ (x + y) % 2
differ-digits zero zero p q = refl
differ-digits zero (suc zero) p q = refl
differ-digits (suc zero) zero p q = refl
differ-digits (suc zero) (suc zero) p q = refl
differ-digits zero (suc (suc y)) p q = absurd (omega arith)
differ-digits (suc zero) (suc (suc y)) p q = absurd (omega arith)
differ-digits (suc (suc x)) y p q = absurd (omega arith)

xor_step : (a b : ℕ) → a ^^ b ≡ (a / 2 ^^ b / 2) * 2 + (a % 2 + b % 2) % 2
xor_step zero b = omega (arith, zero-xor b, zero-xor (b / 2))
xor_step (suc a) b = omega (
  arith,
  bit_xor-bitwise (suc a) b,
  bit_xor-bitwise (suc a / 2) (b / 2),
  spare_rounds a (suc a / 2) (suc a / 2) (b / 2) (omega arith) (omega arith),
  differ-digits (suc a % 2) (b % 2) (omega arith) (omega arith),
)

pub xor-half : (a b : ℕ) → (a ^^ b) / 2 ≡ a / 2 ^^ b / 2
xor-half a b = omega (arith, xor_step a b)

pub xor-low : (a b : ℕ) → (a ^^ b) % 2 ≡ (a % 2 + b % 2) % 2
xor-low a b = omega (arith, xor_step a b)

xor_comm_fuel : (n a b : ℕ) → a + b ≤ n → a ^^ b ≡ b ^^ a
xor_comm_fuel zero a b h = rw (zero_of a (omega arith), zero_of b (omega arith))
  where
    zero_of : (x : ℕ) → x ≤ 0 → x ≡ 0
    zero_of x p = omega arith
xor_comm_fuel (suc n) zero zero h = refl
xor_comm_fuel (suc n) a b h =
    omega (arith, xor_step a b, xor_step b a, xor_comm_fuel n (a / 2) (b / 2) (omega arith))

pub xor_comm : (a b : ℕ) → a ^^ b ≡ b ^^ a
xor_comm a b = xor_comm_fuel (a + b) a b (omega arith)

pub xor-zero : (a : ℕ) → a ^^ 0 ≡ a
xor-zero a = xor_comm a 0 ∙ zero-xor a

xor_self_fuel : (n a : ℕ) → a ≤ n → a ^^ a ≡ 0
xor_self_fuel n zero h = refl
xor_self_fuel zero (suc a) h = absurd (omega arith)
xor_self_fuel (suc n) (suc a) h =
    omega (arith, xor_step (suc a) (suc a), xor_self_fuel n (suc a / 2) (omega arith))

pub xor_self : (a : ℕ) → a ^^ a ≡ 0
xor_self a = xor_self_fuel a a (omega arith)

xor_assoc_fuel : (n a b c : ℕ) → a ≤ n → (a ^^ b) ^^ c ≡ a ^^ (b ^^ c)
xor_assoc_fuel n zero b c h = rw (zero-xor b, zero-xor (b ^^ c))
xor_assoc_fuel zero (suc a) b c h = absurd (omega arith)
xor_assoc_fuel (suc n) (suc a) b c h = omega (
  arith,
  xor_step (suc a ^^ b) c,
  xor_step (suc a) (b ^^ c),
  xor-low (suc a) b,
  xor-low b c,
  ap (λ (t : ℕ). t ^^ c / 2) (xor-half (suc a) b),
  ap (λ (t : ℕ). suc a / 2 ^^ t) (xor-half b c),
  xor_assoc_fuel n (suc a / 2) (b / 2) (c / 2) (omega arith),
)

pub xor_assoc : (a b c : ℕ) → (a ^^ b) ^^ c ≡ a ^^ (b ^^ c)
xor_assoc a b c = xor_assoc_fuel a a b c (omega arith)

pub xor_left_comm : (a b c : ℕ) → a ^^ (b ^^ c) ≡ b ^^ (a ^^ c)
xor_left_comm a b c =
    sym (xor_assoc a b c) ∙ ap (λ (t : ℕ). t ^^ c) (xor_comm a b) ∙ xor_assoc b a c

pub xor_cancel : (a b : ℕ) → (a ^^ b) ^^ b ≡ a
xor_cancel a b = xor_assoc a b b ∙ ap (λ (t : ℕ). a ^^ t) (xor_self b) ∙ xor-zero a

-- `(a + b) ^ (c + d)` pairs up, the middle two exchanged.
pub xor_xor_xor_comm : (a b c d : ℕ) → (a ^^ b) ^^ (c ^^ d) ≡ (a ^^ c) ^^ (b ^^ d)
xor_xor_xor_comm a b c d =
    xor_assoc a b (c ^^ d)
    ∙ ap (λ (t : ℕ). a ^^ t) (xor_left_comm b c d)
    ∙ sym (xor_assoc a c (b ^^ d))

two-pow-suc : (k : ℕ) → 2 ^ suc k ≡ 2 * 2 ^ k
two-pow-suc k = pow-suc 2 k ∙ mul_comm (2 ^ k) 2

-- Exclusive or of words stays within the width.
pub xor-lt : (k a b : ℕ) → a < 2 ^ k → b < 2 ^ k → a ^^ b < 2 ^ k
xor-lt zero a b p q = omega (arith, xor_step a b, both a b (omega arith) (omega arith))
  where
    both : (x y : ℕ) → x ≡ 0 → y ≡ 0 → x ^^ y ≡ 0
    both x y e g = rw (e, g)
xor-lt (suc k) a b p q = omega (
  arith,
  two-pow-suc k,
  xor_step a b,
  xor-lt k (a / 2) (b / 2) (omega (arith, two-pow-suc k)) (omega (arith, two-pow-suc k)),
)

doubled : (hi w : ℕ) → hi * 2 ^ suc w ≡ 2 * (hi * 2 ^ w)
doubled hi w = omega (arith, ap (λ (t : ℕ). hi * t) (two-pow-suc w))

-- Disjoint fields add up.
pub xor_fields : (w hi lo : ℕ) → lo < 2 ^ w → hi * 2 ^ w ^^ lo ≡ hi * 2 ^ w + lo
xor_fields zero hi lo below = ground (arith, xor-zero hi)
xor_fields (suc w) hi lo below =
    let half : lo / 2 < 2 ^ w = omega (arith, two-pow-suc w) in
    ground (arith, xor_fields w hi (lo / 2) half, xor_step (hi * 2 ^ suc w) lo, doubled hi w)

-- Exclusive or with all ones is the complement.
pub xor_ones : (k x : ℕ) → x < 2 ^ k → x ^^ (2 ^ k - 1) ≡ 2 ^ k - 1 - x
xor_ones zero x h = omega (arith, xor_step x 0, zero-xor 0, at_zero x (omega arith))
  where
    at_zero : (x : ℕ) → x ≡ 0 → x ^^ 0 ≡ 0
    at_zero x e = rw e
xor_ones (suc k) x h = omega (
  arith,
  two-pow-suc k,
  one-le-pow k 2,
  xor_step x (2 ^ suc k - 1),
  ap (λ (t : ℕ). x / 2 ^^ t) (half_ones (omega (arith, two-pow-suc k, one-le-pow k 2))),
  xor_ones k (x / 2) (omega (arith, two-pow-suc k)),
)
  where
    half_ones : 2 ^ suc k ≡ 2 * 2 ^ k → (2 ^ suc k - 1) / 2 ≡ 2 ^ k - 1
    half_ones e = omega (arith, one-le-pow k 2)
