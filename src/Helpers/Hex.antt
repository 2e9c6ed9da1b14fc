-- ===== src/Helpers/Hex.antt =====
-- What `to_hex` of libhdk/helpers/helpers.hpp prints.
use debianbox.Base.{
  ℕ, ◌+◌, ◌-◌, ◌*◌, ◌/◌, ◌%◌, ◌<◌, ◌≤◌, ◌≡◌, ◌⊎◌, refl, ap₂, arith, List, [], ◌∷◌, ltb,
  if◌then◌else◌, Each, length,
}
use debianbox.Helpers.{hex_digit, to_hex}

-- The value of a digit, and the bytes of a text of digits.
unfoldable pub digit_value : ℕ → ℕ
digit_value c = if ltb c 58 then c - 48 else c - 55

unfoldable pub from_hex : List ℕ → List ℕ
unfolding digit_value
from_hex (c ∷ d ∷ cs) = (digit_value c * 16 + digit_value d) ∷ from_hex cs
from_hex cs = []

digit_value-hex_digit : (d : ℕ) → d < 16 → digit_value (hex_digit d) ≡ d
unfolding digit_value hex_digit
digit_value-hex_digit d h = ground arith

whole :
    (b : ℕ) → b < 256 → digit_value (hex_digit (b / 16)) * 16 + digit_value (hex_digit (b % 16)) ≡ b
whole b h = omega (
  arith,
  digit_value-hex_digit (b / 16) (omega arith),
  digit_value-hex_digit (b % 16) (omega arith),
)

-- From 0 to 9, or from A to F.
abbrev pub IsHexDigit : ℕ → Type 0
IsHexDigit c = ((48 ≤ c) × (c < 58)) ⊎ ((65 ≤ c) × (c < 71))

hex_digit-IsHexDigit : (d : ℕ) → d < 16 → IsHexDigit (hex_digit d)
unfolding hex_digit
hex_digit-IsHexDigit d h = ground arith

abbrev pub IsBytes : List ℕ → Type 0
IsBytes = Each (λ b. b < 256)

-- `to_hex` prints two digits from 0 to 9 and from A to F for each byte, from which the text can be
-- had again.
pub from_hex-to_hex :
    (str : List ℕ)
    → IsBytes str
    → (from_hex (to_hex str) ≡ str)
      × (length (to_hex str) ≡ length str * 2)
      × Each IsHexDigit (to_hex str)
unfolding from_hex to_hex
from_hex-to_hex [] h = (refl, refl, tt)
from_hex-to_hex (b ∷ str) h =
    let r = from_hex-to_hex str h.1 in
    (
      ap₂ ◌∷◌ (whole b h.0) r.0,
      omega (arith, r.1),
      (
        hex_digit-IsHexDigit (b / 16) (omega arith),
        (hex_digit-IsHexDigit (b % 16) (omega arith), r.2),
      ),
    )
