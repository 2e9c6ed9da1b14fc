-- ===== src/Helpers/Tests.antt =====
-- What the functions on texts print, and the theorems about them at inputs.
use debianbox.Base.{◌≡◌, refl, arith, [], ◌∷◌, some}
use debianbox.Helpers.{to_hex, hex_digit, decimal, htons, get_address}
use debianbox.Helpers.Address.{parse_address, parse_address-get_address}

-- "0AFF".
ten_lem : to_hex (10 ∷ 255 ∷ []) ≡ 48 ∷ 65 ∷ 70 ∷ 70 ∷ []
unfolding to_hex hex_digit
ten_lem = refl

-- "1.2:5555", of the port 5555, which is 45845 in network order.
address_lem : get_address (49 ∷ 46 ∷ 50 ∷ []) 45845 ≡ 49 ∷ 46 ∷ 50 ∷ 58 ∷ 53 ∷ 53 ∷ 53 ∷ 53 ∷ []
unfolding get_address decimal
address_lem = refl

parse_address-get_address_example :
    parse_address (get_address (49 ∷ 46 ∷ 50 ∷ []) (htons 5555)) ≡ some (49 ∷ 46 ∷ 50 ∷ [], 5555)
parse_address-get_address_example =
    parse_address-get_address (49 ∷ 46 ∷ 50 ∷ []) 5555 (refl, (refl, (refl, tt))) (omega arith)
