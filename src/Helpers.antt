-- ===== src/Helpers.antt =====
-- The functions on texts of libhdk/helpers/helpers.hpp and
-- libhdk/channel/impl/socket_helpers_zmq.hpp. A text is the list of its bytes; `inet_ntoa` and the
-- address behind a descriptor are arguments.
pub mod Hex
pub mod Address
mod Tests
use debianbox.Base.{ℕ, zero, suc, ◌+◌, ◌-◌, ◌*◌, ◌/◌, ◌%◌, List, [], ◌∷◌, ◌++◌, ltb, if◌then◌else◌}

-- A digit as `std::hex` and `std::uppercase` print it.
unfoldable pub hex_digit : ℕ → ℕ
hex_digit d = if ltb d 10 then 48 + d else 55 + d

-- `to_hex`: two digits for each byte, with `setfill('0')` and `setw(2)`.
unfoldable pub to_hex : List ℕ → List ℕ
unfolding hex_digit
to_hex [] = []
to_hex (b ∷ str) = hex_digit (b / 16) ∷ hex_digit (b % 16) ∷ to_hex str

-- `std::to_string` of an unsigned number, with a bound on its digits.
unfoldable pub decimal : ℕ → ℕ → List ℕ
decimal zero n = []
decimal (suc fuel) n =
    let more = decimal fuel (n / 10) in
    if ltb n 10 then (48 + n) ∷ [] else (more ++ (48 + n % 10) ∷ [])

unfoldable pub to_string : ℕ → List ℕ
unfolding decimal
to_string n = decimal (suc n) n

-- `htons` on a little-endian host exchanges the two bytes.
unfoldable pub htons : ℕ → ℕ
htons n = n % 256 * 256 + n / 256

-- `get_peer_address` and `get_address`, of the address that `getpeername` or `getsockname` gave: the
-- text of `inet_ntoa`, and `sin_port`.
unfoldable pub get_address : List ℕ → ℕ → List ℕ
unfolding to_string htons
get_address ip sin_port = ip ++ 58 ∷ to_string (htons sin_port)
