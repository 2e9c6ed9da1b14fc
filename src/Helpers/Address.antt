-- ===== src/Helpers/Address.antt =====
-- What `get_peer_address` and `get_address` of libhdk/channel/impl/socket_helpers_zmq.hpp print.
use debianbox.Base.{
  ℕ, zero, suc, ◌+◌, ◌-◌, ◌*◌, ◌/◌, ◌%◌, ◌^◌, ◌<◌, ◌≡◌, inl, inr, refl, ap, ◌∙◌, arith, List, [],
  ◌∷◌, ◌++◌, ltb, ◌==◌, if◌then◌else◌, false, Each, Bool-cases, Option, none, some,
}
use debianbox.Helpers.{decimal, to_string, htons, get_address}

-- The number that a text of decimal digits stands for, after what has been read.
unfoldable pub number : ℕ → List ℕ → ℕ
number acc [] = acc
number acc (c ∷ cs) = number (acc * 10 + (c - 48)) cs

number-append : (acc : ℕ) (xs ys : List ℕ) → number acc (xs ++ ys) ≡ number (number acc xs) ys
unfolding number
number-append acc [] ys = refl
number-append acc (x ∷ xs) ys = number-append (acc * 10 + (x - 48)) xs ys

number-decimal : (fuel n : ℕ) → n < fuel → number 0 (decimal fuel n) ≡ n
unfolding decimal number
number-decimal zero n h = absurd (omega arith)
number-decimal (suc fuel) n h = elim (Bool-cases (ltb n 10)) [
  | inl small ↦ rw small (omega arith)
  | inr large ↦ rw large (
      number-append 0 (decimal fuel (n / 10)) ((48 + n % 10) ∷ [])
      ∙ ap (λ (t : ℕ). t * 10 + (48 + n % 10 - 48)) (number-decimal fuel (n / 10) (ground arith))
      ∙ omega arith)
]

abbrev longer : ℕ → Option (List ℕ × ℕ) → Option (List ℕ × ℕ)
longer c none = none
longer c (some (ip, port)) = some (c ∷ ip, port)

-- The text before the first ":", and the number behind it.
unfoldable pub parse_address : List ℕ → Option (List ℕ × ℕ)
unfolding number
parse_address [] = none
parse_address (c ∷ cs) =
    let rest = parse_address cs in if c == 58 then some ([], number 0 cs) else longer c rest

number-to_string : (n : ℕ) → number 0 (to_string n) ≡ n
unfolding to_string
number-to_string n = number-decimal (suc n) n (omega arith)

htons-htons : (n : ℕ) → n < 2 ^ 16 → htons (htons n) ≡ n
unfolding htons
htons-htons n h = omega arith

split_at :
    (ip : List ℕ) (digits : List ℕ)
    → Each (λ c. (c == 58) ≡ false) ip
    → parse_address (ip ++ 58 ∷ digits) ≡ some (ip, number 0 digits)
unfolding parse_address
split_at [] digits h = refl
split_at (c ∷ ip) digits h = rw (h.0, split_at ip digits h.1) refl

-- The address of a peer, printed from `sin_port` in network order, reads as the text of its IP
-- address and the port in the order of the host.
pub parse_address-get_address :
    (ip : List ℕ) (port : ℕ)
    → Each (λ c. (c == 58) ≡ false) ip
    → port < 2 ^ 16
    → parse_address (get_address ip (htons port)) ≡ some (ip, port)
unfolding get_address
parse_address-get_address ip port h k =
    split_at ip (to_string (htons (htons port))) h
    ∙ ap (λ (n : ℕ). some (ip, n)) (number-to_string (htons (htons port)) ∙ htons-htons port k)
