-- ===== src/Marshall/Bytes.antt =====
-- The bytes of a plain object, lowest first, and a read of so many bytes from a stream.
use native.Mathlib.Nat.{pow-suc}
use debianbox.Base.{
  ℕ, zero, suc, ◌+◌, ◌*◌, ◌/◌, ◌%◌, ◌^◌, ◌<◌, ◌≡◌, refl, ap, arith, List, [], ◌∷◌, ◌++◌, Option,
  none, some, length,
}

unfoldable pub to_bytes : ℕ → ℕ → List ℕ
to_bytes zero x = []
to_bytes (suc n) x = (x % 2 ^ 8) ∷ to_bytes n (x / 2 ^ 8)

unfoldable pub from_bytes : List ℕ → ℕ
from_bytes [] = 0
from_bytes (b ∷ bs) = b + 2 ^ 8 * from_bytes bs

abbrev pub prepend : ℕ → Option (List ℕ × List ℕ) → Option (List ℕ × List ℕ)
prepend b none = none
prepend b (some (bs, rest)) = some (b ∷ bs, rest)

-- `is.read(p, n)`: the bytes read and the rest, if there are `n`.
unfoldable pub read : ℕ → List ℕ → Option (List ℕ × List ℕ)
read zero stream = some ([], stream)
read (suc n) [] = none
read (suc n) (b ∷ stream) = prepend b (read n stream)

pub length-to_bytes : (n x : ℕ) → length (to_bytes n x) ≡ n
unfolding to_bytes
length-to_bytes zero x = refl
length-to_bytes (suc n) x = ap suc (length-to_bytes n (x / 2 ^ 8))

pub from_bytes-to_bytes : (n x : ℕ) → x < 256 ^ n → from_bytes (to_bytes n x) ≡ x
unfolding to_bytes from_bytes
from_bytes-to_bytes zero x h = omega arith
from_bytes-to_bytes (suc n) x h =
    omega (arith, pow-suc 256 n, from_bytes-to_bytes n (x / 2 ^ 8) (omega (arith, pow-suc 256 n)))

pub read-append : (bs rest : List ℕ) → read (length bs) (bs ++ rest) ≡ some (bs, rest)
unfolding read
read-append [] rest = refl
read-append (b ∷ bs) rest = rw (read-append bs rest)
