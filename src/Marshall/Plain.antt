-- ===== src/Marshall/Plain.antt =====
-- A `streambuf` that is two lists, its input and the room behind it: what marshal.hpp relies on can be
-- had. And a platform with the usual order of unsigned numbers.
use debianbox.Base.{
  Bool, false, ltb, ℕ, zero, suc, ◌+◌, ◌≤◌, ◌≡◌, refl, sym, ap, ◌∙◌, arith, List, [], ◌∷◌, ◌++◌,
  append_assoc, length, take, drop, length-append, take-length-append,
}
use debianbox.Marshall.{Ty, scalar, text, vector, dict, Val, Platform}
use debianbox.Marshall.Buffer.{Streambuf, IsStreambuf, input}

abbrev zeros : ℕ → List ℕ
zeros zero = []
zeros (suc n) = 0 ∷ zeros n

abbrev poked : List ℕ → List ℕ × List ℕ → List ℕ
poked bs (i, s) = bs ++ drop (length bs) (i ++ s)

abbrev pub plain : Streambuf
plain = record {
  Buf = List ℕ × List ℕ;
  empty = ([], []);
  area = λ b. b.0 ++ b.1;
  size = λ b. length b.0;
  prepare = λ n b. (b.0, zeros n);
  commit = λ n b. (b.0 ++ take n b.1, drop n b.1);
  poke = λ bs b. (take (length b.0) (poked bs b), drop (length b.0) (poked bs b));
  put = λ bs b. (b.0 ++ bs, b.1);
}

length-zeros : (n : ℕ) → length (zeros n) ≡ n
length-zeros zero = refl
length-zeros (suc n) = ap suc (length-zeros n)

take-drop : (n : ℕ) (xs : List ℕ) → take n xs ++ drop n xs ≡ xs
take-drop zero xs = refl
take-drop (suc n) [] = refl
take-drop (suc n) (x ∷ xs) = ap (◌∷◌ x) (take-drop n xs)

length-take : (n : ℕ) (xs : List ℕ) → n ≤ length xs → length (take n xs) ≡ n
length-take zero xs h = refl
length-take (suc n) [] h = absurd (omega arith)
length-take (suc n) (x ∷ xs) h = ap suc (length-take n xs (omega arith))

-- A text over the start of another one is no shorter.
length-over : (bs xs : List ℕ) → length xs ≤ length (bs ++ drop (length bs) xs)
length-over [] xs = omega arith
length-over (b ∷ bs) [] = omega arith
length-over (b ∷ bs) (x ∷ xs) = omega (arith, length-over bs xs)

input-plain : (i s : List ℕ) → input plain (i, s) ≡ i
input-plain i s = take-length-append i s

pub plain-IsStreambuf : IsStreambuf plain
plain-IsStreambuf = record {
  size-empty = refl;
  input-put = λ bs b. input-plain (b.0 ++ bs) b.1 ∙ ap (λ l. l ++ bs) (sym (input-plain b.0 b.1));
  size-prepare = λ n b. refl;
  room = λ n b. omega (arith, length-append b.0 (zeros n), length-zeros n);
  size-poke = λ bs b.
      length-take (length b.0) (poked bs b)
        (omega (arith, length-over bs (b.0 ++ b.1), length-append b.0 b.1));
  area-poke = λ bs b h. take-drop (length b.0) (poked bs b);
  size-commit = λ n b h.
      length-append b.0 (take n b.1)
      ∙ ap (λ k. length b.0 + k) (length-take n b.1 (omega (arith, h, length-append b.0 b.1)));
  area-commit =
      λ n b. append_assoc b.0 (take n b.1) (drop n b.1) ∙ ap (λ l. b.0 ++ l) (take-drop n b.1);
}

-- Unsigned keys by `<`; no other key type is used here.
abbrev number_less : (k : Ty) → Val k → Val k → Bool
number_less (scalar n) a b = ltb a b
number_less text a b = false
number_less (vector t) a b = false
number_less (dict k v) a b = false

abbrev pub host : Platform
host = record { less = number_less; image = λ k v m. [] }
