-- ===== src/Checksum/Laws.antt =====
-- What the three checksum functions compute, on every input.
use debianbox.Base.{
  ℕ, zero, suc, ◌-◌, ◌^◌, ◌≤◌, ◌<◌, ◌≡◌, refl, sym, ap, ◌∙◌, arith, List, [], ◌∷◌, ◌++◌, Option,
  none, some, Each, Each-append, length, take, take-length, leb, if◌then◌else◌,
}
use debianbox.Base.Bits.{◌^^◌, xor-lt}
use debianbox.Checksum.{
  complement, words, bytes, word_step, byte_step, load_word, finish, remaining, crc32,
}
use debianbox.Checksum.Polynomial.{shift_bits-lt}
use debianbox.Checksum.Slicing.{fold_byte, byte_step-fold_byte, word_step-fold_byte}

abbrev pub IsBytes : List ℕ → Type 0
IsBytes = Each (λ b. b < 256)

-- The specification: the bitwise recursion over the bytes in order.
unfoldable pub fold_bytes : ℕ → List ℕ → ℕ
fold_bytes crc [] = crc
fold_bytes crc (b ∷ bs) = fold_bytes (fold_byte crc b) bs

-- The checksum of a message on top of an earlier checksum.
unfoldable pub reference : ℕ → List ℕ → ℕ
unfolding fold_bytes
reference previous message = complement (fold_bytes (complement previous) message)

pub fold_byte-lt : (crc b : ℕ) → crc < 2 ^ 32 → b < 256 → fold_byte crc b < 2 ^ 32
fold_byte-lt crc b h k = shift_bits-lt 8 (crc ^^ b) (xor-lt 32 crc b h (omega arith))

pub fold_bytes-lt : (crc : ℕ) (bs : List ℕ) → crc < 2 ^ 32 → IsBytes bs → fold_bytes crc bs < 2 ^ 32
unfolding fold_bytes
fold_bytes-lt crc [] h k = h
fold_bytes-lt crc (b ∷ bs) h k = fold_bytes-lt (fold_byte crc b) bs (fold_byte-lt crc b h k.0) k.1

pub fold_bytes-append :
    (crc : ℕ) (xs ys : List ℕ) → fold_bytes crc (xs ++ ys) ≡ fold_bytes (fold_bytes crc xs) ys
unfolding fold_bytes
fold_bytes-append crc [] ys = refl
fold_bytes-append crc (x ∷ xs) ys = fold_bytes-append (fold_byte crc x) xs ys

-- What is left to do at a loop's head.
abbrev pub rest_of : List ℕ → ℕ → ℕ → Option ℕ
rest_of current left crc =
    if leb left (length current) then some (fold_bytes crc (take left current)) else none

pub bytes-rest_of :
    (current : List ℕ) (left crc : ℕ)
    → IsBytes current
    → bytes current left crc ≡ rest_of current left crc
unfolding bytes fold_bytes
bytes-rest_of [] zero crc h = refl
bytes-rest_of (b ∷ rest) zero crc h = ground arith
bytes-rest_of [] (suc left) crc h = ground arith
bytes-rest_of (b ∷ rest) (suc left) crc h =
    bytes-rest_of rest left (byte_step crc b) h.1
    ∙ ap (rest_of rest left) (byte_step-fold_byte crc b h.0)
    ∙ ground arith

module _ (crc a b c d left : ℕ) (rest : List ℕ) where
  unfoldable pub after_word : ℕ
  after_word = word_step crc (load_word a b c d)

  pub words-next :
      words (a ∷ b ∷ c ∷ d ∷ rest) (suc (suc (suc (suc left)))) crc ≡ words rest left after_word
  unfolding words after_word
  words-next = rw four_less (ground arith)
    where
      four_less : suc (suc (suc (suc left))) - 4 ≡ left
      four_less = omega arith

words_few :
    (current : List ℕ) (left crc : ℕ)
    → left < 4
    → remaining (words current left crc) ≡ bytes current left crc
unfolding words remaining
words_few [] left crc h = ground arith
words_few (a ∷ []) left crc h = ground arith
words_few (a ∷ b ∷ []) left crc h = ground arith
words_few (a ∷ b ∷ c ∷ []) left crc h = ground arith
words_few (a ∷ b ∷ c ∷ d ∷ rest) left crc h = ground arith

words_short :
    (current : List ℕ) (left crc : ℕ)
    → 4 ≤ left
    → length current < 4
    → remaining (words current left crc) ≡ rest_of current left crc
unfolding words remaining
words_short [] left crc h k = ground arith
words_short (a ∷ []) left crc h k = ground arith
words_short (a ∷ b ∷ []) left crc h k = ground arith
words_short (a ∷ b ∷ c ∷ []) left crc h k = ground arith
words_short (a ∷ b ∷ c ∷ d ∷ rest) left crc h k = absurd (omega arith)

few :
    (current : List ℕ) (left crc : ℕ)
    → IsBytes current
    → left < 4
    → remaining (words current left crc) ≡ rest_of current left crc
few current left crc h k = words_few current left crc k ∙ bytes-rest_of current left crc h

words-rest_of :
    (current : List ℕ) (left crc : ℕ)
    → crc < 2 ^ 32
    → IsBytes current
    → remaining (words current left crc) ≡ rest_of current left crc
words-rest_of (a ∷ b ∷ c ∷ d ∷ rest) (suc (suc (suc (suc left)))) crc small h =
    ap remaining (words-next crc a b c d left rest)
    ∙ ap (λ (t : ℕ). remaining (words rest left t)) by_bytes
    ∙ words-rest_of rest left crc' crc'-lt h.1.1.1.1
    ∙ (unfold fold_bytes in ground arith)
  where
    crc' : ℕ
    crc' = fold_byte (fold_byte (fold_byte (fold_byte crc a) b) c) d

    by_bytes : after_word crc a b c d left rest ≡ crc'
    by_bytes =
        unfold after_word in word_step-fold_byte crc a b c d small h.0 h.1.0 h.1.1.0 h.1.1.1.0

    crc'-lt : crc' < 2 ^ 32
    crc'-lt =
        fold_byte-lt _ d
          (fold_byte-lt _ c (fold_byte-lt _ b (fold_byte-lt crc a small h.0) h.1.0) h.1.1.0)
          h.1.1.1.0
words-rest_of current zero crc small h = few current 0 crc h (omega arith)
words-rest_of current (suc zero) crc small h = few current 1 crc h (omega arith)
words-rest_of current (suc (suc zero)) crc small h = few current 2 crc h (omega arith)
words-rest_of current (suc (suc (suc zero))) crc small h = few current 3 crc h (omega arith)
words-rest_of [] (suc (suc (suc (suc left)))) crc small h =
    words_short [] _ crc (omega arith) (omega arith)
words-rest_of (a ∷ []) (suc (suc (suc (suc left)))) crc small h =
    words_short (a ∷ []) _ crc (omega arith) (omega arith)
words-rest_of (a ∷ b ∷ []) (suc (suc (suc (suc left)))) crc small h =
    words_short (a ∷ b ∷ []) _ crc (omega arith) (omega arith)
words-rest_of (a ∷ b ∷ c ∷ []) (suc (suc (suc (suc left)))) crc small h =
    words_short (a ∷ b ∷ c ∷ []) _ crc (omega arith) (omega arith)

-- On a buffer of bytes, `crc32` reads out of range exactly when the length passes its end, and
-- otherwise returns the checksum that the bitwise recursion gives of the first `len` bytes.
pub crc32-reference :
    (memory : List ℕ) (len previous : ℕ)
    → IsBytes memory
    → crc32 memory len previous
      ≡ (if leb len (length memory) then some (reference previous (take len memory)) else none)
unfolding crc32 finish reference
crc32-reference memory len previous h =
    ap finish (words-rest_of memory len (complement previous) (omega arith) h) ∙ ground arith

pub reference-append :
    (previous : ℕ) (xs ys : List ℕ)
    → IsBytes xs
    → reference (reference previous xs) ys ≡ reference previous (xs ++ ys)
unfolding reference
reference-append previous xs ys h =
    ap (λ (t : ℕ). complement (fold_bytes t ys)) twice
    ∙ ap complement (sym (fold_bytes-append (complement previous) xs ys))
  where
    twice :
        complement (complement (fold_bytes (complement previous) xs))
        ≡ fold_bytes (complement previous) xs
    twice = omega (arith, fold_bytes-lt (complement previous) xs (omega arith) h)

pub crc32_whole :
    (message : List ℕ) (previous : ℕ)
    → IsBytes message
    → crc32 message (length message) previous ≡ some (reference previous message)
crc32_whole message previous h =
    crc32-reference message (length message) previous h ∙ rw (take-length message) (ground arith)

-- A message may be checked in pieces: the checksum of a second piece on top of that of the first
-- is the checksum of both together.
pub crc32-append :
    (xs ys : List ℕ) (previous : ℕ)
    → IsBytes xs
    → IsBytes ys
    → (crc : ℕ) × (crc32 xs (length xs) previous ≡ some crc)
      × (crc32 ys (length ys) crc ≡ crc32 (xs ++ ys) (length (xs ++ ys)) previous)
crc32-append xs ys previous hx hy = (
  reference previous xs,
  crc32_whole xs previous hx,
  crc32_whole ys (reference previous xs) hy
      ∙ ap some (reference-append previous xs ys hx)
      ∙ sym (crc32_whole (xs ++ ys) previous (Each-append _ xs ys hx hy)),
)
