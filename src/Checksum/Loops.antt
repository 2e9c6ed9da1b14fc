-- ===== src/Checksum/Loops.antt =====
-- The two loops of `crc32`: what they leave, and that their words never need more than 32 bits.
use debianbox.Base.{
  ℕ, zero, suc, ◌+◌, ◌%◌, ◌^◌, ◌≤◌, ◌<◌, ◌≡◌, refl, sym, subst, ◌∙◌, arith, List, [], ◌∷◌, some,
  length,
}
use debianbox.Base.{take, le→leb}
use debianbox.Checksum.{Cursor, words, bytes}
use debianbox.Checksum.Slicing.{fold_byte, word_step-fold_byte}
use debianbox.Checksum.Laws.{
  IsBytes, fold_byte-lt, fold_bytes, fold_bytes-lt, bytes-rest_of, words-next, after_word,
}

-- Where the first loop ends: a rest of less than four bytes, as many behind the cursor as remain
-- to be read, and a word of 32 bits.
abbrev pub Leaves : List ℕ → ℕ → Cursor → Type 0
Leaves memory left cur =
    (cur.left ≡ left % 4)
    × (cur.crc < 2 ^ 32)
    × IsBytes cur.current
    × (length cur.current + left ≡ length memory + cur.left)

abbrev cursor : List ℕ → ℕ → ℕ → Cursor
cursor current left crc = record { current = current; left = left; crc = crc }

words-cursor :
    (memory : List ℕ) (left crc : ℕ)
    → left < 4
    → words memory left crc ≡ some (cursor memory left crc)
unfolding words
words-cursor [] left crc k = ground arith
words-cursor (a ∷ []) left crc k = ground arith
words-cursor (a ∷ b ∷ []) left crc k = ground arith
words-cursor (a ∷ b ∷ c ∷ []) left crc k = ground arith
words-cursor (a ∷ b ∷ c ∷ d ∷ rest) left crc k = ground arith

abbrev Ends : List ℕ → ℕ → ℕ → Type 0
Ends memory left crc = (cur : Cursor) × (words memory left crc ≡ some cur) × Leaves memory left cur

few-Ends :
    (memory : List ℕ) (left crc : ℕ)
    → crc < 2 ^ 32
    → IsBytes memory
    → left < 4
    → Ends memory left crc
few-Ends memory left crc h b k =
    (cursor memory left crc, words-cursor memory left crc k, (omega arith, h, b, refl))

four_more : (left : ℕ) → suc (suc (suc (suc left))) % 4 ≡ left % 4
four_more left = omega arith

words-Ends :
    (memory : List ℕ) (left crc : ℕ)
    → crc < 2 ^ 32
    → IsBytes memory
    → left ≤ length memory
    → Ends memory left crc
words-Ends (a ∷ b ∷ c ∷ d ∷ rest) (suc (suc (suc (suc left)))) crc small h k =
    let r =
      words-Ends rest left (after_word crc a b c d left rest) after-lt h.1.1.1.1 (omega arith) in
    (
      r.0,
      words-next crc a b c d left rest ∙ r.1,
      (r.2.0 ∙ sym (four_more left), r.2.1, r.2.2, omega (arith, r.2.3)),
    )
  where
    by_bytes :
        after_word crc a b c d left rest ≡ fold_byte (fold_byte (fold_byte (fold_byte crc a) b) c) d
    by_bytes =
        unfold after_word in word_step-fold_byte crc a b c d small h.0 h.1.0 h.1.1.0 h.1.1.1.0

    after-lt : after_word crc a b c d left rest < 2 ^ 32
    after-lt =
        subst (λ (t : ℕ). t < 2 ^ 32) (sym by_bytes)
          (fold_byte-lt _ d
            (fold_byte-lt _ c (fold_byte-lt _ b (fold_byte-lt crc a small h.0) h.1.0) h.1.1.0)
            h.1.1.1.0)
words-Ends memory zero crc small h k = few-Ends memory 0 crc small h (omega arith)
words-Ends memory (suc zero) crc small h k = few-Ends memory 1 crc small h (omega arith)
words-Ends memory (suc (suc zero)) crc small h k = few-Ends memory 2 crc small h (omega arith)
words-Ends memory (suc (suc (suc zero))) crc small h k = few-Ends memory 3 crc small h (omega arith)
words-Ends [] (suc (suc (suc (suc left)))) crc small h k = absurd (omega arith)
words-Ends (a ∷ []) (suc (suc (suc (suc left)))) crc small h k = absurd (omega arith)
words-Ends (a ∷ b ∷ []) (suc (suc (suc (suc left)))) crc small h k = absurd (omega arith)
words-Ends (a ∷ b ∷ c ∷ []) (suc (suc (suc (suc left)))) crc small h k = absurd (omega arith)

take-IsBytes : (n : ℕ) (bs : List ℕ) → IsBytes bs → IsBytes (take n bs)
take-IsBytes zero bs h = tt
take-IsBytes (suc n) [] h = tt
take-IsBytes (suc n) (b ∷ bs) h = (h.0, take-IsBytes n bs h.1)

bytes-lt :
    (cur : Cursor)
    → cur.crc < 2 ^ 32
    → IsBytes cur.current
    → cur.left ≤ length cur.current
    → (r : ℕ) × (bytes cur.current cur.left cur.crc ≡ some r) × (r < 2 ^ 32)
bytes-lt cur h b k = (
  fold_bytes cur.crc (take cur.left cur.current),
  bytes-rest_of cur.current cur.left cur.crc b ∙ rw (le→leb _ _ k) refl,
  fold_bytes-lt cur.crc (take cur.left cur.current) h (take-IsBytes cur.left cur.current b),
)

-- On a buffer of bytes that is as long as the length that is given, neither loop reads out of
-- range. The first ends with less than four bytes left, the remainder of the length, and with the
-- cursor as far before the buffer's end as the length had been; the word that it ends with, and the one
-- that the second loop ends with, are below 2 ^ 32, so that a `uint32_t` holds them.
pub loops-lt :
    (memory : List ℕ) (left crc : ℕ)
    → crc < 2 ^ 32
    → IsBytes memory
    → left ≤ length memory
    → (cur : Cursor) × (r : ℕ) × (words memory left crc ≡ some cur)
      × (bytes cur.current cur.left cur.crc ≡ some r)
      × (cur.left ≡ left % 4)
      × (length cur.current + left ≡ length memory + cur.left)
      × (cur.crc < 2 ^ 32)
      × (r < 2 ^ 32)
loops-lt memory left crc h b k =
    let e = words-Ends memory left crc h b k in
    let r = bytes-lt e.0 e.2.1 e.2.2 (omega (arith, e.2.0, e.2.3)) in
    (e.0, r.0, e.1, r.1, e.2.0, e.2.3, e.2.1, r.2)
