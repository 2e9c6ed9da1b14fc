-- ===== src/Checksum/Detection.antt =====
-- What errors in a message the checksum of checksum.cpp shows.
use debianbox.Base.{
  ℕ, ◌^◌, ◌<◌, ◌≡◌, ◌≢◌, sym, ◌∙◌, arith, List, ◌∷◌, ◌++◌, Each-append, length, some_eq,
}
use debianbox.Base.Bits.{◌^^◌, xor-lt}
use debianbox.Checksum.{complement, crc32, load_word}
use debianbox.Checksum.Slicing.{fold_byte, four-fold_byte}
use debianbox.Checksum.Laws.{
  IsBytes, fold_bytes, fold_bytes-lt, fold_bytes-append, fold_byte-lt, reference, crc32_whole,
}
use debianbox.Checksum.Injective.{same_sum, fold_bytes-injective, four-injective}

-- Four bytes.
pub record Quad : Type 0 where
  pub first : ℕ
  pub second : ℕ
  pub third : ℕ
  pub fourth : ℕ

abbrev word_of : Quad → ℕ
word_of q = load_word q.first q.second q.third q.fourth

abbrev pub before : Quad → List ℕ → List ℕ
before q bs = q.first ∷ q.second ∷ q.third ∷ q.fourth ∷ bs

abbrev pub AreBytes : Quad → Type 0
AreBytes q = (q.first < 256) × (q.second < 256) × (q.third < 256) × (q.fourth < 256)

word_of-lt : (q : Quad) → AreBytes q → word_of q < 2 ^ 32
word_of-lt q h = omega arith

quad_eq :
    (q r : Quad)
    → q.first ≡ r.first
    → q.second ≡ r.second
    → q.third ≡ r.third
    → q.fourth ≡ r.fourth
    → q ≡ r
quad_eq q r e f g h = λ i. record { first = e i; second = f i; third = g i; fourth = h i }

word_of-injective : (q r : Quad) → AreBytes q → AreBytes r → word_of q ≡ word_of r → q ≡ r
word_of-injective q r h k e = quad_eq q r (omega arith) (omega arith) (omega arith) (omega arith)

fold_quad : ℕ → Quad → ℕ
fold_quad crc q =
    fold_byte (fold_byte (fold_byte (fold_byte crc q.first) q.second) q.third) q.fourth

fold_quad-lt : (crc : ℕ) (q : Quad) → crc < 2 ^ 32 → AreBytes q → fold_quad crc q < 2 ^ 32
unfolding fold_quad
fold_quad-lt crc q h k =
    fold_byte-lt _ q.fourth
      (fold_byte-lt _ q.third (fold_byte-lt _ q.second (fold_byte-lt crc q.first h k.0) k.1) k.2)
      k.3

fold_quad-injective :
    (crc : ℕ) (q r : Quad)
    → crc < 2 ^ 32
    → AreBytes q
    → AreBytes r
    → fold_quad crc q ≡ fold_quad crc r
    → q ≡ r
unfolding fold_quad
fold_quad-injective crc q r h hq hr e = word_of-injective q r hq hr (
    same_sum (word_of q) (word_of r) crc (
      four-injective (word_of q ^^ crc) (word_of r ^^ crc)
        (xor-lt 32 (word_of q) crc (word_of-lt q hq) h)
        (xor-lt 32 (word_of r) crc (word_of-lt r hr) h)
        (four-fold_byte crc _ _ _ _ hq.0 hq.1 hq.2 hq.3
          ∙ e
          ∙ sym (four-fold_byte crc _ _ _ _ hr.0 hr.1 hr.2 hr.3))))

before-IsBytes : (q : Quad) (bs : List ℕ) → AreBytes q → IsBytes bs → IsBytes (before q bs)
before-IsBytes q bs h k = (h.0, (h.1, (h.2, (h.3, k))))

complement-injective : (c d : ℕ) → c < 2 ^ 32 → d < 2 ^ 32 → complement c ≡ complement d → c ≡ d
complement-injective c d hc hd e = omega arith

fold_bytes-before :
    (crc : ℕ) (q : Quad) (front bs : List ℕ)
    → fold_bytes crc (front ++ before q bs) ≡ fold_bytes (fold_quad (fold_bytes crc front) q) bs
unfolding fold_quad fold_bytes
fold_bytes-before crc q front bs = fold_bytes-append crc front (before q bs)

same_quad :
    (front back : List ℕ) (q r : Quad) (previous : ℕ)
    → IsBytes front
    → IsBytes back
    → AreBytes q
    → AreBytes r
    → crc32 (front ++ before q back) (length (front ++ before q back)) previous
      ≡ crc32 (front ++ before r back) (length (front ++ before r back)) previous
    → q ≡ r
unfolding reference
same_quad front back q r previous hf hb hq hr e =
    let crc = complement previous in
    let start = fold_bytes-lt crc front (omega arith) hf in
    let bytes_of : (k : Quad) → AreBytes k → IsBytes (front ++ before k back) =
      λ k h. Each-append _ front (before k back) hf (before-IsBytes k back h hb) in
    let same =
      complement-injective (fold_bytes crc (front ++ before q back))
        (fold_bytes crc (front ++ before r back))
        (fold_bytes-lt crc (front ++ before q back) (omega arith) (bytes_of q hq))
        (fold_bytes-lt crc (front ++ before r back) (omega arith) (bytes_of r hr))
        (some_eq _ _ (
          sym (crc32_whole (front ++ before q back) previous (bytes_of q hq))
          ∙ e
          ∙ crc32_whole (front ++ before r back) previous (bytes_of r hr))) in
    fold_quad-injective (fold_bytes crc front) q r start hq hr (
      fold_bytes-injective (fold_quad (fold_bytes crc front) q) (fold_quad (fold_bytes crc front) r)
        back (fold_quad-lt (fold_bytes crc front) q start hq)
        (fold_quad-lt (fold_bytes crc front) r start hr) hb
        (sym (fold_bytes-before crc q front back) ∙ same ∙ fold_bytes-before crc r front back))

-- The checksum shows every change of a message that is confined to four bytes in a row, 32 bits:
-- two messages that agree before and after such a place, and differ there, have different
-- checksums, on top of any earlier checksum.
pub crc32-burst :
    (front back : List ℕ) (q r : Quad) (previous : ℕ)
    → IsBytes front
    → IsBytes back
    → AreBytes q
    → AreBytes r
    → q ≢ r
    → crc32 (front ++ before q back) (length (front ++ before q back)) previous
      ≢ crc32 (front ++ before r back) (length (front ++ before r back)) previous
crc32-burst front back q r previous hf hb hq hr differ e =
    differ (same_quad front back q r previous hf hb hq hr e)
