-- ===== src/Marshall/Canonical.antt =====
-- What `_marshal` would write of what `_demarshal` has read, of bytes that come from anywhere.
pub mod Messages
use native.Mathlib.Nat.{pow-suc}
use debianbox.Base.{
  ℕ, zero, suc, ◌+◌, ◌*◌, ◌/◌, ◌%◌, ◌^◌, ◌<◌, ◌≡◌, refl, sym, ap, ap₂, ◌∙◌, subst, arith, List, [],
  ◌∷◌, ◌++◌, append_assoc, append-nil, Option, none, some, length, Each,
}
use debianbox.Marshall.Bytes.{to_bytes, from_bytes, read, prepend}
use debianbox.Marshall.{
  Ty, scalar, text, vector, dict, Val, Vals, Platform, EvalOrder, first_to_last, last_to_first,
  size_t, ◌>>=◌, write_each, rounds, fresh, fresh_members, marshal_value, read_scalar, push_element,
  demarshal_value, marshal, demarshal,
}
use debianbox.Marshall.Roundtrip.{IsValid}
use debianbox.Marshall.Message.{AreValid}

abbrev pub IsBytes : List ℕ → Type 0
IsBytes = Each (λ b. b < 256)

-- The types without maps: a map may come with its entries in any order.
abbrev pub IsPlain : Ty → Type 0
IsPlain (scalar n) = Unit {0}
IsPlain text = Unit {0}
IsPlain (vector t) = IsPlain t
IsPlain (dict k v) = ⊥

abbrev pub ArePlain : List Ty → Type 0
ArePlain [] = Unit {0}
ArePlain (t ∷ ts) = IsPlain t × ArePlain ts

-- What was read, if anything was, and what is left are together the bytes that were there.
abbrev pub Undoes :
    {A : Type 0} → (A → List ℕ) → (A → Type 0) → List ℕ → Option (A × List ℕ) → Type 0
Undoes enc V stream none = Unit {0}
Undoes enc V stream (some (x, rest)) = (stream ≡ enc x ++ rest) × V x × IsBytes rest

-- One decoder undoes one encoder.
abbrev pub Inverts :
    {A : Type 0} → (List ℕ → Option (A × List ℕ)) → (A → List ℕ) → (A → Type 0) → Type 0
Inverts f enc V = (stream : List ℕ) → IsBytes stream → Undoes enc V stream (f stream)

abbrev Cuts : ℕ → List ℕ → Option (List ℕ × List ℕ) → Type 0
Cuts n stream none = Unit {0}
Cuts n stream (some (bs, rest)) =
    (stream ≡ bs ++ rest) × (length bs ≡ n) × IsBytes bs × IsBytes rest

prepend-Cuts :
    (n b : ℕ) (stream : List ℕ) (o : Option (List ℕ × List ℕ))
    → b < 256
    → Cuts n stream o
    → Cuts (suc n) (b ∷ stream) (prepend b o)
prepend-Cuts n b stream none h c = tt
prepend-Cuts n b stream (some (bs, rest)) h c = (ap (◌∷◌ b) c.0, ap suc c.1, (h, c.2), c.3)

read-Cuts : (n : ℕ) (stream : List ℕ) → IsBytes stream → Cuts n stream (read n stream)
unfolding read
read-Cuts zero stream h = (refl, refl, tt, h)
read-Cuts (suc n) [] h = tt
read-Cuts (suc n) (b ∷ stream) h =
    prepend-Cuts n b stream (read n stream) h.0 (read-Cuts n stream h.1)

from_bytes-lt : (bs : List ℕ) → IsBytes bs → from_bytes bs < 256 ^ length bs
unfolding from_bytes
from_bytes-lt [] h = omega arith
from_bytes-lt (b ∷ bs) h = omega (arith, h.0, pow-suc 256 (length bs), from_bytes-lt bs h.1)

to_bytes-from_bytes : (bs : List ℕ) → IsBytes bs → to_bytes (length bs) (from_bytes bs) ≡ bs
unfolding to_bytes from_bytes
to_bytes-from_bytes [] h = refl
to_bytes-from_bytes (b ∷ bs) h =
    ap₂ (λ c cs. c ∷ cs) (omega (arith, h.0))
      (ap (to_bytes (length bs)) (omega (arith, h.0)) ∙ to_bytes-from_bytes bs h.1)

scalar-Undoes :
    (n : ℕ) (stream : List ℕ) (o : Option (List ℕ × List ℕ))
    → Cuts n stream o
    → Undoes (to_bytes n) (λ x. x < 256 ^ n) stream (o >>= λ r. some (from_bytes r.0, r.1))
scalar-Undoes n stream none c = tt
scalar-Undoes n stream (some (bs, rest)) c = (
  c.0
      ∙ ap (λ cs. cs ++ rest)
          (sym (subst (λ k. to_bytes k (from_bytes bs) ≡ bs) c.1 (to_bytes-from_bytes bs c.2))),
  subst (λ k. from_bytes bs < 256 ^ k) c.1 (from_bytes-lt bs c.2),
  c.3,
)

pub read_scalar-Inverts : (n : ℕ) → Inverts (read_scalar n) (to_bytes n) (λ x. x < 256 ^ n)
unfolding read_scalar
read_scalar-Inverts n stream h = scalar-Undoes n stream (read n stream) (read-Cuts n stream h)

module _ {A : Type 0} where
  -- What a number of rounds adds to a vector.
  abbrev Adds :
      (A → List ℕ) → (A → Type 0) → ℕ → List A → List ℕ → Option (List A × List ℕ) → Type 0
  Adds enc V n target stream none = Unit {0}
  Adds enc V n target stream (some (ys, rest)) =
      (xs : List A) × (ys ≡ target ++ xs)
      × (length xs ≡ n)
      × (stream ≡ write_each enc xs ++ rest)
      × Each V xs
      × IsBytes rest

first-Adds :
    {A : Type 0} (enc : A → List ℕ) (V : A → Type 0) (n : ℕ) (target : List A)
    (stream rest : List ℕ) (x : A) (o : Option (List A × List ℕ))
    → stream ≡ enc x ++ rest
    → V x
    → Adds enc V n (target ++ x ∷ []) rest o
    → Adds enc V (suc n) target stream o
unfolding write_each
first-Adds enc V n target stream rest x none e v a = tt
first-Adds enc V n target stream rest x (some (ys, left)) e v (xs, whole, count, split, vs, bytes) =
    (
      x ∷ xs,
      whole ∙ append_assoc target (x ∷ []) xs,
      ap suc count,
      e ∙ ap (λ r. enc x ++ r) split ∙ sym (append_assoc (enc x) (write_each enc xs) left),
      (v, vs),
      bytes,
    )

module _ (t : Ty) (f : Val t → List ℕ → Option (Val t × List ℕ)) (enc : Val t → List ℕ)
    (V : Val t → Type 0) (inverts : Inverts (f (fresh t)) enc V) where
  abbrev pushed : List (Val t) → Option (Val t × List ℕ) → Option (List (Val t) × List ℕ)
  pushed target o = do (x, rest) ← o; some (target ++ x ∷ [], rest)

  then-Adds :
      (n : ℕ) (target : List (Val t)) (stream : List ℕ) (o : Option (Val t × List ℕ))
      → Undoes enc V stream o
      → ((target' : List (Val t)) (stream' : List ℕ)
          → IsBytes stream'
          → Adds enc V n target' stream' (rounds (push_element t f) n target' stream'))
      → Adds enc V
          (suc n)
          target
          stream
          (pushed target o >>= λ r. rounds (push_element t f) n r.0 r.1)
  then-Adds n target stream none u more = tt
  then-Adds n target stream (some (x, rest)) u more =
      first-Adds enc V n target stream rest x _ u.0 u.1 (more (target ++ x ∷ []) rest u.2)

  rounds-Adds :
      (n : ℕ) (target : List (Val t)) (stream : List ℕ)
      → IsBytes stream
      → Adds enc V n target stream (rounds (push_element t f) n target stream)
  unfolding rounds push_element write_each
  rounds-Adds zero target stream h = ([], sym (append-nil target), refl, refl, tt, h)
  rounds-Adds (suc n) target stream h =
      then-Adds n target stream (f (fresh t) stream) (inverts stream h)
        (λ target' stream' h'. rounds-Adds n target' stream' h')

  -- A vector: its size, and its elements.
  abbrev write_vector : List (Val t) → List ℕ
  write_vector xs = to_bytes size_t (length xs) ++ write_each enc xs

  abbrev IsVector : List (Val t) → Type 0
  IsVector xs = (length xs < 256 ^ size_t) × Each V xs

  sized-Undoes :
      (stream rest : List ℕ) (size : ℕ) (o : Option (List (Val t) × List ℕ))
      → stream ≡ to_bytes size_t size ++ rest
      → size < 256 ^ size_t
      → Adds enc V size [] rest o
      → Undoes write_vector IsVector stream o
  sized-Undoes stream rest size none e small a = tt
  sized-Undoes stream rest size (some (ys, left)) e small (xs, whole, count, split, vs, bytes) = (
    rw (whole, count) (rw append_assoc (e ∙ ap (λ r. to_bytes size_t size ++ r) split)),
    (rw (whole, count) small, rw whole vs),
    bytes,
  )

  after_size :
      (stream : List ℕ) (o : Option (ℕ × List ℕ))
      → Undoes (to_bytes size_t) (λ x. x < 256 ^ size_t) stream o
      → Undoes write_vector IsVector stream (o >>= λ r. rounds (push_element t f) r.0 [] r.1)
  after_size stream none u = tt
  after_size stream (some (size, rest)) u =
      sized-Undoes stream rest size _ u.0 u.1 (rounds-Adds size [] rest u.2)

  pub sequence-Inverts :
      Inverts
        (λ stream. read_scalar size_t stream >>= λ r. rounds (push_element t f) r.0 [] r.1)
        write_vector
        IsVector
  sequence-Inverts stream h =
      after_size stream (read_scalar size_t stream) (read_scalar-Inverts size_t stream h)

text-Undoes :
    (stream rest : List ℕ) (size : ℕ) (o : Option (List ℕ × List ℕ))
    → stream ≡ to_bytes size_t size ++ rest
    → size < 256 ^ size_t
    → Cuts size rest o
    → Undoes (λ s. to_bytes size_t (length s) ++ s) (λ s. length s < 256 ^ size_t) stream o
text-Undoes stream rest size none e small c = tt
text-Undoes stream rest size (some (bs, left)) e small c =
    (rw c.1 (rw append_assoc (e ∙ ap (λ r. to_bytes size_t size ++ r) c.0)), rw c.1 small, c.3)

pub after_text :
    (stream : List ℕ) (o : Option (ℕ × List ℕ))
    → Undoes (to_bytes size_t) (λ x. x < 256 ^ size_t) stream o
    → Undoes
        (λ s. to_bytes size_t (length s) ++ s)
        (λ s. length s < 256 ^ size_t)
        stream
        (o >>= λ r. read r.0 r.1)
after_text stream none u = tt
after_text stream (some (size, rest)) u =
    text-Undoes stream rest size (read size rest) u.0 u.1 (read-Cuts size rest u.2)
