-- ===== src/Marshall/Canonical/Messages.antt =====
-- Whole values and messages of libhdk/marshall/marshal.hpp, read of bytes that come from anywhere.
use debianbox.Base.{
  ℕ, ◌≡◌, refl, sym, ap, ◌∙◌, subst, List, [], ◌∷◌, ◌++◌, append_assoc, Option, none, some,
}
use debianbox.Marshall.{
  Ty, scalar, text, vector, dict, Vals, Platform, EvalOrder, first_to_last, last_to_first, size_t,
  ◌>>=◌, fresh, fresh_members, marshal_value, read_scalar, demarshal_value, marshal, demarshal,
}
use debianbox.Marshall.Roundtrip.{IsValid}
use debianbox.Marshall.Message.{AreValid}
use debianbox.Marshall.Canonical.{
  IsBytes, IsPlain, ArePlain, Undoes, Inverts, read_scalar-Inverts, after_text, sequence-Inverts,
}

-- Two values, one behind the other.
module _ {A B C : Type 0} (mk : A → B → C) (enc : A → List ℕ) (enc' : B → List ℕ)
    (whole : C → List ℕ) (V : A → Type 0) (V' : B → Type 0) (W : C → Type 0)
    (writes : (a : A) (b : B) → whole (mk a b) ≡ enc a ++ enc' b)
    (holds : (a : A) (b : B) → V a → V' b → W (mk a b)) where
  second-Undoes :
      (stream rest : List ℕ) (a : A) (o : Option (B × List ℕ))
      → stream ≡ enc a ++ rest
      → V a
      → Undoes enc' V' rest o
      → Undoes whole W stream (o >>= λ r. some (mk a r.0, r.1))
  second-Undoes stream rest a none e v u = tt
  second-Undoes stream rest a (some (b, left)) e v u = (
    e
        ∙ ap (λ r. enc a ++ r) u.0
        ∙ sym (append_assoc (enc a) (enc' b) left)
        ∙ ap (λ w. w ++ left) (sym (writes a b)),
    holds a b v u.1,
    u.2,
  )

  first-Undoes :
      (g : List ℕ → Option (B × List ℕ)) (stream : List ℕ) (o : Option (A × List ℕ))
      → Inverts g enc' V'
      → Undoes enc V stream o
      → Undoes whole W stream (o >>= λ r. g r.1 >>= λ q. some (mk r.0 q.0, q.1))
  first-Undoes g stream none k u = tt
  first-Undoes g stream (some (a, rest)) k u =
      second-Undoes stream rest a (g rest) u.0 u.1 (k rest u.2)

module _ (p : Platform) where
  value-Inverts :
      (t : Ty)
      → IsPlain t
      → Inverts (demarshal_value p t (fresh t)) (marshal_value p t) (IsValid p t)
  unfolding demarshal_value marshal_value
  value-Inverts (scalar n) s stream h = read_scalar-Inverts n stream h
  value-Inverts text s stream h =
      after_text stream (read_scalar size_t stream) (read_scalar-Inverts size_t stream h)
  value-Inverts (vector (scalar n)) s stream h =
      sequence-Inverts (scalar n) (demarshal_value p (scalar n)) (marshal_value p (scalar n))
        (IsValid p (scalar n)) (value-Inverts (scalar n) s) stream h
  value-Inverts (vector text) s stream h =
      sequence-Inverts text (demarshal_value p text) (marshal_value p text) (IsValid p text)
        (value-Inverts text s) stream h
  value-Inverts (vector (vector t)) s stream h =
      sequence-Inverts (vector t) (demarshal_value p (vector t)) (marshal_value p (vector t))
        (IsValid p (vector t)) (value-Inverts (vector t) s) stream h
  value-Inverts (vector (dict k v)) s stream h = elim s [ ]
  value-Inverts (dict k v) s stream h = elim s [ ]

  members-Inverts :
      (order : EvalOrder) (ts : List Ty)
      → ArePlain ts
      → Inverts (demarshal p order ts (fresh_members ts)) (marshal p order ts) (AreValid p ts)
  unfolding demarshal marshal
  members-Inverts first_to_last [] s stream h = (refl, tt, h)
  members-Inverts last_to_first [] s stream h = (refl, tt, h)
  members-Inverts first_to_last (t ∷ ts) s stream h =
      first-Undoes (λ x m. (x, m)) (marshal_value p t) (marshal p first_to_last ts)
        (marshal p first_to_last (t ∷ ts)) (IsValid p t) (AreValid p ts) (AreValid p (t ∷ ts))
        (λ x m. refl) (λ x m v w. (v, w)) (demarshal p first_to_last ts (fresh_members ts)) stream
        (demarshal_value p t (fresh t) stream) (members-Inverts first_to_last ts s.1)
        (value-Inverts t s.0 stream h)
  members-Inverts last_to_first (t ∷ ts) s stream h =
      first-Undoes (λ m x. (x, m)) (marshal p last_to_first ts) (marshal_value p t)
        (marshal p last_to_first (t ∷ ts)) (AreValid p ts) (IsValid p t) (AreValid p (t ∷ ts))
        (λ m x. refl) (λ m x w v. (v, w)) (demarshal_value p t (fresh t)) stream
        (demarshal p last_to_first ts (fresh_members ts) stream) (value-Inverts t s.0)
        (members-Inverts last_to_first ts s.1 stream h)

  -- Whatever bytes arrive: if a message without maps is read from them, its members are in range,
  -- and the bytes that were read are exactly those that a sender of these members would have
  -- written, followed by what is left. Both ends evaluate arguments in one order.
  pub marshal-demarshal :
      (order : EvalOrder) (ts : List Ty) (stream rest : List ℕ) (members : Vals ts)
      → ArePlain ts
      → IsBytes stream
      → demarshal p order ts (fresh_members ts) stream ≡ some (members, rest)
      → AreValid p ts members × (stream ≡ marshal p order ts members ++ rest)
  marshal-demarshal order ts stream rest members s h e =
      let u =
        subst (Undoes (marshal p order ts) (AreValid p ts) stream) e
          (members-Inverts order ts s stream h) in
      (u.1, u.0)
