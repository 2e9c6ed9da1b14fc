-- ===== src/Marshall/Message.antt =====
-- Whole messages: the members that HDK_MARSHAL lists, written and read in the order in which the
-- compiler evaluates the arguments of a call.
use debianbox.Base.{ℕ, ◌^◌, ◌<◌, ◌≡◌, refl, List, [], ◌∷◌, ◌++◌, append_assoc, append-nil, some}
use debianbox.Marshall.{
  Ty, scalar, Vals, Platform, EvalOrder, first_to_last, last_to_first, fresh_members, marshal_value,
  marshal, demarshal,
}
use debianbox.Marshall.Bytes.{to_bytes}
use debianbox.Marshall.Roundtrip.{IsSupported, IsValid, demarshal_value-marshal_value}

abbrev pub AreSupported : List Ty → Type 0
AreSupported [] = Unit {0}
AreSupported (t ∷ ts) = IsSupported t × AreSupported ts

module _ (p : Platform) where
  abbrev pub AreValid : (ts : List Ty) → Vals ts → Type 0
  AreValid [] members = Unit {0}
  AreValid (t ∷ ts) (x, members) = IsValid p t x × AreValid ts members

  -- If both ends evaluate arguments in one order, a message of supported members is read back as
  -- it was written, and the stream is left at what follows it.
  pub demarshal-marshal :
      (order : EvalOrder) (ts : List Ty) (members : Vals ts) (rest : List ℕ)
      → AreSupported ts
      → AreValid ts members
      → demarshal p order ts (fresh_members ts) (marshal p order ts members ++ rest)
        ≡ some (members, rest)
  unfolding demarshal marshal
  demarshal-marshal first_to_last [] members rest s h = refl
  demarshal-marshal last_to_first [] members rest s h = refl
  demarshal-marshal first_to_last (t ∷ ts) (x, members) rest s h =
      rw
        (
          append_assoc,
          demarshal_value-marshal_value p t x (marshal p first_to_last ts members ++ rest) s.0 h.0,
          demarshal-marshal first_to_last ts members rest s.1 h.1,
        )
        refl
  demarshal-marshal last_to_first (t ∷ ts) (x, members) rest s h =
      rw
        (
          append_assoc,
          demarshal-marshal last_to_first ts members (marshal_value p t x ++ rest) s.1 h.1,
          demarshal_value-marshal_value p t x rest s.0 h.0,
        )
        refl

  -- If the writer evaluates arguments from the first to the last and the reader from the last to
  -- the first, two members of one size come back exchanged, and nothing reports it.
  pub demarshal-other_order :
      (n x y : ℕ)
      → x < 256 ^ n
      → y < 256 ^ n
      → demarshal p last_to_first
          (scalar n ∷ scalar n ∷ [])
          (0, (0, tt))
          (marshal p first_to_last (scalar n ∷ scalar n ∷ []) (x, (y, tt)))
        ≡ some ((y, (x, tt)), [])
  unfolding demarshal marshal
  demarshal-other_order n x y hx hy =
      rw
        (
          demarshal_value-marshal_value p (scalar n) x (marshal_value p (scalar n) y ++ []) tt hx,
          demarshal_value-marshal_value p (scalar n) y [] tt hy,
        )
        refl

  -- One plain member is its bytes alone.
  pub marshal-scalar :
      (order : EvalOrder) (n x : ℕ) → marshal p order (scalar n ∷ []) (x, tt) ≡ to_bytes n x
  unfolding marshal marshal_value
  marshal-scalar first_to_last n x = append-nil (to_bytes n x)
  marshal-scalar last_to_first n x = refl
