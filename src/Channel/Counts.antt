-- ===== src/Channel/Counts.antt =====
-- How many channels of libhdk/channel/channel.cpp hold an implementation, as objects come and go.
use debianbox.Base.{
  ℕ, ◌+◌, ◌≡◌, refl, ap, arith, List, [], ◌∷◌, Option, none, some, ◌==◌, Bool-cases, inl, inr,
}
use debianbox.Channel.{points, count, m_impl, set_impl, drop_handle}

some_inj : (k m : Option ℕ) → some k ≡ some m → k ≡ m
some_inj k m e = ap (λ o. elim o [ none ↦ k | some x ↦ x ]) e

pub count-drop_handle :
    (i c : ℕ) (m : Option ℕ) (hs : List (ℕ × Option ℕ))
    → m_impl c hs ≡ some m
    → count i hs ≡ points i m + count i (drop_handle c hs)
unfolding count m_impl drop_handle
count-drop_handle i c m [] e = cc
count-drop_handle i c m ((d, k) ∷ rest) e = elim (Bool-cases (d == c)) [
  | inl same ↦ rw (same, some_inj k m (rw same at e)) refl
  | inr differs ↦ rw differs (omega (arith, count-drop_handle i c m rest (rw differs at e)))
]

pub count-set_impl :
    (i c : ℕ) (m k : Option ℕ) (hs : List (ℕ × Option ℕ))
    → m_impl c hs ≡ some m
    → count i (set_impl c k hs) + points i m ≡ points i k + count i hs
unfolding count m_impl set_impl
count-set_impl i c m k [] e = cc
count-set_impl i c m k ((d, l) ∷ rest) e = elim (Bool-cases (d == c)) [
  | inl same ↦ rw (same, some_inj l m (rw same at e)) (omega arith)
  | inr differs ↦ rw differs (omega (arith, count-set_impl i c m k rest (rw differs at e)))
]
