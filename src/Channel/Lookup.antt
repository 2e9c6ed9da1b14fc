-- ===== src/Channel/Lookup.antt =====
-- What `make` and `get` of libhdk/channel/channel.cpp find, and which names are free.
use debianbox.Base.{
  some_eq, ℕ, ◌<◌, ◌≡◌, ◌↔◌, refl, sym, ap, ◌∙◌, arith, List, Option, none, some, true, false, ◌==◌,
  ==_iff, Bool-cases, inl, inr,
}
use debianbox.Channel.{
  ImplKind, Channels, find, points, count, m_impl, set_impl, construct, release_name, destroy,
  assign, make, made, lock, get, valid,
}
use debianbox.Channel.Names.{find-erase}
use debianbox.Channel.Counts.{count-set_impl}
use debianbox.Channel.Lifetime.{IsCoherent, none-some}

pub m_impl-construct :
    (c : ℕ) (m : Option ℕ) (s : Channels) → m_impl c (construct c m s).handles ≡ some m
unfolding m_impl construct
m_impl-construct c m s = rw ((==_iff c c).1 refl)

lock-dead : (i : ℕ) (s : Channels) → count i s.handles ≡ 0 → lock (some i) s.handles ≡ none
unfolding lock
lock-dead i s e = rw (e, lock)

pub points_self : (i : ℕ) → points i (some i) ≡ 1
points_self i = rw ((==_iff i i).1 refl)

lock-live : (i : ℕ) (s : Channels) → 0 < count i s.handles → lock (some i) s.handles ≡ some i
unfolding lock
lock-live i s l = ground arith

some_inj : (k m : Option ℕ) → some k ≡ some m → k ≡ m
some_inj k m e = ap (λ o. elim o [ none ↦ k | some x ↦ x ]) e

lock-some : (o : Option ℕ) (i : ℕ) (hs : List (ℕ × Option ℕ)) → lock o hs ≡ some i → o ≡ some i
unfolding lock
lock-some none i hs e = e
lock-some (some j) i hs e = elim (Bool-cases (count j hs == 0)) [
  | inl gone ↦ absurd (none-some i (rw (gone, lock) at e))
  | inr held ↦ rw (held, lock) at e
]

pub get-held :
    (c i : ℕ) (s : Channels)
    → IsCoherent s
    → 0 < count i s.handles
    → get (s.impls i).name c s ≡ construct c (some i) s
unfolding get
get-held c i s h l =
    ap (λ o. construct c o s) (ap (λ o. lock o s.handles) (h.1 i l).0 ∙ lock-live i s l)

-- `get` gives a channel that holds an implementation exactly if some channel holds it and it has
-- the name.
pub get_iff :
    (n : List ℕ) (c i : ℕ) (s : Channels)
    → IsCoherent s
    → (m_impl c (get n c s).handles ≡ some (some i))
      ↔ ((0 < count i s.handles) × ((s.impls i).name ≡ n))
unfolding get
get_iff n c i s h = (
  (λ e. h.0 n i (
      lock-some (find n s.g_channels) i s.handles
        (some_inj _ _ (sym (m_impl-construct c (lock (find n s.g_channels) s.handles) s) ∙ e)))),
  (λ l.
      m_impl-construct c (lock (find n s.g_channels) s.handles) s
      ∙ ap some (
          ap (λ o. lock o s.handles) (ap (λ k. find k s.g_channels) (sym l.1) ∙ (h.1 i l.0).0)
          ∙ lock-live i s l.0)),
)

valid-of_impl :
    (c : ℕ) (i : ℕ) (s : Channels) → m_impl c s.handles ≡ some (some i) → valid c s ≡ some true
unfolding valid
valid-of_impl c i s e = rw (e, valid)

valid-of_null : (c : ℕ) (s : Channels) → m_impl c s.handles ≡ some none → valid c s ≡ some false
unfolding valid
valid-of_null c s e = rw (e, valid)

make-unused :
    (kind : ImplKind) (n : List ℕ) (c : ℕ) (s : Channels)
    → find n s.g_channels ≡ none
    → valid c (make kind n c s) ≡ some true
unfolding make
make-unused kind n c s e =
    rw (e, make) (valid-of_impl c s.next _ (m_impl-construct c (some s.next) (made kind n s)))

make-taken :
    (kind : ImplKind) (n : List ℕ) (c i : ℕ) (s : Channels)
    → find n s.g_channels ≡ some i
    → make kind n c s ≡ construct c none s
unfolding make
make-taken kind n c i s e = rw (e, make)

-- The name of an implementation that some channel holds is taken: `make` gives a channel that is
-- not valid, and changes nothing else.
pub make-held :
    (kind : ImplKind) (c i : ℕ) (s : Channels)
    → IsCoherent s
    → 0 < count i s.handles
    → (make kind (s.impls i).name c s ≡ construct c none s)
      × (valid c (make kind (s.impls i).name c s) ≡ some false)
make-held kind c i s h l =
    let same = make-taken kind (s.impls i).name c i s (h.1 i l).0 in
    (same, rw same (valid-of_null c (construct c none s) (m_impl-construct c none s)))

-- When the last channel of an implementation is destroyed its name is free: `make` with that name
-- gives a valid channel again.
pub make-destroy :
    (kind : ImplKind) (c d j : ℕ) (s t : Channels)
    → m_impl c s.handles ≡ some (some j)
    → count j s.handles ≡ 1
    → destroy c s ≡ some t
    → valid d (make kind (s.impls j).name d t) ≡ some true
unfolding destroy release_name
make-destroy kind c d j s t found last e = make-unused kind (s.impls j).name d t (
    ap (find (s.impls j).name)
      (sym (ap (λ u. u.g_channels) (some_eq _ t (rw (found, destroy, last, release_name) at e))))
    ∙ find-erase (s.impls j).name s.g_channels)

-- If the last channel of an implementation is assigned another one, the implementation is gone but
-- its name stays in the registry: `make` with that name gives a channel that is not valid, and so
-- does `get`.
pub assign-stale :
    (kind : ImplKind) (c from d j : ℕ) (m : Option ℕ) (s : Channels)
    → IsCoherent s
    → m_impl c s.handles ≡ some (some j)
    → m_impl from s.handles ≡ some m
    → points j m ≡ 0
    → count j s.handles ≡ 1
    → (t : Channels) × (assign c from s ≡ some t)
      × (count j t.handles ≡ 0)
      × (valid d (make kind (s.impls j).name d t) ≡ some false)
      × (valid d (get (s.impls j).name d t) ≡ some false)
unfolding assign get lock
assign-stale kind c from d j m s h found source other last =
    let stale = (h.1 j (omega (arith, last))).0 in
    let t : Channels = record s { handles = set_impl c m s.handles } in
    let empty : count j t.handles ≡ 0 =
      omega (arith, count-set_impl j c (some j) m s.handles found, points_self j) in
    (
      t,
      rw (source, assign),
      empty,
      rw (make-taken kind (s.impls j).name d j t stale)
          (valid-of_null d (construct d none t) (m_impl-construct d none t)),
      valid-of_null d (get (s.impls j).name d t) (
          m_impl-construct d (lock (find (s.impls j).name t.g_channels) t.handles) t
          ∙ ap some (ap (λ o. lock o t.handles) stale ∙ lock-dead j t empty)),
    )
