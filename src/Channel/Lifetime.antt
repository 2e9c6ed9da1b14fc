-- ===== src/Channel/Lifetime.antt =====
-- The names of libhdk/channel/channel.cpp and the lifetime of what they stand for.
use debianbox.Base.{
  some_eq, none-ne, ℕ, zero, suc, ◌+◌, ◌<◌, ◌≡◌, ◌≢◌, ◌↔◌, refl, sym, subst, ap, ◌∙◌, arith, List,
  ◌∷◌, Option, none, some, true, false, ◌==◌, ==_iff, Bool-cases, Option-cases, inl, inr,
}
use debianbox.Channel.{
  ImplKind, Channels, find, erase, points, count, m_impl, set_impl, drop_handle, construct, copy,
  move, release_name, destroy, drop_channel, make, made, lock, get,
}
use debianbox.Channel.Names.{find_here, find_past, find-erase, find-erase_other, text-cases}
use debianbox.Channel.Counts.{count-drop_handle, count-set_impl}

-- Every name stands for an implementation that some channel holds, and that has the name; every
-- implementation that some channel holds is found under its name, and was made before.
abbrev pub IsCoherent : Channels → Type 0
IsCoherent s =
    ((n : List ℕ) (i : ℕ)
      → find n s.g_channels ≡ some i
      → (0 < count i s.handles) × ((s.impls i).name ≡ n))
    × ((i : ℕ)
        → 0 < count i s.handles
        → (find (s.impls i).name s.g_channels ≡ some i) × (i < s.next))

-- Only the channels differ, and each implementation is held before and after, or never.
same_live :
    (s : Channels) (hs : List (ℕ × Option ℕ))
    → IsCoherent s
    → ((i : ℕ) → (0 < count i s.handles) ↔ (0 < count i hs))
    → IsCoherent (record s { handles = hs })
same_live s hs h live =
    ((λ n i e. ((live i).0 (h.0 n i e).0, (h.0 n i e).1)), (λ i l. h.1 i ((live i).1 l)))

pub construct-IsCoherent :
    (c : ℕ) (m : Option ℕ) (s : Channels)
    → IsCoherent s
    → ((i : ℕ) → 0 < points i m → 0 < count i s.handles)
    → IsCoherent (construct c m s)
unfolding construct count
construct-IsCoherent c m s h held =
    same_live s ((c, m) ∷ s.handles) h
      (λ i. ((λ l. omega arith), (λ l. positive (points i m) (count i s.handles) l (held i))))
  where
    positive : (a b : ℕ) → 0 < a + b → (0 < a → 0 < b) → 0 < b
    positive zero b l f = omega (arith, l)
    positive (suc a) b l f = f (omega arith)

pub none-some : (i : ℕ) → none ≢ some i
none-some i e = cc

pub some_id : (i j : ℕ) → some i ≡ some j → i ≡ j
some_id i j e = ap (λ o. elim o [ none ↦ i | some x ↦ x ]) e

pub copy-IsCoherent :
    (from c : ℕ) (s t : Channels) → copy from c s ≡ some t → IsCoherent s → IsCoherent t
unfolding copy
copy-IsCoherent from c s t e h = elim (Option-cases (m_impl from s.handles)) [
  | inl gone ↦ absurd (none-ne t (rw (gone, copy) at e))
  | inr (m, found) ↦ subst IsCoherent (some_eq (construct c m s) t (rw (found, copy) at e)) (
      construct-IsCoherent c m s h
        (λ i l. omega (arith, count-drop_handle i from m s.handles found)))
]

pub move-IsCoherent :
    (from c : ℕ) (s t : Channels) → move from c s ≡ some t → IsCoherent s → IsCoherent t
unfolding move construct count
move-IsCoherent from c s t e h = elim (Option-cases (m_impl from s.handles)) [
  | inl gone ↦ absurd (none-ne t (rw (gone, move) at e))
  | inr (m, found) ↦
      subst IsCoherent
        (some_eq (construct c m (record s { handles = set_impl from none s.handles })) t
          (rw (found, move) at e))
        (same_live s ((c, m) ∷ set_impl from none s.handles) h (λ i. (
          (λ l. omega (arith, count-set_impl i from m none s.handles found)),
          (λ l. omega (arith, count-set_impl i from m none s.handles found)),
        )))
]

drop-same :
    (c : ℕ) (m : Option ℕ) (s : Channels)
    → IsCoherent s
    → m_impl c s.handles ≡ some m
    → ((i : ℕ) → 0 < count i s.handles → 0 < count i (drop_handle c s.handles))
    → IsCoherent (record s { handles = drop_handle c s.handles })
drop-same c m s h found kept =
    same_live s (drop_handle c s.handles) h
      (λ i. (kept i, (λ l. omega (arith, count-drop_handle i c m s.handles found))))

-- The last channel of an implementation goes, and with it the name.
drop-last :
    (c j : ℕ) (s : Channels)
    → IsCoherent s
    → m_impl c s.handles ≡ some (some j)
    → count j s.handles ≡ 1
    → IsCoherent (record s {
      handles = drop_handle c s.handles;
      g_channels = erase (s.impls j).name s.g_channels;
    })
drop-last c j s h found last = (
  (λ n i e. elim (text-cases (s.impls j).name n) [
    | inl same ↦ absurd (none-some i (sym (find-erase n s.g_channels) ∙ rw same at e))
    | inr differs ↦
        let old = h.0 n i (sym (find-erase_other n (s.impls j).name s.g_channels differs) ∙ e) in
        (others i (λ e'. differs (ap (λ k. (s.impls k).name) (sym e') ∙ old.1)) old.0, old.1)
  ]),
  (λ i l.
      let live = before i l in
      let old = h.1 i live in
      (
        find-erase_other (s.impls i).name (s.impls j).name s.g_channels
              (λ e. alone i l (same_impl i e live))
            ∙ old.0,
        old.1,
      )),
)
  where
    before : (i : ℕ) → 0 < count i (drop_handle c s.handles) → 0 < count i s.handles
    before i l = omega (arith, count-drop_handle i c (some j) s.handles found)

    others : (i : ℕ) → i ≢ j → 0 < count i s.handles → 0 < count i (drop_handle c s.handles)
    others i ne l = ground (arith, count-drop_handle i c (some j) s.handles found)

    alone : (i : ℕ) → 0 < count i (drop_handle c s.handles) → i ≢ j
    alone i l e = ground (arith, count-drop_handle i c (some j) s.handles found)

    same_impl : (i : ℕ) → (s.impls j).name ≡ (s.impls i).name → 0 < count i s.handles → i ≡ j
    same_impl i e live =
        some_id i j
          (sym (h.1 i live).0 ∙ ap (λ n. find n s.g_channels) (sym e) ∙ (h.1 j (omega arith)).0)

pub destroy-IsCoherent :
    (c : ℕ) (s t : Channels) → destroy c s ≡ some t → IsCoherent s → IsCoherent t
unfolding destroy release_name
destroy-IsCoherent c s t e h = elim (Option-cases (m_impl c s.handles)) [
  | inl gone ↦ absurd (none-ne t (rw (gone, destroy) at e))
  | inr (m, found) ↦
      subst IsCoherent (some_eq (drop_channel c (release_name m s)) t (rw (found, destroy) at e))
        (dropped m found)
]
  where
    dropped :
        (m : Option ℕ)
        → m_impl c s.handles ≡ some m
        → IsCoherent (drop_channel c (release_name m s))
    dropped none found =
        drop-same c none s h found
          (λ i l. omega (arith, count-drop_handle i c none s.handles found))
    dropped (some j) found = elim (Bool-cases (count j s.handles == 1)) [
      | inl last ↦ rw last (drop-last c j s h found ((==_iff _ _).0 last))
      | inr more ↦ rw more (
          drop-same c (some j) s h found
            (λ i l. ground (arith, count-drop_handle i c (some j) s.handles found)))
    ]

made-IsCoherent :
    (kind : ImplKind) (n : List ℕ) (c : ℕ) (s : Channels)
    → find n s.g_channels ≡ none
    → IsCoherent s
    → IsCoherent (construct c (some s.next) (made kind n s))
unfolding construct count
made-IsCoherent kind n c s unused h = (
  (λ m i e. elim (text-cases n m) [
    | inl same ↦
        let i_next = some_id s.next i (sym (find_here n s.next s.g_channels) ∙ rw (← same) at e) in
        (rw (← i_next, self) (omega arith), rw (← i_next, self) same)
    | inr differs ↦
        let old = h.0 m i (sym (find_past m n s.next s.g_channels differs) ∙ e) in
        (omega (arith, old.0), rw (older i (h.1 i old.0).1) old.1)
  ]),
  (λ i l. elim (Bool-cases (s.next == i)) [
    | inl same ↦
        rw (same, ← (==_iff s.next i).0 same) (find_here n s.next s.g_channels, omega arith)
    | inr differs ↦
        let old = h.1 i (omega (arith, rw differs at l)) in
        rw differs (
          find_past (s.impls i).name n s.next s.g_channels
                (λ e. none-some i (sym unused ∙ ap (λ m. find m s.g_channels) e ∙ old.0))
              ∙ old.0,
          omega (arith, old.1),
        )
  ]),
)
  where
    self : (s.next == s.next) ≡ true
    self = (==_iff s.next s.next).1 refl

    older : (i : ℕ) → i < s.next → (s.next == i) ≡ false
    older i l = ground arith

pub make-IsCoherent :
    (kind : ImplKind) (n : List ℕ) (c : ℕ) (s : Channels)
    → IsCoherent s
    → IsCoherent (make kind n c s)
unfolding make
make-IsCoherent kind n c s h = elim (Option-cases (find n s.g_channels)) [
  | inr (i, taken) ↦
      rw (taken, make) (construct-IsCoherent c none s h (λ i l. absurd (omega (arith, l))))
  | inl unused ↦ rw (unused, make) (made-IsCoherent kind n c s unused h)
]

pub get-IsCoherent : (n : List ℕ) (c : ℕ) (s : Channels) → IsCoherent s → IsCoherent (get n c s)
unfolding get lock
get-IsCoherent n c s h =
    construct-IsCoherent c (lock (find n s.g_channels) s.handles) s h (held (find n s.g_channels))
  where
    held : (o : Option ℕ) (i : ℕ) → 0 < points i (lock o s.handles) → 0 < count i s.handles
    held none i l = absurd (omega (arith, l))
    held (some j) i l = ground arith
