-- ===== src/Brocker/Subscriptions.antt =====
-- The registry as a set of pairs of a message type and a broker: what each operation does to it,
-- and the invariant that this needs.
use debianbox.Base.{
  ℕ, ◌≡◌, refl, arith, List, [], ◌∷◌, ◌++◌, none, some, false, not, ◌&&◌, ◌||◌, ◌==◌, if◌then◌else◌,
  Bool-cases, Option-cases, inl, inr, subst,
}
use debianbox.Brocker.Registry.{
  BrockerMap, contains, find, or_empty, touch, assign, erase, erase_first, is_empty, reg, unreg,
  clone, subscribed,
}

-- No entry of the key.
abbrev pub IsAbsent : ℕ → BrockerMap → Type 0
IsAbsent t m = find t m ≡ none

abbrev pub Distinct : List ℕ → Type 0
Distinct [] = Unit {0}
Distinct (b ∷ bs) = (contains b bs ≡ false) × Distinct bs

-- Keys differ, no list is empty, and no broker stands twice in one.
abbrev pub IsWellFormed : BrockerMap → Type 0
IsWellFormed [] = Unit {0}
IsWellFormed ((t, bs) ∷ m) = IsAbsent t m × (is_empty bs ≡ false) × Distinct bs × IsWellFormed m

pub contains-append :
    (b : ℕ) (xs : List ℕ) (c : ℕ) → contains b (xs ++ c ∷ []) ≡ (contains b xs || c == b)
unfolding contains
contains-append b [] c = ground arith
contains-append b (x ∷ xs) c = ground (arith, contains-append b xs c)

pub find-touch : (t u : ℕ) (m : BrockerMap) → or_empty (find u (touch t m)) ≡ or_empty (find u m)
unfolding find touch
find-touch t u [] = ground arith
find-touch t u ((j, bs) ∷ m) = ground (arith, find-touch t u m)

find-touch_self : (t : ℕ) (m : BrockerMap) → find t (touch t m) ≡ some (or_empty (find t m))
unfolding find touch
find-touch_self t [] = ground arith
find-touch_self t ((j, bs) ∷ m) = ground (arith, find-touch_self t m)

find-assign :
    (t u : ℕ) (cs : List ℕ) (m : BrockerMap) (bs : List ℕ)
    → find t m ≡ some bs
    → find u (assign t cs m) ≡ (if t == u then some cs else find u m)
unfolding find assign
find-assign t u cs [] bs h = cc
find-assign t u cs ((j, ds) ∷ m) bs h = ground (arith, find-assign t u cs m bs)

-- After `reg` a broker is registered for a message type exactly if it was before or they are the
-- broker and the type of the call.
pub subscribed-reg :
    (b t : ℕ) (m : BrockerMap) (u c : ℕ)
    → subscribed (reg b t m) u c ≡ (subscribed m u c || (t == u && b == c))
unfolding subscribed reg
subscribed-reg b t m u c = elim (Bool-cases (contains b (or_empty (find t m)))) [
  | inl old ↦ ground (arith, old, find-touch t t m, find-touch t u m)
  | inr new ↦ ground (
    arith,
    new,
    find-touch t t m,
    find-touch t u m,
    find-touch_self t m,
    find-assign t u (or_empty (find t (touch t m)) ++ b ∷ []) (touch t m) (or_empty (find t m)),
    contains-append c (or_empty (find t m)) b,
  )
]

pub find-erase :
    (t u : ℕ) (m : BrockerMap)
    → IsWellFormed m
    → find u (erase t m) ≡ (if t == u then none else find u m)
unfolding find erase
find-erase t u [] w = ground arith
find-erase t u ((j, bs) ∷ m) w = ground (arith, find-erase t u m w.3, w.0)

pub contains-erase_first :
    (b c : ℕ) (bs : List ℕ)
    → Distinct bs
    → contains c (erase_first b bs) ≡ (contains c bs && not (b == c))
unfolding contains erase_first
contains-erase_first b c [] d = refl
contains-erase_first b c (x ∷ bs) d = ground (arith, contains-erase_first b c bs d.1, d.0)

-- A list found in a well-formed registry.
pub find-IsWellFormed :
    (t : ℕ) (m : BrockerMap) (bs : List ℕ)
    → IsWellFormed m
    → find t m ≡ some bs
    → (is_empty bs ≡ false) × Distinct bs
unfolding find
find-IsWellFormed t [] bs w e = cc
find-IsWellFormed t ((j, cs) ∷ m) bs w e = elim (Bool-cases (j == t)) [
  | inl hit ↦
      let same : cs ≡ bs = ground (arith, hit) in
      subst (λ x. (is_empty x ≡ false) × Distinct x) same (w.1, w.2)
  | inr miss ↦ find-IsWellFormed t m bs w.3 (ground (arith, miss))
]

-- After `unreg` on a well-formed registry a broker is registered for a message type exactly if it
-- was before and they are not the broker and the type of the call.
pub subscribed-unreg :
    (b t : ℕ) (m : BrockerMap) (u c : ℕ)
    → IsWellFormed m
    → subscribed (unreg b t m) u c ≡ (subscribed m u c && not (t == u && b == c))
unfolding subscribed unreg
subscribed-unreg b t m u c w = elim (Option-cases (find t m)) [
  | inl absent ↦ rw (absent, unreg) (ground (arith, absent))
  | inr (bs, there) ↦
      let parts = find-IsWellFormed t m bs w there in
      let erased = contains-erase_first b c bs parts.1 in
      rw (there, unreg)
        (ground
          (arith, there, erased, find-erase t u m w, find-assign t u (erase_first b bs) m bs there))
]

-- After `clone` the new broker is registered wherever the old one is, and nothing else changes.
pub subscribed-clone :
    (from to : ℕ) (m : BrockerMap) (u c : ℕ)
    → subscribed (clone from to m) u c ≡ (subscribed m u c || (subscribed m u from && to == c))
unfolding subscribed clone find
subscribed-clone from to [] u c = refl
subscribed-clone from to ((j, bs) ∷ m) u c =
    ground (arith, subscribed-clone from to m u c, contains-append c bs to)
