-- ===== src/Brocker/Invariant.antt =====
-- Each operation on the registry keeps it well formed.
use debianbox.Base.{
  ℕ, ◌≡◌, ◌≢◌, refl, ◌∙◌, arith, List, [], ◌∷◌, ◌++◌, none, some, false, ◌==◌, Bool-cases, ==_iff,
  Option-cases, inl, inr,
}
use debianbox.Brocker.Registry.{
  BrockerMap, contains, find, touch, assign, erase, erase_first, is_empty, reg, unreg, clone,
}
use debianbox.Brocker.Subscriptions.{
  Distinct, IsWellFormed, contains-append, contains-erase_first, find-erase, find-touch,
  find-IsWellFormed,
}

find-touch_ne : (t j : ℕ) (m : BrockerMap) → j ≢ t → find j (touch t m) ≡ find j m
unfolding find touch
find-touch_ne t j [] h = ground arith
find-touch_ne t j ((k, bs) ∷ m) h = ground (arith, find-touch_ne t j m h)

find-assign_ne :
    (t j : ℕ) (cs : List ℕ) (m : BrockerMap) → j ≢ t → find j (assign t cs m) ≡ find j m
unfolding find assign
find-assign_ne t j cs [] h = refl
find-assign_ne t j cs ((k, bs) ∷ m) h = ground (arith, find-assign_ne t j cs m h)

touch_of_find : (t : ℕ) (m : BrockerMap) (bs : List ℕ) → find t m ≡ some bs → touch t m ≡ m
unfolding find touch
touch_of_find t [] bs e = cc
touch_of_find t ((j, cs) ∷ m) bs e = ground (arith, touch_of_find t m bs)

Distinct-append :
    (b : ℕ) (bs : List ℕ) → Distinct bs → contains b bs ≡ false → Distinct (bs ++ b ∷ [])
unfolding contains
Distinct-append b [] d h = (refl, tt)
Distinct-append b (x ∷ bs) d h =
    (ground (arith, contains-append x bs b, d.0), Distinct-append b bs d.1 (ground arith))

Distinct-erase_first : (b : ℕ) (bs : List ℕ) → Distinct bs → Distinct (erase_first b bs)
unfolding erase_first
Distinct-erase_first b [] d = tt
Distinct-erase_first b (x ∷ bs) d = elim (Bool-cases (x == b)) [
  | inl hit ↦ rw hit d.1
  | inr miss ↦
      rw miss (ground (arith, contains-erase_first b x bs d.1, d.0), Distinct-erase_first b bs d.1)
]

is_empty-append : (bs : List ℕ) (b : ℕ) → is_empty (bs ++ b ∷ []) ≡ false
is_empty-append [] b = refl
is_empty-append (x ∷ bs) b = refl

module _ (t : ℕ) (cs : List ℕ) (filled : is_empty cs ≡ false) (distinct : Distinct cs) where
  assign-IsWellFormed : (m : BrockerMap) → IsWellFormed m → IsWellFormed (assign t cs m)
  unfolding assign
  assign-IsWellFormed [] w = tt
  assign-IsWellFormed ((j, bs) ∷ m) w = elim (Bool-cases (j == t)) [
    | inl hit ↦ rw hit (w.0, filled, distinct, w.3)
    | inr miss ↦
        rw miss
          (find-assign_ne t j cs m (λ e. ground arith) ∙ w.0, w.1, w.2, assign-IsWellFormed m w.3)
  ]

  assign-touch-IsWellFormed :
      (m : BrockerMap) → IsWellFormed m → IsWellFormed (assign t cs (touch t m))
  unfolding assign touch find
  assign-touch-IsWellFormed [] w = rw ((==_iff t t).1 refl) (refl, filled, distinct, tt)
  assign-touch-IsWellFormed ((j, bs) ∷ m) w = elim (Bool-cases (j == t)) [
    | inl hit ↦ rw (hit, hit) (w.0, filled, distinct, w.3)
    | inr miss ↦
        rw (miss, miss)
          (
            find-assign_ne t j cs (touch t m) (λ e. ground arith)
                ∙ find-touch_ne t j m (λ e. ground arith)
                ∙ w.0,
            w.1,
            w.2,
            assign-touch-IsWellFormed m w.3,
          )
  ]

erase-IsWellFormed : (t : ℕ) (m : BrockerMap) → IsWellFormed m → IsWellFormed (erase t m)
unfolding erase
erase-IsWellFormed t [] w = tt
erase-IsWellFormed t ((j, bs) ∷ m) w = elim (Bool-cases (j == t)) [
  | inl hit ↦ rw hit w.3
  | inr miss ↦
      rw miss
        (ground (arith, miss, find-erase t j m w.3, w.0), w.1, w.2, erase-IsWellFormed t m w.3)
]

-- `reg` keeps the registry well formed.
pub reg-IsWellFormed : (b t : ℕ) (m : BrockerMap) → IsWellFormed m → IsWellFormed (reg b t m)
unfolding reg contains
reg-IsWellFormed b t m w = elim (Option-cases (find t m)) [
  | inl absent ↦
      rw (find-touch t t m, absent) (assign-touch-IsWellFormed t (b ∷ []) refl (refl, tt) m w)
  | inr (bs, there) ↦
      let parts = find-IsWellFormed t m bs w there in
      rw (touch_of_find t m bs there, there)
        (elim (Bool-cases (contains b bs)) [
          | inl old ↦ rw old w
          | inr new ↦ rw new (
              assign-IsWellFormed t (bs ++ b ∷ []) (is_empty-append bs b)
                (Distinct-append b bs parts.1 new) m w)
        ])
]

-- So does `unreg`, which drops an entry when its list becomes empty.
pub unreg-IsWellFormed : (b t : ℕ) (m : BrockerMap) → IsWellFormed m → IsWellFormed (unreg b t m)
unfolding unreg
unreg-IsWellFormed b t m w = elim (Option-cases (find t m)) [
  | inl absent ↦ rw (absent, unreg) w
  | inr (bs, there) ↦
      let parts = find-IsWellFormed t m bs w there in
      rw (there, unreg)
        (elim (Bool-cases (contains b bs)) [
          | inr other ↦ rw other w
          | inl held ↦ rw held (elim (Bool-cases (is_empty (erase_first b bs))) [
            | inl last ↦ rw last (erase-IsWellFormed t m w)
            | inr more ↦ rw more (
                assign-IsWellFormed t (erase_first b bs) more (Distinct-erase_first b bs parts.1) m
                  w)
          ])
        ])
]

find-clone-none :
    (from to j : ℕ) (m : BrockerMap) → find j m ≡ none → find j (clone from to m) ≡ none
unfolding find clone
find-clone-none from to j [] h = refl
find-clone-none from to j ((k, bs) ∷ m) h = ground (arith, find-clone-none from to j m)

-- A broker that is registered nowhere.
abbrev pub IsNew : ℕ → BrockerMap → Type 0
IsNew b [] = Unit {0}
IsNew b ((t, bs) ∷ m) = (contains b bs ≡ false) × IsNew b m

-- And `clone`, onto a broker that is not registered yet.
pub clone-IsWellFormed :
    (from to : ℕ) (m : BrockerMap) → IsNew to m → IsWellFormed m → IsWellFormed (clone from to m)
unfolding clone
clone-IsWellFormed from to [] n w = tt
clone-IsWellFormed from to ((t, bs) ∷ m) n w = elim (Bool-cases (contains from bs)) [
  | inl held ↦ rw held (
    find-clone-none from to t m w.0,
    is_empty-append bs to,
    Distinct-append to bs w.2 n.0,
    clone-IsWellFormed from to m n.1 w.3,
  )
  | inr other ↦
      rw other (find-clone-none from to t m w.0, w.1, w.2, clone-IsWellFormed from to m n.1 w.3)
]

-- The registries that histories of these operations lead to; a copy is registered for the first
-- time by `clone`, in its constructor.
pub data Reachable : BrockerMap → Type 0 where
  start : Reachable []
  registers : {m : BrockerMap} (b t : ℕ) → Reachable m → Reachable (reg b t m)
  unregisters : {m : BrockerMap} (b t : ℕ) → Reachable m → Reachable (unreg b t m)
  copies : {m : BrockerMap} (from to : ℕ) → IsNew to m → Reachable m → Reachable (clone from to m)

-- After any history of registrations, cancellations and copies the registry has one entry to a
-- message type, none of them empty, and in none a broker twice.
pub Reachable-IsWellFormed : {m : BrockerMap} → Reachable m → IsWellFormed m
Reachable-IsWellFormed start = tt
Reachable-IsWellFormed (registers {m} b t r) = reg-IsWellFormed b t m (Reachable-IsWellFormed r)
Reachable-IsWellFormed (unregisters {m} b t r) = unreg-IsWellFormed b t m (Reachable-IsWellFormed r)
Reachable-IsWellFormed (copies {m} from to n r) =
    clone-IsWellFormed from to m n (Reachable-IsWellFormed r)
