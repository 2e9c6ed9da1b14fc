-- ===== src/Brocker/Removal.antt =====
-- `brocker_manager::remove` of libhdk/brocker/brocker_manager.cpp, which the destructor of a broker
-- calls: two nested loops over iterators, one step at a time.
use debianbox.Base.{
  ℕ, zero, suc, ◌+◌, ◌≡◌, ◌≢◌, refl, ap, ◌∙◌, arith, List, [], ◌∷◌, ◌++◌, length, length-append,
  append_assoc, Option, none, some, false, ◌==◌, if◌then◌else◌, get_elem?, Bool-cases, inl, inr,
  ◌⊎◌, ==_iff, subst,
}
use debianbox.Brocker.Registry.{BrockerMap, contains, find, is_empty}

-- `*it`, `erase(it)` and a write through `it`, for an iterator at an index.
unfoldable pub erase_at {ℓ} : {A : Type ℓ} → ℕ → List A → List A
erase_at i [] = []
erase_at zero (x ∷ xs) = xs
erase_at (suc i) (x ∷ xs) = x ∷ erase_at i xs

unfoldable pub store_at {ℓ} : {A : Type ℓ} → ℕ → A → List A → List A
store_at i y [] = []
store_at zero y (x ∷ xs) = y ∷ xs
store_at (suc i) y (x ∷ xs) = x ∷ store_at i y xs

-- `map_it` is an index into the registry. `vec_it` is a position in the list of the entry whose key
-- is `owner`: an iterator belongs to one list for good.
pub data Cursor : Type 0 where
  outer : BrockerMap → ℕ → Cursor
  inner : BrockerMap → ℕ → ℕ → ℕ → Cursor

pub data Progress : Type 0 where
  returned : BrockerMap → Progress
  undefined : Progress
  running : Cursor → Progress

-- The body of the inner loop, with `vec_it` in the list of the entry at `map_it`.
unfoldable pub visit : ℕ → BrockerMap → ℕ → ℕ → ℕ → List ℕ → Option ℕ → Progress
unfolding erase_at store_at
visit b m i owner j bs none = running (outer m i)
visit b m i owner j bs (some c) =
    let left = erase_at j bs in
    if c == b
    then if is_empty left
      then running (inner (erase_at i m) i owner j)
      else running (inner (store_at i (owner, left) m) (i + 1) owner j)
    else running (inner m i owner (j + 1))

-- The test `vec_it != map_it->second.end()`: undefined if `map_it` is at the end, or if `vec_it` is
-- not of the list that `map_it` is at by now.
unfoldable pub enter : ℕ → BrockerMap → ℕ → ℕ → ℕ → Option (ℕ × List ℕ) → Progress
unfolding visit
enter b m i owner j none = undefined
enter b m i owner j (some (k, bs)) =
    if k == owner then visit b m i owner j bs (get_elem? bs j) else undefined

abbrev begin_inner : BrockerMap → ℕ → Option (ℕ × List ℕ) → Progress
begin_inner m i none = returned m
begin_inner m i (some (k, bs)) = running (inner m i k 0)

unfoldable pub step : ℕ → Cursor → Progress
unfolding enter
step b (outer m i) = begin_inner m i (get_elem? m i)
step b (inner m i owner j) = enter b m i owner j (get_elem? m i)

-- So many steps.
unfoldable pub remove : ℕ → ℕ → Progress → Progress
unfolding step
remove zero b p = p
remove (suc n) b (returned m) = returned m
remove (suc n) b undefined = undefined
remove (suc n) b (running c) = remove n b (step b c)

-- A head that no later entry repeats.
abbrev pub HasHead : BrockerMap → ℕ → Type 0
HasHead [] k = ⊥
HasHead ((t, bs) ∷ m) k = (t ≡ k) × (find k m ≡ none)

-- The next test is undefined.
abbrev Stray : BrockerMap → ℕ → ℕ → Type 0
Stray m i owner = (bs : List ℕ) → get_elem? m i ≢ some (owner, bs)

-- The cursors that occur on a registry with an entry.
abbrev Occurs : Cursor → Type 0
Occurs (outer m i) = (i ≡ 0) × ((k : ℕ) × HasHead m k)
Occurs (inner m i owner j) = ((i ≡ 0) × HasHead m owner) ⊎ Stray m i owner

abbrev OccursAt : Progress → Type 0
OccursAt (returned m) = ⊥
OccursAt undefined = Unit {0}
OccursAt (running c) = Occurs c

get_elem?-find :
    (m : BrockerMap) (i t : ℕ) (bs : List ℕ) → find t m ≡ none → get_elem? m i ≢ some (t, bs)
unfolding find
get_elem?-find [] i t bs h e = cc
get_elem?-find ((k, cs) ∷ m) zero t bs h e = ground arith
get_elem?-find ((k, cs) ∷ m) (suc i) t bs h e = get_elem?-find m i t bs (ground arith) e

enter-OccursAt_stray :
    (b : ℕ) (m : BrockerMap) (i owner j : ℕ) (o : Option (ℕ × List ℕ))
    → ((bs : List ℕ) → o ≢ some (owner, bs))
    → OccursAt (enter b m i owner j o)
unfolding enter
enter-OccursAt_stray b m i owner j none h = tt
enter-OccursAt_stray b m i owner j (some (k, bs)) h = elim (Bool-cases (k == owner)) [
  | inl same ↦ absurd (h bs (ground (arith, same)))
  | inr other ↦ rw other tt
]

visit-OccursAt :
    (b t : ℕ) (bs : List ℕ) (m : BrockerMap) (owner j : ℕ) (o : Option ℕ)
    → HasHead ((t, bs) ∷ m) owner
    → OccursAt (visit b ((t, bs) ∷ m) 0 owner j bs o)
unfolding visit erase_at store_at
visit-OccursAt b t bs m owner j none h = (refl, (owner, h))
visit-OccursAt b t bs m owner j (some c) h = elim (Bool-cases (c == b)) [
  | inr other ↦ rw other (inl (refl, h))
  | inl hit ↦ rw hit (elim (Bool-cases (is_empty (erase_at j bs))) [
    | inl last ↦ rw last (inr (λ cs. get_elem?-find m 0 owner cs h.1))
    | inr more ↦ rw more (inr (λ cs. get_elem?-find m 0 owner cs h.1))
  ])
]

step-OccursAt : (b : ℕ) (c : Cursor) → Occurs c → OccursAt (step b c)
unfolding step
step-OccursAt b (outer [] i) (e, (k, h)) = h
step-OccursAt b (outer ((t, bs) ∷ m) zero) (e, (k, h)) = inl (refl, (refl, rw h.0 h.1))
step-OccursAt b (outer ((t, bs) ∷ m) (suc i)) (e, (k, h)) = absurd (omega arith)
step-OccursAt b (inner m i owner j) (inr s) = enter-OccursAt_stray b m i owner j _ s
step-OccursAt b (inner [] i owner j) (inl (e, h)) = absurd h
step-OccursAt b (inner ((t, bs) ∷ m) (suc i) owner j) (inl (e, h)) = absurd (omega arith)
step-OccursAt b (inner ((t, bs) ∷ m) zero owner j) (inl (e, h)) =
    unfold enter in rw ((==_iff t owner).1 h.0) (visit-OccursAt b t bs m owner j (get_elem? bs j) h)

remove-OccursAt : (n b : ℕ) (p : Progress) → OccursAt p → OccursAt (remove n b p)
unfolding remove
remove-OccursAt zero b p h = h
remove-OccursAt (suc n) b (returned m) h = h
remove-OccursAt (suc n) b undefined h = tt
remove-OccursAt (suc n) b (running c) h = remove-OccursAt n b (step b c) (step-OccursAt b c h)

-- On a registry that has an entry, and whose first key is not repeated, `remove` never returns,
-- whatever broker is removed and however many steps it takes: it goes round its loops for ever or
-- compares iterators of two lists.
pub remove-ne-returned :
    (n b t : ℕ) (bs : List ℕ) (m result : BrockerMap)
    → find t m ≡ none
    → remove n b (running (outer ((t, bs) ∷ m) 0)) ≢ returned result
remove-ne-returned n b t bs m result h e =
    subst OccursAt e (remove-OccursAt n b (running (outer ((t, bs) ∷ m) 0)) (refl, (t, (refl, h))))

get_elem?-middle :
    (pre : List ℕ) (x : ℕ) (suf : List ℕ) → get_elem? (pre ++ x ∷ suf) (length pre) ≡ some x
get_elem?-middle [] x suf = refl
get_elem?-middle (y ∷ pre) x suf = get_elem?-middle pre x suf

get_elem?-end : (pre : List ℕ) → get_elem? (pre ++ []) (length pre) ≡ none
get_elem?-end [] = refl
get_elem?-end (y ∷ pre) = get_elem?-end pre

inner_step :
    (b t x : ℕ) (pre suf : List ℕ) (m : BrockerMap)
    → (x == b) ≡ false
    → step b (inner ((t, pre ++ x ∷ suf) ∷ m) 0 t (length pre))
      ≡ running (inner ((t, pre ++ x ∷ suf) ∷ m) 0 t (length pre + 1))
unfolding step enter visit
inner_step b t x pre suf m other =
    rw ((==_iff t t).1 refl, get_elem?-middle pre x suf, visit, other) refl

inner_stop :
    (b t : ℕ) (pre : List ℕ) (m : BrockerMap)
    → step b (inner ((t, pre ++ []) ∷ m) 0 t (length pre)) ≡ running (outer ((t, pre ++ []) ∷ m) 0)
unfolding step enter visit
inner_stop b t pre m = rw ((==_iff t t).1 refl, get_elem?-end pre, visit) refl

inner_loop :
    (b t : ℕ) (pre suf : List ℕ) (m : BrockerMap)
    → contains b suf ≡ false
    → remove (suc (length suf)) b (running (inner ((t, pre ++ suf) ∷ m) 0 t (length pre)))
      ≡ running (outer ((t, pre ++ suf) ∷ m) 0)
unfolding remove contains
inner_loop b t pre [] m h = inner_stop b t pre m
inner_loop b t pre (x ∷ suf) m h =
    ap (remove (suc (length suf)) b) (inner_step b t x pre suf m (ground arith))
    ∙ rw (next, ← append_assoc pre (x ∷ []) suf)
        (inner_loop b t (pre ++ x ∷ []) suf m (ground arith))
  where
    next : length pre + 1 ≡ length (pre ++ x ∷ [])
    next = omega (arith, length-append pre (x ∷ []))
