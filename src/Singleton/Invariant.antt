-- ===== src/Singleton/Invariant.antt =====
-- What holds between two turns of the threads in `instance()` of libhdk/singleton.hpp.
use debianbox.Base.{
  ℕ, suc, ◌≤◌, ◌≡◌, ◌≢◌, ◌⊎◌, inl, inr, refl, sym, ap, ◌∙◌, subst, arith, List, [], ◌∷◌, Option,
  none, some, ◌==◌, ==_iff, Bool-cases, Option-cases, some_eq, none-ne, clash,
}
use debianbox.Singleton.{
  Memory, Pc, entering, testing, locking, locked, retesting, making, storing, unlocking, reading,
  returned, thrown, move, fail, System, update, arrive, Turn, goes, fails, step, run, start,
}

-- No object yet, or the one, which the pointer has.
abbrev IsBare : Memory → Type 0
IsBare m = (m.s_object ≡ none) × (m.constructed ≡ 0)

abbrev IsMade : Memory → Type 0
IsMade m = (m.s_object ≡ some 0) × (m.constructed ≡ 1)

abbrev Held : ℕ → Memory → Type 0
Held i m = m.owner ≡ some i

-- What a thread knows where it stands.
abbrev pub Knows : ℕ → Pc → Memory → Type 0
Knows i entering m = m.owner ≢ some i
Knows i (testing none) m = m.owner ≢ some i
Knows i (testing (some o)) m = (m.owner ≢ some i) × IsMade m
Knows i locking m = m.owner ≢ some i
Knows i locked m = Held i m × (IsBare m ⊎ IsMade m)
Knows i (retesting none) m = Held i m × IsBare m
Knows i (retesting (some o)) m = Held i m × IsMade m
Knows i making m = Held i m × IsBare m
Knows i (storing o) m = Held i m × (o ≡ 0) × (m.s_object ≡ none) × (m.constructed ≡ 1)
Knows i unlocking m = Held i m × IsMade m
Knows i reading m = (m.owner ≢ some i) × IsMade m
Knows i (returned o) m = (m.owner ≢ some i) × IsMade m × (o ≡ some 0)
Knows i thrown m = m.owner ≢ some i

-- The pointer is null, or the object is there; and while no thread holds the mutex, the object is
-- there or has not been begun.
abbrev pub IsMadetled : Memory → Type 0
IsMadetled m =
    ((m.s_object ≡ none) × (m.constructed ≤ 1) ⊎ IsMade m) × (m.owner ≡ none → IsBare m ⊎ IsMade m)

-- What the thread `j` knows stays true when another thread changes the memory in such a way.
keep :
    (j : ℕ) (q : Pc) (m m' : Memory)
    → (m.owner ≢ some j → m'.owner ≢ some j)
    → m.owner ≢ some j
    → (IsMade m → IsMade m')
    → Knows j q m
    → Knows j q m'
keep j entering m m' out free set k = out k
keep j (testing none) m m' out free set k = out k
keep j (testing (some o)) m m' out free set k = (out k.0, set k.1)
keep j locking m m' out free set k = out k
keep j locked m m' out free set k = absurd (free k.0)
keep j (retesting none) m m' out free set k = absurd (free k.0)
keep j (retesting (some o)) m m' out free set k = absurd (free k.0)
keep j making m m' out free set k = absurd (free k.0)
keep j (storing o) m m' out free set k = absurd (free k.0)
keep j unlocking m m' out free set k = absurd (free k.0)
keep j reading m m' out free set k = (out k.0, set k.1)
keep j (returned o) m m' out free set k = (out k.0, set k.1, k.2)
keep j thrown m m' out free set k = out k

-- What the others know stays true.
abbrev Keeps : ℕ → Memory → Memory → Type 0
Keeps i m m' = (j : ℕ) (q : Pc) → j ≢ i → Knows j q m → Knows j q m'

abbrev Lands : ℕ → Memory → Option (Memory × Pc) → Type 0
Lands i m none = Unit {0}
Lands i m (some (m', p)) = Knows i p m' × IsMadetled m' × Keeps i m m'

stays : (i : ℕ) (m : Memory) → Keeps i m m
stays i m j q ne k = k

other : (i j : ℕ) (o : Option ℕ) → o ≡ some i → j ≢ i → o ≢ some j
other i j o e ne f = grind arith

loaded :
    (i : ℕ) (m : Memory) (o : Option ℕ)
    → m.s_object ≡ o
    → IsMadetled m
    → m.owner ≢ some i
    → Knows i (testing o) m
loaded i m none e h free = free
loaded i m (some o) e (inl h, _) free = absurd (grind arith)
loaded i m (some o) e (inr h, _) free = (free, h)

reloaded :
    (i : ℕ) (m : Memory) (o : Option ℕ)
    → m.s_object ≡ o
    → Held i m
    → IsBare m ⊎ IsMade m
    → Knows i (retesting o) m
reloaded i m none e held (inl h) = (held, h)
reloaded i m none e held (inr h) = absurd (grind arith)
reloaded i m (some o) e held (inl h) = absurd (grind arith)
reloaded i m (some o) e held (inr h) = (held, h)

others_free : (i j : ℕ) (m : Memory) → Held i m → j ≢ i → m.owner ≢ some j
others_free i j m e ne f = grind arith

some-ne : (i : ℕ) → some i ≢ none
some-ne i e = cc

lock-Lands :
    (i : ℕ) (m : Memory) (o : Option ℕ)
    → m.owner ≡ o
    → IsMadetled m
    → Lands i m (elim o [ none ↦ some (record m { owner = some i }, locked) | some j ↦ none ])
lock-Lands i m none e h = (
  (refl, h.1 e),
  (h.0, λ f. absurd (some-ne i f)),
  λ j q ne.
      keep j q m (record m { owner = some i }) (λ _. λ f. ne (grind arith))
        (λ f. none-ne j (sym e ∙ f)) (λ s. s),
)
lock-Lands i m (some j) e h = tt

move-Lands : (i : ℕ) (p : Pc) (m : Memory) → Knows i p m → IsMadetled m → Lands i m (move i p m)
unfolding move
move-Lands i entering m k h = (loaded i m m.s_object refl h k, h, stays i m)
move-Lands i (testing none) m k h = (k, h, stays i m)
move-Lands i (testing (some o)) m k h = (k, h, stays i m)
move-Lands i locking m k h = lock-Lands i m m.owner refl h
move-Lands i locked m k h = (reloaded i m m.s_object refl k.0 k.1, h, stays i m)
move-Lands i (retesting none) m k h = (k, h, stays i m)
move-Lands i (retesting (some o)) m k h = (k, h, stays i m)
move-Lands i making m k h = (
  (k.0, k.1.1, k.1.0, ap suc k.1.1),
  (inl (k.1.0, ground arith), λ e. absurd (grind arith)),
  λ j q ne.
      keep j q m (record m { constructed = suc m.constructed }) (λ f. f) (others_free i j m k.0 ne)
        (λ s. absurd (grind arith)),
)
move-Lands i (storing o) m k h = (
  (k.0, (ap some k.1, k.3)),
  (inr (ap some k.1, k.3), λ e. absurd (grind arith)),
  λ j q ne.
      keep j q m (record m { s_object = some o }) (λ f. f) (others_free i j m k.0 ne)
        (λ s. absurd (grind arith)),
)
move-Lands i unlocking m k h = (
  (none-ne i, k.1),
  (h.0, λ e. inr k.1),
  λ j q ne.
      keep j q m (record m { owner = none }) (λ _. none-ne j) (others_free i j m k.0 ne) (λ s. s),
)
move-Lands i reading m k h = ((k.0, k.1, k.1.0), h, stays i m)
move-Lands i (returned o) m k h = tt
move-Lands i thrown m k h = tt

fail-Lands : (i : ℕ) (p : Pc) (m : Memory) → Knows i p m → IsMadetled m → Lands i m (fail p m)
unfolding fail
fail-Lands i making m k h = (
  none-ne i,
  (h.0, λ e. inl k.1),
  λ j q ne.
      keep j q m (record m { owner = none }) (λ _. none-ne j) (others_free i j m k.0 ne) (λ s. s),
)
fail-Lands i p m k h = tt

-- Every thread knows what it knows where it stands.
abbrev pub IsSafe : System → Type 0
IsSafe s = ((i : ℕ) → Knows i (s.pc i) s.memory) × IsMadetled s.memory

arrive-IsSafe :
    (i : ℕ) (s : System) (o : Option (Memory × Pc)) (t : System)
    → IsSafe s
    → Lands i s.memory o
    → arrive i s.pc o ≡ some t
    → IsSafe t
arrive-IsSafe i s none t h l e = absurd (none-ne t e)
arrive-IsSafe i s (some (m, p)) t h l e =
    subst IsSafe (some_eq (record { memory = m; pc = update i p s.pc }) t e) (knows, l.1)
  where
    knows : (j : ℕ) → Knows j (update i p s.pc j) m
    knows j = elim (Bool-cases (i == j)) [
      | inl same ↦ rw (same) (subst (λ a. Knows a p m) ((==_iff i j).0 same) l.0)
      | inr differs ↦
          rw differs
            (l.2 j (s.pc j) (λ e'. clash (i == j) ((==_iff i j).1 (sym e')) differs) (h.0 j))
    ]

pub step-IsSafe : (a : Turn) (s t : System) → IsSafe s → step a s ≡ some t → IsSafe t
unfolding step
step-IsSafe (goes i) s t h =
    arrive-IsSafe i s (move i (s.pc i) s.memory) t h (move-Lands i (s.pc i) s.memory (h.0 i) h.1)
step-IsSafe (fails i) s t h =
    arrive-IsSafe i s (fail (s.pc i) s.memory) t h (fail-Lands i (s.pc i) s.memory (h.0 i) h.1)

start-IsSafe : IsSafe start
start-IsSafe = (λ i. none-ne i, (inl (refl, ground arith), λ e. inl (refl, refl)))

pub run-IsSafe : (turns : List Turn) (s t : System) → IsSafe s → run turns s ≡ some t → IsSafe t
unfolding run
run-IsSafe [] s t h e = subst IsSafe (some_eq s t e) h
run-IsSafe (a ∷ turns) s t h e = elim (Option-cases (step a s)) [
  | inl stuck ↦ absurd (none-ne t (rw (stuck, run) at e))
  | inr (u, went) ↦ run-IsSafe turns u t (step-IsSafe a s u h went) (rw (went, run) at e)
]

pub reached-IsSafe : (turns : List Turn) (t : System) → run turns start ≡ some t → IsSafe t
reached-IsSafe turns t = run-IsSafe turns start t start-IsSafe
