-- ===== src/Singleton/Progress.antt =====
-- Every call of `instance()` of libhdk/singleton.hpp can come to its end.
use debianbox.Base.{
  arith, ℕ, ◌≡◌, ◌≢◌, inl, inr, refl, ap, ◌∙◌, subst, List, [], ◌∷◌, Option, none, some, Bool, true,
  false, ◌==◌, ==_iff, Option-cases,
}
use debianbox.Singleton.{
  Memory, Pc, entering, testing, locking, locked, retesting, making, storing, unlocking, reading,
  returned, thrown, move, update, arrive, System, Turn, goes, step, run, start,
}
use debianbox.Singleton.Invariant.{Knows, IsSafe, step-IsSafe, reached-IsSafe}

-- Whether the call is over.
abbrev pub is_over : Pc → Bool
is_over (returned o) = true
is_over thrown = true
is_over p = false

abbrev CanReach : System → (System → Type 0) → Type 0
CanReach s P = (turns : List Turn) × (t : System) × (run turns s ≡ some t) × P t

abbrev pub CanFinish : ℕ → System → Type 0
CanFinish i s = CanReach s (λ t. is_over (t.pc i) ≡ true)

-- After a turn of the thread `i`.
abbrev moved : ℕ → Memory → Pc → System → System
moved i m q s = record { memory = m; pc = update i q s.pc }

moved_at : (i : ℕ) (m : Memory) (q : Pc) (s : System) → (moved i m q s).pc i ≡ q
moved_at i m q s = rw ((==_iff i i).1 refl) refl

differ : (j i : ℕ) → j ≢ i → (j == i) ≡ false
differ j i ne = ground (arith, ==_iff j i)

moved_other : (j i : ℕ) (m : Memory) (q : Pc) (s : System) → j ≢ i → (moved j m q s).pc i ≡ s.pc i
moved_other j i m q s ne = rw (differ j i ne) refl

goes-step :
    (i : ℕ) (s : System) (p q : Pc) (m : Memory)
    → s.pc i ≡ p
    → move i p s.memory ≡ some (m, q)
    → step (goes i) s ≡ some (moved i m q s)
unfolding step
goes-step i s p q m at e = ap (arrive i s.pc) (ap (λ r. move i r s.memory) at ∙ e)

goes-CanReach :
    (P : System → Type 0) (i : ℕ) (s : System) (p q : Pc) (m : Memory)
    → s.pc i ≡ p
    → move i p s.memory ≡ some (m, q)
    → CanReach (moved i m q s) P
    → CanReach s P
unfolding run
goes-CanReach P i s p q m at e (turns, t, r, h) =
    (goes i ∷ turns, t, rw (goes-step i s p q m at e, run) r, h)

-- The thread `j` gives the mutex back while `i` is before the lock.
module _ (P : System → Type 0) (j i : ℕ) (ne : j ≢ i)
    (next : (t : System) → t.memory.owner ≡ none → t.pc i ≡ locking → CanReach t P) where
  -- One turn of `j`, after which it gives the mutex back.
  turn :
      (s : System) (p q : Pc) (m : Memory)
      → s.pc j ≡ p
      → s.pc i ≡ locking
      → move j p s.memory ≡ some (m, q)
      → ((t : System) → t.pc j ≡ q → t.pc i ≡ locking → CanReach t P)
      → CanReach s P
  turn s p q m at w e k =
      goes-CanReach P j s p q m at e
        (k (moved j m q s) (moved_at j m q s) (moved_other j i m q s ne ∙ w))

  frees_unlocking : (s : System) → s.pc j ≡ unlocking → s.pc i ≡ locking → CanReach s P
  unfolding move
  frees_unlocking s at w =
      let m : Memory = record s.memory { owner = none } in
      goes-CanReach P j s unlocking reading m at refl
        (next (moved j m reading s) refl (moved_other j i m reading s ne ∙ w))

  frees_storing : (o : ℕ) (s : System) → s.pc j ≡ storing o → s.pc i ≡ locking → CanReach s P
  unfolding move
  frees_storing o s at w = turn s (storing o) unlocking _ at w refl frees_unlocking

  frees_making : (s : System) → s.pc j ≡ making → s.pc i ≡ locking → CanReach s P
  unfolding move
  frees_making s at w =
      turn s making (storing s.memory.constructed) _ at w refl (frees_storing s.memory.constructed)

  frees_retesting :
      (o : Option ℕ) (s : System) → s.pc j ≡ retesting o → s.pc i ≡ locking → CanReach s P
  unfolding move
  frees_retesting none s at w = turn s (retesting none) making _ at w refl frees_making
  frees_retesting (some o) s at w =
      turn s (retesting (some o)) unlocking _ at w refl frees_unlocking

  frees_locked : (s : System) → s.pc j ≡ locked → s.pc i ≡ locking → CanReach s P
  unfolding move
  frees_locked s at w =
      turn s locked (retesting s.memory.s_object) _ at w refl (frees_retesting s.memory.s_object)

  frees :
      (p : Pc) (s : System)
      → s.pc j ≡ p
      → s.pc i ≡ locking
      → Knows j p s.memory
      → s.memory.owner ≡ some j
      → CanReach s P
  frees entering s at w k h = absurd (k h)
  frees (testing none) s at w k h = absurd (k h)
  frees (testing (some o)) s at w k h = absurd (k.0 h)
  frees locking s at w k h = absurd (k h)
  frees locked s at w k h = frees_locked s at w
  frees (retesting o) s at w k h = frees_retesting o s at w
  frees making s at w k h = frees_making s at w
  frees (storing o) s at w k h = frees_storing o s at w
  frees unlocking s at w k h = frees_unlocking s at w
  frees reading s at w k h = absurd (k.0 h)
  frees (returned o) s at w k h = absurd (k.0 h)
  frees thrown s at w k h = absurd (k h)

-- The thread `i` goes to the end of its call.
module _ (i : ℕ) where
  over : (p : Pc) (s : System) → s.pc i ≡ p → is_over p ≡ true → CanFinish i s
  unfolding run
  over p s at e = ([], s, refl, ap is_over at ∙ e)

  onward :
      (s : System) (p q : Pc) (m : Memory)
      → s.pc i ≡ p
      → move i p s.memory ≡ some (m, q)
      → ((t : System) → t.pc i ≡ q → CanFinish i t)
      → CanFinish i s
  onward s p q m at e k = goes-CanReach _ i s p q m at e (k (moved i m q s) (moved_at i m q s))

  from_reading : (s : System) → s.pc i ≡ reading → CanFinish i s
  unfolding move
  from_reading s at =
      onward s reading (returned s.memory.s_object) _ at refl
        (λ t e. over (returned s.memory.s_object) t e refl)

  from_unlocking : (s : System) → s.pc i ≡ unlocking → CanFinish i s
  unfolding move
  from_unlocking s at = onward s unlocking reading _ at refl from_reading

  from_storing : (o : ℕ) (s : System) → s.pc i ≡ storing o → CanFinish i s
  unfolding move
  from_storing o s at = onward s (storing o) unlocking _ at refl from_unlocking

  from_making : (s : System) → s.pc i ≡ making → CanFinish i s
  unfolding move
  from_making s at =
      onward s making (storing s.memory.constructed) _ at refl (from_storing s.memory.constructed)

  from_retesting : (o : Option ℕ) (s : System) → s.pc i ≡ retesting o → CanFinish i s
  unfolding move
  from_retesting none s at = onward s (retesting none) making _ at refl from_making
  from_retesting (some o) s at = onward s (retesting (some o)) unlocking _ at refl from_unlocking

  from_locked : (s : System) → s.pc i ≡ locked → CanFinish i s
  unfolding move
  from_locked s at =
      onward s locked (retesting s.memory.s_object) _ at refl (from_retesting s.memory.s_object)

  from_free : (s : System) → s.memory.owner ≡ none → s.pc i ≡ locking → CanFinish i s
  unfolding move
  from_free s free at =
      onward s locking locked (record s.memory { owner = some i }) at (rw free refl) from_locked

  from_locking : (s : System) → IsSafe s → s.pc i ≡ locking → CanFinish i s
  from_locking s safe at = elim (Option-cases s.memory.owner) [
    | inl free ↦ from_free s free at
    | inr (j, held) ↦
        let out = subst (λ p. Knows i p s.memory) at (safe.0 i) in
        frees _ j i (λ e. out (held ∙ ap some e)) from_free (s.pc j) s refl at (safe.0 j) held
  ]

  from_testing : (o : Option ℕ) (s : System) → IsSafe s → s.pc i ≡ testing o → CanFinish i s
  unfolding move
  from_testing (some o) s safe at =
      onward s (testing (some o)) reading s.memory at refl from_reading
  from_testing none s safe at =
      let u = moved i s.memory locking s in
      goes-CanReach _ i s (testing none) locking s.memory at refl (
        from_locking u
          (step-IsSafe (goes i) s u safe (goes-step i s (testing none) locking s.memory at refl))
          (moved_at i s.memory locking s))

  from_entering : (s : System) → IsSafe s → s.pc i ≡ entering → CanFinish i s
  unfolding move
  from_entering s safe at =
      let q = testing s.memory.s_object in
      let u = moved i s.memory q s in
      goes-CanReach _ i s entering q s.memory at refl (
        from_testing s.memory.s_object u
          (step-IsSafe (goes i) s u safe (goes-step i s entering q s.memory at refl))
          (moved_at i s.memory q s))

  from : (p : Pc) (s : System) → IsSafe s → s.pc i ≡ p → CanFinish i s
  from entering s safe at = from_entering s safe at
  from (testing o) s safe at = from_testing o s safe at
  from locking s safe at = from_locking s safe at
  from locked s safe at = from_locked s at
  from (retesting o) s safe at = from_retesting o s at
  from making s safe at = from_making s at
  from (storing o) s safe at = from_storing o s at
  from unlocking s safe at = from_unlocking s at
  from reading s safe at = from_reading s at
  from (returned o) s safe at = over (returned o) s at refl
  from thrown s safe at = over thrown s at refl

-- No thread is locked out for good: at any time, however many threads have called `instance()`, in
-- whatever order they have taken their turns and whether or not constructors have thrown, the call of
-- each thread can still come to its end, by some further turns of the threads.
pub run-CanFinish :
    (turns : List Turn) (s : System) (i : ℕ) → run turns start ≡ some s → CanFinish i s
run-CanFinish turns s i e = from i (s.pc i) s (reached-IsSafe turns s e) refl
