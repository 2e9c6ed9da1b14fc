-- ===== src/Threads.antt =====
-- libhdk/async/async_thread_p.hpp: the pool, which knows the io_context of each thread that runs one,
-- and the threads that `async_thread_impl::start` makes, which enter the pool when they begin and
-- leave it when `run` of their io_context has returned. The mutex of the pool makes each call of it
-- one step. Threads and io_contexts are numbers.
pub mod Sleep
pub mod Handles
pub mod Objects
mod Tests
use debianbox.Base.{
  some_eq, none-ne, ℕ, ◌≡◌, ◌≢◌, refl, sym, ap, ◌∙◌, arith, List, [], ◌∷◌, Option, none, some, Bool,
  true, false, ◌==◌, ==_iff, if◌then◌else◌, Bool-cases, Option-cases, inl, inr, subst,
}

-- `m_thread_ctx`: `insert`, which keeps an entry that is there, `erase`, and `at`, of which `none` is
-- `std::out_of_range`.
unfoldable pub add : ℕ → ℕ → List (ℕ × ℕ) → List (ℕ × ℕ)
add id c [] = (id, c) ∷ []
add id c ((j, d) ∷ m) = if j == id then (j, d) ∷ m else (j, d) ∷ add id c m

unfoldable pub remove : ℕ → List (ℕ × ℕ) → List (ℕ × ℕ)
remove id [] = []
remove id ((j, d) ∷ m) = if j == id then remove id m else (j, d) ∷ remove id m

unfoldable pub ctx : ℕ → List (ℕ × ℕ) → Option ℕ
ctx id [] = none
ctx id ((j, d) ∷ m) = if j == id then some d else ctx id m

-- Where a thread stands: there is none of this id, it has been started, it is in the pool before
-- `run`, in `run`, or in the pool after `run`.
pub data Phase : Type 0 where
  absent : Phase
  started added inside returned : ℕ → Phase

pub record Threads : Type 0 where
  pub phase : ℕ → Phase
  pub m_thread_ctx : List (ℕ × ℕ)

abbrev set_phase : ℕ → Phase → (ℕ → Phase) → ℕ → Phase
set_phase id p f j = if id == j then p else f j

-- `start` on an implementation with the io_context `c`, in a new thread; the thread's own `add`; its
-- call of `run`; the return of that; and the thread's own `remove`, at its end.
pub data Step : Type 0 where
  starts : ℕ → ℕ → Step
  adds enters returns leaves : ℕ → Step

unfoldable pub join : ℕ → Phase → Threads → Option Threads
unfolding add
join id (started c) s =
    some
      (record s { phase = set_phase id (added c) s.phase; m_thread_ctx = add id c s.m_thread_ctx })
join id p s = none

unfoldable pub enter : ℕ → Phase → Threads → Option Threads
enter id (added c) s = some (record s { phase = set_phase id (inside c) s.phase })
enter id p s = none

unfoldable pub come_back : ℕ → Phase → Threads → Option Threads
come_back id (inside c) s = some (record s { phase = set_phase id (returned c) s.phase })
come_back id p s = none

unfoldable pub leave : ℕ → Phase → Threads → Option Threads
unfolding remove
leave id (returned c) s =
    some (record s { phase = set_phase id absent s.phase; m_thread_ctx = remove id s.m_thread_ctx })
leave id p s = none

abbrev begin : ℕ → ℕ → Phase → Threads → Option Threads
begin id c absent s = some (record s { phase = set_phase id (started c) s.phase })
begin id c p s = none

unfoldable pub step : Step → Threads → Option Threads
unfolding join enter come_back leave
step (starts id c) s = begin id c (s.phase id) s
step (adds id) s = join id (s.phase id) s
step (enters id) s = enter id (s.phase id) s
step (returns id) s = come_back id (s.phase id) s
step (leaves id) s = leave id (s.phase id) s

unfoldable pub run : List Step → Threads → Option Threads
unfolding step
run [] s = some s
run (e ∷ es) s = elim (step e s) [ none ↦ none | some t ↦ run es t ]

abbrev pub context_of : Phase → Option ℕ
context_of absent = none
context_of (started c) = none
context_of (added c) = some c
context_of (inside c) = some c
context_of (returned c) = some c

-- The pool has the threads from their `add` to their `remove`, and no others.
abbrev pub IsCurrent : Threads → Type 0
IsCurrent s = (id : ℕ) → ctx id s.m_thread_ctx ≡ context_of (s.phase id)

ctx-add :
    (id j c : ℕ) (m : List (ℕ × ℕ))
    → ctx id m ≡ none
    → ctx j (add id c m) ≡ (if id == j then some c else ctx j m)
unfolding ctx add
ctx-add id j c [] e = refl
ctx-add id j c ((k, d) ∷ m) e = ground (arith, ctx-add id j c m)

ctx-remove :
    (id j : ℕ) (m : List (ℕ × ℕ)) → ctx j (remove id m) ≡ (if id == j then none else ctx j m)
unfolding ctx remove
ctx-remove id j [] = ground arith
ctx-remove id j ((k, d) ∷ m) = ground (arith, ctx-remove id j m)

-- A thread goes to a phase for which the pool has the same.
phase-IsCurrent :
    (id : ℕ) (p r : Phase) (s : Threads)
    → s.phase id ≡ p
    → context_of p ≡ context_of r
    → IsCurrent s
    → IsCurrent (record s { phase = set_phase id r s.phase })
phase-IsCurrent id p r s at_id same_ctx h j = elim (Bool-cases (id == j)) [
  | inl same ↦ rw same (
      h j
      ∙ ap (λ k. context_of (s.phase k)) (sym ((==_iff id j).0 same))
      ∙ ap context_of at_id
      ∙ same_ctx)
  | inr differs ↦ rw differs (h j)
]

begin-IsCurrent :
    (id c : ℕ) (p : Phase) (s t : Threads)
    → s.phase id ≡ p
    → begin id c p s ≡ some t
    → IsCurrent s
    → IsCurrent t
begin-IsCurrent id c absent s t at_id e h =
    subst IsCurrent (some_eq _ t e) (phase-IsCurrent id absent (started c) s at_id refl h)
begin-IsCurrent id c (started d) s t at_id e h = absurd (none-ne t e)
begin-IsCurrent id c (added d) s t at_id e h = absurd (none-ne t e)
begin-IsCurrent id c (inside d) s t at_id e h = absurd (none-ne t e)
begin-IsCurrent id c (returned d) s t at_id e h = absurd (none-ne t e)

join-IsCurrent :
    (id : ℕ) (p : Phase) (s t : Threads)
    → s.phase id ≡ p
    → join id p s ≡ some t
    → IsCurrent s
    → IsCurrent t
unfolding join
join-IsCurrent id (started c) s t at_id e h = subst IsCurrent (some_eq _ t e) (λ j.
    ctx-add id j c s.m_thread_ctx (h id ∙ ap context_of at_id)
    ∙ elim (Bool-cases (id == j)) [ inl same ↦ rw same refl | inr differs ↦ rw differs (h j) ])
join-IsCurrent id absent s t at_id e h = absurd (none-ne t e)
join-IsCurrent id (added d) s t at_id e h = absurd (none-ne t e)
join-IsCurrent id (inside d) s t at_id e h = absurd (none-ne t e)
join-IsCurrent id (returned d) s t at_id e h = absurd (none-ne t e)

enter-IsCurrent :
    (id : ℕ) (p : Phase) (s t : Threads)
    → s.phase id ≡ p
    → enter id p s ≡ some t
    → IsCurrent s
    → IsCurrent t
unfolding enter
enter-IsCurrent id (added c) s t at_id e h =
    subst IsCurrent (some_eq _ t e) (phase-IsCurrent id (added c) (inside c) s at_id refl h)
enter-IsCurrent id absent s t at_id e h = absurd (none-ne t e)
enter-IsCurrent id (started d) s t at_id e h = absurd (none-ne t e)
enter-IsCurrent id (inside d) s t at_id e h = absurd (none-ne t e)
enter-IsCurrent id (returned d) s t at_id e h = absurd (none-ne t e)

come_back-IsCurrent :
    (id : ℕ) (p : Phase) (s t : Threads)
    → s.phase id ≡ p
    → come_back id p s ≡ some t
    → IsCurrent s
    → IsCurrent t
unfolding come_back
come_back-IsCurrent id (inside c) s t at_id e h =
    subst IsCurrent (some_eq _ t e) (phase-IsCurrent id (inside c) (returned c) s at_id refl h)
come_back-IsCurrent id absent s t at_id e h = absurd (none-ne t e)
come_back-IsCurrent id (started d) s t at_id e h = absurd (none-ne t e)
come_back-IsCurrent id (added d) s t at_id e h = absurd (none-ne t e)
come_back-IsCurrent id (returned d) s t at_id e h = absurd (none-ne t e)

leave-IsCurrent :
    (id : ℕ) (p : Phase) (s t : Threads) → leave id p s ≡ some t → IsCurrent s → IsCurrent t
unfolding leave
leave-IsCurrent id (returned c) s t e h = subst IsCurrent (some_eq _ t e) (λ j.
    ctx-remove id j s.m_thread_ctx
    ∙ elim (Bool-cases (id == j)) [ inl same ↦ rw same refl | inr differs ↦ rw differs (h j) ])
leave-IsCurrent id absent s t e h = absurd (none-ne t e)
leave-IsCurrent id (started d) s t e h = absurd (none-ne t e)
leave-IsCurrent id (added d) s t e h = absurd (none-ne t e)
leave-IsCurrent id (inside d) s t e h = absurd (none-ne t e)

step-IsCurrent : (e : Step) (s t : Threads) → step e s ≡ some t → IsCurrent s → IsCurrent t
unfolding step
step-IsCurrent (starts id c) s t e h = begin-IsCurrent id c (s.phase id) s t refl e h
step-IsCurrent (adds id) s t e h = join-IsCurrent id (s.phase id) s t refl e h
step-IsCurrent (enters id) s t e h = enter-IsCurrent id (s.phase id) s t refl e h
step-IsCurrent (returns id) s t e h = come_back-IsCurrent id (s.phase id) s t refl e h
step-IsCurrent (leaves id) s t e h = leave-IsCurrent id (s.phase id) s t e h

-- However threads begin and end, and in whatever order they come to their calls of the pool and of
-- `run`: the pool finds the io_context of a thread from the thread's `add`, through its `run`, to its
-- `remove`, and finds that one; so `this_thread_ctx` in a handler gives the io_context that runs it.
-- It finds none for a thread that is before its `add` or after its `remove`.
pub run-IsCurrent : (es : List Step) (s t : Threads) → run es s ≡ some t → IsCurrent s → IsCurrent t
unfolding run
run-IsCurrent [] s t e h = subst IsCurrent (some_eq s t e) h
run-IsCurrent (c ∷ es) s t e h = elim (Option-cases (step c s)) [
  | inl stuck ↦ absurd (none-ne t (rw (stuck, run) at e))
  | inr (u, went) ↦ run-IsCurrent es u t (rw (went, run) at e) (step-IsCurrent c s u went h)
]
