-- ===== src/Threads/Handles/Alive.antt =====
-- Whether the io_contexts of the threads that run are still there.
use debianbox.Base.{
  ℕ, ◌+◌, ◌<◌, ◌≤◌, ◌≡◌, ◌↔◌, inl, inr, refl, sym, ap, subst, ◌∙◌, arith, List, [], ◌∷◌, Option,
  none, some, ◌==◌, ==_iff, Bool-cases, Each, Option-cases, some_eq, none-ne,
}
use debianbox.Channel.{m_impl as m_thread, set_impl as set_thread, drop_handle, count, points}
use debianbox.Channel.Counts.{count-drop_handle, count-set_impl}
use debianbox.Threads.Handles.{
  Handles, make, copy, move, destroy, start, finish, without, with_impl,
}

-- Some object holds the implementation of every thread that runs.
abbrev pub IsServed : Handles → Type 0
IsServed s = Each (λ i. 0 < count i s.handles) s.running

-- The implementation of no thread that runs is held by the object `c` alone.
abbrev pub IsSpare : ℕ → Handles → Type 0
IsSpare c s = Each (λ i. (m_thread c s.handles ≡ some (some i)) → 1 < count i s.handles) s.running

points_self : (i : ℕ) → points i (some i) ≡ 1
points_self i = rw ((==_iff i i).1 refl) refl

-- One share less.
one_less :
    (i n d : ℕ) (m : Option ℕ)
    → n ≡ points i m + d
    → 0 < n
    → (0 < d) ↔ (some m ≡ some (some i) → 1 < n)
one_less i n d m e h = (forward, backward m e)
  where
    forward : 0 < d → some m ≡ some (some i) → 1 < n
    forward l same = omega (arith, e, ap (points i) (some_eq m (some i) same), points_self i)

    backward : (m : Option ℕ) → n ≡ points i m + d → (some m ≡ some (some i) → 1 < n) → 0 < d
    backward none e f = omega (arith, e)
    backward (some j) e f = elim (Bool-cases (j == i)) [
      | inl same ↦ omega (arith, rw same at e, f (ap (λ k. some (some k)) ((==_iff j i).0 same)))
      | inr differs ↦ omega (arith, rw differs at e)
    ]

served_iff :
    (c : ℕ) (m : Option ℕ) (hs : List (ℕ × Option ℕ)) (running : List ℕ)
    → m_thread c hs ≡ some m
    → Each (λ i. 0 < count i hs) running
    → Each (λ i. 0 < count i (drop_handle c hs)) running
      ↔ Each (λ i. (m_thread c hs ≡ some (some i)) → 1 < count i hs) running
served_iff c m hs [] e h = (λ x. x, λ x. x)
served_iff c m hs (i ∷ running) e h =
    let one =
      one_less i (count i hs) (count i (drop_handle c hs)) m (count-drop_handle i c m hs e) h.0 in
    let more = served_iff c m hs running e h.1 in
    (λ p. (λ f. one.0 p.0 (sym e ∙ f), more.0 p.1), λ q. (one.1 (λ f. q.0 (e ∙ f)), more.1 q.1))

-- If every thread that runs has its implementation held by some object, the destruction of an object
-- keeps it so exactly if the object is not the only one that holds the implementation of a thread
-- that runs: otherwise the thread is left with an io_context that is gone.
pub destroy-IsServed :
    (c : ℕ) (m : Option ℕ) (s : Handles)
    → m_thread c s.handles ≡ some m
    → IsServed s
    → (t : Handles) × (destroy c s ≡ some t) × (IsServed t ↔ IsSpare c s)
unfolding destroy
destroy-IsServed c m s e h = (
  record s { handles = drop_handle c s.handles },
  rw (e, destroy) refl,
  served_iff c m s.handles s.running e h,
)

keep :
    (hs hs' : List (ℕ × Option ℕ)) (running : List ℕ)
    → ((i : ℕ) → count i hs ≤ count i hs')
    → Each (λ i. 0 < count i hs) running
    → Each (λ i. 0 < count i hs') running
keep hs hs' [] more h = tt
keep hs hs' (i ∷ running) more h = (omega (arith, more i, h.0), keep hs hs' running more h.1)

held : (c i : ℕ) (hs : List (ℕ × Option ℕ)) → m_thread c hs ≡ some (some i) → 0 < count i hs
held c i hs e = omega (arith, count-drop_handle i c (some i) hs e, points_self i)

without-Each :
    (P : ℕ → Type 0) (i : ℕ) (running : List ℕ) → Each P running → Each P (without i running)
without-Each P i [] h = tt
without-Each P i (j ∷ js) h = elim (Bool-cases (j == i)) [
  | inl same ↦ rw same h.1
  | inr differs ↦ rw differs (h.0, without-Each P i js h.1)
]

-- What a program does with the objects while none of them is destroyed or assigned to.
pub data Deed : Type 0 where
  makes : ℕ → Deed
  copies moves : ℕ → ℕ → Deed
  starts finishes : ℕ → Deed

unfoldable pub step : Deed → Handles → Option Handles
unfolding make copy move start finish
step (makes c) s = some (make c s)
step (copies from c) s = copy from c s
step (moves from c) s = move from c s
step (starts c) s = start c s
step (finishes i) s = some (finish i s)

unfoldable pub run : List Deed → Handles → Option Handles
unfolding step
run [] s = some s
run (a ∷ rest) s = elim (step a s) [ none ↦ none | some t ↦ run rest t ]

-- Where the step leads, if anywhere, it is so.
abbrev Ends : Option Handles → Type 0
Ends none = Unit {0}
Ends (some t) = IsServed t

start-Ends :
    (c : ℕ) (s : Handles) (o : Option (Option ℕ))
    → m_thread c s.handles ≡ o
    → IsServed s
    → Ends (with_impl o (λ i. some (record s { running = i ∷ s.running })))
start-Ends c s none e h = tt
start-Ends c s (some none) e h = tt
start-Ends c s (some (some i)) e h = (held c i s.handles e, h)

step-Ends : (a : Deed) (s : Handles) → IsServed s → Ends (step a s)
unfolding step make copy move start finish count
step-Ends (makes c) s h = keep s.handles (make c s).handles s.running (λ i. omega arith) h
step-Ends (copies from c) s h = elim (Option-cases (m_thread from s.handles)) [
  | inl gone ↦ rw (gone, copy) tt
  | inr (m, there) ↦
      rw (there, copy) (keep s.handles ((c, m) ∷ s.handles) s.running (λ i. omega arith) h)
]
step-Ends (moves from c) s h = elim (Option-cases (m_thread from s.handles)) [
  | inl gone ↦ rw (gone, move) tt
  | inr (m, there) ↦
      rw (there, move)
        (keep s.handles ((c, m) ∷ set_thread from none s.handles) s.running
          (λ i. omega (arith, count-set_impl i from m none s.handles there)) h)
]
step-Ends (starts c) s h = start-Ends c s (m_thread c s.handles) refl h
step-Ends (finishes i) s h = without-Each (λ j. 0 < count j s.handles) i s.running h

-- While no object is destroyed or assigned to, however objects are made, copied and moved and threads
-- are started and end, every thread that runs has its io_context: some object holds its
-- implementation.
pub run-IsServed :
    (deeds : List Deed) (s t : Handles) → run deeds s ≡ some t → IsServed s → IsServed t
unfolding run
run-IsServed [] s t e h = subst IsServed (some_eq s t e) h
run-IsServed (a ∷ deeds) s t e h = elim (Option-cases (step a s)) [
  | inl stuck ↦ absurd (none-ne t (rw (stuck, run) at e))
  | inr (u, went) ↦ run-IsServed deeds u t (rw (went, run) at e) (subst Ends went (step-Ends a s h))
]
