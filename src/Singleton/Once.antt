-- ===== src/Singleton/Once.antt =====
-- What `instance()` of libhdk/singleton.hpp returns.
use debianbox.Base.{ℕ, ◌≡◌, sym, subst, ◌∙◌, List, Option, some}
use debianbox.Singleton.{Memory, Pc, returned, System, Turn, run, start}
use debianbox.Singleton.Invariant.{Knows, reached-IsSafe}

Knows-returned :
    (i : ℕ) (p : Pc) (m : Memory) (o : Option ℕ)
    → Knows i p m
    → p ≡ returned o
    → (m.s_object ≡ some 0) × (m.constructed ≡ 1) × (o ≡ some 0)
Knows-returned i p m o k e = let r = subst (λ q. Knows i q m) e k in (r.1.0, r.1.1, r.2)

-- However many threads call `instance()` at the same time, in whatever order they take their
-- turns, and whether or not the constructor throws in some of them: once a thread has returned,
-- exactly one object has been constructed, and any two threads that have returned have returned the
-- same pointer, which is to that object and is not null.
pub run-returns_one :
    (turns : List Turn) (s : System) (i j : ℕ) (o p : Option ℕ)
    → run turns start ≡ some s
    → s.pc i ≡ returned o
    → s.pc j ≡ returned p
    → (s.memory.constructed ≡ 1) × (o ≡ some 0) × (p ≡ o) × (s.memory.s_object ≡ o)
run-returns_one turns s i j o p e at_i at_j =
    let safe = reached-IsSafe turns s e in
    let k = Knows-returned i (s.pc i) s.memory o (safe.0 i) at_i in
    let l = Knows-returned j (s.pc j) s.memory p (safe.0 j) at_j in
    (k.1, k.2, l.2 ∙ sym k.2, k.0 ∙ sym k.2)
