-- ===== src/Singleton/Tests.antt =====
-- Runs of two threads that call `instance()`, and the theorems about them.
use debianbox.Base.{◌≡◌, refl, List, [], ◌∷◌, ◌++◌, some, none, Option, ℕ}
use debianbox.Singleton.{returned, thrown, move, fail, System, Turn, goes, fails, step, run, start}
use debianbox.Singleton.Once.{run-returns_one}
use debianbox.Singleton.Progress.{CanFinish, run-CanFinish}

-- Both find no object, and the thread 1 gets the mutex; what the constructor does comes next.
abbrev race : List Turn
race = goes 1 ∷ goes 2 ∷ goes 1 ∷ goes 2 ∷ goes 1 ∷ goes 1 ∷ goes 1 ∷ []

-- The thread 1 stores an object and returns it; then the thread 2 gets the mutex, and finds it.
abbrev both : List Turn
both = race ++ goes 1 ∷ goes 1 ∷ goes 1 ∷ goes 1 ∷ goes 2 ∷ goes 2 ∷ goes 2 ∷ goes 2 ∷ goes 2 ∷ []

-- The constructor throws in the thread 1, and the thread 2 constructs the object.
abbrev retry : List Turn
retry = race ++ fails 1 ∷ goes 2 ∷ goes 2 ∷ goes 2 ∷ goes 2 ∷ goes 2 ∷ goes 2 ∷ goes 2 ∷ []

abbrev or_start : Option System → System
or_start none = start
or_start (some s) = s

abbrev after : List Turn → System
after turns = or_start (run turns start)

abbrev the_object : Option ℕ
the_object = some 0

retry_lem :
    ((after retry).pc 1 ≡ thrown)
    × ((after retry).pc 2 ≡ returned (some 0))
    × ((after retry).memory.constructed ≡ 1)
unfolding run step move fail
retry_lem = (refl, refl, refl)

run-returns_one_example :
    ((after both).memory.constructed ≡ 1)
    × (the_object ≡ some 0)
    × (the_object ≡ the_object)
    × ((after both).memory.s_object ≡ the_object)
unfolding run step move fail
run-returns_one_example = run-returns_one both (after both) 1 2 the_object the_object refl refl refl

run-CanFinish_example : CanFinish 2 (after race)
unfolding run step move fail
run-CanFinish_example = run-CanFinish race (after race) 2 refl
