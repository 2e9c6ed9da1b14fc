-- ===== src/Singleton.antt =====
-- `instance()` of libhdk/singleton.hpp, the double-checked lock behind brocker_manager,
-- socket_poller_zmq and async_thread_pool, called by any number of threads. One turn of a thread is
-- one access of the atomic `s_object` or of `s_mtx`, one test, or the constructor. Threads and
-- objects are numbers; the constructor may throw.
pub mod Invariant
pub mod Once
pub mod Progress
mod Tests
use debianbox.Base.{ℕ, suc, List, [], ◌∷◌, Option, none, some, ◌==◌, if◌then◌else◌}

-- `s_object`, the thread that holds `s_mtx`, and how many objects have been constructed.
pub record Memory : Type 0 where
  pub s_object : Option ℕ
  pub owner : Option ℕ
  pub constructed : ℕ

-- Where a thread stands: before the first load, at the test of what it loaded, before the lock;
-- with the lock, before the second load, at its test, before `new`, before the store, before the
-- release; then before the load of `return s_object`, and after it, or after an exception.
pub data Pc : Type 0 where
  entering : Pc
  testing : Option ℕ → Pc
  locking locked : Pc
  retesting : Option ℕ → Pc
  making : Pc
  storing : ℕ → Pc
  unlocking reading : Pc
  returned : Option ℕ → Pc
  thrown : Pc

-- The turn of the thread `i`, if it has one.
unfoldable pub move : ℕ → Pc → Memory → Option (Memory × Pc)
move i entering m = some (m, testing m.s_object)
move i (testing none) m = some (m, locking)
move i (testing (some o)) m = some (m, reading)
move i locking m = elim m.owner [
  | none ↦ some (record m { owner = some i }, locked)
  | some j ↦ none
]
move i locked m = some (m, retesting m.s_object)
move i (retesting none) m = some (m, making)
move i (retesting (some o)) m = some (m, unlocking)
move i making m = some (record m { constructed = suc m.constructed }, storing m.constructed)
move i (storing o) m = some (record m { s_object = some o }, unlocking)
move i unlocking m = some (record m { owner = none }, reading)
move i reading m = some (m, returned m.s_object)
move i (returned o) m = none
move i thrown m = none

-- The constructor throws, and the `lock_guard` releases the mutex.
unfoldable pub fail : Pc → Memory → Option (Memory × Pc)
fail making m = some (record m { owner = none }, thrown)
fail p m = none

pub record System : Type 0 where
  pub memory : Memory
  pub pc : ℕ → Pc

abbrev pub update : ℕ → Pc → (ℕ → Pc) → ℕ → Pc
update i p f j = if i == j then p else f j

pub data Turn : Type 0 where
  goes fails : ℕ → Turn

abbrev pub arrive : ℕ → (ℕ → Pc) → Option (Memory × Pc) → Option System
arrive i f none = none
arrive i f (some (m, p)) = some (record { memory = m; pc = update i p f })

unfoldable pub step : Turn → System → Option System
unfolding move fail
step (goes i) s = arrive i s.pc (move i (s.pc i) s.memory)
step (fails i) s = arrive i s.pc (fail (s.pc i) s.memory)

unfoldable pub run : List Turn → System → Option System
unfolding step
run [] s = some s
run (t ∷ ts) s = elim (step t s) [ none ↦ none | some s' ↦ run ts s' ]

-- Before the first call, with every thread at the beginning of its own.
abbrev pub start : System
start = record {
  memory = record { s_object = none; owner = none; constructed = 0 };
  pc = λ i. entering;
}
