-- ===== src/Threads/Handles.antt =====
-- libhdk/async/async_thread.cpp and libhdk/async/async_thread_p.hpp: the objects of class
-- `async_thread`, the implementations that they share, each with its io_context, and the detached
-- threads, which have the address of their implementation and no share in it. An implementation
-- lives as long as some object holds it, as one of a channel does.
pub mod Alive
mod Tests
use debianbox.Base.{
  ℕ, suc, List, [], ◌∷◌, Option, none, some, Bool, true, false, ◌==◌, if◌then◌else◌,
}
use debianbox.Channel.{m_impl as m_thread, set_impl as set_thread, drop_handle, count}

-- `handles` has the objects by address, each with its `m_thread`; `next` numbers the implementations;
-- `running` has the implementation of every thread that has not ended, and `stopped` those whose
-- io_context has been stopped.
pub record Handles : Type 0 where
  pub handles : List (ℕ × Option ℕ)
  pub next : ℕ
  pub running : List ℕ
  pub stopped : List ℕ

-- `async_thread()`: a new implementation.
unfoldable pub make : ℕ → Handles → Handles
make c s = record s { handles = (c, some s.next) ∷ s.handles; next = suc s.next }

-- The two constructors from an object; `none` is an object that is not there.
unfoldable pub copy : ℕ → ℕ → Handles → Option Handles
copy from c s = elim (m_thread from s.handles) [
  | none ↦ none
  | some m ↦ some (record s { handles = (c, m) ∷ s.handles })
]

unfoldable pub move : ℕ → ℕ → Handles → Option Handles
move from c s = elim (m_thread from s.handles) [
  | none ↦ none
  | some m ↦ some (record s { handles = (c, m) ∷ set_thread from none s.handles })
]

-- `~async_thread`.
unfoldable pub destroy : ℕ → Handles → Option Handles
destroy c s = elim (m_thread c s.handles) [
  | none ↦ none
  | some m ↦ some (record s { handles = drop_handle c s.handles })
]

-- The two assignments to the object `c`.
unfoldable pub assign : ℕ → ℕ → Handles → Option Handles
assign c from s = elim (m_thread from s.handles) [
  | none ↦ none
  | some m ↦ some (record s { handles = set_thread c m s.handles })
]

unfoldable pub move_assign : ℕ → ℕ → Handles → Option Handles
move_assign c from s = elim (m_thread from s.handles) [
  | none ↦ none
  | some m ↦ some (record s { handles = set_thread from none (set_thread c m s.handles) })
]

-- `start`, `stop` and `ctx`; `none` is a call through the null pointer, or on no object.
abbrev pub with_impl {ℓ} : {A : Type ℓ} → Option (Option ℕ) → (ℕ → Option A) → Option A
with_impl none f = none
with_impl (some none) f = none
with_impl (some (some i)) f = f i

unfoldable pub start : ℕ → Handles → Option Handles
start c s = with_impl (m_thread c s.handles) (λ i. some (record s { running = i ∷ s.running }))

unfoldable pub stop : ℕ → Handles → Option Handles
stop c s = with_impl (m_thread c s.handles) (λ i. some (record s { stopped = i ∷ s.stopped }))

unfoldable pub ctx : ℕ → Handles → Option ℕ
ctx c s = with_impl (m_thread c s.handles) (λ i. some i)

-- A thread of the implementation `i` ends.
abbrev pub without : ℕ → List ℕ → List ℕ
without i [] = []
without i (j ∷ js) = if j == i then js else j ∷ without i js

unfoldable pub finish : ℕ → Handles → Handles
finish i s = record s { running = without i s.running }
