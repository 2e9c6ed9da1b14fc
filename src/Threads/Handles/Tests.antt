-- ===== src/Threads/Handles/Tests.antt =====
-- Objects that share a thread, and the theorems about them.
use debianbox.Base.{◌≡◌, ◌↔◌, refl, [], ◌∷◌, some, none}
use debianbox.Channel.{m_impl, set_impl}
use debianbox.Threads.Handles.{Handles, make, copy, move, destroy, start, move_assign}
use debianbox.Threads.Handles.Alive.{
  IsServed, IsSpare, makes, copies, moves, starts, step, run, destroy-IsServed, run-IsServed,
}

abbrev empty : Handles
empty = record { handles = []; next = 0; running = []; stopped = [] }

-- The object 5 is copied to 6, and then moved to 7; the thread runs.
abbrev shared : Handles
shared = record {
  handles = (7, some 0) ∷ (6, some 0) ∷ (5, none) ∷ [];
  next = 1;
  running = 0 ∷ [];
  stopped = [];
}

shared_lem : run (makes 5 ∷ starts 5 ∷ copies 5 6 ∷ moves 5 7 ∷ []) empty ≡ some shared
unfolding run step make copy move start m_impl set_impl
shared_lem = refl

-- An object that is assigned to itself as an rvalue loses its thread.
self_lem :
    move_assign 6 6 shared
    ≡ some (record shared { handles = (7, some 0) ∷ (6, none) ∷ (5, none) ∷ [] })
unfolding move_assign m_impl set_impl
self_lem = refl

shared-IsServed : IsServed shared
shared-IsServed =
    run-IsServed (makes 5 ∷ starts 5 ∷ copies 5 6 ∷ moves 5 7 ∷ []) empty shared shared_lem tt

destroy-IsServed_example :
    (t : Handles) × (destroy 6 shared ≡ some t) × (IsServed t ↔ IsSpare 6 shared)
unfolding m_impl
destroy-IsServed_example = destroy-IsServed 6 (some 0) shared refl shared-IsServed
