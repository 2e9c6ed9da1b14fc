-- ===== src/Threads/Tests.antt =====
-- A run of threads, and the theorem about it.
use debianbox.Base.{◌≡◌, refl, List, [], ◌∷◌, Option, none, some}
use debianbox.Threads.{
  Threads, Step, absent, starts, adds, enters, returns, leaves, step, run, join, enter, come_back,
  leave, add, remove, ctx, IsCurrent, run-IsCurrent,
}

abbrev quiet : Threads
quiet = record { phase = λ id. absent; m_thread_ctx = [] }

-- The thread 8 is in the `run` of the io_context 2; 7 has returned from that of 1, and has ended.
abbrev moves : List Step
moves = starts 7 1 ∷ starts 8 2 ∷ adds 7 ∷ adds 8 ∷ enters 7 ∷ enters 8 ∷ returns 7 ∷ leaves 7 ∷ []

abbrev or_quiet : Option Threads → Threads
or_quiet none = quiet
or_quiet (some s) = s

abbrev one_left : Threads
one_left = or_quiet (run moves quiet)

one_left_lem : one_left.m_thread_ctx ≡ (8, 2) ∷ []
unfolding run step join enter come_back leave add remove
one_left_lem = refl

run-IsCurrent_example : IsCurrent one_left
unfolding run step join enter come_back leave add remove ctx
run-IsCurrent_example = run-IsCurrent moves quiet one_left refl (λ id. refl)
