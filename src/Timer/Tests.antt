-- ===== src/Timer/Tests.antt =====
-- Runs of a timer, and the theorems about it at inputs.
use debianbox.Base.{◌≡◌, refl, arith, [], ◌∷◌, true, false}
use debianbox.Timer.{
  Timer, on, over, operation_aborted, success, timeouts, start, stop, on_timeout, complete,
  complete_all, abort_all, elapse, due_all, cancel, single_shot, expires_from_now, async_wait,
  next_over,
}
use debianbox.Timer.Laws.{
  waits_on, on_timeout-waits_on, stop_lem, IsSingle, starts, completes, elapses, single_shots, run,
  apply, run-IsSingle, stop-IsSingle,
}

abbrev restarted : Timer
restarted = record {
  now = 30;
  expiry = 80;
  waits = over operation_aborted ∷ on ∷ [];
  m_interval = 50;
  m_single_shot = false;
  events = [];
}

-- The callback stops the timer, and it goes on.
on_timeout-waits_on_example :
    (waits_on (on_timeout stop success restarted).waits ≡ 1)
    × ((on_timeout stop success restarted).expiry ≡ 80)
unfolding stop cancel
on_timeout-waits_on_example = on_timeout-waits_on stop restarted refl

stop_lem_example : complete_all (λ t. t) 2 (stop restarted) ≡ record restarted { waits = [] }
stop_lem_example = stop_lem (λ t. t) restarted (tt, (tt, tt))

run-IsSingle_example : IsSingle (run stop (starts ∷ elapses 60 ∷ completes ∷ []) restarted)
unfolding waits_on
run-IsSingle_example =
    run-IsSingle stop (starts ∷ elapses 60 ∷ completes ∷ []) restarted (λ u h. stop-IsSingle u)
      (omega arith)

-- A single-shot timer calls its callback once.
once_lem :
    (run
      (λ t. t)
      (single_shots true
        ∷ starts
        ∷ elapses 60
        ∷ completes
        ∷ completes
        ∷ elapses 60
        ∷ completes
        ∷ [])
      restarted).events
    ≡ timeouts ∷ []
unfolding run apply single_shot start expires_from_now async_wait abort_all elapse due_all complete
    next_over on_timeout
once_lem = refl
