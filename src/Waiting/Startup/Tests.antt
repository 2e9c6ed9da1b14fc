-- ===== src/Waiting/Startup/Tests.antt =====
-- Runs of `startup` and the poller's thread, and the theorem about them at one.
use debianbox.Base.{[], ◌∷◌, ◌≡◌, refl, some, false}
use debianbox.Waiting.Startup.{
  waiting, returned, polling, exited, locks, makes, waits, acquires, binds, fails, notifies,
  returns, at_point, deed, step, run, begin,
}

-- The thread may come first: it waits for the mutex until the caller waits.
started_lem :
    run (locks ∷ makes ∷ waits ∷ acquires ∷ binds ∷ notifies ∷ returns ∷ []) begin
    ≡ some (at_point returned polling false)
unfolding run step deed
started_lem = refl

failed_lem :
    run (locks ∷ makes ∷ waits ∷ acquires ∷ fails ∷ []) begin ≡ some (at_point waiting exited false)
unfolding run step deed
failed_lem = refl
