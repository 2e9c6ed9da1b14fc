-- ===== src/Waiting/Tests.antt =====
-- Runs of a caller and the thread that it waits for, and the theorems about them at inputs.
use debianbox.Base.{[], ◌∷◌, ◌≡◌, ◌≢◌, refl, some, false}
use debianbox.Waiting.{
  locking, waiting, returned, notified, sends, locks, waits, stirs, returns, acquires, releases,
  notifies, sync, act, step, run, start, broken,
}
use debianbox.Waiting.Lost.{stranded-ne-returned}

-- The other thread is done before the caller waits.
overtaken_lem :
    run (sends ∷ acquires ∷ releases ∷ notifies ∷ locks ∷ waits ∷ []) start
    ≡ some (sync waiting notified false)
unfolding run step act
overtaken_lem = refl

-- A wake-up without a notification: the caller returns, and the other thread locks what is gone.
stirred_lem :
    run (sends ∷ locks ∷ waits ∷ stirs ∷ returns ∷ acquires ∷ []) start
    ≡ some (sync returned broken false)
unfolding run step act
stirred_lem = refl

stranded-ne-returned_example : (sync waiting notified false).caller ≢ returned
unfolding run step act
stranded-ne-returned_example =
    stranded-ne-returned (locks ∷ waits ∷ []) (sync locking notified false)
      (sync waiting notified false) refl (refl, (refl, tt)) refl
