-- ===== src/Waiting/States.antt =====
-- The states that a wait of channel_impl_zmq.cpp or async_object.hpp can be in, all of them, and a
-- proof of a test of all states by its evaluation.
use debianbox.Base.{
  List, [], ◌∷◌, ◌≡◌, ◌≢◌, refl, sym, Each, Bool, true, false, ◌&&◌, Bool-cases, inl, inr,
}
use debianbox.Waiting.{
  Caller, sending, locking, holding, waiting, woken, returned, Server, idle, asked, working,
  released, notified, broken, Action, sends, locks, waits, stirs, returns, acquires, releases,
  notifies, Sync, sync,
}

-- A test of each thing of a list.
abbrev every {ℓ} : {A : Type ℓ} → (A → Bool) → List A → Bool
every test [] = true
every test (x ∷ xs) = test x && every test xs

false-ne-true : false ≢ true
false-ne-true e = cc

every_sound {ℓ} :
    {A : Type ℓ} (test : A → Bool) (xs : List A)
    → every test xs ≡ true
    → Each (λ x. test x ≡ true) xs
every_sound test [] h = tt
every_sound test (x ∷ xs) h = elim (Bool-cases (test x)) [
  | inl good ↦ (good, every_sound test xs (rw good at h))
  | inr bad ↦ absurd (false-ne-true (rw bad at h))
]

abbrev every_caller : (Caller → Bool) → Bool
every_caller test = every test (sending ∷ locking ∷ holding ∷ waiting ∷ woken ∷ returned ∷ [])

every_caller_sound :
    (test : Caller → Bool) → every_caller test ≡ true → (x : Caller) → test x ≡ true
every_caller_sound test h =
    pick (every_sound test (sending ∷ locking ∷ holding ∷ waiting ∷ woken ∷ returned ∷ []) h)
  where
    pick :
        Each (λ x. test x ≡ true) (sending ∷ locking ∷ holding ∷ waiting ∷ woken ∷ returned ∷ [])
        → (x : Caller) → test x ≡ true
    pick e sending = e.0
    pick e locking = e.1.0
    pick e holding = e.1.1.0
    pick e waiting = e.1.1.1.0
    pick e woken = e.1.1.1.1.0
    pick e returned = e.1.1.1.1.1.0

abbrev every_server : (Server → Bool) → Bool
every_server test = every test (idle ∷ asked ∷ working ∷ released ∷ notified ∷ broken ∷ [])

every_server_sound :
    (test : Server → Bool) → every_server test ≡ true → (x : Server) → test x ≡ true
every_server_sound test h =
    pick (every_sound test (idle ∷ asked ∷ working ∷ released ∷ notified ∷ broken ∷ []) h)
  where
    pick :
        Each (λ x. test x ≡ true) (idle ∷ asked ∷ working ∷ released ∷ notified ∷ broken ∷ [])
        → (x : Server) → test x ≡ true
    pick e idle = e.0
    pick e asked = e.1.0
    pick e working = e.1.1.0
    pick e released = e.1.1.1.0
    pick e notified = e.1.1.1.1.0
    pick e broken = e.1.1.1.1.1.0

abbrev every_action : (Action → Bool) → Bool
every_action test =
    every test (sends ∷ locks ∷ waits ∷ stirs ∷ returns ∷ acquires ∷ releases ∷ notifies ∷ [])

every_action_sound :
    (test : Action → Bool) → every_action test ≡ true → (x : Action) → test x ≡ true
every_action_sound test h = pick (
    every_sound test (sends ∷ locks ∷ waits ∷ stirs ∷ returns ∷ acquires ∷ releases ∷ notifies ∷ [])
      h)
  where
    pick :
        Each
          (λ x. test x ≡ true)
          (sends ∷ locks ∷ waits ∷ stirs ∷ returns ∷ acquires ∷ releases ∷ notifies ∷ [])
        → (x : Action) → test x ≡ true
    pick e sends = e.0
    pick e locks = e.1.0
    pick e waits = e.1.1.0
    pick e stirs = e.1.1.1.0
    pick e returns = e.1.1.1.1.0
    pick e acquires = e.1.1.1.1.1.0
    pick e releases = e.1.1.1.1.1.1.0
    pick e notifies = e.1.1.1.1.1.1.1.0

abbrev pub every_state : (Sync → Bool) → Bool
every_state test =
    every_caller (λ c. every_server (λ v. test (sync c v true) && test (sync c v false)))

abbrev pub every_step : (Action → Sync → Bool) → Bool
every_step test = every_action (λ a. every_state (test a))

-- What holds by evaluation of all states holds of each.
pub every_state_sound : (test : Sync → Bool) → every_state test ≡ true → (s : Sync) → test s ≡ true
every_state_sound test h s =
    split (test (sync c v true)) (test (sync c v false)) s.locked
      (every_server_sound (λ w. test (sync c w true) && test (sync c w false))
        (every_caller_sound (λ d. every_server (λ w. test (sync d w true) && test (sync d w false)))
          h c)
        v)
      refl refl
  where
    c : Caller
    c = s.caller

    v : Server
    v = s.server

    split :
        (x y : Bool) (b : Bool)
        → (x && y) ≡ true
        → x ≡ test (sync c v true)
        → y ≡ test (sync c v false)
        → test (sync c v b) ≡ true
    split true true true e f g = sym f
    split true true false e f g = sym g
    split true false b e f g = absurd (false-ne-true e)
    split false y b e f g = absurd (false-ne-true e)

pub every_step_sound :
    (test : Action → Sync → Bool)
    → every_step test ≡ true
    → (a : Action) (s : Sync) → test a s ≡ true
every_step_sound test h a =
    every_state_sound (test a) (every_action_sound (λ b. every_state (test b)) h a)
