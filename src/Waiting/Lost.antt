-- ===== src/Waiting/Lost.antt =====
-- When a wait of channel_impl_zmq.cpp or async_object.hpp ends: a notification that comes before the
-- caller waits is lost.
use debianbox.Base.{
  some_eq, none-ne, clash, List, [], ◌∷◌, ◌≡◌, ◌≢◌, refl, subst, Option, none, some, Bool, true,
  false, ◌||◌, not, inl, inr, Each, Option-cases,
}
use debianbox.Waiting.{
  Caller, sending, locking, holding, waiting, woken, returned, Server, idle, asked, working,
  released, notified, Action, sends, locks, waits, stirs, returns, acquires, releases, notifies,
  Sync, act, step, run,
}
use debianbox.Waiting.States.{every_step_sound}

-- The other thread has notified, and the caller does not wait yet, or waits in vain.
abbrev pub is_stranded : Sync → Bool
is_stranded s = late s.caller s.server
  where
    late : Caller → Server → Bool
    late locking notified = true
    late holding notified = true
    late waiting notified = true
    late _ _ = false

abbrev pub is_stir : Action → Bool
is_stir stirs = true
is_stir _ = false

abbrev holds : (Sync → Bool) → Option Sync → Bool
holds test none = true
holds test (some s) = test s

-- Stays so, as far as there is no wake-up without a notification.
stranded_stays : Action → Sync → Bool
unfolding step act
stranded_stays a s = not (is_stranded s) || is_stir a || holds is_stranded (step a s)

stranded_stays_lem : (a : Action) (s : Sync) → stranded_stays a s ≡ true
unfolding stranded_stays step act
stranded_stays_lem = every_step_sound stranded_stays refl

stranded-step :
    (a : Action) (s u : Sync)
    → is_stranded s ≡ true
    → is_stir a ≡ false
    → step a s ≡ some u
    → is_stranded u ≡ true
unfolding stranded_stays
stranded-step a s u h calm went = rw (h, calm, went, stranded_stays) at (stranded_stays_lem a s)

stranded-ne : (s : Sync) → is_stranded s ≡ true → s.caller ≢ returned
stranded-ne s h e = clash (is_stranded s) h (rw e refl)

-- A caller that waits, or is about to, when the other thread has notified never returns, whatever
-- happens, unless it wakes up without a notification.
pub stranded-ne-returned :
    (actions : List Action) (s t : Sync)
    → is_stranded s ≡ true
    → Each (λ a. is_stir a ≡ false) actions
    → run actions s ≡ some t
    → t.caller ≢ returned
unfolding run
stranded-ne-returned [] s t h calm e =
    stranded-ne t (subst (λ u. is_stranded u ≡ true) (some_eq s t e) h)
stranded-ne-returned (a ∷ actions) s t h calm e = elim (Option-cases (step a s)) [
  | inl stuck ↦ absurd (none-ne t (rw (stuck, run) at e))
  | inr (u, went) ↦
      stranded-ne-returned actions u t (stranded-step a s u h calm.0 went) calm.1
        (rw (went, run) at e)
]

-- The states that can come about without such a wake-up.
abbrev pub is_calm : Sync → Bool
is_calm s = calm s.caller s.server s.locked
  where
    calm : Caller → Server → Bool → Bool
    calm sending idle false = true
    calm locking asked false = true
    calm holding asked true = true
    calm waiting asked false = true
    calm locking working true = true
    calm waiting working true = true
    calm locking released false = true
    calm holding released true = true
    calm waiting released false = true
    calm locking notified false = true
    calm holding notified true = true
    calm waiting notified false = true
    calm woken notified false = true
    calm returned notified false = true
    calm _ _ _ = false

calm_stays : Action → Sync → Bool
unfolding step act
calm_stays a s = not (is_calm s) || is_stir a || holds is_calm (step a s)

-- What is left to do until the caller has returned.
left_over : Caller → Server → List Action
left_over sending v = sends ∷ locks ∷ waits ∷ acquires ∷ releases ∷ notifies ∷ returns ∷ []
left_over locking asked = locks ∷ waits ∷ acquires ∷ releases ∷ notifies ∷ returns ∷ []
left_over locking working = releases ∷ locks ∷ waits ∷ notifies ∷ returns ∷ []
left_over locking v = locks ∷ waits ∷ notifies ∷ returns ∷ []
left_over holding asked = waits ∷ acquires ∷ releases ∷ notifies ∷ returns ∷ []
left_over holding v = waits ∷ notifies ∷ returns ∷ []
left_over waiting asked = acquires ∷ releases ∷ notifies ∷ returns ∷ []
left_over waiting working = releases ∷ notifies ∷ returns ∷ []
left_over waiting v = notifies ∷ returns ∷ []
left_over woken v = returns ∷ []
left_over returned v = []

abbrev is_end : Option Sync → Bool
is_end none = false
is_end (some s) = ended s.caller
  where
    ended : Caller → Bool
    ended returned = true
    ended _ = false

finishes : Sync → Bool
unfolding left_over run step act
finishes s = not (is_calm s) || is_stranded s || is_end (run (left_over s.caller s.server) s)
