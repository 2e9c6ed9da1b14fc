-- ===== src/Waiting/Startup.antt =====
-- `startup` of libhdk/channel/impl/socket_poller_zmq.cpp and the beginning of `thread_poll`, which it
-- waits for: unlike the waits of the channels, the caller holds the mutex when the other thread
-- begins. One action is one call of the mutex or of the condition variable, or the binding of the
-- thread's own sockets, which may fail.
mod Tests
use debianbox.Base.{List, [], ◌∷◌, ◌≡◌, refl, Option, none, some, Bool, true, false, Each, arith}

-- Where the caller stands: before `m_mutex_poll` is locked, with it, after the thread is made and
-- still with it, in `m_cv_poll.wait`, woken but without the mutex, or returned.
pub data Starter : Type 0 where
  entering locked started waiting woken returned : Starter

-- Where the poller's thread stands: not made, before its lock, with the lock and before its sockets
-- are bound, after `lk.unlock()`, after `notify_one` and in its loop, or exited with a `zmq::error_t`.
pub data Polling : Type 0 where
  absent begun binding bound polling exited : Polling

pub data Deed : Type 0 where
  locks makes waits stirs returns acquires binds fails notifies : Deed

pub record Start : Type 0 where
  pub caller : Starter
  pub thread : Polling
  pub held : Bool

abbrev pub at_point : Starter → Polling → Bool → Start
at_point c v l = record { caller = c; thread = v; held = l }

abbrev notified : Starter → Starter
notified waiting = woken
notified c = c

unfoldable pub deed : Deed → Starter → Polling → Bool → Option Start
deed locks entering v false = some (at_point locked v true)
deed makes locked absent true = some (at_point started begun true)
deed waits started v true = some (at_point waiting v false)
deed stirs waiting v l = some (at_point woken v l)
deed returns woken v false = some (at_point returned v false)
deed acquires c begun false = some (at_point c binding true)
deed binds c binding true = some (at_point c bound false)
deed fails c binding true = some (at_point c exited false)
deed notifies c bound l = some (at_point (notified c) polling l)
deed _ _ _ _ = none

-- The states that can come about as long as no wake-up is without a notification.
abbrev pub is_calm : Starter → Polling → Bool → Bool
is_calm entering absent false = true
is_calm locked absent true = true
is_calm started begun true = true
is_calm waiting begun false = true
is_calm waiting binding true = true
is_calm waiting bound false = true
is_calm waiting exited false = true
is_calm woken polling false = true
is_calm returned polling false = true
is_calm _ _ _ = false

abbrev is_stir : Deed → Bool
is_stir stirs = true
is_stir _ = false

abbrev stays : Option Start → Bool
stays none = true
stays (some s) = is_calm s.caller s.thread s.held

unfoldable pub step : Deed → Start → Option Start
unfolding deed
step a s = deed a s.caller s.thread s.held

unfoldable pub run : List Deed → Start → Option Start
unfolding step
run [] s = some s
run (a ∷ rest) s = elim (step a s) [ none ↦ none | some t ↦ run rest t ]

abbrev pub begin : Start
begin = at_point entering absent false

abbrev calm : Start → Bool
calm s = is_calm s.caller s.thread s.held

-- No wake-up without a notification.
abbrev pub AreCalm : List Deed → Type 0
AreCalm = Each (λ a. is_stir a ≡ false)

-- What is left to do until the caller has returned.
left_over : Starter → Polling → List Deed
left_over entering v = locks ∷ makes ∷ waits ∷ acquires ∷ binds ∷ notifies ∷ returns ∷ []
left_over locked v = makes ∷ waits ∷ acquires ∷ binds ∷ notifies ∷ returns ∷ []
left_over started v = waits ∷ acquires ∷ binds ∷ notifies ∷ returns ∷ []
left_over waiting begun = acquires ∷ binds ∷ notifies ∷ returns ∷ []
left_over waiting binding = binds ∷ notifies ∷ returns ∷ []
left_over waiting v = notifies ∷ returns ∷ []
left_over woken v = returns ∷ []
left_over returned v = []

abbrev CanReturn : Start → Type 0
CanReturn s =
    (rest : List Deed) × (t : Start) × (run rest s ≡ some t)
    × (t.caller ≡ returned)
    × (t.thread ≡ polling)

nothing_left : (a : Deed) (l : Bool) → is_stir a ≡ false → deed a waiting exited l ≡ none
unfolding deed
nothing_left a l k = ground arith

-- When the thread has exited while the caller waits, nothing more can happen, so that `startup` does
-- not return, unless its caller wakes up without a notification.
pub exited-stuck :
    (a : Deed) (deeds : List Deed) (l : Bool)
    → AreCalm (a ∷ deeds)
    → run (a ∷ deeds) (at_point waiting exited l) ≡ none
unfolding run
exited-stuck a deeds l k = rw (nothing_left a l k.0, run) refl
