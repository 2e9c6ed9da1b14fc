-- ===== src/Waiting.antt =====
-- How the functions `__create_socket_sync`, `__open_socket_sync`, `__close_socket_sync` and
-- `__remove_socket_sync` of libhdk/channel/impl/channel_impl_zmq.cpp wait for the poller, and
-- `call_sync` of libhdk/async/async_object.hpp for another thread: the caller has a mutex and a
-- condition variable on its stack, which the other thread locks, unlocks and notifies. One action is
-- one of those calls.
pub mod States
pub mod Lost
pub mod Startup
mod Tests
use debianbox.Base.{List, [], ◌∷◌, Option, none, some, Bool, true, false}

-- Where the caller stands: it sends the message, is to lock `mtx`, holds it, is in `cv.wait`, is
-- woken but without the mutex, or has returned, so that both objects are gone.
pub data Caller : Type 0 where
  sending locking holding waiting woken returned : Caller

-- Where the other thread stands: without the message, with it, holding `mtx`, after `lk.unlock()`
-- and after `notify_one`; `broken` is a use of an object that is gone.
pub data Server : Type 0 where
  idle asked working released notified broken : Server

-- The calls. `stirs` is a wake-up without a notification, which the standard allows.
pub data Action : Type 0 where
  sends locks waits stirs returns acquires releases notifies : Action

pub record Sync : Type 0 where
  pub caller : Caller
  pub server : Server
  pub locked : Bool

abbrev pub sync : Caller → Server → Bool → Sync
sync c v l = record { caller = c; server = v; locked = l }

abbrev pub start : Sync
start = sync sending idle false

-- A lock of `mtx` by the other thread, and its `notify_one`.
abbrev acquire : Caller → Sync
acquire returned = sync returned broken false
acquire c = sync c working true

abbrev notify : Caller → Sync
notify waiting = sync woken notified false
notify returned = sync returned broken false
notify c = sync c notified false

abbrev notify_locked : Caller → Sync
notify_locked c = sync c notified true

unfoldable pub act : Action → Caller → Server → Bool → Option Sync
act sends sending idle l = some (sync locking asked l)
act locks locking v false = some (sync holding v true)
act waits holding v true = some (sync waiting v false)
act stirs waiting v l = some (sync woken v l)
act returns woken v false = some (sync returned v false)
act acquires c asked false = some (acquire c)
act releases c working true = some (sync c released false)
act notifies c released false = some (notify c)
act notifies c released true = some (notify_locked c)
act _ _ _ _ = none

unfoldable pub step : Action → Sync → Option Sync
unfolding act
step a s = act a s.caller s.server s.locked

unfoldable pub run : List Action → Sync → Option Sync
unfolding step
run [] s = some s
run (a ∷ rest) s = elim (step a s) [ none ↦ none | some t ↦ run rest t ]
