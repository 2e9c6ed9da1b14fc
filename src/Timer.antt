-- ===== src/Timer.antt =====
-- libhdk/timer/timer.hpp: the timer and its callback. The `steady_timer` of asio is what its
-- documentation says of it: an expiry and the waits on it, each of which ends once, with an error
-- code; to set the expiry, or to cancel, ends the waits that are still on with `operation_aborted`.
pub mod Laws
mod Tests
use debianbox.Base.{
  ℕ, ◌+◌, List, [], ◌∷◌, ◌++◌, Option, none, some, Bool, true, false, zero, suc, leb, if◌then◌else◌,
}

pub data ErrorCode : Type 0 where
  success operation_aborted other : ErrorCode

-- A wait that is still on, or the call of its handler that the io_context has yet to make.
pub data Wait : Type 0 where
  on : Wait
  over : ErrorCode → Wait

pub data Event : Type 0 where
  timeouts reports : Event

-- `asio::steady_timer`: when it expires, and its waits, the oldest first; then the members of
-- `timer`, and what it has done: calls of the callback and messages about an error.
pub record Timer : Type 0 where
  pub now : ℕ
  pub expiry : ℕ
  pub waits : List Wait
  pub m_interval : ℕ
  pub m_single_shot : Bool
  pub events : List Event

abbrev pub abort : Wait → Wait
abort on = over operation_aborted
abort (over ec) = over ec

unfoldable pub abort_all : List Wait → List Wait
abort_all [] = []
abort_all (w ∷ ws) = abort w ∷ abort_all ws

-- `m_timer.expires_from_now(m_interval)`, `async_wait` and `cancel`.
unfoldable pub expires_from_now : Timer → Timer
unfolding abort_all
expires_from_now t = record t { expiry = t.now + t.m_interval; waits = abort_all t.waits }

unfoldable pub async_wait : Timer → Timer
async_wait t = record t { waits = t.waits ++ on ∷ [] }

unfoldable pub cancel : Timer → Timer
unfolding abort_all
cancel t = record t { waits = abort_all t.waits }

-- `start()`, `start(interval)`, `stop`, and the members `interval` and `single_shot`.
unfoldable pub start : Timer → Timer
unfolding expires_from_now async_wait
start t = async_wait (expires_from_now t)

unfoldable pub interval : ℕ → Timer → Timer
interval ms t = record t { m_interval = ms }

unfoldable pub start_interval : ℕ → Timer → Timer
unfolding interval start
start_interval ms t = start (interval ms t)

unfoldable pub stop : Timer → Timer
unfolding cancel
stop t = cancel t

unfoldable pub single_shot : Bool → Timer → Timer
single_shot ena t = record t { m_single_shot = ena }

abbrev pub happens : Event → Timer → Timer
happens e t = record t { events = t.events ++ e ∷ [] }

abbrev rearm : Timer → Timer
rearm t = if t.m_single_shot then t else async_wait (expires_from_now t)

-- `on_timeout`; the callback `m_timeout_cb` may use the timer, as `cb` says.
unfoldable pub on_timeout : (Timer → Timer) → ErrorCode → Timer → Timer
unfolding expires_from_now async_wait
on_timeout cb success t = rearm (cb (happens timeouts t))
on_timeout cb operation_aborted t = t
on_timeout cb other t = happens reports t

-- The time passes; at the expiry the waits that are still on end without an error.
abbrev due : Wait → Wait
due on = over success
due (over ec) = over ec

unfoldable pub due_all : List Wait → List Wait
due_all [] = []
due_all (w ∷ ws) = due w ∷ due_all ws

unfoldable pub elapse : ℕ → Timer → Timer
unfolding due_all
elapse ms t =
    if leb t.expiry (t.now + ms)
    then record t { now = t.now + ms; waits = due_all t.waits }
    else record t { now = t.now + ms }

abbrev pub keep_wait : Wait → Option (ErrorCode × List Wait) → Option (ErrorCode × List Wait)
keep_wait w none = none
keep_wait w (some (ec, ws)) = some (ec, w ∷ ws)

-- The oldest wait that is over.
unfoldable pub next_over : List Wait → Option (ErrorCode × List Wait)
next_over [] = none
next_over (over ec ∷ ws) = some (ec, ws)
next_over (on ∷ ws) = keep_wait on (next_over ws)

-- The io_context calls one handler, if there is one to call.
unfoldable pub complete : (Timer → Timer) → Timer → Timer
unfolding next_over on_timeout
complete cb t = elim (next_over t.waits) [
  | none ↦ t
  | some (ec, ws) ↦ on_timeout cb ec (record t { waits = ws })
]

unfoldable pub complete_all : (Timer → Timer) → ℕ → Timer → Timer
unfolding complete
complete_all cb zero t = t
complete_all cb (suc n) t = complete_all cb n (complete cb t)

-- The static `single_shot`s, of a function and of a member function: a timer of their own, which its
-- handler keeps until it has run; the handler runs the function whatever the error code is. `now` is
-- the time of the call.
unfoldable pub static_single_shot : ℕ → ℕ → Timer
unfolding expires_from_now async_wait
static_single_shot now ms = async_wait (
    expires_from_now (record {
      now = now;
      expiry = 0;
      waits = [];
      m_interval = ms;
      m_single_shot = true;
      events = [];
    }))

unfoldable pub on_single_shot : ErrorCode → Timer → Timer
on_single_shot ec t = happens timeouts t
