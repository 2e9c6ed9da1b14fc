-- ===== src/Timer/Laws.antt =====
-- When the timer of libhdk/timer/timer.hpp waits, and when it stops.
use debianbox.Base.{
  ℕ, ◌+◌, ◌≤◌, ◌≡◌, refl, ap, ◌∙◌, arith, List, [], ◌∷◌, ◌++◌, Option, none, some, Bool, false,
  length, leb, Bool-cases, inl, inr, Option-cases, Each,
}
use debianbox.Timer.{
  happens, ErrorCode, success, operation_aborted, other, Wait, on, over, timeouts, Timer, abort_all,
  expires_from_now, async_wait, cancel, start, stop, on_timeout, due_all, elapse, next_over,
  complete, complete_all, keep_wait, start_interval, interval, single_shot,
}

-- How many waits are on.
abbrev pub is_on : Wait → ℕ
is_on on = 1
is_on (over ec) = 0

unfoldable pub waits_on : List Wait → ℕ
waits_on [] = 0
waits_on (w ∷ ws) = is_on w + waits_on ws

waits_on-append : (ws vs : List Wait) → waits_on (ws ++ vs) ≡ waits_on ws + waits_on vs
unfolding waits_on
waits_on-append [] vs = omega arith
waits_on-append (w ∷ ws) vs = omega (arith, waits_on-append ws vs)

waits_on-abort_all : (ws : List Wait) → waits_on (abort_all ws) ≡ 0
unfolding waits_on abort_all
waits_on-abort_all [] = refl
waits_on-abort_all (on ∷ ws) = omega (arith, waits_on-abort_all ws)
waits_on-abort_all (over ec ∷ ws) = omega (arith, waits_on-abort_all ws)

waits_on-start : (t : Timer) → waits_on (start t).waits ≡ 1
unfolding start async_wait expires_from_now waits_on
waits_on-start t =
    omega (arith, waits_on-append (abort_all t.waits) (on ∷ []), waits_on-abort_all t.waits)

-- A timer that is not single-shot when its callback returns waits once more, and only once, until
-- its interval has passed, whatever the callback has done: a callback that stops the timer does
-- not stop it.
pub on_timeout-waits_on :
    (cb : Timer → Timer) (t : Timer)
    → (cb (happens timeouts t)).m_single_shot ≡ false
    → (waits_on (on_timeout cb success t).waits ≡ 1)
      × ((on_timeout cb success t).expiry
          ≡ (cb (happens timeouts t)).now + (cb (happens timeouts t)).m_interval)
unfolding on_timeout start async_wait expires_from_now
on_timeout-waits_on cb t e = rw (e, on_timeout) (waits_on-start (cb (happens timeouts t)), refl)

-- A wait that is on, or that has been cancelled.
abbrev pub IsQuiet : Wait → Type 0
IsQuiet on = Unit {0}
IsQuiet (over success) = ⊥
IsQuiet (over operation_aborted) = Unit {0}
IsQuiet (over other) = ⊥

drain :
    (cb : Timer → Timer) (ws : List Wait) (t : Timer)
    → Each IsQuiet ws
    → complete_all cb (length ws) (record t { waits = abort_all ws }) ≡ record t { waits = [] }
unfolding complete_all complete next_over on_timeout abort_all
drain cb [] t q = refl
drain cb (on ∷ ws) t q = drain cb ws t q.1
drain cb (over operation_aborted ∷ ws) t q = drain cb ws t q.1
drain cb (over success ∷ ws) t q = absurd q.0
drain cb (over other ∷ ws) t q = absurd q.0

-- A timer is stopped while the handlers that are still to be called, if any, are those of waits
-- that were cancelled: all its handlers are then called and none calls the callback, reports an
-- error or waits again, and nothing is left to wait for.
pub stop_lem :
    (cb : Timer → Timer) (t : Timer)
    → Each IsQuiet t.waits
    → complete_all cb (length t.waits) (stop t) ≡ record t { waits = [] }
unfolding stop cancel
stop_lem cb t q = drain cb t.waits t q

waits_on-due_all : (ws : List Wait) → waits_on (due_all ws) ≡ 0
unfolding waits_on due_all
waits_on-due_all [] = refl
waits_on-due_all (on ∷ ws) = omega (arith, waits_on-due_all ws)
waits_on-due_all (over ec ∷ ws) = omega (arith, waits_on-due_all ws)

-- A timer with one wait at most.
abbrev pub IsSingle : Timer → Type 0
IsSingle t = waits_on t.waits ≤ 1

waits_left : Option (ErrorCode × List Wait) → ℕ → ℕ
waits_left none n = n
waits_left (some (ec, ws)) n = waits_on ws

waits_left-keep_wait :
    (o : Option (ErrorCode × List Wait)) (n : ℕ)
    → waits_left (keep_wait on o) (1 + n) ≡ 1 + waits_left o n
unfolding waits_left waits_on
waits_left-keep_wait none n = refl
waits_left-keep_wait (some (ec, ws)) n = refl

waits_left-next_over : (ws : List Wait) → waits_left (next_over ws) (waits_on ws) ≡ waits_on ws
unfolding waits_left waits_on next_over
waits_left-next_over [] = refl
waits_left-next_over (on ∷ ws) =
    waits_left-keep_wait (next_over ws) (waits_on ws) ∙ ap (◌+◌ 1) (waits_left-next_over ws)
waits_left-next_over (over ec ∷ ws) = omega arith

on_timeout-IsSingle :
    (cb : Timer → Timer) (ec : ErrorCode) (t : Timer)
    → ((u : Timer) → IsSingle u → IsSingle (cb u))
    → IsSingle t
    → IsSingle (on_timeout cb ec t)
unfolding on_timeout start async_wait expires_from_now
on_timeout-IsSingle cb success t keeps h =
    elim (Bool-cases (cb (happens timeouts t)).m_single_shot) [
      | inl single ↦ rw (single, on_timeout) (keeps (happens timeouts t) h)
      | inr repeats ↦
          rw (repeats, on_timeout) (omega (arith, waits_on-start (cb (happens timeouts t))))
    ]
on_timeout-IsSingle cb operation_aborted t keeps h = h
on_timeout-IsSingle cb other t keeps h = h

complete-IsSingle :
    (cb : Timer → Timer) (t : Timer)
    → ((u : Timer) → IsSingle u → IsSingle (cb u))
    → IsSingle t
    → IsSingle (complete cb t)
unfolding complete waits_left
complete-IsSingle cb t keeps h = elim (Option-cases (next_over t.waits)) [
  | inl idle ↦ rw (idle, complete) h
  | inr ((ec, ws), found) ↦
      rw (found, complete)
        (on_timeout-IsSingle cb ec (record t { waits = ws }) keeps
          (omega (arith, h, rw (found, waits_left) at (waits_left-next_over t.waits))))
]

-- What is done to the timer from outside: it is started, with an interval of its own or not,
-- stopped, made single-shot or not, the time passes, and the io_context calls a handler.
pub data TimerCall : Type 0 where
  starts stops completes : TimerCall
  starts_interval elapses : ℕ → TimerCall
  single_shots : Bool → TimerCall

unfoldable pub apply : (Timer → Timer) → TimerCall → Timer → Timer
unfolding start stop complete start_interval elapse single_shot
apply cb starts t = start t
apply cb stops t = stop t
apply cb completes t = complete cb t
apply cb (starts_interval ms) t = start_interval ms t
apply cb (elapses ms) t = elapse ms t
apply cb (single_shots ena) t = single_shot ena t

unfoldable pub run : (Timer → Timer) → List TimerCall → Timer → Timer
unfolding apply
run cb [] t = t
run cb (c ∷ cs) t = run cb cs (apply cb c t)

apply-IsSingle :
    (cb : Timer → Timer) (c : TimerCall) (t : Timer)
    → ((u : Timer) → IsSingle u → IsSingle (cb u))
    → IsSingle t
    → IsSingle (apply cb c t)
unfolding apply stop cancel start_interval interval elapse single_shot
apply-IsSingle cb starts t keeps h = omega (arith, waits_on-start t)
apply-IsSingle cb stops t keeps h = omega (arith, waits_on-abort_all t.waits)
apply-IsSingle cb completes t keeps h = complete-IsSingle cb t keeps h
apply-IsSingle cb (starts_interval ms) t keeps h =
    omega (arith, waits_on-start (record t { m_interval = ms }))
apply-IsSingle cb (elapses ms) t keeps h = elim (Bool-cases (leb t.expiry (t.now + ms))) [
  | inl expired ↦ rw (expired, elapse) (omega (arith, waits_on-due_all t.waits))
  | inr early ↦ rw (early, elapse) h
]
apply-IsSingle cb (single_shots ena) t keeps h = h

-- However a timer is used, it has one wait at most that is still on, so that it is not called twice
-- for one expiry. That is if its callback, too, keeps to one wait, as one does that uses the timer
-- in these ways.
pub run-IsSingle :
    (cb : Timer → Timer) (cs : List TimerCall) (t : Timer)
    → ((u : Timer) → IsSingle u → IsSingle (cb u))
    → IsSingle t
    → IsSingle (run cb cs t)
unfolding run
run-IsSingle cb [] t keeps h = h
run-IsSingle cb (c ∷ cs) t keeps h =
    run-IsSingle cb cs (apply cb c t) keeps (apply-IsSingle cb c t keeps h)

pub stop-IsSingle : (t : Timer) → IsSingle (stop t)
unfolding stop cancel
stop-IsSingle t = omega (arith, waits_on-abort_all t.waits)
