-- ===== src/Poller/Pairs/Runs.antt =====
-- The poll items of socket_poller_zmq.cpp through the rounds of `thread_poll`.
use debianbox.Base.{
  ◌≢◌, ℕ, suc, ◌≡◌, refl, sym, ap, ◌∙◌, subst, arith, List, [], ◌∷◌, ◌++◌, Option, none, some, Bool,
  false, get_elem?,
}
use mathlib.Core.List.{map-append}
use Prim.Native.String.{String}
use debianbox.Poller.{Poller, PollItem, Zmq, Run, M, done, undefined, thrown, uncaught, ◌>>=◌}
use debianbox.Poller.Loop.{
  Receipt, arrived, nothing, failed, reading, Inbox, item_at, clear, when_ready, serve_pair,
  serve_pairs, pairs_of, round, begin, bind_own, own_items, Thread, polling, exited, ended, polled,
  poll, rounds, thread_poll,
}
use debianbox.Poller.Traffic.{parse_recv_data, parse_event_data, parse_send_data}
use debianbox.Poller.Control.{parse_ctrl_data}
use debianbox.Poller.Watched.{watched}
use debianbox.Poller.Watched.Rounds.{clear_item_lem}
use debianbox.Poller.Pairs.{
  own_of, AllFit, Shape, IsPaired, Leads, Moves, Preserves, Any, preserves, then-Moves,
  then-Preserves, skip-Preserves, needs-Preserves, effect-Preserves,
}
use debianbox.Poller.Pairs.Items.{handles_of}
use debianbox.Poller.Pairs.Control.{At, At-Ignores, At-IsPaired, fresh-Moves, throw-Preserves}
use debianbox.Poller.Pairs.Messages.{
  Pairing, control-Preserves, sending-Preserves, receiving-Preserves, events-Preserves,
}

reading-Preserves :
    {A : Type 0} (r : Receipt A) (f : Option A → M (Unit {0}))
    → ((o : Option A) → Pairing (f o))
    → Pairing (reading r f)
reading-Preserves (arrived a) f h p i = h (some a) p i
reading-Preserves nothing f h p i = h none p i
reading-Preserves failed f h p i = tt

-- Other flags on the same items.
flags-IsPaired :
    (p : Poller) (items : List PollItem)
    → handles_of items ≡ watched p
    → IsPaired p
    → IsPaired (record p { poll_items = items })
flags-IsPaired p items e i = (
  subst (Shape (own_of p) p.next) (sym e) i.0,
  subst (λ w. AllFit w p.next p.sockets) (sym e) i.1,
)

item_at-Preserves : (i : ℕ) → Preserves IsPaired Any (item_at i)
unfolding item_at
item_at-Preserves i p h = needs-Preserves IsPaired (get_elem? p.poll_items i) p h

clear-Preserves : (i : ℕ) → Pairing (clear i)
unfolding clear
clear-Preserves i p h = (flags-IsPaired p _ (clear_item_lem i p.poll_items) h, tt)

when_ready-Preserves :
    (i : ℕ) (handler : ℕ → M (Unit {0}))
    → ((h : ℕ) → Pairing (handler h))
    → Pairing (when_ready i handler)
unfolding when_ready
when_ready-Preserves i handler k = search (preserves, item_at-Preserves, clear-Preserves)

served-Preserves :
    (z : Zmq) (inbox : Inbox) (i m : ℕ)
    → Pairing (
        item_at i >>= λ item.
        parse_event_data z item.socket (inbox.event_of m) (inbox.address_of m))
served-Preserves z inbox i m = search (preserves, item_at-Preserves, events-Preserves)

serve_pair-Preserves : (z : Zmq) (inbox : Inbox) (i : ℕ) → Pairing (serve_pair z inbox i)
unfolding serve_pair
serve_pair-Preserves z inbox i =
    then-Preserves IsPaired Any _ _
      (when_ready-Preserves i _
        (λ h. reading-Preserves (inbox.data_of h) (parse_recv_data z h) (receiving-Preserves z h)))
      (λ u. when_ready-Preserves (suc i) _ (served-Preserves z inbox i))

serve_pairs-Preserves :
    (z : Zmq) (inbox : Inbox) (i : ℕ) (todo : List PollItem) → Pairing (serve_pairs z inbox i todo)
unfolding serve_pairs
serve_pairs-Preserves z inbox i [] = skip-Preserves IsPaired
serve_pairs-Preserves z inbox i (item ∷ []) = skip-Preserves IsPaired
serve_pairs-Preserves z inbox i (item ∷ monitor ∷ todo) =
    then-Preserves IsPaired Any _ _ (serve_pair-Preserves z inbox i)
      (λ u. serve_pairs-Preserves z inbox (suc (suc i)) todo)

round-Preserves : (z : Zmq) (inbox : Inbox) → Pairing (round z inbox)
unfolding round
round-Preserves z inbox =
    then-Preserves IsPaired Any _ _
      (when_ready-Preserves 1 _
        (λ h. reading-Preserves inbox.ctrl (parse_ctrl_data z) (control-Preserves z)))
      (λ u.
        then-Preserves IsPaired Any _ _
          (when_ready-Preserves 0 _
            (λ h. reading-Preserves inbox.to_send (parse_send_data z) (sending-Preserves z)))
          (λ v p. serve_pairs-Preserves z inbox 2 (pairs_of p.poll_items) p))

polled_lem :
    (flags : List Bool) (items : List PollItem) → handles_of (polled flags items) ≡ handles_of items
polled_lem flags [] = refl
polled_lem [] (item ∷ items) = refl
polled_lem (f ∷ flags) (item ∷ items) = ap (λ l. item.socket ∷ l) (polled_lem flags items)

abbrev PairedThread : Thread → Type 0
PairedThread (polling q) = IsPaired q
PairedThread exited = Unit {0}
PairedThread ended = Unit {0}

-- The thread after a part that leaves the items in pairs.
after-Paired :
    (go : Poller → Thread) (r : Run (Unit {0}))
    → Leads IsPaired Any r
    → ((q : Poller) → IsPaired q → PairedThread (go q))
    → PairedThread
        (elim r [ done u q ↦ go q | thrown es ↦ exited | undefined ↦ ended | uncaught ↦ ended ])
after-Paired go (done u q) h k = k q h.0
after-Paired go undefined h k = tt
after-Paired go (thrown es) h k = tt
after-Paired go uncaught h k = tt

rounds-Paired :
    (z : Zmq) (answers : List (Option (List Bool) × Inbox)) (p : Poller)
    → IsPaired p
    → PairedThread (rounds z answers p)
unfolding rounds
rounds-Paired z [] p i = i
rounds-Paired z ((none, inbox) ∷ rest) p i = tt
rounds-Paired z ((some flags, inbox) ∷ rest) p i =
    after-Paired (rounds z rest) (round z inbox (poll flags p))
      (round-Preserves z inbox (poll flags p)
        (flags-IsPaired p _ (polled_lem flags p.poll_items) i))
      (λ q j. rounds-Paired z rest q j)

self_ne_suc : (n : ℕ) → n ≢ suc n
self_ne_suc n = ground arith

own-Moves :
    (own : ℕ × ℕ) (n : ℕ) → Moves (At own [] (suc (suc n)) []) IsPaired Any (own_items n (suc n))
own-Moves own n p (e, e', e'', o) = (
  At-IsPaired (n, suc n) (n ∷ suc n ∷ []) (suc (suc n)) []
      (omega arith, omega arith, tt, refl, refl, self_ne_suc n) tt
      (record p {
        send_socket = n;
        ctrl_socket = suc n;
        poll_items =
            p.poll_items
            ++ record { socket = n; ready = false } ∷ record { socket = suc n; ready = false } ∷ [];
      })
      (map-append (λ i. i.socket) p.poll_items _ ∙ ap (λ l. l ++ n ∷ suc n ∷ []) e, e', e'', refl),
  tt,
)

bind-At :
    (own : ℕ × ℕ) (n : ℕ) (z : Zmq) (h : ℕ) (address : String)
    → Preserves (At own [] n []) Any (bind_own z h address)
bind-At own n z h address = search (then-Preserves, throw-Preserves, effect-Preserves, At-Ignores)

begin-Moves : (z : Zmq) (own : ℕ × ℕ) (n : ℕ) → Moves (At own [] n []) IsPaired Any (begin z)
unfolding begin
begin-Moves z own n = search (then-Moves, fresh-Moves, throw-Preserves, bind-At, own-Moves) depth 14

-- Whatever the channels and the peers send, whatever ZeroMQ answers or refuses, and also if a socket
-- is opened twice: as long as the thread goes on polling, the first two of its poll items are
-- `m_send_socket` and `m_ctrl_socket`, which are different sockets, and the others are pairs, each a
-- socket of a channel and behind it the monitor that was made right after it; the socket that a record
-- holds is none of the first two and none of the monitors that are polled, and the record's monitor is
-- the one made right after its socket. The poller starts without records and items, and the handle of
-- a socket is not given to a later one.
pub thread_poll-IsPaired :
    (z : Zmq) (answers : List (Option (List Bool) × Inbox)) (p q : Poller)
    → p.sockets ≡ []
    → p.poll_items ≡ []
    → thread_poll z answers p ≡ polling q
    → IsPaired q
unfolding thread_poll
thread_poll-IsPaired z answers p q none_open none_polled e = subst PairedThread e (
    after-Paired (rounds z answers) (begin z p)
      (begin-Moves z (own_of p) p.next p (ap handles_of none_polled, refl, none_open, refl))
      (λ s i. rounds-Paired z answers s i))
