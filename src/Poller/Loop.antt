-- ===== src/Poller/Loop.antt =====
-- The loop of socket_poller_zmq.cpp: what `thread_poll` does in one round, when `zmq::poll` has
-- returned.
use debianbox.Base.{
  ℕ, zero, suc, List, [], ◌∷◌, ◌++◌, Option, none, some, Bool, false, if◌then◌else◌, get_elem?,
}
use Prim.Native.String.{String}
use debianbox.Poller.{
  binds, codes, fresh, or_throw, effect, undefined, thrown, uncaught, Frame, PollItem, Poller, Zmq,
  done, M, ◌>>=◌, ◌>>◌, skip, needs,
}
use debianbox.Poller.Control.{parse_ctrl_data}
use debianbox.Poller.Traffic.{Inbound, parse_send_data, parse_recv_data, parse_event_data}

-- What `helpers::recv_multipart` finds: a message, none for now, or an error other than `EAGAIN`,
-- of which `__recv` throws `error_t`.
pub data Receipt (A : Type 0) : Type 0 where
  arrived : A → Receipt A
  nothing failed : Receipt A

-- A handler, from its receive on.
abbrev pub reading : {A : Type 0} → Receipt A → (Option A → M (Unit {0})) → M (Unit {0})
reading (arrived message) handler = handler (some message)
reading nothing handler = handler none
reading failed handler = λ p. uncaught

-- What the sockets hold: the messages that the round reads.
pub record Inbox : Type 0 where
  pub ctrl : Receipt (List Frame)
  pub to_send : Receipt (List Frame)
  pub data_of : ℕ → Receipt Inbound
  pub event_of : ℕ → Option Frame
  pub address_of : ℕ → Option Frame

-- `m_poll_items[i]`.
unfoldable pub item_at : ℕ → M PollItem
item_at i p = needs (get_elem? p.poll_items i) p

abbrev pub clear_item : ℕ → List PollItem → List PollItem
clear_item i [] = []
clear_item zero (item ∷ items) = record item { ready = false } ∷ items
clear_item (suc i) (item ∷ items) = item ∷ clear_item i items

-- `m_poll_items[i].revents = 0`.
unfoldable pub clear : ℕ → M (Unit {0})
clear i p = done tt (record p { poll_items = clear_item i p.poll_items })

-- One `if` of the round: the handler gets the socket of the item, if there is something to read.
unfoldable pub when_ready : ℕ → (ℕ → M (Unit {0})) → M (Unit {0})
unfolding item_at clear
when_ready i handler = do
  item ← item_at i
  if item.ready then (do handler item.socket; clear i) else skip

-- A socket of a channel and its monitor, the items `i` and `i + 1`.
unfoldable pub serve_pair : Zmq → Inbox → ℕ → M (Unit {0})
unfolding when_ready item_at parse_recv_data parse_event_data
serve_pair z inbox i = do
  when_ready i (λ h. reading (inbox.data_of h) (parse_recv_data z h))
  when_ready (suc i) (λ m. do
    item ← item_at i
    parse_event_data z item.socket (inbox.event_of m) (inbox.address_of m))

-- The `for` of the round from `i` on; the handlers it calls leave the items as many as they are,
-- and `todo` is the list of those that are left.
unfoldable pub serve_pairs : Zmq → Inbox → ℕ → List PollItem → M (Unit {0})
unfolding serve_pair
serve_pairs z inbox i [] = skip
serve_pairs z inbox i (item ∷ []) = skip
serve_pairs z inbox i (item ∷ monitor ∷ todo) = do
  serve_pair z inbox i
  serve_pairs z inbox (suc (suc i)) todo

abbrev pub pairs_of : List PollItem → List PollItem
pairs_of [] = []
pairs_of (item ∷ []) = []
pairs_of (item ∷ next ∷ rest) = rest

abbrev pub serve_all : Zmq → Inbox → M (Unit {0})
serve_all z inbox p = serve_pairs z inbox 2 (pairs_of p.poll_items) p

-- The body of the `while`.
unfoldable pub round : Zmq → Inbox → M (Unit {0})
unfolding when_ready parse_ctrl_data parse_send_data serve_pairs
round z inbox = do
  when_ready 1 (λ h. reading inbox.ctrl (parse_ctrl_data z))
  when_ready 0 (λ h. reading inbox.to_send (parse_send_data z))
  serve_all z inbox

-- The beginning of `thread_poll`: the two sockets of its own, bound, and their items, of which the
-- first is `HDK_POLL_ITEM_SEND`. `p` is the object as it was constructed.
abbrev pub bind_own : Zmq → ℕ → String → M (Unit {0})
bind_own z h address = do
  or_throw (z.endpoint_ok h (codes address))
  effect (binds h (codes address))

abbrev pub own_items : ℕ → ℕ → M (Unit {0})
own_items sending control p = done tt (record p {
  send_socket = sending;
  ctrl_socket = control;
  poll_items =
      p.poll_items
      ++ record { socket = sending; ready = false }
        ∷ record { socket = control; ready = false }
        ∷ [];
})

unfoldable pub begin : Zmq → M (Unit {0})
begin z = do
  sending ← fresh
  or_throw (z.socket_ok sending)
  bind_own z sending "inproc://send_socket"
  control ← fresh
  or_throw (z.socket_ok control)
  bind_own z control "inproc://ctrl_socket"
  own_items sending control

-- How the thread goes: it waits in `zmq::poll` for the next round, it has exited, with the message
-- on `std::cout`, or the process has ended.
pub data Thread : Type 0 where
  polling : Poller → Thread
  exited ended : Thread

abbrev pub polled : List Bool → List PollItem → List PollItem
polled flags [] = []
polled [] (item ∷ items) = item ∷ items
polled (f ∷ flags) (item ∷ items) = record item { ready = f } ∷ polled flags items

-- `zmq::poll`, if it does not throw, sets `revents` of every item.
abbrev pub poll : List Bool → Poller → Poller
poll flags p = record p { poll_items = polled flags p.poll_items }

-- The `while`, for as many rounds as there are answers of `zmq::poll`, of which `none` is that it
-- throws, and messages that came.
unfoldable pub rounds : Zmq → List (Option (List Bool) × Inbox) → Poller → Thread
unfolding round
rounds z [] p = polling p
rounds z ((none, inbox) ∷ rest) p = exited
rounds z ((some flags, inbox) ∷ rest) p = elim (round z inbox (poll flags p)) [
  | done u q ↦ rounds z rest q
  | thrown es ↦ exited
  | undefined ↦ ended
  | uncaught ↦ ended
]

-- `thread_poll`.
unfoldable pub thread_poll : Zmq → List (Option (List Bool) × Inbox) → Poller → Thread
unfolding begin rounds
thread_poll z answers p = elim (begin z p) [
  | done u q ↦ rounds z answers q
  | thrown es ↦ exited
  | undefined ↦ ended
  | uncaught ↦ ended
]

-- `shutdown`, until the thread has been joined: every call of ZeroMQ on the context fails then, and
-- `zmq::poll` throws.
unfoldable pub shutdown : Thread → Thread
shutdown (polling p) = exited
shutdown exited = exited
shutdown ended = ended
