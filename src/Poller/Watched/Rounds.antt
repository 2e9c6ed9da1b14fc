-- ===== src/Poller/Watched/Rounds.antt =====
-- A round of `thread_poll` in socket_poller_zmq.cpp.
use debianbox.Base.{
  ℕ, zero, suc, ◌≡◌, refl, ap, List, [], ◌∷◌, Option, none, some, false, map, get_elem?,
}
use debianbox.Poller.{Zmq, Poller, PollItem, M, ◌>>=◌, ◌>>◌}
use debianbox.Poller.Traffic.{parse_recv_data, parse_event_data, parse_send_data}
use debianbox.Poller.Loop.{
  Receipt, arrived, nothing, failed, reading, Inbox, item_at, clear_item, clear, when_ready,
  serve_pair, serve_pairs, serve_all, pairs_of, round,
}
use debianbox.Poller.Watched.{Leaves, Keeps, keeps, bind-Keeps, skip-Keeps, needs-Keeps}
use debianbox.Poller.Watched.Handlers.{
  parse_send_data-Keeps, parse_recv_data-Keeps, parse_event_data-Keeps,
}

reading-Keeps :
    {A : Type 0} (r : Receipt A) (f : Option A → M (Unit {0}))
    → ((o : Option A) → Keeps (f o))
    → Keeps (reading r f)
reading-Keeps (arrived a) f h p = h (some a) p
reading-Keeps nothing f h p = h none p
reading-Keeps failed f h p = tt

item_at-Keeps : (i : ℕ) → Keeps (item_at i)
unfolding item_at
item_at-Keeps i p = needs-Keeps (get_elem? p.poll_items i) p

pub clear_item_lem :
    (i : ℕ) (items : List PollItem)
    → map (λ k. k.socket) (clear_item i items) ≡ map (λ k. k.socket) items
clear_item_lem zero [] = refl
clear_item_lem (suc i) [] = refl
clear_item_lem zero (item ∷ items) = refl
clear_item_lem (suc i) (item ∷ items) = ap (◌∷◌ item.socket) (clear_item_lem i items)

clear-Keeps : (i : ℕ) → Keeps (clear i)
unfolding clear
clear-Keeps i p = clear_item_lem i p.poll_items

when_ready-Keeps :
    (i : ℕ) (handler : ℕ → M (Unit {0}))
    → ((h : ℕ) → Keeps (handler h))
    → Keeps (when_ready i handler)
unfolding when_ready
when_ready-Keeps i handler k = search (keeps, item_at-Keeps, clear-Keeps)

served-Keeps :
    (z : Zmq) (inbox : Inbox) (i m : ℕ)
    → Keeps (
        item_at i >>= λ item.
        parse_event_data z item.socket (inbox.event_of m) (inbox.address_of m))
served-Keeps z inbox i m = search (keeps, item_at-Keeps, parse_event_data-Keeps)

serve_pair-Keeps : (z : Zmq) (inbox : Inbox) (i : ℕ) → Keeps (serve_pair z inbox i)
unfolding serve_pair
serve_pair-Keeps z inbox i =
    bind-Keeps _ _
      (when_ready-Keeps i _
        (λ h. reading-Keeps (inbox.data_of h) (parse_recv_data z h) (parse_recv_data-Keeps z h)))
      (λ u. when_ready-Keeps (suc i) _ (served-Keeps z inbox i))

serve_pairs-Keeps :
    (z : Zmq) (inbox : Inbox) (i : ℕ) (todo : List PollItem) → Keeps (serve_pairs z inbox i todo)
unfolding serve_pairs
serve_pairs-Keeps z inbox i [] = skip-Keeps
serve_pairs-Keeps z inbox i (item ∷ []) = skip-Keeps
serve_pairs-Keeps z inbox i (item ∷ monitor ∷ todo) =
    bind-Keeps _ _ (serve_pair-Keeps z inbox i) (λ u. serve_pairs-Keeps z inbox (suc (suc i)) todo)

-- What the round does after the control message.
rest-Keeps :
    (z : Zmq) (inbox : Inbox)
    → Keeps (when_ready 0 (λ h. reading inbox.to_send (parse_send_data z)) >> serve_all z inbox)
rest-Keeps z inbox =
    bind-Keeps _ _
      (when_ready-Keeps 0 _
        (λ h. reading-Keeps inbox.to_send (parse_send_data z) (parse_send_data-Keeps z)))
      (λ u p. serve_pairs-Keeps z inbox 2 (pairs_of p.poll_items) p)

-- A round in which no control message is ready leaves the sockets that are watched, in their order,
-- as they are, whatever messages and events it deals with, if it ends without an exception.
pub round-Leaves :
    (z : Zmq) (inbox : Inbox) (p : Poller) (item : PollItem)
    → get_elem? p.poll_items 1 ≡ some item
    → item.ready ≡ false
    → Leaves p (round z inbox p)
unfolding round when_ready item_at
round-Leaves z inbox p item there quiet = rw (there, quiet) (rest-Keeps z inbox p)
