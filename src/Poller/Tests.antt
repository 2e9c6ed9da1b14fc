-- ===== src/Poller/Tests.antt =====
-- Runs of the poller, and the theorems about it at inputs.
use debianbox.Base.{
  ℕ, suc, ◌≡◌, refl, List, [], ◌∷◌, ◌++◌, Option, some, none, Bool, true, false, arith, ◌==◌,
}
use debianbox.Sockets.{router, make_info, add}
use debianbox.Poller.{
  Frame, Effect, sends, notifies, closes, Poller, Zmq, done, thrown, undefined, find_info,
  search_handle, word, socket_recv_data,
}
use debianbox.Poller.Control.{parse_ctrl_data, parse_socket_create, parse_socket_open}
use debianbox.Poller.Traffic.{
  data_frames, parse_send_data, parse_recv_data, handle_event, event_connected, event_disconnected,
}
use debianbox.Poller.Reading.{parse_recv_data-undefined}
use debianbox.Poller.Reception.{with_info, status, handshake, disconnected}
use debianbox.Poller.Items.{open_frames, close_frames, opened, Quiet}
use debianbox.Poller.Creation.{create_frames, remove_frames, read_reply, create-open-remove}
use debianbox.Poller.Opening.{Notifies, open-close, open-thrown}
use debianbox.Marshall.Bytes.{to_bytes, from_bytes, read}
use debianbox.Poller.Routing.{send_frames, after, parse_send_data-broadcast}
use debianbox.Poller.Reopening.{Did, renewed, reopen-stale}
use debianbox.Poller.Loop.{Inbox, arrived, nothing, round, Thread, polling, thread_poll}
use debianbox.Poller.Pairs.{IsPaired}
use debianbox.Poller.Pairs.Runs.{thread_poll-IsPaired}
use debianbox.Poller.Watched.{Leaves}
use debianbox.Poller.Watched.Rounds.{round-Leaves}
use debianbox.Poller.Example.{alice, bob, server, client, idle, poller, zmq}

parse_send_data-broadcast_example :
    parse_send_data zmq (some (send_frames [] 100 [] 7 (3 ∷ 4 ∷ []))) poller
    ≡ done tt (after poller (sends 5 ((1 ∷ 7 ∷ []) ∷ data_frames 7 (3 ∷ 4 ∷ [])) ∷ []))
unfolding find_info
parse_send_data-broadcast_example =
    parse_send_data-broadcast zmq poller [] (3 ∷ 4 ∷ []) 100 7 5 server (omega arith) (omega arith)
      refl refl refl ((λ e. cc), ((λ e. cc), tt))

parse_recv_data-undefined_example :
    parse_recv_data zmq 5
      (some (record { frames = (1 ∷ []) ∷ word socket_recv_data ∷ []; source_fd = 3 }))
      poller
    ≡ undefined
parse_recv_data-undefined_example =
    parse_recv_data-undefined zmq poller 5 3 (1 ∷ []) [] refl (omega arith)

handshake_example :
    (crossing : List Frame) × (handle_event zmq 8 event_connected 40
        (116 ∷ [])
        (some (101, client))
        poller
      ≡ done tt
          (after (with_info 101 client poller) (sends 8 crossing ∷ status client true [] [] ∷ [])))
    × (parse_recv_data zmq 5 (some (record { frames = (3 ∷ []) ∷ crossing; source_fd = 14 })) poller
        ≡ done tt (
            after
              (with_info 100
                (add (record { peer_id = 3 ∷ []; peer_address = 14 ∷ []; peer_fd = 14 }) server)
                poller)
              (status server true (3 ∷ []) (14 ∷ []) ∷ [])))
unfolding search_handle to_bytes
handshake_example =
    handshake zmq zmq poller poller 8 5 40 101 100 14 (116 ∷ []) (3 ∷ []) client server refl refl
      refl

disconnected_example :
    handle_event zmq 5 event_disconnected 13 [] (some (100, server)) poller
    ≡ done tt (
        after
          (with_info 100 (record server { peers = alice ∷ []; connected = true }) poller)
          (status server false (2 ∷ []) (50 ∷ []) ∷ []))
disconnected_example =
    disconnected zmq poller 5 100 [] server (alice ∷ []) [] bob refl refl (refl, tt)

open-close_example :
    (q r : Poller) × (parse_ctrl_data zmq (some (open_frames [] (42 ∷ []) 102 3000 4000)) poller
      ≡ done tt q)
    × (parse_ctrl_data zmq (some (close_frames [] 102 3000 4000)) q ≡ done tt r)
    × (q.poll_items ≡ poller.poll_items ++ idle 20 ∷ idle 21 ∷ [])
    × (r.poll_items ≡ poller.poll_items)
    × (find_info 102 r.sockets ≡ some (make_info (99 ∷ []) router))
    × Notifies 3000 q
    × Notifies 3000 r
unfolding find_info make_info
open-close_example =
    open-close zmq [] (42 ∷ []) 102 3000 4000 (omega arith) (omega arith) (omega arith) poller
      (99 ∷ []) router (λ e. omega arith) refl (refl, refl, λ o. refl, refl, refl, refl) refl
      (refl, (refl, (refl, (refl, (refl, (refl, tt))))))

-- The address of the socket 20 cannot be reached.
abbrev offline : Zmq
offline = record zmq { endpoint_ok = λ s address. s == 21 }

open-thrown_example :
    (es : List Effect) × (parse_ctrl_data offline
        (some (open_frames [] (42 ∷ []) 102 3000 4000))
        poller
      ≡ thrown es)
    × Quiet poller.effects es
unfolding find_info make_info
open-thrown_example =
    open-thrown offline [] (42 ∷ []) 102 3000 4000 (omega arith) (omega arith) (omega arith) poller
      (99 ∷ []) router (λ e. omega arith) refl (refl, refl, λ o. refl, refl, refl, refl) refl

create-open-remove_example :
    (answer : Frame) × (a : ℕ) × (q o r : Poller) × (parse_ctrl_data zmq
        (some (create_frames [] (100 ∷ []) router 3000 4000))
        poller
      ≡ done tt q)
    × (parse_ctrl_data zmq (some (open_frames [] (42 ∷ []) a 3000 4000)) q ≡ done tt o)
    × (parse_ctrl_data zmq (some (remove_frames [] a 3000 4000)) o ≡ done tt r)
    × (read_reply answer ≡ some a)
    × (q.effects ≡ sends 2 ([] ∷ answer ∷ []) ∷ notifies 3000 ∷ [])
    × (q.sockets ≡ poller.sockets ++ (a, make_info (100 ∷ []) router) ∷ [])
    × (q.poll_items ≡ poller.poll_items)
    × (o.sockets ≡ poller.sockets ++ (a, opened (100 ∷ []) router (suc a)) ∷ [])
    × (o.poll_items ≡ poller.poll_items ++ idle (suc a) ∷ idle (suc (suc a)) ∷ [])
    × (r.sockets ≡ poller.sockets)
    × (r.poll_items ≡ poller.poll_items)
    × Notifies 3000 o
    × Notifies 3000 r
create-open-remove_example =
    create-open-remove zmq [] 3000 4000 (omega arith) (omega arith) poller (100 ∷ []) (42 ∷ [])
      router refl (omega arith) (λ e. omega arith) (refl, (refl, (refl, tt)))
      (refl, (refl, (refl, (refl, (refl, (refl, tt)))))) (refl, refl, λ o. refl, refl, refl, refl)
      refl

reopen-stale_example :
    (q : Poller) × (parse_ctrl_data zmq (some (open_frames [] (42 ∷ []) 100 3000 4000)) poller
      ≡ done tt q)
    × (q.poll_items ≡ poller.poll_items ++ idle 20 ∷ idle 21 ∷ [])
    × (find_info 100 q.sockets ≡ some (renewed server 20))
    × Did (closes 5) q.effects
    × Notifies 3000 q
unfolding find_info
reopen-stale_example =
    reopen-stale zmq [] (42 ∷ []) 100 3000 4000 poller server 5 6 (omega arith) (omega arith)
      (omega arith) (λ e. omega arith) refl refl refl (refl, refl, λ o. refl, refl, refl, refl) refl

-- The socket 5 has something to read.
abbrev busy : Poller
busy = record poller {
  poll_items = idle 1 ∷ idle 2 ∷ record { socket = 5; ready = true } ∷ idle 6 ∷ [];
}

abbrev inbox : Inbox
inbox = record {
  ctrl = nothing;
  to_send = nothing;
  data_of =
      λ h. arrived (record { frames = (1 ∷ 7 ∷ []) ∷ data_frames 7 (3 ∷ []); source_fd = 12 });
  event_of = λ h. none;
  address_of = λ h. none;
}

round-Leaves_example : Leaves busy (round zmq inbox busy)
round-Leaves_example = round-Leaves zmq inbox busy (idle 2) refl refl

-- A poller as it is constructed, and three rounds: a channel's socket is created, opened, and opened
-- again.
abbrev new : Poller
new = record poller { sockets = []; poll_items = [] }

abbrev told : List Frame → Option (List Bool) × Inbox
told frames = (some (false ∷ true ∷ []), record inbox { ctrl = arrived frames })

abbrev answers : List (Option (List Bool) × Inbox)
answers =
    told (create_frames (7 ∷ []) (99 ∷ []) router 30 31)
    ∷ told (open_frames (7 ∷ []) (116 ∷ []) 22 30 31)
    ∷ told (open_frames (7 ∷ []) (116 ∷ []) 22 30 31)
    ∷ []

abbrev state_of : Thread → Poller
state_of (polling q) = q
state_of Thread.exited = new
state_of Thread.ended = new

polled_by_now : Poller
unfolding thread_poll
polled_by_now = state_of (thread_poll zmq answers new)

polled_items :
    polled_by_now.poll_items ≡ idle 20 ∷ idle 21 ∷ idle 23 ∷ idle 24 ∷ idle 25 ∷ idle 26 ∷ []
unfolding polled_by_now read to_bytes from_bytes parse_socket_create parse_socket_open
polled_items = refl

still_polling : thread_poll zmq answers new ≡ polling polled_by_now
unfolding thread_poll polled_by_now read to_bytes from_bytes parse_socket_create parse_socket_open
still_polling = refl

thread_poll-IsPaired_example : IsPaired polled_by_now
thread_poll-IsPaired_example =
    thread_poll-IsPaired zmq answers new polled_by_now refl refl still_polling
