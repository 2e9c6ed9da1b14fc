-- ===== src/Poller/Wire.antt =====
-- Both ends of a connection in socket_poller_zmq.cpp: what one poller sends, and what the poller
-- at the other end makes of the frames that ZeroMQ hands on.
use debianbox.Base.{ℕ, ◌^◌, ◌<◌, ◌≡◌, refl, ap, ◌∙◌, arith, List, [], ◌∷◌, some, true}
use debianbox.Sockets.{router, dealer, SocketInfo}
use debianbox.Poller.{
  Frame, Effect, sends, posts, Poller, Zmq, then_run, done, frame, load_at, find_info,
  search_handle, get_zmq_socket_info, socket_recv_data, accepted,
}
use debianbox.Poller.Traffic.{
  Inbound, data_frames, parse_send_data, receive, receive_command, receive_data, parse_recv_data,
}
use debianbox.Poller.Routing.{send_frames, after, load-word, bind-done, parse_send_data-single}

-- What the poller at the end of a connection posts for a message.
abbrev received : Zmq → SocketInfo → ℕ → List ℕ → List ℕ → ℕ → Effect
received z s type_id payload peer_id fd =
    posts type_id payload s.channel_name peer_id (z.peer_address fd) true

module _ (z : Zmq) (k : ℕ) (peer_id payload : List ℕ) (fd type_id a : ℕ) (s : SocketInfo)
    (q : Poller) (small : type_id < 256 ^ 4) (found : search_handle k q.sockets ≡ some (a, s)) where
  abbrev frames : List Frame
  frames = data_frames type_id payload

  abbrev inbound : List Frame → Inbound
  inbound msg = record { frames = msg; source_fd = fd }

  -- At a client the command stands first.
  receive-bare :
      receive z k peer_id 0 (inbound frames) q
      ≡ done tt (after q (received z s type_id payload peer_id fd ∷ []))
  unfolding receive receive_command receive_data get_zmq_socket_info load_at frame
  receive-bare =
      ap (λ o. then_run (load_at 4 0 frames q) (receive_command z o peer_id 0 (inbound frames)))
        found
      ∙ bind-done (load_at 4 0 frames) _ q q socket_recv_data
          (load-word socket_recv_data q (omega arith))
      ∙ bind-done (load_at 4 1 frames) _ q q type_id (load-word type_id q small)

  -- At a server it stands behind the id of the peer.
  receive-routed :
      receive z k peer_id 1 (inbound (peer_id ∷ frames)) q
      ≡ done tt (after q (received z s type_id payload peer_id fd ∷ []))
  unfolding receive receive_command receive_data get_zmq_socket_info load_at frame
  receive-routed =
      ap
        (λ o.
          then_run (load_at 4 1 (peer_id ∷ frames) q)
            (receive_command z o peer_id 1 (inbound (peer_id ∷ frames))))
        found
      ∙ bind-done (load_at 4 1 (peer_id ∷ frames)) _ q q socket_recv_data
          (load-word socket_recv_data q (omega arith))
      ∙ bind-done (load_at 4 2 (peer_id ∷ frames)) _ q q type_id (load-word type_id q small)

  parse_recv_data-bare :
      z.type_of k ≡ some dealer
      → peer_id ≡ 0 ∷ []
      → parse_recv_data z k (some (inbound frames)) q
        ≡ done tt (after q (received z s type_id payload peer_id fd ∷ []))
  unfolding parse_recv_data
  parse_recv_data-bare is_client no_id = rw (is_client, ← no_id) receive-bare

  parse_recv_data-routed :
      z.type_of k ≡ some router
      → parse_recv_data z k (some (inbound (peer_id ∷ frames))) q
        ≡ done tt (after q (received z s type_id payload peer_id fd ∷ []))
  unfolding parse_recv_data frame
  parse_recv_data-routed is_server = rw is_server receive-routed

-- A message that a client's channel sends, and that ZeroMQ accepts, crosses as one message; a
-- server's poller that is handed that message, behind the id of the client, posts to its channel
-- the type id and the bytes that were sent, with the id and the address of the client, and does
-- nothing else.
pub client_to_server :
    (z w : Zmq) (p q : Poller) (sender payload peer_id : Frame) (a b type_id h k fd : ℕ)
    (s t : SocketInfo)
    → a < 256 ^ 8
    → type_id < 256 ^ 4
    → find_info a p.sockets ≡ some s
    → s.socket_type ≡ dealer
    → s.zmq_socket ≡ some h
    → z.send_result h (data_frames type_id payload) ≡ accepted
    → search_handle k q.sockets ≡ some (b, t)
    → w.type_of k ≡ some router
    → (crossing : List Frame) × (parse_send_data z
          (some (send_frames sender a [] type_id payload))
          p
        ≡ done tt (after p (sends h crossing ∷ [])))
      × (parse_recv_data w k (some (record { frames = peer_id ∷ crossing; source_fd = fd })) q
          ≡ done tt (after q (received w t type_id payload peer_id fd ∷ [])))
client_to_server z w p q sender payload peer_id a b type_id h k fd s t ha ht hs client is_open ok
      found is_server =
    (
      data_frames type_id payload,
      parse_send_data-single z p sender [] payload a type_id h s (data_frames type_id payload) ha ht
            hs is_open (client, refl)
          ∙ rw ok,
      parse_recv_data-routed w k peer_id payload fd type_id b t q ht found is_server,
    )

-- A message that a server's channel sends to a peer that it names, and that ZeroMQ accepts,
-- crosses as one message behind the id of the peer; the peer's poller, that is handed the message
-- without the id, posts to its channel the type id and the bytes that were sent, with an id of a
-- zero byte and the address of the server, and does nothing else.
pub server_to_client :
    (z w : Zmq) (p q : Poller) (sender payload id : Frame) (a b c type_id h k fd : ℕ)
    (s t : SocketInfo)
    → a < 256 ^ 8
    → type_id < 256 ^ 4
    → find_info a p.sockets ≡ some s
    → s.zmq_socket ≡ some h
    → z.send_result h ((c ∷ id) ∷ data_frames type_id payload) ≡ accepted
    → search_handle k q.sockets ≡ some (b, t)
    → w.type_of k ≡ some dealer
    → (crossing : List Frame) × (parse_send_data z
          (some (send_frames sender a (c ∷ id) type_id payload))
          p
        ≡ done tt (after p (sends h ((c ∷ id) ∷ crossing) ∷ [])))
      × (parse_recv_data w k (some (record { frames = crossing; source_fd = fd })) q
          ≡ done tt (after q (received w t type_id payload (0 ∷ []) fd ∷ [])))
server_to_client z w p q sender payload id a b c type_id h k fd s t ha ht hs is_open ok found
      is_client =
    (
      data_frames type_id payload,
      parse_send_data-single z p sender (c ∷ id) payload a type_id h s
            ((c ∷ id) ∷ data_frames type_id payload) ha ht hs is_open refl
          ∙ rw ok,
      parse_recv_data-bare w k (0 ∷ []) payload fd type_id b t q ht found is_client refl,
    )
