-- ===== src/Poller/Reception.antt =====
-- The peers of a server in socket_poller_zmq.cpp: how a client makes itself known, how it is
-- forgotten, and which messages of a peer the poller can read.
use debianbox.Base.{
  ◌==◌, ℕ, ◌≡◌, ap, ◌∙◌, arith, List, [], ◌∷◌, ◌++◌, append_assoc, some, Bool, true, false,
  if◌then◌else◌,
}
use debianbox.Marshall.Bytes.{to_bytes}
use debianbox.Sockets.{router, PeerInfo, SocketInfo, is_empty, add}
use debianbox.Sockets.Peers.{None, remove_by_fd_lem}
use debianbox.Poller.{
  Frame, Effect, sends, posts, Poller, Zmq, then_run, done, frame, load_at, word, search_handle,
  get_zmq_socket_info, store, put_info, send_connection_state_msg, status_type_id, send_multipart,
  socket_connected, accepted,
}
use debianbox.Poller.Traffic.{
  Inbound, receive, receive_command, parse_recv_data, announce, beautify_address, handle_event,
  event_connected, event_disconnected, remove_peer_by_fd,
}
use debianbox.Poller.Routing.{after, load-word, bind-done}

-- The notice of a connection or of its end.
abbrev pub status : SocketInfo → Bool → List ℕ → List ℕ → Effect
status s up peer_id addr =
    posts status_type_id (to_bytes 1 (if up then 1 else 0)) s.channel_name peer_id addr false

abbrev pub with_info : ℕ → SocketInfo → Poller → Poller
with_info a s p = record p { sockets = put_info a s p.sockets }

-- What a client's poller does when its connection stands.
client-connected :
    (z : Zmq) (p : Poller) (k h value a : ℕ) (addr : List ℕ) (s : SocketInfo)
    → z.send_result k (word socket_connected ∷ []) ≡ accepted
    → handle_event z k event_connected value addr (some (a, s)) p
      ≡ done tt (
          after
            (with_info a (record s { connected = true }) p)
            (sends k (word socket_connected ∷ []) ∷ status s true [] (beautify_address addr) ∷ []))
unfolding handle_event announce send_multipart store send_connection_state_msg
client-connected z p k h value a addr s ok = rw ok (rw append_assoc)

server-greeted :
    (w : Zmq) (q : Poller) (k b fd : ℕ) (peer_id : List ℕ) (t : SocketInfo)
    → w.type_of k ≡ some router
    → search_handle k q.sockets ≡ some (b, t)
    → parse_recv_data w k
        (some (record { frames = peer_id ∷ word socket_connected ∷ []; source_fd = fd }))
        q
      ≡ done tt (
          after
            (with_info b
              (add (record { peer_id = peer_id; peer_address = w.peer_address fd; peer_fd = fd }) t)
              q)
            (status t true peer_id (w.peer_address fd) ∷ []))
unfolding parse_recv_data receive receive_command get_zmq_socket_info store
    send_connection_state_msg frame load_at
server-greeted w q k b fd peer_id t is_server found = rw is_server (
    ap (λ o. then_run (load_at 4 1 msg q) (receive_command w o peer_id 1 inbound)) found
    ∙ bind-done (load_at 4 1 msg) _ q q socket_connected
        (load-word socket_connected q (omega arith)))
  where
    msg : List Frame
    msg = peer_id ∷ word socket_connected ∷ []

    inbound : Inbound
    inbound = record { frames = msg; source_fd = fd }

-- When the connection of a client stands, the client's poller marks the channel as connected,
-- sends one message, if ZeroMQ accepts it, and posts the notice; a server's poller that is handed
-- that message behind the id of the client adds a peer with that id, its address and its
-- descriptor to its socket, and posts the notice with the same id and address. Neither does
-- anything else.
pub handshake :
    (z w : Zmq) (p q : Poller) (k h value a b fd : ℕ) (addr peer_id : List ℕ) (s t : SocketInfo)
    → z.send_result k (word socket_connected ∷ []) ≡ accepted
    → w.type_of h ≡ some router
    → search_handle h q.sockets ≡ some (b, t)
    → (crossing : List Frame) × (handle_event z k event_connected value addr (some (a, s)) p
        ≡ done tt (
            after
              (with_info a (record s { connected = true }) p)
              (sends k crossing ∷ status s true [] (beautify_address addr) ∷ [])))
      × (parse_recv_data w h (some (record { frames = peer_id ∷ crossing; source_fd = fd })) q
          ≡ done tt (
              after
                (with_info b
                  (add
                    (record { peer_id = peer_id; peer_address = w.peer_address fd; peer_fd = fd })
                    t)
                  q)
                (status t true peer_id (w.peer_address fd) ∷ [])))
handshake z w p q k h value a b fd addr peer_id s t ok is_server found = (
  word socket_connected ∷ [],
  client-connected z p k h value a addr s ok,
  server-greeted w q h b fd peer_id t is_server found,
)

-- When ZeroMQ reports that a descriptor has lost its connection, a server's poller takes the first
-- peer on that descriptor out of its socket, keeps the others in their order, clears the flag
-- `connected` if no peer is left, and posts the notice with the id and the address of that peer; it
-- does nothing else, to this record or to any other.
pub disconnected :
    (w : Zmq) (q : Poller) (h b : ℕ) (addr : List ℕ) (t : SocketInfo) (front back : List PeerInfo)
    (peer : PeerInfo)
    → w.type_of h ≡ some router
    → t.peers ≡ front ++ peer ∷ back
    → None (λ other. other.peer_fd == peer.peer_fd) front
    → handle_event w h event_disconnected peer.peer_fd addr (some (b, t)) q
      ≡ done tt (
          after
            (with_info b
              (record t {
                peers = front ++ back;
                connected = if is_empty (front ++ back) then false else t.connected;
              })
              q)
            (status t false peer.peer_id peer.peer_address ∷ []))
unfolding handle_event remove_peer_by_fd store send_connection_state_msg
disconnected w q h b addr t front back peer is_server e n =
    let found = remove_by_fd_lem t front back peer e n in rw (is_server, found.0, found.1)
