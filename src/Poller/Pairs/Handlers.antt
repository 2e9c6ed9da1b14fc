-- ===== src/Poller/Pairs/Handlers.antt =====
-- What the handlers of data and events of socket_poller_zmq.cpp do to the records of sockets.
use debianbox.Base.{
  ℕ, List, [], ◌∷◌, Option, none, some, Bool, Bool-cases, inl, inr, ◌==◌, true, false,
}
use debianbox.Sockets.{SocketInfo, add, remove_by_fd}
use debianbox.Poller.{
  Frame, Zmq, Poller, put_info, store, search_handle, has_handle, get_zmq_socket_info,
  send_connection_state_msg, ◌>>◌, load_at,
}
use debianbox.Poller.Traffic.{
  Inbound, greet, deliver, receive_data, receive_command, receive, parse_recv_data,
  remove_peer_by_fd, announce, handle_event, with_address, id_of, address_of, parse_event_data,
}
use debianbox.Poller.Pairs.{
  Fits, AllFit, Held, Preserves, Any, Ignores, preserves, bind-Preserves, then-Preserves,
  skip-Preserves, notice-Preserves, load_at-Preserves,
}

pub put_info-AllFit :
    (handles : List ℕ) (next a : ℕ) (s : SocketInfo) (sockets : List (ℕ × SocketInfo))
    → Fits handles next s.zmq_socket s.zmq_monitor
    → AllFit handles next sockets
    → AllFit handles next (put_info a s sockets)
unfolding put_info
put_info-AllFit handles next a s [] f h = tt
put_info-AllFit handles next a s ((b, t) ∷ rest) f h = elim (Bool-cases (b == a)) [
  | inl same ↦ rw same (f, h.1)
  | inr differs ↦ rw differs (h.0, put_info-AllFit handles next a s rest f h.1)
]

-- What a search among the records may find.
abbrev pub Found : List ℕ → ℕ → Option (ℕ × SocketInfo) → Type 0
Found handles next none = Unit {0}
Found handles next (some (a, s)) = Fits handles next s.zmq_socket s.zmq_monitor

search_handle-Found :
    (handles : List ℕ) (next h : ℕ) (sockets : List (ℕ × SocketInfo))
    → AllFit handles next sockets
    → Found handles next (search_handle h sockets)
unfolding search_handle
search_handle-Found handles next h [] f = tt
search_handle-Found handles next h ((a, s) ∷ rest) f =
    elim (Bool-cases (has_handle h s.zmq_socket)) [
      | inl it ↦ rw it f.0
      | inr other ↦ rw other (search_handle-Found handles next h rest f.1)
    ]

module _ (own : ℕ × ℕ) (handles : List ℕ) (next : ℕ) where
  abbrev I : Poller → Type 0
  I = Held own handles next

  Held-Ignores : Ignores I
  Held-Ignores p e h = h

  lookup-Preserves : (h : ℕ) → Preserves I (Found handles next) (get_zmq_socket_info h)
  unfolding get_zmq_socket_info
  lookup-Preserves h p i = (i, search_handle-Found handles next h p.sockets i.2)

  store-Preserves :
      (a : ℕ) (s : SocketInfo)
      → Fits handles next s.zmq_socket s.zmq_monitor
      → Preserves I Any (store a s)
  unfolding store
  store-Preserves a s f p i =
      ((i.0, i.1, put_info-AllFit handles next a s p.sockets f i.2, i.3), tt)

  -- The record of a socket changes, and the brokers are told.
  told-Preserves :
      (a : ℕ) (s : SocketInfo) (channel : List ℕ) (state : Bool) (id addr : List ℕ)
      → Fits handles next s.zmq_socket s.zmq_monitor
      → Preserves I Any (store a s >> send_connection_state_msg channel state id addr)
  told-Preserves a s channel state id addr f =
      then-Preserves I Any (store a s) (λ u. send_connection_state_msg channel state id addr)
        (store-Preserves a s f) (λ u. notice-Preserves I channel state id addr Held-Ignores)

  greet-Preserves :
      (o : Option (ℕ × SocketInfo)) (peer_id peer_addr : List ℕ) (fd : ℕ)
      → Found handles next o
      → Preserves I Any (greet o peer_id peer_addr fd)
  unfolding add
  greet-Preserves none peer_id peer_addr fd f = skip-Preserves I
  greet-Preserves (some (a, s)) peer_id peer_addr fd f =
      told-Preserves a
        (add (record { peer_id = peer_id; peer_address = peer_addr; peer_fd = fd }) s)
        s.channel_name true peer_id peer_addr f

  deliver-Preserves :
      (o : Option (ℕ × SocketInfo)) (type_id : ℕ) (payload peer_id peer_addr : List ℕ)
      → Preserves I Any (deliver o type_id payload peer_id peer_addr)
  deliver-Preserves none type_id payload peer_id peer_addr = skip-Preserves I
  deliver-Preserves (some (a, s)) type_id payload peer_id peer_addr = search preserves

  receive_data-Preserves :
      (o : Option (ℕ × SocketInfo)) (peer_id peer_addr : List ℕ) (i : ℕ) (frames : List Frame)
      → Preserves I Any (receive_data o peer_id peer_addr i frames)
  unfolding receive_data
  receive_data-Preserves o peer_id peer_addr i frames = search (preserves, deliver-Preserves)

  command-Preserves :
      (z : Zmq) (o : Option (ℕ × SocketInfo)) (peer_id : List ℕ) (i : ℕ) (inbound : Inbound)
      (cmd : ℕ)
      → Found handles next o
      → Preserves I Any (receive_command z o peer_id i inbound cmd)
  unfolding receive_command
  command-Preserves z o peer_id i inbound cmd f =
      search (preserves, greet-Preserves, receive_data-Preserves)

  receive-Preserves :
      (z : Zmq) (h : ℕ) (peer_id : List ℕ) (i : ℕ) (inbound : Inbound)
      → Preserves I Any (receive z h peer_id i inbound)
  unfolding receive
  receive-Preserves z h peer_id i inbound =
      bind-Preserves I (Found handles next) Any (get_zmq_socket_info h) _ (lookup-Preserves h)
        (λ o f.
          then-Preserves I Any (load_at 4 i inbound.frames) _
            (load_at-Preserves I 4 i inbound.frames)
            (λ cmd. command-Preserves z o peer_id i inbound cmd f))

  pub parse_recv_data-Preserves :
      (z : Zmq) (h : ℕ) (o : Option Inbound) → Preserves I Any (parse_recv_data z h o)
  unfolding parse_recv_data
  parse_recv_data-Preserves z h none = skip-Preserves I
  parse_recv_data-Preserves z h (some inbound) = search (preserves, receive-Preserves)

  remove_peer-Preserves :
      (o : Option (ℕ × SocketInfo)) (fd : ℕ)
      → Found handles next o
      → Preserves I Any (remove_peer_by_fd o fd)
  unfolding remove_peer_by_fd remove_by_fd
  remove_peer-Preserves none fd f = skip-Preserves I
  remove_peer-Preserves (some (a, s)) fd f =
      told-Preserves a (remove_by_fd fd s).1 s.channel_name false (id_of (remove_by_fd fd s).0)
        (address_of (remove_by_fd fd s).0) f

  announce-Preserves :
      (o : Option (ℕ × SocketInfo)) (state : Bool) (addr : List ℕ)
      → Found handles next o
      → Preserves I Any (announce o state addr)
  unfolding announce
  announce-Preserves none state addr f = λ p i. tt
  announce-Preserves (some (a, s)) state addr f =
      told-Preserves a (record s { connected = state }) s.channel_name state [] addr f

  event-Preserves :
      (z : Zmq) (h event value : ℕ) (addr : List ℕ) (o : Option (ℕ × SocketInfo))
      → Found handles next o
      → Preserves I Any (handle_event z h event value addr o)
  unfolding handle_event
  event-Preserves z h event value addr o f =
      search (preserves, Held-Ignores, announce-Preserves, remove_peer-Preserves)

  with_address-Preserves :
      (z : Zmq) (h event value : ℕ) (addr : Option Frame)
      → Preserves I Any (with_address z h event value addr)
  with_address-Preserves z h event value none = skip-Preserves I
  with_address-Preserves z h event value (some addr) =
      bind-Preserves I (Found handles next) Any (get_zmq_socket_info h) _ (lookup-Preserves h)
        (event-Preserves z h event value addr)

  pub parse_event_data-Preserves :
      (z : Zmq) (h : ℕ) (event addr : Option Frame)
      → Preserves I Any (parse_event_data z h event addr)
  unfolding parse_event_data
  parse_event_data-Preserves z h none addr = skip-Preserves I
  parse_event_data-Preserves z h (some event_msg) addr = search (preserves, with_address-Preserves)
