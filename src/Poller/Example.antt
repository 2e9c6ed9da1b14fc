-- ===== src/Poller/Example.antt =====
-- A poller with two open sockets and a closed one, at which theorems are tried.
use debianbox.Base.{ℕ, List, [], ◌∷◌, some, true, false, ◌==◌, if◌then◌else◌}
use debianbox.Sockets.{router, dealer, PeerInfo, SocketInfo, make_info}
use debianbox.Poller.{Frame, Poller, PollItem, Zmq, SendResult, accepted, again}

abbrev pub alice : PeerInfo
alice = record { peer_id = 1 ∷ 7 ∷ []; peer_address = 49 ∷ []; peer_fd = 12 }

abbrev pub bob : PeerInfo
bob = record { peer_id = 2 ∷ []; peer_address = 50 ∷ []; peer_fd = 13 }

abbrev pub server : SocketInfo
server = record {
  channel_name = 97 ∷ [];
  socket_type = router;
  zmq_socket = some 5;
  zmq_monitor = some 6;
  peers = alice ∷ bob ∷ [];
  connected = true;
}

abbrev pub client : SocketInfo
client = record {
  channel_name = 98 ∷ [];
  socket_type = dealer;
  zmq_socket = some 8;
  zmq_monitor = some 9;
  peers = [];
  connected = true;
}

abbrev pub idle : ℕ → PollItem
idle h = record { socket = h; ready = false }

-- Sockets 100, a server, 101, a client, and 102, a closed server.
abbrev pub poller : Poller
poller = record {
  sockets = (100, server) ∷ (101, client) ∷ (102, make_info (99 ∷ []) router) ∷ [];
  poll_items = idle 1 ∷ idle 2 ∷ idle 5 ∷ idle 6 ∷ idle 8 ∷ idle 9 ∷ [];
  send_socket = 1;
  ctrl_socket = 2;
  next = 20;
  effects = [];
}

-- All works, but that a message to a peer whose id is one byte has to wait.
abbrev pub slow : List Frame → SendResult
slow [] = accepted
slow ([] ∷ frames) = accepted
slow ((c ∷ []) ∷ frames) = again
slow ((c ∷ d ∷ id) ∷ frames) = accepted

abbrev pub zmq : Zmq
zmq = record {
  send_result = λ s frames. slow frames;
  type_of = λ s. if s == 8 then some dealer else some router;
  endpoint_ok = λ s address. true;
  monitor_ok = λ s. true;
  socket_ok = λ s. true;
  fd_ok = λ s. true;
  option_ok = λ s option. true;
  peer_address = λ fd. fd ∷ [];
  uuid = λ s. s;
}
