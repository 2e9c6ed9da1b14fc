-- ===== src/Sockets/Tests.antt =====
-- Runs of the peer lists, and the theorems about them at inputs.
use debianbox.Base.{refl, [], ◌∷◌, some, true}
use debianbox.Sockets.{PeerInfo, SocketInfo, router}
use debianbox.Sockets.Connected.{IsConsistent, run, adds, removes_by_fd, run-IsConsistent}

abbrev alice : PeerInfo
alice = record { peer_id = 1 ∷ 7 ∷ []; peer_address = 49 ∷ []; peer_fd = 12 }

abbrev bob : PeerInfo
bob = record { peer_id = 2 ∷ []; peer_address = 50 ∷ []; peer_fd = 13 }

abbrev server : SocketInfo
server = record {
  channel_name = 97 ∷ [];
  socket_type = router;
  zmq_socket = some 5;
  zmq_monitor = some 6;
  peers = alice ∷ bob ∷ [];
  connected = true;
}

run-IsConsistent_example :
    IsConsistent (run (removes_by_fd 12 ∷ removes_by_fd 13 ∷ adds bob ∷ []) server)
run-IsConsistent_example =
    run-IsConsistent (removes_by_fd 12 ∷ removes_by_fd 13 ∷ adds bob ∷ []) server refl

abbrev alone : SocketInfo
alone = record server { peers = bob ∷ [] }
