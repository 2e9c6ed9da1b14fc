-- ===== src/Sockets.antt =====
-- libhdk/channel/impl/socket_info_zmq.hpp: what the poller knows of one channel's socket, and the
-- peers that are connected to it. Texts are lists of bytes; an `int` is its bit pattern.
pub mod Connected
pub mod Peers
mod Tests
use debianbox.Base.{
  ℕ, List, [], ◌∷◌, ◌++◌, Option, none, some, Bool, true, false, ◌&&◌, ◌==◌, if◌then◌else◌,
}

pub data SocketType : Type 0 where
  router dealer : SocketType

-- `socket_info_zmq::peer_info`.
pub record PeerInfo : Type 0 where
  pub peer_id : List ℕ
  pub peer_address : List ℕ
  pub peer_fd : ℕ

-- `socket_info_zmq`. A socket is its handle, and `none` a socket that is not open.
pub record SocketInfo : Type 0 where
  pub channel_name : List ℕ
  pub socket_type : SocketType
  pub zmq_socket : Option ℕ
  pub zmq_monitor : Option ℕ
  pub peers : List PeerInfo
  pub connected : Bool

abbrev pub is_empty {ℓ} : {A : Type ℓ} → List A → Bool
is_empty [] = true
is_empty (x ∷ xs) = false

-- `==` of two strings.
unfoldable pub same_text : List ℕ → List ℕ → Bool
same_text [] [] = true
same_text (x ∷ xs) (y ∷ ys) = x == y && same_text xs ys
same_text _ _ = false

-- `peer_info::operator==`.
unfoldable pub same_peer : PeerInfo → PeerInfo → Bool
unfolding same_text
same_peer p q = same_text p.peer_id q.peer_id && same_text p.peer_address q.peer_address

-- `std::find_if`, and `erase` at what it finds.
unfoldable pub find_if {ℓ} : {A : Type ℓ} → (A → Bool) → List A → Option A
find_if test [] = none
find_if test (x ∷ xs) = if test x then some x else find_if test xs

unfoldable pub erase_if {ℓ} : {A : Type ℓ} → (A → Bool) → List A → List A
erase_if test [] = []
erase_if test (x ∷ xs) = if test x then xs else x ∷ erase_if test xs

-- `socket_info_zmq(name, sock_type)`.
unfoldable pub make_info : List ℕ → SocketType → SocketInfo
make_info name sock_type = record {
  channel_name = name;
  socket_type = sock_type;
  zmq_socket = none;
  zmq_monitor = none;
  peers = [];
  connected = false;
}

unfoldable pub add : PeerInfo → SocketInfo → SocketInfo
add nfo s = record s {
  peers = s.peers ++ nfo ∷ [];
  connected = if is_empty s.peers then true else s.connected;
}

-- `remove(nfo)`; `none` is `erase(end())`, which is undefined.
unfoldable pub remove : PeerInfo → SocketInfo → Option SocketInfo
unfolding same_peer find_if erase_if
remove nfo s = elim (find_if (λ p. same_peer p nfo) s.peers) [
  | none ↦ none
  | some p ↦ some (record s { peers = erase_if (λ p. same_peer p nfo) s.peers })
]

-- The end that `remove_by_addr`, `remove_by_id` and `remove_by_fd` have in common.
drop_peer : (PeerInfo → Bool) → SocketInfo → SocketInfo
unfolding erase_if
drop_peer test s =
    let left = erase_if test s.peers in
    record s { peers = left; connected = if is_empty left then false else s.connected }

unfoldable pub remove_by_addr : List ℕ → SocketInfo → SocketInfo
unfolding drop_peer same_text
remove_by_addr peer_addr s = drop_peer (λ p. same_text p.peer_address peer_addr) s

unfoldable pub remove_by_id : List ℕ → SocketInfo → SocketInfo
unfolding drop_peer same_text
remove_by_id peer_id s = drop_peer (λ p. same_text p.peer_id peer_id) s

-- `remove_by_fd` also returns the peer; `none` is the `peer_info` that no peer was copied into.
unfoldable pub remove_by_fd : ℕ → SocketInfo → Option PeerInfo × SocketInfo
unfolding drop_peer find_if
remove_by_fd peer_fd s =
    (find_if (λ p. p.peer_fd == peer_fd) s.peers, drop_peer (λ p. p.peer_fd == peer_fd) s)
