-- ===== src/Poller/Traffic.antt =====
-- The data of socket_poller_zmq.cpp: messages to peers, messages from peers, and the events of
-- socket monitors.
use debianbox.Base.{
  ℕ, suc, List, [], ◌∷◌, Option, none, some, Bool, true, false, length, ltb, ◌==◌, if◌then◌else◌,
  drop,
}
use debianbox.Sockets.{SocketType, router, dealer, PeerInfo, SocketInfo, add, remove_by_fd}
use debianbox.Poller.{
  Frame, posts, Zmq, undefined, thrown, M, ◌>>=◌, ◌>>◌, skip, effect, frame, load, load_at, word,
  send, send_multipart, info_at, store, get_zmq_socket_info, send_connection_state_msg,
  socket_connected, socket_send_data, socket_recv_data,
}

-- `mmsg.send(zmq_socket_info->zmq_socket, dontwait)`; on a socket that is not open it throws.
unfoldable pub send_on : Zmq → Option ℕ → List Frame → M (Unit {0})
unfolding send
send_on z none frames = λ p. thrown p.effects
send_on z (some h) frames = send z h frames

-- What the peer of a dealer receives.
abbrev pub data_frames : ℕ → Frame → List Frame
data_frames type_id payload = word socket_recv_data ∷ word type_id ∷ payload ∷ []

-- `std::for_each` over the peers of a router.
unfoldable pub send_each : Zmq → Option ℕ → List PeerInfo → List Frame → M (Unit {0})
unfolding send_on
send_each z h [] frames = skip
send_each z h (info ∷ peers) frames = do
  send_on z h (info.peer_id ∷ frames)
  send_each z h peers frames

unfoldable pub send_all : Zmq → SocketInfo → List Frame → M (Unit {0})
unfolding send_each
send_all z s frames = elim s.socket_type [
  | router ↦ send_each z s.zmq_socket s.peers frames
  | dealer ↦ send_on z s.zmq_socket frames
]

-- A message without a peer goes to all, else to the peer it selects.
unfoldable pub dispatch_data : Zmq → SocketInfo → Frame → List Frame → M (Unit {0})
unfolding send_all send_on
dispatch_data z s [] frames = send_all z s frames
dispatch_data z s (c ∷ cs) frames = send_on z s.zmq_socket ((c ∷ cs) ∷ frames)

-- `parse_send_data` of a message that holds the command and the size it should.
unfoldable pub send_command : Zmq → List Frame → M (Unit {0})
unfolding load_at frame info_at dispatch_data
send_command z msg = do
  zmq_socket_info ← load_at 8 2 msg
  send_peer ← frame 3 msg
  type_id ← load_at 4 4 msg
  payload ← frame 5 msg
  s ← info_at zmq_socket_info
  dispatch_data z s send_peer (data_frames type_id payload)

abbrev pub if_send_data : Zmq → List Frame → ℕ → M (Unit {0})
if_send_data z msg cmd = if cmd == socket_send_data then send_command z msg else skip

-- `parse_send_data`; `none` if there was no message after all.
unfoldable pub parse_send_data : Zmq → Option (List Frame) → M (Unit {0})
unfolding load_at send_command
parse_send_data z none = skip
parse_send_data z (some msg) =
    if length msg == 6 then load_at 4 1 msg >>= if_send_data z msg else skip

-- A message with the descriptor that its frames came from.
pub record Inbound : Type 0 where
  pub frames : List Frame
  pub source_fd : ℕ

abbrev pub is_dealer : Option SocketType → Bool
is_dealer none = false
is_dealer (some router) = false
is_dealer (some dealer) = true

abbrev pub is_router : Option SocketType → Bool
is_router none = false
is_router (some router) = true
is_router (some dealer) = false

-- `connected` from a client: only if the socket is one of the poller's.
abbrev pub greet : Option (ℕ × SocketInfo) → List ℕ → List ℕ → ℕ → M (Unit {0})
greet none peer_id peer_addr peer_fd = skip
greet (some (a, s)) peer_id peer_addr peer_fd = do
  store a (add (record { peer_id = peer_id; peer_address = peer_addr; peer_fd = peer_fd }) s)
  send_connection_state_msg s.channel_name true peer_id peer_addr

abbrev pub deliver : Option (ℕ × SocketInfo) → ℕ → List ℕ → List ℕ → List ℕ → M (Unit {0})
deliver none type_id payload peer_id peer_addr = skip
deliver (some (a, s)) type_id payload peer_id peer_addr =
    effect (posts type_id payload s.channel_name peer_id peer_addr true)

-- The data that follows the command `recv_data`.
unfoldable pub receive_data :
    Option (ℕ × SocketInfo) → List ℕ → List ℕ → ℕ → List Frame → M (Unit {0})
unfolding load_at frame
receive_data zmq_sock_info peer_id peer_addr msg_pos frames = do
  type_id ← load_at 4 (suc msg_pos) frames
  payload ← frame (suc (suc msg_pos)) frames
  deliver zmq_sock_info type_id payload peer_id peer_addr

unfoldable pub receive_command :
    Zmq → Option (ℕ × SocketInfo) → List ℕ → ℕ → Inbound → ℕ → M (Unit {0})
unfolding receive_data store add send_connection_state_msg
receive_command z zmq_sock_info peer_id msg_pos inbound cmd =
    if cmd == socket_connected
    then greet zmq_sock_info peer_id (z.peer_address inbound.source_fd) inbound.source_fd
    else if cmd == socket_recv_data
    then receive_data zmq_sock_info peer_id (z.peer_address inbound.source_fd) msg_pos
        inbound.frames
    else skip

-- The rest of `parse_recv_data`, once it is known where the command stands.
unfoldable pub receive : Zmq → ℕ → List ℕ → ℕ → Inbound → M (Unit {0})
unfolding load_at get_zmq_socket_info receive_command
receive z sock_handle peer_id msg_pos inbound = do
  zmq_sock_info ← get_zmq_socket_info sock_handle
  cmd ← load_at 4 msg_pos inbound.frames
  receive_command z zmq_sock_info peer_id msg_pos inbound cmd

-- `parse_recv_data`. A dealer's message has no peer id, and gets one of a zero byte.
unfoldable pub parse_recv_data : Zmq → ℕ → Option Inbound → M (Unit {0})
unfolding receive
parse_recv_data z sock_handle none = skip
parse_recv_data z sock_handle (some inbound) =
    if ltb (length inbound.frames) 2
    then skip
    else if is_dealer (z.type_of sock_handle)
    then receive z sock_handle (0 ∷ []) 0 inbound
    else do peer_id ← frame 0 inbound.frames; receive z sock_handle peer_id 1 inbound

abbrev pub id_of : Option PeerInfo → List ℕ
id_of none = []
id_of (some p) = p.peer_id

abbrev pub address_of : Option PeerInfo → List ℕ
address_of none = []
address_of (some p) = p.peer_address

-- `remove_peer_by_fd`.
unfoldable pub remove_peer_by_fd : Option (ℕ × SocketInfo) → ℕ → M (Unit {0})
unfolding store remove_by_fd send_connection_state_msg
remove_peer_by_fd none fd = skip
remove_peer_by_fd (some (a, s)) fd = do
  let r = remove_by_fd fd s
  store a r.1
  send_connection_state_msg s.channel_name false (id_of r.0) (address_of r.0)

-- `connection_state(info, state)`, and then the notice, which reads the name of the channel
-- whether there is an `info` or not.
unfoldable pub announce : Option (ℕ × SocketInfo) → Bool → List ℕ → M (Unit {0})
unfolding store send_connection_state_msg
announce none state addr = λ p. undefined
announce (some (a, s)) state addr = do
  store a (record s { connected = state })
  send_connection_state_msg s.channel_name state [] addr

-- `beautify_address`: without "tcp://".
abbrev pub beautify_address : List ℕ → List ℕ
beautify_address addr = drop 6 addr

abbrev pub event_connected : ℕ
event_connected = 0x0001

abbrev pub event_disconnected : ℕ
event_disconnected = 0x0200

-- For a client: tell the server, then the subscribers.
abbrev pub connected_event : Zmq → ℕ → Option (ℕ × SocketInfo) → List ℕ → M (Unit {0})
connected_event z sock_handle info addr = do
  send_multipart z sock_handle (word socket_connected ∷ [])
  announce info true (beautify_address addr)

-- The switch of `parse_event_data`.
unfoldable pub handle_event : Zmq → ℕ → ℕ → ℕ → List ℕ → Option (ℕ × SocketInfo) → M (Unit {0})
unfolding send_multipart announce remove_peer_by_fd
handle_event z sock_handle event value addr zmq_sock_info =
    if event == event_connected
    then connected_event z sock_handle zmq_sock_info addr
    else if event == event_disconnected
    then (if is_router (z.type_of sock_handle)
        then remove_peer_by_fd zmq_sock_info value
        else announce zmq_sock_info false (beautify_address addr))
    else skip

abbrev pub with_address : Zmq → ℕ → ℕ → ℕ → Option Frame → M (Unit {0})
with_address z sock_handle event value none = skip
with_address z sock_handle event value (some addr) =
    get_zmq_socket_info sock_handle >>= handle_event z sock_handle event value addr

-- `parse_event_data`: the event's frame and the address; each is `none` if ZeroMQ terminates.
unfoldable pub parse_event_data : Zmq → ℕ → Option Frame → Option Frame → M (Unit {0})
unfolding load get_zmq_socket_info handle_event
parse_event_data z sock_handle none addr = skip
parse_event_data z sock_handle (some event_msg) addr = do
  event ← load 2 event_msg
  value ← load 4 (drop 2 event_msg)
  with_address z sock_handle event value addr
