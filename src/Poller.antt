-- ===== src/Poller.antt =====
-- libhdk/channel/impl/socket_poller_zmq.cpp and .hpp, the thread that owns every ZeroMQ socket:
-- its state, and what its handlers share. A message is the list of its frames, a frame the list
-- of its bytes. What ZeroMQ and the sockets below it answer is the parameter `Zmq`.
pub mod Control
pub mod Traffic
pub mod Loop
pub mod Routing
pub mod Wire
pub mod Items
pub mod Creation
pub mod Opening
pub mod Reopening
pub mod Watched
pub mod Pairs
pub mod Reception
pub mod Reading
pub mod Multipart
mod Example
mod Tests
use Prim.Native.String.{String}
use Prim.Native.Char.{code}
use debianbox.Base.{
  ℕ, suc, ◌+◌, List, [], ◌∷◌, ◌++◌, Option, none, some, Bool, true, false, ◌==◌, if◌then◌else◌,
  get_elem?,
}
use debianbox.Checksum.TypeId.{message_type_id}
use debianbox.Marshall.Bytes.{to_bytes, from_bytes, read}
use debianbox.Sockets.{SocketType, router, dealer, PeerInfo, SocketInfo}

abbrev pub Frame : Type 0
Frame = List ℕ

-- `socket_poller_cmd_t`, a `uint32_t`.
abbrev pub create_socket : ℕ
create_socket = 0

abbrev pub open_socket : ℕ
open_socket = 1

abbrev pub close_socket : ℕ
close_socket = 2

abbrev pub remove_socket : ℕ
remove_socket = 3

abbrev pub socket_connected : ℕ
socket_connected = 4

abbrev pub socket_send_data : ℕ
socket_send_data = 5

abbrev pub socket_recv_data : ℕ
socket_recv_data = 6

-- The options that `create_socket_info_zmq` sets.
pub data SockOpt : Type 0 where
  immediate heartbeat_ivl heartbeat_timeout heartbeat_ttl handshake_ivl linger rcvtimeo : SockOpt
  router_mandatory routing_id : SockOpt

-- What the thread does to the outside, in order. `posts` is `brocker_manager::post`: type, bytes,
-- channel, sender's name and address, `check_reg`.
pub data Effect : Type 0 where
  sends : ℕ → List Frame → Effect
  posts : ℕ → List ℕ → List ℕ → List ℕ → List ℕ → Bool → Effect
  binds connects : ℕ → List ℕ → Effect
  sets : ℕ → SockOpt → ℕ → Effect
  monitors : ℕ → Bool → Effect
  closes notifies : ℕ → Effect

pub record PollItem : Type 0 where
  pub socket : ℕ
  pub ready : Bool

-- `sockets` is `m_sockets`, each entry with its address; `next` numbers what is allocated:
-- a handle stands for one socket, which no later one is taken for.
pub record Poller : Type 0 where
  pub sockets : List (ℕ × SocketInfo)
  pub poll_items : List PollItem
  pub send_socket : ℕ
  pub ctrl_socket : ℕ
  pub next : ℕ
  pub effects : List Effect

pub data SendResult : Type 0 where
  accepted again failed : SendResult

-- The answers of ZeroMQ and of the sockets below it: a send, the type of a socket,
-- whether `bind` or `connect`, the monitor, the construction of a socket, the question for its
-- descriptor and the setting of an option succeed, the address behind a descriptor, and the
-- bytes of a generated id.
pub record Zmq : Type 0 where
  pub send_result : ℕ → List Frame → SendResult
  pub type_of : ℕ → Option SocketType
  pub endpoint_ok : ℕ → List ℕ → Bool
  pub monitor_ok : ℕ → Bool
  pub socket_ok : ℕ → Bool
  pub fd_ok : ℕ → Bool
  pub option_ok : ℕ → SockOpt → Bool
  pub peer_address : ℕ → List ℕ
  pub uuid : ℕ → ℕ

-- `thrown` is `zmq::error_t`, which `thread_poll` catches, with what had been done till then; `uncaught` the `error_t`, an `int`, that
-- nothing catches; `undefined` a read out of range, of a null pointer or of an object
-- that is gone.
pub data Run {ℓ} (A : Type ℓ) : Type ℓ where
  done : A → Poller → Run A
  undefined uncaught : Run A
  thrown : List Effect → Run A

abbrev pub M : Type 0 → Type 0
M A = Poller → Run A

abbrev pub then_run : {A B : Type 0} → Run A → (A → M B) → Run B
then_run (done a q) f = f a q
then_run undefined f = undefined
then_run (thrown es) f = thrown es
then_run uncaught f = uncaught

infixl 5 ◌>>=◌ ◌>>◌
abbrev pub ◌>>=◌ : {A B : Type 0} → M A → (A → M B) → M B
◌>>=◌ m f p = then_run (m p) f

abbrev pub ◌>>◌ : {B : Type 0} → M (Unit {0}) → M B → M B
m >> k = m >>= λ _. k

abbrev pub pure : {A : Type 0} → A → M A
pure a p = done a p

abbrev pub skip : M (Unit {0})
skip = pure tt

abbrev pub needs : {A : Type 0} → Option A → M A
needs none p = undefined
needs (some a) p = done a p

abbrev pub effect : Effect → M (Unit {0})
effect e p = done tt (record p { effects = p.effects ++ e ∷ [] })

-- `msg[i]`.
unfoldable pub frame : ℕ → List Frame → M Frame
frame i frames = needs (get_elem? frames i)

abbrev pub value_of : Option (List ℕ × List ℕ) → Option ℕ
value_of none = none
value_of (some (bs, rest)) = some (from_bytes bs)

-- `*(T*)frame.data()` for a `T` of `n` bytes.
unfoldable pub load : ℕ → Frame → M ℕ
load n f = needs (value_of (read n f))

-- `*(T*)msg[i].data()`.
unfoldable pub load_at : ℕ → ℕ → List Frame → M ℕ
unfolding frame load
load_at n i frames = do f ← frame i frames; load n f

-- `addtyp(x)`.
abbrev pub word : ℕ → Frame
word = to_bytes 4

abbrev pub pointer : ℕ → Frame
pointer = to_bytes 8

abbrev pub outcome : ℕ → List Frame → SendResult → M (Unit {0})
outcome s frames accepted = effect (sends s frames)
outcome s frames again = skip
outcome s frames failed = λ p. thrown p.effects

-- The members that hold the two sockets of the thread's own.
abbrev pub the_ctrl_socket : M ℕ
the_ctrl_socket p = done p.ctrl_socket p

-- A new object or socket.
abbrev pub fresh : M ℕ
fresh p = done p.next (record p { next = suc p.next })

-- A call that throws unless the library succeeds.
abbrev pub or_throw : Bool → M (Unit {0})
or_throw true = skip
or_throw false = λ p. thrown p.effects

-- `mmsg.send(socket, dontwait)`: a message that ZeroMQ cannot take now is dropped.
unfoldable pub send : Zmq → ℕ → List Frame → M (Unit {0})
send z s frames = outcome s frames (z.send_result s frames)

abbrev pub sent : ℕ → List Frame → SendResult → M (Unit {0})
sent s frames accepted = effect (sends s frames)
sent s frames again = skip
sent s frames failed = λ p. uncaught

-- `helpers::send_multipart`, with an answer that the caller ignores.
unfoldable pub send_multipart : Zmq → ℕ → List Frame → M (Unit {0})
send_multipart z s frames = sent s frames (z.send_result s frames)

unfoldable pub find_info : ℕ → List (ℕ × SocketInfo) → Option SocketInfo
find_info a [] = none
find_info a ((b, s) ∷ rest) = if b == a then some s else find_info a rest

-- A read through a pointer to a `socket_info_zmq`.
unfoldable pub info_at : ℕ → M SocketInfo
unfolding find_info
info_at a p = needs (find_info a p.sockets) p

unfoldable pub put_info : ℕ → SocketInfo → List (ℕ × SocketInfo) → List (ℕ × SocketInfo)
put_info a s [] = []
put_info a s ((b, t) ∷ rest) = if b == a then (b, s) ∷ rest else (b, t) ∷ put_info a s rest

unfoldable pub store : ℕ → SocketInfo → M (Unit {0})
unfolding put_info
store a s p = done tt (record p { sockets = put_info a s p.sockets })

abbrev pub has_handle : ℕ → Option ℕ → Bool
has_handle h none = false
has_handle h (some k) = k == h

unfoldable pub search_handle : ℕ → List (ℕ × SocketInfo) → Option (ℕ × SocketInfo)
search_handle h [] = none
search_handle h ((a, s) ∷ rest) =
    if has_handle h s.zmq_socket then some (a, s) else search_handle h rest

-- `get_zmq_socket_info`.
unfoldable pub get_zmq_socket_info : ℕ → M (Option (ℕ × SocketInfo))
unfolding search_handle
get_zmq_socket_info h p = done (search_handle h p.sockets) p

abbrev pub codes : String → List ℕ
codes String.[] = []
codes (String.◌∷◌ c s) = code c ∷ codes s

abbrev pub or_zero : Option ℕ → ℕ
or_zero none = 0
or_zero (some n) = n

-- The type id of `recv_connection_status`.
unfoldable pub status_type_id : ℕ
unfolding message_type_id
status_type_id = or_zero (message_type_id (codes "connected") (codes "hdk::recv_connection_status"))

abbrev pub flag : Bool → ℕ
flag true = 1
flag false = 0

-- `send_connection_state_msg`: a `bool` is one byte.
unfoldable pub send_connection_state_msg : List ℕ → Bool → List ℕ → List ℕ → M (Unit {0})
send_connection_state_msg channel state peer_id peer_address =
    effect (posts status_type_id (to_bytes 1 (flag state)) channel peer_id peer_address false)
