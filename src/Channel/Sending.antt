-- ===== src/Channel/Sending.antt =====
-- What a channel of libhdk/channel/channel.hpp and channel.cpp passes on to its implementation:
-- channel_impl_local.cpp posts, channel_impl_zmq.cpp writes to the poller.
use debianbox.Base.{
  ℕ, ◌+◌, ◌<◌, ◌≡◌, refl, ap, ◌∙◌, arith, List, Option, none, some, Bool, true, false, ◌==◌, ==_iff,
}
use debianbox.Poller.{Frame, Poller, find_info, codes}
use debianbox.Poller.Routing.{send_frames}
use debianbox.Poller.Items.{open_frames, close_frames}
use debianbox.Sockets.{SocketInfo}
use debianbox.Channel.{
  ImplKind, local, client_zmq, server_zmq, Channels, count, m_impl, drop_handle, construct,
  release_name, destroy, drop_channel, get,
}
use debianbox.Channel.Lifetime.{IsCoherent}
use debianbox.Channel.Lookup.{get-held, m_impl-construct, points_self}

-- A message that goes to the brokers, with the channel's name and the sender's name and address,
-- or one that goes to the poller, as its frames.
pub data Outgoing : Type 0 where
  posted : ℕ → List ℕ → List ℕ → List ℕ → List ℕ → Outgoing
  written : List Frame → Outgoing

-- `channel_impl_local::send` and `channel_impl_zmq::send`; the first argument is the id of the
-- socket that a ZeroMQ implementation writes to.
unfoldable pub impl_send : Frame → ImplKind → List ℕ → ℕ → List ℕ → List ℕ → Outgoing
impl_send sender local name type_id bytes receiver_id =
    posted type_id bytes name (codes "local") (codes "local")
impl_send sender (client_zmq address info) name type_id bytes receiver_id =
    written (send_frames sender info receiver_id type_id bytes)
impl_send sender (server_zmq address info) name type_id bytes receiver_id =
    written (send_frames sender info receiver_id type_id bytes)

-- `channel::send`, of a message that is marshalled; `none` is a call through the null pointer.
unfoldable pub send : (ℕ → Frame) → ℕ → ℕ → List ℕ → List ℕ → Channels → Option Outgoing
unfolding m_impl impl_send
send sender c type_id bytes receiver_id s = elim (m_impl c s.handles) [
  | none ↦ none
  | some none ↦ none
  | some (some i) ↦
      some (impl_send (sender i) (s.impls i).kind (s.impls i).name type_id bytes receiver_id)
]

abbrev finish : Option Outgoing → Option Channels → Option (Outgoing × Channels)
finish none o = none
finish (some out) none = none
finish (some out) (some s) = some (out, s)

-- `channel::send_current`, in a callback: to the sender, `info.id`, on the channel `info.name`; the
-- channel of `get` lives at `c` for the time of the call.
unfoldable pub send_current :
    (ℕ → Frame) → ℕ → List ℕ → List ℕ → ℕ → List ℕ → Channels → Option (Outgoing × Channels)
unfolding get send destroy
send_current sender c id name type_id bytes s =
    let t = get name c s in finish (send sender c type_id bytes id t) (destroy c t)

-- `channel_impl::connected`; the flag of a ZeroMQ one is in the record that the poller keeps.
abbrev connected_of : Option SocketInfo → Option Bool
connected_of none = none
connected_of (some info) = some info.connected

unfoldable pub impl_connected : ImplKind → Poller → Option Bool
unfolding find_info
impl_connected local p = some true
impl_connected (client_zmq address info) p = connected_of (find_info info p.sockets)
impl_connected (server_zmq address info) p = connected_of (find_info info p.sockets)

-- `channel::connected`.
unfoldable pub connected : ℕ → Channels → Poller → Option Bool
unfolding m_impl impl_connected
connected c s p = elim (m_impl c s.handles) [
  | none ↦ none
  | some none ↦ some false
  | some (some i) ↦ impl_connected (s.impls i).kind p
]

-- The message that `channel::open` and `channel::close` write to the poller, if they write one.
unfoldable pub impl_open : Frame → ImplKind → ℕ → ℕ → Option (List Frame)
impl_open sender local cv mtx = none
impl_open sender (client_zmq address info) cv mtx = some (open_frames sender address info cv mtx)
impl_open sender (server_zmq address info) cv mtx = some (open_frames sender address info cv mtx)

unfoldable pub impl_close : Frame → ImplKind → ℕ → ℕ → Option (List Frame)
impl_close sender local cv mtx = none
impl_close sender (client_zmq address info) cv mtx = some (close_frames sender info cv mtx)
impl_close sender (server_zmq address info) cv mtx = some (close_frames sender info cv mtx)

still_held : (n : ℕ) → 0 < n → (1 + n == 1) ≡ false
still_held n l = ground arith

keeps :
    (c i : ℕ) (s : Channels)
    → 0 < count i s.handles
    → release_name (some i) (construct c (some i) s) ≡ construct c (some i) s
unfolding release_name construct count
keeps c i s l = rw (points_self i, still_held (count i s.handles) l)

drops : (c : ℕ) (m : Option ℕ) (s : Channels) → drop_channel c (construct c m s) ≡ s
unfolding drop_handle construct
drops c m s = rw ((==_iff c c).1 refl)

-- A channel that comes and goes while another holds the same implementation.
passing :
    (c i : ℕ) (s : Channels) → 0 < count i s.handles → destroy c (construct c (some i) s) ≡ some s
unfolding destroy
passing c i s l =
    rw (m_impl-construct c (some i) s, destroy)
      (ap some (ap (drop_channel c) (keeps c i s l) ∙ drops c (some i) s))

send-constructed :
    (sender : ℕ → Frame) (c i : ℕ) (id bytes : List ℕ) (type_id : ℕ) (s : Channels)
    → send sender c type_id bytes id (construct c (some i) s)
      ≡ some (impl_send (sender i) (s.impls i).kind (s.impls i).name type_id bytes id)
unfolding send construct
send-constructed sender c i id bytes type_id s = rw (m_impl-construct c (some i) s, send)

-- In a callback, `send_current` sends to the sender of the message on the one implementation of
-- the name that the message came with, as `send` of any channel that holds it would; and it leaves
-- the channels and the registry as they were. That is if some channel holds that implementation.
pub send_current_lem :
    (sender : ℕ → Frame) (c i : ℕ) (id bytes : List ℕ) (type_id : ℕ) (s : Channels)
    → IsCoherent s
    → 0 < count i s.handles
    → send_current sender c id (s.impls i).name type_id bytes s
      ≡ some (impl_send (sender i) (s.impls i).kind (s.impls i).name type_id bytes id, s)
unfolding send_current
send_current_lem sender c i id bytes type_id s h l =
    rw
      (
        send_current,
        get-held c i s h l,
        send-constructed sender c i id bytes type_id s,
        passing c i s l,
      )
      refl
