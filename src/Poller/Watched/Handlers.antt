-- ===== src/Poller/Watched/Handlers.antt =====
-- The handlers of data and events of socket_poller_zmq.cpp, one by one.
use debianbox.Base.{ℕ, List, [], ◌∷◌, Option, none, some, Bool}
use debianbox.Sockets.{SocketType, router, dealer, PeerInfo, SocketInfo}
use debianbox.Poller.{Frame, Zmq, send, send_multipart}
use debianbox.Poller.Traffic.{
  send_on, send_each, send_all, dispatch_data, send_command, parse_send_data, Inbound, greet,
  deliver, receive_data, receive_command, receive, parse_recv_data, remove_peer_by_fd, announce,
  handle_event, with_address, parse_event_data,
}
use debianbox.Poller.Watched.{Keeps, keeps, bind-Keeps, skip-Keeps, outcome-Keeps, sent-Keeps}

send_on-Keeps : (z : Zmq) (o : Option ℕ) (frames : List Frame) → Keeps (send_on z o frames)
unfolding send_on send
send_on-Keeps z none frames p = tt
send_on-Keeps z (some h) frames p = outcome-Keeps h frames (z.send_result h frames) p

send_each-Keeps :
    (z : Zmq) (o : Option ℕ) (peers : List PeerInfo) (frames : List Frame)
    → Keeps (send_each z o peers frames)
unfolding send_each
send_each-Keeps z o [] frames = skip-Keeps
send_each-Keeps z o (info ∷ peers) frames =
    bind-Keeps _ _ (send_on-Keeps z o (info.peer_id ∷ frames))
      (λ u. send_each-Keeps z o peers frames)

greet-Keeps :
    (o : Option (ℕ × SocketInfo)) (peer_id peer_addr : List ℕ) (fd : ℕ)
    → Keeps (greet o peer_id peer_addr fd)
greet-Keeps none peer_id peer_addr fd = skip-Keeps
greet-Keeps (some (a, s)) peer_id peer_addr fd = search keeps

send_all-Keeps : (z : Zmq) (s : SocketInfo) (frames : List Frame) → Keeps (send_all z s frames)
unfolding send_all
send_all-Keeps z s frames = of_type s.socket_type
  where
    of_type :
        (t : SocketType)
        → Keeps (elim t [
          | router ↦ send_each z s.zmq_socket s.peers frames
          | dealer ↦ send_on z s.zmq_socket frames
        ])
    of_type router = send_each-Keeps z s.zmq_socket s.peers frames
    of_type dealer = send_on-Keeps z s.zmq_socket frames

dispatch_data-Keeps :
    (z : Zmq) (s : SocketInfo) (peer : Frame) (frames : List Frame)
    → Keeps (dispatch_data z s peer frames)
unfolding dispatch_data
dispatch_data-Keeps z s [] frames = send_all-Keeps z s frames
dispatch_data-Keeps z s (c ∷ cs) frames = send_on-Keeps z s.zmq_socket ((c ∷ cs) ∷ frames)

send_command-Keeps : (z : Zmq) (msg : List Frame) → Keeps (send_command z msg)
unfolding send_command
send_command-Keeps z msg = search (keeps, dispatch_data-Keeps) depth 12

pub parse_send_data-Keeps : (z : Zmq) (o : Option (List Frame)) → Keeps (parse_send_data z o)
unfolding parse_send_data
parse_send_data-Keeps z none = skip-Keeps
parse_send_data-Keeps z (some msg) = search (keeps, send_command-Keeps)

deliver-Keeps :
    (o : Option (ℕ × SocketInfo)) (type_id : ℕ) (payload peer_id peer_addr : List ℕ)
    → Keeps (deliver o type_id payload peer_id peer_addr)
deliver-Keeps none type_id payload peer_id peer_addr = skip-Keeps
deliver-Keeps (some (a, s)) type_id payload peer_id peer_addr = search keeps

receive_data-Keeps :
    (o : Option (ℕ × SocketInfo)) (peer_id peer_addr : List ℕ) (i : ℕ) (frames : List Frame)
    → Keeps (receive_data o peer_id peer_addr i frames)
unfolding receive_data
receive_data-Keeps o peer_id peer_addr i frames = search (keeps, deliver-Keeps)

receive-Keeps :
    (z : Zmq) (h : ℕ) (peer_id : List ℕ) (i : ℕ) (inbound : Inbound)
    → Keeps (receive z h peer_id i inbound)
unfolding receive receive_command
receive-Keeps z h peer_id i inbound = search (keeps, greet-Keeps, receive_data-Keeps)

pub parse_recv_data-Keeps : (z : Zmq) (h : ℕ) (o : Option Inbound) → Keeps (parse_recv_data z h o)
unfolding parse_recv_data
parse_recv_data-Keeps z h none = skip-Keeps
parse_recv_data-Keeps z h (some inbound) = search (keeps, receive-Keeps)

remove_peer_by_fd-Keeps : (o : Option (ℕ × SocketInfo)) (fd : ℕ) → Keeps (remove_peer_by_fd o fd)
unfolding remove_peer_by_fd
remove_peer_by_fd-Keeps none fd = skip-Keeps
remove_peer_by_fd-Keeps (some (a, s)) fd = search keeps

announced-Keeps :
    (a : ℕ) (s : SocketInfo) (state : Bool) (addr : List ℕ)
    → Keeps (announce (some (a, s)) state addr)
unfolding announce
announced-Keeps a s state addr = search keeps

announce-Keeps :
    (o : Option (ℕ × SocketInfo)) (state : Bool) (addr : List ℕ) → Keeps (announce o state addr)
unfolding announce
announce-Keeps none state addr p = tt
announce-Keeps (some (a, s)) state addr p = announced-Keeps a s state addr p

send_multipart-Keeps : (z : Zmq) (h : ℕ) (frames : List Frame) → Keeps (send_multipart z h frames)
unfolding send_multipart
send_multipart-Keeps z h frames = sent-Keeps h frames (z.send_result h frames)

handle_event-Keeps :
    (z : Zmq) (h event value : ℕ) (addr : List ℕ) (o : Option (ℕ × SocketInfo))
    → Keeps (handle_event z h event value addr o)
unfolding handle_event
handle_event-Keeps z h event value addr o =
    search (keeps, sent-Keeps, announce-Keeps, remove_peer_by_fd-Keeps)

with_address-Keeps :
    (z : Zmq) (h event value : ℕ) (addr : Option Frame) → Keeps (with_address z h event value addr)
with_address-Keeps z h event value none = skip-Keeps
with_address-Keeps z h event value (some addr) = search (keeps, handle_event-Keeps)

pub parse_event_data-Keeps :
    (z : Zmq) (h : ℕ) (event addr : Option Frame) → Keeps (parse_event_data z h event addr)
unfolding parse_event_data
parse_event_data-Keeps z h none addr = skip-Keeps
parse_event_data-Keeps z h (some event_msg) addr = search (keeps, with_address-Keeps)
