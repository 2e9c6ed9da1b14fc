-- ===== src/Poller/Pairs/Messages.antt =====
-- What one message to the thread of socket_poller_zmq.cpp does to its poll items.
use debianbox.Base.{
  ℕ, suc, refl, sym, subst, List, [], ◌∷◌, ◌++◌, Option, none, some, Bool-cases, inl, inr, ◌==◌,
}
use debianbox.Sockets.{SocketType, router, dealer, PeerInfo, SocketInfo, make_info}
use debianbox.Poller.{
  Frame, Poller, Zmq, Run, M, done, undefined, thrown, uncaught, needs, the_ctrl_socket, ◌>>=◌,
}
use debianbox.Poller.Control.{
  create_socket_info_zmq, remove_socket_info_zmq, push_info, parse_socket_create, reach_at,
  parse_socket_open, parse_socket_close, erase_info, keep_info, forget, remove_open,
  parse_socket_remove, run_command, parse_ctrl_data,
}
use debianbox.Poller.Traffic.{
  send_on, send_each, send_all, dispatch_data, send_command, parse_send_data, Inbound,
  parse_recv_data, parse_event_data,
}
use debianbox.Poller.Watched.{watched}
use debianbox.Poller.Pairs.{
  Fits, own_of, AllFit, Shape, IsPaired, Held, Leads, Preserves, Any, Ignores, preserves,
  then-Preserves, skip-Preserves, send-Preserves, frame-Preserves, load_at-Preserves,
}
use debianbox.Poller.Pairs.Items.{Shape-suc, AllFit-suc}
use debianbox.Poller.Pairs.Control.{info_at-Preserves, throw-Preserves, create-Moves}
use debianbox.Poller.Pairs.Removal.{remove-Moves}
use debianbox.Poller.Pairs.Handlers.{parse_recv_data-Preserves, parse_event_data-Preserves}

abbrev pub Pairing : M (Unit {0}) → Type 0
Pairing m = Preserves IsPaired Any m

pub IsPaired-Ignores : Ignores IsPaired
IsPaired-Ignores p e h = h

creates-Preserves : (z : Zmq) (a : ℕ) → Pairing (create_socket_info_zmq z a)
creates-Preserves z a p i =
    create-Moves (own_of p) (watched p) p.next p.sockets i.0 i.1 z a p (refl, refl, refl, refl)

removes-Preserves : (a : ℕ) → Pairing (remove_socket_info_zmq a)
removes-Preserves a p i =
    remove-Moves (own_of p) (watched p) p.next p.sockets i.0 i.1 a p (refl, refl, refl, refl)

pushed-AllFit :
    (handles : List ℕ) (next a : ℕ) (name : List ℕ) (t : SocketType)
    (sockets : List (ℕ × SocketInfo))
    → AllFit handles next sockets
    → AllFit handles next (sockets ++ (a, make_info name t) ∷ [])
unfolding make_info
pushed-AllFit handles next a name t [] f = (tt, tt)
pushed-AllFit handles next a name t (e ∷ sockets) f =
    (f.0, pushed-AllFit handles next a name t sockets f.1)

push_info-Preserves : (name : List ℕ) (t : SocketType) → Preserves IsPaired Any (push_info name t)
unfolding push_info
push_info-Preserves name t p i = (
  (
    Shape-suc (own_of p) p.next (watched p) i.0,
    pushed-AllFit (watched p) (suc p.next) p.next name t p.sockets
        (AllFit-suc (watched p) p.next p.sockets i.1),
  ),
  tt,
)

ctrl-Preserves : Preserves IsPaired Any the_ctrl_socket
ctrl-Preserves p i = (i, tt)

create_message-Preserves : (z : Zmq) (msg : List Frame) → Pairing (parse_socket_create z msg)
unfolding parse_socket_create
create_message-Preserves z msg =
    search
      (
        then-Preserves, frame-Preserves, load_at-Preserves, push_info-Preserves, ctrl-Preserves,
        send-Preserves, IsPaired-Ignores,
      )
      depth 24 fits 20000

reach-Preserves :
    (z : Zmq) (t : SocketType) (o : Option ℕ) (address : Frame) → Pairing (reach_at z t o address)
reach-Preserves z t none address = λ p i. tt
reach-Preserves z t (some h) address = search (preserves, throw-Preserves)

open_message-Preserves : (z : Zmq) (msg : List Frame) → Pairing (parse_socket_open z msg)
unfolding parse_socket_open
open_message-Preserves z msg =
    search (preserves, creates-Preserves, info_at-Preserves, reach-Preserves) depth 20

close_message-Preserves : (msg : List Frame) → Pairing (parse_socket_close msg)
unfolding parse_socket_close
close_message-Preserves msg = search (preserves, removes-Preserves) depth 20

abbrev LeftFit : List ℕ → ℕ → Option (List (ℕ × SocketInfo)) → Type 0
LeftFit handles next none = Unit {0}
LeftFit handles next (some left) = AllFit handles next left

keep-LeftFit :
    (handles : List ℕ) (next a : ℕ) (s : SocketInfo) (o : Option (List (ℕ × SocketInfo)))
    → Fits handles next s.zmq_socket s.zmq_monitor
    → LeftFit handles next o
    → LeftFit handles next (keep_info (a, s) o)
keep-LeftFit handles next a s none f k = tt
keep-LeftFit handles next a s (some left) f k = (f, k)

erase_info-LeftFit :
    (handles : List ℕ) (next a : ℕ) (sockets : List (ℕ × SocketInfo))
    → AllFit handles next sockets
    → LeftFit handles next (erase_info a sockets)
unfolding erase_info
erase_info-LeftFit handles next a [] f = tt
erase_info-LeftFit handles next a ((b, s) ∷ rest) f = elim (Bool-cases (b == a)) [
  | inl it ↦ rw it f.1
  | inr other ↦ rw other (
      keep-LeftFit handles next b s (erase_info a rest) f.0
        (erase_info-LeftFit handles next a rest f.1))
]

forgets-Leads :
    (p : Poller) (o : Option (List (ℕ × SocketInfo)))
    → Shape (own_of p) p.next (watched p)
    → LeftFit (watched p) p.next o
    → Leads IsPaired
        (Any {A = Unit {0}})
        ((needs o >>= λ left q. done tt (record q { sockets = left })) p)
forgets-Leads p none s f = tt
forgets-Leads p (some left) s f = ((s, f), tt)

forget-Preserves : (a : ℕ) → Pairing (forget a)
unfolding forget
forget-Preserves a p i =
    forgets-Leads p (erase_info a p.sockets) i.0
      (erase_info-LeftFit (watched p) p.next a p.sockets i.1)

remove_open-Preserves : (o : Option ℕ) (m : M (Unit {0})) → Pairing m → Pairing (remove_open o m)
remove_open-Preserves none m h = skip-Preserves IsPaired
remove_open-Preserves (some k) m h = h

remove_message-Preserves : (msg : List Frame) → Pairing (parse_socket_remove msg)
unfolding parse_socket_remove
remove_message-Preserves msg =
    search
      (preserves, info_at-Preserves, remove_open-Preserves, removes-Preserves, forget-Preserves)
      depth 20

command-Preserves : (z : Zmq) (cmd : ℕ) (msg : List Frame) → Pairing (run_command z cmd msg)
command-Preserves z cmd msg =
    search
      (
        preserves, create_message-Preserves, open_message-Preserves, close_message-Preserves,
        remove_message-Preserves,
      )
      depth 20

pub control-Preserves : (z : Zmq) (o : Option (List Frame)) → Pairing (parse_ctrl_data z o)
unfolding parse_ctrl_data
control-Preserves z none = skip-Preserves IsPaired
control-Preserves z (some msg) = search (preserves, command-Preserves)

send_on-Preserves : (z : Zmq) (o : Option ℕ) (frames : List Frame) → Pairing (send_on z o frames)
unfolding send_on
send_on-Preserves z none frames = λ p i. tt
send_on-Preserves z (some h) frames = send-Preserves IsPaired z h frames IsPaired-Ignores

send_each-Preserves :
    (z : Zmq) (o : Option ℕ) (peers : List PeerInfo) (frames : List Frame)
    → Pairing (send_each z o peers frames)
unfolding send_each
send_each-Preserves z o [] frames = skip-Preserves IsPaired
send_each-Preserves z o (info ∷ peers) frames =
    then-Preserves IsPaired Any (send_on z o (info.peer_id ∷ frames))
      (λ u. send_each z o peers frames) (send_on-Preserves z o (info.peer_id ∷ frames))
      (λ u. send_each-Preserves z o peers frames)

send_all-Preserves :
    (z : Zmq) (s : SocketInfo) (frames : List Frame) → Pairing (send_all z s frames)
unfolding send_all
send_all-Preserves z s frames = of_type s.socket_type
  where
    of_type :
        (t : SocketType)
        → Pairing (elim t [
          | router ↦ send_each z s.zmq_socket s.peers frames
          | dealer ↦ send_on z s.zmq_socket frames
        ])
    of_type router = send_each-Preserves z s.zmq_socket s.peers frames
    of_type dealer = send_on-Preserves z s.zmq_socket frames

dispatch-Preserves :
    (z : Zmq) (s : SocketInfo) (peer : Frame) (frames : List Frame)
    → Pairing (dispatch_data z s peer frames)
unfolding dispatch_data
dispatch-Preserves z s [] frames = send_all-Preserves z s frames
dispatch-Preserves z s (c ∷ cs) frames = send_on-Preserves z s.zmq_socket ((c ∷ cs) ∷ frames)

send_command-Preserves : (z : Zmq) (msg : List Frame) → Pairing (send_command z msg)
unfolding send_command
send_command-Preserves z msg = search (preserves, info_at-Preserves, dispatch-Preserves) depth 20

pub sending-Preserves : (z : Zmq) (o : Option (List Frame)) → Pairing (parse_send_data z o)
unfolding parse_send_data
sending-Preserves z none = skip-Preserves IsPaired
sending-Preserves z (some msg) = search (preserves, send_command-Preserves)

-- What leaves the items, and the numbers that are used, as they are.
Held-Leads :
    (p : Poller) (r : Run (Unit {0}))
    → Shape (own_of p) p.next (watched p)
    → Leads (Held (own_of p) (watched p) p.next) Any r
    → Leads IsPaired Any r
Held-Leads p (done a q) s h =
    let (e, e', f, o) = h.0 in
    (
      (
        subst (λ w. Shape w q.next (watched q)) (sym o)
            (subst (λ n. Shape (own_of p) n (watched q)) (sym e')
              (subst (Shape (own_of p) p.next) (sym e) s)),
        subst (λ n. AllFit (watched q) n q.sockets) (sym e')
            (subst (λ w. AllFit w p.next q.sockets) (sym e) f),
      ),
      tt,
    )
Held-Leads p undefined s h = tt
Held-Leads p (thrown es) s h = tt
Held-Leads p uncaught s h = tt

pub receiving-Preserves : (z : Zmq) (h : ℕ) (o : Option Inbound) → Pairing (parse_recv_data z h o)
receiving-Preserves z h o p i =
    Held-Leads p (parse_recv_data z h o p) i.0
      (parse_recv_data-Preserves (own_of p) (watched p) p.next z h o p (refl, refl, i.1, refl))

pub events-Preserves :
    (z : Zmq) (h : ℕ) (event addr : Option Frame) → Pairing (parse_event_data z h event addr)
events-Preserves z h event addr p i = Held-Leads p (parse_event_data z h event addr p) i.0 (
    parse_event_data-Preserves (own_of p) (watched p) p.next z h event addr p
      (refl, refl, i.1, refl))
