-- ===== src/Journey/Tests.antt =====
-- A message of two members, over both ways.
use debianbox.Base.{
  ℕ, ◌≡◌, refl, sym, arith, List, [], ◌∷◌, none, some, true, false, ◌==◌, ==_iff, Bool-cases, inl,
  inr, none-ne, some_eq,
}
use debianbox.Checksum.{multi_0, multi_1, multi_2, multi_3, single}
use debianbox.Marshall.{Ty, scalar, text, Vals, first_to_last}
use debianbox.Marshall.Message.{AreValid}
use debianbox.Marshall.Plain.{plain, plain-IsStreambuf, host}
use debianbox.Poller.{
  posts, status_type_id, send_connection_state_msg, Poller, Zmq, done, accepted, codes,
}
use debianbox.Poller.Routing.{after}
use debianbox.Sockets.{SocketType, router, dealer, SocketInfo}
use debianbox.Channel.{Channels, local, client_zmq, m_impl}
use debianbox.Channel.Sending.{posted, send}
use debianbox.Brocker.{System, Brocker, construct, register, post, store, find_call}
use debianbox.Brocker.Coherence
use debianbox.Brocker.Coherence.{History, IsCoherent, History-IsCoherent, no_brockers}
use debianbox.Brocker.Call.{pack}
use debianbox.Journey.{handler, IsTyped, received, Delivers}
use debianbox.Journey.Notice.{status_members, notice_arrival}
use debianbox.Journey.Arrival.{local_arrival}

abbrev person : List Ty
person = scalar 4 ∷ text ∷ []

abbrev ada : Vals person
ada = (36, (65 ∷ 100 ∷ 97 ∷ [], tt))

ada-AreValid : AreValid host person ada
ada-AreValid = (omega arith, (omega arith, tt))

-- Broker 1 has a callback for the type 7.
abbrev listener : Brocker (List Ty)
listener = record { calls = (7, person) ∷ []; filters = []; context = 0 }

served : System (List Ty)
unfolding construct
served = record {
  brocker_at = store 1 (some listener) (construct 1 0 no_brockers).brocker_at;
  registry = (7, 1 ∷ []) ∷ [];
}

served_registered : register 1 7 person (construct 1 0 no_brockers) ≡ some served
unfolding register construct served
served_registered = refl

served-IsCoherent : IsCoherent served
served-IsCoherent = History-IsCoherent (
    Coherence.registers 1 7 person served_registered
      (Coherence.constructs 1 0 refl Coherence.start))

served-IsTyped : IsTyped served 7 person
unfolding served construct find_call
served-IsTyped b us e = elim (Bool-cases (1 == b)) [
  | inl here ↦ sym (some_eq person us (rw (here, handler, find_call) at e))
  | inr other ↦ absurd (none-ne us (rw (other, handler) at e))
]

-- The implementation 0 is local and has the name "a".
abbrev home : Channels
home = record {
  handles = (5, some 0) ∷ [];
  impls = λ i. record { name = 97 ∷ []; kind = local };
  g_channels = (97 ∷ [], 0) ∷ [];
  next = 1;
}

abbrev packet : List ℕ
packet = pack plain host first_to_last person ada

local_arrival_example :
    (send (λ i. []) 5 7 packet [] home
      ≡ some (posted 7 packet (codes "a") (codes "local") (codes "local")))
    × Delivers plain host first_to_last served 7 "a"
        (received person ada "local" "a" "local")
        (post 7 packet "a" "local" "local" true served)
unfolding m_impl
local_arrival_example =
    local_arrival plain host first_to_last plain-IsStreambuf served served-IsCoherent 7 person
      served-IsTyped ada (tt, (tt, tt)) ada-AreValid home 5 0 (λ i. []) [] "a" refl refl refl

-- A client with the record 101, whose socket is 8, and a server whose socket is 5.
abbrev info : SocketType → List ℕ → ℕ → SocketInfo
info kind name h = record {
  channel_name = name;
  socket_type = kind;
  zmq_socket = some h;
  zmq_monitor = none;
  peers = [];
  connected = true;
}

abbrev poller : ℕ → SocketInfo → Poller
poller a s = record {
  sockets = (a, s) ∷ [];
  poll_items = [];
  send_socket = 1;
  ctrl_socket = 2;
  next = 200;
  effects = [];
}

abbrev zmq : SocketType → Zmq
zmq kind = record {
  send_result = λ s frames. accepted;
  type_of = λ s. some kind;
  endpoint_ok = λ s address. true;
  monitor_ok = λ s. true;
  socket_ok = λ s. true;
  fd_ok = λ s. true;
  option_ok = λ s option. true;
  peer_address = λ fd. codes "b";
  uuid = λ s. s;
}

abbrev near : Poller
near = poller 101 (info dealer (97 ∷ []) 8)

abbrev far : Poller
far = poller 100 (info router (codes "a") 5)

abbrev away : Channels
away = record home { impls = λ i. record { name = 97 ∷ []; kind = client_zmq (42 ∷ []) 101 } }

-- Broker 2 has a callback for the notices of the poller.
abbrev watcher : Brocker (List Ty)
watcher = record { calls = (status_type_id, status_members) ∷ []; filters = []; context = 0 }

noticed : System (List Ty)
unfolding construct
noticed = record {
  brocker_at = store 2 (some watcher) (construct 2 0 no_brockers).brocker_at;
  registry = (status_type_id, 2 ∷ []) ∷ [];
}

noticed_registered :
    register 2 status_type_id status_members (construct 2 0 no_brockers) ≡ some noticed
unfolding register construct noticed status_type_id multi_0 multi_1 multi_2 multi_3 single
noticed_registered = refl

noticed-IsCoherent : IsCoherent noticed
noticed-IsCoherent = History-IsCoherent (
    Coherence.registers 2 status_type_id status_members noticed_registered
      (Coherence.constructs 2 0 refl Coherence.start))

noticed-IsTyped : IsTyped noticed status_type_id status_members
unfolding noticed construct find_call
noticed-IsTyped b us e = elim (Bool-cases (2 == b)) [
  | inl here ↦ sym (
      some_eq status_members us
        (rw (here, handler, (==_iff status_type_id status_type_id).1 refl) at e))
  | inr other ↦ absurd (none-ne us (rw (other, handler) at e))
]

notice_arrival_example :
    (bytes : List ℕ) × (send_connection_state_msg (codes "a") true (codes "c") (codes "b") far
      ≡ done tt
          (after far (posts status_type_id bytes (codes "a") (codes "c") (codes "b") false ∷ [])))
    × Delivers plain host first_to_last noticed status_type_id "a"
        (received status_members (1, tt) "c" "a" "b")
        (post status_type_id bytes "a" "c" "b" false noticed)
notice_arrival_example =
    notice_arrival plain host first_to_last noticed far true "a" "c" "b" plain-IsStreambuf
      noticed-IsCoherent noticed-IsTyped
