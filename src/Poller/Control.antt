-- ===== src/Poller/Control.antt =====
-- The control messages of socket_poller_zmq.cpp: sockets are created, opened, closed and removed.
use debianbox.Base.{
  ℕ, suc, List, [], ◌∷◌, ◌++◌, Option, none, some, Bool, true, false, length, ltb, ◌==◌,
  if◌then◌else◌,
}
use debianbox.Sockets.{SocketType, router, dealer, SocketInfo, make_info}
use debianbox.Poller.{
  Frame, Effect, binds, connects, sets, monitors, closes, notifies, immediate, heartbeat_ivl,
  heartbeat_timeout, heartbeat_ttl, handshake_ivl, linger, rcvtimeo, router_mandatory, routing_id,
  SockOpt, codes, PollItem, Zmq, done, thrown, uncaught, M, ◌>>=◌, ◌>>◌, skip, needs, effect, frame,
  load_at, the_ctrl_socket, fresh, or_throw, pointer, send, info_at, store, create_socket,
  open_socket, close_socket, remove_socket,
}

-- The two values of `zmq::socket_type` that channels use: ZMQ_ROUTER is 6.
abbrev pub type_of_number : ℕ → SocketType
type_of_number n = if n == 6 then router else dealer

-- `m_sockets.push_back(std::make_unique<socket_info_zmq>(name, type))`: its address.
unfoldable pub push_info : List ℕ → SocketType → M ℕ
unfolding make_info
push_info name t p =
    done p.next
      (record p { sockets = p.sockets ++ (p.next, make_info name t) ∷ []; next = suc p.next })

unfoldable pub parse_socket_create : Zmq → List Frame → M (Unit {0})
unfolding push_info frame load_at send
parse_socket_create z msg = do
  sender ← frame 0 msg
  channel_name ← frame 2 msg
  sock_type ← load_at 4 3 msg
  cv ← load_at 8 4 msg
  mtx ← load_at 8 5 msg
  sock_ptr ← push_info channel_name (type_of_number sock_type)
  ctrl ← the_ctrl_socket
  send z ctrl (sender ∷ pointer sock_ptr ∷ [])
  effect (notifies cv)

-- A socket object that is assigned to, or closed, gives up the socket it held.
abbrev pub release : Option ℕ → M (Unit {0})
release none = skip
release (some h) = effect (closes h)

-- `set(option, value)`.
unfoldable pub set_option : Zmq → ℕ → SockOpt → ℕ → M (Unit {0})
set_option z h option value = do or_throw (z.option_ok h option); effect (sets h option value)

abbrev pub monitor_address : List ℕ → List ℕ
monitor_address channel_name = codes "inproc://" ++ channel_name ++ codes "_monitor"

-- The options that every socket gets.
unfoldable pub set_options : Zmq → ℕ → M (Unit {0})
unfolding set_option
set_options z h = do
  set_option z h immediate 1
  set_option z h heartbeat_ivl 1000
  set_option z h heartbeat_timeout 10000
  set_option z h heartbeat_ttl 10000
  set_option z h handshake_ivl 5000
  set_option z h linger 0
  set_option z h rcvtimeo 1000

unfoldable pub set_type_option : Zmq → ℕ → SocketType → M (Unit {0})
unfolding set_option
set_type_option z h router = set_option z h router_mandatory 1
set_type_option z h dealer = set_option z h routing_id (z.uuid h)

abbrev pub watch : ℕ → M (Unit {0})
watch h p =
    done tt (record p { poll_items = p.poll_items ++ record { socket = h; ready = false } ∷ [] })

-- `zmq_socket_monitor` has succeeded, or an `error_t` is thrown.
abbrev pub or_uncaught : Bool → M (Unit {0})
or_uncaught true = skip
or_uncaught false = λ p. uncaught

-- `create_socket_info_zmq`.
unfoldable pub create_socket_info_zmq : Zmq → ℕ → M (Unit {0})
unfolding set_options set_type_option info_at store
create_socket_info_zmq z zmq_socket_info = if zmq_socket_info == 0 then skip else do
  s ← info_at zmq_socket_info
  h ← fresh
  or_throw (z.socket_ok h)
  release s.zmq_socket
  or_throw (z.fd_ok h)
  set_options z h
  set_type_option z h s.socket_type
  or_uncaught (z.monitor_ok h)
  effect (monitors h true)
  m ← fresh
  or_throw (z.socket_ok m)
  release s.zmq_monitor
  or_throw (z.endpoint_ok m (monitor_address s.channel_name))
  effect (connects m (monitor_address s.channel_name))
  store zmq_socket_info (record s { zmq_socket = some h; zmq_monitor = some m })
  watch h
  watch m

abbrev pub reach : SocketType → ℕ → List ℕ → Effect
reach router h address = binds h address
reach dealer h address = connects h address

-- `bind` or `connect` of the socket that the record holds by now; on none it throws.
abbrev pub reach_at : Zmq → SocketType → Option ℕ → List ℕ → M (Unit {0})
reach_at z t none address = λ p. thrown p.effects
reach_at z t (some h) address = do or_throw (z.endpoint_ok h address); effect (reach t h address)

unfoldable pub parse_socket_open : Zmq → List Frame → M (Unit {0})
unfolding frame load_at info_at create_socket_info_zmq
parse_socket_open z msg = do
  cv ← load_at 8 4 msg
  mtx ← load_at 8 5 msg
  address ← frame 2 msg
  zmq_socket_info ← load_at 8 3 msg
  create_socket_info_zmq z zmq_socket_info
  s ← info_at zmq_socket_info
  reach_at z s.socket_type s.zmq_socket address
  effect (notifies cv)

abbrev drop_next : List PollItem → Option (List PollItem)
drop_next [] = none
drop_next (monitor ∷ rest) = some rest

abbrev pub keep_item : PollItem → Option (List PollItem) → Option (List PollItem)
keep_item item none = none
keep_item item (some items) = some (item ∷ items)

abbrev is_item : Option ℕ → PollItem → Bool
is_item none item = false
is_item (some h) item = item.socket == h

-- `m_poll_items.erase(it, it + 2)` at the item of a socket, if it has one; past the end it is
-- undefined.
unfoldable pub erase_items : Option ℕ → List PollItem → Option (List PollItem)
erase_items h [] = some []
erase_items h (item ∷ items) =
    if is_item h item then drop_next items else keep_item item (erase_items h items)

abbrev pub set_items : List PollItem → M (Unit {0})
set_items items p = done tt (record p { poll_items = items })

abbrev pub the_items : M (List PollItem)
the_items p = done p.poll_items p

abbrev pub stop_monitor : Option ℕ → M (Unit {0})
stop_monitor none = skip
stop_monitor (some h) = effect (monitors h false)

-- `remove_socket_info_zmq`.
unfoldable pub remove_socket_info_zmq : ℕ → M (Unit {0})
unfolding info_at erase_items store
remove_socket_info_zmq zmq_socket_info = if zmq_socket_info == 0 then skip else do
  s ← info_at zmq_socket_info
  items ← the_items
  left ← needs (erase_items s.zmq_socket items)
  set_items left
  stop_monitor s.zmq_socket
  release s.zmq_monitor
  release s.zmq_socket
  store zmq_socket_info
      (record s { zmq_socket = none; zmq_monitor = none; connected = false; peers = [] })

unfoldable pub parse_socket_close : List Frame → M (Unit {0})
unfolding load_at remove_socket_info_zmq
parse_socket_close msg = do
  cv ← load_at 8 3 msg
  mtx ← load_at 8 4 msg
  zmq_socket_info ← load_at 8 2 msg
  remove_socket_info_zmq zmq_socket_info
  effect (notifies cv)

abbrev pub keep_info {ℓ} : {A : Type ℓ} → A → Option (List A) → Option (List A)
keep_info s none = none
keep_info s (some rest) = some (s ∷ rest)

-- `m_sockets.erase(std::find_if(…))`; at the end it is undefined.
unfoldable pub erase_info : ℕ → List (ℕ × SocketInfo) → Option (List (ℕ × SocketInfo))
erase_info a [] = none
erase_info a ((b, s) ∷ rest) = if b == a then some rest else keep_info (b, s) (erase_info a rest)

unfoldable pub forget : ℕ → M (Unit {0})
unfolding erase_info
forget a p =
    (do left ← needs (erase_info a p.sockets); λ q. done tt (record q { sockets = left })) p

abbrev pub remove_open : Option ℕ → M (Unit {0}) → M (Unit {0})
remove_open none closing = skip
remove_open (some h) closing = closing

unfoldable pub parse_socket_remove : List Frame → M (Unit {0})
unfolding load_at info_at remove_socket_info_zmq forget
parse_socket_remove msg = do
  cv ← load_at 8 3 msg
  mtx ← load_at 8 4 msg
  zmq_socket_info ← load_at 8 2 msg
  s ← info_at zmq_socket_info
  remove_open s.zmq_socket (remove_socket_info_zmq zmq_socket_info)
  forget zmq_socket_info
  effect (notifies cv)

abbrev pub run_command : Zmq → ℕ → List Frame → M (Unit {0})
run_command z cmd msg =
    if cmd == create_socket
    then parse_socket_create z msg
    else if cmd == open_socket
    then parse_socket_open z msg
    else if cmd == close_socket
    then parse_socket_close msg
    else if cmd == remove_socket
    then parse_socket_remove msg
    else skip

-- `parse_ctrl_data`; `none` if there was no message after all.
unfoldable pub parse_ctrl_data : Zmq → Option (List Frame) → M (Unit {0})
unfolding load_at
parse_ctrl_data z none = skip
parse_ctrl_data z (some msg) =
    if ltb (length msg) 2 then skip else do cmd ← load_at 4 1 msg; run_command z cmd msg
