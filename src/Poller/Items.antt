-- ===== src/Poller/Items.antt =====
-- What opening and closing a socket does to the poll items of socket_poller_zmq.cpp, and the
-- control messages of channel_impl_zmq.cpp.
use debianbox.Base.{
  Bool, ap, sym, ◌∙◌, append-nil, Each-append, Each, ℕ, suc, ◌≡◌, ◌≢◌, refl, arith, List, [], ◌∷◌,
  ◌++◌, append_assoc, some, true, false, ◌==◌, ==_iff, Bool-cases, inl, inr,
}
use debianbox.Sockets.{SocketType, router, dealer, SocketInfo, make_info}
use debianbox.Poller.{
  Frame, Effect, notifies, SockOpt, immediate, heartbeat_ivl, heartbeat_timeout, heartbeat_ttl,
  handshake_ivl, linger, rcvtimeo, router_mandatory, routing_id, PollItem, Poller, Zmq, Run, done,
  word, pointer, find_info, info_at, store, put_info, open_socket, close_socket,
}
use debianbox.Poller.Control.{
  monitor_address, erase_info, create_socket_info_zmq, set_option, set_options, set_type_option,
  erase_items, remove_socket_info_zmq,
}

-- `__open_socket_sync`.
abbrev pub open_frames : Frame → Frame → ℕ → ℕ → ℕ → List Frame
open_frames sender address zmq_socket_info_ptr cv mtx =
    sender
    ∷ word open_socket
    ∷ address
    ∷ pointer zmq_socket_info_ptr
    ∷ pointer cv
    ∷ pointer mtx
    ∷ []

-- `__close_socket_sync`.
abbrev pub close_frames : Frame → ℕ → ℕ → ℕ → List Frame
close_frames sender zmq_socket_info_ptr cv mtx =
    sender ∷ word close_socket ∷ pointer zmq_socket_info_ptr ∷ pointer cv ∷ pointer mtx ∷ []

pub ne-== : (m n : ℕ) → m ≢ n → (m == n) ≡ false
ne-== m n h = ground arith

pub find_info-put_info :
    (a : ℕ) (s t : SocketInfo) (sockets : List (ℕ × SocketInfo))
    → find_info a sockets ≡ some s
    → find_info a (put_info a t sockets) ≡ some t
unfolding find_info put_info
find_info-put_info a s t [] e = cc
find_info-put_info a s t ((b, u) ∷ rest) e = elim (Bool-cases (b == a)) [
  | inl same ↦ rw (same, same)
  | inr differs ↦ rw (differs, differs) (find_info-put_info a s t rest (rw differs at e))
]

-- No item is that of the socket.
abbrev pub Unwatched : ℕ → List PollItem → Type 0
Unwatched h [] = Unit {0}
Unwatched h (item ∷ items) = ((item.socket == h) ≡ false) × Unwatched h items

abbrev pub item_of : ℕ → PollItem
item_of h = record { socket = h; ready = false }

pub erase_items-append :
    (h : ℕ) (items : List PollItem) (m : PollItem)
    → Unwatched h items
    → erase_items (some h) (items ++ item_of h ∷ m ∷ []) ≡ some items
unfolding erase_items
erase_items-append h [] m u = rw ((==_iff h h).1 refl)
erase_items-append h (item ∷ items) m u = rw (u.0, erase_items-append h items m u.1)

-- A socket as `parse_socket_open` leaves it.
abbrev pub opened : List ℕ → SocketType → ℕ → SocketInfo
opened name t h = record (make_info name t) { zmq_socket = some h; zmq_monitor = some (suc h) }

-- What ZeroMQ has to do for a channel's socket with the handle `h` and for its monitor.
abbrev pub Mounts : Zmq → ℕ → List ℕ → Type 0
Mounts z h channel_name =
    (z.socket_ok h ≡ true)
    × (z.fd_ok h ≡ true)
    × ((option : SockOpt) → z.option_ok h option ≡ true)
    × (z.monitor_ok h ≡ true)
    × (z.socket_ok (suc h) ≡ true)
    × (z.endpoint_ok (suc h) (monitor_address channel_name) ≡ true)

abbrev pub is_notice : Effect → Bool
is_notice (notifies cv) = true
is_notice e = false

-- What has been done since then wakes no caller.
abbrev pub Quiet : List Effect → List Effect → Type 0
Quiet before now = (new : List Effect) × (now ≡ before ++ new) × Each (λ e. is_notice e ≡ false) new

none_new : (es : List Effect) → Quiet es es
none_new es = ([], sym (append-nil es), tt)

pub one_new :
    (es fs : List Effect) (e : Effect) → is_notice e ≡ false → Quiet es fs → Quiet es (fs ++ e ∷ [])
one_new es fs e n (new, same, quiet) = (
  new ++ e ∷ [],
  ap (λ l. l ++ e ∷ []) same ∙ append_assoc es new (e ∷ []),
  Each-append _ new (e ∷ []) quiet (n, tt),
)

abbrev pub Opens : Zmq → ℕ → List ℕ → SocketType → Poller → Run (Unit {0}) → Type 0
Opens z a name t p r =
    (q : Poller) × (r ≡ done tt q)
    × (q.poll_items ≡ p.poll_items ++ item_of p.next ∷ item_of (suc p.next) ∷ [])
    × (q.sockets ≡ put_info a (opened name t p.next) p.sockets)
    × Quiet p.effects q.effects

pub create-Opens :
    (z : Zmq) (a : ℕ) (name : List ℕ) (t : SocketType) (p : Poller)
    → a ≢ 0
    → find_info a p.sockets ≡ some (make_info name t)
    → Mounts z p.next name
    → Opens z a name t p (create_socket_info_zmq z a p)
unfolding create_socket_info_zmq info_at store set_option set_options set_type_option make_info
create-Opens z a name router p ne found ok =
    rw
      (
        ne-== a 0 ne,
        found,
        ok.0,
        ok.1,
        ok.2 immediate,
        ok.2 heartbeat_ivl,
        ok.2 heartbeat_timeout,
        ok.2 heartbeat_ttl,
        ok.2 handshake_ivl,
        ok.2 linger,
        ok.2 rcvtimeo,
        ok.2 router_mandatory,
        ok.3,
        ok.4,
        ok.5,
      )
      (
        _,
        refl,
        append_assoc p.poll_items (item_of p.next ∷ []) (item_of (suc p.next) ∷ []),
        refl,
        search (none_new, one_new) depth 24,
      )
create-Opens z a name dealer p ne found ok =
    rw
      (
        ne-== a 0 ne,
        found,
        ok.0,
        ok.1,
        ok.2 immediate,
        ok.2 heartbeat_ivl,
        ok.2 heartbeat_timeout,
        ok.2 heartbeat_ttl,
        ok.2 handshake_ivl,
        ok.2 linger,
        ok.2 rcvtimeo,
        ok.2 routing_id,
        ok.3,
        ok.4,
        ok.5,
      )
      (
        _,
        refl,
        append_assoc p.poll_items (item_of p.next ∷ []) (item_of (suc p.next) ∷ []),
        refl,
        search (none_new, one_new) depth 24,
      )

abbrev pub Closes : ℕ → List ℕ → SocketType → Poller → List PollItem → Run (Unit {0}) → Type 0
Closes a name t p left r =
    (q : Poller) × (r ≡ done tt q)
    × (q.poll_items ≡ left)
    × (q.sockets ≡ put_info a (make_info name t) p.sockets)

pub remove-Closes :
    (a h m : ℕ) (s : SocketInfo) (p : Poller) (left : List PollItem)
    → a ≢ 0
    → find_info a p.sockets ≡ some s
    → s.zmq_socket ≡ some h
    → s.zmq_monitor ≡ some m
    → erase_items (some h) p.poll_items ≡ some left
    → Closes a s.channel_name s.socket_type p left (remove_socket_info_zmq a p)
unfolding remove_socket_info_zmq info_at store make_info
remove-Closes a h m s p left ne found e e' erased =
    rw (ne-== a 0 ne, found, e, e', erased) (_, refl, refl, refl)

-- No socket has the address.
abbrev pub Unused : ℕ → List (ℕ × SocketInfo) → Type 0
Unused a sockets = Each (λ e. (e.0 == a) ≡ false) sockets

same_id : (a : ℕ) → (a == a) ≡ true
same_id a = (==_iff a a).1 refl

pub find_info-append :
    (a : ℕ) (s : SocketInfo) (sockets : List (ℕ × SocketInfo))
    → Unused a sockets
    → find_info a (sockets ++ (a, s) ∷ []) ≡ some s
unfolding find_info
find_info-append a s [] u = rw (same_id a)
find_info-append a s ((b, t) ∷ sockets) u = rw (u.0) (find_info-append a s sockets u.1)

pub put_info-append :
    (a : ℕ) (s t : SocketInfo) (sockets : List (ℕ × SocketInfo))
    → Unused a sockets
    → put_info a t (sockets ++ (a, s) ∷ []) ≡ sockets ++ (a, t) ∷ []
unfolding put_info
put_info-append a s t [] u = rw (same_id a)
put_info-append a s t ((b, v) ∷ sockets) u =
    rw (u.0) (ap (λ l. (b, v) ∷ l) (put_info-append a s t sockets u.1))

pub erase_info-append :
    (a : ℕ) (s : SocketInfo) (sockets : List (ℕ × SocketInfo))
    → Unused a sockets
    → erase_info a (sockets ++ (a, s) ∷ []) ≡ some sockets
unfolding erase_info
erase_info-append a s [] u = rw (same_id a)
erase_info-append a s ((b, v) ∷ sockets) u = rw (u.0, erase_info-append a s sockets u.1)
