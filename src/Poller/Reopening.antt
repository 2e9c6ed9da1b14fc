-- ===== src/Poller/Reopening.antt =====
-- A control message of channel_impl_zmq.cpp that opens a socket that is open already, in
-- socket_poller_zmq.cpp.
use debianbox.Base.{
  ℕ, suc, ◌^◌, ◌<◌, ◌≡◌, ◌≢◌, refl, ap, ◌∙◌, append_assoc, List, [], ◌∷◌, ◌++◌, some, true,
}
use debianbox.Sockets.{SocketType, router, dealer, SocketInfo}
use debianbox.Poller.{
  Frame, Effect, closes, immediate, heartbeat_ivl, heartbeat_timeout, heartbeat_ttl, handshake_ivl,
  linger, rcvtimeo, router_mandatory, routing_id, notifies, Poller, Zmq, Run, done, find_info,
  put_info, info_at, store, needs, effect, ◌>>◌,
}
use debianbox.Poller.Control.{
  reach, reach_at, create_socket_info_zmq, set_option, set_options, set_type_option,
  parse_ctrl_data,
}
use debianbox.Poller.Routing.{bind-done}
use debianbox.Poller.Items.{open_frames, find_info-put_info, item_of, ne-==, Mounts}
use debianbox.Poller.Opening.{Notifies, read-open}

-- What the thread has done.
abbrev pub Did : Effect → List Effect → Type 0
Did e es = (front back : List Effect) × (es ≡ front ++ e ∷ back)

last-Did : (e : Effect) (es : List Effect) → Did e (es ++ e ∷ [])
last-Did e es = (es, [], refl)

more-Did : {e : Effect} {es : List Effect} (more : List Effect) → Did e es → Did e (es ++ more)
more-Did more (front, back, same) =
    (front, back ++ more, ap (λ l. l ++ more) same ∙ append_assoc front _ more)

-- A socket that takes the place of another one.
abbrev pub renewed : SocketInfo → ℕ → SocketInfo
renewed s h = record s { zmq_socket = some h; zmq_monitor = some (suc h) }

abbrev Renews : ℕ → ℕ → SocketInfo → Poller → Run (Unit {0}) → Type 0
Renews a h s p r =
    (q : Poller) × (r ≡ done tt q)
    × (q.poll_items ≡ p.poll_items ++ item_of p.next ∷ item_of (suc p.next) ∷ [])
    × (q.sockets ≡ put_info a (renewed s p.next) p.sockets)
    × Did (closes h) q.effects

create-Renews :
    (z : Zmq) (a h m : ℕ) (s : SocketInfo) (t : SocketType) (p : Poller)
    → a ≢ 0
    → find_info a p.sockets ≡ some s
    → s.socket_type ≡ t
    → s.zmq_socket ≡ some h
    → s.zmq_monitor ≡ some m
    → Mounts z p.next s.channel_name
    → Renews a h s p (create_socket_info_zmq z a p)
unfolding create_socket_info_zmq info_at store set_option set_options set_type_option
create-Renews z a h m s router p ne found kind e e' ok =
    rw
      (
        ne-== a 0 ne,
        found,
        kind,
        e,
        e',
        ok.0,
        ok.1,
        ok.2 immediate,
        ok.2 heartbeat_ivl,
        ok.2 heartbeat_timeout,
        ok.2 heartbeat_ttl,
        ok.2 handshake_ivl,
        ok.2 linger,
        ok.2 rcvtimeo,
        ok.2 router_mandatory,
        ok.3,
        ok.4,
        ok.5,
      )
      (
        _,
        refl,
        append_assoc p.poll_items (item_of p.next ∷ []) (item_of (suc p.next) ∷ []),
        refl,
        search (more-Did, last-Did) depth 24,
      )
create-Renews z a h m s dealer p ne found kind e e' ok =
    rw
      (
        ne-== a 0 ne,
        found,
        kind,
        e,
        e',
        ok.0,
        ok.1,
        ok.2 immediate,
        ok.2 heartbeat_ivl,
        ok.2 heartbeat_timeout,
        ok.2 heartbeat_ttl,
        ok.2 handshake_ivl,
        ok.2 linger,
        ok.2 rcvtimeo,
        ok.2 routing_id,
        ok.3,
        ok.4,
        ok.5,
      )
      (
        _,
        refl,
        append_assoc p.poll_items (item_of p.next ∷ []) (item_of (suc p.next) ∷ []),
        refl,
        search (more-Did, last-Did) depth 24,
      )

reach-done :
    (z : Zmq) (t : SocketType) (h cv : ℕ) (address : Frame) (p : Poller)
    → z.endpoint_ok h address ≡ true
    → (reach_at z t (some h) address >> effect (notifies cv)) p
      ≡ done tt (record p { effects = (p.effects ++ reach t h address ∷ []) ++ notifies cv ∷ [] })
reach-done z t h cv address p ok = rw ok refl

-- The message that opens a socket that is open already is dealt with, and wakes its caller: the
-- socket that was open is closed, and the new one and its monitor are watched behind all others; but
-- the poll items of the closed one stay where they are, so that the thread goes on to poll a socket
-- that is closed. That is if ZeroMQ can
-- make, set up and monitor the new socket and reach the address.
pub reopen-stale :
    (z : Zmq) (sender address : Frame) (a cv mtx : ℕ) (p : Poller) (s : SocketInfo) (h m : ℕ)
    → a < 256 ^ 8
    → cv < 256 ^ 8
    → mtx < 256 ^ 8
    → a ≢ 0
    → find_info a p.sockets ≡ some s
    → s.zmq_socket ≡ some h
    → s.zmq_monitor ≡ some m
    → Mounts z p.next s.channel_name
    → z.endpoint_ok p.next address ≡ true
    → (q : Poller) × (parse_ctrl_data z (some (open_frames sender address a cv mtx)) p ≡ done tt q)
      × (q.poll_items ≡ p.poll_items ++ item_of p.next ∷ item_of (suc p.next) ∷ [])
      × (find_info a q.sockets ≡ some (renewed s p.next))
      × Did (closes h) q.effects
      × Notifies cv q
unfolding info_at
reopen-stale z sender address a cv mtx p s h m small small_cv small_mtx ne found is_open monitored
      watchable reachable =
    let c = create-Renews z a h m s s.socket_type p ne found refl is_open monitored watchable in
    let there = ap (find_info a) c.3 ∙ find_info-put_info a s (renewed s p.next) p.sockets found in
    (
      _,
      read-open z sender address a cv mtx small small_cv small_mtx p
          ∙ bind-done (create_socket_info_zmq z a) _ p c.0 tt c.1
          ∙ bind-done (info_at a) _ c.0 c.0 (renewed s p.next) (ap (λ o. needs o c.0) there)
          ∙ reach-done z s.socket_type p.next cv address c.0 reachable,
      c.2,
      there,
      more-Did _ (more-Did _ c.4),
      (_, refl),
    )
