-- ===== src/Poller/Creation.antt =====
-- The control messages of channel_impl_zmq.cpp that create and remove a socket, from the message to
-- the end of its handler in socket_poller_zmq.cpp.
use debianbox.Base.{
  ℕ, suc, ◌^◌, ◌<◌, ◌≡◌, ◌≢◌, refl, ap, ◌∙◌, arith, append_assoc, List, [], ◌∷◌, ◌++◌, Option, some,
  true,
}
use debianbox.Marshall.Bytes.{read, to_bytes, from_bytes-to_bytes}
use debianbox.Sockets.{SocketType, router, dealer, SocketInfo, make_info}
use debianbox.Poller.{
  Frame, sends, notifies, PollItem, Poller, Zmq, done, accepted, ◌>>=◌, ◌>>◌, effect, frame,
  value_of, load_at, word, pointer, find_info, put_info, info_at, needs, create_socket,
  remove_socket, send,
}
use debianbox.Poller.Control.{
  push_info, parse_socket_create, type_of_number, erase_items, remove_socket_info_zmq, forget,
  remove_open, parse_socket_remove, parse_ctrl_data,
}
use debianbox.Poller.Routing.{load-word, load-pointer, bind-done}
use debianbox.Poller.Items.{
  Mounts, Unused, find_info-append, put_info-append, erase_info-append, open_frames, Unwatched,
  item_of, erase_items-append, opened, remove-Closes,
}
use debianbox.Poller.Opening.{Notifies, open-Ends}

abbrev number_of : SocketType → ℕ
number_of router = 6
number_of dealer = 5

-- `__create_socket_sync`: the message, and what the caller reads of the answer.
abbrev pub create_frames : Frame → Frame → SocketType → ℕ → ℕ → List Frame
create_frames sender channel_name socket_type cv mtx =
    sender
    ∷ word create_socket
    ∷ channel_name
    ∷ word (number_of socket_type)
    ∷ pointer cv
    ∷ pointer mtx
    ∷ []

abbrev pub read_reply : Frame → Option ℕ
read_reply recv_msg = value_of (read 8 recv_msg)

-- `__remove_socket_sync`.
abbrev pub remove_frames : Frame → ℕ → ℕ → ℕ → List Frame
remove_frames sender zmq_socket_info_ptr cv mtx =
    sender ∷ word remove_socket ∷ pointer zmq_socket_info_ptr ∷ pointer cv ∷ pointer mtx ∷ []

type_of_number-number_of : (t : SocketType) → type_of_number (number_of t) ≡ t
type_of_number-number_of router = refl
type_of_number-number_of dealer = refl

number_of-lt : (t : SocketType) → number_of t < 256 ^ 4
number_of-lt router = omega arith
number_of-lt dealer = omega arith

module _ (z : Zmq) (sender : Frame) (cv mtx : ℕ) (small_cv : cv < 256 ^ 8)
    (small_mtx : mtx < 256 ^ 8) where
  -- The thread after the message: the socket is behind the others, and the answer, then the
  -- notification, have been sent.
  abbrev created : List ℕ → SocketType → Poller → Poller
  created name t p = record p {
    sockets = p.sockets ++ (p.next, make_info name t) ∷ [];
    next = suc p.next;
    effects =
        (p.effects ++ sends p.ctrl_socket (sender ∷ pointer p.next ∷ []) ∷ []) ++ notifies cv ∷ [];
  }

  create-created :
      (p : Poller) (name : List ℕ) (t : SocketType)
      → z.send_result p.ctrl_socket (sender ∷ pointer p.next ∷ []) ≡ accepted
      → parse_ctrl_data z (some (create_frames sender name t cv mtx)) p ≡ done tt (created name t p)
  unfolding parse_ctrl_data parse_socket_create load_at frame push_info send
  create-created p name t ok =
      bind-done (load_at 4 1 msg) _ p p create_socket (load-word create_socket p (omega arith))
      ∙ bind-done (load_at 4 3 msg) _ p p (number_of t) (load-word (number_of t) p (number_of-lt t))
      ∙ bind-done (load_at 8 4 msg) _ p p cv (load-pointer cv p small_cv)
      ∙ bind-done (load_at 8 5 msg) _ p p mtx (load-pointer mtx p small_mtx)
      ∙ rw (type_of_number-number_of t, ok)
    where
      msg : List Frame
      msg = create_frames sender name t cv mtx

  read-remove :
      (a : ℕ) (p : Poller)
      → a < 256 ^ 8
      → parse_ctrl_data z (some (remove_frames sender a cv mtx)) p
        ≡ (info_at a >>= λ s.
              remove_open s.zmq_socket (remove_socket_info_zmq a)
              >> (forget a >> effect (notifies cv)))
            p
  unfolding parse_ctrl_data parse_socket_remove load_at frame
  read-remove a p small =
      bind-done (load_at 4 1 msg) _ p p remove_socket (load-word remove_socket p (omega arith))
      ∙ bind-done (load_at 8 3 msg) _ p p cv (load-pointer cv p small_cv)
      ∙ bind-done (load_at 8 4 msg) _ p p mtx (load-pointer mtx p small_mtx)
      ∙ bind-done (load_at 8 2 msg) _ p p a (load-pointer a p small)
    where
      msg : List Frame
      msg = remove_frames sender a cv mtx

  -- The thread without the socket that was the last one.
  forget-last :
      (a : ℕ) (s : SocketInfo) (before : List (ℕ × SocketInfo)) (p : Poller)
      → Unused a before
      → p.sockets ≡ before ++ (a, s) ∷ []
      → (forget a >> effect (notifies cv)) p
        ≡ done tt (record p { sockets = before; effects = p.effects ++ notifies cv ∷ [] })
  unfolding forget
  forget-last a s before p unused e = rw (e, erase_info-append a s before unused)

  remove-open :
      (p : Poller) (name : List ℕ) (t : SocketType) (a h : ℕ) (items : List PollItem)
      (before : List (ℕ × SocketInfo))
      → a < 256 ^ 8
      → a ≢ 0
      → Unused a before
      → p.sockets ≡ before ++ (a, opened name t h) ∷ []
      → p.poll_items ≡ items ++ item_of h ∷ item_of (suc h) ∷ []
      → Unwatched h items
      → (r : Poller) × (parse_ctrl_data z (some (remove_frames sender a cv mtx)) p ≡ done tt r)
        × (r.sockets ≡ before)
        × (r.poll_items ≡ items)
        × Notifies cv r
  unfolding info_at make_info
  remove-open p name t a h items before small ne unused socks watched new =
      let found = ap (find_info a) socks ∙ find_info-append a (opened name t h) before unused in
      let c =
        remove-Closes a h (suc h) (opened name t h) p items ne found refl refl
          (ap (erase_items (some h)) watched ∙ erase_items-append h items (item_of (suc h)) new) in
      let last =
        c.3
        ∙ ap (put_info a (make_info name t)) socks
        ∙ put_info-append a (opened name t h) (make_info name t) before unused in
      (
        _,
        read-remove a p small
            ∙ bind-done (info_at a) _ p p (opened name t h) (ap (λ o. needs o p) found)
            ∙ bind-done (remove_socket_info_zmq a) _ p c.0 tt c.1
            ∙ forget-last a (make_info name t) before c.0 unused last,
        refl,
        c.2,
        (_, refl),
      )

  -- A channel's life in the poller. The message that creates its socket is answered by the address
  -- of a new socket that is closed and has no peers, behind all others, and the caller that reads
  -- the answer gets that address; the answer is sent before the caller is woken, and nothing else is
  -- done. The message that opens the socket puts it and its monitor behind all poll items. The
  -- message that removes the socket, while it is open, leaves the sockets and the poll items of
  -- the beginning. Each wakes its caller. That is if ZeroMQ takes the answer, can make, set up and
  -- monitor the socket and reach the address, and the new address and handle are not in use.
  pub create-open-remove :
      (p : Poller) (name address : Frame) (t : SocketType)
      → z.send_result p.ctrl_socket (sender ∷ pointer p.next ∷ []) ≡ accepted
      → p.next < 256 ^ 8
      → p.next ≢ 0
      → Unused p.next p.sockets
      → Unwatched (suc p.next) p.poll_items
      → Mounts z (suc p.next) name
      → z.endpoint_ok (suc p.next) address ≡ true
      → (answer : Frame) × (a : ℕ) × (q o r : Poller) × (parse_ctrl_data z
            (some (create_frames sender name t cv mtx))
            p
          ≡ done tt q)
        × (parse_ctrl_data z (some (open_frames sender address a cv mtx)) q ≡ done tt o)
        × (parse_ctrl_data z (some (remove_frames sender a cv mtx)) o ≡ done tt r)
        × (read_reply answer ≡ some a)
        × (q.effects ≡ p.effects ++ sends p.ctrl_socket (sender ∷ answer ∷ []) ∷ notifies cv ∷ [])
        × (q.sockets ≡ p.sockets ++ (a, make_info name t) ∷ [])
        × (q.poll_items ≡ p.poll_items)
        × (o.sockets ≡ p.sockets ++ (a, opened name t (suc a)) ∷ [])
        × (o.poll_items ≡ p.poll_items ++ item_of (suc a) ∷ item_of (suc (suc a)) ∷ [])
        × (r.sockets ≡ p.sockets)
        × (r.poll_items ≡ p.poll_items)
        × Notifies cv o
        × Notifies cv r
  unfolding read to_bytes
  create-open-remove p name address t ok small ne unused unwatched watchable reachable =
      let a = p.next in
      let q = created name t p in
      let o =
        open-Ends z sender address a cv mtx small small_cv small_mtx q name t ne
          (find_info-append a (make_info name t) p.sockets unused) watchable reachable in
      let socks =
        o.5 ∙ put_info-append a (make_info name t) (opened name t (suc a)) p.sockets unused in
      let r =
        remove-open o.0 name t a (suc a) p.poll_items p.sockets small ne unused socks o.2
          unwatched in
      (
        pointer a,
        a,
        q,
        o.0,
        r.0,
        create-created p name t ok,
        o.1,
        r.1,
        ap some (from_bytes-to_bytes 8 a small),
        append_assoc p.effects _ _,
        refl,
        refl,
        socks,
        o.2,
        r.2,
        r.3,
        o.4,
        r.4,
      )
