-- ===== src/Poller/Opening.antt =====
-- The control messages of channel_impl_zmq.cpp that open and close a socket, from the message to the
-- end of its handler in socket_poller_zmq.cpp.
use debianbox.Base.{
  ℕ, suc, ◌^◌, ◌<◌, ◌≡◌, ◌≢◌, refl, ap, ◌∙◌, arith, List, [], ◌∷◌, ◌++◌, some, true, false,
}
use debianbox.Sockets.{SocketType, SocketInfo, make_info}
use debianbox.Poller.{
  Frame, Effect, notifies, PollItem, Poller, Zmq, Run, done, thrown, M, ◌>>=◌, ◌>>◌, effect, frame,
  load_at, needs, find_info, put_info, info_at, open_socket, close_socket,
}
use debianbox.Poller.Control.{
  reach_at, parse_socket_open, create_socket_info_zmq, erase_items, remove_socket_info_zmq,
  parse_socket_close, parse_ctrl_data,
}
use debianbox.Poller.Routing.{load-word, load-pointer, bind-done}
use debianbox.Poller.Items.{
  open_frames, close_frames, find_info-put_info, Unwatched, Mounts, Quiet, item_of,
  erase_items-append, opened, create-Opens, remove-Closes,
}

-- The last effect wakes the caller that waits on the condition variable.
abbrev pub Notifies : ℕ → Poller → Type 0
Notifies cv q = (es : List Effect) × (q.effects ≡ es ++ notifies cv ∷ [])

module _ (z : Zmq) (sender address : Frame) (a cv mtx : ℕ) (small : a < 256 ^ 8)
    (small_cv : cv < 256 ^ 8) (small_mtx : mtx < 256 ^ 8) where
  abbrev pub open_msg : List Frame
  open_msg = open_frames sender address a cv mtx

  abbrev close_msg : List Frame
  close_msg = close_frames sender a cv mtx

  abbrev pub reach_info : SocketInfo → M (Unit {0})
  reach_info s = reach_at z s.socket_type s.zmq_socket address >> effect (notifies cv)

  pub read-open :
      (p : Poller)
      → parse_ctrl_data z (some open_msg) p
        ≡ (create_socket_info_zmq z a >> (info_at a >>= reach_info)) p
  unfolding parse_ctrl_data parse_socket_open load_at frame
  read-open p =
      bind-done (load_at 4 1 open_msg) _ p p open_socket (load-word open_socket p (omega arith))
      ∙ bind-done (load_at 8 4 open_msg) _ p p cv (load-pointer cv p small_cv)
      ∙ bind-done (load_at 8 5 open_msg) _ p p mtx (load-pointer mtx p small_mtx)
      ∙ bind-done (load_at 8 3 open_msg) _ p p a (load-pointer a p small)

  read-close :
      (p : Poller)
      → parse_ctrl_data z (some close_msg) p ≡ (remove_socket_info_zmq a >> effect (notifies cv)) p
  unfolding parse_ctrl_data parse_socket_close load_at frame
  read-close p =
      bind-done (load_at 4 1 close_msg) _ p p close_socket (load-word close_socket p (omega arith))
      ∙ bind-done (load_at 8 3 close_msg) _ p p cv (load-pointer cv p small_cv)
      ∙ bind-done (load_at 8 4 close_msg) _ p p mtx (load-pointer mtx p small_mtx)
      ∙ bind-done (load_at 8 2 close_msg) _ p p a (load-pointer a p small)

  -- The run of a message, with what it does to the items and to the socket; the other sockets are
  -- those of `before`.
  abbrev pub Ends : Run (Unit {0}) → List PollItem → SocketInfo → List (ℕ × SocketInfo) → Type 0
  Ends r items s before =
      (q : Poller) × (r ≡ done tt q)
      × (q.poll_items ≡ items)
      × (find_info a q.sockets ≡ some s)
      × Notifies cv q
      × (q.sockets ≡ put_info a s before)

  reach_info-Ends :
      (name : List ℕ) (t : SocketType) (h : ℕ) (q : Poller)
      → z.endpoint_ok h address ≡ true
      → find_info a q.sockets ≡ some (opened name t h)
      → (before : List (ℕ × SocketInfo)) → q.sockets ≡ put_info a (opened name t h) before
      → Ends ((info_at a >>= reach_info) q) q.poll_items (opened name t h) before
  unfolding info_at make_info
  reach_info-Ends name t h q ok found before e = rw (found, ok) (_, refl, refl, found, (_, refl), e)

  pub open-Ends :
      (p : Poller) (name : List ℕ) (t : SocketType)
      → a ≢ 0
      → find_info a p.sockets ≡ some (make_info name t)
      → Mounts z p.next name
      → z.endpoint_ok p.next address ≡ true
      → Ends
          (parse_ctrl_data z (some open_msg) p)
          (p.poll_items ++ item_of p.next ∷ item_of (suc p.next) ∷ [])
          (opened name t p.next)
          p.sockets
  open-Ends p name t ne found watchable reachable =
      let c = create-Opens z a name t p ne found watchable in
      let e =
        reach_info-Ends name t p.next c.0 reachable
          (ap (find_info a) c.3
            ∙ find_info-put_info a (make_info name t) (opened name t p.next) p.sockets found)
          p.sockets c.3 in
      (
        e.0,
        read-open p ∙ bind-done (create_socket_info_zmq z a) _ p c.0 tt c.1 ∙ e.1,
        e.2 ∙ c.2,
        e.3,
        e.4,
        e.5,
      )

  close-Ends :
      (p : Poller) (s : SocketInfo) (h m : ℕ) (left : List PollItem)
      → a ≢ 0
      → find_info a p.sockets ≡ some s
      → s.zmq_socket ≡ some h
      → s.zmq_monitor ≡ some m
      → erase_items (some h) p.poll_items ≡ some left
      → Ends
          (parse_ctrl_data z (some close_msg) p)
          left
          (make_info s.channel_name s.socket_type)
          p.sockets
  close-Ends p s h m left ne found is_open monitored erased =
      let c = remove-Closes a h m s p left ne found is_open monitored erased in
      (
        _,
        read-close p ∙ bind-done (remove_socket_info_zmq a) _ p c.0 tt c.1,
        c.2,
        ap (find_info a) c.3
            ∙ find_info-put_info a s (make_info s.channel_name s.socket_type) p.sockets found,
        (_, refl),
        c.3,
      )

  -- A control message that opens a channel's socket, and one that closes it again, are both dealt
  -- with, and each wakes the caller that waits for it. The socket and its monitor are watched in
  -- between, behind all others; afterwards the poll items are those of before, and the socket is
  -- as if it had just been created, so that it can be opened again. That is for a socket that is
  -- closed, if ZeroMQ can make, set up and monitor it and reach its address, and no poll item has its
  -- handle.
  pub open-close :
      (p : Poller) (name : List ℕ) (t : SocketType)
      → a ≢ 0
      → find_info a p.sockets ≡ some (make_info name t)
      → Mounts z p.next name
      → z.endpoint_ok p.next address ≡ true
      → Unwatched p.next p.poll_items
      → (q r : Poller) × (parse_ctrl_data z (some open_msg) p ≡ done tt q)
        × (parse_ctrl_data z (some close_msg) q ≡ done tt r)
        × (q.poll_items ≡ p.poll_items ++ item_of p.next ∷ item_of (suc p.next) ∷ [])
        × (r.poll_items ≡ p.poll_items)
        × (find_info a r.sockets ≡ some (make_info name t))
        × Notifies cv q
        × Notifies cv r
  unfolding make_info
  open-close p name t ne found watchable reachable new =
      let o = open-Ends p name t ne found watchable reachable in
      let c =
        close-Ends o.0 (opened name t p.next) p.next (suc p.next) p.poll_items ne o.3 refl refl (
          ap (erase_items (some p.next)) o.2
          ∙ erase_items-append p.next p.poll_items (item_of (suc p.next)) new) in
      (o.0, c.0, o.1, c.1, o.2, c.2, c.3, o.4, c.4)

  -- If the address of a closed socket cannot be bound or connected to, the message that opens it
  -- ends the thread's loop with an exception, and nothing that its handler has done by then wakes the
  -- caller that waits for it, or any other. That is if ZeroMQ can make, set up and monitor the socket.
  pub open-thrown :
      (p : Poller) (name : List ℕ) (t : SocketType)
      → a ≢ 0
      → find_info a p.sockets ≡ some (make_info name t)
      → Mounts z p.next name
      → z.endpoint_ok p.next address ≡ false
      → (es : List Effect) × (parse_ctrl_data z (some open_msg) p ≡ thrown es) × Quiet p.effects es
  unfolding info_at make_info
  open-thrown p name t ne found watchable unreachable =
      let c = create-Opens z a name t p ne found watchable in
      (
        c.0.effects,
        read-open p
            ∙ bind-done (create_socket_info_zmq z a) _ p c.0 tt c.1
            ∙ bind-done (info_at a) _ c.0 c.0 (opened name t p.next) (
                ap (λ o. needs o c.0)
                  (ap (find_info a) c.3
                    ∙ find_info-put_info a (make_info name t) (opened name t p.next) p.sockets
                        found))
            ∙ rw unreachable,
        c.4,
      )
