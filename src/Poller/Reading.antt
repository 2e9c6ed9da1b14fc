-- ===== src/Poller/Reading.antt =====
-- Which messages of a peer `parse_recv_data` of socket_poller_zmq.cpp can read.
use debianbox.Base.{
  ℕ, suc, ◌<◌, ◌≤◌, ◌≡◌, refl, ◌∙◌, arith, List, [], ◌∷◌, Option, none, some, length, ◌==◌, ltb,
  false, Bool-cases, inl, inr, get_elem?,
}
use debianbox.Marshall.Bytes.{read}
use debianbox.Sockets.{router, SocketInfo}
use debianbox.Poller.{
  Frame, Poller, Zmq, Run, then_run, done, undefined, M, ◌>>=◌, frame, load, load_at, word, needs,
  value_of, search_handle, get_zmq_socket_info, store, send_connection_state_msg, socket_connected,
  socket_recv_data,
}
use debianbox.Poller.Traffic.{
  Inbound, greet, deliver, receive, receive_command, receive_data, parse_recv_data,
}
use debianbox.Poller.Routing.{load-word, bind-done}

load-undefined :
    (f : Frame) (k : ℕ → M (Unit {0})) (q : Poller)
    → ((n : ℕ) → k n q ≡ undefined)
    → (load 4 f >>= k) q ≡ undefined
unfolding load
load-undefined f k q h = go (value_of (read 4 f))
  where
    go : (o : Option ℕ) → then_run (needs o q) k ≡ undefined
    go none = refl
    go (some n) = h n

-- A message of a peer that starts as data does, but whose type id or bytes are missing, makes the
-- server's poller read past the end of the frames: the poller does not look at how many there are.
pub parse_recv_data-undefined :
    (w : Zmq) (q : Poller) (k fd : ℕ) (peer_id : Frame) (rest : List Frame)
    → w.type_of k ≡ some router
    → length rest < 2
    → parse_recv_data w k
        (some (record { frames = peer_id ∷ word socket_recv_data ∷ rest; source_fd = fd }))
        q
      ≡ undefined
unfolding parse_recv_data receive receive_command receive_data get_zmq_socket_info frame load_at
parse_recv_data-undefined w q k fd peer_id [] is_server short = rw is_server (
    bind-done (load_at 4 1 msg) _ q q socket_recv_data (load-word socket_recv_data q (omega arith)))
  where
    msg : List Frame
    msg = peer_id ∷ word socket_recv_data ∷ []
parse_recv_data-undefined w q k fd peer_id (f ∷ []) is_server short = rw is_server (
    bind-done (load_at 4 1 msg) _ q q socket_recv_data (load-word socket_recv_data q (omega arith))
    ∙ load-undefined f _ q (λ n. refl))
  where
    msg : List Frame
    msg = peer_id ∷ word socket_recv_data ∷ f ∷ []
parse_recv_data-undefined w q k fd peer_id (f ∷ g ∷ rest) is_server short = absurd (omega arith)

load-total : (f : Frame) (q : Poller) → 4 ≤ length f → (n : ℕ) × (load 4 f q ≡ done n q)
unfolding load read
load-total [] q h = absurd (omega arith)
load-total (a ∷ []) q h = absurd (omega arith)
load-total (a ∷ b ∷ []) q h = absurd (omega arith)
load-total (a ∷ b ∷ c ∷ []) q h = absurd (omega arith)
load-total (a ∷ b ∷ c ∷ d ∷ rest) q h = (_, refl)

-- A run that ends as it should.
abbrev pub Finishes : Run (Unit {0}) → Type 0
Finishes r = (p : Poller) × (r ≡ done tt p)

greet-Finishes :
    (o : Option (ℕ × SocketInfo)) (i addr : List ℕ) (fd : ℕ) (q : Poller)
    → Finishes (greet o i addr fd q)
unfolding store send_connection_state_msg
greet-Finishes none i addr fd q = (_, refl)
greet-Finishes (some (a, s)) i addr fd q = (_, refl)

deliver-Finishes :
    (o : Option (ℕ × SocketInfo)) (n : ℕ) (bytes i addr : List ℕ) (q : Poller)
    → Finishes (deliver o n bytes i addr q)
deliver-Finishes none n bytes i addr q = (_, refl)
deliver-Finishes (some (a, s)) n bytes i addr q = (_, refl)

bind-Finishes :
    {A : Type 0} (m : M A) (f : A → M (Unit {0})) (q : Poller) (a : A)
    → m q ≡ done a q
    → Finishes (f a q)
    → Finishes ((m >>= f) q)
bind-Finishes m f q a e h = (h.0, bind-done m f q q a e ∙ h.1)

command-Finishes :
    (w : Zmq) (o : Option (ℕ × SocketInfo)) (i : List ℕ) (inbound : Inbound) (pos cmd : ℕ)
    (f payload : Frame) (q : Poller)
    → 4 ≤ length f
    → get_elem? inbound.frames (suc pos) ≡ some f
    → get_elem? inbound.frames (suc (suc pos)) ≡ some payload
    → Finishes (receive_command w o i pos inbound cmd q)
unfolding receive_command receive_data load_at frame
command-Finishes w o i inbound pos cmd f payload q h e e' =
    elim (Bool-cases (cmd == socket_connected)) [
      | inl same ↦
          rw same (greet-Finishes o i (w.peer_address inbound.source_fd) inbound.source_fd q)
      | inr differs ↦ rw differs (elim (Bool-cases (cmd == socket_recv_data)) [
        | inl same ↦
            rw (same, e, e')
              (bind-Finishes (load 4 f) _ q (load-total f q h).0 (load-total f q h).1 (
                deliver-Finishes o (load-total f q h).0 payload i (w.peer_address inbound.source_fd)
                  q))
        | inr other ↦ rw other (q, refl)
      ])
    ]

enough : (n : ℕ) → ltb (suc (suc (suc (suc n)))) 2 ≡ false
enough n = ground arith

-- A message of a peer of a server with four frames or more, of which the command and the type id
-- have four bytes or more, is dealt with, whatever is in it: no read is out of range, and the
-- thread's loop goes on.
pub parse_recv_data-Finishes :
    (w : Zmq) (q : Poller) (k fd : ℕ) (peer_id cmd type_id payload : Frame) (rest : List Frame)
    → w.type_of k ≡ some router
    → 4 ≤ length cmd
    → 4 ≤ length type_id
    → Finishes (
        parse_recv_data w k
          (some (record { frames = peer_id ∷ cmd ∷ type_id ∷ payload ∷ rest; source_fd = fd }))
          q)
unfolding parse_recv_data receive get_zmq_socket_info load_at frame
parse_recv_data-Finishes w q k fd peer_id cmd type_id payload rest is_server long longer =
    rw (is_server, enough (length rest))
      (bind-Finishes (load_at 4 1 msg) _ q (load-total cmd q long).0 (load-total cmd q long).1 (
        command-Finishes w (search_handle k q.sockets) peer_id
          (record { frames = msg; source_fd = fd }) 1 (load-total cmd q long).0 type_id payload q
          longer refl refl))
  where
    msg : List Frame
    msg = peer_id ∷ cmd ∷ type_id ∷ payload ∷ rest
