-- ===== src/Poller/Routing.antt =====
-- Where the messages of a channel go: `channel_impl_zmq::send`, and `parse_send_data` of
-- socket_poller_zmq.cpp on what it sends.
use debianbox.Base.{
  Each, ◌⊎◌, inl, inr, arith, ℕ, ◌^◌, ◌<◌, ◌≡◌, ◌≢◌, refl, ap, ◌∙◌, List, [], ◌∷◌, ◌++◌,
  append_assoc, append-nil, none, some,
}
use debianbox.Marshall.Bytes.{to_bytes, read, from_bytes-to_bytes}
use debianbox.Sockets.{router, dealer, PeerInfo, SocketInfo}
use debianbox.Poller.{
  Frame, Effect, sends, Poller, Zmq, Run, done, thrown, M, then_run, ◌>>=◌, frame, load, load_at,
  word, pointer, send, find_info, info_at, needs, socket_send_data, SendResult, accepted, again,
  failed, outcome,
}
use debianbox.Poller.Traffic.{
  data_frames, send_on, send_each, send_all, dispatch_data, send_command, parse_send_data,
}

-- `channel_impl_zmq::send`: what reaches the thread, ahead of it the id of the channel's socket.
abbrev pub send_frames : Frame → ℕ → Frame → ℕ → Frame → List Frame
send_frames sender zmq_socket_info_ptr peer type_id payload =
    sender
    ∷ word socket_send_data
    ∷ pointer zmq_socket_info_ptr
    ∷ peer
    ∷ word type_id
    ∷ payload
    ∷ []

pub load-word : (x : ℕ) (p : Poller) → x < 256 ^ 4 → load 4 (word x) p ≡ done x p
unfolding load read to_bytes
load-word x p h = ap (λ n. done n p) (from_bytes-to_bytes 4 x h)

pub load-pointer : (x : ℕ) (p : Poller) → x < 256 ^ 8 → load 8 (pointer x) p ≡ done x p
unfolding load read to_bytes
load-pointer x p h = ap (λ n. done n p) (from_bytes-to_bytes 8 x h)

answers : (r : SendResult) → (r ≡ accepted) ⊎ ((r ≡ again) ⊎ (r ≡ failed))
answers accepted = inl refl
answers again = inr (inl refl)
answers failed = inr (inr refl)

-- What the thread has done at the end, when it has added to the effects.
abbrev pub after : Poller → List Effect → Poller
after p es = record p { effects = p.effects ++ es }

abbrev if_taken : SendResult → Effect → List Effect → List Effect
if_taken accepted e es = e ∷ es
if_taken again e es = es
if_taken failed e es = es

-- The messages of a broadcast that ZeroMQ takes.
abbrev copies : Zmq → ℕ → List Frame → List PeerInfo → List Effect
copies z h frames [] = []
copies z h frames (info ∷ peers) =
    if_taken (z.send_result h (info.peer_id ∷ frames)) (sends h (info.peer_id ∷ frames))
      (copies z h frames peers)

-- No send of a broadcast fails.
abbrev NoneFails : Zmq → ℕ → List Frame → List PeerInfo → Type 0
NoneFails z h frames peers = Each (λ info. z.send_result h (info.peer_id ∷ frames) ≢ failed) peers

pub bind-done :
    {A B : Type 0} (m : M A) (f : A → M B) (p q : Poller) (a : A)
    → m p ≡ done a q
    → (m >>= f) p ≡ f a q
bind-done m f p q a e = ap (λ r. then_run r f) e

dispatch-command :
    (z : Zmq) (p : Poller) (sender peer payload : Frame) (a type_id : ℕ) (s : SocketInfo)
    → a < 256 ^ 8
    → type_id < 256 ^ 4
    → find_info a p.sockets ≡ some s
    → parse_send_data z (some (send_frames sender a peer type_id payload)) p
      ≡ dispatch_data z s peer (data_frames type_id payload) p
unfolding parse_send_data send_command load_at frame info_at
dispatch-command z p sender peer payload a type_id s ha ht hs =
    bind-done (load_at 4 1 msg) _ p p socket_send_data (load-word socket_send_data p (omega arith))
    ∙ bind-done (load_at 8 2 msg) _ p p a (load-pointer a p ha)
    ∙ bind-done (load_at 4 4 msg) _ p p type_id (load-word type_id p ht)
    ∙ bind-done (info_at a) _ p p s (ap (λ o. needs o p) hs)
  where
    msg : List Frame
    msg = send_frames sender a peer type_id payload

send_each_lem :
    (z : Zmq) (h : ℕ) (frames : List Frame) (peers : List PeerInfo) (p : Poller)
    → NoneFails z h frames peers
    → send_each z (some h) peers frames p ≡ done tt (after p (copies z h frames peers))
unfolding send_each send_on send
send_each_lem z h frames [] p ok = rw (append-nil p.effects)
send_each_lem z h frames (info ∷ peers) p ok =
    elim (answers (z.send_result h (info.peer_id ∷ frames))) [
      | inl e ↦ rw e (
          send_each_lem z h frames peers (after p (sends h (info.peer_id ∷ frames) ∷ [])) ok.1
          ∙ rw append_assoc)
      | inr (inl e) ↦ rw e (send_each_lem z h frames peers p ok.1)
      | inr (inr e) ↦ absurd (ok.0 e)
    ]

-- A message of a server's channel that names no peer is sent to every peer of the server, in the
-- order in which they connected, each copy behind the id of its peer and with the type id and the
-- bytes of the message, but for the copies that ZeroMQ cannot take; the thread does nothing else.
-- That is if the socket is open and no send fails.
pub parse_send_data-broadcast :
    (z : Zmq) (p : Poller) (sender payload : Frame) (a type_id h : ℕ) (s : SocketInfo)
    → a < 256 ^ 8
    → type_id < 256 ^ 4
    → find_info a p.sockets ≡ some s
    → s.socket_type ≡ router
    → s.zmq_socket ≡ some h
    → NoneFails z h (data_frames type_id payload) s.peers
    → parse_send_data z (some (send_frames sender a [] type_id payload)) p
      ≡ done tt (after p (copies z h (data_frames type_id payload) s.peers))
unfolding dispatch_data send_all
parse_send_data-broadcast z p sender payload a type_id h s ha ht hs server is_open ok =
    dispatch-command z p sender [] payload a type_id s ha ht hs
    ∙ rw (server, is_open) (send_each_lem z h (data_frames type_id payload) s.peers p ok)

-- The message that a channel of a client sends, or one of a server to a chosen peer.
abbrev pub Addressed : SocketInfo → Frame → List Frame → List Frame → Type 0
Addressed s [] frames out = (s.socket_type ≡ dealer) × (out ≡ frames)
Addressed s (c ∷ cs) frames out = out ≡ (c ∷ cs) ∷ frames

-- How a single send ends.
abbrev single_send : SendResult → ℕ → List Frame → Poller → Run (Unit {0})
single_send accepted h out p = done tt (after p (sends h out ∷ []))
single_send again h out p = done tt p
single_send failed h out p = thrown p.effects

outcome-single_send :
    (r : SendResult) (h : ℕ) (out : List Frame) (p : Poller)
    → outcome h out r p ≡ single_send r h out p
outcome-single_send accepted h out p = refl
outcome-single_send again h out p = refl
outcome-single_send failed h out p = refl

-- A message to one peer, from a client or to the peer it names, is sent once, behind the id if it
-- names one, if ZeroMQ accepts it; it is dropped, with nothing changed, if ZeroMQ cannot take it
-- now; and the thread's loop ends with an exception if the send fails.
pub parse_send_data-single :
    (z : Zmq) (p : Poller) (sender peer payload : Frame) (a type_id h : ℕ) (s : SocketInfo)
    (out : List Frame)
    → a < 256 ^ 8
    → type_id < 256 ^ 4
    → find_info a p.sockets ≡ some s
    → s.zmq_socket ≡ some h
    → Addressed s peer (data_frames type_id payload) out
    → parse_send_data z (some (send_frames sender a peer type_id payload)) p
      ≡ single_send (z.send_result h out) h out p
unfolding dispatch_data send_all send_on send
parse_send_data-single z p sender [] payload a type_id h s out ha ht hs is_open to =
    dispatch-command z p sender [] payload a type_id s ha ht hs
    ∙ rw (to.0, is_open, to.1)
        (outcome-single_send (z.send_result h (data_frames type_id payload)) h
          (data_frames type_id payload) p)
parse_send_data-single z p sender (c ∷ cs) payload a type_id h s out ha ht hs is_open to =
    dispatch-command z p sender (c ∷ cs) payload a type_id s ha ht hs
    ∙ rw (is_open, to)
        (outcome-single_send (z.send_result h ((c ∷ cs) ∷ data_frames type_id payload)) h
          ((c ∷ cs) ∷ data_frames type_id payload) p)

-- A message of a channel whose socket is not open ends the thread's loop with an exception, unless
-- it is a server's that names no peer.
pub parse_send_data-closed :
    (z : Zmq) (p : Poller) (sender peer payload : Frame) (a type_id : ℕ) (s : SocketInfo)
    (out : List Frame)
    → a < 256 ^ 8
    → type_id < 256 ^ 4
    → find_info a p.sockets ≡ some s
    → s.zmq_socket ≡ none
    → Addressed s peer (data_frames type_id payload) out
    → parse_send_data z (some (send_frames sender a peer type_id payload)) p ≡ thrown p.effects
unfolding dispatch_data send_all send_on
parse_send_data-closed z p sender [] payload a type_id s out ha ht hs is_closed to =
    dispatch-command z p sender [] payload a type_id s ha ht hs ∙ rw (to.0, is_closed)
parse_send_data-closed z p sender (c ∷ cs) payload a type_id s out ha ht hs is_closed to =
    dispatch-command z p sender (c ∷ cs) payload a type_id s ha ht hs ∙ rw is_closed
