-- ===== src/Poller/Watched.antt =====
-- What the handlers of data and events in socket_poller_zmq.cpp leave alone: the sockets that
-- `zmq::poll` watches.
pub mod Handlers
pub mod Rounds
use debianbox.Base.{
  ℕ, zero, suc, ◌≡◌, refl, sym, ap, ◌∙◌, List, [], ◌∷◌, Option, none, some, Bool, true, false, map,
  if◌then◌else◌, ltb, length, ◌==◌, drop, get_elem?, subst,
}
use debianbox.Sockets.{SocketType, router, dealer, PeerInfo, SocketInfo, remove_by_fd}
use debianbox.Poller.{
  Frame, Effect, Poller, PollItem, Zmq, Run, done, undefined, thrown, uncaught, SendResult,
  accepted, again, failed, M, then_run, ◌>>=◌, ◌>>◌, skip, pure, needs, effect, frame, load,
  load_at, send, send_multipart, outcome, sent, info_at, find_info, store, get_zmq_socket_info,
  send_connection_state_msg, socket_send_data, value_of,
}
use debianbox.Marshall.Bytes.{read}

-- The sockets that are watched, in order.
abbrev pub watched : Poller → List ℕ
watched p = map (λ i. i.socket) p.poll_items

-- A run that ends well leaves them as they are.
abbrev pub Leaves : {A : Type 0} → Poller → Run A → Type 0
Leaves p (done a q) = watched q ≡ watched p
Leaves p undefined = Unit {0}
Leaves p (thrown es) = Unit {0}
Leaves p uncaught = Unit {0}

abbrev pub Keeps : {A : Type 0} → M A → Type 0
Keeps m = (p : Poller) → Leaves p (m p)

along-Leaves :
    {A : Type 0} (p q : Poller) (r : Run A) → watched q ≡ watched p → Leaves q r → Leaves p r
along-Leaves p q (done a s) e h = h ∙ e
along-Leaves p q undefined e h = tt
along-Leaves p q (thrown es) e h = tt
along-Leaves p q uncaught e h = tt

then-Leaves :
    {A B : Type 0} (p : Poller) (r : Run A) (f : A → M B)
    → Leaves p r
    → ((a : A) → Keeps (f a))
    → Leaves p (then_run r f)
then-Leaves p (done a q) f h k = along-Leaves p q (f a q) h (k a q)
then-Leaves p undefined f h k = tt
then-Leaves p (thrown es) f h k = tt
then-Leaves p uncaught f h k = tt

pub bind-Keeps :
    {A B : Type 0} (m : M A) (f : A → M B) → Keeps m → ((a : A) → Keeps (f a)) → Keeps (m >>= f)
bind-Keeps m f h k p = then-Leaves p (m p) f (h p) k

pub if-Keeps : {A : Type 0} (b : Bool) (m n : M A) → Keeps m → Keeps n → Keeps (if b then m else n)
if-Keeps true m n h k = h
if-Keeps false m n h k = k

pub skip-Keeps : Keeps skip
skip-Keeps p = refl

pub effect-Keeps : (e : Effect) → Keeps (effect e)
effect-Keeps e p = refl

pub needs-Keeps : {A : Type 0} (o : Option A) → Keeps (needs o)
needs-Keeps none p = tt
needs-Keeps (some a) p = refl

pub frame-Keeps : (i : ℕ) (frames : List Frame) → Keeps (frame i frames)
unfolding frame
frame-Keeps i frames = needs-Keeps (get_elem? frames i)

pub load-Keeps : (n : ℕ) (f : Frame) → Keeps (load n f)
unfolding load
load-Keeps n f = needs-Keeps (value_of (read n f))

pub load_at-Keeps : (n i : ℕ) (frames : List Frame) → Keeps (load_at n i frames)
unfolding load_at
load_at-Keeps n i frames =
    bind-Keeps (frame i frames) (load n) (frame-Keeps i frames) (load-Keeps n)

pub store-Keeps : (a : ℕ) (s : SocketInfo) → Keeps (store a s)
unfolding store
store-Keeps a s p = refl

pub info_at-Keeps : (a : ℕ) → Keeps (info_at a)
unfolding info_at
info_at-Keeps a p = needs-Keeps (find_info a p.sockets) p

pub lookup-Keeps : (h : ℕ) → Keeps (get_zmq_socket_info h)
unfolding get_zmq_socket_info
lookup-Keeps h p = refl

pub notice-Keeps :
    (channel : List ℕ) (state : Bool) (peer_id peer_address : List ℕ)
    → Keeps (send_connection_state_msg channel state peer_id peer_address)
unfolding send_connection_state_msg
notice-Keeps channel state peer_id peer_address p = refl

pub outcome-Keeps : (h : ℕ) (frames : List Frame) (r : SendResult) → Keeps (outcome h frames r)
outcome-Keeps h frames accepted p = refl
outcome-Keeps h frames again p = refl
outcome-Keeps h frames failed p = tt

pub sent-Keeps : (h : ℕ) (frames : List Frame) (r : SendResult) → Keeps (sent h frames r)
sent-Keeps h frames accepted p = refl
sent-Keeps h frames again p = refl
sent-Keeps h frames failed p = tt

-- `search keeps` puts these together.
pub ruleset keeps = (
  bind-Keeps, if-Keeps, skip-Keeps, effect-Keeps, frame-Keeps, load-Keeps, load_at-Keeps,
  store-Keeps, info_at-Keeps, lookup-Keeps, notice-Keeps, outcome-Keeps, sent-Keeps,
)
