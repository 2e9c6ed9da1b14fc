-- ===== src/Poller/Pairs.antt =====
-- How the poll items of socket_poller_zmq.cpp stand: the two sockets of the thread's own, and then
-- each socket of a channel before its monitor; and how a property of the poller goes through its
-- handlers.
pub mod Handlers
pub mod Items
pub mod Control
pub mod Removal
pub mod Messages
pub mod Runs
use debianbox.Base.{
  ℕ, suc, ◌<◌, ◌≡◌, ◌≢◌, List, [], ◌∷◌, ◌++◌, Option, none, some, Bool, true, false, map, Each,
  if◌then◌else◌, get_elem?,
}
use debianbox.Sockets.{SocketInfo}
use debianbox.Poller.{
  Frame, Effect, Poller, Zmq, Run, done, undefined, thrown, uncaught, SendResult, accepted, again,
  failed, M, then_run, ◌>>=◌, skip, needs, effect, frame, load, load_at, outcome, sent, value_of,
  send, send_multipart, send_connection_state_msg,
}
use debianbox.Marshall.Bytes.{read}
use debianbox.Poller.Watched.{watched}

-- A socket's handle is none of the thread's own, and not that of a monitor that is polled.
abbrev pub ApartPairs : ℕ → List ℕ → Type 0
ApartPairs h [] = Unit {0}
ApartPairs h (k ∷ []) = Unit {0}
ApartPairs h (k ∷ m ∷ rest) = (m ≢ h) × ApartPairs h rest

abbrev pub Apart : ℕ → List ℕ → Type 0
Apart h [] = Unit {0}
Apart h (k ∷ []) = Unit {0}
Apart h (k ∷ m ∷ rest) = (k ≢ h) × (m ≢ h) × ApartPairs h rest

-- What a record may hold: no socket, or one with the monitor that was made right after it.
abbrev pub Fits : List ℕ → ℕ → Option ℕ → Option ℕ → Type 0
Fits handles next none monitor = Unit {0}
Fits handles next (some h) monitor = (h < next) × Apart h handles × (monitor ≡ some (suc h))

abbrev pub AllFit : List ℕ → ℕ → List (ℕ × SocketInfo) → Type 0
AllFit handles next = Each (λ e. Fits handles next e.1.zmq_socket e.1.zmq_monitor)

-- Sockets before their monitors, all of them made already.
abbrev pub Pairs : ℕ → List ℕ → Type 0
Pairs next [] = Unit {0}
Pairs next (k ∷ []) = ⊥
Pairs next (k ∷ m ∷ rest) = (m ≡ suc k) × (m < next) × Pairs next rest

-- The thread's own sockets, `m_send_socket` and `m_ctrl_socket`.
abbrev pub own_of : Poller → ℕ × ℕ
own_of p = (p.send_socket, p.ctrl_socket)

-- The own sockets, which are two, come first, the one for data before the one for control.
abbrev pub Shape : ℕ × ℕ → ℕ → List ℕ → Type 0
Shape own next [] = ⊥
Shape own next (k ∷ []) = ⊥
Shape own next (k ∷ m ∷ rest) =
    (k < next) × (m < next) × Pairs next rest × (k ≡ own.0) × (m ≡ own.1) × (k ≢ m)

abbrev pub IsPaired : Poller → Type 0
IsPaired p = Shape (own_of p) p.next (watched p) × AllFit (watched p) p.next p.sockets

-- Where the handlers of data and events stand: the handles that are polled, and the numbers that
-- are used, are those of the beginning.
abbrev pub Held : ℕ × ℕ → List ℕ → ℕ → Poller → Type 0
Held own handles next p =
    (watched p ≡ handles) × (p.next ≡ next) × AllFit handles next p.sockets × (own_of p ≡ own)

-- A run that ends well leaves the property `I`, and a result with the property `P`.
abbrev pub Leads : {A : Type 0} → (Poller → Type 0) → (A → Type 0) → Run A → Type 0
Leads I P (done a q) = I q × P a
Leads I P undefined = Unit {0}
Leads I P (thrown es) = Unit {0}
Leads I P uncaught = Unit {0}

-- From the property `I` to the property `J`.
abbrev pub Moves :
    {A : Type 0} → (Poller → Type 0) → (Poller → Type 0) → (A → Type 0) → M A → Type 0
Moves I J P m = (p : Poller) → I p → Leads J P (m p)

abbrev pub Preserves : {A : Type 0} → (Poller → Type 0) → (A → Type 0) → M A → Type 0
Preserves I P m = Moves I I P m

abbrev pub Any : {A : Type 0} → A → Type 0
Any a = Unit {0}

-- What has been done makes no difference to the property.
abbrev pub Ignores : (Poller → Type 0) → Type 0
Ignores I = (p : Poller) (e : List Effect) → I p → I (record p { effects = e })

then-Leads :
    {A B : Type 0} (I J : Poller → Type 0) (P : A → Type 0) (Q : B → Type 0) (r : Run A)
    (f : A → M B)
    → Leads I P r
    → ((a : A) → P a → Moves I J Q (f a))
    → Leads J Q (then_run r f)
then-Leads I J P Q (done a q) f h k = k a h.1 q h.0
then-Leads I J P Q undefined f h k = tt
then-Leads I J P Q (thrown es) f h k = tt
then-Leads I J P Q uncaught f h k = tt

pub bind-Moves :
    {A B : Type 0} (I J K : Poller → Type 0) (P : A → Type 0) (Q : B → Type 0) (m : M A)
    (f : A → M B)
    → Moves I J P m
    → ((a : A) → P a → Moves J K Q (f a))
    → Moves I K Q (m >>= f)
bind-Moves I J K P Q m f h k p i = then-Leads J K P Q (m p) f (h p i) k

-- A first part that leaves the property.
pub then-Moves :
    {A B : Type 0} (I J : Poller → Type 0) (Q : B → Type 0) (m : M A) (f : A → M B)
    → Preserves I Any m
    → ((a : A) → Moves I J Q (f a))
    → Moves I J Q (m >>= f)
then-Moves I J Q m f h k = bind-Moves I I J Any Q m f h (λ a u. k a)

pub bind-Preserves :
    {A B : Type 0} (I : Poller → Type 0) (P : A → Type 0) (Q : B → Type 0) (m : M A) (f : A → M B)
    → Preserves I P m
    → ((a : A) → P a → Preserves I Q (f a))
    → Preserves I Q (m >>= f)
bind-Preserves I P Q = bind-Moves I I I P Q

pub then-Preserves :
    {A B : Type 0} (I : Poller → Type 0) (Q : B → Type 0) (m : M A) (f : A → M B)
    → Preserves I Any m
    → ((a : A) → Preserves I Q (f a))
    → Preserves I Q (m >>= f)
then-Preserves I Q m f h k = then-Moves I I Q m f h k

pub if-Preserves :
    {A : Type 0} (I : Poller → Type 0) (P : A → Type 0) (b : Bool) (m n : M A)
    → Preserves I P m
    → Preserves I P n
    → Preserves I P (if b then m else n)
if-Preserves I P true m n h k = h
if-Preserves I P false m n h k = k

pub skip-Preserves : (I : Poller → Type 0) → Preserves I Any skip
skip-Preserves I p i = (i, tt)

pub needs-Preserves : {A : Type 0} (I : Poller → Type 0) (o : Option A) → Preserves I Any (needs o)
needs-Preserves I none p i = tt
needs-Preserves I (some a) p i = (i, tt)

pub frame-Preserves :
    (I : Poller → Type 0) (i : ℕ) (frames : List Frame) → Preserves I Any (frame i frames)
unfolding frame
frame-Preserves I i frames = needs-Preserves I (get_elem? frames i)

pub load-Preserves : (I : Poller → Type 0) (n : ℕ) (f : Frame) → Preserves I Any (load n f)
unfolding load
load-Preserves I n f = needs-Preserves I (value_of (read n f))

pub load_at-Preserves :
    (I : Poller → Type 0) (n i : ℕ) (frames : List Frame) → Preserves I Any (load_at n i frames)
unfolding load_at
load_at-Preserves I n i frames =
    then-Preserves I Any (frame i frames) (load n) (frame-Preserves I i frames)
      (λ f. load-Preserves I n f)

pub effect-Preserves : (I : Poller → Type 0) (e : Effect) → Ignores I → Preserves I Any (effect e)
effect-Preserves I e h p i = (h p (p.effects ++ e ∷ []) i, tt)

outcome-Preserves :
    (I : Poller → Type 0) (h : ℕ) (frames : List Frame) (r : SendResult)
    → Ignores I
    → Preserves I Any (outcome h frames r)
outcome-Preserves I h frames accepted k p i = (k p (p.effects ++ _ ∷ []) i, tt)
outcome-Preserves I h frames again k p i = (i, tt)
outcome-Preserves I h frames failed k p i = tt

pub send-Preserves :
    (I : Poller → Type 0) (z : Zmq) (h : ℕ) (frames : List Frame)
    → Ignores I
    → Preserves I Any (send z h frames)
unfolding send
send-Preserves I z h frames k = outcome-Preserves I h frames (z.send_result h frames) k

sent-Preserves :
    (I : Poller → Type 0) (h : ℕ) (frames : List Frame) (r : SendResult)
    → Ignores I
    → Preserves I Any (sent h frames r)
sent-Preserves I h frames accepted k p i = (k p (p.effects ++ _ ∷ []) i, tt)
sent-Preserves I h frames again k p i = (i, tt)
sent-Preserves I h frames failed k p i = tt

pub multipart-Preserves :
    (I : Poller → Type 0) (z : Zmq) (h : ℕ) (frames : List Frame)
    → Ignores I
    → Preserves I Any (send_multipart z h frames)
unfolding send_multipart
multipart-Preserves I z h frames k = sent-Preserves I h frames (z.send_result h frames) k

pub notice-Preserves :
    (I : Poller → Type 0) (channel : List ℕ) (state : Bool) (peer_id peer_address : List ℕ)
    → Ignores I
    → Preserves I Any (send_connection_state_msg channel state peer_id peer_address)
unfolding send_connection_state_msg
notice-Preserves I channel state peer_id peer_address k = effect-Preserves I _ k

pub ruleset preserves = (
  then-Preserves, if-Preserves, skip-Preserves, needs-Preserves, frame-Preserves, load-Preserves,
  load_at-Preserves, effect-Preserves, send-Preserves, multipart-Preserves, notice-Preserves,
)
