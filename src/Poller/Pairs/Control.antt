-- ===== src/Poller/Pairs/Control.antt =====
-- What the handlers of control messages of socket_poller_zmq.cpp do to the poll items.
use debianbox.Base.{
  ℕ, suc, ◌<◌, ◌≡◌, refl, sym, ap, ◌∙◌, subst, arith, List, [], ◌∷◌, ◌++◌, append_assoc, Option,
  none, some, Bool, true, false, ◌≢◌, if◌then◌else◌,
}
use mathlib.Core.List.{map-append}
use debianbox.Sockets.{SocketType, router, dealer, SocketInfo}
use debianbox.Poller.{
  Poller, Zmq, Run, M, done, skip, fresh, find_info, info_at, put_info, store, or_throw, monitors,
  closes, connects, SockOpt, effect, ◌>>=◌, ◌>>◌,
}
use debianbox.Poller.Control.{
  release, set_type_option, or_uncaught, watch, create_socket_info_zmq, stop_monitor, set_option,
  set_options, monitor_address,
}
use debianbox.Poller.Watched.{watched}
use debianbox.Poller.Pairs.{
  own_of, AllFit, Shape, IsPaired, Leads, Moves, Preserves, Any, Ignores, bind-Moves, then-Moves,
  then-Preserves, skip-Preserves, effect-Preserves, needs-Preserves,
}
use debianbox.Poller.Pairs.Handlers.{put_info-AllFit}
use debianbox.Poller.Pairs.Items.{
  AllFit-suc, AllFit-items, with_pair, Shape-with_pair, Apart-with_pair, Shape-Apart,
}

-- The poller as far as its items, its numbers and its records go.
abbrev pub At : ℕ × ℕ → List ℕ → ℕ → List (ℕ × SocketInfo) → Poller → Type 0
At own handles next sockets p =
    (watched p ≡ handles) × (p.next ≡ next) × (p.sockets ≡ sockets) × (own_of p ≡ own)

pub At-Ignores :
    (own : ℕ × ℕ) (handles : List ℕ) (next : ℕ) (sockets : List (ℕ × SocketInfo))
    → Ignores (At own handles next sockets)
At-Ignores own handles next sockets p e h = h

pub release-Preserves :
    (I : Poller → Type 0) (o : Option ℕ) → Ignores I → Preserves I Any (release o)
release-Preserves I none k = skip-Preserves I
release-Preserves I (some h) k = effect-Preserves I (closes h) k

pub stop-Preserves :
    (I : Poller → Type 0) (o : Option ℕ) → Ignores I → Preserves I Any (stop_monitor o)
stop-Preserves I none k = skip-Preserves I
stop-Preserves I (some h) k = effect-Preserves I (monitors h false) k

pub throw-Preserves : (I : Poller → Type 0) (b : Bool) → Preserves I Any (or_throw b)
throw-Preserves I true p i = (i, tt)
throw-Preserves I false p i = tt

set_option-Preserves :
    (I : Poller → Type 0) (z : Zmq) (h : ℕ) (option : SockOpt) (value : ℕ)
    → Ignores I
    → Preserves I Any (set_option z h option value)
unfolding set_option
set_option-Preserves I z h option value k =
    search (then-Preserves, throw-Preserves, effect-Preserves, k)

options-Preserves :
    (I : Poller → Type 0) (z : Zmq) (h : ℕ) → Ignores I → Preserves I Any (set_options z h)
unfolding set_options
options-Preserves I z h k = search (then-Preserves, set_option-Preserves, k) depth 12

option-Preserves :
    (I : Poller → Type 0) (z : Zmq) (h : ℕ) (t : SocketType)
    → Ignores I
    → Preserves I Any (set_type_option z h t)
unfolding set_type_option
option-Preserves I z h router k = set_option-Preserves I z h _ _ k
option-Preserves I z h dealer k = set_option-Preserves I z h _ _ k

uncaught-Preserves : (I : Poller → Type 0) (b : Bool) → Preserves I Any (or_uncaught b)
uncaught-Preserves I true p i = (i, tt)
uncaught-Preserves I false p i = tt

pub info_at-Preserves : (I : Poller → Type 0) (a : ℕ) → Preserves I Any (info_at a)
unfolding info_at
info_at-Preserves I a p = needs-Preserves I (find_info a p.sockets) p

module _ (own : ℕ × ℕ) (handles : List ℕ) (next : ℕ) (sockets : List (ℕ × SocketInfo)) where
  -- What a new object is numbered.
  pub fresh-Moves :
      {A : Type 0} (K : Poller → Type 0) (Q : A → Type 0) (f : ℕ → M A)
      → Moves (At own handles (suc next) sockets) K Q (f next)
      → Moves (At own handles next sockets) K Q (fresh >>= f)
  fresh-Moves K Q f h p (e, e', e'', o) =
      subst (λ n. Leads K Q (f n (record p { next = suc p.next }))) (sym e')
        (h (record p { next = suc p.next }) (e, ap suc e', e'', o))

  pub store-Moves :
      (a : ℕ) (s : SocketInfo)
      → Moves
          (At own handles next sockets)
          (At own handles next (put_info a s sockets))
          Any
          (store a s)
  unfolding store
  store-Moves a s p (e, e', e'', o) = ((e, e', ap (put_info a s) e'', o), tt)

  watch-Moves :
      (h : ℕ)
      → Moves (At own handles next sockets) (At own (handles ++ h ∷ []) next sockets) Any (watch h)
  watch-Moves h p (e, e', e'', o) =
      ((map-append (λ i. i.socket) p.poll_items _ ∙ ap (λ l. l ++ h ∷ []) e, e', e'', o), tt)

  pub At-IsPaired :
      Shape own next handles
      → AllFit handles next sockets
      → (p : Poller) → At own handles next sockets p
      → IsPaired p
  At-IsPaired s f p (e, e', e'', o) = (
    subst (λ w. Shape w p.next (watched p)) (sym o)
        (subst (λ n. Shape own n (watched p)) (sym e') (subst (Shape own next) (sym e) s)),
    subst (λ l. AllFit (watched p) p.next l) (sym e'')
        (subst (λ n. AllFit (watched p) n sockets) (sym e')
          (subst (λ w. AllFit w next sockets) (sym e) f)),
  )

watch_both-Moves :
    (own : ℕ × ℕ) (handles : List ℕ) (next : ℕ) (sockets : List (ℕ × SocketInfo)) (h m : ℕ)
    → Moves
        (At own handles next sockets)
        (At own ((handles ++ h ∷ []) ++ m ∷ []) next sockets)
        Any
        (watch h >> watch m)
watch_both-Moves own handles next sockets h m =
    bind-Moves (At own handles next sockets) (At own (handles ++ h ∷ []) next sockets)
      (At own ((handles ++ h ∷ []) ++ m ∷ []) next sockets) Any Any (watch h) (λ u. watch m)
      (watch-Moves own handles next sockets h)
      (λ u v. watch-Moves own (handles ++ h ∷ []) next sockets m)

then-at-end :
    {A : Type 0} (I J : Poller → Type 0) (r : Run A)
    → ((p : Poller) → I p → J p)
    → Leads I Any r
    → Leads J Any r
then-at-end I J (done a q) k h = (k q h.0, tt)
then-at-end I J Run.undefined k h = tt
then-at-end I J (Run.thrown es) k h = tt
then-at-end I J Run.uncaught k h = tt

pub end-Moves :
    {A : Type 0} (I J K : Poller → Type 0) (m : M A)
    → ((p : Poller) → J p → K p)
    → Moves I J Any m
    → Moves I K Any m
end-Moves I J K m k h p i = then-at-end J K (m p) k (h p i)

pub if-Moves :
    {A : Type 0} (I J : Poller → Type 0) (b : Bool) (m n : M A)
    → Moves I J Any m
    → Moves I J Any n
    → Moves I J Any (if b then m else n)
if-Moves I J true m n h k = h
if-Moves I J false m n h k = k

suc-ne : (n h : ℕ) → h < n → suc n ≢ h
suc-ne n h l = ground arith

suc-ne_self : (n : ℕ) → suc n ≢ n
suc-ne_self n = ground arith

-- The sockets `next` and `suc next` are made for the record at `a`, from what holds before.
module _ (own : ℕ × ℕ) (handles : List ℕ) (next : ℕ) (sockets : List (ℕ × SocketInfo))
    (shape : Shape own next handles) (fit : AllFit handles next sockets) where
  abbrev mounted : SocketInfo → SocketInfo
  mounted s = record s { zmq_socket = some next; zmq_monitor = some (suc next) }

  mounted-AllFit :
      (a : ℕ) (s : SocketInfo)
      → AllFit (with_pair next handles) (suc (suc next)) (put_info a (mounted s) sockets)
  mounted-AllFit a s =
      put_info-AllFit (with_pair next handles) (suc (suc next)) a (mounted s) sockets
        (
          omega arith,
          Apart-with_pair own next next handles (suc-ne_self next) shape
              (Shape-Apart own next handles shape),
          refl,
        )
        (AllFit-suc _ (suc next) sockets (
          AllFit-suc _ next sockets (
            AllFit-items handles (with_pair next handles) next sockets
              (λ h l a. Apart-with_pair own h next handles (suc-ne next h l) shape a) fit)))

  mounted-IsPaired :
      (a : ℕ) (s : SocketInfo) (p : Poller)
      → At own
          ((handles ++ next ∷ []) ++ suc next ∷ [])
          (suc (suc next))
          (put_info a (mounted s) sockets)
          p
      → IsPaired p
  mounted-IsPaired a s p (e, e', e'', o) =
      At-IsPaired own (with_pair next handles) (suc (suc next)) (put_info a (mounted s) sockets)
        (Shape-with_pair own next handles shape) (mounted-AllFit a s) p
        (e ∙ append_assoc handles (next ∷ []) (suc next ∷ []), e', e'', o)

  mount-Moves :
      (a : ℕ) (s : SocketInfo)
      → Moves
          (At own handles (suc (suc next)) sockets)
          IsPaired
          Any
          (store a (mounted s) >> (watch next >> watch (suc next)))
  mount-Moves a s =
      let k = suc (suc next) in
      let there = put_info a (mounted s) sockets in
      let both = watch next >> watch (suc next) in
      bind-Moves (At own handles k sockets) (At own handles k there) IsPaired Any Any
        (store a (mounted s)) (λ u. both) (store-Moves own handles k sockets a (mounted s))
        (λ u v.
          end-Moves _ (At own ((handles ++ next ∷ []) ++ suc next ∷ []) k there) IsPaired both
            (mounted-IsPaired a s) (watch_both-Moves own handles k there next (suc next)))

  -- The end of `create_socket_info_zmq`, with the monitor's number.
  abbrev with_monitor : Zmq → ℕ → SocketInfo → ℕ → M (Unit {0})
  with_monitor z a s m =
      or_throw (z.socket_ok m)
      >> (release s.zmq_monitor
          >> (or_throw (z.endpoint_ok m (monitor_address s.channel_name))
              >> (effect (connects m (monitor_address s.channel_name))
                  >> (store a (record s { zmq_socket = some next; zmq_monitor = some m })
                      >> (watch next >> watch m)))))

  monitor-Moves :
      (z : Zmq) (a : ℕ) (s : SocketInfo)
      → Moves (At own handles (suc next) sockets) IsPaired Any (fresh >>= with_monitor z a s)
  monitor-Moves z a s =
      fresh-Moves own handles (suc next) sockets IsPaired Any (with_monitor z a s) (
        search
          (
            then-Moves, throw-Preserves, release-Preserves, effect-Preserves, At-Ignores,
            mount-Moves,
          )
          depth 20)

  same-IsPaired : (p : Poller) → At own handles next sockets p → IsPaired p
  same-IsPaired = At-IsPaired own handles next sockets shape fit

  pub create-Moves :
      (z : Zmq) (a : ℕ)
      → Moves (At own handles next sockets) IsPaired Any (create_socket_info_zmq z a)
  unfolding create_socket_info_zmq
  create-Moves z a =
      let skipped : Moves (At own handles next sockets) IsPaired Any skip =
        end-Moves _ (At own handles next sockets) IsPaired skip same-IsPaired (skip-Preserves _) in
      search
        (
          skipped, if-Moves, then-Moves, info_at-Preserves, fresh-Moves, effect-Preserves,
          throw-Preserves, options-Preserves, release-Preserves, option-Preserves,
          uncaught-Preserves, At-Ignores, monitor-Moves,
        )
        depth 40
