-- ===== src/Journey/Notice.antt =====
-- The notices of `send_connection_state_msg` in socket_poller_zmq.cpp, messages of the type
-- `recv_connection_status` of libhdk/channel/channel.hpp, on their way to the callbacks.
use Prim.Native.String.{String}
use debianbox.Base.{ℕ, ◌^◌, ◌<◌, ◌≡◌, sym, ap, ◌∙◌, arith, List, [], ◌∷◌, Bool, true, false}
use debianbox.Marshall.{Ty, scalar, Platform, EvalOrder, marshal}
use debianbox.Marshall.Message.{marshal-scalar}
use debianbox.Marshall.Bytes.{to_bytes}
use debianbox.Marshall.Buffer.{Streambuf, IsStreambuf, to_byte_array-put}
use debianbox.Poller.{posts, Poller, done, codes, flag, status_type_id, send_connection_state_msg}
use debianbox.Poller.Routing.{after}
use debianbox.Brocker.{System, post}
use debianbox.Brocker.Coherence.{IsCoherent}
use debianbox.Brocker.Call.{pack}
use debianbox.Journey.{IsTyped, received, Delivers}
use debianbox.Journey.Tasks.{post-Delivers}

-- Its one member, a `bool`.
abbrev pub status_members : List Ty
status_members = scalar 1 ∷ []

flag-lt : (state : Bool) → flag state < 256 ^ 1
flag-lt true = omega arith
flag-lt false = omega arith

pack-status :
    (B : Streambuf) (p : Platform) (order : EvalOrder) (state : Bool)
    → IsStreambuf B
    → pack B p order status_members (flag state, tt) ≡ to_bytes 1 (flag state)
unfolding pack
pack-status B p order state law =
    to_byte_array-put B law (marshal p order status_members (flag state, tt))
    ∙ marshal-scalar p order 1 (flag state)

-- A notice of the poller is, to the brokers, a message of the type `recv_connection_status` with the
-- flag as its member: every broker that has registered for that type and lets the channel through gets
-- it, once, and each callback gets exactly the flag, and is told the channel, and the peer's id and
-- address. Here the callbacks of the type id are for that type, and the names are texts.
pub notice_arrival :
    (B : Streambuf) (p : Platform) (order : EvalOrder) (s : System (List Ty)) (q : Poller)
    (state : Bool) (filter id source : String)
    → IsStreambuf B
    → IsCoherent s
    → IsTyped s status_type_id status_members
    → (bytes : List ℕ) × (send_connection_state_msg (codes filter) state (codes id) (codes source) q
        ≡ done tt (
            after q
              (posts status_type_id bytes (codes filter) (codes id) (codes source) false ∷ [])))
      × Delivers B p order s status_type_id filter
          (received status_members (flag state, tt) id filter source)
          (post status_type_id bytes filter id source false s)
unfolding send_connection_state_msg
notice_arrival B p order s q state filter id source law coherent typed = (
  pack B p order status_members (flag state, tt),
  ap
      (λ bytes.
        done tt (
          after q (posts status_type_id bytes (codes filter) (codes id) (codes source) false ∷ [])))
      (sym (pack-status B p order state law)),
  post-Delivers B p order law s coherent status_type_id status_members typed (flag state, tt)
      (tt, tt) (flag-lt state, tt) filter id source false,
)
