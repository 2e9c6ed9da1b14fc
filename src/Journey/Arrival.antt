-- ===== src/Journey/Arrival.antt =====
-- From `channel::send` to the callbacks, over a local channel and from a client to a server.
use Prim.Native.String.{String}
use debianbox.Base.{ℕ, ◌≡◌, refl, ◌∙◌, List, some, true}
use debianbox.Marshall.{Ty, Vals, Platform, EvalOrder}
use debianbox.Marshall.Message.{AreSupported, AreValid}
use debianbox.Marshall.Buffer.{Streambuf, IsStreambuf}
use debianbox.Poller.{Frame, Poller, codes}
use debianbox.Channel.{Channels, local, m_impl}
use debianbox.Channel.Sending.{posted, send, impl_send}
use debianbox.Brocker.{System, post}
use debianbox.Brocker.Coherence.{IsCoherent}
use debianbox.Brocker.Call.{pack}
use debianbox.Journey.{IsTyped, received, Delivers}
use debianbox.Journey.Tasks.{post-Delivers}

module _ (B : Streambuf) (p : Platform) (order : EvalOrder) (law : IsStreambuf B)
    (s : System (List Ty)) (coherent : IsCoherent s) (t : ℕ) (ts : List Ty) (typed : IsTyped s t ts)
    (members : Vals ts) (supported : AreSupported ts) (valid : AreValid p ts members) where
  abbrev Arrives : String → String → String → Type 0
  Arrives filter id address =
      Delivers B p order s t filter (received ts members id filter address)
        (post t (pack B p order ts members) filter id address true s)

  post-Arrives : (filter id address : String) → Arrives filter id address
  post-Arrives filter id address =
      post-Delivers B p order law s coherent t ts typed members supported valid filter id address
        true

  send_impl :
      (channels : Channels) (c i : ℕ) (sockets : ℕ → Frame) (receiver_id : List ℕ)
      → m_impl c channels.handles ≡ some (some i)
      → send sockets c t (pack B p order ts members) receiver_id channels
        ≡ some (
            impl_send
              (sockets i)
              (channels.impls i).kind
              (channels.impls i).name
              t
              (pack B p order ts members)
              receiver_id)
  unfolding send
  send_impl channels c i sockets receiver_id held = rw (held, send) refl

  -- A message that is sent on a local channel reaches every broker that has registered for its
  -- type id and lets the channel through, once, in the order of registration, and no other one; each
  -- callback gets exactly the members that were sent, and is told the channel's name and that the
  -- sender is local. That is if every callback that is registered for the type id is for messages with
  -- these members, so that no other type in use has the same id; if the types of the members are
  -- supported, which a vector of maps is not, and their values are in range; if the channel's name is a
  -- text; and if the brokers and the registry agree, and the streambuf does what it documents.
  pub local_arrival :
      (channels : Channels) (c i : ℕ) (sockets : ℕ → Frame) (receiver_id : List ℕ) (filter : String)
      → m_impl c channels.handles ≡ some (some i)
      → (channels.impls i).kind ≡ local
      → (channels.impls i).name ≡ codes filter
      → (send sockets c t (pack B p order ts members) receiver_id channels
          ≡ some
              (posted t (pack B p order ts members) (codes filter) (codes "local") (codes "local")))
        × Arrives filter "local" "local"
  unfolding impl_send
  local_arrival channels c i sockets receiver_id filter held kind name = (
    send_impl channels c i sockets receiver_id held ∙ rw (kind, name, impl_send) refl,
    post-Arrives filter "local" "local",
  )
