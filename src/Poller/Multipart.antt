-- ===== src/Poller/Multipart.antt =====
-- The loops of libhdk/channel/impl/socket_helpers_zmq.hpp that take a message apart and put it
-- together: ZeroMQ carries single frames, each with a flag that tells whether more follow.
use debianbox.Base.{
  ℕ, suc, ◌+◌, ◌≡◌, refl, ap, arith, List, [], ◌∷◌, ◌++◌, Option, none, some, Bool, true, false,
  length, leb, if◌then◌else◌,
}
use debianbox.Poller.{Frame}

pub record Part : Type 0 where
  pub content : Frame
  pub more : Bool

-- `send_multipart`: each frame is popped and sent with `ZMQ_SNDMORE` while others are left.
unfoldable pub parts : List Frame → List Part
parts [] = []
parts (f ∷ []) = record { content = f; more = false } ∷ []
parts (f ∷ g ∷ frames) = record { content = f; more = true } ∷ parts (g ∷ frames)

-- A message and what is left to receive; nothing to receive; or `std::runtime_error`.
pub data Received : Type 0 where
  got : List Frame → List Part → Received
  nothing too_many : Received

abbrev prepend : Frame → Received → Received
prepend f (got frames left) = got (f ∷ frames) left
prepend f nothing = nothing
prepend f too_many = too_many

-- `msg_count >= n`, if `CheckN`.
abbrev is_full : Option ℕ → ℕ → Bool
is_full none msg_count = false
is_full (some n) msg_count = leb n msg_count

-- `__recv_multipart_n`, from `msg_count` on; `n` is there if `CheckN`.
unfoldable pub recv_multipart_n : Option ℕ → ℕ → List Part → Received
recv_multipart_n n msg_count [] = if is_full n msg_count then too_many else nothing
recv_multipart_n n msg_count (p ∷ queue) =
    let next = recv_multipart_n n (suc msg_count) queue in
    if is_full n msg_count
    then too_many
    else if p.more
    then prepend p.content next
    else got (p.content ∷ []) queue

-- `recv_multipart`.
unfoldable pub recv_multipart : List Part → Received
unfolding recv_multipart_n
recv_multipart queue = recv_multipart_n none 0 queue

recv_all :
    (msg_count : ℕ) (f : Frame) (frames : List Frame) (queue : List Part)
    → recv_multipart_n none msg_count (parts (f ∷ frames) ++ queue) ≡ got (f ∷ frames) queue
unfolding recv_multipart_n parts
recv_all msg_count f [] queue = refl
recv_all msg_count f (g ∷ frames) queue = ap (prepend f) (recv_all (suc msg_count) g frames queue)

-- A message of one frame or more that is sent in parts is received as it was sent, and what was
-- sent after it is left.
pub recv_multipart-parts :
    (f : Frame) (frames : List Frame) (queue : List Part)
    → recv_multipart (parts (f ∷ frames) ++ queue) ≡ got (f ∷ frames) queue
unfolding recv_multipart
recv_multipart-parts f frames queue = recv_all 0 f frames queue

-- With a limit, it is received exactly if it has no more frames than the limit.
pub recv_multipart_n-parts :
    (n msg_count : ℕ) (f : Frame) (frames : List Frame) (queue : List Part)
    → recv_multipart_n (some n) msg_count (parts (f ∷ frames) ++ queue)
      ≡ (if leb (msg_count + length (f ∷ frames)) n then got (f ∷ frames) queue else too_many)
unfolding recv_multipart_n parts
recv_multipart_n-parts n msg_count f [] queue = ground arith
recv_multipart_n-parts n msg_count f (g ∷ frames) queue =
    ground (arith, recv_multipart_n-parts n (suc msg_count) g frames queue)
