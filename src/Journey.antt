-- ===== src/Journey.antt =====
-- The whole way of a message, through the parts that the other files model one by one: from
-- `channel::send` of libhdk/channel/channel.hpp to the callbacks of the brokers, over a local channel
-- and over ZeroMQ.
pub mod Tasks
pub mod Arrival
pub mod Notice
mod Tests
use Prim.Native.String.{String}
use debianbox.Base.{ℕ, ◌≡◌, List, [], ◌∷◌, map, Each, Option, none, some, Bool}
use debianbox.Marshall.{Ty, Vals, Platform, EvalOrder}
use debianbox.Marshall.Buffer.{Streambuf}
use debianbox.Brocker.{System, Task, find_call}
use debianbox.Brocker.Registry.{find, or_empty}
use debianbox.Brocker.Delivery.{accepting}
use debianbox.Brocker.Call.{Received, run_typed}

-- The callback that a broker has for a type.
abbrev pub handler : System (List Ty) → ℕ → ℕ → Option (List Ty)
handler s b t = elim (s.brocker_at b) [ none ↦ none | some br ↦ find_call t br.calls ]

-- Every callback for the type id is for messages with these members: no two types that are in use
-- have one id.
abbrev pub IsTyped : System (List Ty) → ℕ → List Ty → Type 0
IsTyped s t ts = (b : ℕ) (us : List Ty) → handler s b t ≡ some us → us ≡ ts

-- What a callback gets of a message from a sender.
abbrev pub received : (ts : List Ty) → Vals ts → String → String → String → Received
received ts members id name address = record {
  types = ts;
  members = some members;
  sender = record { id = id; name = name; address = address };
}

-- The tasks of a message reach the brokers that have registered for its type and let its channel
-- through, in the order of their registration, and each calls one callback, with the members.
abbrev pub Delivers :
    Streambuf
    → Platform
    → EvalOrder
    → System (List Ty)
    → ℕ
    → String
    → Received
    → Option (List (ℕ × Task) × Bool)
    → Type 0
Delivers B p order s t filter r none = ⊥
Delivers B p order s t filter r (some (tasks, printed)) =
    (map (λ e. e.1.target) tasks ≡ accepting s filter (or_empty (find t s.registry)))
    × Each (λ e. run_typed B p order e.1 s ≡ some (some r)) tasks
