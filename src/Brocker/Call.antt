-- ===== src/Brocker/Call.antt =====
-- libhdk/brocker/brocker_call.hpp, the stored callback of a broker, and what `channel::send` of
-- libhdk/channel/channel.hpp makes of a message: the bytes that it is called with.
use debianbox.Base.{◌≡◌, refl, ℕ, List, [], append-nil, Option, none, some}
use debianbox.Marshall.{Ty, Vals, Platform, EvalOrder, fresh_members, marshal, demarshal}
use debianbox.Marshall.Message.{AreSupported, AreValid, demarshal-marshal}
use debianbox.Marshall.Buffer.{
  Streambuf, IsStreambuf, input, to_byte_array, from_byte_array, input-from_byte_array,
  to_byte_array-put,
}
use debianbox.Brocker.{System, Task, SenderInfo, run_task}

abbrev members_of : {A B : Type 0} → Option (A × B) → Option A
members_of none = none
members_of (some (a, b)) = some a

-- What a callback of messages with the members `ts` is called with, if the bytes are enough, and
-- what `brocker_manager::sender` returns meanwhile.
pub record Received : Type 0 where
  pub types : List Ty
  pub members : Option (Vals types)
  pub sender : SenderInfo

module _ (B : Streambuf) (p : Platform) (order : EvalOrder) where
  -- `out_stream << msg` and `to_byte_array` in `channel::send`.
  unfoldable pub pack : (ts : List Ty) → Vals ts → List ℕ
  unfolding to_byte_array
  pack ts members = to_byte_array B (B.put (marshal p order ts members) B.empty)

  -- `brocker_call<T>::call`, up to the call of `m_callback`. `none` if the bytes are too few: then
  -- the callback gets members that are not specified.
  unfoldable pub call : (ts : List Ty) → List ℕ → Option (Vals ts)
  unfolding from_byte_array
  call ts bytes =
      members_of
        (demarshal p order ts (fresh_members ts) (input B (from_byte_array B B.empty bytes)))

  -- The closure of `post` when its io_context runs it, with callbacks that are known by the members
  -- of their messages.
  unfoldable pub run_typed : Task → System (List Ty) → Option (Option Received)
  unfolding run_task call
  run_typed task s = elim (run_task task s) [
    | none ↦ none
    | some none ↦ some none
    | some (some c) ↦
        some
          (some (record { types = c.handler; members = call c.handler c.bytes; sender = c.sender }))
  ]

  -- A callback gets the members of the message that was sent, whatever its type, if both ends
  -- evaluate arguments in one order and the members are of supported types and in range.
  pub call-pack :
      IsStreambuf B
      → (ts : List Ty) (members : Vals ts) → AreSupported ts
      → AreValid p ts members
      → call ts (pack ts members) ≡ some members
  unfolding call pack
  call-pack law ts members s v =
      let bytes = marshal p order ts members in
      let back = rw append-nil at (demarshal-marshal p order ts members [] s v) in
      rw (to_byte_array-put B law bytes, input-from_byte_array B law bytes, back) refl
