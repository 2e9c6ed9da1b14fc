-- ===== src/Brocker.antt =====
-- libhdk/brocker/brocker.hpp and brocker.cpp, and `brocker_manager::post` of brocker_manager.cpp: a
-- broker's handlers by message type and its filters, and the delivery of a posted message. The
-- registry of the manager is in Registry; `H` stands for the stored callbacks, `ℕ` for the
-- addresses of brokers and io_contexts.
pub mod Registry
pub mod Subscriptions
pub mod Invariant
pub mod Removal
pub mod Coherence
pub mod Delivery
pub mod Call
mod Tests
use Prim.Native.String.{String}
use text.Mathlib.Text.{◌==◌ as str_eq}
use debianbox.Base.{
  ℕ, List, [], ◌∷◌, ◌++◌, Option, none, some, Bool, true, false, ◌||◌, ◌==◌, if◌then◌else◌,
}
use Registry.{BrockerMap, find, reg, unreg, clone}

-- `brocker::sender_info`.
pub record SenderInfo : Type 0 where
  pub id : String
  pub name : String
  pub address : String

pub record Brocker (H : Type 0) : Type 0 where
  pub calls : List (ℕ × H)
  pub filters : List String
  pub context : ℕ

-- The closure that `post` dispatches to the broker's io_context.
pub record Task : Type 0 where
  pub target : ℕ
  pub type_id : ℕ
  pub bytes : List ℕ
  pub sender : SenderInfo

-- A handler that is called, with what `brocker_manager::sender` returns meanwhile.
pub record HandlerCall (H : Type 0) : Type 0 where
  pub handler : H
  pub bytes : List ℕ
  pub sender : SenderInfo

unfoldable pub lists : String → List String → Bool
lists f [] = false
lists f (g ∷ gs) = str_eq g f || lists f gs

-- `brocker::__check_filter`.
unfoldable pub check_filter : String → List String → Bool
unfolding lists
check_filter filter [] = true
check_filter filter (g ∷ gs) = lists filter (g ∷ gs)

module _ {H : Type 0} where
  -- `brocker::brocker(ctx)`.
  unfoldable pub make : ℕ → Brocker H
  make ctx = record { calls = []; filters = []; context = ctx }

  -- `brocker::filter`, of a list and of one string.
  unfoldable pub filter_all : List String → Brocker H → Brocker H
  filter_all filters b = record b { filters = filters }

  unfoldable pub filter_one : String → Brocker H → Brocker H
  filter_one filter b = record b { filters = filter ∷ [] }

  -- `m_calls.find(type_id)`.
  unfoldable pub find_call : ℕ → List (ℕ × H) → Option H
  find_call t [] = none
  find_call t ((j, h) ∷ cs) = if j == t then some h else find_call t cs

  -- `m_calls.insert({type_id, call})`, which keeps a call that is there.
  unfoldable pub insert_call : ℕ → H → List (ℕ × H) → List (ℕ × H)
  insert_call t h [] = (t, h) ∷ []
  insert_call t h ((j, g) ∷ cs) = if j == t then (j, g) ∷ cs else (j, g) ∷ insert_call t h cs

  -- `m_calls.erase(type_id)`.
  unfoldable pub erase_call : ℕ → List (ℕ × H) → List (ℕ × H)
  erase_call t [] = []
  erase_call t ((j, g) ∷ cs) = if j == t then erase_call t cs else (j, g) ∷ erase_call t cs

-- The brokers that exist, and the manager's registry.
pub record System (H : Type 0) : Type 0 where
  pub brocker_at : ℕ → Option (Brocker H)
  pub registry : BrockerMap

module _ {H : Type 0} where
  abbrev pub store : ℕ → Option (Brocker H) → (ℕ → Option (Brocker H)) → ℕ → Option (Brocker H)
  store b o f c = if b == c then o else f c

  -- A broker is constructed at an address.
  unfoldable pub construct : ℕ → ℕ → System H → System H
  unfolding make
  construct b ctx s = record s { brocker_at = store b (some (make ctx)) s.brocker_at }

  -- `brocker::reg`; `none` is a call on an object that does not exist.
  unfoldable pub register : ℕ → ℕ → H → System H → Option (System H)
  unfolding insert_call reg
  register b t h s = elim (s.brocker_at b) [
    | none ↦ none
    | some br ↦ some (record {
      brocker_at = store b (some (record br { calls = insert_call t h br.calls })) s.brocker_at;
      registry = reg b t s.registry;
    })
  ]

  -- `brocker::unreg`.
  unfoldable pub unregister : ℕ → ℕ → System H → Option (System H)
  unfolding erase_call unreg
  unregister b t s = elim (s.brocker_at b) [
    | none ↦ none
    | some br ↦ some (record {
      brocker_at = store b (some (record br { calls = erase_call t br.calls })) s.brocker_at;
      registry = unreg b t s.registry;
    })
  ]

  -- The copy constructor.
  unfoldable pub copy : ℕ → ℕ → System H → Option (System H)
  unfolding clone
  copy from to s = elim (s.brocker_at from) [
    | none ↦ none
    | some br ↦ some (record {
      brocker_at = store to (some br) s.brocker_at;
      registry = clone from to s.registry;
    })
  ]

  -- The lambda of `std::for_each` in `post`; the new task goes behind those that are dispatched.
  unfoldable pub dispatch :
      Task → ℕ → System H → Option (List (ℕ × Task)) → Option (List (ℕ × Task))
  unfolding check_filter
  dispatch task b s none = none
  dispatch task b s (some later) = elim (s.brocker_at b) [
    | none ↦ none
    | some br ↦
        if check_filter task.sender.name br.filters
        then some ((br.context, record task { target = b }) ∷ later)
        else some later
  ]

  unfoldable pub dispatch_each : Task → List ℕ → System H → Option (List (ℕ × Task))
  unfolding dispatch
  dispatch_each task [] s = some []
  dispatch_each task (b ∷ bs) s = dispatch task b s (dispatch_each task bs s)

  -- `brocker_manager::post`: the tasks handed to io_contexts, in order, and whether the message
  -- about an unknown type is printed. `none` is a read of a broker that does not exist.
  unfoldable pub post :
      ℕ → List ℕ → String → String → String → Bool → System H → Option (List (ℕ × Task) × Bool)
  unfolding dispatch_each find
  post t bytes filter sender_name sender_address check_reg s = elim (find t s.registry) [
    | none ↦ some ([], check_reg)
    | some brockers ↦
        let info : SenderInfo = record {
          id = sender_name;
          name = filter;
          address = sender_address;
        } in
        let task : Task = record { target = 0; type_id = t; bytes = bytes; sender = info } in
        elim (dispatch_each task brockers s) [ none ↦ none | some tasks ↦ some (tasks, false) ]
  ]

  -- The closure when its io_context runs it: `__sender_info`, then `brocker::__call`.
  unfoldable pub run_task : Task → System H → Option (Option (HandlerCall H))
  unfolding find_call
  run_task task s = elim (s.brocker_at task.target) [
    | none ↦ none
    | some br ↦ elim (find_call task.type_id br.calls) [
      | none ↦ some none
      | some h ↦ some (some (record { handler = h; bytes = task.bytes; sender = task.sender }))
    ]
  ]
