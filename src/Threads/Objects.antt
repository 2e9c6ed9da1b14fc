-- ===== src/Threads/Objects.antt =====
-- libhdk/async/async_object.hpp: objects that are called on the thread of an io_context. A call captures
-- the address of the `async_object`, through which the handler finds the object when it runs. Objects
-- of the class are values of `T`, and a method with its arguments is a function of them; addresses and
-- io_contexts are numbers. `call_sync` waits for its handler, which Waiting is about.
pub mod Order
mod Tests
use debianbox.Base.{
  ℕ, zero, suc, List, [], ◌∷◌, ◌++◌, Option, none, some, Bool, true, false, ◌==◌, if◌then◌else◌,
}

-- `m_object_ptr` and the io_context of `m_async_thread`.
pub record AsyncObject : Type 0 where
  pub object : ℕ
  pub context : ℕ

-- A handler that `asio::dispatch` has queued: `this`, and the method.
abbrev pub Handler : Type 0 → Type 0
Handler T = ℕ × (T → T)

pub record Objects (T : Type 0) : Type 0 where
  pub async_objects : List (ℕ × AsyncObject)
  pub heap : ℕ → T
  pub next : ℕ
  pub queue : ℕ → List (Handler T)

unfoldable pub find : ℕ → List (ℕ × AsyncObject) → Option AsyncObject
find a [] = none
find a ((b, o) ∷ rest) = if b == a then some o else find a rest

-- Whether the calling thread runs the io_context.
abbrev pub is_current : ℕ → Option ℕ → Bool
is_current c none = false
is_current c (some d) = d == c

abbrev pub with_first {ℓ} : {A : Type ℓ} → A → Option (A × List A) → Option (A × List A)
with_first x none = none
with_first x (some (y, rest)) = some (y, x ∷ rest)

-- One of a list, and the others.
unfoldable pub pick {ℓ} : {A : Type ℓ} → ℕ → List A → Option (A × List A)
pick i [] = none
pick zero (x ∷ xs) = some (x, xs)
pick (suc i) (x ∷ xs) = with_first x (pick i xs)

module _ {T : Type 0} where
  abbrev pub change : ℕ → (T → T) → (ℕ → T) → ℕ → T
  change i f heap j = if i == j then f (heap j) else heap j

  abbrev pub set_queue : ℕ → List (Handler T) → (ℕ → List (Handler T)) → ℕ → List (Handler T)
  set_queue c q queue d = if c == d then q else queue d

  -- `async_object_create` on a thread with the io_context `c`.
  unfoldable pub async_object_create : ℕ → ℕ → T → Objects T → Objects T
  async_object_create a c x s = record s {
    async_objects = (a, record { object = s.next; context = c }) ∷ s.async_objects;
    heap = change s.next (λ y. x) s.heap;
    next = suc s.next;
  }

  -- `asio::dispatch`: at once on a thread that runs the io_context, later on any other.
  abbrev pub dispatch : Option ℕ → AsyncObject → Handler T → Objects T → Objects T
  dispatch current o h s =
      if is_current o.context current
      then record s { heap = change o.object h.1 s.heap }
      else record s { queue = set_queue o.context (s.queue o.context ++ h ∷ []) s.queue }

  -- `call_async` in a thread that runs the io_context `current`, if any; `none` is a call on an
  -- `async_object` that is not there.
  unfoldable pub call_async : Option ℕ → Handler T → Objects T → Option (Objects T)
  unfolding find
  call_async current h s = elim (find h.0 s.async_objects) [
    | none ↦ none
    | some o ↦ some (dispatch current o h s)
  ]

  -- The lambda, when the io_context runs it; `none` is a use of an `async_object` that is gone.
  unfoldable pub handle : Handler T → Objects T → Option (Objects T)
  unfolding find
  handle h s = elim (find h.0 s.async_objects) [
    | none ↦ none
    | some o ↦ some (record s { heap = change o.object h.1 s.heap })
  ]

  -- The io_context runs handlers that are queued, one after another, each time the one at the number
  -- that it chooses, as asio promises no order; `none` if there is none at that number.
  unfoldable pub drain : ℕ → List ℕ → Objects T → Option (Objects T)
  unfolding pick handle
  drain c [] s = some s
  drain c (i ∷ choices) s = elim (pick i (s.queue c)) [
    | none ↦ none
    | some (h, rest) ↦ elim (handle h (record s { queue = set_queue c rest s.queue })) [
      | none ↦ none
      | some t ↦ drain c choices t
    ]
  ]

  -- Calls of one thread, one after another.
  unfoldable pub call_each : Option ℕ → List (Handler T) → Objects T → Option (Objects T)
  unfolding call_async
  call_each current [] s = some s
  call_each current (h ∷ hs) s = elim (call_async current h s) [
    | none ↦ none
    | some t ↦ call_each current hs t
  ]
