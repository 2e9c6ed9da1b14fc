-- ===== src/Threads/Objects/Tests.antt =====
-- Asynchronous calls on two numbers, and the theorem about them.
use debianbox.Base.{arith, ℕ, ◌+◌, ◌*◌, ◌≡◌, refl, List, [], ◌∷◌, ◌++◌, Option, none, some}
use debianbox.Threads.Objects.{
  Handler, Objects, async_object_create, find, call_each, call_async, drain, pick, handle,
}
use debianbox.Threads.Objects.Order.{AreOn, firsts, effect, Commute, drain-call_each}

abbrev bare : Objects ℕ
bare = record { async_objects = []; heap = λ i. 0; next = 0; queue = λ c. [] }

-- An object 5 at the address 9, and an object 7 at the address 8, both on the io_context 1.
abbrev two : Objects ℕ
two = record {
  async_objects =
      (8, record { object = 1; context = 1 }) ∷ (9, record { object = 0; context = 1 }) ∷ [];
  heap = (async_object_create 8 1 7 (async_object_create 9 1 5 bare)).heap;
  next = 2;
  queue = λ c. [];
}

two_lem : async_object_create 8 1 7 (async_object_create 9 1 5 bare) ≡ two
unfolding async_object_create
two_lem = refl

abbrev calls : List (Handler ℕ)
calls = (9, λ n. n + 1) ∷ (8, λ n. n * 2) ∷ []

abbrev or_bare : Option (Objects ℕ) → Objects ℕ
or_bare none = bare
or_bare (some s) = s

abbrev queued : Objects ℕ
queued = or_bare (call_each (some 2) calls two)

-- The last one first.
abbrev drained : Objects ℕ
drained = or_bare (drain 1 (1 ∷ 0 ∷ []) queued)

results : (drained.heap 0 ≡ 6) × (drained.heap 1 ≡ 14)
unfolding async_object_create find call_each call_async drain pick handle
results = (refl, refl)

apart : Commute two.async_objects (9, λ n. n + 1) (8, λ n. n * 2)
unfolding find
apart heap j = ground arith

drain-call_each_example :
    (queued.heap ≡ two.heap)
    × ((v : Objects ℕ) × (drain 1 (firsts (queued.queue 1)) queued ≡ some v) × (v.queue 1 ≡ []))
    × ((j : ℕ) → drained.heap j ≡ effect two.async_objects ([] ++ calls) two.heap j)
unfolding find call_each call_async drain pick handle
drain-call_each_example =
    let on : AreOn 1 two.async_objects calls = (
      (record { object = 0; context = 1 }, refl, refl),
      ((record { object = 1; context = 1 }, refl, refl), tt),
    ) in
    drain-call_each 1 (some 2) calls (1 ∷ 0 ∷ []) two queued drained refl on on
      ((apart, tt), (tt, tt)) refl refl refl
