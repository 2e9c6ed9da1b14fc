-- ===== src/Threads/Objects/Order.antt =====
-- Asynchronous calls against calls that are made at once, whatever order the io_context runs them in.
use debianbox.Base.{
  ℕ, zero, suc, ◌≡◌, refl, sym, ap, ◌∙◌, List, [], ◌∷◌, ◌++◌, append_assoc, append-nil, Option,
  none, some, false, ==_iff, Bool-cases, inl, inr, ◌==◌, Each, subst,
}
use debianbox.Threads.Objects.{
  AsyncObject, Handler, Objects, find, change, set_queue, is_current, call_async, handle,
  with_first, pick, drain, call_each,
}

module _ {T : Type 0} where
  -- Every call is on an `async_object` that is there, and has the io_context `c`.
  abbrev pub AreOn : ℕ → List (ℕ × AsyncObject) → List (Handler T) → Type 0
  AreOn c objects = Each (λ h. (o : AsyncObject) × (find h.0 objects ≡ some o) × (o.context ≡ c))

  -- A call made at once, on the object that its `async_object` points to.
  abbrev on_object : Option AsyncObject → (T → T) → (ℕ → T) → ℕ → T
  on_object none f heap = heap
  on_object (some o) f heap = change o.object f heap

  abbrev pub at_once : List (ℕ × AsyncObject) → Handler T → (ℕ → T) → ℕ → T
  at_once objects h heap = on_object (find h.0 objects) h.1 heap

  abbrev pub effect : List (ℕ × AsyncObject) → List (Handler T) → (ℕ → T) → ℕ → T
  effect objects [] heap = heap
  effect objects (h ∷ hs) heap = effect objects hs (at_once objects h heap)

  -- The order of two calls makes no difference to any object.
  abbrev pub Commute : List (ℕ × AsyncObject) → Handler T → Handler T → Type 0
  Commute objects h k =
      (heap : ℕ → T) (j : ℕ)
      → at_once objects k (at_once objects h heap) j ≡ at_once objects h (at_once objects k heap) j

  abbrev pub AreIndependent : List (ℕ × AsyncObject) → List (Handler T) → Type 0
  AreIndependent objects [] = Unit {0}
  AreIndependent objects (h ∷ hs) = Each (Commute objects h) hs × AreIndependent objects hs

  abbrev Same : (ℕ → T) → (ℕ → T) → Type 0
  Same a b = (j : ℕ) → a j ≡ b j

  change-Same : (i : ℕ) (f : T → T) (a b : ℕ → T) → Same a b → Same (change i f a) (change i f b)
  change-Same i f a b e j = elim (Bool-cases (i == j)) [
    | inl it ↦ rw it (ap f (e j))
    | inr other ↦ rw other (e j)
  ]

  at_once-Same :
      (o : Option AsyncObject) (f : T → T) (a b : ℕ → T)
      → Same a b
      → Same (on_object o f a) (on_object o f b)
  at_once-Same none f a b e = e
  at_once-Same (some o) f a b e = change-Same o.object f a b e

  effect-Same :
      (objects : List (ℕ × AsyncObject)) (hs : List (Handler T)) (a b : ℕ → T)
      → Same a b
      → Same (effect objects hs a) (effect objects hs b)
  effect-Same objects [] a b e = e
  effect-Same objects (h ∷ hs) a b e =
      effect-Same objects hs (at_once objects h a) (at_once objects h b)
        (at_once-Same (find h.0 objects) h.1 a b e)

  abbrev PickedEach : (Handler T → Type 0) → Option (Handler T × List (Handler T)) → Type 0
  PickedEach P none = Unit {0}
  PickedEach P (some (h, rest)) = P h × Each P rest

  first-PickedEach :
      (P : Handler T → Type 0) (x : Handler T) (o : Option (Handler T × List (Handler T)))
      → P x
      → PickedEach P o
      → PickedEach P (with_first x o)
  first-PickedEach P x none px k = tt
  first-PickedEach P x (some (h, rest)) px k = (k.0, (px, k.1))

  pick-Each :
      (P : Handler T → Type 0) (i : ℕ) (hs : List (Handler T))
      → Each P hs
      → PickedEach P (pick i hs)
  unfolding pick
  pick-Each P i [] e = tt
  pick-Each P zero (x ∷ xs) e = e
  pick-Each P (suc i) (x ∷ xs) e = first-PickedEach P x (pick i xs) e.0 (pick-Each P i xs e.1)

  -- To make one of the calls first makes no difference.
  abbrev PicksSame :
      List (ℕ × AsyncObject) → List (Handler T) → Option (Handler T × List (Handler T)) → Type 0
  PicksSame objects hs none = Unit {0}
  PicksSame objects hs (some (h, rest)) =
      ((heap : ℕ → T)
        → Same (effect objects hs heap) (effect objects rest (at_once objects h heap)))
      × AreIndependent objects rest

  first-PicksSame :
      (objects : List (ℕ × AsyncObject)) (x : Handler T) (xs : List (Handler T))
      (o : Option (Handler T × List (Handler T)))
      → PickedEach (Commute objects x) o
      → PicksSame objects xs o
      → PicksSame objects (x ∷ xs) (with_first x o)
  first-PicksSame objects x xs none e k = tt
  first-PicksSame objects x xs (some (h, rest)) e k = (
    λ heap j.
        k.0 (at_once objects x heap) j
        ∙ effect-Same objects rest (at_once objects h (at_once objects x heap))
            (at_once objects x (at_once objects h heap)) (e.0 heap) j,
    (e.1, k.1),
  )

  pick-PicksSame :
      (objects : List (ℕ × AsyncObject)) (i : ℕ) (hs : List (Handler T))
      → AreIndependent objects hs
      → PicksSame objects hs (pick i hs)
  unfolding pick
  pick-PicksSame objects i [] a = tt
  pick-PicksSame objects zero (x ∷ xs) a = (λ heap j. refl, a.1)
  pick-PicksSame objects (suc i) (x ∷ xs) a =
      first-PicksSame objects x xs (pick i xs) (pick-Each (Commute objects x) i xs a.0)
        (pick-PicksSame objects i xs a.1)

  -- What has been run and what is still queued make up what was queued.
  abbrev Drains : ℕ → Objects T → Option (Objects T) → Type 0
  Drains c s none = Unit {0}
  Drains c s (some u) =
      Same (effect s.async_objects (s.queue c) s.heap) (effect s.async_objects (u.queue c) u.heap)

  -- One handler has been run, and the others are still queued.
  abbrev run_one : ℕ → AsyncObject → Handler T → List (Handler T) → Objects T → Objects T
  run_one c o h rest s = record s {
    heap = change o.object h.1 s.heap;
    queue = set_queue c rest s.queue;
  }

  queue-run_one :
      (c : ℕ) (o : AsyncObject) (h : Handler T) (rest : List (Handler T)) (s : Objects T)
      → (run_one c o h rest s).queue c ≡ rest
  queue-run_one c o h rest s = rw ((==_iff c c).1 refl) refl

  then-Drains :
      (c : ℕ) (s t : Objects T) (r : Option (Objects T))
      → s.async_objects ≡ t.async_objects
      → Same (effect s.async_objects (s.queue c) s.heap) (effect s.async_objects (t.queue c) t.heap)
      → Drains c t r
      → Drains c s r
  then-Drains c s t none e k d = tt
  then-Drains c s t (some u) e k d = λ j.
      k j ∙ subst (λ l. effect l (t.queue c) t.heap j ≡ effect l (u.queue c) u.heap j) (sym e) (d j)

  picked-Drains :
      (c : ℕ) (choices : List ℕ) (s : Objects T) (o : Option (Handler T × List (Handler T)))
      → ((t : Objects T)
          → AreOn c t.async_objects (t.queue c)
          → AreIndependent t.async_objects (t.queue c)
          → Drains c t (drain c choices t))
      → PickedEach
          (λ h. (a : AsyncObject) × (find h.0 s.async_objects ≡ some a) × (a.context ≡ c))
          o
      → PicksSame s.async_objects (s.queue c) o
      → Drains c s (elim o [
        | none ↦ none
        | some (h, rest) ↦ elim (handle h (record s { queue = set_queue c rest s.queue })) [
          | none ↦ none
          | some t ↦ drain c choices t
        ]
      ])
  unfolding handle
  picked-Drains c choices s none more e k = tt
  picked-Drains c choices s (some (h, rest)) more ((a, found, on), others) k =
      let t = run_one c a h rest s in
      let left = sym (queue-run_one c a h rest s) in
      rw (found, handle)
        (then-Drains c s t (drain c choices t) refl
          (λ j.
            k.0 s.heap j
            ∙ ap (λ o. effect s.async_objects rest (on_object o h.1 s.heap) j) found
            ∙ ap (λ q. effect s.async_objects q t.heap j) left)
          (more t (subst (AreOn c s.async_objects) left others)
            (subst (AreIndependent s.async_objects) left k.1)))

  drain-Drains :
      (c : ℕ) (choices : List ℕ) (s : Objects T)
      → AreOn c s.async_objects (s.queue c)
      → AreIndependent s.async_objects (s.queue c)
      → Drains c s (drain c choices s)
  unfolding drain
  drain-Drains c [] s on apart = λ j. refl
  drain-Drains c (i ∷ choices) s on apart =
      picked-Drains c choices s (pick i (s.queue c))
        (λ t on' apart'. drain-Drains c choices t on' apart') (pick-Each _ i (s.queue c) on)
        (pick-PicksSame s.async_objects i (s.queue c) apart)

  -- What is queued after calls in a thread that does not run the io_context.
  abbrev Queues : ℕ → List (Handler T) → Objects T → Option (Objects T) → Type 0
  Queues c hs s none = ⊥
  Queues c hs s (some t) =
      (t.async_objects ≡ s.async_objects) × (t.heap ≡ s.heap) × (t.queue c ≡ s.queue c ++ hs)

  later-Queues :
      (c : ℕ) (k : Handler T) (hs : List (Handler T)) (s t : Objects T) (o : Option (Objects T))
      → t.async_objects ≡ s.async_objects
      → t.heap ≡ s.heap
      → t.queue c ≡ s.queue c ++ k ∷ []
      → Queues c hs t o
      → Queues c (k ∷ hs) s o
  later-Queues c k hs s t none e e' q h = h
  later-Queues c k hs s t (some u) e e' q h =
      (h.0 ∙ e, h.1 ∙ e', h.2 ∙ ap (λ l. l ++ hs) q ∙ append_assoc (s.queue c) (k ∷ []) hs)

  call_each-Queues :
      (c : ℕ) (current : Option ℕ) (hs : List (Handler T)) (s : Objects T)
      → is_current c current ≡ false
      → AreOn c s.async_objects hs
      → Queues c hs s (call_each current hs s)
  unfolding call_each call_async
  call_each-Queues c current [] s away h = (refl, refl, sym (append-nil (s.queue c)))
  call_each-Queues c current (k ∷ hs) s away h =
      let t : Objects T = record s { queue = set_queue c (s.queue c ++ k ∷ []) s.queue } in
      rw (h.0.1, call_each, call_async, h.0.2, away)
        (later-Queues c k hs s t (call_each current hs t) refl refl (rw ((==_iff c c).1 refl) refl)
          (call_each-Queues c current hs t away h.1))

  abbrev pub firsts : List (Handler T) → List ℕ
  firsts [] = []
  firsts (h ∷ hs) = 0 ∷ firsts hs

  -- There is an order in which the io_context runs all that is queued: none of the handlers is stuck.
  pub drain-firsts :
      (c : ℕ) (hs : List (Handler T)) (s : Objects T)
      → s.queue c ≡ hs
      → AreOn c s.async_objects hs
      → (u : Objects T) × (drain c (firsts hs) s ≡ some u) × (u.queue c ≡ [])
  unfolding drain pick handle
  drain-firsts c [] s e on = (s, refl, e)
  drain-firsts c (h ∷ hs) s e ((a, found, o), on) =
      let r = drain-firsts c hs (run_one c a h hs s) (queue-run_one c a h hs s) on in
      (r.0, rw (drain, e, pick, found, handle) r.1, r.2)

  -- A thread makes calls on objects of another thread's io_context. That leaves every object as it is
  -- until the io_context runs the calls; it can run all that are queued. In whatever order it picks
  -- them, once none is left each object is what the calls that were queued before, and then these,
  -- would have made of it at once and in their order. That is as long as the `async_object`s stay where
  -- they are and point to the same objects, and if for any two of all these calls it makes no difference
  -- which of them is made first.
  pub drain-call_each :
      (c : ℕ) (current : Option ℕ) (hs : List (Handler T)) (choices : List ℕ) (s t u : Objects T)
      → is_current c current ≡ false
      → AreOn c s.async_objects (s.queue c ++ hs)
      → AreOn c s.async_objects hs
      → AreIndependent s.async_objects (s.queue c ++ hs)
      → call_each current hs s ≡ some t
      → drain c choices t ≡ some u
      → u.queue c ≡ []
      → (t.heap ≡ s.heap)
        × ((v : Objects T) × (drain c (firsts (t.queue c)) t ≡ some v) × (v.queue c ≡ []))
        × ((j : ℕ) → u.heap j ≡ effect s.async_objects (s.queue c ++ hs) s.heap j)
  drain-call_each c current hs choices s t u away on on_hs apart called ran empty =
      let q = subst (Queues c hs s) called (call_each-Queues c current hs s away on_hs) in
      let on_t : AreOn c t.async_objects (t.queue c) =
        subst (λ l. AreOn c l (t.queue c)) (sym q.0)
          (subst (AreOn c s.async_objects) (sym q.2) on) in
      let d = subst (Drains c t) ran (
        drain-Drains c choices t on_t (
          subst (λ l. AreIndependent l (t.queue c)) (sym q.0)
            (subst (AreIndependent s.async_objects) (sym q.2) apart))) in
      (
        q.1,
        drain-firsts c (t.queue c) t refl on_t,
        λ j.
            ap (λ l. effect t.async_objects l u.heap j) (sym empty)
            ∙ sym (d j)
            ∙ ap (λ l. effect l (t.queue c) t.heap j) q.0
            ∙ ap (λ l. effect s.async_objects l t.heap j) q.2
            ∙ ap (λ m. effect s.async_objects (s.queue c ++ hs) m j) q.1,
      )
