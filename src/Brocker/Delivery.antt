-- ===== src/Brocker/Delivery.antt =====
-- What a posted message reaches.
use Prim.Native.String.{String}
use debianbox.Base.{
  ℕ, ◌≡◌, refl, sym, ap, ◌∙◌, arith, List, [], ◌∷◌, map, Each, Option, none, some, Bool, true,
  false, if◌then◌else◌, Bool-cases, Option-cases, inl, inr,
}
use debianbox.Brocker.Registry.{find, contains, or_empty, subscribed}
use debianbox.Brocker.{
  Brocker, System, Task, check_filter, find_call, dispatch, dispatch_each, post, run_task,
}
use debianbox.Brocker.Coherence.{has_call, IsCoherent}

contains_of : (bs : List ℕ) {P : ℕ → Type 0} → ((b : ℕ) → contains b bs ≡ true → P b) → Each P bs
unfolding contains
contains_of [] f = tt
contains_of (b ∷ bs) f = (f b (ground arith), contains_of bs (λ c h. f c (ground (arith, h))))

abbrev pub is_registered : Option (List ℕ) → Bool
is_registered none = false
is_registered (some bs) = true

module _ {H : Type 0} (s : System H) where
  abbrev accepts_by : String → Option (Brocker H) → Bool
  accepts_by filter none = false
  accepts_by filter (some br) = check_filter filter br.filters

  -- Whether the broker lets messages under a filter through.
  abbrev pub accepts : String → ℕ → Bool
  accepts filter b = accepts_by filter (s.brocker_at b)

  abbrev pub accepting : String → List ℕ → List ℕ
  accepting filter [] = []
  accepting filter (b ∷ bs) =
      if accepts filter b then b ∷ accepting filter bs else accepting filter bs

  -- When it runs, the task calls one handler of its target's, with its bytes and its sender.
  abbrev pub CallsOne : ℕ × Task → Type 0
  CallsOne (ctx, task) =
      (h : H) × (run_task task s
        ≡ some (some (record { handler = h; bytes = task.bytes; sender = task.sender })))

  -- The tasks go to these brokers, and carry the message.
  abbrev pub AreFor : Task → List ℕ → Option (List (ℕ × Task)) → Type 0
  AreFor task bs none = ⊥
  AreFor task bs (some tasks) =
      (map (λ e. e.1.target) tasks ≡ bs)
      × Each (λ e. (e.1 ≡ record task { target = e.1.target }) × CallsOne e) tasks

  one_call :
      (task : Task) (b ctx : ℕ)
      → has_call s b task.type_id ≡ true
      → CallsOne (ctx, record task { target = b })
  unfolding run_task
  one_call task b ctx h = elim (Option-cases (s.brocker_at b)) [
    | inl dead ↦ let never : false ≡ true = rw dead at h in cc
    | inr (br, alive) ↦ elim (Option-cases (find_call task.type_id br.calls)) [
      | inl missing ↦ let never : false ≡ true = rw (alive, missing) at h in cc
      | inr (g, there) ↦ (g, rw (alive, run_task, there) refl)
    ]
  ]

  dispatch-AreFor :
      (task : Task) (b : ℕ) (bs : List ℕ) (later : Option (List (ℕ × Task)))
      → has_call s b task.type_id ≡ true
      → AreFor task bs later
      → AreFor task (if accepts task.sender.name b then b ∷ bs else bs) (dispatch task b s later)
  unfolding dispatch
  dispatch-AreFor task b bs none h r = absurd r
  dispatch-AreFor task b bs (some tasks) h r = elim (Option-cases (s.brocker_at b)) [
    | inl dead ↦ let never : false ≡ true = rw dead at h in cc
    | inr (br, alive) ↦
        rw (alive, dispatch)
          (elim (Bool-cases (check_filter task.sender.name br.filters)) [
            | inl accepted ↦
                rw accepted (ap (◌∷◌ b) r.0, ((refl, one_call task b br.context h), r.1))
            | inr refused ↦ rw refused r
          ])
  ]

  dispatch_each-AreFor :
      (task : Task) (bs : List ℕ)
      → Each (λ b. has_call s b task.type_id ≡ true) bs
      → AreFor task (accepting task.sender.name bs) (dispatch_each task bs s)
  unfolding dispatch_each
  dispatch_each-AreFor task [] h = (refl, tt)
  dispatch_each-AreFor task (b ∷ bs) h =
      dispatch-AreFor task b (accepting task.sender.name bs) (dispatch_each task bs s) h.0
        (dispatch_each-AreFor task bs h.1)

  -- What a call of `post` does: the tasks are for the brokers that stand under the type and accept
  -- the filter, in the order of registration, and the message about an unknown type is printed if
  -- there is no broker of the type and it is asked for.
  abbrev pub Posts : ℕ → Task → Bool → Option (List (ℕ × Task) × Bool) → Type 0
  Posts t task check_reg none = ⊥
  Posts t task check_reg (some (tasks, printed)) =
      AreFor task (accepting task.sender.name (or_empty (find t s.registry))) (some tasks)
      × (printed ≡ (if is_registered (find t s.registry) then false else check_reg))

  module _ (t : ℕ) (bytes : List ℕ) (filter sender_name sender_address : String) where
    abbrev pub posted : Task
    posted = record {
      target = 0;
      type_id = t;
      bytes = bytes;
      sender = record { id = sender_name; name = filter; address = sender_address };
    }

    packed :
        (check_reg : Bool) (bs : List ℕ) (o : Option (List (ℕ × Task)))
        → find t s.registry ≡ some bs
        → AreFor posted (accepting filter bs) o
        → Posts t posted check_reg (elim o [ none ↦ none | some tasks ↦ some (tasks, false) ])
    packed check_reg bs none there r = r
    packed check_reg bs (some tasks) there r = rw there (r, refl)

    -- If a broker stands in the registry exactly where it has a handler, `post` reads no broker that is gone; each broker
    -- that is registered for the type and accepts the filter gets one task, in the order of
    -- registration, no other broker gets one, and each task calls one handler.
    pub post-Posts :
        (check_reg : Bool)
        → IsCoherent s
        → Posts t posted check_reg (post t bytes filter sender_name sender_address check_reg s)
    unfolding post
    post-Posts check_reg c = elim (Option-cases (find t s.registry)) [
      | inl unknown ↦ rw (unknown, post) (rw unknown ((refl, tt), refl))
      | inr (bs, there) ↦
          rw (there, post)
            (packed check_reg bs (dispatch_each posted bs s) there (
              dispatch_each-AreFor posted bs (
                contains_of bs
                  λ b held. sym (c.agrees t b) ∙ (unfold subscribed in rw there held))))
    ]
