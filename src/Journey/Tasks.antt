-- ===== src/Journey/Tasks.antt =====
-- From `brocker_manager::post` of libhdk/brocker/brocker_manager.cpp to the callbacks.
use Prim.Native.String.{String}
use debianbox.Base.{
  ℕ, ◌≡◌, refl, sym, ap, ◌∙◌, List, [], ◌∷◌, Each, Option, none, some, Bool, Option-cases, inl, inr,
  none-ne, some_eq,
}
use debianbox.Marshall.{Ty, Vals, Platform, EvalOrder}
use debianbox.Marshall.Message.{AreSupported, AreValid}
use debianbox.Marshall.Buffer.{Streambuf, IsStreambuf}
use debianbox.Brocker.{SenderInfo, System, Task, HandlerCall, post, find_call, run_task}
use debianbox.Brocker.Coherence.{IsCoherent}
use debianbox.Brocker.Delivery.{CallsOne, Posts, posted, post-Posts}
use debianbox.Brocker.Call.{Received, pack, call, run_typed, call-pack}
use debianbox.Journey.{handler, IsTyped, received, Delivers}

-- The callback that a task calls is the one that its broker has for its type.
calls-handler :
    (s : System (List Ty)) (task : Task) (c : HandlerCall (List Ty))
    → run_task task s ≡ some (some c)
    → handler s task.target task.type_id ≡ some c.handler
unfolding run_task
calls-handler s task c e = elim (Option-cases (s.brocker_at task.target)) [
  | inl dead ↦ absurd (none-ne (some c) (rw (dead, run_task) at e))
  | inr (br, alive) ↦ elim (Option-cases (find_call task.type_id br.calls)) [
    | inl missing ↦ absurd (none-ne c (some_eq none (some c) (rw (alive, run_task, missing) at e)))
    | inr (h, there) ↦
        let same = some_eq _ c (some_eq (some _) (some c) (rw (alive, run_task, there) at e)) in
        rw (alive, handler, there) (ap (λ d. some d.handler) same)
  ]
]

module _ (B : Streambuf) (p : Platform) (order : EvalOrder) (law : IsStreambuf B)
    (s : System (List Ty)) (coherent : IsCoherent s) (t : ℕ) (ts : List Ty) (typed : IsTyped s t ts)
    (members : Vals ts) (supported : AreSupported ts) (valid : AreValid p ts members) where
  abbrev task_of : String → String → String → Task
  task_of filter id address = posted s t (pack B p order ts members) filter id address

  abbrev given : List Ty → List ℕ → SenderInfo → Received
  given us bytes info = record { types = us; members = call B p order us bytes; sender = info }

  given-received :
      (us : List Ty) (id filter address : String)
      → us ≡ ts
      → given us (pack B p order ts members) (record { id = id; name = filter; address = address })
        ≡ received ts members id filter address
  given-received us id filter address e =
      rw (e, call-pack B p order law ts members supported valid) refl

  -- A task that carries the message and calls one callback gives it the members.
  runs :
      (filter id address : String) (task : Task)
      → task ≡ record (task_of filter id address) { target = task.target }
      → CallsOne s (0, task)
      → run_typed B p order task s ≡ some (some (received ts members id filter address))
  unfolding run_typed
  runs filter id address task same (h, ran) =
      let typed_so : h ≡ ts = typed task.target h (
        ap (handler s task.target) (sym (ap (λ k. k.type_id) same))
        ∙ calls-handler s task (record { handler = h; bytes = task.bytes; sender = task.sender })
            ran) in
      rw (ran, run_typed)
        (ap (λ k. some (some (given h k.bytes k.sender))) same
          ∙ ap (λ r. some (some r)) (given-received h id filter address typed_so))

  all_run :
      (filter id address : String) (tasks : List (ℕ × Task))
      → Each
          (λ e. (e.1 ≡ record (task_of filter id address) { target = e.1.target }) × CallsOne s e)
          tasks
      → Each
          (λ e. run_typed B p order e.1 s ≡ some (some (received ts members id filter address)))
          tasks
  all_run filter id address [] h = tt
  all_run filter id address (e ∷ tasks) h =
      (runs filter id address e.1 h.0.0 h.0.1, all_run filter id address tasks h.1)

  delivered :
      (filter id address : String) (check_reg : Bool) (o : Option (List (ℕ × Task) × Bool))
      → Posts s t (task_of filter id address) check_reg o
      → Delivers B p order s t filter (received ts members id filter address) o
  delivered filter id address check_reg none h = h
  delivered filter id address check_reg (some (tasks, printed)) h =
      (h.0.0, all_run filter id address tasks h.0.1)

  pub post-Delivers :
      (filter id address : String) (check_reg : Bool)
      → Delivers B p order s t filter
          (received ts members id filter address)
          (post t (pack B p order ts members) filter id address check_reg s)
  post-Delivers filter id address check_reg =
      let bytes = pack B p order ts members in
      delivered filter id address check_reg (post t bytes filter id address check_reg s)
        (post-Posts s t bytes filter id address check_reg coherent)
