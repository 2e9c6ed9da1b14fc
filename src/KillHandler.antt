-- ===== src/KillHandler.antt =====
-- libhdk/kill_handler.cpp: the function that runs when the process is told to end. `F` stands for
-- such functions; `exit` runs what `std::atexit` was given, the last first.
use debianbox.Base.{ℕ, zero, suc, ◌≡◌, refl, List, [], ◌∷◌, Option, none, some}

-- The signals of `reg`.
pub data Signal : Type 0 where
  sigint sigquit sigtstp sigkill sigterm : Signal

-- What the system does at a signal: what it does by itself, which is the end at once or a stop, or
-- the call of `__kill_signal_handler`.
pub data Disposition : Type 0 where
  default handled : Disposition

-- `g_kill_handler_func`, and how often `__atexit_handler` was given to `std::atexit`.
pub record KillState (F : Type 0) : Type 0 where
  pub g_kill_handler_func : Option F
  pub atexits : ℕ
  pub disposition : Signal → Disposition

-- `sigaction` fails for `SIGKILL`, and the answer is not looked at.
abbrev caught : Signal → Disposition
caught sigkill = default
caught s = handled

module _ {F : Type 0} where
  -- `kill_handler::reg`.
  unfoldable pub reg : F → KillState F → KillState F
  reg f s = record { g_kill_handler_func = some f; atexits = suc s.atexits; disposition = caught }

  -- `exit`: `__atexit_handler` as often as it was given; an empty `std::function` throws.
  unfoldable pub run_atexits : ℕ → Option F → Option (List F)
  run_atexits zero f = some []
  run_atexits (suc n) none = none
  run_atexits (suc n) (some f) = elim (run_atexits n (some f)) [
    | none ↦ none
    | some fs ↦ some (f ∷ fs)
  ]

  unfoldable pub exit : KillState F → Option (List F)
  unfolding run_atexits
  exit s = run_atexits s.atexits s.g_kill_handler_func

  -- `__kill_signal_handler`; `none` on a signal whose disposition was not changed.
  unfoldable pub deliver_signal : Signal → KillState F → Option (Option (List F))
  unfolding exit
  deliver_signal signal s = elim (s.disposition signal) [ default ↦ none | handled ↦ some (exit s) ]

  abbrev pub repeats : ℕ → F → List F
  repeats zero f = []
  repeats (suc n) f = f ∷ repeats n f

  run_atexits_lem : (n : ℕ) (f : F) → run_atexits n (some f) ≡ some (repeats n f)
  unfolding run_atexits
  run_atexits_lem zero f = refl
  run_atexits_lem (suc n) f = rw (run_atexits_lem n f, run_atexits)

  -- At the end of the process after a further `reg`, the function of the last `reg` runs once for
  -- every `reg` there was, and the functions of the others do not run.
  pub exit-reg : (f : F) (s : KillState F) → exit (reg f s) ≡ some (repeats (suc s.atexits) f)
  unfolding exit reg
  exit-reg f s = run_atexits_lem (suc s.atexits) f
