-- ===== src/Brocker/Coherence.antt =====
-- The brokers and the registry agree, after any history of constructions, registrations,
-- cancellations and copies.
use debianbox.Base.{
  ℕ, ◌≡◌, refl, ◌∙◌, arith, List, [], ◌∷◌, Option, none, some, Bool, true, false, not, ◌&&◌, ◌||◌,
  ◌==◌, Option-cases, inl, inr, subst,
}
use debianbox.Brocker.Registry.{BrockerMap, find, contains, subscribed}
use debianbox.Brocker.Subscriptions.{
  IsWellFormed, subscribed-reg, subscribed-unreg, subscribed-clone,
}
use debianbox.Brocker.Invariant.{IsNew, reg-IsWellFormed, unreg-IsWellFormed, clone-IsWellFormed}
use debianbox.Brocker.{
  Brocker, System, find_call, insert_call, erase_call, construct, register, unregister, copy,
}

IsNew-of_subscribed :
    (b : ℕ) (m : BrockerMap) → IsWellFormed m → ((u : ℕ) → subscribed m u b ≡ false) → IsNew b m
unfolding subscribed find
IsNew-of_subscribed b [] w h = tt
IsNew-of_subscribed b ((t, bs) ∷ m) w h = (
  ground (arith, h t),
  IsNew-of_subscribed b m w.3 (λ u. (unfold contains in ground (arith, h u, w.0))),
)

module _ {H : Type 0} where
  abbrev pub is_some : Option H → Bool
  is_some none = false
  is_some (some h) = true

  abbrev holds : Option (Brocker H) → ℕ → Bool
  holds none t = false
  holds (some br) t = is_some (find_call t br.calls)

  -- Whether the broker at an address exists and has a handler for a message type.
  abbrev pub has_call : System H → ℕ → ℕ → Bool
  has_call s b t = holds (s.brocker_at b) t

  pub record IsCoherent (s : System H) : Type 0 where
    pub well_formed : IsWellFormed s.registry
    pub agrees : (t b : ℕ) → subscribed s.registry t b ≡ has_call s b t

  find_call-insert_call :
      (t u : ℕ) (h : H) (cs : List (ℕ × H))
      → is_some (find_call u (insert_call t h cs)) ≡ (is_some (find_call u cs) || t == u)
  unfolding find_call insert_call
  find_call-insert_call t u h [] = ground arith
  find_call-insert_call t u h ((j, g) ∷ cs) = ground (arith, find_call-insert_call t u h cs)

  find_call-erase_call :
      (t u : ℕ) (cs : List (ℕ × H))
      → is_some (find_call u (erase_call t cs)) ≡ (is_some (find_call u cs) && not (t == u))
  unfolding find_call erase_call
  find_call-erase_call t u [] = refl
  find_call-erase_call t u ((j, g) ∷ cs) = ground (arith, find_call-erase_call t u cs)

  construct-IsCoherent :
      (b ctx : ℕ) (s : System H)
      → s.brocker_at b ≡ none
      → IsCoherent s
      → IsCoherent (construct b ctx s)
  unfolding construct find_call
  construct-IsCoherent b ctx s dead c = record {
    well_formed = c.well_formed;
    agrees = λ t d. ground (arith, dead, c.agrees t d);
  }

  -- The system after a call that is defined is coherent.
  abbrev Ends : Option (System H) → Type 0
  Ends none = Unit {0}
  Ends (some s) = IsCoherent s

  register-Ends : (b t : ℕ) (h : H) (s : System H) → IsCoherent s → Ends (register b t h s)
  unfolding register
  register-Ends b t h s c = elim (Option-cases (s.brocker_at b)) [
    | inl dead ↦ rw (dead, register) tt
    | inr (br, alive) ↦
        rw (alive, register)
          (record {
            well_formed = reg-IsWellFormed b t s.registry c.well_formed;
            agrees = λ u d. ground (
              arith,
              alive,
              subscribed-reg b t s.registry u d,
              c.agrees u d,
              find_call-insert_call t u h br.calls,
            );
          })
  ]

  unregister-Ends : (b t : ℕ) (s : System H) → IsCoherent s → Ends (unregister b t s)
  unfolding unregister
  unregister-Ends b t s c = elim (Option-cases (s.brocker_at b)) [
    | inl dead ↦ rw (dead, unregister) tt
    | inr (br, alive) ↦
        rw (alive, unregister)
          (record {
            well_formed = unreg-IsWellFormed b t s.registry c.well_formed;
            agrees = λ u d. ground (
              arith,
              alive,
              subscribed-unreg b t s.registry u d c.well_formed,
              c.agrees u d,
              find_call-erase_call t u br.calls,
            );
          })
  ]

  copy-Ends :
      (from to : ℕ) (s : System H) → s.brocker_at to ≡ none → IsCoherent s → Ends (copy from to s)
  unfolding copy
  copy-Ends from to s dead c = elim (Option-cases (s.brocker_at from)) [
    | inl gone ↦ rw (gone, copy) tt
    | inr (br, alive) ↦
        rw (alive, copy)
          (record {
            well_formed =
                clone-IsWellFormed from to s.registry
                  (IsNew-of_subscribed to s.registry c.well_formed (λ u. c.agrees u to ∙ rw dead))
                  c.well_formed;
            agrees = λ u d. ground (
              arith,
              alive,
              dead,
              subscribed-clone from to s.registry u d,
              c.agrees u d,
              c.agrees u from,
            );
          })
  ]

  abbrev pub no_brockers : System H
  no_brockers = record { brocker_at = λ b. none; registry = [] }

  -- What a program can do with brokers before one is destroyed: each call on a broker that
  -- exists, each construction at an address where none is.
  pub data History : System H → Type 0 where
    start : History no_brockers
    constructs :
        {s : System H} (b ctx : ℕ) → s.brocker_at b ≡ none → History s → History (construct b ctx s)
    registers :
        {s s' : System H} (b t : ℕ) (h : H) → register b t h s ≡ some s' → History s → History s'
    unregisters : {s s' : System H} (b t : ℕ) → unregister b t s ≡ some s' → History s → History s'
    copies :
        {s s' : System H} (from to : ℕ)
        → s.brocker_at to ≡ none
        → copy from to s ≡ some s'
        → History s
        → History s'

  no_brockers-IsCoherent : IsCoherent no_brockers
  unfolding subscribed
  no_brockers-IsCoherent = record { well_formed = tt; agrees = λ t b. refl }

  -- After any sequence of constructions, copies, registrations and unregistrations, before a broker
  -- is destroyed, a broker stands in the registry under a message type exactly if it exists and
  -- has a handler for it, and the registry is well formed.
  pub History-IsCoherent : {s : System H} → History s → IsCoherent s
  History-IsCoherent start = no_brockers-IsCoherent
  History-IsCoherent (constructs {s} b ctx dead r) =
      construct-IsCoherent b ctx s dead (History-IsCoherent r)
  History-IsCoherent (registers {s} b t h e r) =
      subst Ends e (register-Ends b t h s (History-IsCoherent r))
  History-IsCoherent (unregisters {s} b t e r) =
      subst Ends e (unregister-Ends b t s (History-IsCoherent r))
  History-IsCoherent (copies {s} from to dead e r) =
      subst Ends e (copy-Ends from to s dead (History-IsCoherent r))
