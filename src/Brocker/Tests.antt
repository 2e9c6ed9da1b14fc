-- ===== src/Brocker/Tests.antt =====
-- Runs of the brokers, and the theorems about them at inputs.
use debianbox.Base.{ℕ, ◌≡◌, ◌≢◌, refl, [], ◌∷◌, some, true}
use debianbox.Brocker.Registry.{BrockerMap, find, contains, reg, unreg}
use debianbox.Brocker.Subscriptions.{IsWellFormed}
use debianbox.Brocker.Invariant.{Reachable, start, registers}
use debianbox.Brocker.Removal.{returned, running, outer, remove, remove-ne-returned}
use debianbox.Brocker.{System, Brocker, construct, register, post, store}
use debianbox.Brocker.Coherence
use debianbox.Brocker.Coherence.{History, IsCoherent, History-IsCoherent, no_brockers}
use debianbox.Brocker.Delivery.{Posts, posted, post-Posts}

-- Brokers 1 and 2 under type 7, broker 1 under type 8.
abbrev board : BrockerMap
board = (7, 1 ∷ 2 ∷ []) ∷ (8, 1 ∷ []) ∷ []

board-Reachable : Reachable (reg 1 8 (reg 2 7 (reg 1 7 [])))
board-Reachable = registers 1 8 (registers 2 7 (registers 1 7 start))

board_built : reg 1 8 (reg 2 7 (reg 1 7 [])) ≡ board
unfolding reg
board_built = refl

last_one_goes : unreg 1 8 board ≡ (7, 1 ∷ 2 ∷ []) ∷ []
unfolding unreg
last_one_goes = refl

board-IsWellFormed : IsWellFormed board
unfolding find contains
board-IsWellFormed = (refl, refl, (refl, (refl, tt)), (refl, refl, (refl, tt), tt))

-- The only broker of the only type cannot be destroyed either.
remove-ne-returned_example : remove 100 1 (running (outer ((7, 1 ∷ []) ∷ []) 0)) ≢ returned []
unfolding find
remove-ne-returned_example = remove-ne-returned 100 1 7 (1 ∷ []) [] [] refl

empty_returns : remove 1 3 (running (outer [] 0)) ≡ returned []
unfolding remove
empty_returns = refl

-- Broker 1 with handler 70 for type 7.
abbrev with_call : Brocker ℕ
with_call = record { calls = (7, 70) ∷ []; filters = []; context = 0 }

served : System ℕ
unfolding construct
served = record {
  brocker_at = store 1 (some with_call) (construct 1 0 no_brockers).brocker_at;
  registry = (7, 1 ∷ []) ∷ [];
}

served_registered : register 1 7 70 (construct 1 0 no_brockers) ≡ some served
unfolding register construct served
served_registered = refl

served-History : History served
served-History =
    Coherence.registers 1 7 70 served_registered (Coherence.constructs 1 0 refl Coherence.start)

History-IsCoherent_example : IsCoherent served
History-IsCoherent_example = History-IsCoherent served-History

post-Posts_example :
    Posts served 7
      (posted served 7 (5 ∷ []) "door" "" "")
      true
      (post 7 (5 ∷ []) "door" "" "" true served)
post-Posts_example =
    post-Posts served 7 (5 ∷ []) "door" "" "" true (History-IsCoherent served-History)
