-- ===== src/Brocker/Registry.antt =====
-- libhdk/brocker/brocker_manager.cpp, the registry of brokers by message type: the map
-- `m_reg_brokers_map` and what `reg`, `unreg` and `clone` do to it under the write lock. A broker is
-- the number that stands for its address, and the map a list of entries, one to a key.
use debianbox.Base.{
  ℕ, List, [], ◌∷◌, ◌++◌, Option, none, some, Bool, true, false, ◌||◌, ◌==◌, if◌then◌else◌,
}

abbrev pub BrockerMap : Type 0
BrockerMap = List (ℕ × List ℕ)

-- `std::find(brockers.begin(), brockers.end(), b) != brockers.end()`.
unfoldable pub contains : ℕ → List ℕ → Bool
contains b [] = false
contains b (c ∷ cs) = c == b || contains b cs

-- `find(type_id)`.
unfoldable pub find : ℕ → BrockerMap → Option (List ℕ)
find t [] = none
find t ((j, bs) ∷ m) = if j == t then some bs else find t m

-- The value that `m_reg_brokers_map[type_id]` refers to, once it is there.
abbrev pub or_empty : Option (List ℕ) → List ℕ
or_empty none = []
or_empty (some bs) = bs

-- `m_reg_brokers_map[type_id]` makes an empty entry where there is none.
unfoldable pub touch : ℕ → BrockerMap → BrockerMap
touch t [] = (t, []) ∷ []
touch t ((j, bs) ∷ m) = if j == t then (j, bs) ∷ m else (j, bs) ∷ touch t m

-- A change of the list of an entry that is there.
unfoldable pub assign : ℕ → List ℕ → BrockerMap → BrockerMap
assign t cs [] = []
assign t cs ((j, bs) ∷ m) = if j == t then (j, cs) ∷ m else (j, bs) ∷ assign t cs m

-- `erase(type_id)`.
unfoldable pub erase : ℕ → BrockerMap → BrockerMap
erase t [] = []
erase t ((j, bs) ∷ m) = if j == t then m else (j, bs) ∷ erase t m

-- `brockers.erase(it)` at the first entry that is `b`.
unfoldable pub erase_first : ℕ → List ℕ → List ℕ
erase_first b [] = []
erase_first b (c ∷ cs) = if c == b then cs else c ∷ erase_first b cs

abbrev pub is_empty {ℓ} : {A : Type ℓ} → List A → Bool
is_empty [] = true
is_empty (x ∷ xs) = false

-- `brocker_manager::__reg`.
unfoldable pub reg : ℕ → ℕ → BrockerMap → BrockerMap
unfolding contains find touch assign
reg b t m =
    let m' = touch t m in
    let brockers = or_empty (find t m') in
    if contains b brockers then m' else assign t (brockers ++ b ∷ []) m'

-- `brocker_manager::__unreg`.
unfoldable pub unreg : ℕ → ℕ → BrockerMap → BrockerMap
unfolding contains find assign erase erase_first
unreg b t m = elim (find t m) [
  | none ↦ m
  | some brockers ↦
      let left = erase_first b brockers in
      if contains b brockers then if is_empty left then erase t m else assign t left m else m
]

-- `brocker_manager::clone`.
unfoldable pub clone : ℕ → ℕ → BrockerMap → BrockerMap
unfolding contains
clone from to [] = []
clone from to ((j, bs) ∷ m) = (j, if contains from bs then bs ++ to ∷ [] else bs) ∷ clone from to m

-- Whether a broker is registered for a message type.
unfoldable pub subscribed : BrockerMap → ℕ → ℕ → Bool
unfolding contains find
subscribed m t b = contains b (or_empty (find t m))
