-- ===== src/Marshall.antt =====
-- libhdk/marshall/marshal.hpp: the overloads `_marshal` and `_demarshal` for plain objects,
-- `std::string`, `std::vector` and `std::map`, and the variadic functions over them that
-- HDK_MARSHAL of libhdk/marshall/marshall_macro.hpp calls on the members of a message.
-- A stream is the list of its bytes. `std::size_t` has eight bytes, lowest first.
pub mod Bytes
pub mod Roundtrip
pub mod Message
pub mod Canonical
pub mod Buffer
pub mod Plain
mod Tests
use debianbox.Base.{
  ℕ, zero, suc, List, [], ◌∷◌, ◌++◌, Option, none, some, length, Bool, if◌then◌else◌,
}
use Bytes.{to_bytes, from_bytes, read}

-- The types that the overloads serve. `scalar n` is what the primary template copies byte by
-- byte: an object of `n` bytes.
pub data Ty : Type 0 where
  scalar : ℕ → Ty
  text : Ty
  vector : Ty → Ty
  dict : Ty → Ty → Ty

-- A map is its entries in the order of its iteration.
abbrev pub Val : Ty → Type 0
Val (scalar n) = ℕ
Val text = List ℕ
Val (vector t) = List (Val t)
Val (dict k v) = List (Val k × Val v)

-- What the compiler and its library choose: the order `std::less` of each key type, and the
-- bytes of a map object itself.
pub record Platform : Type 0 where
  pub less : (k : Ty) → Val k → Val k → Bool
  pub image : (k v : Ty) → Val (dict k v) → List ℕ

abbrev pub size_t : ℕ
size_t = 8

infixl 5 ◌>>=◌
abbrev pub ◌>>=◌ {ℓ κ} : {A : Type ℓ} {B : Type κ} → Option A → (A → Option B) → Option B
none >>= f = none
some a >>= f = f a

-- `std::for_each` over a container: what its calls write.
pub write_each {ℓ} : {A : Type ℓ} → (A → List ℕ) → List A → List ℕ
write_each f [] = []
write_each f (x ∷ xs) = f x ++ write_each f xs

-- `for(size_t i = 0; i < size; ++i)` over a target that each round changes.
pub rounds {ℓ} :
    {A : Type ℓ} → (A → List ℕ → Option (A × List ℕ)) → ℕ → A → List ℕ → Option (A × List ℕ)
rounds body zero target stream = some (target, stream)
rounds body (suc n) target stream = do
  (target', stream') ← body target stream
  rounds body n target' stream'

-- `T value;` before it is read.
abbrev pub fresh : (t : Ty) → Val t
fresh (scalar n) = 0
fresh text = []
fresh (vector t) = []
fresh (dict k v) = []

write_entry : (k v : Ty) → (Val k → List ℕ) → (Val v → List ℕ) → Val k × Val v → List ℕ
write_entry k v f g e = f e.0 ++ g e.1

pub read_scalar : ℕ → List ℕ → Option (ℕ × List ℕ)
unfolding read from_bytes
read_scalar n stream = do (bs, rest) ← read n stream; some (from_bytes bs, rest)

pub push_element :
    (t : Ty)
    → (Val t → List ℕ → Option (Val t × List ℕ))
    → List (Val t)
    → List ℕ
    → Option (List (Val t) × List ℕ)
push_element t f target stream = do (x, rest) ← f (fresh t) stream; some (target ++ x ∷ [], rest)

-- What the primary template does to a map: it overwrites the object with bytes of the stream,
-- which is undefined.
overwrite_map : (k v : Ty) → Val (dict k v) → List ℕ → Option (Val (dict k v) × List ℕ)
overwrite_map k v target stream = none

-- The members of a message, in the order of the HDK_MARSHAL list.
abbrev pub Vals : List Ty → Type 0
Vals [] = Unit {0}
Vals (t ∷ ts) = Val t × Vals ts

abbrev pub fresh_members : (ts : List Ty) → Vals ts
fresh_members [] = tt
fresh_members (t ∷ ts) = (fresh t, fresh_members ts)

-- `_final(_marshal(os, args) ...)`: the calls are the arguments of one function, which the
-- language lets the compiler evaluate in any order. These are the two that compilers use.
pub data EvalOrder : Type 0 where
  first_to_last last_to_first : EvalOrder

module _ (p : Platform) where
  open p use {less, image}

  -- `_marshal(os, value)`: the bytes that it writes. In the overload for vectors the one for maps
  -- is not declared yet, nor found through the arguments, so that an element that is a map goes
  -- to the primary template, which writes the map object's own bytes.
  pub marshal_value : (t : Ty) → Val t → List ℕ
  unfolding write_each write_entry to_bytes
  marshal_value (scalar n) x = to_bytes n x
  marshal_value text s = to_bytes size_t (length s) ++ s
  marshal_value (vector (dict k v)) xs = to_bytes size_t (length xs) ++ write_each (image k v) xs
  marshal_value (vector t) xs = to_bytes size_t (length xs) ++ write_each (marshal_value t) xs
  marshal_value (dict k v) m =
      to_bytes size_t (length m)
      ++ write_each (write_entry k v (marshal_value k) (marshal_value v)) m

  -- `mm.insert({key, value})`, which leaves a key that is there alone.
  pub map_insert : (k v : Ty) → Val k → Val v → Val (dict k v) → Val (dict k v)
  map_insert k v key value [] = (key, value) ∷ []
  map_insert k v key value ((j, w) ∷ m) =
      if less k key j
      then (key, value) ∷ (j, w) ∷ m
      else if less k j key
      then (j, w) ∷ map_insert k v key value m
      else (j, w) ∷ m

  insert_entry :
      (k v : Ty)
      → (Val k → List ℕ → Option (Val k × List ℕ))
      → (Val v → List ℕ → Option (Val v × List ℕ))
      → Val (dict k v)
      → List ℕ
      → Option (Val (dict k v) × List ℕ)
  unfolding map_insert
  insert_entry k v f g target stream = do
    (key, after_key) ← f (fresh k) stream
    (value, rest) ← g (fresh v) after_key
    some (map_insert k v key value target, rest)

  -- `_demarshal(is, target)`: the target's new value and what is left of the stream; `none` if the
  -- stream ran out, when the code leaves the target in an unspecified state, or if the read is
  -- undefined. A plain object and a string are overwritten; a vector is appended to, and a map
  -- inserted into.
  pub demarshal_value : (t : Ty) → Val t → List ℕ → Option (Val t × List ℕ)
  unfolding rounds read_scalar push_element insert_entry overwrite_map
  demarshal_value (scalar n) target stream = read_scalar n stream
  demarshal_value text target stream = do (size, rest) ← read_scalar size_t stream; read size rest
  demarshal_value (vector (dict k v)) target stream = do
    (size, rest) ← read_scalar size_t stream
    rounds (push_element (dict k v) (overwrite_map k v)) size target rest
  demarshal_value (vector t) target stream = do
    (size, rest) ← read_scalar size_t stream
    rounds (push_element t (demarshal_value t)) size target rest
  demarshal_value (dict k v) target stream = do
    (size, rest) ← read_scalar size_t stream
    rounds (insert_entry k v (demarshal_value k) (demarshal_value v)) size target rest

  -- `marshal(os, args...)`: what the members add to the stream.
  pub marshal : EvalOrder → (ts : List Ty) → Vals ts → List ℕ
  unfolding marshal_value
  marshal order [] members = []
  marshal first_to_last (t ∷ ts) (x, members) =
      marshal_value t x ++ marshal first_to_last ts members
  marshal last_to_first (t ∷ ts) (x, members) =
      marshal last_to_first ts members ++ marshal_value t x

  -- `demarshal(is, args...)`, into the members as they are.
  pub demarshal : EvalOrder → (ts : List Ty) → Vals ts → List ℕ → Option (Vals ts × List ℕ)
  unfolding demarshal_value
  demarshal order [] targets stream = some (tt, stream)
  demarshal first_to_last (t ∷ ts) (target, targets) stream = do
    (x, after) ← demarshal_value t target stream
    (members, rest) ← demarshal first_to_last ts targets after
    some ((x, members), rest)
  demarshal last_to_first (t ∷ ts) (target, targets) stream = do
    (members, after) ← demarshal last_to_first ts targets stream
    (x, rest) ← demarshal_value t target after
    some ((x, members), rest)
