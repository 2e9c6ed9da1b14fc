-- ===== src/Marshall/Roundtrip.antt =====
-- What `_demarshal` reads back of what `_marshal` wrote.
use debianbox.Base.{
  ℕ, ◌^◌, ◌<◌, ◌≡◌, refl, ap, ◌∙◌, List, [], ◌∷◌, ◌++◌, append_assoc, append-nil, Option, some,
  length, true, false, Each,
}
use debianbox.Marshall.Bytes.{to_bytes, read, length-to_bytes, from_bytes-to_bytes, read-append}
use debianbox.Marshall.{
  Ty, scalar, text, vector, dict, Val, Platform, size_t, ◌>>=◌, write_each, rounds, fresh,
  write_entry, marshal_value, map_insert, read_scalar, push_element, insert_entry, demarshal_value,
}

-- The types for which the overloads find one another: no vector has maps for elements.
abbrev pub IsSupported : Ty → Type 0
IsSupported (scalar n) = Unit {0}
IsSupported text = Unit {0}
IsSupported (vector (dict k v)) = ⊥
IsSupported (vector t) = IsSupported t
IsSupported (dict k v) = IsSupported k × IsSupported v

-- One decoder reads back what one encoder wrote.
abbrev Reads {ℓ} : {A : Type ℓ} → (List ℕ → Option (A × List ℕ)) → List ℕ → A → Type ℓ
Reads f bs x = (rest : List ℕ) → f (bs ++ rest) ≡ some (x, rest)

read_scalar-to_bytes : (n x : ℕ) → x < 256 ^ n → Reads (read_scalar n) (to_bytes n x) x
unfolding read_scalar
read_scalar-to_bytes n x h rest =
    rw (rw length-to_bytes at (read-append (to_bytes n x) rest), from_bytes-to_bytes n x h)

-- A size, and then what is read by its value.
sized-Reads {ℓ} :
    {A : Type ℓ} (size : ℕ) (body : ℕ → List ℕ → Option (A × List ℕ)) (bs : List ℕ) (x : A)
    → size < 256 ^ size_t
    → Reads (body size) bs x
    → Reads
        (λ stream. read_scalar size_t stream >>= λ r. body r.0 r.1)
        (to_bytes size_t size ++ bs)
        x
sized-Reads size body bs x h k rest =
    rw (append_assoc, read_scalar-to_bytes size_t size h (bs ++ rest)) (k rest)

rounds-push :
    (t : Ty) (enc : Val t → List ℕ) (f : Val t → List ℕ → Option (Val t × List ℕ))
    (xs old : List (Val t))
    → Each (λ x. Reads (f (fresh t)) (enc x) x) xs
    → Reads (rounds (push_element t f) (length xs) old) (write_each enc xs) (old ++ xs)
unfolding rounds write_each push_element
rounds-push t enc f [] old h rest = rw (append-nil old)
rounds-push t enc f (x ∷ xs) old h rest =
    rw (append_assoc, h.0 (write_each enc xs ++ rest))
      (rounds-push t enc f xs (old ++ x ∷ []) h.1 rest ∙ rw append_assoc)

Each-map {ℓ κ ι} :
    {A : Type ℓ} {P : A → Type κ} {Q : A → Type ι} (xs : List A)
    → ((x : A) → P x → Q x)
    → Each P xs
    → Each Q xs
Each-map [] f h = tt
Each-map (x ∷ xs) f h = (f x h.0, Each-map xs f h.1)

Each-middle {ℓ κ} :
    {A : Type ℓ} (P : A → Type κ) (xs : List A) (y : A) (ys : List A) → Each P (xs ++ y ∷ ys) → P y
Each-middle P [] y ys h = h.0
Each-middle P (x ∷ xs) y ys h = Each-middle P xs y ys h.1

module _ (p : Platform) where
  open p use {less}

  -- The entries of a `std::map`: each key comes before all later ones.
  abbrev pub Increasing : (k v : Ty) → Val (dict k v) → Type 0
  Increasing k v [] = Unit {0}
  Increasing k v (e ∷ m) =
      Each (λ f. (less k e.0 f.0 ≡ true) × (less k f.0 e.0 ≡ false)) m × Increasing k v m

  -- A value that the program can hold: an object of `n` bytes has a value below `256 ^ n`, a
  -- container fewer elements than a `size_t` counts.
  abbrev pub IsValid : (t : Ty) → Val t → Type 0
  IsValid (scalar n) x = x < 256 ^ n
  IsValid text s = length s < 256 ^ size_t
  IsValid (vector t) xs = (length xs < 256 ^ size_t) × Each (IsValid t) xs
  IsValid (dict k v) m =
      (length m < 256 ^ size_t) × Each (λ e. IsValid k e.0 × IsValid v e.1) m × Increasing k v m

  Increasing-before :
      (k v : Ty) (old : Val (dict k v)) (e : Val k × Val v) (m : Val (dict k v))
      → Increasing k v (old ++ e ∷ m)
      → Each (λ f. (less k f.0 e.0 ≡ true) × (less k e.0 f.0 ≡ false)) old
  Increasing-before k v [] e m h = tt
  Increasing-before k v (f ∷ old) e m h =
      (Each-middle _ old e m h.0, Increasing-before k v old e m h.1)

  -- A key after all others goes to the end.
  map_insert-append :
      (k v : Ty) (key : Val k) (value : Val v) (old : Val (dict k v))
      → Each (λ f. (less k f.0 key ≡ true) × (less k key f.0 ≡ false)) old
      → map_insert p k v key value old ≡ old ++ (key, value) ∷ []
  unfolding map_insert
  map_insert-append k v key value [] h = refl
  map_insert-append k v key value (e ∷ old) h =
      rw (h.0.0, h.0.1) (ap (◌∷◌ e) (map_insert-append k v key value old h.1))

  module _ (k v : Ty) (enc_k : Val k → List ℕ) (enc_v : Val v → List ℕ)
      (f : Val k → List ℕ → Option (Val k × List ℕ))
      (g : Val v → List ℕ → Option (Val v × List ℕ)) where
    rounds-insert :
        (m old : Val (dict k v))
        → Each (λ e. Reads (f (fresh k)) (enc_k e.0) e.0 × Reads (g (fresh v)) (enc_v e.1) e.1) m
        → Increasing k v (old ++ m)
        → Reads
            (rounds (insert_entry p k v f g) (length m) old)
            (write_each (write_entry k v enc_k enc_v) m)
            (old ++ m)
    unfolding rounds write_each insert_entry write_entry
    rounds-insert [] old h inc rest = rw (append-nil old)
    rounds-insert ((key, value) ∷ m) old h inc rest =
        rw
          (
            append_assoc,
            append_assoc,
            h.0.0 (enc_v value ++ (write_each (write_entry k v enc_k enc_v) m ++ rest)),
            h.0.1 (write_each (write_entry k v enc_k enc_v) m ++ rest),
            map_insert-append k v key value old (Increasing-before k v old (key, value) m inc),
          )
          (rounds-insert m (old ++ (key, value) ∷ []) h.1 (rw append_assoc inc) rest
            ∙ rw append_assoc)

  read_vector :
      (t : Ty) (enc : Val t → List ℕ) (f : Val t → List ℕ → Option (Val t × List ℕ))
      (xs old : List (Val t))
      → length xs < 256 ^ size_t
      → Each (λ x. Reads (f (fresh t)) (enc x) x) xs
      → Reads
          (λ stream. read_scalar size_t stream >>= λ r. rounds (push_element t f) r.0 old r.1)
          (to_bytes size_t (length xs) ++ write_each enc xs)
          (old ++ xs)
  read_vector t enc f xs old small h =
      sized-Reads (length xs) (λ n. rounds (push_element t f) n old) (write_each enc xs) (old ++ xs)
        small (rounds-push t enc f xs old h)

  read_back :
      (t : Ty)
      → IsSupported t
      → (x : Val t) → IsValid t x
      → Reads (demarshal_value p t (fresh t)) (marshal_value p t x) x
  unfolding demarshal_value marshal_value
  read_back (scalar n) s x h = read_scalar-to_bytes n x h
  read_back text s x h = sized-Reads (length x) read x x h (read-append x)
  read_back (vector (scalar n)) s xs h =
      read_vector (scalar n) (marshal_value p (scalar n)) (demarshal_value p (scalar n)) xs [] h.0
        (Each-map xs (read_back (scalar n) s) h.1)
  read_back (vector text) s xs h =
      read_vector text (marshal_value p text) (demarshal_value p text) xs [] h.0
        (Each-map xs (read_back text s) h.1)
  read_back (vector (vector t)) s xs h =
      read_vector (vector t) (marshal_value p (vector t)) (demarshal_value p (vector t)) xs [] h.0
        (Each-map xs (read_back (vector t) s) h.1)
  read_back (vector (dict k v)) s xs h = elim s [ ]
  read_back (dict k v) s m h =
      sized-Reads (length m)
        (λ n. rounds (insert_entry p k v (demarshal_value p k) (demarshal_value p v)) n [])
        (write_each (write_entry k v (marshal_value p k) (marshal_value p v)) m) m h.0
        (rounds-insert k v (marshal_value p k) (marshal_value p v) (demarshal_value p k)
          (demarshal_value p v) m []
          (Each-map m (λ e g. (read_back k s.0 e.0 g.0, read_back v s.1 e.1 g.1)) h.1) h.2)

  -- Whatever follows it in the stream, a valid value of a supported type is read back as it was
  -- written, and the stream is left at what follows.
  pub demarshal_value-marshal_value :
      (t : Ty) (x : Val t) (rest : List ℕ)
      → IsSupported t
      → IsValid t x
      → demarshal_value p t (fresh t) (marshal_value p t x ++ rest) ≡ some (x, rest)
  demarshal_value-marshal_value t x rest s h = read_back t s x h rest

  -- A vector that is read into keeps its old elements, and the decoded ones follow them.
  pub demarshal_value-append :
      (t : Ty) (xs old : List (Val t)) (rest : List ℕ)
      → IsSupported (vector t)
      → IsValid (vector t) xs
      → demarshal_value p (vector t) old (marshal_value p (vector t) xs ++ rest)
        ≡ some (old ++ xs, rest)
  unfolding demarshal_value marshal_value
  demarshal_value-append (scalar n) xs old rest s h =
      read_vector (scalar n) (marshal_value p (scalar n)) (demarshal_value p (scalar n)) xs old h.0
        (Each-map xs (read_back (scalar n) s) h.1) rest
  demarshal_value-append text xs old rest s h =
      read_vector text (marshal_value p text) (demarshal_value p text) xs old h.0
        (Each-map xs (read_back text s) h.1) rest
  demarshal_value-append (vector t) xs old rest s h =
      read_vector (vector t) (marshal_value p (vector t)) (demarshal_value p (vector t)) xs old h.0
        (Each-map xs (read_back (vector t) s) h.1) rest
  demarshal_value-append (dict k v) xs old rest s h = elim s [ ]
