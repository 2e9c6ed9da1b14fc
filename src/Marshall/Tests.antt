-- ===== src/Marshall/Tests.antt =====
-- Runs of the serialisation, and the theorems about it at inputs.
use debianbox.Base.{ℕ, ◌≡◌, refl, arith, List, [], ◌∷◌, ◌++◌, some}
use debianbox.Marshall.{
  Ty, scalar, text, vector, dict, Val, Vals, first_to_last, last_to_first, marshal_value,
  demarshal_value, marshal, demarshal,
}
use debianbox.Marshall.Roundtrip.{demarshal_value-marshal_value, IsValid}
use debianbox.Marshall.Plain.{plain, host}
use debianbox.Marshall.Buffer.{from_byte_array}
use debianbox.Marshall.Canonical.{IsBytes}
use debianbox.Marshall.Canonical.Messages.{marshal-demarshal}
use debianbox.Marshall.Message.{demarshal-other_order, AreValid}

-- `std::map<uint16_t, std::vector<std::string>>`.
abbrev names_type : Ty
names_type = dict (scalar 2) (vector text)

abbrev names : Val names_type
names = (3, (65 ∷ 66 ∷ []) ∷ [] ∷ []) ∷ (700, []) ∷ []

names-IsValid : IsValid host names_type names
names-IsValid = (omega arith, omega arith, (((refl, refl), tt), (tt, tt)))

marshal_text :
    marshal_value host text (104 ∷ 105 ∷ []) ≡ 2 ∷ 0 ∷ 0 ∷ 0 ∷ 0 ∷ 0 ∷ 0 ∷ 0 ∷ 104 ∷ 105 ∷ []
unfolding marshal_value
marshal_text = refl

demarshal_value-marshal_value_example :
    demarshal_value host names_type [] (marshal_value host names_type names ++ 9 ∷ [])
    ≡ some (names, 9 ∷ [])
demarshal_value-marshal_value_example =
    demarshal_value-marshal_value host names_type names (9 ∷ []) (tt, tt) names-IsValid

abbrev person : List Ty
person = scalar 4 ∷ text ∷ names_type ∷ []

abbrev ada : Vals person
ada = (36, (65 ∷ 100 ∷ 97 ∷ [], (names, tt)))

ada-AreValid : AreValid host person ada
ada-AreValid = (omega arith, (omega arith, (names-IsValid, tt)))

demarshal-other_order_example :
    demarshal host last_to_first
      (scalar 2 ∷ scalar 2 ∷ [])
      (0, (0, tt))
      (marshal host first_to_last (scalar 2 ∷ scalar 2 ∷ []) (1, (2, tt)))
    ≡ some ((2, (1, tt)), [])
demarshal-other_order_example = demarshal-other_order host 2 1 2 (omega arith) (omega arith)

-- Into a buffer that has the bytes 1, 2, 3 already.
overwritten : (from_byte_array plain (1 ∷ 2 ∷ 3 ∷ [], []) (8 ∷ 9 ∷ [])).0 ≡ 8 ∷ 9 ∷ 3 ∷ 0 ∷ 0 ∷ []
unfolding from_byte_array
overwritten = refl

-- A text of two characters and a vector of two numbers, from a sender that is not known, and a byte
-- that belongs to the next message.
abbrev arrived_bytes : List ℕ
arrived_bytes =
    2 ∷ 0 ∷ 0 ∷ 0 ∷ 0 ∷ 0 ∷ 0 ∷ 0 ∷ 104 ∷ 105 ∷ 2 ∷ 0 ∷ 0 ∷ 0 ∷ 0 ∷ 0 ∷ 0 ∷ 0 ∷ 7 ∷ 1 ∷ 8 ∷ 0 ∷ 255
    ∷ []

abbrev arrived_types : List Ty
arrived_types = text ∷ vector (scalar 2) ∷ []

abbrev arrived_members : Vals arrived_types
arrived_members = (104 ∷ 105 ∷ [], (263 ∷ 8 ∷ [], tt))

arrived_bytes-IsBytes : IsBytes arrived_bytes
arrived_bytes-IsBytes = ground arith

arrived_bytes-read :
    demarshal host first_to_last arrived_types ([], ([], tt)) arrived_bytes
    ≡ some (arrived_members, 255 ∷ [])
unfolding demarshal
arrived_bytes-read = refl

marshal-demarshal_example :
    AreValid host arrived_types arrived_members
    × (arrived_bytes ≡ marshal host first_to_last arrived_types arrived_members ++ 255 ∷ [])
marshal-demarshal_example =
    marshal-demarshal host first_to_last arrived_types arrived_bytes (255 ∷ []) arrived_members
      (tt, (tt, tt)) arrived_bytes-IsBytes arrived_bytes-read
