-- ===== src/Checksum/Tests.antt =====
-- Runs of the checksum functions, and the theorems about them at inputs.
use debianbox.Base.{
  ap, ℕ, ◌+◌, ◌^◌, ◌<◌, ◌≡◌, ◌≢◌, refl, arith, List, [], ◌∷◌, ◌++◌, some, none, length, leb,
  if◌then◌else◌, take,
}
use debianbox.Checksum.{
  Cursor, words, bytes, crc32, crc32_static, multi_0, multi_1, multi_2, multi_3, single,
}
use debianbox.Checksum.Laws.{reference, crc32-reference}
use debianbox.Checksum.Loops.{loops-lt}
use debianbox.Checksum.Detection.{Quad, crc32-burst}
use debianbox.Checksum.TypeId.{message_type_id, message_type_id-collision}
use debianbox.Checksum.Static.{crc32_static-crc32}

-- "123456789", the usual check value.
abbrev digits_text : List ℕ
digits_text = 49 ∷ 50 ∷ 51 ∷ 52 ∷ 53 ∷ 54 ∷ 55 ∷ 56 ∷ 57 ∷ []

check_value : crc32 digits_text 9 0 ≡ some 0xcbf4_3926
unfolding crc32 multi_0 multi_1 multi_2 multi_3
check_value = refl

check_value_static : crc32_static (digits_text ++ 0 ∷ []) 0xffff_ffff ≡ 0xcbf4_3926
unfolding crc32_static single
check_value_static = refl

past_the_end : crc32 digits_text 10 0 ≡ none
unfolding crc32 multi_0 multi_1 multi_2 multi_3
past_the_end = refl

crc32-reference_example :
    crc32 digits_text 7 0
    ≡ (if leb 7 (length digits_text) then some (reference 0 (take 7 digits_text)) else none)
crc32-reference_example = crc32-reference digits_text 7 0 (omega arith)

crc32_static-crc32_example :
    crc32 digits_text 9 0 ≡ some (crc32_static (digits_text ++ 0 ∷ []) 0xffff_ffff)
crc32_static-crc32_example = crc32_static-crc32 digits_text (omega arith)

loops-lt_example :
    (cur : Cursor) × (r : ℕ) × (words digits_text 7 5 ≡ some cur)
    × (bytes cur.current cur.left cur.crc ≡ some r)
    × (cur.left ≡ 3)
    × (length cur.current + 7 ≡ 9 + cur.left)
    × (cur.crc < 2 ^ 32)
    × (r < 2 ^ 32)
loops-lt_example = loops-lt digits_text 7 5 (omega arith) (omega arith) (omega arith)

abbrev four : Quad
four = record { first = 1; second = 2; third = 3; fourth = 4 }

abbrev swapped : Quad
swapped = record { first = 1; second = 3; third = 2; fourth = 4 }

crc32-burst_example :
    crc32 (7 ∷ 1 ∷ 2 ∷ 3 ∷ 4 ∷ digits_text) 14 0 ≢ crc32 (7 ∷ 1 ∷ 3 ∷ 2 ∷ 4 ∷ digits_text) 14 0
crc32-burst_example =
    crc32-burst (7 ∷ []) digits_text four swapped 0 (omega arith) (omega arith) (omega arith)
      (omega arith) (λ e. let f : 2 ≡ 3 = ap (λ k. k.second) e in omega arith)

-- The messages `bc { HDK_MARSHAL(a) }` and `c { HDK_MARSHAL(ab) }`.
message_type_id-collision_example :
    message_type_id (97 ∷ []) (98 ∷ 99 ∷ []) ≡ message_type_id (97 ∷ 98 ∷ []) (99 ∷ [])
message_type_id-collision_example =
    message_type_id-collision (97 ∷ []) (97 ∷ 98 ∷ []) (98 ∷ 99 ∷ []) (99 ∷ []) (omega arith)
      (omega arith) (omega arith) (omega arith) refl
