-- ===== src/Checksum/TypeId.antt =====
-- The type id that HDK_MARSHAL of libhdk/marshall/marshall_macro.hpp gives a message.
use debianbox.Base.{ℕ, ◌≡◌, ◌≢◌, refl, sym, ap, ◌∙◌, List, [], ◌∷◌, ◌++◌, Option, length}
use debianbox.Checksum.{crc32, crc32_static, get_type_id}
use debianbox.Checksum.Laws.{IsBytes}
use debianbox.Checksum.Static.{IsText, get_type_id_lem}
use debianbox.Checksum.Detection.{Quad, AreBytes, before, crc32-burst}

-- `get_type_id()`: `members` is the text of the macro's arguments, `type_name` that of `hdk::type_name`.
unfoldable pub message_type_id : List ℕ → List ℕ → Option ℕ
unfolding get_type_id crc32_static
message_type_id members type_name =
    get_type_id (type_name ++ 0 ∷ []) (crc32_static (members ++ 0 ∷ []) 0xffff_ffff)

whole :
    (members type_name text : List ℕ)
    → IsText members
    → IsText type_name
    → members ++ type_name ≡ text
    → message_type_id members type_name ≡ crc32 text (length text) 0
unfolding message_type_id
whole members type_name text hm hn e =
    get_type_id_lem members type_name hm hn ∙ ap (λ t. crc32 t (length t) 0) e

-- Two messages have one type id whenever the text of their members, followed by their name, is
-- the same, wherever the members end and the name begins.
pub message_type_id-collision :
    (members members' type_name type_name' : List ℕ)
    → IsText members
    → IsText members'
    → IsText type_name
    → IsText type_name'
    → members ++ type_name ≡ members' ++ type_name'
    → message_type_id members type_name ≡ message_type_id members' type_name'
message_type_id-collision members members' type_name type_name' hm hm' hn hn' e =
    whole members type_name _ hm hn e
    ∙ sym (whole members' type_name' (members' ++ type_name') hm' hn' refl)

-- Two messages whose member texts, followed by their names, differ in four characters in a row
-- and are the same before and after them, have different type ids.
pub message_type_id-burst :
    (members members' type_name type_name' front back : List ℕ) (q r : Quad)
    → IsText members
    → IsText members'
    → IsText type_name
    → IsText type_name'
    → IsBytes front
    → IsBytes back
    → AreBytes q
    → AreBytes r
    → q ≢ r
    → members ++ type_name ≡ front ++ before q back
    → members' ++ type_name' ≡ front ++ before r back
    → message_type_id members type_name ≢ message_type_id members' type_name'
message_type_id-burst members members' type_name type_name' front back q r hm hm' hn hn' hf hb hq hr
      differ e e' same =
    crc32-burst front back q r 0 hf hb hq hr differ (
      sym (whole members type_name (front ++ before q back) hm hn e)
      ∙ same
      ∙ whole members' type_name' (front ++ before r back) hm' hn' e')
