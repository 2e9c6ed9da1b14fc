-- ===== src/Checksum/Static.antt =====
-- The compile-time checksum against the one at run time, and the type id that joins the two.
use debianbox.Base.{
  ℕ, ◌/◌, ◌^◌, ◌<◌, ◌≡◌, refl, sym, ap, ◌∙◌, arith, List, [], ◌∷◌, ◌++◌, some, true, Each,
  Each-append, le→leb, length, take-length-append, leb, length-append,
}
use debianbox.Base.Bits.{◌^^◌, xor_ones}
use debianbox.Checksum.{crc32, crc32_static, low_byte, ◌>>>◌, single, multi_0, strlen, get_type_id}
use debianbox.Checksum.Polynomial.{tables_lem}
use debianbox.Checksum.Slicing.{fold_byte, one_byte, xor-parts, low_small}
use debianbox.Checksum.Laws.{
  IsBytes, fold_bytes, fold_bytes-lt, reference, reference-append, crc32-reference, crc32_whole,
}

module _ (h c : ℕ) (small : c < 256) where
  static_step-fold_byte : (h >>> 8) ^^ single (low_byte (h ^^ c)) ≡ fold_byte h c
  static_step-fold_byte =
      ap (λ (t : ℕ). (h >>> 8) ^^ t) (tables_lem (low_byte (h ^^ c)) (omega arith)).4
      ∙ ap (λ (t : ℕ). t ^^ multi_0 (low_byte (h ^^ c))) (sym upper)
      ∙ sym (one_byte (h ^^ c))
    where
      upper : (h ^^ c) / 2 ^ 8 ≡ h >>> 8
      upper = omega (arith, xor-parts h c small, low_small h c small)

static_loop :
    (s : List ℕ) (last h : ℕ)
    → IsBytes s
    → crc32_static (s ++ last ∷ []) h ≡ fold_bytes h s ^^ 0xffff_ffff
unfolding crc32_static fold_bytes
static_loop [] last h k = refl
static_loop (c ∷ []) last h k = ap (λ (t : ℕ). t ^^ 0xffff_ffff) (static_step-fold_byte h c k.0)
static_loop (c ∷ d ∷ s) last h k =
    ap (crc32_static (d ∷ s ++ last ∷ [])) (static_step-fold_byte h c k.0)
    ∙ static_loop (d ∷ s) last (fold_byte h c) k.1

-- On a string literal, its terminating null not counted, the checksum at compile time is the one
-- that `crc32` returns at run time, though one reads one table and the other four.
pub crc32_static-crc32 :
    (s : List ℕ) → IsBytes s → crc32 s (length s) 0 ≡ some (crc32_static (s ++ 0 ∷ []) 0xffff_ffff)
crc32_static-crc32 s h =
    crc32_whole s 0 h
    ∙ ap some (unfold reference in sym (static_loop s 0 0xffff_ffff h ∙ xor_ones 32 _ below))
  where
    below : fold_bytes 0xffff_ffff s < 2 ^ 32
    below = fold_bytes-lt 0xffff_ffff s (omega arith) h

abbrev pub IsText : List ℕ → Type 0
IsText = Each (λ c. (0 < c) × (c < 256))

IsText-IsBytes : (s : List ℕ) → IsText s → IsBytes s
IsText-IsBytes [] h = tt
IsText-IsBytes (c ∷ s) h = (h.0.1, IsText-IsBytes s h.1)

strlen_lem : (s : List ℕ) → IsText s → strlen (s ++ 0 ∷ []) ≡ length s
unfolding strlen
strlen_lem [] h = refl
strlen_lem (c ∷ s) h = ground (arith, strlen_lem s h.1)

-- The id of a message type is the checksum of its member list followed by its name, so two types
-- get one id whenever these two texts agree when put together.
pub get_type_id_lem :
    (members type_name : List ℕ)
    → IsText members
    → IsText type_name
    → get_type_id (type_name ++ 0 ∷ []) (crc32_static (members ++ 0 ∷ []) 0xffff_ffff)
      ≡ crc32 (members ++ type_name) (length (members ++ type_name)) 0
unfolding get_type_id
get_type_id_lem members type_name hm hn =
    ap (λ (n : ℕ). crc32 (type_name ++ 0 ∷ []) n previous) (strlen_lem type_name hn)
    ∙ crc32-reference (type_name ++ 0 ∷ []) (length type_name) previous bytes
    ∙ rw (in_range, take-length-append type_name (0 ∷ []))
        (ap (λ (t : ℕ). some (reference t type_name)) static_value
          ∙ ap some (reference-append 0 members type_name members_bytes)
          ∙ sym (crc32_whole (members ++ type_name) 0 both_bytes))
  where
    previous : ℕ
    previous = crc32_static (members ++ 0 ∷ []) 0xffff_ffff

    members_bytes : IsBytes members
    members_bytes = IsText-IsBytes members hm

    both_bytes : IsBytes (members ++ type_name)
    both_bytes = Each-append _ members type_name members_bytes (IsText-IsBytes type_name hn)

    bytes : IsBytes (type_name ++ 0 ∷ [])
    bytes = Each-append _ type_name (0 ∷ []) (IsText-IsBytes type_name hn) (omega arith)

    in_range : leb (length type_name) (length (type_name ++ 0 ∷ [])) ≡ true
    in_range = le→leb _ _ (omega (arith, length-append type_name (0 ∷ [])))

    static_value : previous ≡ reference 0 members
    static_value =
        cc (crc32_static-crc32 members members_bytes, crc32_whole members 0 members_bytes)
