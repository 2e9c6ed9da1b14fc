-- ===== src/Marshall/Buffer.antt =====
-- `to_byte_array` and `from_byte_array` of libhdk/marshall/marshal.hpp, over asio's `streambuf`, which
-- is a parameter: what its documentation says of it, and that the buffer of `data()` and the room of
-- `prepare` lie one behind the other in memory.
use debianbox.Base.{
  ℕ, zero, suc, ◌+◌, ◌≤◌, ◌≡◌, refl, sym, ap, ◌∙◌, arith, List, [], ◌∷◌, ◌++◌, length, take, drop,
  length-append,
}

-- `area` is the memory from the start of the input sequence on, as far as it is the buffer's, and
-- `size` the length of the input sequence. `put` is a write to an `ostream` over the buffer, and
-- `poke` a `memcpy` to `data().data()`.
pub record Streambuf : Type 1 where
  pub Buf : Type 0
  pub empty : Buf
  pub area : Buf → List ℕ
  pub size : Buf → ℕ
  pub prepare : ℕ → Buf → Buf
  pub commit : ℕ → Buf → Buf
  pub poke : List ℕ → Buf → Buf
  pub put : List ℕ → Buf → Buf

-- The input sequence.
abbrev pub input : (B : Streambuf) → B.Buf → List ℕ
input B b = take (B.size b) (B.area b)

pub record IsStreambuf (B : Streambuf) : Type 0 where
  pub size-empty : B.size B.empty ≡ 0
  pub input-put : (bs : List ℕ) (b : B.Buf) → input B (B.put bs b) ≡ input B b ++ bs
  pub size-prepare : (n : ℕ) (b : B.Buf) → B.size (B.prepare n b) ≡ B.size b
  pub room : (n : ℕ) (b : B.Buf) → B.size b + n ≤ length (B.area (B.prepare n b))
  pub size-poke : (bs : List ℕ) (b : B.Buf) → B.size (B.poke bs b) ≡ B.size b
  pub area-poke :
      (bs : List ℕ) (b : B.Buf)
      → length bs ≤ length (B.area b)
      → B.area (B.poke bs b) ≡ bs ++ drop (length bs) (B.area b)
  pub size-commit :
      (n : ℕ) (b : B.Buf) → B.size b + n ≤ length (B.area b) → B.size (B.commit n b) ≡ B.size b + n
  pub area-commit : (n : ℕ) (b : B.Buf) → B.area (B.commit n b) ≡ B.area b

module _ (B : Streambuf) where
  -- A vector of the buffer's size, and a `memcpy` into it.
  unfoldable pub to_byte_array : B.Buf → List ℕ
  to_byte_array b = take (B.size b) (B.area b)

  unfoldable pub from_byte_array : B.Buf → List ℕ → B.Buf
  from_byte_array b bytes = B.commit (length bytes) (B.poke bytes (B.prepare (length bytes) b))

length-drop :
    (bs cs : List ℕ) → length bs ≤ length cs → length bs + length (drop (length bs) cs) ≡ length cs
length-drop [] cs h = omega arith
length-drop (x ∷ bs) [] h = absurd (omega arith)
length-drop (x ∷ bs) (c ∷ cs) h = omega (arith, length-drop bs cs (omega arith))

take-twice : (n : ℕ) (cs : List ℕ) → take n (take n cs) ≡ take n cs
take-twice zero cs = refl
take-twice (suc n) [] = refl
take-twice (suc n) (c ∷ cs) = ap (◌∷◌ c) (take-twice n cs)

take-take : (bs cs : List ℕ) (m : ℕ) → length bs ≤ m → take (length bs) (take m (bs ++ cs)) ≡ bs
take-take [] cs m h = refl
take-take (x ∷ bs) cs zero h = absurd (omega arith)
take-take (x ∷ bs) cs (suc m) h = ap (◌∷◌ x) (take-take bs cs m (omega arith))

module _ (B : Streambuf) (law : IsStreambuf B) where
  open law use {
    size-prepare, room, size-poke, area-poke, size-commit, area-commit, size-empty, input-put,
  }

  -- The memory after the `memcpy` of `from_byte_array`.
  poked :
      (b : B.Buf) (bytes : List ℕ)
      → let p = B.prepare (length bytes) b in
        B.area (B.poke bytes p) ≡ bytes ++ drop (length bytes) (B.area p)
  poked b bytes =
      area-poke bytes (B.prepare (length bytes) b) (omega (arith, room (length bytes) b))

  fits :
      (b : B.Buf) (bytes : List ℕ)
      → let p = B.poke bytes (B.prepare (length bytes) b) in
        B.size p + length bytes ≤ length (B.area p)
  fits b bytes =
      let p = B.prepare (length bytes) b in
      let enough = room (length bytes) b in
      omega (
        arith,
        enough,
        size-poke bytes p,
        size-prepare (length bytes) b,
        ap length (poked b bytes),
        length-append bytes (drop (length bytes) (B.area p)),
        length-drop bytes (B.area p) (omega (arith, enough)),
      )

  size-from_byte_array :
      (b : B.Buf) (bytes : List ℕ) → B.size (from_byte_array B b bytes) ≡ B.size b + length bytes
  unfolding from_byte_array
  size-from_byte_array b bytes =
      size-commit (length bytes) (B.poke bytes (B.prepare (length bytes) b)) (fits b bytes)
      ∙ ap (λ n. n + length bytes)
          (size-poke bytes (B.prepare (length bytes) b) ∙ size-prepare (length bytes) b)

  -- `from_byte_array` makes the input longer by the bytes, but it writes them at its start, over
  -- what was there before.
  pub from_byte_array_lem :
      (b : B.Buf) (bytes : List ℕ)
      → (B.size (from_byte_array B b bytes) ≡ B.size b + length bytes)
        × (take (length bytes) (input B (from_byte_array B b bytes)) ≡ bytes)
  unfolding from_byte_array
  from_byte_array_lem b bytes =
      let p = B.prepare (length bytes) b in
      (
        size-from_byte_array b bytes,
        rw
            (
              size-from_byte_array b bytes,
              area-commit (length bytes) (B.poke bytes p),
              poked b bytes,
            )
            (take-take bytes (drop (length bytes) (B.area p)) (B.size b + length bytes)
              (omega arith)),
      )

  -- Into an empty buffer, `from_byte_array` puts exactly the bytes.
  pub input-from_byte_array : (bytes : List ℕ) → input B (from_byte_array B B.empty bytes) ≡ bytes
  input-from_byte_array bytes =
      let r = from_byte_array_lem B.empty bytes in
      let n : B.size (from_byte_array B B.empty bytes) ≡ length bytes =
        r.0 ∙ ap (λ k. k + length bytes) size-empty ∙ omega arith in
      ap (λ k. take k (B.area (from_byte_array B B.empty bytes))) n
      ∙ sym (take-twice (length bytes) (B.area (from_byte_array B B.empty bytes)))
      ∙ ap (λ k. take (length bytes) (take k (B.area (from_byte_array B B.empty bytes)))) (sym n)
      ∙ r.1

  -- What an `ostream` has written to an empty buffer is what `to_byte_array` gives.
  pub to_byte_array-put : (bytes : List ℕ) → to_byte_array B (B.put bytes B.empty) ≡ bytes
  unfolding to_byte_array
  to_byte_array-put bytes =
      input-put bytes B.empty ∙ ap (λ n. take n (B.area B.empty) ++ bytes) size-empty
