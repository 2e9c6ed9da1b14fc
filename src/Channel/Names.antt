-- ===== src/Channel/Names.antt =====
-- The registry of names of libhdk/channel/channel.cpp, as a map.
use debianbox.Base.{
  clash, ℕ, ◌≡◌, ◌≢◌, refl, sym, ◌∙◌, ap₂, List, [], ◌∷◌, none, some, true, false, ◌==◌, ==_iff,
  Bool-cases, inl, inr, ◌⊎◌,
}
use debianbox.Sockets.{same_text}
use debianbox.Sockets.Peers.{same_text_refl}
use debianbox.Channel.{find, erase}

same_text_sound : (xs ys : List ℕ) → same_text xs ys ≡ true → xs ≡ ys
unfolding same_text
same_text_sound [] [] e = refl
same_text_sound [] (y ∷ ys) e = cc
same_text_sound (x ∷ xs) [] e = cc
same_text_sound (x ∷ xs) (y ∷ ys) e = elim (Bool-cases (x == y)) [
  | inl same ↦ ap₂ ◌∷◌ ((==_iff x y).0 same) (same_text_sound xs ys (rw same at e))
  | inr differs ↦ absurd (clash false (rw differs at e) refl)
]

pub same_text_differs : (xs ys : List ℕ) → xs ≢ ys → same_text xs ys ≡ false
same_text_differs xs ys ne = elim (Bool-cases (same_text xs ys)) [
  | inl same ↦ absurd (ne (same_text_sound xs ys same))
  | inr differs ↦ differs
]

pub find_here : (n : List ℕ) (i : ℕ) (rest : List (List ℕ × ℕ)) → find n ((n, i) ∷ rest) ≡ some i
unfolding find
find_here n i rest = rw (same_text_refl n)

pub find_past :
    (n m : List ℕ) (i : ℕ) (rest : List (List ℕ × ℕ)) → m ≢ n → find n ((m, i) ∷ rest) ≡ find n rest
unfolding find
find_past n m i rest ne = rw (same_text_differs m n ne)

pub find-erase : (n : List ℕ) (rest : List (List ℕ × ℕ)) → find n (erase n rest) ≡ none
unfolding find erase
find-erase n [] = refl
find-erase n ((m, i) ∷ rest) = elim (Bool-cases (same_text m n)) [
  | inl same ↦ rw same (find-erase n rest)
  | inr differs ↦ rw (differs, differs) (find-erase n rest)
]

pub find-erase_other :
    (n m : List ℕ) (rest : List (List ℕ × ℕ)) → m ≢ n → find n (erase m rest) ≡ find n rest
unfolding find erase
find-erase_other n m [] ne = refl
find-erase_other n m ((k, i) ∷ rest) ne = elim (Bool-cases (same_text k m)) [
  | inl same ↦ rw same (
      find-erase_other n m rest ne
      ∙ sym (find_past n k i rest (λ e. ne (sym (same_text_sound k m same) ∙ e))))
  | inr differs ↦ rw differs (elim (Bool-cases (same_text k n)) [
    | inl here ↦ rw here
    | inr past ↦ rw past (find-erase_other n m rest ne)
  ])
]

pub text-cases : (xs ys : List ℕ) → (xs ≡ ys) ⊎ (xs ≢ ys)
text-cases xs ys = elim (Bool-cases (same_text xs ys)) [
  | inl same ↦ inl (same_text_sound xs ys same)
  | inr differs ↦ inr (λ e. clash (same_text xs ys) (rw e (same_text_refl ys)) differs)
]
