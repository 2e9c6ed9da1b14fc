-- ===== src/Sockets/Peers.antt =====
-- Which peer a removal takes.
use debianbox.Base.{
  ℕ, ◌≡◌, refl, ap, arith, List, [], ◌∷◌, ◌++◌, some, Bool, true, false, ◌==◌, ==_iff,
  if◌then◌else◌,
}
use debianbox.Sockets.{
  PeerInfo, SocketInfo, same_text, is_empty, find_if, erase_if, remove_by_fd, drop_peer,
}

pub same_text_refl : (xs : List ℕ) → same_text xs xs ≡ true
unfolding same_text
same_text_refl [] = refl
same_text_refl (x ∷ xs) = ground (arith, same_text_refl xs)

-- No entry passes the test.
abbrev pub None {ℓ} : {A : Type ℓ} → (A → Bool) → List A → Type 0
None test [] = Unit {0}
None test (x ∷ xs) = (test x ≡ false) × None test xs

erase_if-append {ℓ} :
    {A : Type ℓ} (test : A → Bool) (xs : List A) (x : A) (ys : List A)
    → None test xs
    → test x ≡ true
    → erase_if test (xs ++ x ∷ ys) ≡ xs ++ ys
unfolding erase_if
erase_if-append test [] x ys n h = rw h
erase_if-append test (y ∷ xs) x ys n h = rw (n.0) (ap (◌∷◌ y) (erase_if-append test xs x ys n.1 h))

find_if-append {ℓ} :
    {A : Type ℓ} (test : A → Bool) (xs : List A) (x : A) (ys : List A)
    → None test xs
    → test x ≡ true
    → find_if test (xs ++ x ∷ ys) ≡ some x
unfolding find_if
find_if-append test [] x ys n h = rw h
find_if-append test (y ∷ xs) x ys n h = rw n.0 (find_if-append test xs x ys n.1 h)

-- `remove_by_fd` takes the first peer on the descriptor, returns it, keeps the others in their order,
-- and clears the flag if none is left.
pub remove_by_fd_lem :
    (s : SocketInfo) (before after : List PeerInfo) (p : PeerInfo)
    → s.peers ≡ before ++ p ∷ after
    → None (λ q. q.peer_fd == p.peer_fd) before
    → ((remove_by_fd p.peer_fd s).0 ≡ some p)
      × ((remove_by_fd p.peer_fd s).1 ≡ record s {
        peers = before ++ after;
        connected = if is_empty (before ++ after) then false else s.connected;
      })
unfolding remove_by_fd drop_peer
remove_by_fd_lem s before after p e n = (
  rw e (find_if-append _ before p after n ((==_iff _ _).1 refl)),
  rw (e, erase_if-append (λ q. q.peer_fd == p.peer_fd) before p after n ((==_iff _ _).1 refl)),
)
