-- ===== src/Sockets/Connected.antt =====
-- The flag `connected` of a socket and its peers.
use debianbox.Base.{
  ℕ, ◌≡◌, refl, ◌↔◌, arith, List, [], ◌∷◌, ◌++◌, none, some, Bool, true, false, not,
}
use debianbox.Sockets.{
  PeerInfo, SocketInfo, is_empty, same_peer, find_if, erase_if, add, remove, remove_by_addr,
  remove_by_id, remove_by_fd, drop_peer,
}

-- A server's flag: set exactly while it has a peer.
abbrev pub IsConsistent : SocketInfo → Type 0
IsConsistent s = s.connected ≡ not (is_empty s.peers)

is_empty-append {ℓ} : {A : Type ℓ} (xs : List A) (x : A) → is_empty (xs ++ x ∷ []) ≡ false
is_empty-append [] x = refl
is_empty-append (y ∷ xs) x = refl

add-IsConsistent : (p : PeerInfo) (s : SocketInfo) → IsConsistent s → IsConsistent (add p s)
unfolding add
add-IsConsistent p s h = ground (arith, is_empty-append s.peers p)

erase_if_empty {ℓ} :
    {A : Type ℓ} (test : A → Bool) (xs : List A)
    → is_empty xs ≡ true
    → is_empty (erase_if test xs) ≡ true
unfolding erase_if
erase_if_empty test [] h = refl
erase_if_empty test (x ∷ xs) h = cc

drop_peer-IsConsistent :
    (test : PeerInfo → Bool) (s : SocketInfo) → IsConsistent s → IsConsistent (drop_peer test s)
unfolding drop_peer
drop_peer-IsConsistent test s h = ground (arith, erase_if_empty test s.peers)

-- What the poller does to the peers of a server.
pub data PeerCall : Type 0 where
  adds : PeerInfo → PeerCall
  removes_by_addr removes_by_id : List ℕ → PeerCall
  removes_by_fd : ℕ → PeerCall

pub apply : PeerCall → SocketInfo → SocketInfo
apply (adds p) s = add p s
apply (removes_by_addr a) s = remove_by_addr a s
apply (removes_by_id i) s = remove_by_id i s
apply (removes_by_fd fd) s = (remove_by_fd fd s).1

pub run : List PeerCall → SocketInfo → SocketInfo
unfolding apply
run [] s = s
run (c ∷ cs) s = run cs (apply c s)

apply-IsConsistent : (c : PeerCall) (s : SocketInfo) → IsConsistent s → IsConsistent (apply c s)
unfolding apply remove_by_addr remove_by_id remove_by_fd
apply-IsConsistent (adds p) s h = add-IsConsistent p s h
apply-IsConsistent (removes_by_addr a) s h = drop_peer-IsConsistent _ s h
apply-IsConsistent (removes_by_id i) s h = drop_peer-IsConsistent _ s h
apply-IsConsistent (removes_by_fd fd) s h = drop_peer-IsConsistent _ s h

-- After any sequence of additions and of removals by address, by id and by descriptor, the flag
-- is set exactly while there is a peer.
pub run-IsConsistent :
    (cs : List PeerCall) (s : SocketInfo) → IsConsistent s → IsConsistent (run cs s)
unfolding run
run-IsConsistent [] s h = h
run-IsConsistent (c ∷ cs) s h = run-IsConsistent cs (apply c s) (apply-IsConsistent c s h)

find_if_filled {ℓ} :
    {A : Type ℓ} (test : A → Bool) (xs : List A) → is_empty xs ≡ true → find_if test xs ≡ none
unfolding find_if
find_if_filled test [] h = refl
find_if_filled test (x ∷ xs) h = cc

-- `remove` does not reset the flag: on a consistent socket, what it leaves is consistent exactly
-- if a peer is left.
pub remove-IsConsistent_iff :
    (p : PeerInfo) (s s' : SocketInfo)
    → IsConsistent s
    → remove p s ≡ some s'
    → IsConsistent s' ↔ (is_empty s'.peers ≡ false)
unfolding remove
remove-IsConsistent_iff p s s' h e = ground (arith, find_if_filled (λ q. same_peer q p) s.peers)
