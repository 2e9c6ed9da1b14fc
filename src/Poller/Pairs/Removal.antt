-- ===== src/Poller/Pairs/Removal.antt =====
-- What closing and removing a socket does to the poll items of socket_poller_zmq.cpp.
use debianbox.Base.{
  ℕ, ◌≡◌, refl, sym, subst, List, [], ◌∷◌, Option, none, some, Bool-cases, inl, inr, ◌==◌, false,
}
use debianbox.Sockets.{SocketInfo}
use debianbox.Poller.{
  PollItem, Poller, M, skip, needs, find_info, info_at, put_info, store, ◌>>=◌, ◌>>◌,
}
use debianbox.Poller.Control.{
  release, erase_items, set_items, the_items, stop_monitor, remove_socket_info_zmq,
}
use debianbox.Poller.Pairs.{
  Fits, AllFit, Shape, Apart, IsPaired, Leads, Moves, Preserves, Any, bind-Moves, then-Moves,
  skip-Preserves,
}
use debianbox.Poller.Pairs.Handlers.{put_info-AllFit}
use debianbox.Poller.Pairs.Items.{AllFit-items, handles_of, LeavesShape, erase-Shape}
use debianbox.Poller.Pairs.Control.{
  At, At-Ignores, release-Preserves, stop-Preserves, store-Moves, At-IsPaired, end-Moves, if-Moves,
}

module _ (handles : List ℕ) (next : ℕ) where
  abbrev SocketFits : SocketInfo → Type 0
  SocketFits s = Fits handles next s.zmq_socket s.zmq_monitor

  found-Leads :
      (I : Poller → Type 0) (p : Poller) (a : ℕ) (sockets : List (ℕ × SocketInfo))
      → I p
      → AllFit handles next sockets
      → Leads I SocketFits (needs (find_info a sockets) p)
  unfolding find_info
  found-Leads I p a [] i f = tt
  found-Leads I p a ((b, s) ∷ rest) i f = elim (Bool-cases (b == a)) [
    | inl it ↦ rw it (i, f.0)
    | inr other ↦ rw other (found-Leads I p a rest i f.1)
  ]

needs-Leaves :
    (I : Poller → Type 0) (own : ℕ × ℕ) (next : ℕ) (items : List PollItem)
    (o : Option (List PollItem))
    → LeavesShape own next items o
    → Preserves I (λ left. LeavesShape own next items (some left)) (needs o)
needs-Leaves I own next items none l p i = tt
needs-Leaves I own next items (some left) l p i = (i, l)

module _ (own : ℕ × ℕ) (handles : List ℕ) (next : ℕ) (sockets : List (ℕ × SocketInfo))
    (shape : Shape own next handles) (fit : AllFit handles next sockets) where
  abbrev Here : Poller → Type 0
  Here = At own handles next sockets

  looks-Preserves : (a : ℕ) → Preserves Here (SocketFits handles next) (info_at a)
  unfolding info_at
  looks-Preserves a p i =
      found-Leads handles next Here p a p.sockets i (subst (AllFit handles next) (sym i.2) fit)

  items-Preserves : Preserves Here (λ items. handles_of items ≡ handles) the_items
  items-Preserves p i = (i, i.0)

  set-Moves :
      (left : List PollItem)
      → Moves Here (At own (handles_of left) next sockets) Any (set_items left)
  set-Moves left p i = ((refl, i.1, i.2, i.3), tt)

  abbrev closed : SocketInfo → SocketInfo
  closed s = record s { zmq_socket = none; zmq_monitor = none; connected = false; peers = [] }

  -- `remove_socket_info_zmq` from where the items are erased.
  abbrev give_up : ℕ → SocketInfo → M (Unit {0})
  give_up a s =
      stop_monitor s.zmq_socket
      >> (release s.zmq_monitor >> (release s.zmq_socket >> store a (closed s)))

  closed-IsPaired :
      (a : ℕ) (s : SocketInfo) (items left : List PollItem)
      → handles_of items ≡ handles
      → LeavesShape own next items (some left)
      → (p : Poller) → At own (handles_of left) next (put_info a (closed s) sockets) p
      → IsPaired p
  closed-IsPaired a s items left e l =
      At-IsPaired own (handles_of left) next (put_info a (closed s) sockets) l.0 (
        put_info-AllFit (handles_of left) next a (closed s) sockets tt (
          AllFit-items handles (handles_of left) next sockets
            (λ h b c. l.1 h (subst (Apart h) (sym e) c)) fit))

  give_up-Moves :
      (a : ℕ) (s : SocketInfo) (items left : List PollItem)
      → handles_of items ≡ handles
      → LeavesShape own next items (some left)
      → Moves (At own (handles_of left) next sockets) IsPaired Any (give_up a s)
  give_up-Moves a s items left e l =
      let stored : Moves (At own (handles_of left) next sockets) IsPaired Any (store a (closed s)) =
        end-Moves _ (At own (handles_of left) next (put_info a (closed s) sockets)) IsPaired
          (store a (closed s)) (closed-IsPaired a s items left e l)
          (store-Moves own (handles_of left) next sockets a (closed s)) in
      search (then-Moves, release-Preserves, stop-Preserves, At-Ignores, stored)

  abbrev erase_and_give_up : ℕ → SocketInfo → List PollItem → M (Unit {0})
  erase_and_give_up a s items = do
    left ← needs (erase_items s.zmq_socket items)
    set_items left
    give_up a s

  erase-Moves :
      (a : ℕ) (s : SocketInfo) (items : List PollItem)
      → SocketFits handles next s
      → handles_of items ≡ handles
      → Moves Here IsPaired Any (erase_and_give_up a s items)
  erase-Moves a s items f e =
      bind-Moves Here Here IsPaired (λ left. LeavesShape own next items (some left)) Any
        (needs (erase_items s.zmq_socket items)) (λ left. set_items left >> give_up a s)
        (needs-Leaves Here own next items (erase_items s.zmq_socket items) (
          erase-Shape own next s.zmq_socket s.zmq_monitor items
            (subst (Shape own next) (sym e) shape)
            (subst (λ w. Fits w next s.zmq_socket s.zmq_monitor) (sym e) f)))
        (λ left l.
          bind-Moves Here (At own (handles_of left) next sockets) IsPaired Any Any (set_items left)
            (λ u. give_up a s) (set-Moves left) (λ u v. give_up-Moves a s items left e l))

  pub remove-Moves : (a : ℕ) → Moves Here IsPaired Any (remove_socket_info_zmq a)
  unfolding remove_socket_info_zmq
  remove-Moves a =
      if-Moves Here IsPaired (a == 0) skip _
        (end-Moves _ Here IsPaired skip (At-IsPaired own handles next sockets shape fit)
          (skip-Preserves _))
        (bind-Moves Here Here IsPaired (SocketFits handles next) Any (info_at a) _
          (looks-Preserves a)
          (λ s f.
            bind-Moves Here Here IsPaired (λ items. handles_of items ≡ handles) Any the_items
              (erase_and_give_up a s) items-Preserves (λ items e. erase-Moves a s items f e)))
