-- ===== src/Poller/Pairs/Items.antt =====
-- What the poll items of socket_poller_zmq.cpp, in pairs, are after a pair has come or gone.
use debianbox.Base.{
  ℕ, suc, ◌<◌, ◌≡◌, ◌≢◌, refl, arith, List, [], ◌∷◌, ◌++◌, Option, none, some, Bool-cases, inl, inr,
  ◌==◌, map,
}
use debianbox.Sockets.{SocketInfo}
use debianbox.Poller.{PollItem}
use debianbox.Poller.Control.{erase_items, keep_item}
use debianbox.Poller.Items.{ne-==}
use debianbox.Poller.Pairs.{ApartPairs, Apart, Fits, AllFit, Pairs, Shape}

-- More numbers are used.
Pairs-suc : (next : ℕ) (handles : List ℕ) → Pairs next handles → Pairs (suc next) handles
Pairs-suc next [] h = tt
Pairs-suc next (k ∷ []) h = h
Pairs-suc next (k ∷ m ∷ rest) h = (h.0, omega (arith, h.1), Pairs-suc next rest h.2)

pub Shape-suc :
    (own : ℕ × ℕ) (next : ℕ) (handles : List ℕ)
    → Shape own next handles
    → Shape own (suc next) handles
Shape-suc own next [] h = h
Shape-suc own next (k ∷ []) h = h
Shape-suc own next (k ∷ m ∷ rest) h =
    (omega (arith, h.0), omega (arith, h.1), Pairs-suc next rest h.2, h.3, h.4, h.5)

Fits-suc :
    (handles : List ℕ) (next : ℕ) (o m : Option ℕ)
    → Fits handles next o m
    → Fits handles (suc next) o m
Fits-suc handles next none m f = tt
Fits-suc handles next (some h) m f = (omega (arith, f.0), f.1, f.2)

pub AllFit-suc :
    (handles : List ℕ) (next : ℕ) (sockets : List (ℕ × SocketInfo))
    → AllFit handles next sockets
    → AllFit handles (suc next) sockets
AllFit-suc handles next [] f = tt
AllFit-suc handles next ((a, s) ∷ rest) f =
    (Fits-suc handles next s.zmq_socket s.zmq_monitor f.0, AllFit-suc handles next rest f.1)

-- The records fit other items.
pub AllFit-items :
    (handles handles' : List ℕ) (next : ℕ) (sockets : List (ℕ × SocketInfo))
    → ((h : ℕ) → h < next → Apart h handles → Apart h handles')
    → AllFit handles next sockets
    → AllFit handles' next sockets
AllFit-items handles handles' next [] k f = tt
AllFit-items handles handles' next ((a, s) ∷ rest) k f =
    (fits s.zmq_socket s.zmq_monitor f.0, AllFit-items handles handles' next rest k f.1)
  where
    fits : (o m : Option ℕ) → Fits handles next o m → Fits handles' next o m
    fits none m g = tt
    fits (some h) m g = (g.0, k h g.0 g.1, g.2)

-- A new socket and its monitor come behind the others.
abbrev pub with_pair : ℕ → List ℕ → List ℕ
with_pair next handles = handles ++ next ∷ suc next ∷ []

Pairs-with_pair :
    (next : ℕ) (handles : List ℕ)
    → Pairs next handles
    → Pairs (suc (suc next)) (with_pair next handles)
Pairs-with_pair next [] h = (refl, omega arith, tt)
Pairs-with_pair next (k ∷ []) h = absurd h
Pairs-with_pair next (k ∷ m ∷ rest) h = (h.0, omega (arith, h.1), Pairs-with_pair next rest h.2)

pub Shape-with_pair :
    (own : ℕ × ℕ) (next : ℕ) (handles : List ℕ)
    → Shape own next handles
    → Shape own (suc (suc next)) (with_pair next handles)
Shape-with_pair own next [] h = absurd h
Shape-with_pair own next (k ∷ []) h = absurd h
Shape-with_pair own next (k ∷ m ∷ rest) h =
    (omega (arith, h.0), omega (arith, h.1), Pairs-with_pair next rest h.2, h.3, h.4, h.5)

ApartPairs-with_pair :
    (h next : ℕ) (handles : List ℕ)
    → suc next ≢ h
    → Pairs next handles
    → ApartPairs h handles
    → ApartPairs h (with_pair next handles)
ApartPairs-with_pair h next [] ne p a = (ne, tt)
ApartPairs-with_pair h next (k ∷ []) ne p a = absurd p
ApartPairs-with_pair h next (k ∷ m ∷ rest) ne p a =
    (a.0, ApartPairs-with_pair h next rest ne p.2 a.1)

pub Apart-with_pair :
    (own : ℕ × ℕ) (h next : ℕ) (handles : List ℕ)
    → suc next ≢ h
    → Shape own next handles
    → Apart h handles
    → Apart h (with_pair next handles)
Apart-with_pair own h next [] ne p a = absurd p
Apart-with_pair own h next (k ∷ []) ne p a = absurd p
Apart-with_pair own h next (k ∷ m ∷ rest) ne p a =
    (a.0, a.1, ApartPairs-with_pair h next rest ne p.2 a.2)

below-ne : (m n : ℕ) → m < n → m ≢ n
below-ne m n l = ground arith

Pairs-ApartPairs : (next : ℕ) (handles : List ℕ) → Pairs next handles → ApartPairs next handles
Pairs-ApartPairs next [] p = tt
Pairs-ApartPairs next (k ∷ []) p = tt
Pairs-ApartPairs next (k ∷ m ∷ rest) p = (below-ne m next p.1, Pairs-ApartPairs next rest p.2)

-- A number that is not used is none of the items'.
pub Shape-Apart :
    (own : ℕ × ℕ) (next : ℕ) (handles : List ℕ) → Shape own next handles → Apart next handles
Shape-Apart own next [] p = tt
Shape-Apart own next (k ∷ []) p = tt
Shape-Apart own next (k ∷ m ∷ rest) p =
    (below-ne k next p.0, below-ne m next p.1, Pairs-ApartPairs next rest p.2)

abbrev pub handles_of : List PollItem → List ℕ
handles_of items = map (λ i. i.socket) items

-- The items of a socket go.
abbrev LeavesPairs : ℕ → List PollItem → Option (List PollItem) → Type 0
LeavesPairs next items none = Unit {0}
LeavesPairs next items (some left) =
    Pairs next (handles_of left)
    × ((h : ℕ) → ApartPairs h (handles_of items) → ApartPairs h (handles_of left))

abbrev pub LeavesShape : ℕ × ℕ → ℕ → List PollItem → Option (List PollItem) → Type 0
LeavesShape own next items none = Unit {0}
LeavesShape own next items (some left) =
    Shape own next (handles_of left)
    × ((h : ℕ) → Apart h (handles_of items) → Apart h (handles_of left))

keep-Pairs :
    (next : ℕ) (x y : PollItem) (items : List PollItem) (o : Option (List PollItem))
    → y.socket ≡ suc x.socket
    → y.socket < next
    → LeavesPairs next items o
    → LeavesPairs next (x ∷ y ∷ items) (keep_item x (keep_item y o))
keep-Pairs next x y items none e l k = tt
keep-Pairs next x y items (some left) e l k = ((e, l, k.0), λ h a. (a.0, k.1 h a.1))

keep-Shape :
    (own : ℕ × ℕ) (next : ℕ) (x y : PollItem) (items : List PollItem) (o : Option (List PollItem))
    → Shape own next (handles_of (x ∷ y ∷ items))
    → LeavesPairs next items o
    → LeavesShape own next (x ∷ y ∷ items) (keep_item x (keep_item y o))
keep-Shape own next x y items none s k = tt
keep-Shape own next x y items (some left) s k =
    ((s.0, s.1, k.0, s.3, s.4, s.5), λ h a. (a.0, a.1, k.1 h a.2))

erase-Pairs :
    (next h : ℕ) (items : List PollItem)
    → Pairs next (handles_of items)
    → ApartPairs h (handles_of items)
    → LeavesPairs next items (erase_items (some h) items)
unfolding erase_items
erase-Pairs next h [] p a = (tt, λ k b. b)
erase-Pairs next h (x ∷ []) p a = absurd p
erase-Pairs next h (x ∷ y ∷ items) p a = elim (Bool-cases (x.socket == h)) [
  | inl it ↦ rw it (p.2, λ k b. b.1)
  | inr other ↦
      rw (other, ne-== y.socket h a.0)
        (keep-Pairs next x y items (erase_items (some h) items) p.0 p.1
          (erase-Pairs next h items p.2 a.1))
]

erase-none : (items : List PollItem) → erase_items none items ≡ some items
unfolding erase_items
erase-none [] = refl
erase-none (x ∷ items) = rw (erase-none items)

pub erase-Shape :
    (own : ℕ × ℕ) (next : ℕ) (o m : Option ℕ) (items : List PollItem)
    → Shape own next (handles_of items)
    → Fits (handles_of items) next o m
    → LeavesShape own next items (erase_items o items)
unfolding erase_items
erase-Shape own next none m items p f = rw (erase-none items) (p, λ h a. a)
erase-Shape own next (some h) m [] p f = absurd p
erase-Shape own next (some h) m (x ∷ []) p f = absurd p
erase-Shape own next (some h) m (x ∷ y ∷ items) p f =
    rw (ne-== x.socket h f.1.0, ne-== y.socket h f.1.1)
      (keep-Shape own next x y items (erase_items (some h) items) p
        (erase-Pairs next h items p.2 f.1.2))
