-- ===== src/Channel.antt =====
-- libhdk/channel/channel.cpp and channel.hpp with channel_impl.cpp and channel_impl_local.cpp: the
-- objects of class `channel`, the implementations that they share, and the registry of names. The
-- lifetime of an implementation is the count of the channels that hold it.
pub mod Names
pub mod Counts
pub mod Lifetime
pub mod Histories
pub mod Lookup
pub mod Sending
mod Tests
use debianbox.Base.{
  ℕ, suc, ◌+◌, List, [], ◌∷◌, Option, none, some, Bool, true, false, ◌==◌, if◌then◌else◌,
}
use debianbox.Sockets.{same_text}
use debianbox.Poller.{Frame}
use debianbox.Poller.Routing.{send_frames}

-- The implementations; a ZeroMQ one has the address that it binds or connects to, and the
-- `socket_info_zmq` that the poller made for it.
pub data ImplKind : Type 0 where
  local : ImplKind
  client_zmq server_zmq : List ℕ → ℕ → ImplKind

pub record Impl : Type 0 where
  pub name : List ℕ
  pub kind : ImplKind

-- `handles` has the channel objects by address, each with its `m_impl`; `g_channels` holds weak
-- pointers; `impls` what every implementation so far was made with, and `next` numbers them.
pub record Channels : Type 0 where
  pub handles : List (ℕ × Option ℕ)
  pub impls : ℕ → Impl
  pub g_channels : List (List ℕ × ℕ)
  pub next : ℕ

-- `g_channels.find(name)`, `insert` of a name that is not there, and `erase`.
unfoldable pub find : List ℕ → List (List ℕ × ℕ) → Option ℕ
unfolding same_text
find n [] = none
find n ((m, i) ∷ rest) = if same_text m n then some i else find n rest

unfoldable pub erase : List ℕ → List (List ℕ × ℕ) → List (List ℕ × ℕ)
unfolding same_text
erase n [] = []
erase n ((m, i) ∷ rest) = if same_text m n then erase n rest else (m, i) ∷ erase n rest

-- Whether an `m_impl` is the implementation `i`, as a number, and `use_count`.
abbrev pub points : ℕ → Option ℕ → ℕ
points i none = 0
points i (some j) = if j == i then 1 else 0

unfoldable pub count : ℕ → List (ℕ × Option ℕ) → ℕ
count i [] = 0
count i ((c, m) ∷ rest) = points i m + count i rest

-- The `m_impl` of the channel at an address, if there is a channel.
unfoldable pub m_impl : ℕ → List (ℕ × Option ℕ) → Option (Option ℕ)
m_impl c [] = none
m_impl c ((d, m) ∷ rest) = if d == c then some m else m_impl c rest

unfoldable pub set_impl : ℕ → Option ℕ → List (ℕ × Option ℕ) → List (ℕ × Option ℕ)
set_impl c m [] = []
set_impl c m ((d, k) ∷ rest) = if d == c then (d, m) ∷ rest else (d, k) ∷ set_impl c m rest

unfoldable pub drop_handle : ℕ → List (ℕ × Option ℕ) → List (ℕ × Option ℕ)
drop_handle c [] = []
drop_handle c ((d, m) ∷ rest) = if d == c then rest else (d, m) ∷ drop_handle c rest

-- A channel is constructed at an address.
unfoldable pub construct : ℕ → Option ℕ → Channels → Channels
construct c m s = record s { handles = (c, m) ∷ s.handles }

-- `channel(const channel&)`; `none` is a channel that is not there.
unfoldable pub copy : ℕ → ℕ → Channels → Option Channels
unfolding m_impl construct
copy from c s = elim (m_impl from s.handles) [ none ↦ none | some m ↦ some (construct c m s) ]

-- `channel(channel&&)`.
unfoldable pub move : ℕ → ℕ → Channels → Option Channels
unfolding m_impl set_impl construct
move from c s = elim (m_impl from s.handles) [
  | none ↦ none
  | some m ↦ some (construct c m (record s { handles = set_impl from none s.handles }))
]

-- The name goes with the last channel; the null pointer has a count of 0.
unfoldable pub release_name : Option ℕ → Channels → Channels
unfolding count erase
release_name none s = s
release_name (some i) s =
    if count i s.handles == 1
    then record s { g_channels = erase (s.impls i).name s.g_channels }
    else s

abbrev pub drop_channel : ℕ → Channels → Channels
drop_channel c s = record s { handles = drop_handle c s.handles }

-- `~channel`, and the pointer that goes with the object.
unfoldable pub destroy : ℕ → Channels → Option Channels
unfolding m_impl drop_handle release_name
destroy c s = elim (m_impl c s.handles) [
  | none ↦ none
  | some m ↦ some (drop_channel c (release_name m s))
]

-- The two assignments.
unfoldable pub assign : ℕ → ℕ → Channels → Option Channels
unfolding m_impl set_impl
assign c from s = elim (m_impl from s.handles) [
  | none ↦ none
  | some m ↦ some (record s { handles = set_impl c m s.handles })
]

unfoldable pub move_assign : ℕ → ℕ → Channels → Option Channels
unfolding m_impl set_impl
move_assign c from s = elim (m_impl from s.handles) [
  | none ↦ none
  | some m ↦ some (record s { handles = set_impl from none (set_impl c m s.handles) })
]

abbrev pub store : ℕ → Impl → (ℕ → Impl) → ℕ → Impl
store i x f j = if i == j then x else f j

-- `std::make_shared`, and `g_channels.insert` of the new implementation.
abbrev pub made : ImplKind → List ℕ → Channels → Channels
made kind name s = record s {
  impls = store s.next (record { name = name; kind = kind }) s.impls;
  g_channels = (name, s.next) ∷ s.g_channels;
  next = suc s.next;
}

-- `make_client_zmq`, `make_server_zmq` and `make_local`.
unfoldable pub make : ImplKind → List ℕ → ℕ → Channels → Channels
unfolding find construct
make kind name c s = elim (find name s.g_channels) [
  | some i ↦ construct c none s
  | none ↦ construct c (some s.next) (made kind name s)
]

-- `weak_ptr::lock`.
unfoldable pub lock : Option ℕ → List (ℕ × Option ℕ) → Option ℕ
unfolding count
lock none handles = none
lock (some i) handles = if count i handles == 0 then none else some i

-- `channel::get`.
unfoldable pub get : List ℕ → ℕ → Channels → Channels
unfolding find lock construct
get name c s = construct c (lock (find name s.g_channels) s.handles) s

-- `channel::valid`.
unfoldable pub valid : ℕ → Channels → Option Bool
unfolding m_impl
valid c s = elim (m_impl c s.handles) [
  | none ↦ none
  | some none ↦ some false
  | some (some i) ↦ some true
]
