-- ===== src/Channel/Histories.antt =====
-- Histories of the channels of libhdk/channel/channel.cpp.
use debianbox.Base.{
  some_eq, none-ne, ℕ, ◌≡◌, subst, arith, List, [], ◌∷◌, Option, none, some, Option-cases, inl, inr,
}
use debianbox.Channel.{
  ImplKind, local, Channels, find, count, construct, copy, move, destroy, make, get,
}
use debianbox.Channel.Lifetime.{
  IsCoherent, construct-IsCoherent, copy-IsCoherent, move-IsCoherent, destroy-IsCoherent,
  make-IsCoherent, get-IsCoherent,
}

-- Each call has the address of the channel that it constructs, or destroys, last.
pub data ChannelCall : Type 0 where
  nulls destroys : ℕ → ChannelCall
  copies moves : ℕ → ℕ → ChannelCall
  makes : ImplKind → List ℕ → ℕ → ChannelCall
  gets : List ℕ → ℕ → ChannelCall

unfoldable pub call : ChannelCall → Channels → Option Channels
unfolding construct copy move destroy make get
call (nulls c) s = some (construct c none s)
call (destroys c) s = destroy c s
call (copies from c) s = copy from c s
call (moves from c) s = move from c s
call (makes kind n c) s = some (make kind n c s)
call (gets n c) s = some (get n c s)

unfoldable pub run : List ChannelCall → Channels → Option Channels
unfolding call
run [] s = some s
run (e ∷ es) s = elim (call e s) [ none ↦ none | some t ↦ run es t ]

abbrev pub start : Channels
start = record {
  handles = [];
  impls = λ i. record { name = []; kind = local };
  g_channels = [];
  next = 0;
}

call-IsCoherent :
    (e : ChannelCall) (s t : Channels) → call e s ≡ some t → IsCoherent s → IsCoherent t
unfolding call
call-IsCoherent (nulls c) s t e h =
    subst IsCoherent (some_eq (construct c none s) t e)
      (construct-IsCoherent c none s h (λ i l. absurd (omega (arith, l))))
call-IsCoherent (destroys c) s t e h = destroy-IsCoherent c s t e h
call-IsCoherent (copies from c) s t e h = copy-IsCoherent from c s t e h
call-IsCoherent (moves from c) s t e h = move-IsCoherent from c s t e h
call-IsCoherent (makes kind n c) s t e h =
    subst IsCoherent (some_eq (make kind n c s) t e) (make-IsCoherent kind n c s h)
call-IsCoherent (gets n c) s t e h =
    subst IsCoherent (some_eq (get n c s) t e) (get-IsCoherent n c s h)

-- After any sequence of constructions, copies, moves, calls of `make` and `get`, and destructions,
-- each on channels that are there, a name stands in the registry exactly for the implementation of
-- that name that some channel holds.
pub run-IsCoherent :
    (es : List ChannelCall) (s t : Channels) → run es s ≡ some t → IsCoherent s → IsCoherent t
unfolding run
run-IsCoherent [] s t e h = subst IsCoherent (some_eq s t e) h
run-IsCoherent (c ∷ es) s t e h = elim (Option-cases (call c s)) [
  | inl gone ↦ absurd (none-ne t (rw (gone, run) at e))
  | inr (u, went) ↦ run-IsCoherent es u t (rw (went, run) at e) (call-IsCoherent c s u went h)
]

-- At the start there is neither a name nor a channel.
pub start-IsCoherent : IsCoherent start
unfolding find count
start-IsCoherent = ((λ n i e. cc), (λ i l. absurd (omega (arith, l))))
