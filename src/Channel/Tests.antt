-- ===== src/Channel/Tests.antt =====
-- Runs of the channels, and the theorems about them at inputs.
use debianbox.Base.{◌≡◌, refl, arith, [], ◌∷◌, none, some, false}
use debianbox.Poller.Routing.{send_frames}
use debianbox.Channel.{
  local, server_zmq, Channels, count, m_impl, construct, assign, make, get, valid, store,
}
use debianbox.Channel.Lifetime.{IsCoherent}
use debianbox.Channel.Histories.{
  makes, gets, copies, destroys, run, start, run-IsCoherent, start-IsCoherent,
}
use debianbox.Channel.Lookup.{make-held, assign-stale}
use debianbox.Channel.Sending.{written, send_current, impl_send, send_current_lem}

-- The implementation 0, "a", at two channels; the implementation 1, "b", at one.
abbrev two : Channels
two = record {
  handles = (7, some 1) ∷ (6, some 0) ∷ (5, some 0) ∷ [];
  impls =
      store 1 (record { name = 98 ∷ []; kind = local })
        (store 0 (record { name = 97 ∷ []; kind = server_zmq (42 ∷ []) 100 }) start.impls);
  g_channels = (98 ∷ [], 1) ∷ (97 ∷ [], 0) ∷ [];
  next = 2;
}

two_lem :
    run
      (makes (server_zmq (42 ∷ []) 100) (97 ∷ []) 5
        ∷ gets (97 ∷ []) 6
        ∷ makes local (98 ∷ []) 8
        ∷ copies 8 7
        ∷ destroys 8
        ∷ [])
      start
    ≡ some two
unfolding run
two_lem = refl

run-IsCoherent_example : IsCoherent two
run-IsCoherent_example = run-IsCoherent _ start two two_lem start-IsCoherent

make-held_example :
    (make local (98 ∷ []) 9 two ≡ construct 9 none two)
    × (valid 9 (make local (98 ∷ []) 9 two) ≡ some false)
unfolding count
make-held_example =
    make-held local 9 1 two (run-IsCoherent _ start two two_lem start-IsCoherent) (omega arith)

assign-stale_example :
    (t : Channels) × (assign 7 6 two ≡ some t)
    × (count 1 t.handles ≡ 0)
    × (valid 9 (make local (98 ∷ []) 9 t) ≡ some false)
    × (valid 9 (get (98 ∷ []) 9 t) ≡ some false)
unfolding m_impl count
assign-stale_example =
    assign-stale local 7 6 9 1 (some 0) two (run-IsCoherent _ start two two_lem start-IsCoherent)
      refl refl refl refl

send_current_lem_example :
    send_current (λ i. []) 9 (1 ∷ 2 ∷ []) (97 ∷ []) 7 (3 ∷ []) two
    ≡ some (written (send_frames [] 100 (1 ∷ 2 ∷ []) 7 (3 ∷ [])), two)
unfolding count impl_send
send_current_lem_example =
    send_current_lem (λ i. []) 9 0 (1 ∷ 2 ∷ []) (3 ∷ []) 7 two
      (run-IsCoherent _ start two two_lem start-IsCoherent) (omega arith)
