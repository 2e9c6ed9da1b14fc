-- ===== src/Threads/Sleep.antt =====
-- libhdk/async/async_sleep.hpp, on the readings of `steady_clock::now`, first at the start and then in
-- each round of the loop. The comparison of two readings with the time to sleep, which the code makes
-- in floating point, is a parameter.
use debianbox.Base.{
  ℕ, suc, ◌≡◌, List, [], ◌∷◌, ◌++◌, Option, none, some, Bool, true, false, length, if◌then◌else◌,
  Each,
}

module _ (elapsed : ℕ → ℕ → Bool) where
  -- How often `ctx.poll()` is called from here on; `none` if the readings end before the loop does.
  unfoldable pub polls : ℕ → List ℕ → Option ℕ
  polls begun [] = none
  polls begun (cur ∷ readings) =
      let rest = polls begun readings in
      if elapsed begun cur then some 1 else elim rest [ none ↦ none | some n ↦ some (suc n) ]

  -- `async_sleep`.
  unfoldable pub async_sleep : List ℕ → Option ℕ
  unfolding polls
  async_sleep [] = none
  async_sleep (begun ∷ readings) = polls begun readings

  -- The io_context is polled once for every reading up to the first by which the time has elapsed,
  -- and then the sleep ends.
  pub async_sleep_lem :
      (begun cur : ℕ) (early late : List ℕ)
      → Each (λ r. elapsed begun r ≡ false) early
      → elapsed begun cur ≡ true
      → async_sleep (begun ∷ early ++ cur ∷ late) ≡ some (suc (length early))
  unfolding async_sleep polls
  async_sleep_lem begun cur [] late e h = rw h
  async_sleep_lem begun cur (r ∷ early) late e h =
      rw (e.0, async_sleep_lem begun cur early late e.1 h)
