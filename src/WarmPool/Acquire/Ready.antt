-- ===== src/WarmPool/Acquire/Ready.antt =====
-- The end of `_wait_ready` (warm_pool.py): the marker of a new container, or the deadline.
use aw_app_agents_platform_r.Prelude.{
  ℕ, zero, suc, ◌+◌, ◌*◌, ◌≤◌, ◌≡◌, ◌≢◌, Option, none, some, arith,
}
use aw_app_agents_platform_r.Prelude.Texts.{Text}
use aw_app_agents_platform_r.WarmPool.Engine.{Container, Engine}
use aw_app_agents_platform_r.WarmPool.Acquire.{second, probe, probe_found, poll_ready, wait_ready}

-- What the standard library documents of the monotonic clock, in microseconds: no call turns it back,
-- and a sleep lasts at least as long as it is told.
pub record Ticks (E : Engine) : Type 0 where
  pub clock : E.World → ℕ
  pub read : (w : E.World) → (E.monotonic w).1 ≡ clock w
  pub after_monotonic : (w : E.World) → clock w ≤ clock (E.monotonic w).0
  pub after_get : (n : Text) (w : E.World) → clock w ≤ clock (E.get n w).0
  pub after_test_ready : (i : Text) (w : E.World) → clock w ≤ clock (E.test_ready i w).0
  pub after_sleep : (d : ℕ) (w : E.World) → clock w + d ≤ clock (E.sleep d w)

module _ (E : Engine) (T : Ticks E) where
  after_probe_found :
      (c : Option Container) (w : E.World) → T.clock w ≤ T.clock (probe_found E c w).0
  unfolding probe_found
  after_probe_found none w = omega arith
  after_probe_found (some c) w = T.after_test_ready c.id w

  after_probe : (name : Text) (w : E.World) → T.clock w ≤ T.clock (probe E name w).0
  unfolding probe
  after_probe name w =
      omega (arith, T.after_get name w, after_probe_found (E.get name w).1 (E.get name w).0)

  poll_ready-ends :
      (fuel : ℕ) (name : Text) (deadline : ℕ) (w : E.World)
      → deadline ≤ T.clock w + fuel * 300000
      → (poll_ready E (suc fuel) name deadline w).1 ≢ none
  unfolding poll_ready
  poll_ready-ends zero name deadline w h = ground (arith, T.read w)
  poll_ready-ends (suc fuel) name deadline w h =
      let (w1, now) = E.monotonic w in
      let (w2, ready) = probe E name w1 in
      ground (
        arith,
        T.after_monotonic w,
        after_probe name w1,
        T.after_sleep 300000 w2,
        poll_ready-ends fuel name deadline (E.sleep 300000 w2),
      )

  -- With a clock that no call turns back and sleeps that last as long as they are told, the wait for
  -- a new container ends within its 35 rounds: it sees the marker or meets its deadline.
  pub wait_ready-ends : (name : Text) (w : E.World) → (wait_ready E name w).1 ≢ none
  unfolding wait_ready
  wait_ready-ends name w =
      let (w1, now) = E.monotonic w in
      poll_ready-ends 34 name (now + 10 * second) w1 (omega (arith, T.read w, T.after_monotonic w))
