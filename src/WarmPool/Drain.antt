-- ===== src/WarmPool/Drain.antt =====
-- warm_pool.py: `drain`, which runs on a thread of its own. It polls every 5 seconds for at most
-- DRAIN_COLLECT_S; times are in microseconds.
mod Tests
use aw_app_agents_platform_r.Prelude.{
  ℕ, zero, suc, ◌+◌, ◌*◌, ◌≤◌, ◌<◌, ◌≡◌, ◌≢◌, refl, ap, ◌∙◌, Bool, true, false, Option, none, some,
  arith, ltb, if◌then◌else◌, Bool-cases, Option-cases, inl, inr,
}
use aw_app_agents_platform_r.Prelude.Texts.{Text}
use aw_app_agents_platform_r.WarmPool.Engine.{Container, Engine, Lawful}
use aw_app_agents_platform_r.WarmPool.Acquire.{second}

-- DRAIN_COLLECT_S
abbrev drain_collect : ℕ
drain_collect = 900 * second

-- How a drain ends: the container is not there or its flag could not be touched, a later call raised,
-- the stopped container was removed, or it outlasts the deadline.
pub data Drained : Type 0 where
  not_flagged lost_sight collected outlasts out_of_rounds : Drained

module _ (E : Engine) where
  open E use {World, get, reload, remove, touch_drain, monotonic, sleep}

  collect_stopped : Text → World → World × Drained
  collect_stopped i w = let (w1, ok) = remove i w in (w1, if ok then collected else lost_sight)

  on_status : (World → World × Drained) → Option Container → Text → World → World × Drained
  unfolding collect_stopped
  on_status again none i w = (w, lost_sight)
  on_status again (some c) i w =
      let on = again w in let done = collect_stopped i w in if c.is_running then on else done

  -- The loop of `drain`.
  poll_drained : ℕ → Text → ℕ → World → World × Drained
  unfolding on_status
  poll_drained zero i deadline w = (w, out_of_rounds)
  poll_drained (suc fuel) i deadline w =
      let (w1, now) = monotonic w in
      let (w2, status) = reload i (sleep (5 * second) w1) in
      let round = on_status (poll_drained fuel i deadline) status i w2 in
      if ltb now deadline then round else (w1, outlasts)

  on_flagged : Text → Bool → World → World × Drained
  unfolding poll_drained
  on_flagged i false w = (w, not_flagged)
  on_flagged i true w = let (w1, now) = monotonic w in poll_drained 182 i (now + drain_collect) w1

  drain_found : Option Container → World → World × Drained
  unfolding on_flagged
  drain_found none w = (w, not_flagged)
  drain_found (some c) w = let (w1, ok) = touch_drain c.id w in on_flagged c.id ok w1

  -- `drain`
  pub drain : Text → World → World × Drained
  unfolding drain_found
  drain name w = let (w1, found) = get name w in drain_found found w1

  -- No call turns the monotonic clock back, and a sleep lasts as long as it is told.
  pub record DrainTicks : Type 0 where
    pub clock : World → ℕ
    pub read : (w : World) → (monotonic w).1 ≡ clock w
    pub after_monotonic : (w : World) → clock w ≤ clock (monotonic w).0
    pub after_reload : (i : Text) (w : World) → clock w ≤ clock (reload i w).0
    pub after_sleep : (d : ℕ) (w : World) → clock w + d ≤ clock (sleep d w)

  module _ (T : DrainTicks) where
    on_status-ends :
        (again : World → World × Drained) (o : Option Container) (i : Text) (w : World)
        → (again w).1 ≢ out_of_rounds
        → (on_status again o i w).1 ≢ out_of_rounds
    unfolding on_status collect_stopped
    on_status-ends again none i w h = λ e. cc
    on_status-ends again (some c) i w h = elim (Bool-cases c.is_running) [
      | inl up ↦ rw up h
      | inr down ↦ rw down (stops (remove i w).1)
    ]
      where
        stops : (b : Bool) → (if b then collected else lost_sight) ≢ out_of_rounds
        stops true e = cc
        stops false e = cc

    poll_drained-ends :
        (fuel : ℕ) (i : Text) (deadline : ℕ) (w : World)
        → deadline ≤ T.clock w + fuel * 5000000
        → (poll_drained (suc fuel) i deadline w).1 ≢ out_of_rounds
    unfolding poll_drained
    poll_drained-ends zero i deadline w h = elim (Bool-cases (ltb (monotonic w).1 deadline)) [
      | inr late ↦ rw late (λ e. cc)
      | inl early ↦ absurd (ground (arith, T.read w))
    ]
    poll_drained-ends (suc fuel) i deadline w h = elim (Bool-cases (ltb (monotonic w).1 deadline)) [
      | inr late ↦ rw late (λ e. cc)
      | inl early ↦
          let w1 = (monotonic w).0 in
          let (w2, status) = reload i (sleep (5 * second) w1) in
          rw early (
            on_status-ends (poll_drained (suc fuel) i deadline) status i w2 (
              poll_drained-ends fuel i deadline w2 (
                omega (
                  arith,
                  T.after_monotonic w,
                  T.after_sleep (5 * second) w1,
                  T.after_reload i (sleep (5 * second) w1),
                ))))
    ]

    on_flagged-ends : (i : Text) (b : Bool) (w : World) → (on_flagged i b w).1 ≢ out_of_rounds
    unfolding on_flagged
    on_flagged-ends i false w = λ e. cc
    on_flagged-ends i true w =
        let (w1, now) = monotonic w in
        poll_drained-ends 181 i (now + drain_collect) w1
          (omega (arith, T.read w, T.after_monotonic w))

    -- With a clock that no call turns back and sleeps that last as long as they are told, a drain ends:
    -- its 182 rounds of at least 5 seconds reach the deadline.
    pub drain-ends : (name : Text) (w : World) → (drain name w).1 ≢ out_of_rounds
    unfolding drain drain_found
    drain-ends name w = found (get name w).1 (get name w).0
      where
        found : (o : Option Container) (v : World) → (drain_found o v).1 ≢ out_of_rounds
        found none v = λ e. cc
        found (some c) v = on_flagged-ends c.id (touch_drain c.id v).1 (touch_drain c.id v).0

  module _ (L : Lawful E) where
    view-on_status :
        (again : World → World × Drained) (o : Option Container) (i : Text) (w : World)
        → ((c : Container) → o ≡ some c → c.is_running ≡ true)
        → L.view (again w).0 ≡ L.view w
        → L.view (on_status again o i w).0 ≡ L.view w
    unfolding on_status
    view-on_status again none i w up same = refl
    view-on_status again (some c) i w up same = rw (up c refl) same

    view-poll_drained :
        (fuel : ℕ) (i : Text) (deadline : ℕ) (w : World)
        → ((c : Container) (v : World) → (reload i v).1 ≡ some c → c.is_running ≡ true)
        → L.view (poll_drained fuel i deadline w).0 ≡ L.view w
    unfolding poll_drained
    view-poll_drained zero i deadline w up = refl
    view-poll_drained (suc fuel) i deadline w up =
        let w1 = (monotonic w).0 in
        let (w2, status) = reload i (sleep (5 * second) w1) in
        let before : L.view w2 ≡ L.view w =
          L.view-reload i (sleep (5 * second) w1)
          ∙ L.view-sleep (5 * second) w1
          ∙ L.view-monotonic w in
        elim (Bool-cases (ltb (monotonic w).1 deadline)) [
          | inr late ↦ rw late (L.view-monotonic w)
          | inl early ↦ rw early (
              view-on_status (poll_drained fuel i deadline) status i w2
                (λ c. up c (sleep (5 * second) w1)) (view-poll_drained fuel i deadline w2 up)
              ∙ before)
        ]

    view-on_flagged :
        (i : Text) (b : Bool) (w : World)
        → ((c : Container) (v : World) → (reload i v).1 ≡ some c → c.is_running ≡ true)
        → L.view (on_flagged i b w).0 ≡ L.view w
    unfolding on_flagged
    view-on_flagged i false w up = refl
    view-on_flagged i true w up =
        let (w1, now) = monotonic w in
        view-poll_drained 182 i (now + drain_collect) w1 up ∙ L.view-monotonic w

    -- While every reload that answers shows the container running, a drain changes no container: it
    -- removes none that runs.
    pub view-drain :
        (name : Text) (w : World)
        → ((i : Text) (c : Container) (v : World) → (reload i v).1 ≡ some c → c.is_running ≡ true)
        → L.view (drain name w).0 ≡ L.view w
    unfolding drain drain_found
    view-drain name w up = found (get name w).1 (get name w).0 ∙ L.view-get name w
      where
        found : (o : Option Container) (v : World) → L.view (drain_found o v).0 ≡ L.view v
        found none v = refl
        found (some c) v =
            view-on_flagged c.id (touch_drain c.id v).1 (touch_drain c.id v).0 (up c.id)
            ∙ L.view-touch_drain c.id v
