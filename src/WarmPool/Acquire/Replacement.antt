-- ===== src/WarmPool/Acquire/Replacement.antt =====
-- The ceiling and the one-for-one replacement of a session's container (warm_pool.py
-- `get_or_create`, the comment above `_check_ceiling`).
use aw_app_agents_platform_r.Prelude.{
  ℕ, ◌/◌, ◌≤◌, ◌<◌, ◌≡◌, ◌≢◌, refl, ap, Bool, true, false, Option, none, some, List, [], ◌∷◌, arith,
  if◌then◌else◌, leb, Bool-cases, inl, inr,
}
use aw_app_agents_platform_r.Prelude.Texts.{Text, text_eq, text_eq_refl}
use aw_app_agents_platform_r.WarmPool.Names.{
  warm_container_name, draining_name, is_draining-draining_name,
}
use aw_app_agents_platform_r.WarmPool.Engine.{
  Labels, Container, Engine, Lawful, is_live, rename_in, remove_in, find_name,
}
use aw_app_agents_platform_r.WarmPool.Acquire.{
  Recycle, drain, force, Triage, reuse, stale, absent, pool_full, BuildKwargs, second,
  container_labels, remove_named, remove_found, rename_named, rename_found, triage, check_running,
  check_age, retire, start_or_fail, remove_unless, check_ceiling, settle, launch, spawn_unless,
  spawn, finish, get_or_create, opt_eq,
}
use aw_app_agents_platform_r.WarmPool.Acquire.Effects.{
  live, pool, live-rename_in, live-remove_in, view-check_running,
}
use aw_app_agents_platform_r.WarmPool.Acquire.Ceiling.{Answers, check_ceiling_lem}

live-rename_in-lt :
    (name : Text) (ts : ℕ) (c : Container) (cs : List Container)
    → find_name name cs ≡ some c
    → is_live c ≡ true
    → live (rename_in c.id (draining_name name ts) cs) < live cs
unfolding rename_in is_live find_name
live-rename_in-lt name ts c [] found up = cc
live-rename_in-lt name ts c (x ∷ cs) found up = elim (Bool-cases (text_eq x.name name)) [
  | inl here ↦
      ground (
        arith,
        live-rename_in c.id name ts cs,
        is_draining-draining_name name ts,
        text_eq_refl c.id,
      )
  | inr there ↦ ground (arith, live-rename_in-lt name ts c cs, is_draining-draining_name name ts)
]

live-remove_in-lt :
    (name : Text) (c : Container) (cs : List Container)
    → find_name name cs ≡ some c
    → is_live c ≡ true
    → live (remove_in c.id cs) < live cs
unfolding remove_in is_live find_name
live-remove_in-lt name c [] found up = cc
live-remove_in-lt name c (x ∷ cs) found up = elim (Bool-cases (text_eq x.name name)) [
  | inl here ↦ ground (arith, live-remove_in c.id cs, text_eq_refl c.id)
  | inr there ↦ ground (arith, live-remove_in-lt name c cs)
]

kept_or_stale : (b : Bool) → (if b then reuse else stale) ≢ absent
kept_or_stale true e = cc
kept_or_stale false e = cc

forced_absent : (b : Bool) → b ≡ true → (if b then absent else stale) ≢ stale
forced_absent true h e = cc
forced_absent false h e = cc

module _ (E : Engine) where
  not-absent-check_age :
      (name : Text) (up : Bool) (w : E.World) → (check_age E name up w).1 ≢ absent
  unfolding check_age
  not-absent-check_age name false w e = cc
  not-absent-check_age name true w e = kept_or_stale _ e

  not-absent-check_running :
      (name : Text) (same : Bool) (w : E.World) → (check_running E name same w).1 ≢ absent
  unfolding check_running
  not-absent-check_running name false w e = cc
  not-absent-check_running name true w e = not-absent-check_age name _ _ e

-- No call of the engine fails.
pub record Reliable (E : Engine) (L : Lawful E) : Type 0 where
  pub listing_answers : Answers E
  pub get_answers :
      (name : Text) (c : Container) (w : E.World)
      → find_name name (L.view w) ≡ some c
      → (E.get name w).1 ≡ some c
  pub rename_works : (i new : Text) (w : E.World) → (E.rename i new w).1 ≡ true
  pub remove_works : (i : Text) (w : E.World) → (E.remove i w).1 ≡ true
  pub thread_starts : (name : Text) (w : E.World) → (E.start_drain name w).1 ≡ true

module _ (E : Engine) (L : Lawful E) (R : Reliable E L) where
  not-full-settle :
      (name : Text) (m j : ℕ) (b : Bool) (w : E.World) → (settle E name b w).1 ≢ pool_full m j
  unfolding settle
  not-full-settle name m j false w e = cc
  not-full-settle name m j true w e = cc

  not-full-launch :
      (name : Text) (m j : ℕ) (t : Option (Text × Labels)) (w : E.World)
      → (launch E name t w).1 ≢ pool_full m j
  unfolding launch
  not-full-launch name m j none w e = cc
  not-full-launch name m j (some (image, labels)) w e = not-full-settle name m j _ _ e

  full-spawn_unless :
      (k m j : ℕ) (name epoch : Text) (b : BuildKwargs) (n : ℕ) (w : E.World)
      → (spawn_unless E k name epoch b (if leb k n then some n else none) w).1 ≡ pool_full m j
      → k ≤ n
  unfolding spawn_unless
  full-spawn_unless k m j name epoch b n w h = elim (Bool-cases (leb k n)) [
    | inl full ↦ ground arith
    | inr room ↦ absurd (not-full-launch name m j (b name epoch) w (rw room at h))
  ]

  full-spawn :
      (k m j : ℕ) (name epoch : Text) (b : BuildKwargs) (w : E.World)
      → (spawn E k name epoch b w).1 ≡ pool_full m j
      → k ≤ pool E L w
  unfolding spawn
  full-spawn k m j name epoch b w h =
      full-spawn_unless k m j name epoch b (pool E L w) (check_ceiling E k w).0
        (rw (check_ceiling_lem E L k w (R.listing_answers w)) at h)

  pool-remove_named-lt :
      (name : Text) (c : Container) (w : E.World)
      → find_name name (L.view w) ≡ some c
      → is_live c ≡ true
      → pool E L (remove_named E name w).0 < pool E L w
  unfolding remove_named remove_found
  pool-remove_named-lt name c w found up =
      rw (R.get_answers name c w found, L.view-remove, R.remove_works)
        (rw L.view-get (live-remove_in-lt name c (L.view w) found up))

  rename_named-works :
      (name new : Text) (c : Container) (w : E.World)
      → find_name name (L.view w) ≡ some c
      → ((rename_named E name new w).1 ≡ true)
        × (L.view (rename_named E name new w).0 ≡ rename_in c.id new (L.view w))
  unfolding rename_named rename_found
  rename_named-works name new c w found = (
    rw (R.get_answers name c w found) (R.rename_works c.id new _),
    rw (R.get_answers name c w found, L.view-rename, R.rename_works) (rw L.view-get),
  )

  view-handed_over :
      (name new : Text) (b : Bool) (w : E.World)
      → b ≡ true
      → let (w1, started) = start_or_fail E new b w in
        L.view (remove_unless E name started w1).0 ≡ L.view w
  unfolding start_or_fail remove_unless
  view-handed_over name new false w h = cc
  view-handed_over name new true w h = rw R.thread_starts (L.view-start_drain new w)

  pool-retire-lt :
      (name : Text) (c : Container) (w : E.World)
      → find_name name (L.view w) ≡ some c
      → is_live c ≡ true
      → pool E L (retire E name w).0 < pool E L w
  unfolding retire
  pool-retire-lt name c w found up =
      let (w1, now) = E.time w in
      let new = draining_name name (now / second) in
      let there : find_name name (L.view w1) ≡ some c = rw L.view-time found in
      let (done, moved) = rename_named-works name new c w1 there in
      let (w2, renamed) = rename_named E name new w1 in
      omega (
        arith,
        ap live (view-handed_over name new renamed w2 done),
        ap live moved,
        ap live (L.view-time w),
        live-rename_in-lt name (now / second) c (L.view w1) there up,
      )

  remove_named-works :
      (name : Text) (c : Container) (w : E.World)
      → find_name name (L.view w) ≡ some c
      → (remove_named E name w).1 ≡ true
  unfolding remove_named remove_found
  remove_named-works name c w found = rw (R.get_answers name c w found) (R.remove_works c.id _)

  not-full-finish :
      (k m j : ℕ) (name epoch : Text) (b : BuildKwargs) (t : Triage) (w : E.World) (c : Container)
      → (t ≡ absent → pool E L w < k)
      → (t ≡ stale → pool E L w ≤ k)
      → (t ≡ stale → find_name name (L.view w) ≡ some c)
      → is_live c ≡ true
      → (finish E k name epoch b t w).1 ≢ pool_full m j
  unfolding finish
  not-full-finish k m j name epoch b reuse w c gone fits there up e = cc
  not-full-finish k m j name epoch b absent w c gone fits there up e =
      absurd (omega (arith, gone refl, full-spawn k m j name epoch b w e))
  not-full-finish k m j name epoch b stale w c gone fits there up e = absurd (
      omega (
        arith,
        fits refl,
        pool-retire-lt name c w (there refl) up,
        full-spawn k m j name epoch b (retire E name w).0 e,
      ))

  -- What `triage` leaves: a stale container is still there, and one that is gone counted as live.
  triage-live :
      (name epoch : Text) (r : Option Recycle) (lab : Labels) (c : Container) (w : E.World)
      → find_name name (L.view w) ≡ some c
      → is_live c ≡ true
      → ((triage E name epoch r (some lab) w).1 ≡ absent
          → pool E L (triage E name epoch r (some lab) w).0 < pool E L w)
        × ((triage E name epoch r (some lab) w).1 ≡ stale
            → L.view (triage E name epoch r (some lab) w).0 ≡ L.view w)
  unfolding triage
  triage-live name epoch none lab c w found up = (
    λ e. absurd (not-absent-check_running E name (opt_eq lab.epoch epoch) w e),
    λ e. view-check_running E L name (opt_eq lab.epoch epoch) w,
  )
  triage-live name epoch (some drain) lab c w found up = (λ e. cc, λ e. refl)
  triage-live name epoch (some force) lab c w found up = (
    λ e. pool-remove_named-lt name c w found up,
    λ e. absurd (forced_absent _ (remove_named-works name c w found) e),
  )

  -- Replacing a session's live container never hits the ceiling: with an engine that fails no call,
  -- and no more live containers than the ceiling, `get_or_create` for a session that has a live
  -- container does not raise WarmPoolFull, whatever its labels and whatever recycling is asked for.
  pub replacement-not-full :
      (k m j : ℕ) (agent session epoch : Text) (b : BuildKwargs) (r : Option Recycle)
      (c : Container) (w : E.World)
      → find_name (warm_container_name agent session) (L.view w) ≡ some c
      → is_live c ≡ true
      → pool E L w ≤ k
      → (get_or_create E k agent session epoch b r w).1 ≢ pool_full m j
  unfolding get_or_create container_labels
  replacement-not-full k m j agent session epoch b r c w found up fits full =
      let name = warm_container_name agent session in
      let w1 = (E.get name w).0 in
      let there : find_name name (L.view w1) ≡ some c = rw L.view-get found in
      let fate = triage E name epoch r (some c.labels) w1 in
      let (gone, kept) = triage-live name epoch r c.labels c w1 there up in
      not-full-finish k m j name epoch b fate.1 fate.0 c
        (λ e. omega (arith, gone e, ap live (L.view-get name w)))
        (λ e. omega (arith, ap live (kept e), ap live (L.view-get name w))) (λ e. rw (kept e) there)
        up (rw (R.get_answers name c w found) at full)
