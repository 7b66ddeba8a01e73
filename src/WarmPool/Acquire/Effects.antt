-- ===== src/WarmPool/Acquire/Effects.antt =====
-- What the steps of `get_or_create` (warm_pool.py) do to the containers that exist and to the number
-- of live ones.
use aw_app_agents_platform_r.Prelude.{
  ℕ, suc, ◌/◌, ◌≤◌, ◌≡◌, refl, Bool, true, false, ◌&&◌, Option, none, some, List, [], ◌∷◌, arith,
  ap, zero, select, count_if,
}
use aw_app_agents_platform_r.Prelude.Texts.{Text}
use aw_app_agents_platform_r.WarmPool.Names.{draining_name, is_draining-draining_name}
use aw_app_agents_platform_r.WarmPool.Engine.{
  Labels, Container, Engine, Lawful, is_live, rename_in, remove_in,
}
use aw_app_agents_platform_r.WarmPool.Acquire.{
  Recycle, drain, force, counts, container_labels, container_age, is_running_now, status_running,
  remove_named, remove_found, rename_named, rename_found, triage, check_running, check_age, retire,
  start_or_fail, remove_unless, probe, probe_found, poll_ready, wait_ready, second,
}

abbrev pub live : List Container → ℕ
live = count_if is_live

pub live-remove_in : (i : Text) (cs : List Container) → live (remove_in i cs) ≤ live cs
unfolding remove_in
live-remove_in i [] = omega arith
live-remove_in i (c ∷ cs) = ground (arith, live-remove_in i cs)

pub live-rename_in :
    (i name : Text) (ts : ℕ) (cs : List Container)
    → live (rename_in i (draining_name name ts) cs) ≤ live cs
unfolding rename_in is_live
live-rename_in i name ts [] = omega arith
live-rename_in i name ts (c ∷ cs) =
    ground (arith, live-rename_in i name ts cs, is_draining-draining_name name ts)

-- The code's filter and count over the engine's listing is the number of live containers.
pub count_if-select :
    (cs : List Container)
    → count_if counts (select (λ c. c.labels.warm && c.is_running) cs) ≡ live cs
unfolding is_live
count_if-select [] = refl
count_if-select (c ∷ cs) = ground (arith, count_if-select cs)

module _ (E : Engine) (L : Lawful E) where
  abbrev pub pool : E.World → ℕ
  pool w = live (L.view w)

  pub view-container_labels :
      (name : Text) (w : E.World) → L.view (container_labels E name w).0 ≡ L.view w
  unfolding container_labels
  view-container_labels name w = L.view-get name w

  pub view-container_age :
      (name : Text) (now : ℕ) (w : E.World) → L.view (container_age E name now w).0 ≡ L.view w
  unfolding container_age
  view-container_age name now w = L.view-get name w

  view-status_running :
      (c : Option Container) (w : E.World) → L.view (status_running E c w).0 ≡ L.view w
  unfolding status_running
  view-status_running none w = refl
  view-status_running (some c) w = L.view-reload c.id w

  pub view-is_running_now :
      (name : Text) (w : E.World) → L.view (is_running_now E name w).0 ≡ L.view w
  unfolding is_running_now
  view-is_running_now name w = rw view-status_running (L.view-get name w)

  pool-remove_found : (c : Option Container) (w : E.World) → pool (remove_found E c w).0 ≤ pool w
  unfolding remove_found
  pool-remove_found none w = omega arith
  pool-remove_found (some c) w = rw L.view-remove (ground (arith, live-remove_in c.id (L.view w)))

  pub pool-remove_named : (name : Text) (w : E.World) → pool (remove_named E name w).0 ≤ pool w
  unfolding remove_named
  pool-remove_named name w =
      rw (← L.view-get name w) (pool-remove_found (E.get name w).1 (E.get name w).0)

  pool-rename_found :
      (name : Text) (ts : ℕ) (c : Option Container) (w : E.World)
      → pool (rename_found E (draining_name name ts) c w).0 ≤ pool w
  unfolding rename_found
  pool-rename_found name ts none w = omega arith
  pool-rename_found name ts (some c) w =
      rw L.view-rename (ground (arith, live-rename_in c.id name ts (L.view w)))

  pub pool-rename_named :
      (name : Text) (ts : ℕ) (w : E.World)
      → pool (rename_named E name (draining_name name ts) w).0 ≤ pool w
  unfolding rename_named
  pool-rename_named name ts w =
      rw (← L.view-get name w) (pool-rename_found name ts (E.get name w).1 (E.get name w).0)

  view-check_age :
      (name : Text) (up : Bool) (w : E.World) → L.view (check_age E name up w).0 ≡ L.view w
  unfolding check_age
  view-check_age name false w = refl
  view-check_age name true w = rw view-container_age (L.view-time w)

  pub view-check_running :
      (name : Text) (same : Bool) (w : E.World) → L.view (check_running E name same w).0 ≡ L.view w
  unfolding check_running
  view-check_running name false w = refl
  view-check_running name true w = rw (view-check_age, view-is_running_now)

  pub pool-triage :
      (name epoch : Text) (r : Option Recycle) (l : Option Labels) (w : E.World)
      → pool (triage E name epoch r l w).0 ≤ pool w
  unfolding triage
  pool-triage name epoch r none w = omega arith
  pool-triage name epoch none (some l) w = rw view-check_running (omega arith)
  pool-triage name epoch (some drain) (some l) w = omega arith
  pool-triage name epoch (some force) (some l) w = pool-remove_named name w

  view-start_or_fail :
      (new : Text) (b : Bool) (w : E.World) → L.view (start_or_fail E new b w).0 ≡ L.view w
  unfolding start_or_fail
  view-start_or_fail new false w = refl
  view-start_or_fail new true w = L.view-start_drain new w

  pool-remove_unless :
      (name : Text) (b : Bool) (w : E.World) → pool (remove_unless E name b w).0 ≤ pool w
  unfolding remove_unless
  pool-remove_unless name true w = omega arith
  pool-remove_unless name false w = pool-remove_named name w

  pub pool-retire : (name : Text) (w : E.World) → pool (retire E name w).0 ≤ pool w
  unfolding retire
  pool-retire name w =
      let (w1, now) = E.time w in
      let (w2, renamed) = rename_named E name (draining_name name (now / second)) w1 in
      let (w3, started) = start_or_fail E (draining_name name (now / second)) renamed w2 in
      omega (
        arith,
        pool-remove_unless name started w3,
        ap live (view-start_or_fail (draining_name name (now / second)) renamed w2),
        pool-rename_named name (now / second) w1,
        ap live (L.view-time w),
      )

  view-probe_found : (c : Option Container) (w : E.World) → L.view (probe_found E c w).0 ≡ L.view w
  unfolding probe_found
  view-probe_found none w = refl
  view-probe_found (some c) w = L.view-test_ready c.id w

  view-probe : (name : Text) (w : E.World) → L.view (probe E name w).0 ≡ L.view w
  unfolding probe
  view-probe name w = rw view-probe_found (L.view-get name w)

  view-poll_ready :
      (fuel : ℕ) (name : Text) (deadline : ℕ) (w : E.World)
      → L.view (poll_ready E fuel name deadline w).0 ≡ L.view w
  unfolding poll_ready
  view-poll_ready zero name deadline w = refl
  view-poll_ready (suc fuel) name deadline w =
      let (w1, now) = E.monotonic w in
      let (w2, ready) = probe E name w1 in
      ground (
        arith,
        L.view-monotonic w,
        view-probe name w1,
        L.view-sleep 300000 w2,
        view-poll_ready fuel name deadline (E.sleep 300000 w2),
      )

  pub view-wait_ready : (name : Text) (w : E.World) → L.view (wait_ready E name w).0 ≡ L.view w
  unfolding wait_ready
  view-wait_ready name w = rw view-poll_ready (L.view-monotonic w)
