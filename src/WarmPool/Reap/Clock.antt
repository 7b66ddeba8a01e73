-- ===== src/WarmPool/Reap/Clock.antt =====
-- The second that `_condemn_over_ttl` (warm_pool.py) writes into a name, and the clock of a sweep.
use aw_app_agents_platform_r.Prelude.{
  ℕ, ◌/◌, ◌≤◌, ◌≡◌, ◌∙◌, ap, Bool, true, false, Option, none, some, arith, ℤ,
}
use aw_app_agents_platform_r.Prelude.Texts.{Text}
use aw_app_agents_platform_r.WarmPool.Names.{draining_name, is_draining, drain_started}
use aw_app_agents_platform_r.WarmPool.Engine.{Container, Engine, Lawful, find_id}
use aw_app_agents_platform_r.WarmPool.Acquire.{second}
use aw_app_agents_platform_r.WarmPool.Reap.{
  Limits, over_ttl, over_grace, flag_renamed, condemn_if, condemn_over_ttl, remove_if,
  collect_drainer, sweep_running, sweep_status, sweep_one,
}
use aw_app_agents_platform_r.WarmPool.Reap.Lookup.{find_id-rename_in_self}
use aw_app_agents_platform_r.WarmPool.Reap.Sweep.{at}
use aw_app_agents_platform_r.WarmPool.Reap.Fate.{Obedient}

-- The clock that `time` reads never goes back over the calls of a sweep.
pub record Forward (E : Engine) : Type 0 where
  pub clock : E.World → ℕ
  pub reads_clock : (w : E.World) → (E.time w).1 ≡ clock w
  pub time_on : (w : E.World) → clock w ≤ clock (E.time w).0
  pub rename_on : (i new : Text) (w : E.World) → clock w ≤ clock (E.rename i new w).0
  pub remove_on : (i : Text) (w : E.World) → clock w ≤ clock (E.remove i w).0
  pub touch_on : (i : Text) (w : E.World) → clock w ≤ clock (E.touch_drain i w).0

module _ (E : Engine) (F : Forward E) where
  remove_if-on : (i : Text) (b : Bool) (w : E.World) → F.clock w ≤ F.clock (remove_if E i b w).0
  unfolding remove_if
  remove_if-on i false w = omega arith
  remove_if-on i true w = F.remove_on i w

  flag_renamed-on :
      (i : Text) (b : Bool) (w : E.World) → F.clock w ≤ F.clock (flag_renamed E i b w).0
  unfolding flag_renamed
  flag_renamed-on i false w = omega arith
  flag_renamed-on i true w = F.touch_on i w

  condemn_if-on :
      (c : Container) (b : Bool) (w : E.World) → F.clock w ≤ F.clock (condemn_if E c b w).0
  unfolding condemn_if
  condemn_if-on c false w = omega arith
  condemn_if-on c true w =
      let (w1, now) = E.time w in
      let new = draining_name c.name (now / second) in
      let (w2, renamed) = E.rename c.id new w1 in
      omega (arith, F.time_on w, F.rename_on c.id new w1, flag_renamed-on c.id renamed w2)

  collect_drainer-on :
      (l : Limits) (now : ℕ) (c : Container) (o : Option ℤ) (w : E.World)
      → F.clock w ≤ F.clock (collect_drainer E l now c o w).0
  unfolding collect_drainer
  collect_drainer-on l now c none w = omega arith
  collect_drainer-on l now c (some t) w = remove_if-on c.id (over_grace l now t) w

  sweep_running-on :
      (l : Limits) (now : ℕ) (c : Container) (b : Bool) (w : E.World)
      → F.clock w ≤ F.clock (sweep_running E l now c b w).0
  unfolding sweep_running condemn_over_ttl
  sweep_running-on l now c false w = condemn_if-on c (over_ttl l now c) w
  sweep_running-on l now c true w = collect_drainer-on l now c (drain_started c.name) w

  sweep_status-on :
      (l : Limits) (now : ℕ) (c : Container) (b : Bool) (w : E.World)
      → F.clock w ≤ F.clock (sweep_status E l now c b w).0
  unfolding sweep_status
  sweep_status-on l now c false w = remove_if-on c.id true w
  sweep_status-on l now c true w = sweep_running-on l now c (is_draining c.name) w

  pub sweep_one-on :
      (l : Limits) (now : ℕ) (c : Container) (w : E.World)
      → F.clock w ≤ F.clock (sweep_one E l now c w).0
  unfolding sweep_one
  sweep_one-on l now c w = sweep_status-on l now c c.is_running w

-- The name that a sweep gives a container past its TTL has the second of the clock in it.
pub sweep_one-stamped :
    (E : Engine) (L : Lawful E) (O : Obedient E) (c : Container) (l : Limits) (now : ℕ)
    (w : E.World)
    → c.is_running ≡ true
    → is_draining c.name ≡ false
    → over_ttl l now c ≡ true
    → at E L c.id w ≡ some c
    → at E L c.id (sweep_one E l now c w).0
      ≡ some (record c { name = draining_name c.name ((E.time w).1 / second) })
unfolding sweep_one sweep_status sweep_running condemn_over_ttl condemn_if flag_renamed
sweep_one-stamped E L O c l now w up plain old h =
    let (w1, t) = E.time w in
    let new = draining_name c.name (t / second) in
    let condemned : sweep_one E l now c w ≡ condemn_if E c true w =
      ap (λ b. sweep_status E l now c b w) up
      ∙ ap (λ b. sweep_running E l now c b w) plain
      ∙ ap (λ b. condemn_if E c b w) old in
    ap (λ r. at E L c.id r.0) condemned
    ∙ rw (O.rename_works) (
        ap (find_id c.id) (L.view-touch_drain c.id (E.rename c.id new w1).0)
        ∙ rw (L.view-rename, O.rename_works)
            (find_id-rename_in_self c.id new c (L.view w1) (rw L.view-time h)))
