-- ===== src/Execute/Frame/Waits.antt =====
-- The waits between the attempts of a job (execute.py), and its registry, leave a view alone.
use aw_app_agents_platform_r.Prelude.{
  ℕ, zero, suc, min, ◌-◌, ◌+◌, ◌*◌, ◌/◌, ◌≡◌, refl, ◌∙◌, Bool, true, false, Option, none, some,
  if◌then◌else◌, is_some, leb, Bool-cases, inl, inr,
}
use aw_app_agents_platform_r.Prelude.Texts.{Text}
use aw_app_agents_platform_r.Prelude.Decimal.{str}
use aw_app_agents_platform_r.Execute.Outside.{Outside, cooldown_notice, backoff_notice}
use aw_app_agents_platform_r.Execute.Bounded.{get_item}
use aw_app_agents_platform_r.Execute.Publish.{publish_message}
use aw_app_agents_platform_r.Execute.Registry.{
  Process, mirror, or_none, read_mirror, is_aborted, remember_container, forget_container,
  clear_abort, forget_run, abort_flag_key, container_reg_key, abort_registry_ttl_s,
}
use aw_app_agents_platform_r.Execute.Stream.{Reason, rate_limit, contention}
use aw_app_agents_platform_r.Execute.Cooldown.{
  CooldownLook, proceeds, stops, again, next_ttl, set_cooldown, on_previous, cooldown_arm, at_world,
  on_look, poll_cooldown, after_poll, wait_turns, wait_polls, cooldown_wait, sleep_until,
  sleep_abortable, cooldown_key,
}
use aw_app_agents_platform_r.Execute.Retry.{
  wait_cooldown, on_slept, back_off, prepare, rate_limit_backoff, contention_backoff,
}
use aw_app_agents_platform_r.Execute.Frame.{Frame, view-publish_message}

module _ (O : Outside) (F : Frame O) where
  pub view-is_aborted :
      (r : Text) (p : Process O.World) → F.view (is_aborted O true r p).0.world ≡ F.view p.world
  unfolding is_aborted read_mirror
  view-is_aborted r p = elim (Bool-cases (is_some (get_item r p.aborted))) [
    | inl here ↦ rw here refl
    | inr gone ↦ rw gone (F.get (abort_flag_key r) p.world)
  ]

  view-set_cooldown : (ttl : Option ℕ) (w : O.World) → F.view (set_cooldown O ttl w) ≡ F.view w
  unfolding set_cooldown
  view-set_cooldown none w = refl
  view-set_cooldown (some ttl) w = F.set cooldown_key (str ttl) ttl w

  view-on_previous :
      (prev : Option (Option Text)) (w : O.World) → F.view (on_previous O prev w) ≡ F.view w
  unfolding on_previous
  view-on_previous none w = refl
  view-on_previous (some prev) w = view-set_cooldown (next_ttl (or_none prev)) w

  view-cooldown_arm : (w : O.World) → F.view (cooldown_arm O true w) ≡ F.view w
  unfolding cooldown_arm
  view-cooldown_arm w =
      view-on_previous (O.redis_get cooldown_key w).1 (O.redis_get cooldown_key w).0
      ∙ F.get cooldown_key w

  told : Bool → Text → Process O.World → O.World
  told notified r p = if notified then p.world else publish_message O r cooldown_notice p.world

  view-told :
      (notified : Bool) (r : Text) (p : Process O.World)
      → F.view (told notified r p) ≡ F.view p.world
  unfolding told
  view-told true r p = refl
  view-told false r p = view-publish_message O F r cooldown_notice p.world

  view-on_look :
      (look : Option (Option Text)) (notified : Bool) (r : Text) (p : Process O.World)
      → F.view (on_look O look notified r p).0.world ≡ F.view p.world
  unfolding on_look told
  view-on_look none notified r p = refl
  view-on_look (some armed) notified r p = elim (Bool-cases (is_some (or_none armed))) [
    | inl set ↦
        rw set (view-is_aborted r (at_world O p (told notified r p)) ∙ view-told notified r p)
    | inr clear ↦ rw clear refl
  ]

  view-poll_cooldown :
      (notified : Bool) (r : Text) (p : Process O.World)
      → F.view (poll_cooldown O notified r p).0.world ≡ F.view p.world
  unfolding poll_cooldown
  view-poll_cooldown notified r p =
      let a = O.redis_get cooldown_key p.world in
      view-on_look a.1 notified r (at_world O p a.0) ∙ F.get cooldown_key p.world

  view-after_poll :
      (turn : Process O.World × CooldownLook) (later : Process O.World × Bool × Bool) (v : F.View)
      → F.view turn.0.world ≡ v
      → F.view later.0.world ≡ v
      → F.view (after_poll O turn later).0.world ≡ v
  unfolding after_poll
  view-after_poll (p, proceeds c) later v e f = e
  view-after_poll (p, stops) later v e f = e
  view-after_poll (p, again) later v e f = f

  view-wait_turns :
      (left : ℕ) (notified : Bool) (r : Text) (p : Process O.World)
      → F.view (wait_turns O left notified r p).0.world ≡ F.view p.world
  unfolding wait_turns
  view-wait_turns zero notified r p =
      let turn = poll_cooldown O notified r p in
      let e = view-poll_cooldown notified r p in
      view-after_poll turn (turn.0, true, false) (F.view p.world) e e
  view-wait_turns (suc left) notified r p =
      let turn = poll_cooldown O notified r p in
      let next = at_world O turn.0 (O.sleep 1000 turn.0.world) in
      let e = view-poll_cooldown notified r p in
      view-after_poll turn (wait_turns O left true r next) (F.view p.world) e
        (view-wait_turns left true r next ∙ (F.slept 1000 turn.0.world ∙ e))

  pub view-cooldown_wait :
      (r : Text) (p : Process O.World) → F.view (cooldown_wait O true r p).0.world ≡ F.view p.world
  unfolding cooldown_wait
  view-cooldown_wait r p =
      let t = wait_turns O wait_polls false r p in
      let j = O.uniform 0 5000 t.0.world in
      elim (Bool-cases t.2) [
        | inl cleared ↦
            rw cleared
              (F.slept j.1 j.0 ∙ (F.random 0 5000 t.0.world ∙ view-wait_turns wait_polls false r p))
        | inr still ↦ rw still (view-wait_turns wait_polls false r p)
      ]

  view-sleep_until :
      (fuel end : ℕ) (r : Text) (p : Process O.World)
      → F.view (sleep_until O fuel end r p).0.world ≡ F.view p.world
  unfolding sleep_until
  view-sleep_until zero end r p = refl
  view-sleep_until (suc fuel) end r p =
      let now = O.monotonic p.world in
      let a = is_aborted O true r (at_world O p now.0) in
      let d = min 1000 (end - now.1) in
      let here = view-is_aborted r (at_world O p now.0) ∙ F.clock p.world in
      elim (Bool-cases (leb end now.1)) [
        | inl over ↦ rw over (F.clock p.world)
        | inr early ↦ elim (Bool-cases a.1) [
          | inl stopped ↦ rw (early, stopped) here
          | inr running ↦
              rw (early, running)
                (view-sleep_until fuel end r (at_world O a.0 (O.sleep d a.0.world))
                  ∙ (F.slept d a.0.world ∙ here))
        ]
      ]

  view-sleep_abortable :
      (d : ℕ) (r : Text) (p : Process O.World)
      → F.view (sleep_abortable O d r p).0.world ≡ F.view p.world
  unfolding sleep_abortable
  view-sleep_abortable d r p =
      let now = O.monotonic p.world in
      view-sleep_until (d / 1000 + 2) (now.1 + d) r (at_world O p now.0) ∙ F.clock p.world

  view-on_slept :
      (r : Text) (slept : Process O.World × Option Bool)
      → F.view (on_slept O r slept).0.world ≡ F.view slept.0.world
  unfolding on_slept wait_cooldown
  view-on_slept r (p, none) = refl
  view-on_slept r (p, some true) = refl
  view-on_slept r (p, some false) = view-cooldown_wait r p

  view-back_off :
      (reason : Reason) (attempt : ℕ) (r : Text) (p : Process O.World)
      → F.view (back_off O reason attempt r p).0.world ≡ F.view p.world
  unfolding back_off wait_cooldown
  view-back_off rate_limit attempt r p =
      let b = rate_limit_backoff attempt in
      let w1 = cooldown_arm O true p.world in
      let j = O.uniform (b * 3 / 4) (b * 5 / 4) w1 in
      let w2 = publish_message O r (backoff_notice j.1 attempt) j.0 in
      view-on_slept r (sleep_abortable O j.1 r (at_world O p w2))
      ∙ (view-sleep_abortable j.1 r (at_world O p w2)
          ∙ (view-publish_message O F r (backoff_notice j.1 attempt) j.0
              ∙ (F.random (b * 3 / 4) (b * 5 / 4) w1 ∙ view-cooldown_arm p.world)))
  view-back_off contention attempt r p =
      view-cooldown_wait r (at_world O p (O.sleep (contention_backoff attempt) p.world))
      ∙ F.slept (contention_backoff attempt) p.world

  pub view-prepare :
      (reason : Reason) (attempt : ℕ) (r : Text) (p : Process O.World)
      → F.view (prepare O reason attempt r p).0.world ≡ F.view p.world
  unfolding prepare
  view-prepare reason attempt r p =
      let a = is_aborted O true r p in
      elim (Bool-cases a.1) [
        | inl stopped ↦ rw stopped (view-is_aborted r p)
        | inr running ↦ rw running (view-back_off reason attempt r a.0 ∙ view-is_aborted r p)
      ]

  view-mirror :
      (write : O.World → O.World × Bool) (p : Process O.World)
      → ((w : O.World) → F.view (write w).0 ≡ F.view w)
      → F.view (mirror O true write p).world ≡ F.view p.world
  unfolding mirror
  view-mirror write p h = h p.world

  pub view-remember_container :
      (r name : Text) (p : Process O.World)
      → F.view (remember_container O true r name p).world ≡ F.view p.world
  unfolding remember_container mirror
  view-remember_container r name p = F.set (container_reg_key r) name abort_registry_ttl_s p.world

  pub view-forget_run :
      (r : Text) (p : Process O.World) → F.view (forget_run O true r p).world ≡ F.view p.world
  unfolding forget_run clear_abort forget_container mirror
  view-forget_run r p =
      F.delete (abort_flag_key r) (O.redis_delete (container_reg_key r) p.world).0
      ∙ F.delete (container_reg_key r) p.world
