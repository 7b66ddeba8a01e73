-- ===== src/Execute/Frame/Attempts.antt =====
-- The attempts of a job (execute.py) leave a view alone that the start of a container leaves alone too.
use aw_app_agents_platform_r.Prelude.{
  ℕ, zero, suc, ◌-◌, ◌≡◌, ◌∙◌, Bool, true, false, Option, none, some, ℤ,
}
use aw_app_agents_platform_r.Prelude.Texts.{Text, codes}
use aw_app_agents_platform_r.Execute.Outside.{Outside, result}
use aw_app_agents_platform_r.Execute.Registry.{Process}
use aw_app_agents_platform_r.Execute.Stream.{Reason, stream_cold_attempt}
use aw_app_agents_platform_r.Execute.Cooldown.{at_world}
use aw_app_agents_platform_r.Execute.Retry.{
  max_attempts, prepare, spawn_error, on_respawn, on_prepared, on_attempt, attempts_from,
  run_cold_agent_with_retry,
}
use aw_app_agents_platform_r.Execute.Frame.{Frame, view-publish_message, view-stream_cold_attempt}
use aw_app_agents_platform_r.Execute.Frame.Waits.{view-prepare}

module _ (O : Outside) (F : Frame O)
    (spawned : (w : O.World) → F.view (O.run_container w).0 ≡ F.view w) where
  view-on_attempt :
      (v : F.View) (a : Option (ℤ × Option Reason)) (p : Process O.World)
      (again : ℤ → Reason → Process O.World × Option ℤ)
      → F.view p.world ≡ v
      → ((returncode : ℤ) (reason : Reason) → F.view (again returncode reason).0.world ≡ v)
      → F.view (on_attempt O a p again).0.world ≡ v
  unfolding on_attempt
  view-on_attempt v none p again e h = e
  view-on_attempt v (some (returncode, none)) p again e h = e
  view-on_attempt v (some (returncode, some reason)) p again e h = h returncode reason

  view-on_prepared :
      (v : F.View) (q : Process O.World × Option Bool) (returncode : ℤ) (r : Text)
      (respawn : Process O.World → Process O.World × Option ℤ)
      → F.view q.0.world ≡ v
      → F.view (respawn q.0).0.world ≡ v
      → F.view (on_prepared O q returncode r respawn).0.world ≡ v
  unfolding on_prepared
  view-on_prepared v (p, none) returncode r respawn e h = e
  view-on_prepared v (p, some false) returncode r respawn e h = e
  view-on_prepared v (p, some true) returncode r respawn e h = h

  view-on_respawn :
      (v : F.View) (h : Option O.Handle) (r : Text) (p : Process O.World)
      (attempts : O.Handle → Process O.World × Option ℤ)
      → F.view p.world ≡ v
      → ((x : O.Handle) → F.view (attempts x).0.world ≡ v)
      → F.view (on_respawn O h r p attempts).0.world ≡ v
  unfolding on_respawn spawn_error
  view-on_respawn v none r p attempts e more =
      view-publish_message O F r
        (result (codes "spawn_error") (codes "runner failed to respawn container on retry: "))
        p.world
      ∙ e
  view-on_respawn v (some x) r p attempts e more = more x

  view-attempts_from :
      (left attempt : ℕ) (cr : Bool) (h : O.Handle) (r : Text) (p : Process O.World)
      → F.view (attempts_from O left attempt cr h r p).0.world ≡ F.view p.world
  unfolding attempts_from
  view-attempts_from zero attempt cr h r p =
      let a = stream_cold_attempt O h r cr true p.world in
      let e = view-stream_cold_attempt O F h r cr true p.world in
      view-on_attempt (F.view p.world) a.1 (at_world O p a.0)
        (λ returncode reason. (at_world O p a.0, some returncode)) e (λ returncode reason. e)
  view-attempts_from (suc left) attempt cr h r p =
      let a = stream_cold_attempt O h r cr false p.world in
      let p1 = at_world O p a.0 in
      let e = view-stream_cold_attempt O F h r cr false p.world in
      let v = F.view p.world in
      view-on_attempt v a.1 p1 _ e (λ returncode reason.
        let q = prepare O reason (suc attempt) r p1 in
        let f = view-prepare O F reason (suc attempt) r p1 ∙ e in
        let s = O.run_container q.0.world in
        let g = spawned q.0.world ∙ f in
        view-on_prepared v q returncode r _ f (
          view-on_respawn v s.1 r (at_world O q.0 s.0) _ g
            (λ x. view-attempts_from left (suc attempt) cr x r (at_world O q.0 s.0) ∙ g)))

  pub view-run_cold_agent_with_retry :
      (cr : Bool) (h : O.Handle) (r : Text) (p : Process O.World)
      → F.view (run_cold_agent_with_retry O cr h r p).0.world ≡ F.view p.world
  unfolding run_cold_agent_with_retry
  view-run_cold_agent_with_retry cr h r p = view-attempts_from (max_attempts cr - 1) 1 cr h r p
