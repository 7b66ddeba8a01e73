-- ===== src/Execute/Job/Exits.antt =====
-- execute.py: what a job does once on the exits around its container.
use aw_app_agents_platform_r.Prelude.{
  ◌≡◌, refl, ap, ◌∙◌, Option, none, some, pos, negsuc, Bool-cases, inl, inr,
}
use aw_app_agents_platform_r.Prelude.Texts.{Text, codes, text_eq, is_empty, strip}
use aw_app_agents_platform_r.Execute.Outside.{Outside}
use aw_app_agents_platform_r.Execute.Registry.{Process}
use aw_app_agents_platform_r.Execute.Cooldown.{at_world}
use aw_app_agents_platform_r.Execute.Retry.{run_cold_agent_with_retry}
use aw_app_agents_platform_r.Execute.Frame.{view-publish_line}
use aw_app_agents_platform_r.Execute.Frame.Attempts.{view-run_cold_agent_with_retry}
use aw_app_agents_platform_r.Execute.Job.{
  Job, Host, cli_of, timeout_of, or_one, conclude, report_end, spawn_error_exit, aborted_exit,
  publish_output, run_raw, run_agent,
}
use aw_app_agents_platform_r.Execute.Job.Tally.{
  tallied, tallied_host, closed, concluded, frame, conclude-tally, leave-tally, report_end-tally,
  Tallied,
}

module _ (O : Outside) (H : Host O) where
  abbrev T : Outside
  T = tallied O

  abbrev HT : Host T
  HT = tallied_host O H

  pub spawn_error_exit-Tallied :
      (r : Text) (p : Process T.World) → Tallied O H p.world.1 (spawn_error_exit T HT r p)
  unfolding spawn_error_exit
  spawn_error_exit-Tallied r p =
      report_end-tally O H r (codes "spawn_error") (codes "runner failed to spawn container: ")
        (pos 1) p.world

  pub aborted_exit-Tallied :
      (r : Text) (p : Process T.World) → Tallied O H p.world.1 (aborted_exit T HT r p)
  unfolding aborted_exit
  aborted_exit-Tallied r p =
      let subtype = codes "aborted" in
      let text = codes "aborted before the container started" in
      leave-tally O H r (at_world T p (report_end T HT r subtype text (negsuc 8) p.world))
      ∙ ap closed (report_end-tally O H r subtype text (negsuc 8) p.world)

  publish_output-tally :
      (r : Text) (output : Option Text) (w : T.World) → (publish_output T HT r output w).1 ≡ w.1
  unfolding publish_output
  publish_output-tally r none w = refl
  publish_output-tally r (some text) w = elim (Bool-cases (is_empty (strip text))) [
    | inl blank ↦ rw blank refl
    | inr full ↦ rw full (view-publish_line T (frame O H) r text w)
  ]

  pub run_raw-Tallied :
      (job : Job) (h : O.Handle) (p : Process T.World)
      → Tallied O H p.world.1 (run_raw T HT job h p)
  unfolding run_raw
  run_raw-Tallied job h p =
      let r = job.run_id in
      let w1 = HT.start_timer h (timeout_of job.timeout_seconds) p.world in
      let status = T.wait h w1 in
      let output = HT.container_logs h status.0 in
      let w2 = HT.cancel_timer (publish_output T HT r output.1 output.0) in
      let w3 = conclude T HT r (or_one status.1) w2 in
      leave-tally O H r (at_world T p (T.remove h w3).0)
      ∙ ap closed (
          conclude-tally O H r (or_one status.1) w2
          ∙ ap concluded (publish_output-tally r output.1 output.0))

  pub run_agent-Tallied :
      (job : Job) (h : O.Handle) (p : Process T.World)
      → Tallied O H p.world.1 (run_agent T HT job h p)
  unfolding run_agent
  run_agent-Tallied job h p =
      let cr = text_eq (cli_of job) (codes "codex") in
      let r = run_cold_agent_with_retry T cr h job.run_id p in
      let w = conclude T HT job.run_id (or_one r.1) r.0.world in
      leave-tally O H job.run_id (at_world T r.0 w)
      ∙ ap closed (
          conclude-tally O H job.run_id (or_one r.1) r.0.world
          ∙ ap concluded
              (view-run_cold_agent_with_retry T (frame O H) (λ w. refl) cr h job.run_id p))
