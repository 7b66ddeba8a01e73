-- ===== src/Execute/Job/Counts.antt =====
-- execute.py: what every exit of a job does once, `_run_job_blocking`: the terminal `done`, the start of
-- the index, and the close of the Redis client.
use aw_app_agents_platform_r.Prelude.{
  ◌≡◌, refl, ap, subst, ◌∙◌, Bool, true, false, Option, none, some, if◌then◌else◌, pos, Bool-cases,
  inl, inr,
}
use aw_app_agents_platform_r.Prelude.Texts.{codes, text_eq}
use aw_app_agents_platform_r.Execute.Outside.{Outside}
use aw_app_agents_platform_r.Execute.Registry.{Process, remember_container, is_aborted}
use aw_app_agents_platform_r.Execute.Cooldown.{at_world}
use aw_app_agents_platform_r.Execute.Frame.Waits.{
  view-is_aborted, view-cooldown_wait, view-remember_container,
}
use aw_app_agents_platform_r.Execute.Job.{
  Job, Host, Warm, warm_named, warm_full, warm_failed, Route, cli_of, mint_warm_session_id,
  materialise, may_go_warm, on_acquired, dispatch_warm_turn, aborted_exit, run_raw, run_agent,
  on_spawned, first_cooldown, run_cold, fallback, on_warm, try_warm, run_job_blocking,
}
use aw_app_agents_platform_r.Execute.Job.Tally.{
  Tally, tallied, tallied_host, closed, frame, report_end-tally, Tallied,
}
use aw_app_agents_platform_r.Execute.Job.Exits.{
  spawn_error_exit-Tallied, aborted_exit-Tallied, run_raw-Tallied, run_agent-Tallied,
}

module _ (O : Outside) (H : Host O) where
  abbrev T : Outside
  T = tallied O

  abbrev HT : Host T
  HT = tallied_host O H

  -- A step before that changes no tally.
  Tallied-from :
      (t : Tally) (u : Tally) (e : Process T.World × Route)
      → u ≡ t
      → Tallied O H u e
      → Tallied O H t e
  Tallied-from t u e same h = subst (λ x. Tallied O H x e) same h

  on_spawned-Tallied :
      (job : Job) (h : Option O.Handle) (p : Process T.World)
      → Tallied O H p.world.1 (on_spawned T HT job h p)
  unfolding on_spawned
  on_spawned-Tallied job none p = spawn_error_exit-Tallied O H job.run_id p
  on_spawned-Tallied job (some h) p =
      let q = remember_container T true job.run_id (H.container_name h) p in
      let e = view-remember_container T (frame O H) job.run_id (H.container_name h) p in
      elim (Bool-cases job.raw_command) [
        | inl raw ↦ rw raw (
            Tallied-from p.world.1 q.world.1 (run_raw T HT job h q) e (run_raw-Tallied O H job h q))
        | inr agent ↦ rw agent (
            Tallied-from p.world.1 q.world.1 (run_agent T HT job h q) e
              (run_agent-Tallied O H job h q))
      ]

  first_cooldown-tally :
      (job : Job) (p : Process T.World) → (first_cooldown T HT job p).0.world.1 ≡ p.world.1
  unfolding first_cooldown
  first_cooldown-tally job p = elim (Bool-cases (text_eq (cli_of job) (codes "codex"))) [
    | inl codex ↦ rw codex (view-cooldown_wait T (frame O H) job.run_id p)
    | inr other ↦ rw other refl
  ]

  run_cold-Tallied : (job : Job) (p : Process T.World) → Tallied O H p.world.1 (run_cold T HT job p)
  unfolding run_cold
  run_cold-Tallied job p =
      let t = p.world.1 in
      let ready = HT.prepare_cold job p.world in
      let p1 = at_world T p ready.0 in
      let a = is_aborted T true job.run_id p1 in
      let e = view-is_aborted T (frame O H) job.run_id p1 in
      let c = first_cooldown T HT job a.0 in
      let f = first_cooldown-tally job a.0 ∙ e in
      let s = T.run_container c.0.world in
      let q = at_world T c.0 s.0 in
      elim (Bool-cases ready.1) [
        | inl built ↦ elim (Bool-cases a.1) [
          | inl stopped ↦
              rw (built, stopped)
                (Tallied-from t a.0.world.1 (aborted_exit T HT job.run_id a.0) e
                  (aborted_exit-Tallied O H job.run_id a.0))
          | inr running ↦ elim (Bool-cases c.1) [
            | inl go ↦
                rw (built, running, go)
                  (Tallied-from t q.world.1 (on_spawned T HT job s.1 q) f
                    (on_spawned-Tallied job s.1 q))
            | inr stopped ↦
                rw (built, running, stopped)
                  (Tallied-from t c.0.world.1 (aborted_exit T HT job.run_id c.0) f
                    (aborted_exit-Tallied O H job.run_id c.0))
          ]
        ]
        | inr failed ↦ rw failed (spawn_error_exit-Tallied O H job.run_id p1)
      ]

  on_acquired-tally :
      (job : Job) (a : Warm) (p : Process T.World)
      → (on_acquired T HT job a p).0.world.1 ≡ p.world.1
  unfolding on_acquired
  on_acquired-tally job warm_full p = refl
  on_acquired-tally job warm_failed p = refl
  on_acquired-tally job (warm_named name) p =
      let q = remember_container T true job.run_id name p in
      let e = view-remember_container T (frame O H) job.run_id name p in
      elim (Bool-cases (HT.feed_turn job name q.world).1) [
        | inl fed ↦ rw fed e
        | inr refused ↦ rw refused e
      ]

  dispatch_warm_turn-tally :
      (job : Job) (p : Process T.World) → (dispatch_warm_turn T HT job p).0.world.1 ≡ p.world.1
  unfolding dispatch_warm_turn
  dispatch_warm_turn-tally job p =
      let pulled = HT.pull_warm job p.world in
      let got = HT.acquire job pulled.0 in
      elim (Bool-cases pulled.1) [
        | inl there ↦ rw there (on_acquired-tally job got.1 (at_world T p got.0))
        | inr missing ↦ rw missing refl
      ]

  on_warm-Tallied :
      (job : Job) (r : Process T.World × Warm) → Tallied O H r.0.world.1 (on_warm T HT job r)
  unfolding on_warm
  on_warm-Tallied job (p, warm_full) = run_cold-Tallied (fallback T HT job) p
  on_warm-Tallied job (p, warm_named name) = refl
  on_warm-Tallied job (p, warm_failed) = ap closed (
      report_end-tally O H job.run_id (codes "spawn_error")
        (codes "runner failed to dispatch warm turn: ") (pos 1) p.world)

  try_warm-Tallied : (job : Job) (p : Process T.World) → Tallied O H p.world.1 (try_warm T HT job p)
  unfolding try_warm
  try_warm-Tallied job p =
      let engine = T.connect_engine p.world in
      let q = at_world T p engine.0 in
      elim (Bool-cases engine.1) [
        | inl there ↦ rw there (
            Tallied-from p.world.1 (dispatch_warm_turn T HT job q).0.world.1
              (on_warm T HT job (dispatch_warm_turn T HT job q)) (dispatch_warm_turn-tally job q)
              (on_warm-Tallied job (dispatch_warm_turn T HT job q)))
        | inr missing ↦ rw missing (on_warm-Tallied job (q, warm_failed))
      ]

  either-tally :
      (b : Bool) (x y : T.World × Job) (t : Tally)
      → x.0.1 ≡ t
      → y.0.1 ≡ t
      → (if b then x else y).0.1 ≡ t
  either-tally true x y t e f = e
  either-tally false x y t e f = f

  mint_warm_session_id-tally :
      (job : Job) (w : T.World) → (mint_warm_session_id T HT job w).0.1 ≡ w.1
  unfolding mint_warm_session_id
  mint_warm_session_id-tally job w = either-tally _ _ _ w.1 refl refl

  materialise-tally : (job : Job) (w : T.World) → (materialise T HT job w).0.1 ≡ w.1
  unfolding materialise
  materialise-tally job w = either-tally job.workspace_access _ _ w.1 refl refl

  prepared-tally :
      (job : Job) (w : T.World)
      → (mint_warm_session_id T HT (materialise T HT job w).1 (materialise T HT job w).0).0.1 ≡ w.1
  prepared-tally job w =
      mint_warm_session_id-tally (materialise T HT job w).1 (materialise T HT job w).0
      ∙ materialise-tally job w

  -- Whatever the calls answer, a job does on its way out, exactly once, what its way out says: every
  -- exit of the cold path and the failed warm dispatch publish `done` once and start the index once;
  -- a dispatched warm turn publishes no `done` and has the index started behind the relay's; only a
  -- job with no Redis client does neither. The Redis client is closed once on every exit but the one
  -- behind a failed spawn, which leaves it open.
  pub run_job_blocking-Tallied :
      (connected : Bool) (job : Job) (p : Process T.World)
      → Tallied O H p.world.1 (run_job_blocking T HT connected job p)
  unfolding run_job_blocking
  run_job_blocking-Tallied false job p = refl
  run_job_blocking-Tallied true job p =
      let m = materialise T HT job p.world in
      let minted = mint_warm_session_id T HT m.1 m.0 in
      let q = at_world T p minted.0 in
      let e = prepared-tally job p.world in
      elim (Bool-cases (may_go_warm T HT minted.1)) [
        | inl warm ↦ rw warm (
            Tallied-from p.world.1 q.world.1 (try_warm T HT minted.1 q) e
              (try_warm-Tallied minted.1 q))
        | inr cold ↦ rw cold (
            Tallied-from p.world.1 q.world.1 (run_cold T HT minted.1 q) e
              (run_cold-Tallied minted.1 q))
      ]
