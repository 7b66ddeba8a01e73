-- ===== src/Execute/Job.antt =====
-- execute.py: a job from its dispatch to its end, `_run_job_blocking`, with `mint_warm_session_id` and
-- `_dispatch_warm_turn`.
pub mod Tally
pub mod Exits
pub mod Counts
use aw_app_agents_platform_r.Prelude.{
  ℕ, zero, suc, Bool, true, false, ◌&&◌, ◌||◌, not, Option, none, some, List, [], ◌∷◌,
  if◌then◌else◌, ltb, min, ℤ, pos, negsuc, is_some,
}
use aw_app_agents_platform_r.Prelude.Texts.{Text, codes, text_eq, is_empty, strip}
use aw_app_agents_platform_r.Execute.Outside.{Outside, result}
use aw_app_agents_platform_r.Execute.Publish.{publish_line, publish_message, publish_done}
use aw_app_agents_platform_r.Execute.Registry.{
  Process, or_none, remember_container, is_aborted, forget_run,
}
use aw_app_agents_platform_r.Execute.Cooldown.{at_world, cooldown_wait}
use aw_app_agents_platform_r.Execute.Retry.{run_cold_agent_with_retry}

-- The job as it is dispatched, as far as its run depends on it; `warm_minted_session` is the key that
-- `mint_warm_session_id` sets, and `raw_command`, `one_shot`, `new_session` are truth values.
pub record Job : Type 0 where
  pub run_id : Text
  pub cli : Option Text
  pub agent_id : Option Text
  pub session_id : Option Text
  pub prompt : Text
  pub workspace_access : Bool
  pub one_shot : Bool
  pub new_session : Bool
  pub warm_minted_session : Bool
  pub raw_command : Bool
  pub timeout_seconds : Option ℕ

-- What `get_or_create` and its callers answer: the container's name, a refusal, or an error.
pub data Warm : Type 0 where
  warm_named : Text → Warm
  warm_full warm_failed : Warm

-- How `_run_job_blocking` leaves.
pub data Route : Type 0 where
  no_redis went_warm warm_error aborted_before_spawn spawn_failed ran_raw ran_cold : Route

-- `job.get("cli") or "claude"`
abbrev pub or_claude : Option Text → Text
or_claude none = codes "claude"
or_claude (some cli) = if is_empty cli then codes "claude" else cli

unfoldable pub cli_of : Job → Text
cli_of job = or_claude job.cli

-- `min(max(1, int(job.get("timeout_seconds") or 3600)), 24 * 3600)`
unfoldable pub timeout_of : Option ℕ → ℕ
timeout_of none = 3600
timeout_of (some zero) = 3600
timeout_of (some (suc n)) = min (suc n) 86400

-- `status.get("StatusCode", 1)` of a wait, 1 where it raises.
abbrev pub or_one : Option ℤ → ℤ
or_one none = pos 1
or_one (some returncode) = returncode

-- The rest of the app and of the docker SDK, as a job uses them: `prepare_cold` connects to the engine,
-- builds the container's arguments and pulls its image, `pull_warm` pulls the image of a warm
-- container; both fall back to an image that is there. `index_start_after_done` is
-- `start_after_stream_done`.
pub record Host (O : Outside) : Type 0 where
  pub warm_enabled : Bool
  pub uuid4 : O.World → O.World × Text
  pub materialise_inbound : Job → O.World → O.World × Option Text
  pub pull_warm : Job → O.World → O.World × Bool
  pub acquire : Job → O.World → O.World × Warm
  pub feed_turn : Job → Text → O.World → O.World × Bool
  pub maybe_reap : O.World → O.World
  pub prepare_cold : Job → O.World → O.World × Bool
  pub container_name : O.Handle → Text
  pub container_logs : O.Handle → O.World → O.World × Option Text
  pub start_timer : O.Handle → ℕ → O.World → O.World
  pub cancel_timer : O.World → O.World
  pub index_start : Text → O.World → O.World
  pub index_start_after_done : Text → O.World → O.World

module _ (O : Outside) (H : Host O) where
  -- `mint_warm_session_id`
  unfoldable pub mint_warm_session_id : Job → O.World → O.World × Job
  unfolding cli_of or_none text_eq
  mint_warm_session_id job w =
      let u = H.uuid4 w in
      if H.warm_enabled
        && (text_eq (cli_of job) (codes "claude")
            && (is_some (or_none job.agent_id)
                && (not (is_some (or_none job.session_id)) && not job.one_shot)))
      then (u.0, record job { session_id = some u.1; warm_minted_session = true })
      else (w, job)

  -- The attachments of an agent that mounts the workspace.
  unfoldable pub materialise : Job → O.World → O.World × Job
  materialise job w =
      let r = H.materialise_inbound job w in
      if job.workspace_access
      then (r.0, record job { prompt = (elim r.1 [ none ↦ job.prompt | some t ↦ t ]) })
      else (w, job)

  abbrev pub may_go_warm : Job → Bool
  may_go_warm job =
      H.warm_enabled
      && ((text_eq (cli_of job) (codes "claude") || text_eq (cli_of job) (codes "codex"))
          && (is_some (or_none job.agent_id)
              && (is_some (or_none job.session_id) && not job.one_shot)))

  unfoldable pub publish_result : Text → Text → Text → O.World → O.World
  unfolding publish_message
  publish_result run_id subtype text w = publish_message O run_id (result subtype text) w

  -- `_publish_done` and `execution_index.start`, which stand together.
  unfoldable pub conclude : Text → ℤ → O.World → O.World
  unfolding publish_done
  conclude run_id returncode w = H.index_start run_id (publish_done O run_id returncode w)

  -- The result of a job that does not run, and its end.
  unfoldable pub report_end : Text → Text → Text → ℤ → O.World → O.World
  unfolding publish_result conclude
  report_end run_id subtype text returncode w =
      conclude run_id returncode (publish_result run_id subtype text w)

  -- `_forget_run` and `r.close()`
  unfoldable pub leave : Text → Process O.World → Process O.World
  unfolding forget_run
  leave run_id p = let q = forget_run O true run_id p in at_world O q (O.redis_close q.world)

  -- `_dispatch_warm_turn`, from the acquired container on; the answer's name is not used.
  unfoldable pub on_acquired : Job → Warm → Process O.World → Process O.World × Warm
  unfolding remember_container
  on_acquired job warm_full p = (p, warm_full)
  on_acquired job warm_failed p = (p, warm_failed)
  on_acquired job (warm_named name) p =
      let q = remember_container O true job.run_id name p in
      let fed = H.feed_turn job name q.world in
      if fed.1
      then (at_world O q (H.maybe_reap fed.0), warm_named name)
      else (at_world O q fed.0, warm_failed)

  unfoldable pub dispatch_warm_turn : Job → Process O.World → Process O.World × Warm
  unfolding on_acquired
  dispatch_warm_turn job p =
      let pulled = H.pull_warm job p.world in
      let got = H.acquire job pulled.0 in
      if pulled.1
      then on_acquired job got.1 (at_world O p got.0)
      else (at_world O p pulled.0, warm_failed)

  -- The three exits before a container runs, and the two behind it.
  unfoldable pub spawn_error_exit : Text → Process O.World → Process O.World × Route
  unfolding report_end
  spawn_error_exit run_id p = (
    at_world O p (
        report_end run_id (codes "spawn_error") (codes "runner failed to spawn container: ") (pos 1)
          p.world),
    spawn_failed,
  )

  unfoldable pub aborted_exit : Text → Process O.World → Process O.World × Route
  unfolding report_end leave
  aborted_exit run_id p = (
    leave run_id (
        at_world O p (
          report_end run_id (codes "aborted") (codes "aborted before the container started")
            (negsuc 8) p.world)),
    aborted_before_spawn,
  )

  unfoldable pub publish_output : Text → Option Text → O.World → O.World
  unfolding publish_line strip
  publish_output run_id none w = w
  publish_output run_id (some output) w =
      if is_empty (strip output) then w else publish_line O run_id output w

  unfoldable pub run_raw : Job → O.Handle → Process O.World → Process O.World × Route
  unfolding publish_output conclude leave timeout_of
  run_raw job container p =
      let w1 = H.start_timer container (timeout_of job.timeout_seconds) p.world in
      let status = O.wait container w1 in
      let output = H.container_logs container status.0 in
      let w2 = H.cancel_timer (publish_output job.run_id output.1 output.0) in
      let w3 = conclude job.run_id (or_one status.1) w2 in
      (leave job.run_id (at_world O p (O.remove container w3).0), ran_raw)

  unfoldable pub run_agent : Job → O.Handle → Process O.World → Process O.World × Route
  unfolding run_cold_agent_with_retry conclude leave cli_of text_eq
  run_agent job container p =
      let r =
        run_cold_agent_with_retry O (text_eq (cli_of job) (codes "codex")) container job.run_id p in
      (leave job.run_id (at_world O r.0 (conclude job.run_id (or_one r.1) r.0.world)), ran_cold)

  unfoldable pub on_spawned : Job → Option O.Handle → Process O.World → Process O.World × Route
  unfolding spawn_error_exit remember_container run_raw run_agent
  on_spawned job none p = spawn_error_exit job.run_id p
  on_spawned job (some container) p =
      let q = remember_container O true job.run_id (H.container_name container) p in
      if job.raw_command then run_raw job container q else run_agent job container q

  -- The cooldown of a job of Codex, before its first container.
  unfoldable pub first_cooldown : Job → Process O.World → Process O.World × Bool
  unfolding cooldown_wait cli_of text_eq
  first_cooldown job p =
      if text_eq (cli_of job) (codes "codex") then cooldown_wait O true job.run_id p else (p, true)

  -- The cold path.
  unfoldable pub run_cold : Job → Process O.World → Process O.World × Route
  unfolding is_aborted first_cooldown on_spawned spawn_error_exit aborted_exit
  run_cold job p =
      let ready = H.prepare_cold job p.world in
      let a = is_aborted O true job.run_id (at_world O p ready.0) in
      let c = first_cooldown job a.0 in
      let s = O.run_container c.0.world in
      if not ready.1
      then spawn_error_exit job.run_id (at_world O p ready.0)
      else if a.1
      then aborted_exit job.run_id a.0
      else if not c.1
      then aborted_exit job.run_id c.0
      else on_spawned job s.1 (at_world O c.0 s.0)

  -- A minted session does not exist yet: the cold path must create it.
  unfoldable pub fallback : Job → Job
  fallback job = if job.warm_minted_session then record job { new_session = true } else job

  unfoldable pub on_warm : Job → Process O.World × Warm → Process O.World × Route
  unfolding run_cold fallback report_end
  on_warm job (p, warm_full) = run_cold (fallback job) p
  on_warm job (p, warm_named name) =
      (at_world O p (O.redis_close (H.index_start_after_done job.run_id p.world)), went_warm)
  on_warm job (p, warm_failed) = (
    at_world O p (
        O.redis_close (
          report_end job.run_id (codes "spawn_error")
            (codes "runner failed to dispatch warm turn: ") (pos 1) p.world)),
    warm_error,
  )

  unfoldable pub try_warm : Job → Process O.World → Process O.World × Route
  unfolding dispatch_warm_turn on_warm
  try_warm job p =
      let engine = O.connect_engine p.world in
      let q = at_world O p engine.0 in
      on_warm job (if engine.1 then dispatch_warm_turn job q else (q, warm_failed))

  -- `_run_job_blocking`; `connected`: the Redis client could be built.
  unfoldable pub run_job_blocking : Bool → Job → Process O.World → Process O.World × Route
  unfolding materialise mint_warm_session_id try_warm run_cold
  run_job_blocking connected job p =
      let m = materialise job p.world in
      let minted = mint_warm_session_id m.1 m.0 in
      let q = at_world O p minted.0 in
      if not connected
      then (p, no_redis)
      else if may_go_warm minted.1
      then try_warm minted.1 q
      else run_cold minted.1 q
