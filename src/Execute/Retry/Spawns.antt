-- ===== src/Execute/Retry/Spawns.antt =====
-- execute.py: how many containers the attempts of a job start (`_run_cold_agent_with_retry`).
use aw_app_agents_platform_r.Prelude.{
  ℕ, zero, suc, ◌+◌, ◌≤◌, refl, Bool, true, false, Option, none, some, ℤ, arith, if◌then◌else◌,
}
use aw_app_agents_platform_r.Prelude.Texts.{Text, codes}
use aw_app_agents_platform_r.Execute.Outside.{Outside, result}
use aw_app_agents_platform_r.Execute.Registry.{Process}
use aw_app_agents_platform_r.Execute.Stream.{Reason, stream_cold_attempt}
use aw_app_agents_platform_r.Execute.Cooldown.{at_world}
use aw_app_agents_platform_r.Execute.Retry.{
  prepare, spawn_error, on_respawn, on_prepared, on_attempt, attempts_from,
  run_cold_agent_with_retry,
}
use aw_app_agents_platform_r.Execute.Frame.{Frame, view-publish_message, view-stream_cold_attempt}
use aw_app_agents_platform_r.Execute.Frame.Waits.{view-prepare}

-- The same calls, with the number of containers that were asked for.
abbrev pub counted : Outside → Outside
counted O = record {
  World = O.World × ℕ;
  Handle = O.Handle;
  json_dumps = O.json_dumps;
  json_loads = O.json_loads;
  rewrite_stream_line = λ t i w. let (v, a) = O.rewrite_stream_line t i w.0 in ((v, w.1), a);
  redis_get = λ k w. let (v, a) = O.redis_get k w.0 in ((v, w.1), a);
  redis_set = λ k t n w. let (v, a) = O.redis_set k t n w.0 in ((v, w.1), a);
  redis_delete = λ k w. let (v, a) = O.redis_delete k w.0 in ((v, w.1), a);
  redis_close = λ w. (O.redis_close w.0, w.1);
  xadd_line = λ k t w. let (v, a) = O.xadd_line k t w.0 in ((v, w.1), a);
  xadd_done = λ k c w. let (v, a) = O.xadd_done k c w.0 in ((v, w.1), a);
  expire = λ k n w. let (v, a) = O.expire k n w.0 in ((v, w.1), a);
  connect_engine = λ w. let (v, a) = O.connect_engine w.0 in ((v, w.1), a);
  get_container = λ n w. let (v, a) = O.get_container n w.0 in ((v, w.1), a);
  kill = λ h w. let (v, a) = O.kill h w.0 in ((v, w.1), a);
  remove = λ h w. let (v, a) = O.remove h w.0 in ((v, w.1), a);
  read_stderr = λ h w. let (v, a) = O.read_stderr h w.0 in ((v, w.1), a);
  logs = O.logs;
  wait = λ h w. let (v, a) = O.wait h w.0 in ((v, w.1), a);
  run_container = λ w. let (v, a) = O.run_container w.0 in ((v, suc w.1), a);
  monotonic = λ w. let (v, a) = O.monotonic w.0 in ((v, w.1), a);
  sleep = λ n w. (O.sleep n w.0, w.1);
  uniform = λ a b w. let (v, x) = O.uniform a b w.0 in ((v, w.1), x);
}

module _ (O : Outside) where
  abbrev N : Outside
  N = counted O

  abbrev frame : Frame N
  frame = record {
    View = ℕ;
    view = λ w. w.1;
    rewrite = λ i t w. refl;
    get = λ k w. refl;
    set = λ k t n w. refl;
    delete = λ k w. refl;
    line = λ k t w. refl;
    expired = λ k n w. refl;
    removed = λ h w. refl;
    stderr = λ h w. refl;
    waited = λ h w. refl;
    clock = λ w. refl;
    slept = λ n w. refl;
    random = λ a b w. refl;
  }

  on_attempt-le :
      (n : ℕ) (a : Option (ℤ × Option Reason)) (p : Process N.World)
      (again : ℤ → Reason → Process N.World × Option ℤ)
      → p.world.1 ≤ n
      → ((returncode : ℤ) (reason : Reason) → (again returncode reason).0.world.1 ≤ n)
      → (on_attempt N a p again).0.world.1 ≤ n
  unfolding on_attempt
  on_attempt-le n none p again le h = le
  on_attempt-le n (some (returncode, none)) p again le h = le
  on_attempt-le n (some (returncode, some reason)) p again le h = h returncode reason

  on_prepared-le :
      (n : ℕ) (q : Process N.World × Option Bool) (returncode : ℤ) (r : Text)
      (respawn : Process N.World → Process N.World × Option ℤ)
      → q.0.world.1 ≤ n
      → (respawn q.0).0.world.1 ≤ n
      → (on_prepared N q returncode r respawn).0.world.1 ≤ n
  unfolding on_prepared
  on_prepared-le n (p, none) returncode r respawn le h = le
  on_prepared-le n (p, some false) returncode r respawn le h = le
  on_prepared-le n (p, some true) returncode r respawn le h = h

  on_respawn-le :
      (n : ℕ) (h : Option O.Handle) (r : Text) (p : Process N.World)
      (attempts : O.Handle → Process N.World × Option ℤ)
      → p.world.1 ≤ n
      → ((x : O.Handle) → (attempts x).0.world.1 ≤ n)
      → (on_respawn N h r p attempts).0.world.1 ≤ n
  unfolding on_respawn spawn_error
  on_respawn-le n none r p attempts le more = omega (
    arith,
    le,
    view-publish_message N frame r
        (result (codes "spawn_error") (codes "runner failed to respawn container on retry: "))
        p.world,
  )
  on_respawn-le n (some x) r p attempts le more = more x

  attempts_from-le :
      (left attempt : ℕ) (cr : Bool) (h : O.Handle) (r : Text) (p : Process N.World)
      → (attempts_from N left attempt cr h r p).0.world.1 ≤ p.world.1 + left
  unfolding attempts_from
  attempts_from-le zero attempt cr h r p =
      let a = stream_cold_attempt N h r cr true p.world in
      let e = view-stream_cold_attempt N frame h r cr true p.world in
      on_attempt-le (p.world.1 + 0) a.1 (at_world N p a.0)
        (λ returncode reason. (at_world N p a.0, some returncode)) (omega (arith, e))
        (λ returncode reason. omega (arith, e))
  attempts_from-le (suc left) attempt cr h r p =
      let a = stream_cold_attempt N h r cr false p.world in
      let p1 = at_world N p a.0 in
      let e = view-stream_cold_attempt N frame h r cr false p.world in
      let n = p.world.1 + suc left in
      on_attempt-le n a.1 p1 _ (omega (arith, e)) (λ returncode reason.
        let q = prepare N reason (suc attempt) r p1 in
        let f = view-prepare N frame reason (suc attempt) r p1 in
        let s = N.run_container q.0.world in
        on_prepared-le n q returncode r _ (omega (arith, e, f)) (
          on_respawn-le n s.1 r (at_world N q.0 s.0) _ (omega (arith, e, f)) (λ x.
            omega (arith, e, f, attempts_from-le left (suc attempt) cr x r (at_world N q.0 s.0)))))

  -- Behind the container that is running already, a job of Codex starts at most two more containers,
  -- and any other job none, whatever the calls answer.
  pub run_cold_agent_with_retry-spawns :
      (cr : Bool) (h : O.Handle) (run_id : Text) (p : Process N.World)
      → (run_cold_agent_with_retry N cr h run_id p).0.world.1 ≤ p.world.1 + (if cr then 2 else 0)
  unfolding run_cold_agent_with_retry
  run_cold_agent_with_retry-spawns true h run_id p = attempts_from-le 2 1 true h run_id p
  run_cold_agent_with_retry-spawns false h run_id p = attempts_from-le 0 1 false h run_id p
