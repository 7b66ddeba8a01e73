-- ===== src/Execute/Tests.antt =====
-- The theorems on execute.py at concrete inputs.
use aw_app_agents_platform_r.Prelude.{
  ◌+◌, ◌-◌, ◌≤◌, ◌≡◌, refl, true, false, if◌then◌else◌, none, some, List, [], ◌∷◌, is_some, arith,
}
use aw_app_agents_platform_r.Prelude.Texts.{
  Text, codes, text_eq, starts_with, contains, strip, strip_left, is_space,
}
use aw_app_agents_platform_r.Execute.Outside.{Outside}
use aw_app_agents_platform_r.Execute.Sample.{
  bench, start, fresh, bench_redis, bench_clock, full_host, first_turn,
}
use aw_app_agents_platform_r.Execute.Bounded.{
  start_job, start_jobs, get_item, set_item, evict, new_run,
}
use aw_app_agents_platform_r.Execute.Bounded.Once.{start_job-start_jobs}
use aw_app_agents_platform_r.Execute.Registry.{
  candidates_of, or_none, cold_container_name, monitor_container_name, warm_half, lookup_container,
  remember_container, forget_container, container_reg_key, mirror, abort_flag_key, read_mirror,
  is_aborted,
}
use aw_app_agents_platform_r.Execute.Registry.Keys.{
  kept, dropped, lookup_container-remember_container,
}
use aw_app_agents_platform_r.Execute.Registry.Candidates.{
  Tidy, FirstIs, Offered, offers, candidates_of-Tidy,
}
use aw_app_agents_platform_r.Execute.Retry.Looks.{
  Seen, unseen, watched, run_cold_agent_with_retry-looks,
}
use aw_app_agents_platform_r.Execute.Stream.{
  stream_cold_attempt, to_first_line, split_lines, is_exhaustion, reason_of, kind_of, publish_all,
  on_kind, handle_line, handle_lines, handle_chunks, settle_attempt, flush,
}
use aw_app_agents_platform_r.Execute.Cooldown.{
  on_look, poll_cooldown, after_poll, wait_turns, cooldown_wait,
}
use aw_app_agents_platform_r.Execute.Retry.{
  max_attempts, run_cold_agent_with_retry, wait_cooldown, back_off, prepare, on_respawn,
  on_prepared, on_attempt, attempts_from,
}
use aw_app_agents_platform_r.Execute.Retry.Spawns.{counted, run_cold_agent_with_retry-spawns}
use aw_app_agents_platform_r.Execute.Retry.Ends.{run_cold_agent_with_retry-some}
use aw_app_agents_platform_r.Execute.Job.{run_job_blocking}
use aw_app_agents_platform_r.Execute.Job.Counts.{run_job_blocking-Tallied}
use aw_app_agents_platform_r.Execute.Job.Tally.{tallied, tallied_host, Tallied}
use aw_app_agents_platform_r.Execute.Publish.{
  publish_line, publish_message, on_stderr, fetch_and_publish_cli_stderr,
}

abbrev r1 : Text
r1 = codes "r1"

abbrev calls : List Text
calls = codes "r2" ∷ r1 ∷ [] ∷ codes "r3" ∷ []

start_job-start_jobs_example :
    (start_job r1 (start_jobs calls (start_job r1 ((codes "r0", tt) ∷ [])).0).0).1 ≡ false
unfolding start_job start_jobs get_item set_item evict new_run text_eq
start_job-start_jobs_example =
    start_job-start_jobs r1 calls ((codes "r0", tt) ∷ []) refl refl (omega arith)

abbrev cold : Text
cold = codes "aw-runner-run-r1"

lookup_container-remember_container_example :
    ((lookup_container bench true r1 (kept bench r1 cold fresh)).1 ≡ some cold)
    × ((lookup_container bench true r1
          (record fresh { world = (kept bench r1 cold fresh).world })).1
        ≡ some cold)
    × ((lookup_container bench true r1
          (record fresh { world = (dropped bench r1 cold fresh).world })).1
        ≡ none)
unfolding get_item container_reg_key remember_container forget_container mirror text_eq
lookup_container-remember_container_example =
    lookup_container-remember_container bench bench_redis true r1 cold fresh fresh
      ((kept bench r1 cold fresh).world.keys (codes "runner:run:r1:container"))
      ((dropped bench r1 cold fresh).world.keys (codes "runner:run:r1:container"))
      (omega arith, omega arith) refl refl refl refl refl refl

candidates_of-Tidy_example :
    let cs = candidates_of r1 (some cold) none (some (codes "a")) (some (codes "s")) in
    Tidy cs
    × FirstIs (or_none (some cold)) cs
    × Offered (or_none none) cs
    × (offers (cold_container_name r1) cs ≡ true)
    × (offers (monitor_container_name r1) cs ≡ true)
    × Offered (warm_half (or_none (some (codes "a"))) (or_none (some (codes "s")))) cs
candidates_of-Tidy_example =
    candidates_of-Tidy r1 (some cold) none (some (codes "a")) (some (codes "s"))

run_cold_agent_with_retry-spawns_example :
    (run_cold_agent_with_retry
      (counted bench)
      true
      (codes "thread.start")
      r1
      (record { names = []; aborted = []; world = (start, 0) })).0.world.1
    ≤ 0 + (max_attempts true - 1)
run_cold_agent_with_retry-spawns_example =
    run_cold_agent_with_retry-spawns bench true (codes "thread.start") r1
      (record { names = []; aborted = []; world = (start, 0) })

run_cold_agent_with_retry-some_example :
    is_some (run_cold_agent_with_retry bench true (codes "thread.start") r1 fresh).1 ≡ true
run_cold_agent_with_retry-some_example =
    run_cold_agent_with_retry-some bench bench_clock true (codes "thread.start") r1 fresh

run_cold_agent_with_retry-looks_example :
    let e =
      run_cold_agent_with_retry
        (watched r1 bench)
        true
        (codes "thread.start")
        r1
        (record { names = []; aborted = []; world = (start, some unseen) }) in
    (s : Seen) × (e.0.world.1 ≡ some s)
run_cold_agent_with_retry-looks_example =
    run_cold_agent_with_retry-looks bench r1 true (codes "thread.start") fresh

run_job_blocking-Tallied_example :
    Tallied bench full_host
      (record { dones = 0; starts = 0; starts_after = 0; closes = 0 })
      (run_job_blocking (tallied bench) (tallied_host bench full_host) true first_turn (record {
        names = [];
        aborted = [];
        world = (start, record { dones = 0; starts = 0; starts_after = 0; closes = 0 });
      }))
run_job_blocking-Tallied_example =
    run_job_blocking-Tallied bench full_host true first_turn (record {
      names = [];
      aborted = [];
      world = (start, record { dones = 0; starts = 0; starts_after = 0; closes = 0 });
    })

-- A Redis in which the abort's flag arrives while the job sleeps.
abbrev late : Outside
late = record bench {
  sleep = λ d w. record w {
    keys = λ k. (if text_eq k (codes "runner:run:r1:aborted") then some (codes "1") else w.keys k);
  };
}

-- The abort lands in the backoff behind a contention: the container is started again all the same.
abort_in_backoff :
    (run_cold_agent_with_retry
      (counted late)
      true
      (codes "thread.start")
      r1
      (record { names = []; aborted = []; world = (start, 0) })).0.world.1
    ≡ 1
unfolding publish_line publish_message on_stderr fetch_and_publish_cli_stderr abort_flag_key or_none
    read_mirror is_aborted to_first_line split_lines is_exhaustion reason_of kind_of publish_all
    on_kind handle_line handle_lines handle_chunks settle_attempt flush stream_cold_attempt on_look
    poll_cooldown after_poll wait_turns cooldown_wait wait_cooldown back_off prepare on_respawn
    on_prepared on_attempt attempts_from run_cold_agent_with_retry get_item text_eq starts_with
    contains strip strip_left is_space
abort_in_backoff = refl
