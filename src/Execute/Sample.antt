-- ===== src/Execute/Sample.antt =====
-- An outside world to run execute.py in: a Redis, a clock, and an engine with one container.
use aw_app_agents_platform_r.Prelude.{
  ℕ, ◌+◌, ◌≡◌, refl, true, false, Option, none, some, List, [], ◌∷◌, ◌++◌, if◌then◌else◌, pos,
  arith,
}
use aw_app_agents_platform_r.Prelude.Texts.{Text, codes, text_eq, text_eq_refl}
use aw_app_agents_platform_r.Execute.Outside.{Outside, not_json, object}
use aw_app_agents_platform_r.Execute.Registry.{Process}
use aw_app_agents_platform_r.Execute.Registry.Keys.{LawfulRedis}
use aw_app_agents_platform_r.Execute.Cooldown.Bounds.{Clock}
use aw_app_agents_platform_r.Execute.Job.{Job, Host, warm_full}

pub record Bench : Type 0 where
  pub keys : Text → Option Text
  pub clock : ℕ
  pub lines : List Text

-- A container's log is the text that is its handle, in two chunks that cut a line; every exit is 1.
abbrev pub bench : Outside
bench = record {
  World = Bench;
  Handle = Text;
  json_dumps = λ m. codes "{}";
  json_loads = λ t.
      (if text_eq t (codes "429")
        then object (some (codes "error")) (some (codes "exceeded retry limit 429"))
        else not_json);
  rewrite_stream_line = λ t i w. (w, none);
  redis_get = λ k w. (w, some (w.keys k));
  redis_set =
      λ k v n w. (record w { keys = λ j. (if text_eq j k then some v else w.keys j) }, true);
  redis_delete = λ k w. (record w { keys = λ j. (if text_eq j k then none else w.keys j) }, true);
  redis_close = λ w. w;
  xadd_line = λ k t w. (record w { lines = w.lines ++ t ∷ [] }, true);
  xadd_done = λ k c w. (w, true);
  expire = λ k n w. (w, true);
  connect_engine = λ w. (w, true);
  get_container = λ n w. (w, (if text_eq n (codes "aw-runner-run-r1") then some n else none));
  kill = λ h w. (w, true);
  remove = λ h w. (w, true);
  read_stderr = λ h w. (w, some (codes "warning"));
  logs = λ h. (h ∷ (codes "ed" ++ 10 ∷ codes "429") ∷ [], false);
  wait = λ h w. (w, some (pos 1));
  run_container = λ w. (w, some (codes "thread.start"));
  monotonic = λ w. (w, w.clock);
  sleep = λ d w. record w { clock = w.clock + d };
  uniform = λ a b w. (w, a);
}

abbrev pub start : Bench
start = record { keys = λ k. none; clock = 5; lines = [] }

abbrev pub fresh : Process Bench
fresh = record { names = []; aborted = []; world = start }

abbrev pub bench_redis : LawfulRedis bench
bench_redis = record {
  stored = λ w k. w.keys k;
  stored-set = λ k v n w h. set_own k (some v) (w.keys k);
  stored-delete = λ k w h. set_own k none (w.keys k);
  get_stored = λ k v w h. got v (w.keys k) h;
}
  where
    set_own : (k : Text) (v o : Option Text) → (if text_eq k k then v else o) ≡ v
    set_own k v o = rw (text_eq_refl k) refl

    got : (v o : Option Text) → some o ≡ some v → v ≡ o
    got v o h = cc h

abbrev pub bench_clock : Clock bench
bench_clock = record {
  now = λ w. w.clock;
  monotonic_now = λ w. refl;
  monotonic_le = λ w. omega arith;
  get_le = λ k w. omega arith;
  sleep_le = λ d w. omega arith;
}

-- A pool of warm containers that is full.
abbrev pub full_host : Host bench
full_host = record {
  warm_enabled = true;
  uuid4 = λ w. (w, codes "u-1");
  materialise_inbound = λ j w. (w, none);
  pull_warm = λ j w. (w, true);
  acquire = λ j w. (w, warm_full);
  feed_turn = λ j n w. (w, true);
  maybe_reap = λ w. w;
  prepare_cold = λ j w. (w, true);
  container_name = λ h. codes "aw-runner-run-r1";
  container_logs = λ h w. (w, some (codes "out"));
  start_timer = λ h n w. w;
  cancel_timer = λ w. w;
  index_start = λ r w. w;
  index_start_after_done = λ r w. w;
}

abbrev pub first_turn : Job
first_turn = record {
  run_id = codes "r1";
  cli = none;
  agent_id = some (codes "a1");
  session_id = none;
  prompt = codes "hi";
  workspace_access = false;
  one_shot = false;
  new_session = false;
  warm_minted_session = false;
  raw_command = false;
  timeout_seconds = none;
}
