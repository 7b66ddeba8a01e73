-- ===== src/Execute/Abort/Monitor.antt =====
-- The calls of `abort_job` (execute.py), and a monitor that allows them in one order.
use aw_app_agents_platform_r.Prelude.{
  ◌≡◌, Bool, true, false, Option, none, some, List, [], ◌∷◌, ◌++◌, ◌&&◌, ◌||◌, not, ℤ, pos, negsuc,
  ◌==◌, if◌then◌else◌,
}
use aw_app_agents_platform_r.Prelude.Texts.{Text, text_eq, is_empty, strip}
use aw_app_agents_platform_r.Execute.Outside.{Outside}
use aw_app_agents_platform_r.Execute.Publish.{stream_key}
use aw_app_agents_platform_r.Execute.Registry.{abort_flag_key, container_reg_key}
use aw_app_agents_platform_r.Execute.Abort.{
  hard_kill_key, Aborted, no_engine, unreachable, not_found, killed, is_cold_name, is_warm_name,
}

pub data Call : Type 0 where
  sets deletes : Text → Call
  reads connects kills removes closes : Call
  looks : Text → Bool → Call
  -- The stderr of a container, `none` where it cannot be read; an entry of a stream, by its key; and the
  -- closing entry, by its key and exit status.
  reads_stderr : Option Text → Call
  adds_line : Text → Call
  adds_done : Text → ℤ → Call

-- Where the abort stands: `searching` has the names that the engine did not find.
pub data Phase : Type 0 where
  unmarked marked : Phase
  searching : List Text → Phase
  -- `dead` behind the kill; `heard` with stderr that is to be published, `served` when all was published.
  located doomed dead heard served gone forgotten : Text → Phase
  ended : Phase → Phase

abbrev pub has_text : Option Text → Bool
has_text none = false
has_text (some text) = not (is_empty (strip text))

-- The exit status -9.
abbrev pub is_killed : ℤ → Bool
is_killed (pos n) = false
is_killed (negsuc n) = n == 8

abbrev pub when : Bool → Phase → Option Phase
when true p = some p
when false p = none

-- The calls that each phase allows in the abort of a run, `none` for another. A kill needs the flag,
-- the connection, the container's own lookup and the marker of the hard kill before it. Before its
-- removal, stderr of a cold container is read, and written to the run's stream unless it is blank or
-- cannot be read; for a warm one `done` with the exit status -9 is written there; for another neither.
abbrev pub step : Text → Call → Phase → Option Phase
step r (sets k) unmarked = when (text_eq k (abort_flag_key r)) marked
step r connects marked = some (searching [])
step r reads (searching missed) = some (searching missed)
step r (looks n false) (searching missed) = some (searching (missed ++ n ∷ []))
step r (looks n true) (searching missed) = some (located n)
step r (sets k) (located n) = when (text_eq k (hard_kill_key r)) (doomed n)
step r kills (doomed n) = some (dead n)
step r (reads_stderr text) (dead n) =
    when (is_cold_name n) (if has_text text then heard n else served n)
step r (adds_line k) (heard n) = when (text_eq k (stream_key r)) (served n)
step r (adds_done k c) (dead n) =
    when (is_warm_name n && (text_eq k (stream_key r) && is_killed c)) (served n)
step r removes (served n) = some (gone n)
step r removes (dead n) = when (not (is_cold_name n || is_warm_name n)) (gone n)
step r (deletes k) (gone n) = when (text_eq k (container_reg_key r)) (forgotten n)
step r closes p = some (ended p)
step r _ _ = none

abbrev pub follow : Text → Call → Option Phase → Option Phase
follow r c none = none
follow r c (some p) = step r c p

abbrev pub found : {A : Type 0} → Option A → Bool
found none = false
found (some a) = true

-- The same calls, followed by the monitor.
abbrev pub monitored : Text → Outside → Outside
monitored r O = record {
  World = O.World × Option Phase;
  Handle = O.Handle;
  json_dumps = O.json_dumps;
  json_loads = O.json_loads;
  rewrite_stream_line = λ i t w. let (v, a) = O.rewrite_stream_line i t w.0 in ((v, w.1), a);
  redis_get = λ k w. let (v, a) = O.redis_get k w.0 in ((v, follow r reads w.1), a);
  redis_set = λ k t n w. let (v, a) = O.redis_set k t n w.0 in ((v, follow r (sets k) w.1), a);
  redis_delete = λ k w. let (v, a) = O.redis_delete k w.0 in ((v, follow r (deletes k) w.1), a);
  redis_close = λ w. (O.redis_close w.0, follow r closes w.1);
  xadd_line = λ k t w. let (v, a) = O.xadd_line k t w.0 in ((v, follow r (adds_line k) w.1), a);
  xadd_done = λ k c w. let (v, a) = O.xadd_done k c w.0 in ((v, follow r (adds_done k c) w.1), a);
  expire = λ k n w. let (v, a) = O.expire k n w.0 in ((v, w.1), a);
  connect_engine = λ w. let (v, a) = O.connect_engine w.0 in ((v, follow r connects w.1), a);
  get_container =
      λ n w. let (v, a) = O.get_container n w.0 in ((v, follow r (looks n (found a)) w.1), a);
  kill = λ h w. let (v, a) = O.kill h w.0 in ((v, follow r kills w.1), a);
  remove = λ h w. let (v, a) = O.remove h w.0 in ((v, follow r removes w.1), a);
  read_stderr = λ h w. let (v, a) = O.read_stderr h w.0 in ((v, follow r (reads_stderr a) w.1), a);
  logs = O.logs;
  wait = λ h w. let (v, a) = O.wait h w.0 in ((v, w.1), a);
  run_container = λ w. let (v, a) = O.run_container w.0 in ((v, w.1), a);
  monotonic = λ w. let (v, a) = O.monotonic w.0 in ((v, w.1), a);
  sleep = λ n w. (O.sleep n w.0, w.1);
  uniform = λ a b w. let (v, x) = O.uniform a b w.0 in ((v, w.1), x);
}

-- Where an abort ends, by its answer.
abbrev pub Reached : Aborted → Phase → Type 0
Reached no_engine p = p ≡ ended marked
Reached unreachable p = p ≡ ended (searching [])
Reached (not_found tried) p = p ≡ ended (searching tried)
Reached (killed n s) p = p ≡ ended (forgotten n)
