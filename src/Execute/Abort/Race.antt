-- ===== src/Execute/Abort/Race.antt =====
-- execute.py: an abort against the worker that runs the job, `_run_job_blocking` with the respawns of
-- `_run_cold_agent_with_retry`, interleaved at the points where the one sees what the other does. Redis
-- and the engine answer, and the two are in different processes.
pub mod Stopped
use aw_app_agents_platform_r.Prelude.{Bool, true, false}

-- Where the worker stands: before its look at the flag, behind a look that found none, with a container
-- that was started, or at its end.
pub data WorkerAt : Type 0 where
  preparing cleared running over : WorkerAt

-- Where the abort stands: before the flag, behind it, and behind its answers: that it found none, that
-- it killed the run's own container, or that it killed another candidate's, the session's warm one say.
pub data AbortAt : Type 0 where
  unasked flagging answered_not_found answered_killed answered_killed_other : AbortAt

-- The worker, the abort, whether the abort flag is set, whether the run's container exists, and whether
-- the flag was set while the worker was behind its look at it, up to the end of the container.
pub data Scene : Type 0 where
  scene : WorkerAt → AbortAt → (flag live behind_look : Bool) → Scene

abbrev pub first_scene : Scene
first_scene = scene preparing unasked false false false

abbrev pub past_look : WorkerAt → Bool
past_look preparing = false
past_look cleared = true
past_look running = true
past_look over = false

-- The steps up to a container. `aborted_early` and `looks_clear` are the two outcomes of `is_aborted`,
-- behind which a container is run (`spawns`), or is not, since the wait for the cooldown says so or the
-- engine refuses it (`gives_up`).
pub data WorkerStep : Scene → Scene → Type 0 where
  looks_clear :
      (a : AbortAt) (l b : Bool)
      → WorkerStep (scene preparing a false l b) (scene cleared a false l b)
  aborted_early :
      (a : AbortAt) (l b : Bool) → WorkerStep (scene preparing a true l b) (scene over a true l b)
  gives_up : (a : AbortAt) (f l b : Bool) → WorkerStep (scene cleared a f l b) (scene over a f l b)
  spawns :
      (a : AbortAt) (f l b : Bool) → WorkerStep (scene cleared a f l b) (scene running a f true b)

-- The steps of the retry loop. `exits` is the end of an attempt, behind which the worker goes to its next
-- look, as before the first container (`retries`), or is done (`finishes`).
pub data RetryStep : Scene → Scene → Type 0 where
  exits :
      (a : AbortAt) (f l b : Bool) → RetryStep (scene running a f l b) (scene running a f false b)
  retries :
      (a : AbortAt) (f b : Bool)
      → RetryStep (scene running a f false b) (scene preparing a f false b)
  finishes :
      (a : AbortAt) (f b : Bool) → RetryStep (scene running a f false b) (scene over a f false b)

-- The abort kills the first of its candidates that the engine has. The run's own container it finds
-- only if that exists; another one it may find whether or not that exists.
pub data AbortStep : Scene → Scene → Type 0 where
  flags :
      (w : WorkerAt) (f l b : Bool)
      → AbortStep (scene w unasked f l b) (scene w flagging true l (past_look w))
  finds_none :
      (w : WorkerAt) (f b : Bool)
      → AbortStep (scene w flagging f false b) (scene w answered_not_found f false b)
  kills :
      (w : WorkerAt) (f b : Bool)
      → AbortStep (scene w flagging f true b) (scene w answered_killed f false b)
  kills_other :
      (w : WorkerAt) (f l b : Bool)
      → AbortStep (scene w flagging f l b) (scene w answered_killed_other f l b)

pub data Step : Scene → Scene → Type 0 where
  by_worker : {s t : Scene} → WorkerStep s t → Step s t
  by_retry : {s t : Scene} → RetryStep s t → Step s t
  by_abort : {s t : Scene} → AbortStep s t → Step s t

pub data Reach : Scene → Type 0 where
  at_first : Reach first_scene
  after : {s t : Scene} → Reach s → Step s t → Reach t

-- The other order: the abort comes between the worker's look and the start of the container. It finds
-- none and answers so, and the container runs.
escape : Reach (scene running answered_not_found true true true)
escape =
    after
      (after
        (after (after at_first (by_worker (looks_clear unasked false false)))
          (by_abort (flags cleared false false false)))
        (by_abort (finds_none cleared true true)))
      (by_worker (spawns answered_not_found true false true))
