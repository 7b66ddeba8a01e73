-- ===== src/Execute/Abort/Race/Stopped.antt =====
-- execute.py: what an abort stops, however it interleaves with the worker.
use aw_app_agents_platform_r.Prelude.{Bool, true, false, ◌&&◌, not}
use aw_app_agents_platform_r.Execute.Abort.Race.{
  preparing, cleared, running, over, AbortAt, unasked, answered_killed, Scene, scene,
}

-- A container exists only under a running worker; behind the flag a worker that was not past its look
-- is not past it later; and behind a kill no worker is about to run a container.
is_sound : Scene → Bool
is_sound (scene preparing unasked f l b) = not f && not l
is_sound (scene cleared unasked f l b) = not f && not l
is_sound (scene running unasked f l b) = not f
is_sound (scene over unasked f l b) = not f && not l
is_sound (scene preparing a f l b) = f && not l
is_sound (scene cleared answered_killed f l b) = false
is_sound (scene cleared a f l b) = f && (not l && b)
is_sound (scene running answered_killed f l b) = f && (not l && b)
is_sound (scene running a f l b) = f && b
is_sound (scene over a f l b) = f && not l

-- The abort has killed the run's own container, or the flag was set while no look of the worker was behind.
abbrev pub has_stopped : AbortAt → Bool → Bool → Bool
has_stopped answered_killed f b = true
has_stopped a f b = f && not b
