-- ===== src/Execute/Abort/Protocol.antt =====
-- The order of the calls of `abort_job` (execute.py), against its monitor.
use aw_app_agents_platform_r.Prelude.{
  ◌≡◌, true, ◌&&◌, Option, none, some, List, if◌then◌else◌, negsuc,
}
use aw_app_agents_platform_r.Prelude.Texts.{Text}
use aw_app_agents_platform_r.Execute.Outside.{Outside}
use aw_app_agents_platform_r.Execute.Publish.{fetch_and_publish_cli_stderr, publish_done}
use aw_app_agents_platform_r.Execute.Registry.{Source}
use aw_app_agents_platform_r.Execute.Abort.{is_cold_name, is_warm_name}
use aw_app_agents_platform_r.Execute.Abort.Monitor.{searching, located, monitored}

module _ (O : Outside) (r : Text) where
  abbrev M : Outside
  M = monitored r O

  -- What is published between the kill of a container and its removal.
  abbrev serve : O.Handle → Text → M.World → M.World
  serve h n w =
      let w3 = if is_cold_name n && true then fetch_and_publish_cli_stderr M h r w else w in
      if is_warm_name n && true then publish_done M r (negsuc 8) w3 else w3

  abbrev Searched : List Text → M.World × Option ((Text × Source) × O.Handle) → Type 0
  Searched tried (w, none) = w.1 ≡ some (searching tried)
  Searched tried (w, some ((n, s), h)) = w.1 ≡ some (located n)
