-- ===== src/Execute/Abort.antt =====
-- execute.py: `abort_job` and `_mark_hard_kill`.
pub mod Monitor
pub mod Protocol
pub mod Race
use aw_app_agents_platform_r.Prelude.{
  ℕ, Bool, true, false, ◌&&◌, Option, none, some, List, [], ◌∷◌, ◌++◌, if◌then◌else◌, ℤ, negsuc,
}
use aw_app_agents_platform_r.Prelude.Texts.{Text, codes, starts_with}
use aw_app_agents_platform_r.Execute.Outside.{Outside}
use aw_app_agents_platform_r.Execute.Publish.{fetch_and_publish_cli_stderr, publish_done}
use aw_app_agents_platform_r.Execute.Registry.{
  Process, Source, abort_registry_ttl_s, forget_container, mark_aborted, abort_candidates,
}

-- `_hard_kill_key`
unfoldable pub hard_kill_key : Text → Text
hard_kill_key run_id = codes "run:" ++ (run_id ++ codes ":hard_kill")

-- The answers of `abort_job`: its "status", and what it carries.
pub data Aborted : Type 0 where
  -- "not_found", "no container engine available on this workspace"
  no_engine : Aborted
  -- "not_found", "container engine unreachable"
  unreachable : Aborted
  -- "not_found", "tried"
  not_found : List Text → Aborted
  -- "killed", "container", "resolved_by"
  killed : Text → Source → Aborted

abbrev pub is_cold_name : Text → Bool
is_cold_name name = starts_with (codes "aw-runner-run-") name

abbrev pub is_warm_name : Text → Bool
is_warm_name name = starts_with (codes "aw-warm-") name

abbrev pub names_of : List (Text × Source) → List Text
names_of [] = []
names_of (c ∷ cs) = c.0 ∷ names_of cs

module _ (O : Outside) where
  -- `_mark_hard_kill`
  mark_hard_kill : Bool → Text → O.World → O.World
  unfolding hard_kill_key
  mark_hard_kill connected run_id w =
      if connected
      then (O.redis_set (hard_kill_key run_id) (codes "1") abort_registry_ttl_s w).0
      else w

  -- The kill of a container that was found, from the marker to its removal.
  kill_found : Bool → Text → Text → O.Handle → O.World → O.World
  unfolding mark_hard_kill fetch_and_publish_cli_stderr publish_done starts_with
  kill_found connected run_id name container w =
      let w1 = mark_hard_kill connected run_id w in
      let w2 = (O.kill container w1).0 in
      let w3 =
        if is_cold_name name && connected
        then fetch_and_publish_cli_stderr O container run_id w2
        else w2 in
      let w4 = if is_warm_name name && connected then publish_done O run_id (negsuc 8) w3 else w3 in
      (O.remove container w4).0

  pick :
      Text × Source
      → Option O.Handle
      → O.World
      → O.World × Option ((Text × Source) × O.Handle)
      → O.World × Option ((Text × Source) × O.Handle)
  pick c (some container) w rest = (w, some (c, container))
  pick c none w rest = rest

  -- The first candidate that the engine finds, with the world behind that lookup.
  find_candidate : List (Text × Source) → O.World → O.World × Option ((Text × Source) × O.Handle)
  unfolding pick
  find_candidate [] w = (w, none)
  find_candidate (c ∷ cs) w =
      let r = O.get_container c.0 w in pick c r.1 r.0 (find_candidate cs r.0)

  on_candidate :
      Bool
      → Text
      → List (Text × Source)
      → Option ((Text × Source) × O.Handle)
      → Process O.World
      → Process O.World × Aborted
  unfolding kill_found forget_container
  on_candidate connected run_id cs none p = (p, not_found (names_of cs))
  on_candidate connected run_id cs (some ((name, source), container)) p = (
    forget_container O connected run_id
        (record p { world = kill_found connected run_id name container p.world }),
    killed name source,
  )

  -- The search for a container, and its kill.
  kill_candidates :
      Bool → Text → Option Text → Option Text → Process O.World → Process O.World × Aborted
  unfolding abort_candidates find_candidate on_candidate
  kill_candidates connected run_id agent_id session_id p =
      let cs = abort_candidates O connected run_id agent_id session_id p in
      let found = find_candidate cs.1 cs.0.world in
      on_candidate connected run_id cs.1 found.1 (record cs.0 { world = found.0 })

  on_engine :
      Bool → Bool → Text → Option Text → Option Text → Process O.World → Process O.World × Aborted
  unfolding kill_candidates
  on_engine false connected run_id agent_id session_id p = (p, unreachable)
  on_engine true connected run_id agent_id session_id p =
      kill_candidates connected run_id agent_id session_id p

  -- `abort_job`; `socket`: CONTAINER_SOCKET is set.
  unfoldable pub abort_job :
      Bool → Bool → Text → Option Text → Option Text → Process O.World → Process O.World × Aborted
  unfolding mark_aborted on_engine
  abort_job socket connected run_id agent_id session_id p =
      let p1 = mark_aborted O connected run_id p in
      let engine = O.connect_engine p1.world in
      let r =
        if socket
        then on_engine engine.1 connected run_id agent_id session_id
            (record p1 { world = engine.0 })
        else (p1, no_engine) in
      ((if connected then record r.0 { world = O.redis_close r.0.world } else r.0), r.1)
