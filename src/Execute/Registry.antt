-- ===== src/Execute/Registry.antt =====
-- execute.py: which container runs which job, and which jobs are aborted. Both stand in the process
-- and in Redis; `connected` is false where the code's `r` is None.
pub mod Keys
pub mod Candidates
use aw_app_agents_platform_r.Prelude.{
  ℕ, Bool, true, false, ◌&&◌, not, Option, none, some, List, [], ◌∷◌, ◌++◌, if◌then◌else◌, any,
  take, is_some,
}
use aw_app_agents_platform_r.Prelude.Texts.{Text, codes, text_eq, is_empty}
use aw_app_agents_platform_r.WarmPool.Names.{warm_container_name}
use aw_app_agents_platform_r.Execute.Bounded.{get_item, pop_item, bounded_put}
use aw_app_agents_platform_r.Execute.Outside.{Outside}

-- ABORT_REGISTRY_TTL_S
abbrev pub abort_registry_ttl_s : ℕ
abort_registry_ttl_s = 1800

-- _RUN_CONTAINER_NAMES_MAX, _ABORTED_RUN_IDS_MAX
abbrev pub run_container_names_max : ℕ
run_container_names_max = 2048

abbrev pub aborted_run_ids_max : ℕ
aborted_run_ids_max = 2048

-- `_container_reg_key`
unfoldable pub container_reg_key : Text → Text
container_reg_key run_id = codes "runner:run:" ++ (run_id ++ codes ":container")

-- `_abort_flag_key`
unfoldable pub abort_flag_key : Text → Text
abort_flag_key run_id = codes "runner:run:" ++ (run_id ++ codes ":aborted")

-- The two dictionaries of a process, and what it shares with the others.
pub record Process (W : Type 0) : Type 0 where
  pub names : List (Text × Text)
  pub aborted : List (Text × Unit {0})
  pub world : W

-- `x or None`, of a text or None.
unfoldable pub or_none : Option Text → Option Text
or_none none = none
or_none (some t) = if is_empty t then none else some t

-- The value of a Redis key, None where the call raises.
abbrev pub reply_value : Option (Option Text) → Option Text
reply_value none = none
reply_value (some v) = v

-- How a candidate for the container of a run was found.
pub data Source : Type 0 where
  local_registry redis_registry cold_name monitor_name warm_name : Source

unfoldable pub add_named : Option Text → Source → List (Text × Source) → List (Text × Source)
add_named none source out = out
add_named (some n) source out =
    if any (λ e. text_eq n e.0) out then out else out ++ (n, source) ∷ []

-- `_add`
unfoldable pub add : Option Text → Source → List (Text × Source) → List (Text × Source)
unfolding or_none add_named
add name source out = add_named (or_none name) source out

-- The warm name, where the caller sent both halves.
unfoldable pub warm_half : Option Text → Option Text → Option Text
unfolding warm_container_name
warm_half (some a) (some s) = some (warm_container_name a s)
warm_half (some a) none = none
warm_half none s = none

unfoldable pub add_warm : Option Text → Option Text → List (Text × Source) → List (Text × Source)
unfolding or_none add warm_half
add_warm agent_id session_id out =
    add (warm_half (or_none agent_id) (or_none session_id)) warm_name out

-- f"aw-runner-run-{run_id}", f"aw-runner-monitor-{run_id[:12]}"
unfoldable pub cold_container_name : Text → Text
cold_container_name run_id = codes "aw-runner-run-" ++ run_id

unfoldable pub monitor_container_name : Text → Text
monitor_container_name run_id = codes "aw-runner-monitor-" ++ take 12 run_id

-- The candidates, by what the two registries answer.
unfoldable pub candidates_of :
    Text → Option Text → Option Text → Option Text → Option Text → List (Text × Source)
unfolding add add_warm cold_container_name monitor_container_name
candidates_of run_id here there agent_id session_id =
    let out1 = add here local_registry [] in
    let out2 = add there redis_registry out1 in
    let out3 = add (some (cold_container_name run_id)) cold_name out2 in
    let out4 = add (some (monitor_container_name run_id)) monitor_name out3 in
    add_warm agent_id session_id out4

module _ (O : Outside) where
  -- A Redis write or delete behind the change of the dictionary: none where `r` is None.
  unfoldable pub mirror : Bool → (O.World → O.World × Bool) → Process O.World → Process O.World
  mirror connected write p = if connected then record p { world = (write p.world).0 } else p

  -- `remember_container`
  unfoldable pub remember_container : Bool → Text → Text → Process O.World → Process O.World
  unfolding mirror bounded_put container_reg_key
  remember_container connected run_id name p =
      mirror connected (O.redis_set (container_reg_key run_id) name abort_registry_ttl_s)
        (record p { names = bounded_put run_container_names_max run_id name p.names })

  -- A Redis read: None where `r` is None or the read raises.
  unfoldable pub read_mirror : Bool → Text → Process O.World → Process O.World × Option Text
  unfolding or_none
  read_mirror connected key p =
      let r = O.redis_get key p.world in
      if connected then (record p { world = r.0 }, or_none (reply_value r.1)) else (p, none)

  unfoldable pub on_local :
      Option Text → Bool → Text → Process O.World → Process O.World × Option Text
  unfolding read_mirror container_reg_key
  on_local (some name) connected run_id p = (p, some name)
  on_local none connected run_id p = read_mirror connected (container_reg_key run_id) p

  -- `lookup_container`
  unfoldable pub lookup_container : Bool → Text → Process O.World → Process O.World × Option Text
  unfolding on_local get_item or_none
  lookup_container connected run_id p =
      on_local (or_none (get_item run_id p.names)) connected run_id p

  -- `forget_container`
  unfoldable pub forget_container : Bool → Text → Process O.World → Process O.World
  unfolding mirror pop_item container_reg_key
  forget_container connected run_id p =
      mirror connected (O.redis_delete (container_reg_key run_id))
        (record p { names = pop_item run_id p.names })

  -- `mark_aborted`
  unfoldable pub mark_aborted : Bool → Text → Process O.World → Process O.World
  unfolding mirror bounded_put abort_flag_key
  mark_aborted connected run_id p =
      mirror connected (O.redis_set (abort_flag_key run_id) (codes "1") abort_registry_ttl_s)
        (record p { aborted = bounded_put aborted_run_ids_max run_id tt p.aborted })

  -- `is_aborted`
  unfoldable pub is_aborted : Bool → Text → Process O.World → Process O.World × Bool
  unfolding get_item read_mirror abort_flag_key
  is_aborted connected run_id p =
      if is_some (get_item run_id p.aborted)
      then (p, true)
      else (let r = read_mirror connected (abort_flag_key run_id) p in (r.0, is_some r.1))

  -- `clear_abort`
  unfoldable pub clear_abort : Bool → Text → Process O.World → Process O.World
  unfolding mirror pop_item abort_flag_key
  clear_abort connected run_id p =
      mirror connected (O.redis_delete (abort_flag_key run_id))
        (record p { aborted = pop_item run_id p.aborted })

  -- `_forget_run`
  unfoldable pub forget_run : Bool → Text → Process O.World → Process O.World
  unfolding forget_container clear_abort
  forget_run connected run_id p = clear_abort connected run_id (forget_container connected run_id p)

  -- `abort_candidates`
  unfoldable pub abort_candidates :
      Bool
      → Text
      → Option Text
      → Option Text
      → Process O.World
      → Process O.World × List (Text × Source)
  unfolding get_item lookup_container candidates_of
  abort_candidates connected run_id agent_id session_id p =
      let there = lookup_container connected run_id p in
      (there.0, candidates_of run_id (get_item run_id p.names) there.1 agent_id session_id)
