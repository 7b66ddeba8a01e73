-- ===== src/WarmPool/Acquire.antt =====
-- warm_pool.py: `get_or_create` and what it calls, as actions on the engine's world. The lock of the
-- session is held for the whole call, so no other call for this session comes in between.
pub mod Effects
pub mod Ceiling
pub mod Spawned
pub mod Reuse
pub mod Replacement
pub mod Ready
use aw_app_agents_platform_r.Prelude.{
  ℕ, zero, suc, ◌+◌, ◌*◌, ◌/◌, Bool, true, false, ◌&&◌, not, Option, none, some, List, [], ◌∷◌, ltb,
  leb, if◌then◌else◌, ℤ, pos, negsuc, sub_ℕ, exceeds, count_if,
}
use aw_app_agents_platform_r.Prelude.Texts.{Text, codes, text_eq}
use aw_app_agents_platform_r.Prelude.State.{Action, ◌>>=◌, ◌>>◌, pure}
use aw_app_agents_platform_r.WarmPool.Names.{warm_container_name, draining_name, is_draining}
use aw_app_agents_platform_r.WarmPool.Engine.{
  Labels, Created, missing, other, flag, epoch, iso, Container, RunArgs, Engine,
}

-- Times are in microseconds.
abbrev pub second : ℕ
second = 1000000

abbrev pub warm_ttl_s : ℕ
warm_ttl_s = 1800

-- Seconds since a container was created, here in microseconds; `none`: that cannot be determined.
unfoldable pub created_age : Created → ℕ → Option ℤ
created_age missing now = none
created_age other now = none
created_age (flag b) now = none
created_age (epoch t) now = some (sub_ℕ now t)
created_age (iso none) now = none
created_age (iso (some t)) now = some (sub_ℕ now t)

-- `age is None or age <= ttl`
unfoldable pub within_ttl : ℕ → Option ℤ → Bool
within_ttl ttl_s none = true
within_ttl ttl_s (some age) = not (exceeds age (ttl_s * second))

-- `recycle_session`'s wish.
pub data Recycle : Type 0 where
  drain force : Recycle

-- What becomes of the container that a session has: it is used again, it is stale, or there is none.
pub data Triage : Type 0 where
  reuse stale absent : Triage

-- A call of `get_or_create`: it returns the name of a container that was there or of a new one, or
-- raises WarmPoolFull with the live count and the ceiling, or what the spawn raised.
pub data Acquired : Type 0 where
  reused spawned : Text → Acquired
  pool_full : ℕ → ℕ → Acquired
  spawn_failed : Acquired

abbrev pub opt_eq : Option Text → Text → Bool
opt_eq none t = false
opt_eq (some s) t = text_eq s t

-- An image and the labels of a fresh container, or `none` where the callback raises.
abbrev pub BuildKwargs : Type 0
BuildKwargs = Text → Text → Option (Text × Labels)

abbrev labels_of : Option Container → Option Labels
labels_of none = none
labels_of (some c) = some c.labels

-- The age of what `containers.get` answers; `none` where it raises.
abbrev age_of : Option Container → ℕ → Option ℤ
age_of none now = none
age_of (some c) now = created_age c.created now

-- `c.status == "running"` after a reload that may raise.
abbrev reports_running : Option Container → Bool
reports_running none = false
reports_running (some c) = c.is_running

-- The generator of `_check_ceiling`; the listing is of warm containers already.
abbrev pub counts : Container → Bool
counts c = c.is_running && not (is_draining c.name)

module _ (E : Engine) where
  open E use {
    World, list, get, reload, rename, remove, touch_drain, test_ready, run, start_drain, time,
    monotonic, sleep,
  }

  -- `_labels`
  unfoldable pub container_labels : Text → Action World (Option Labels)
  container_labels name = do c ← get name; pure (labels_of c)

  status_running : Option Container → Action World Bool
  status_running none = pure false
  status_running (some c) = do again ← reload c.id; pure (reports_running again)

  -- `_is_running`
  unfoldable pub is_running_now : Text → Action World Bool
  unfolding status_running
  is_running_now name = do c ← get name; status_running c

  -- `_container_age_s`
  unfoldable pub container_age : Text → ℕ → Action World (Option ℤ)
  container_age name now = do c ← get name; pure (age_of c now)

  remove_found : Option Container → Action World Bool
  remove_found none = pure false
  remove_found (some c) = remove c.id

  -- `client.containers.get(name).remove(force=True)`: does it return?
  pub remove_named : Text → Action World Bool
  unfolding remove_found
  remove_named name = do c ← get name; remove_found c

  rename_found : Text → Option Container → Action World Bool
  rename_found new none = pure false
  rename_found new (some c) = rename c.id new

  -- `client.containers.get(name).rename(new)`
  pub rename_named : Text → Text → Action World Bool
  unfolding rename_found
  rename_named name new = do c ← get name; rename_found new c

  check_age : Text → Bool → Action World Triage
  unfolding within_ttl
  check_age name false = pure stale
  check_age name true = do
    now ← time
    age ← container_age name now
    pure (if within_ttl warm_ttl_s age then reuse else stale)

  pub check_running : Text → Bool → Action World Triage
  unfolding check_age
  check_running name false = pure stale
  check_running name true = do up ← is_running_now name; check_age name up

  -- The first half of `get_or_create`: up to `return name`, and with `labels` reset by a forced
  -- removal that worked.
  pub triage : Text → Text → Option Recycle → Option Labels → Action World Triage
  unfolding check_running
  triage name epoch_hash recycle none = pure absent
  triage name epoch_hash (some force) (some l) = do
    removed ← remove_named name
    pure (if removed then absent else stale)
  triage name epoch_hash (some drain) (some l) = pure stale
  triage name epoch_hash none (some l) = check_running name (opt_eq l.epoch epoch_hash)

  start_or_fail : Text → Bool → Action World Bool
  start_or_fail new false = pure false
  start_or_fail new true = start_drain new

  remove_unless : Text → Bool → Action World Bool
  remove_unless name true = pure true
  remove_unless name false = remove_named name

  -- The stale container leaves its name and drains in the background; where renaming it or starting
  -- the thread raises, what has the name is removed.
  pub retire : Text → Action World Bool
  unfolding start_or_fail remove_unless
  retire name = do
    now ← time
    renamed ← rename_named name (draining_name name (now / second))
    started ← start_or_fail (draining_name name (now / second)) renamed
    remove_unless name started

  -- `_check_ceiling`: `some` is WarmPoolFull's live count. A listing that fails lets the spawn pass.
  pub check_ceiling : ℕ → Action World (Option ℕ)
  check_ceiling ceiling = do
    cs ← list false
    pure (elim cs [
      | none ↦ none
      | some cs ↦ if leb ceiling (count_if counts cs) then some (count_if counts cs) else none
    ])

  probe_found : Option Container → Action World Bool
  probe_found none = pure false
  probe_found (some c) = do rc ← test_ready c.id; pure (elim rc [ none ↦ false | some ok ↦ ok ])

  probe : Text → Action World Bool
  unfolding probe_found
  probe name = do c ← get name; probe_found c

  -- The loop of `_wait_ready`: whether the marker was seen; `none`: the fuel ran out.
  pub poll_ready : ℕ → Text → ℕ → Action World (Option Bool)
  unfolding probe
  poll_ready zero name deadline w = (w, none)
  poll_ready (suc fuel) name deadline w =
      let (w1, now) = monotonic w in
      let (w2, ready) = probe name w1 in
      let again = poll_ready fuel name deadline (sleep 300000 w2) in
      if ltb now deadline then (if ready then (w2, some true) else again) else (w1, some false)

  -- `_wait_ready`: 35 rounds of at least 0.3 s reach the deadline of 10 s.
  pub wait_ready : Text → Action World (Option Bool)
  unfolding poll_ready
  wait_ready name = do now ← monotonic; poll_ready 35 name (now + 10 * second)

  settle : Text → Bool → Action World Acquired
  unfolding wait_ready
  settle name false = pure spawn_failed
  settle name true = do ready ← wait_ready name; pure (spawned name)

  launch : Text → Option (Text × Labels) → Action World Acquired
  unfolding settle
  launch name none = pure spawn_failed
  launch name (some (image, labels)) = do
    ok ← run (record {
      image = image;
      run_labels = labels;
      run_name = name;
      detach = true;
      auto_remove = false;
    })
    settle name ok

  spawn_unless : ℕ → Text → Text → BuildKwargs → Option ℕ → Action World Acquired
  unfolding launch
  spawn_unless ceiling name epoch_hash build (some live) = pure (pool_full live ceiling)
  spawn_unless ceiling name epoch_hash build none = launch name (build name epoch_hash)

  -- The last part of `get_or_create`: the ceiling, `build_kwargs`, `containers.run`, `_wait_ready`.
  pub spawn : ℕ → Text → Text → BuildKwargs → Action World Acquired
  unfolding check_ceiling spawn_unless
  spawn ceiling name epoch_hash build = do
    over ← check_ceiling ceiling
    spawn_unless ceiling name epoch_hash build over

  finish : ℕ → Text → Text → BuildKwargs → Triage → Action World Acquired
  finish ceiling name epoch_hash build reuse = pure (reused name)
  finish ceiling name epoch_hash build stale = do
    done ← retire name
    spawn ceiling name epoch_hash build
  finish ceiling name epoch_hash build absent = spawn ceiling name epoch_hash build

  -- `get_or_create`; `ceiling` is `max_warm()`.
  unfoldable pub get_or_create :
      ℕ → Text → Text → Text → BuildKwargs → Option Recycle → Action World Acquired
  unfolding finish triage
  get_or_create ceiling agent_id session_id epoch_hash build recycle = do
    found ← container_labels (warm_container_name agent_id session_id)
    fate ← triage (warm_container_name agent_id session_id) epoch_hash recycle found
    finish ceiling (warm_container_name agent_id session_id) epoch_hash build fate
