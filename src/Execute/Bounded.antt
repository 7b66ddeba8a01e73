-- ===== src/Execute/Bounded.antt =====
-- execute.py: the bounded OrderedDicts of a worker, oldest entry first (`_bounded_put`), and the guard
-- of `start_job` against a run that was dispatched already.
pub mod Size
pub mod Once
use aw_app_agents_platform_r.Prelude.{
  ℕ, suc, ◌+◌, Bool, true, false, Option, none, some, List, [], ◌∷◌, ◌++◌, if◌then◌else◌, ltb,
  length, is_some,
}
use aw_app_agents_platform_r.Prelude.Texts.{Text, text_eq, is_empty}

module _ {V : Type 0} where
  -- `store.get(key)`
  unfoldable pub get_item : Text → List (Text × V) → Option V
  get_item k [] = none
  get_item k ((j, v) ∷ d) = if text_eq j k then some v else get_item k d

  -- `store[key] = value`: a key that is there keeps its place.
  unfoldable pub set_item : Text → V → List (Text × V) → List (Text × V)
  set_item k v [] = (k, v) ∷ []
  set_item k v ((j, w) ∷ d) = if text_eq j k then (j, v) ∷ d else (j, w) ∷ set_item k v d

  -- `store.pop(key, None)`
  unfoldable pub pop_item : Text → List (Text × V) → List (Text × V)
  pop_item k [] = []
  pop_item k ((j, v) ∷ d) = if text_eq j k then d else (j, v) ∷ pop_item k d

  -- `while len(store) > maximum: store.popitem(last=False)`
  unfoldable pub evict : ℕ → List (Text × V) → List (Text × V)
  evict maximum [] = []
  evict maximum (x ∷ d) =
      let rest = evict maximum d in if ltb maximum (length (x ∷ d)) then rest else x ∷ d

  -- `_bounded_put`
  unfoldable pub bounded_put : ℕ → Text → V → List (Text × V) → List (Text × V)
  unfolding set_item evict
  bounded_put maximum k v d = evict maximum (set_item k v d)

-- _STARTED_RUN_IDS_MAX
abbrev pub started_max : ℕ
started_max = 2048

-- `start_job`, by the run ids that this process dispatched: what it has dispatched then, and whether
-- this call starts the job. A job without a run id is started always.
unfoldable pub start_job : Text → List (Text × Unit {0}) → List (Text × Unit {0}) × Bool
unfolding get_item set_item evict
start_job run_id started =
    if is_empty run_id
    then (started, true)
    else if is_some (get_item run_id started)
    then (started, false)
    else (evict started_max (set_item run_id tt started), true)

-- 1 if a call started a job that has a run id.
unfoldable pub new_run : Text → Bool → ℕ
new_run run_id begun = if begun then (if is_empty run_id then 0 else 1) else 0

-- A series of calls: what is dispatched behind them, and how many of them started a job with a run id.
unfoldable pub start_jobs : List Text → List (Text × Unit {0}) → List (Text × Unit {0}) × ℕ
unfolding start_job new_run
start_jobs [] started = (started, 0)
start_jobs (r ∷ rs) started =
    let first = start_job r started in
    let rest = start_jobs rs first.0 in (rest.0, new_run r first.1 + rest.1)
