-- ===== src/WarmPool/Tests.antt =====
-- The theorems on warm_pool.py at concrete inputs: the acquisition of a container.
use aw_app_agents_platform_r.Prelude.{
  ◌≤◌, ◌≡◌, ◌≢◌, refl, true, none, some, arith, pos, map, ◌⊎◌, select, false, List,
}
use aw_app_agents_platform_r.Prelude.Texts.{codes, text_eq, contains}
use aw_app_agents_platform_r.WarmPool.Names.{
  draining_name, warm_container_name, is_draining, drain_started, drain_started-draining_name,
}
use aw_app_agents_platform_r.WarmPool.Engine.{Container, is_live, find_name}
use Prim.Native.Nat.{max}
use aw_app_agents_platform_r.WarmPool.Acquire.{
  BuildKwargs, reused, pool_full, get_or_create, container_labels, is_running_now, wait_ready,
  container_age, created_age,
}
use aw_app_agents_platform_r.WarmPool.Acquire.Effects.{pool}
use aw_app_agents_platform_r.WarmPool.Acquire.Ceiling.{get_or_create-le-ceiling}
use aw_app_agents_platform_r.WarmPool.Acquire.Spawned.{Kept, get_or_create-Kept}
use aw_app_agents_platform_r.WarmPool.Acquire.Reuse.{Current, when_aged, get_or_create-reused}
use aw_app_agents_platform_r.WarmPool.Acquire.Replacement.{Reliable, replacement-not-full}
use aw_app_agents_platform_r.WarmPool.Acquire.Ready.{Ticks, wait_ready-ends}
use aw_app_agents_platform_r.WarmPool.Inventory.{
  InventoryRow, is_listed, list_containers, list_containers-names,
}
use aw_app_agents_platform_r.WarmPool.Sample.{
  Store, sample, sample-Lawful, old_labels, resident, busy, only,
}

sample-Ticks : Ticks sample
sample-Ticks = record {
  clock = λ w. w.now;
  read = λ w. refl;
  after_monotonic = λ w. omega arith;
  after_get = λ n w. omega arith;
  after_test_ready = λ i w. omega arith;
  after_sleep = λ d w. omega arith;
}

sample-Reliable : Reliable sample sample-Lawful
sample-Reliable = record {
  listing_answers = λ w. refl;
  get_answers = λ n c w e. e;
  rename_works = λ i new w. refl;
  remove_works = λ i w. refl;
  thread_starts = λ n w. refl;
}

abbrev build : BuildKwargs
build name epoch_hash = some (codes "img", record old_labels { epoch = some epoch_hash })

drain_started-draining_name_example :
    drain_started (draining_name (codes "aw-warm-a-s") 17) ≡ some (pos 17)
drain_started-draining_name_example = (drain_started-draining_name (codes "aw-warm-a-s") 17).1

-- At a ceiling of one a second session is refused, and the pool stays at one.
get_or_create-le-ceiling_example :
    pool sample sample-Lawful
      (get_or_create sample 1 (codes "a") (codes "t") (codes "e1") build none busy).0
    ≤ max 1 1
unfolding is_live is_draining contains
get_or_create-le-ceiling_example =
    get_or_create-le-ceiling sample sample-Lawful 1 (codes "a") (codes "t") (codes "e1") build none
      busy (λ w. refl)

get_or_create-Kept_example :
    let done = get_or_create sample 4 (codes "a") (codes "s") (codes "e2") build none busy in
    Kept sample sample-Lawful 4
      (warm_container_name (codes "a") (codes "s"))
      (build (warm_container_name (codes "a") (codes "s")) (codes "e2"))
      done.0
      done.1
get_or_create-Kept_example =
    get_or_create-Kept sample sample-Lawful 4 (codes "a") (codes "s") (codes "e2") build none busy
      (λ w. refl)

reuses :
    (get_or_create sample 1 (codes "a") (codes "s") (codes "e1") build none busy).1
    ≡ reused (codes "aw-warm-a-s")
unfolding get_or_create warm_container_name find_name container_labels is_running_now only text_eq
    container_age created_age
reuses = refl

get_or_create-reused_example :
    (c : Container) × (find_name (codes "aw-warm-a-s") busy.containers ≡ some c)
    × (c.is_running ≡ true)
    × (c.labels.epoch ≡ some (codes "e1"))
    × Current sample (codes "aw-warm-a-s") c (when_aged sample (codes "aw-warm-a-s") busy)
unfolding warm_container_name
get_or_create-reused_example =
    (get_or_create-reused sample sample-Lawful 1 (codes "a") (codes "s") (codes "e1")
      (codes "aw-warm-a-s") build none busy reuses).2

-- At a ceiling of one the only live container is replaced.
replacement-not-full_example :
    (get_or_create sample 1 (codes "a") (codes "s") (codes "e2") build none busy).1 ≢ pool_full 1 1
unfolding warm_container_name find_name is_live is_draining contains text_eq
replacement-not-full_example =
    replacement-not-full sample sample-Lawful sample-Reliable 1 1 1 (codes "a") (codes "s")
      (codes "e2") build none resident busy refl refl (omega arith)

wait_ready-ends_example : (wait_ready sample (codes "aw-warm-a-s") busy).1 ≢ none
wait_ready-ends_example = wait_ready-ends sample sample-Ticks (codes "aw-warm-a-s") busy

list_containers-names_example :
    let w : Store = busy in
    ((sample.list true w).1 ≡ none) × ((list_containers sample (λ i v. (v, none)) false w).1 ≡ none)
    ⊎ ((rs : List InventoryRow) × ((list_containers sample (λ i v. (v, none)) false w).1 ≡ some rs)
        × (map (λ r. r.row_name) rs ≡ map (λ c. c.name) (select (is_listed false) w.containers)))
list_containers-names_example =
    list_containers-names sample (λ i v. (v, none)) sample-Lawful false busy
