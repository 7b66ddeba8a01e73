-- ===== src/WarmPool/Reap/Tests.antt =====
-- The theorems on `reap` (warm_pool.py) at concrete inputs.
use aw_app_agents_platform_r.Prelude.{
  ℕ, ℤ, pos, sym, ap, ◌∙◌, ◌+◌, ◌*◌, ◌<◌, ◌≡◌, refl, Option, none, some, [], ◌∷◌, arith,
}
use aw_app_agents_platform_r.Prelude.Texts.{codes, text_eq, contains}
use aw_app_agents_platform_r.WarmPool.Names.{
  draining_name, is_draining, drain_started, drain_started-draining_name,
}
use aw_app_agents_platform_r.WarmPool.Engine.{Container, find_id, rename_in}
use aw_app_agents_platform_r.WarmPool.Acquire.{created_age}
use aw_app_agents_platform_r.WarmPool.Reap.{
  default_limits, over_ttl, reap, sweep_listed, sweep, sweep_one, sweep_status, sweep_running,
  condemn_over_ttl, condemn_if, flag_renamed,
}
use aw_app_agents_platform_r.WarmPool.Reap.Fate.{Obedient, verdict, Fate}
use aw_app_agents_platform_r.WarmPool.Reap.Outcome.{
  reap-Fate, reap-keep, Sweepable, Stamped, condemned_then_collected,
}
use aw_app_agents_platform_r.WarmPool.Sample.{Store, sample, sample-Lawful, resident, busy}

sample-Obedient : Obedient sample
sample-Obedient = record { rename_works = λ i new w. refl; remove_works = λ i w. refl }

sample-Sweepable : Sweepable sample
sample-Sweepable = record {
  obeys = sample-Obedient;
  lists = λ w. refl;
  forward = record {
    clock = λ w. w.now;
    reads_clock = λ w. refl;
    time_on = λ w. omega arith;
    rename_on = λ i new w. omega arith;
    remove_on = λ i w. omega arith;
    touch_on = λ i w. omega arith;
  };
}

-- The same container two hours after its start, and two hours after that, drained.
abbrev overdue : Store
overdue = record { containers = resident ∷ []; now = 7205000000 }

abbrev drained : Store
drained = record {
  containers = record resident { name = draining_name resident.name 7205 } ∷ [];
  now = 14405000000;
}

reap-Fate_example :
    Fate
      (verdict default_limits 7205000000 resident)
      resident
      (find_id (codes "1") (reap sample default_limits overdue).0.containers)
unfolding find_id text_eq
reap-Fate_example =
    reap-Fate sample sample-Lawful resident default_limits overdue sample-Obedient refl (refl, tt)
      refl refl

reap-keep_example :
    find_id (codes "1") (reap sample default_limits busy).0.containers ≡ some resident
unfolding find_id text_eq verdict over_ttl created_age is_draining contains
reap-keep_example =
    reap-keep sample sample-Lawful resident default_limits busy (refl, tt) refl refl refl

abbrev mark : Option Container → Option ℤ
mark none = none
mark (some c) = drain_started c.name

renamed_at :
    (ts : ℕ)
    → some (record resident { name = draining_name resident.name 7205 })
      ≡ some (record resident { name = draining_name resident.name ts })
    → (ts + 3600) * 1000000 < 14405000000
renamed_at ts e =
    let started : some (pos 7205) ≡ some (pos ts) =
      sym (drain_started-draining_name resident.name 7205).1
      ∙ ap mark e
      ∙ (drain_started-draining_name resident.name ts).1 in
    let same : 7205 ≡ ts = cc started in omega (arith, same)

condemned_then_collected_example :
    Stamped sample sample-Lawful resident 7205000000
      (find_id (codes "1") (reap sample default_limits overdue).0.containers)
    × (find_id (codes "1") (reap sample default_limits drained).0.containers ≡ none)
unfolding find_id text_eq over_ttl created_age is_draining contains rename_in reap sweep_listed
    sweep sweep_one sweep_status sweep_running condemn_over_ttl condemn_if flag_renamed
condemned_then_collected_example =
    condemned_then_collected sample sample-Lawful sample-Sweepable resident default_limits overdue
      drained (refl, tt) refl refl refl refl refl (refl, tt) refl renamed_at
