-- ===== src/WarmPool/Drain/Tests.antt =====
-- The theorems on `drain` (warm_pool.py) at concrete inputs.
use aw_app_agents_platform_r.Prelude.{
  ◌≡◌, ◌≢◌, refl, sym, ap, [], ◌∷◌, true, Option, none, some, arith, if◌then◌else◌, Bool-cases, inl,
  inr,
}
use aw_app_agents_platform_r.Prelude.Texts.{codes}
use aw_app_agents_platform_r.WarmPool.Engine.{Container, Engine, Lawful}
use aw_app_agents_platform_r.WarmPool.Drain.{
  DrainTicks, out_of_rounds, drain, drain-ends, view-drain,
}
use aw_app_agents_platform_r.WarmPool.Sample.{sample, sample-Lawful, resident, busy, only}

sample-DrainTicks : DrainTicks sample
sample-DrainTicks = record {
  clock = λ w. w.now;
  read = λ w. refl;
  after_monotonic = λ w. omega arith;
  after_reload = λ i w. omega arith;
  after_sleep = λ d w. omega arith;
}

drain-ends_example : (drain sample (codes "aw-warm-a-s") busy).1 ≢ out_of_rounds
drain-ends_example = drain-ends sample sample-DrainTicks (codes "aw-warm-a-s") busy

if_running : Option Container → Option Container
if_running none = none
if_running (some c) = if c.is_running then some c else none

up : (o : Option Container) (c : Container) → if_running o ≡ some c → c.is_running ≡ true
unfolding if_running
up none c e = cc
up (some d) c e = elim (Bool-cases d.is_running) [
  | inl runs ↦ let same : d ≡ c = cc (rw runs at e) in rw (sym same) runs
  | inr stopped ↦ cc (rw stopped at e)
]

same_container : (o : Option Container) (c : Container) → if_running o ≡ some c → o ≡ some c
unfolding if_running
same_container none c e = cc
same_container (some d) c e = elim (Bool-cases d.is_running) [
  | inl runs ↦ let same : d ≡ c = cc (rw runs at e) in ap some same
  | inr stopped ↦ cc (rw stopped at e)
]

-- The same engine, where the reload of a stopped container raises.
abbrev shy : Engine
shy = record sample { reload = λ i w. (w, if_running (only i w.containers)) }

abbrev shy-Lawful : Lawful shy
shy-Lawful = record {
  view = sample-Lawful.view;
  view-list = sample-Lawful.view-list;
  list_running = sample-Lawful.list_running;
  list_all = sample-Lawful.list_all;
  view-get = sample-Lawful.view-get;
  get_found = sample-Lawful.get_found;
  view-reload = λ i w. refl;
  reload_found = λ n w c again h e.
      sample-Lawful.reload_found n w c again h (same_container (only c.id w.containers) again e);
  view-rename = sample-Lawful.view-rename;
  view-remove = sample-Lawful.view-remove;
  view-touch_drain = sample-Lawful.view-touch_drain;
  view-test_ready = sample-Lawful.view-test_ready;
  view-start_drain = sample-Lawful.view-start_drain;
  view-time = sample-Lawful.view-time;
  view-monotonic = sample-Lawful.view-monotonic;
  view-sleep = sample-Lawful.view-sleep;
  run_failed = sample-Lawful.run_failed;
  run_started = sample-Lawful.run_started;
}

view-drain_example : shy-Lawful.view (drain shy (codes "aw-warm-a-s") busy).0 ≡ resident ∷ []
view-drain_example =
    view-drain shy shy-Lawful (codes "aw-warm-a-s") busy (λ i c v. up (only i v.containers) c)
