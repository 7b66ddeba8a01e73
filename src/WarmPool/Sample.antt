-- ===== src/WarmPool/Sample.antt =====
-- An engine that is a list of containers and a clock, for the tests of warm_pool.py.
use aw_app_agents_platform_r.Prelude.{
  ℕ, ◌+◌, ◌≡◌, refl, Bool, true, false, ◌&&◌, Option, none, some, List, [], ◌∷◌, arith,
  if◌then◌else◌, select, Bool-cases, inl, inr,
}
use aw_app_agents_platform_r.Prelude.Texts.{Text, codes, text_eq, text_eq_refl}
use aw_app_agents_platform_r.WarmPool.Engine.{
  Labels, Container, Engine, Lawful, rename_in, remove_in, find_name, epoch,
}

pub record Store : Type 0 where
  pub containers : List Container
  pub now : ℕ

unfoldable pub has_id : Text → List Container → Bool
has_id i [] = false
has_id i (c ∷ cs) = if text_eq c.id i then true else has_id i cs

-- The container with an id that no other has.
unfoldable pub only : Text → List Container → Option Container
unfolding has_id
only i [] = none
only i (c ∷ cs) = if text_eq c.id i then (if has_id i cs then none else some c) else only i cs

pub find_name-has_id :
    (n : Text) (c : Container) (cs : List Container)
    → find_name n cs ≡ some c
    → has_id c.id cs ≡ true
unfolding has_id find_name
find_name-has_id n c [] h = cc
find_name-has_id n c (x ∷ cs) h = elim (Bool-cases (text_eq x.name n)) [
  | inl here ↦ ground (arith, text_eq_refl c.id)
  | inr there ↦ ground (arith, find_name-has_id n c cs)
]

pub find_name-only :
    (n : Text) (c again : Container) (cs : List Container)
    → find_name n cs ≡ some c
    → only c.id cs ≡ some again
    → again ≡ c
unfolding only find_name
find_name-only n c again [] h e = cc
find_name-only n c again (x ∷ cs) h e = elim (Bool-cases (text_eq x.name n)) [
  | inl here ↦ ground (arith, text_eq_refl c.id)
  | inr there ↦ ground (arith, find_name-only n c again cs, find_name-has_id n c cs)
]

abbrev pub sample : Engine
sample = record {
  World = Store;
  list = λ all w. (
    w,
    some (select (λ c. if all then c.labels.warm else c.labels.warm && c.is_running) w.containers),
  );
  get = λ n w. (w, find_name n w.containers);
  reload = λ i w. (w, only i w.containers);
  rename = λ i new w. (record w { containers = rename_in i new w.containers }, true);
  remove = λ i w. (record w { containers = remove_in i w.containers }, true);
  touch_drain = λ i w. (w, true);
  test_ready = λ i w. (w, some false);
  run = λ a w. (
    record w {
      containers =
          record {
            id = a.run_name;
            name = a.run_name;
            is_running = true;
            labels = a.run_labels;
            created = epoch w.now;
          }
          ∷ w.containers;
    },
    true,
  );
  start_drain = λ n w. (w, true);
  time = λ w. (w, w.now);
  monotonic = λ w. (w, w.now);
  sleep = λ d w. record w { now = w.now + d };
}

abbrev pub sample-Lawful : Lawful sample
sample-Lawful = record {
  view = λ w. w.containers;
  view-list = λ all w. refl;
  list_running = λ w cs e. cc;
  list_all = λ w cs e. cc;
  view-get = λ n w. refl;
  get_found = λ n w c e. e;
  view-reload = λ i w. refl;
  reload_found = λ n w c again h e. find_name-only n c again w.containers h e;
  view-rename = λ i new w. refl;
  view-remove = λ i w. refl;
  view-touch_drain = λ i w. refl;
  view-test_ready = λ i w. refl;
  view-start_drain = λ n w. refl;
  view-time = λ w. refl;
  view-monotonic = λ w. refl;
  view-sleep = λ d w. refl;
  run_failed = λ a w e. cc;
  run_started = λ a w e. (a.run_name, epoch w.now, refl);
}

abbrev pub old_labels : Labels
old_labels = record {
  warm = true;
  agent_id = some (codes "a");
  session_id = some (codes "s");
  epoch = some (codes "e1");
  cli = some (codes "claude");
}

abbrev pub resident : Container
resident = record {
  id = codes "1";
  name = codes "aw-warm-a-s";
  is_running = true;
  labels = old_labels;
  created = epoch 5000000;
}

-- One live container, ten seconds after its start.
abbrev pub busy : Store
busy = record { containers = resident ∷ []; now = 15000000 }
