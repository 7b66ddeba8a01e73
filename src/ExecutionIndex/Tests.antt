-- ===== src/ExecutionIndex/Tests.antt =====
-- The theorems on the gate, the chunks and `index_run` (execution_index.py) at concrete inputs.
use aw_app_agents_platform_r.Prelude.{
  ℕ, ◌+◌, ◌≤◌, ◌≡◌, refl, true, none, some, [], ◌∷◌, arith, length,
}
use aw_app_agents_platform_r.Prelude.Texts.{codes, text_eq, strip, one_of}
use aw_app_agents_platform_r.ExecutionIndex.Gate.{
  Run, Event, interesting, is_compaction, event_kind,
}
use aw_app_agents_platform_r.ExecutionIndex.Gate.Worth.{IsWorth, interesting-IsWorth}
use aw_app_agents_platform_r.ExecutionIndex.Chunks.{
  max_chunks, concat, redact, split, chunks, concat-split, chunks-number,
}
use aw_app_agents_platform_r.ExecutionIndex.Targets.{IndexConfig}
use aw_app_agents_platform_r.ExecutionIndex.Run.{ok, refused, Web, Rendering, index_run}
use aw_app_agents_platform_r.ExecutionIndex.Run.Accounted.{Ticks, Accounted, index_run-Accounted}

abbrev called : Event
called = record { kind = some (codes "tool_call"); type = none; body = codes "{}" }

abbrev succeeded : Run
succeeded = record {
  status = some (codes "success");
  input = some (codes "hi");
  output = some (codes "done");
  error = none;
  initiator_kind = none;
}

interesting-IsWorth_example : IsWorth succeeded (called ∷ []) (codes "interesting")
unfolding interesting text_eq one_of is_compaction strip event_kind
interesting-IsWorth_example =
    (interesting-IsWorth succeeded (called ∷ []) (codes "interesting")).0 refl

abbrev render : Rendering
render = record { sub = λ r t. t; summary_text = λ r. codes "{}"; event_json = λ e. e.body }

concat-split_example :
    concat (split render.sub render.summary_text render.event_json (codes "a text"))
    ≡ redact render.sub render.summary_text render.event_json (codes "a text")
concat-split_example =
    (concat-split render.sub render.summary_text render.event_json (codes "a text")).0

chunks-number_example :
    length (chunks render.sub render.summary_text render.event_json succeeded (called ∷ []))
    ≤ max_chunks
chunks-number_example =
    (chunks-number render.sub render.summary_text render.event_json succeeded (called ∷ [])).1

-- A platform whose runs have ended, and targets that refuse every document.
abbrev refusing : Web
refusing = record {
  World = ℕ;
  get_run = λ r w. (w, ok (record { run = succeeded; ended = true }));
  get_events = λ r w. (w, ok (called ∷ []));
  post = λ t cs w. (w, refused 401);
  monotonic = λ w. (w, w);
  sleep = λ d w. w + d;
}

refusing-Ticks : Ticks refusing
refusing-Ticks = record {
  clock = λ w. w;
  read = λ w. refl;
  after_monotonic = λ w. omega arith;
  after_get_run = λ r w. omega arith;
  after_sleep = λ d w. omega arith;
}

abbrev defaults : IndexConfig
defaults = record { execution_index_mode = none; kb_base_url = none; exec_index_url = none }

index_run-Accounted_example :
    let r = index_run refusing render defaults (codes "r1") 5000 0 in Accounted r.1 r.2
unfolding text_eq
index_run-Accounted_example =
    index_run-Accounted refusing render defaults (codes "r1") 5000 0 refusing-Ticks refl
