-- ===== src/ExecutionIndex/Run.antt =====
-- execution_index.py: `index_run` and `_post_to_target`. The HTTP client, the clock and `sleep` are
-- the fields of `Web`; the Redis counters are the list of the names that were incremented.
pub mod Accounted
use aw_app_agents_platform_r.Prelude.{
  ℕ, zero, suc, ◌+◌, ◌*◌, ◌-◌, ◌/◌, min, ◌≤◌, ◌≡◌, refl, Bool, true, false, not, ◌&&◌, ◌||◌, Option,
  none, some, List, [], ◌∷◌, ◌++◌, if◌then◌else◌, leb, ◌==◌,
}
use aw_app_agents_platform_r.Prelude.Texts.{Text, codes, text_eq, is_empty}
use aw_app_agents_platform_r.Prelude.State.{Action, ◌>>=◌, ◌>>◌, pure}
use aw_app_agents_platform_r.ExecutionIndex.Gate.{Run, Event, interesting, is_nil}
use aw_app_agents_platform_r.ExecutionIndex.Chunks.{Chunk, Redaction, chunks}
use aw_app_agents_platform_r.ExecutionIndex.Targets.{
  Target, counter, phase_counter, IndexConfig, exec_index_targets, default_to,
}

-- A GET with `raise_for_status` and `.json()`: the answer, a status that is no success, an exception
-- of the transport by its type's name, or an exception while the body is read.
pub data Reply {ℓ} (A : Type ℓ) : Type ℓ where
  ok : A → Reply A
  bad_status : ℕ → Reply A
  raised : Text → Reply A
  bad_body : Text → Reply A

-- A POST with `raise_for_status`.
pub data Posted : Type 0 where
  accepted : Posted
  refused : ℕ → Posted
  failed : Text → Posted

-- The run, and whether `ended_at` is set.
pub record Polled : Type 0 where
  pub run : Run
  pub ended : Bool

pub record Web : Type 1 where
  pub World : Type 0
  pub get_run : Text → World → World × Reply Polled
  pub get_events : Text → World → World × Reply (List Event)
  pub post : Target → List Chunk → World → World × Posted
  pub monotonic : World → World × ℕ
  pub sleep : ℕ → World → World

abbrev pub events_limit : ℕ
events_limit = 5000

-- Times are in milliseconds.
abbrev pub first_delay : ℕ
first_delay = 250

abbrev pub next_delay : ℕ → ℕ
next_delay d = min (d * 2) 5000

-- What a call did so far: the counters that it incremented and the reasons that `on_skip` got.
pub record Trace : Type 0 where
  pub counters : List Text
  pub skips : List Text

abbrev pub incr : Text → Trace → Trace
incr name t = record t { counters = t.counters ++ name ∷ [] }

-- `_skip`
abbrev pub skip : Text → Trace → Trace
skip reason t = record t { counters = t.counters ++ reason ∷ []; skips = t.skips ++ reason ∷ [] }

-- How the polling of a run ended.
pub data Poll : Type 0 where
  finalized : Run → Poll
  skipped : Text → Poll
  out_of_fuel : Poll

abbrev pub mode_of : IndexConfig → Text
mode_of cfg = elim cfg.execution_index_mode [
  | none ↦ codes "interesting"
  | some m ↦ if is_empty m then codes "interesting" else m
]

-- `_post_to_target` by the answer of the POST: does it succeed, and what is counted.
unfoldable pub posted : Target → Posted → Trace → Trace × Bool
posted t accepted s = (incr t.success_counter s, true)
posted t (refused code) s = (
  skip
      (if code == 401 || code == 403
        then counter t (codes "secret_reject")
        else counter t (codes "http_error"))
      s,
  false,
)
posted t (failed error) s = (skip (phase_counter t.phase error) s, false)

-- The handlers of `index_run` around a GET, by the phase's name.
abbrev pub get_skip : Text → Text → Text
get_skip phase error = phase_counter phase error

module _ (W : Web) where
  open W use {World, get_run, get_events, post, monotonic, sleep}

  -- A round of the polling loop after its GET; `again` is the rest of the loop.
  after_reply : Action World Poll → ℕ → ℕ → Reply Polled → Action World Poll
  after_reply again stop_at delay (bad_status code) w = (w, skipped (codes "skipped:http_error"))
  after_reply again stop_at delay (raised error) w =
      (w, skipped (phase_counter (codes "apmt_get_run") error))
  after_reply again stop_at delay (bad_body error) w =
      (w, skipped (phase_counter (codes "other") error))
  after_reply again stop_at delay (ok p) w =
      let (w1, now) = monotonic w in
      let rest = again (sleep delay w1) in
      if p.ended
      then (w, finalized p.run)
      else if leb stop_at now
      then (w1, skipped (codes "skipped:finalize_timeout"))
      else rest

  -- The polling loop of `index_run`, from the reading `started` of the clock.
  pub poll : ℕ → Text → ℕ → ℕ → ℕ → Action World Poll
  unfolding after_reply
  poll zero run_id deadline started delay w = (w, out_of_fuel)
  poll (suc fuel) run_id deadline started delay w =
      let (w1, reply) = get_run run_id w in
      after_reply (poll fuel run_id deadline started (next_delay delay)) (started + deadline) delay
        reply w1

  -- The POSTs to all targets, each attempted whatever became of the others: `any(results)`.
  pub post_all : List Target → List Chunk → Trace → World → World × Trace × Bool
  unfolding posted
  post_all [] cs s w = (w, s, false)
  post_all (t ∷ ts) cs s w =
      let (w1, reply) = post t cs w in
      let (s1, done) = posted t reply s in
      let (w2, s2, rest) = post_all ts cs s1 w1 in (w2, s2, done || rest)

-- The texts that `_chunks` renders by code outside the repository.
pub record Rendering : Type 0 where
  pub sub : Redaction → Text → Text
  pub summary_text : Run → Text
  pub event_json : Event → Text

-- More rounds than delays of at least a quarter of a second fit into the deadline.
abbrev pub poll_fuel : ℕ → ℕ
poll_fuel deadline = suc (suc (deadline / 250))

abbrev pub nothing_yet : Trace
nothing_yet = record { counters = []; skips = [] }

module _ (W : Web) (R : Rendering) where
  open W use {World, get_events, monotonic}

  finish_posts : World × Trace × Bool → World × Trace × Bool
  finish_posts (w, s, true) = (w, incr (codes "indexed") s, true)
  finish_posts (w, s, false) = (w, s, false)

  post_targets : List Target → List Chunk → Trace → World → World × Trace × Bool
  unfolding finish_posts
  post_targets [] cs s w = (w, skip (codes "skipped:no_target") s, false)
  post_targets (t ∷ ts) cs s w = finish_posts (post_all W (t ∷ ts) cs s w)

  index_events : IndexConfig → Run → Reply (List Event) → Trace → World → World × Trace × Bool
  unfolding post_targets
  index_events cfg run (bad_status code) s w = (w, skip (codes "skipped:http_error") s, false)
  index_events cfg run (raised error) s w =
      (w, skip (phase_counter (codes "apmt_get_events") error) s, false)
  index_events cfg run (bad_body error) s w =
      (w, skip (phase_counter (codes "other") error) s, false)
  index_events cfg run (ok events) s w =
      if interesting run events (mode_of cfg)
      then post_targets (exec_index_targets cfg)
          (chunks R.sub R.summary_text R.event_json run events) s w
      else (w, skip (codes "skipped:gate") s, false)

  index_polled : IndexConfig → Text → Poll → Trace → World → World × Trace × Bool
  unfolding index_events
  index_polled cfg run_id out_of_fuel s w = (w, s, false)
  index_polled cfg run_id (skipped reason) s w = (w, skip reason s, false)
  index_polled cfg run_id (finalized run) s w =
      let (w1, reply) = get_events run_id w in index_events cfg run reply s w1

  index_attempt : IndexConfig → Text → ℕ → Trace → World → World × Trace × Bool
  unfolding index_polled
  index_attempt cfg run_id deadline s w =
      let (w1, started) = monotonic w in
      let (w2, polled) = poll W (poll_fuel deadline) run_id deadline started first_delay w1 in
      index_polled cfg run_id polled s w2

  -- `index_run`; the deadline is in milliseconds.
  pub index_run : IndexConfig → Text → ℕ → World → World × Trace × Bool
  unfolding index_attempt
  index_run cfg run_id deadline w =
      if text_eq (mode_of cfg) (codes "off")
      then (w, nothing_yet, false)
      else index_attempt cfg run_id deadline (incr (codes "attempted") nothing_yet) w
