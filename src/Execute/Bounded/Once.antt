-- ===== src/Execute/Bounded/Once.antt =====
-- `start_job` of execute.py over a series of calls: how long a run id is remembered.
use aw_app_agents_platform_r.Prelude.{
  ℕ, suc, ◌≤◌, ◌<◌, ◌+◌, ◌≡◌, refl, ap, ◌∙◌, true, false, none, List, [], ◌∷◌, ◌++◌, inl, inr,
  length, is_some, Bool-cases, Option-cases, arith, length-append,
}
use aw_app_agents_platform_r.Prelude.Texts.{Text, is_empty}
use aw_app_agents_platform_r.Execute.Bounded.{
  get_item, set_item, evict, started_max, start_job, start_jobs, new_run,
}
use aw_app_agents_platform_r.Execute.Bounded.Size.{evict-append, set_item-absent, get_item-middle}
use mathlib.Core.List.{append_assoc}

-- The run is among the youngest `k` + 1 entries.
Recent : Text → ℕ → List (Text × Unit {0}) → Type 0
Recent r k d =
    (pre : List (Text × Unit {0})) × (post : List (Text × Unit {0})) × (d ≡ pre ++ (r, tt) ∷ post)
    × (length post ≤ k)

Recent-known :
    (r : Text) (k : ℕ) (d : List (Text × Unit {0})) → Recent r k d → is_some (get_item r d) ≡ true
unfolding Recent
Recent-known r k d (pre, post, same, le) = rw same (get_item-middle pre r tt post)

-- One call adds an entry only if it starts a job.
Recent-added :
    (r s : Text) (k : ℕ) (d : List (Text × Unit {0}))
    → Recent r k d
    → get_item s d ≡ none
    → suc k < started_max
    → Recent r (suc k) (evict started_max (set_item s tt d))
unfolding Recent
Recent-added r s k d (pre, post, same, le) new lt =
    let grown : set_item s tt d ≡ pre ++ (r, tt) ∷ (post ++ (s, tt) ∷ []) =
      set_item-absent s tt d new
      ∙ (ap (λ e. e ++ (s, tt) ∷ []) same ∙ append_assoc pre ((r, tt) ∷ post) ((s, tt) ∷ [])) in
    let longer : length (post ++ (s, tt) ∷ []) ≤ suc k =
      omega (arith, length-append post ((s, tt) ∷ []), le) in
    let (kept, rest) =
      evict-append started_max pre (r, tt) (post ++ (s, tt) ∷ []) (omega (arith, longer, lt)) in
    (kept, post ++ (s, tt) ∷ [], ap (evict started_max) grown ∙ rest, longer)

Recent-le : (r : Text) (j k : ℕ) (d : List (Text × Unit {0})) → j ≤ k → Recent r j d → Recent r k d
unfolding Recent
Recent-le r j k d le (pre, post, same, short) = (pre, post, same, omega arith)

Recent-start_job :
    (r s : Text) (k : ℕ) (d : List (Text × Unit {0}))
    → Recent r k d
    → k + new_run s (start_job s d).1 < started_max
    → Recent r (k + new_run s (start_job s d).1) (start_job s d).0
unfolding start_job new_run
Recent-start_job r s k d h lt = elim (Bool-cases (is_empty s)) [
  | inl empty ↦ rw empty (Recent-le r k (k + 0) d (omega arith) h)
  | inr named ↦ elim (Option-cases (get_item s d)) [
    | inl new ↦
        rw (named, new)
          (Recent-le r (suc k) (k + 1) (evict started_max (set_item s tt d)) (omega arith)
            (Recent-added r s k d h new (omega (arith, rw (named, new) at lt))))
    | inr (u, known) ↦ rw (named, known) (Recent-le r k (k + 0) d (omega arith) h)
  ]
]

Recent-start_jobs :
    (r : Text) (rs : List Text) (k : ℕ) (d : List (Text × Unit {0}))
    → Recent r k d
    → k + (start_jobs rs d).1 < started_max
    → Recent r (k + (start_jobs rs d).1) (start_jobs rs d).0
unfolding start_jobs
Recent-start_jobs r [] k d h lt = Recent-le r k (k + 0) d (omega arith) h
Recent-start_jobs r (s ∷ rs) k d h lt =
    let one = new_run s (start_job s d).1 in
    let more = (start_jobs rs (start_job s d).0).1 in
    Recent-le r ((k + one) + more) (k + (one + more)) (start_jobs rs (start_job s d).0).0
      (omega arith)
      (Recent-start_jobs r rs (k + one) (start_job s d).0
        (Recent-start_job r s k d h (omega (arith, lt))) (omega (arith, lt)))

started-Recent :
    (r : Text) (d : List (Text × Unit {0}))
    → is_empty r ≡ false
    → (start_job r d).1 ≡ true
    → Recent r 0 (start_job r d).0
unfolding start_job Recent
started-Recent r d named begun = elim (Option-cases (get_item r d)) [
  | inl new ↦
      rw (named, new)
        (let (kept, rest) = evict-append started_max d (r, tt) [] (omega arith) in
          (kept, [], ap (evict started_max) (set_item-absent r tt d new) ∙ rest, omega arith))
  | inr (u, known) ↦ absurd (cc (rw (named, known) at begun))
]

start_job-known :
    (r : Text) (d : List (Text × Unit {0}))
    → is_empty r ≡ false
    → is_some (get_item r d) ≡ true
    → (start_job r d).1 ≡ false
unfolding start_job
start_job-known r d named known = rw (named, known) refl

-- A job whose run id `start_job` started is not started a second time, while fewer than 2048 other
-- calls have started a job with a run id since then, whatever was dispatched before.
pub start_job-start_jobs :
    (run_id : Text) (between : List Text) (started : List (Text × Unit {0}))
    → is_empty run_id ≡ false
    → (start_job run_id started).1 ≡ true
    → (start_jobs between (start_job run_id started).0).1 < started_max
    → (start_job run_id (start_jobs between (start_job run_id started).0).0).1 ≡ false
start_job-start_jobs run_id between started named begun few =
    let d = (start_job run_id started).0 in
    start_job-known run_id (start_jobs between d).0 named (
      Recent-known run_id (0 + (start_jobs between d).1) (start_jobs between d).0 (
        Recent-start_jobs run_id between 0 d (started-Recent run_id started named begun)
          (omega (arith, few))))
