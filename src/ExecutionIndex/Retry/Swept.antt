-- ===== src/ExecutionIndex/Retry/Swept.antt =====
-- What `sweep_retry_queue` (execution_index.py) leaves of an entry, by its attempts and its reason.
use aw_app_agents_platform_r.Prelude.{
  ℕ, suc, ◌+◌, ◌≡◌, refl, ◌∙◌, ap, Bool, true, false, ◌||◌, Option, none, some, if◌then◌else◌, leb,
  pos, Bool-cases, inl, inr, length,
}
use aw_app_agents_platform_r.Prelude.Texts.{Text}
use aw_app_agents_platform_r.ExecutionIndex.Retry.{
  entry, Attempt, exhausted, requeued, is_gated, fate, Counts, RedisHash, sweep_retry_queue,
}
use aw_app_agents_platform_r.ExecutionIndex.Retry.Values.{fate-entry}
use aw_app_agents_platform_r.ExecutionIndex.Retry.Laws.{
  HashLaws, IsQueue, outcome, next, queue, sweep_retry_queue-next,
}

-- An entry of `n` attempts behind another one.
abbrev pub left_of : Attempt → ℕ → Text → Option Text
left_of a n reason =
    if a.ok || is_gated a.reasons
    then none
    else if leb 24 (suc n)
    then none
    else some (entry (pos (suc n)) reason)

outcome-if :
    (b : Bool) (v : Text)
    → outcome (if b then exhausted else requeued v) ≡ (if b then none else some v)
outcome-if true v = refl
outcome-if false v = refl

outcome-left_of :
    (a : Attempt) (n : ℕ) (reason : Text)
    → outcome (fate a (entry (pos n) reason)) ≡ left_of a n reason
outcome-left_of a n reason = elim (Bool-cases a.ok) [
  | inl done ↦ unfold fate in rw done refl
  | inr failed ↦ elim (Bool-cases (is_gated a.reasons)) [
    | inl out ↦ unfold fate in rw (failed, out) refl
    | inr kept ↦
        ap outcome (fate-entry a n reason failed kept)
        ∙ rw (failed, kept) (outcome-if (leb 24 (suc n)) (entry (pos (suc n)) reason))
  ]
]

module _ (H : RedisHash) (L : HashLaws H) where
  -- A sweep of a queue whose values are as this module writes them does not raise, and each entry is
  -- counted once. A run that is indexed, or that the gate refuses, leaves the queue; another one leaves
  -- it when this was its 24th failed attempt, and else stays with the same reason and one attempt
  -- more. No run is added.
  pub sweep_retry_queue-left :
      (try : Text → Attempt) (h : H.Hash)
      → IsQueue H L h
      → ((d : Counts) × ((sweep_retry_queue H try h).1 ≡ some d)
          × (d.queued ≡ length (H.hgetall h))
          × (d.n_indexed + d.n_gated + d.n_requeued + d.n_exhausted ≡ d.queued))
        × ((r reason : Text) (n : ℕ)
            → queue H L r h ≡ some (entry (pos n) reason)
            → queue H L r (sweep_retry_queue H try h).0 ≡ left_of (try r) n reason)
        × ((r : Text) → queue H L r h ≡ none → queue H L r (sweep_retry_queue H try h).0 ≡ none)
  sweep_retry_queue-left try h e =
      let (counted, holds) = sweep_retry_queue-next H L try h e in
      (
        counted,
        (λ r reason n at. holds r ∙ ap (next (try r)) at ∙ outcome-left_of (try r) n reason),
        (λ r none_there. holds r ∙ ap (next (try r)) none_there),
      )
