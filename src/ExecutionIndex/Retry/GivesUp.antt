-- ===== src/ExecutionIndex/Retry/GivesUp.antt =====
-- The retry queue (execution_index.py) over time: runs that finish and are queued, and sweeps.
use aw_app_agents_platform_r.Prelude.{
  ℕ, suc, ◌+◌, ◌<◌, ◌≡◌, refl, sym, ap, ◌∙◌, Bool, true, false, Option, none, some, List, [], ◌∷◌,
  if◌then◌else◌, pos, arith, Bool-cases, inl, inr, leb,
}
use aw_app_agents_platform_r.Prelude.Texts.{Text, codes, text_eq, text_eq_refl}
use aw_app_agents_platform_r.ExecutionIndex.Retry.{
  retry_max_attempts, entry, Attempt, is_gated, RedisHash, queue_retry, queue_reasons,
  maybe_queue_retry, sweep_retry_queue, exhausted, requeued,
}
use aw_app_agents_platform_r.ExecutionIndex.Retry.Values.{fate-entry}
use aw_app_agents_platform_r.ExecutionIndex.Retry.Laws.{
  HashLaws, IsEntry, IsQueue, queue, next, or_value, outcome, sweep_retry_queue-next, sweep-IsQueue,
}

-- A run finishes and `_index_and_maybe_queue_retry` handles it, or the hourly sweep runs.
pub data Moment : Type 0 where
  finishes : Text → Attempt → Moment
  sweeps : (Text → Attempt) → Moment

abbrev pub sweep_count : List Moment → ℕ
sweep_count [] = 0
sweep_count (finishes r a ∷ ms) = sweep_count ms
sweep_count (sweeps try ∷ ms) = suc (sweep_count ms)

abbrev pub FailsAt : Text → Attempt → Type 0
FailsAt r a = (a.ok ≡ false) × (is_gated a.reasons ≡ false)

-- Every sweep of the history fails to index the run, and not for the gate.
abbrev pub Fails : Text → List Moment → Type 0
Fails r [] = Unit
Fails r (finishes k a ∷ ms) = Fails r ms
Fails r (sweeps try ∷ ms) = FailsAt r (try r) × Fails r ms

module _ (H : RedisHash) where
  pub happen : H.Hash → Moment → H.Hash
  happen h (finishes r a) = maybe_queue_retry H r a h
  happen h (sweeps try) = (sweep_retry_queue H try h).0

  pub history : H.Hash → List Moment → H.Hash
  unfolding happen
  history h [] = h
  history h (m ∷ ms) = history (happen h m) ms

  module _ (L : HashLaws H) where
    -- An entry that is there stays as it is; a new one has no attempt yet.
    queue-queue_retry :
        (k reason r : Text) (h : H.Hash)
        → queue H L r (queue_retry H k reason h)
          ≡ (if text_eq k r then or_value (queue H L r h) (entry (pos 0) reason) else queue H L r h)
    unfolding queue_retry
    queue-queue_retry k reason r h = L.find-hsetnx k (entry (pos 0) reason) r h

    queue_retry-keeps :
        (k reason r v : Text) (h : H.Hash)
        → queue H L r h ≡ some v
        → queue H L r (queue_retry H k reason h) ≡ some v
    queue_retry-keeps k reason r v h at =
        rw (queue-queue_retry k reason r h, at)
          (elim (Bool-cases (text_eq k r)) [ inl e ↦ rw e | inr e ↦ rw e ])

    queue_retry-IsQueue :
        (k reason : Text) (h : H.Hash) → IsQueue H L h → IsQueue H L (queue_retry H k reason h)
    queue_retry-IsQueue k reason h e r u at =
        stays (queue H L r h) refl (sym (queue-queue_retry k reason r h) ∙ at)
      where
        stays :
            (o : Option Text)
            → queue H L r h ≡ o
            → (if text_eq k r
                then or_value (queue H L r h) (entry (pos 0) reason)
                else queue H L r h)
              ≡ some u
            → IsEntry u
        stays none was now = elim (Bool-cases (text_eq k r)) [
          | inl same ↦
              let made : u ≡ entry (pos 0) reason = cc (rw (was, same) at now) in
              (0, reason, made, omega arith)
          | inr apart ↦ cc (rw (was, apart) at now)
        ]
        stays (some v) was now = elim (Bool-cases (text_eq k r)) [
          | inl same ↦ let kept : u ≡ v = cc (rw (was, same) at now) in e r u (rw kept was)
          | inr apart ↦ let kept : u ≡ v = cc (rw (was, apart) at now) in e r u (rw kept was)
        ]

    finishes-keeps :
        (k : Text) (ok : Bool) (reasons : List Text) (r v : Text) (h : H.Hash)
        → queue H L r h ≡ some v
        → queue H L r (queue_reasons H k ok reasons h) ≡ some v
    unfolding queue_reasons
    finishes-keeps k ok [] r v h at = at
    finishes-keeps k true (reason ∷ rest) r v h at = at
    finishes-keeps k false (reason ∷ rest) r v h at =
        elim (Bool-cases (text_eq reason (codes "skipped:gate"))) [
          | inl out ↦ rw out at
          | inr kept ↦ rw kept (queue_retry-keeps k reason r v h at)
        ]

    finishes-IsQueue :
        (k : Text) (ok : Bool) (reasons : List Text) (h : H.Hash)
        → IsQueue H L h
        → IsQueue H L (queue_reasons H k ok reasons h)
    unfolding queue_reasons
    finishes-IsQueue k ok [] h e = e
    finishes-IsQueue k true (reason ∷ rest) h e = e
    finishes-IsQueue k false (reason ∷ rest) h e =
        elim (Bool-cases (text_eq reason (codes "skipped:gate"))) [
          | inl out ↦ rw out e
          | inr kept ↦ rw kept (queue_retry-IsQueue k reason h e)
        ]

    pub happen-IsQueue : (m : Moment) (h : H.Hash) → IsQueue H L h → IsQueue H L (happen h m)
    unfolding happen maybe_queue_retry
    happen-IsQueue (finishes k a) h e = finishes-IsQueue k a.ok a.reasons h e
    happen-IsQueue (sweeps try) h e = sweep-IsQueue H L try h e

    -- A failing sweep that is not the 24th adds an attempt.
    failing_sweep :
        (try : Text → Attempt) (n : ℕ) (reason r : Text) (h : H.Hash)
        → IsQueue H L h
        → queue H L r h ≡ some (entry (pos n) reason)
        → FailsAt r (try r)
        → queue H L r (sweep_retry_queue H try h).0
          ≡ outcome (
              if leb retry_max_attempts (suc n)
              then exhausted
              else requeued (entry (pos (suc n)) reason))
    failing_sweep try n reason r h e at (failed, kept) =
        (sweep_retry_queue-next H L try h e).1 r
        ∙ ap (next (try r)) at
        ∙ ap outcome (fate-entry (try r) n reason failed kept)

    counted :
        (r reason : Text) (ms : List Moment) (n k : ℕ) (h : H.Hash)
        → IsQueue H L h
        → queue H L r h ≡ some (entry (pos n) reason)
        → Fails r ms
        → n + sweep_count ms ≡ k
        → k < retry_max_attempts
        → IsQueue H L (history h ms) × (queue H L r (history h ms) ≡ some (entry (pos k) reason))
    unfolding history happen maybe_queue_retry
    counted r reason [] n k h e at f total few =
        let same : n ≡ k = omega (arith, total) in (e, rw (sym same) at)
    counted r reason (finishes i a ∷ ms) n k h e at f total few =
        counted r reason ms n k (happen h (finishes i a)) (happen-IsQueue (finishes i a) h e)
          (finishes-keeps i a.ok a.reasons r _ h at) f total few
    counted r reason (sweeps try ∷ ms) n k h e at f total few =
        let room : leb retry_max_attempts (suc n) ≡ false = ground arith in
        let again = failing_sweep try n reason r h e at f.0 in
        counted r reason ms (suc n) k (happen h (sweeps try)) (happen-IsQueue (sweeps try) h e)
          (rw room at again) f.1 (omega arith) few

    first_queued :
        (r reason : Text) (rest : List Text) (h : H.Hash)
        → queue H L r h ≡ none
        → text_eq reason (codes "skipped:gate") ≡ false
        → queue H L r (maybe_queue_retry H r (record { ok = false; reasons = reason ∷ rest }) h)
          ≡ some (entry (pos 0) reason)
    unfolding maybe_queue_retry queue_reasons
    first_queued r reason rest h new kept =
        rw (kept, queue-queue_retry r reason r h, text_eq_refl, new) refl

    -- A run that was not queued fails to be indexed, with a first reason that is not the gate. While
    -- every hourly sweep fails on it too, for no gate, and other runs (or the run itself) finish and
    -- are queued in between, its entry counts the sweeps and keeps the first reason; and the failing
    -- sweep after them writes it with one more, or gives the run up when it is the 24th.
    pub history-gives_up :
        (r reason : Text) (rest : List Text) (ms : List Moment) (try : Text → Attempt) (h : H.Hash)
        → IsQueue H L h
        → queue H L r h ≡ none
        → text_eq reason (codes "skipped:gate") ≡ false
        → Fails r ms
        → sweep_count ms < retry_max_attempts
        → FailsAt r (try r)
        → let failed : Attempt = record { ok = false; reasons = reason ∷ rest } in
          let before = history (happen h (finishes r failed)) ms in
          (queue H L r before ≡ some (entry (pos (sweep_count ms)) reason))
          × (queue H L r (happen before (sweeps try)) ≡ (
              if leb retry_max_attempts (suc (sweep_count ms))
              then none
              else some (entry (pos (suc (sweep_count ms))) reason)))
    unfolding happen
    history-gives_up r reason rest ms try h e new kept f few last =
        let failed : Attempt = record { ok = false; reasons = reason ∷ rest } in
        let start = maybe_queue_retry H r failed h in
        let (e2, at) =
          counted r reason ms 0 (sweep_count ms) start (happen-IsQueue (finishes r failed) h e)
            (first_queued r reason rest h new kept) f (omega arith) few in
        (
          at,
          failing_sweep try (sweep_count ms) reason r (history start ms) e2 at last
              ∙ by_limit (leb retry_max_attempts (suc (sweep_count ms))),
        )
      where
        by_limit :
            (b : Bool)
            → outcome
                (if b then exhausted else requeued (entry (pos (suc (sweep_count ms))) reason))
              ≡ (if b then none else some (entry (pos (suc (sweep_count ms))) reason))
        by_limit true = refl
        by_limit false = refl
