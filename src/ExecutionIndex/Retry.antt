-- ===== src/ExecutionIndex/Retry.antt =====
-- execution_index.py: the durable retry queue (`_queue_retry`, `_index_and_maybe_queue_retry`,
-- `sweep_retry_queue`, `retry_queue_snapshot`). The Redis hash is a parameter with the documented laws
-- of its commands; that there is no client or that a command fails, and the counter of exhausted
-- retries, are not modelled.
pub mod Values
pub mod Laws
pub mod Swept
pub mod GivesUp
pub mod Snapshot
mod Tests
use aw_app_agents_platform_r.Prelude.{
  ℕ, zero, suc, ◌+◌, ◌≤◌, ◌<◌, ◌≡◌, refl, Bool, true, false, Option, none, some, List, [], ◌∷◌,
  ◌++◌, if◌then◌else◌, leb, ◌==◌, ℤ, pos, negsuc, is_some, length,
}
use aw_app_agents_platform_r.Prelude.Texts.{Text, codes, text_eq, is_empty}
use aw_app_agents_platform_r.Prelude.Decimal.{str, int}

abbrev pub retry_max_attempts : ℕ
retry_max_attempts = 24

-- `str(value).partition(":")`: what stands before the first colon, and behind it.
pub before_colon : Text → Text
before_colon [] = []
before_colon (c ∷ s) = let rest = before_colon s in if c == b':' then [] else c ∷ rest

pub after_colon : Text → Text
after_colon [] = []
after_colon (c ∷ s) = let rest = after_colon s in if c == b':' then s else rest

str_ℤ : ℤ → Text
str_ℤ (pos n) = str n
str_ℤ (negsuc n) = b'-' ∷ str (suc n)

-- f"{attempts}:{reason}"
pub entry : ℤ → Text → Text
unfolding str_ℤ
entry attempts reason = str_ℤ attempts ++ (b':' ∷ reason)

-- `int(attempts_raw or 0)`; `none` where it raises.
pub attempts_of : Text → Option ℤ
attempts_of raw = if is_empty raw then some (pos 0) else int raw

add_one : ℤ → ℤ
add_one (pos n) = pos (suc n)
add_one (negsuc zero) = pos 0
add_one (negsuc (suc n)) = negsuc n

too_many : ℤ → Bool
too_many (pos n) = leb retry_max_attempts n
too_many (negsuc n) = false

-- What `index_run` returned, and the reasons that it told `on_skip`, oldest first.
pub record Attempt : Type 0 where
  pub ok : Bool
  pub reasons : List Text

-- What a sweep makes of an entry; `broken`: its number of attempts does not read, which raises.
pub data Fate : Type 0 where
  indexed gated exhausted broken : Fate
  requeued : Text → Fate

unfoldable pub is_gated : List Text → Bool
is_gated [] = false
is_gated (r ∷ rest) = text_eq r (codes "skipped:gate")

retried : Text → Option ℤ → Fate
retried reason none = broken
retried reason (some a) =
    if too_many (add_one a) then exhausted else requeued (entry (add_one a) reason)

-- The body of the loop of `sweep_retry_queue`, by the value of the entry.
pub fate : Attempt → Text → Fate
unfolding retried too_many add_one before_colon after_colon attempts_of
fate a value =
    if a.ok
    then indexed
    else if is_gated a.reasons
    then gated
    else retried (after_colon value) (attempts_of (before_colon value))

-- The counts that `sweep_retry_queue` returns.
pub record Counts : Type 0 where
  pub queued : ℕ
  pub n_indexed : ℕ
  pub n_gated : ℕ
  pub n_requeued : ℕ
  pub n_exhausted : ℕ

abbrev pub tally : Fate → Counts → Counts
tally indexed c = record c { n_indexed = suc c.n_indexed }
tally gated c = record c { n_gated = suc c.n_gated }
tally exhausted c = record c { n_exhausted = suc c.n_exhausted }
tally broken c = c
tally (requeued v) c = record c { n_requeued = suc c.n_requeued }

-- An exception ends the loop.
unless_broken {ℓ} : {A : Type ℓ} → Fate → A → A → A
unless_broken broken stopped on = stopped
unless_broken _ stopped on = on

snapshot_cons :
    Text → Text → Option ℤ → Option (List (Text × ℤ × Text)) → Option (List (Text × ℤ × Text))
snapshot_cons run_id reason (some a) (some rows) = some ((run_id, a, reason) ∷ rows)
snapshot_cons run_id reason _ _ = none

-- The loop of `retry_queue_snapshot`.
snapshot : List (Text × Text) → Option (List (Text × ℤ × Text))
unfolding snapshot_cons before_colon after_colon attempts_of
snapshot [] = some []
snapshot ((run_id, value) ∷ l) =
    snapshot_cons run_id (after_colon value) (attempts_of (before_colon value)) (snapshot l)

pub record RedisHash : Type 1 where
  pub Hash : Type 0
  pub hgetall : Hash → List (Text × Text)
  pub hsetnx : Text → Text → Hash → Hash
  pub hset : Text → Text → Hash → Hash
  pub hdel : Text → Hash → Hash

abbrev pub find : Text → List (Text × Text) → Option Text
find r [] = none
find r ((k, v) ∷ l) = if text_eq k r then some v else find r l

module _ (H : RedisHash) where
  open H use {Hash, hgetall, hsetnx, hset, hdel}

  -- `_queue_retry`
  pub queue_retry : Text → Text → Hash → Hash
  unfolding entry
  queue_retry run_id reason h = hsetnx run_id (entry (pos 0) reason) h

  queue_reasons : Text → Bool → List Text → Hash → Hash
  unfolding queue_retry
  queue_reasons run_id ok [] h = h
  queue_reasons run_id ok (reason ∷ rest) h =
      if ok
      then h
      else if text_eq reason (codes "skipped:gate")
      then h
      else queue_retry run_id reason h

  -- `_index_and_maybe_queue_retry`, by what `index_run` did.
  pub maybe_queue_retry : Text → Attempt → Hash → Hash
  unfolding queue_reasons
  maybe_queue_retry run_id a h = queue_reasons run_id a.ok a.reasons h

  apply_fate : Text → Fate → Hash → Hash
  apply_fate r (requeued v) h = hset r v h
  apply_fate r broken h = h
  apply_fate r _ h = hdel r h

  -- The loop of `sweep_retry_queue`, by the attempt that is made for each run; `none`: it raised.
  pub sweep_entries : (Text → Attempt) → List (Text × Text) → Hash → Counts → Hash × Option Counts
  unfolding apply_fate fate unless_broken
  sweep_entries try [] h c = (h, some c)
  sweep_entries try ((r, v) ∷ l) h c =
      let f = fate (try r) v in
      let rest = sweep_entries try l (apply_fate r f h) (tally f c) in
      unless_broken f (h, none) rest

  -- `retry_queue_snapshot`; `none` where the number of attempts of an entry does not read, which raises.
  pub retry_queue_snapshot : Hash → Option (List (Text × ℤ × Text))
  unfolding snapshot
  retry_queue_snapshot h = snapshot (hgetall h)

  -- `sweep_retry_queue`
  pub sweep_retry_queue : (Text → Attempt) → Hash → Hash × Option Counts
  unfolding sweep_entries
  sweep_retry_queue try h = sweep_entries try (hgetall h) h (record {
    queued = length (hgetall h);
    n_indexed = 0;
    n_gated = 0;
    n_requeued = 0;
    n_exhausted = 0;
  })
