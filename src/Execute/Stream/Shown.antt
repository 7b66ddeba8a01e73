-- ===== src/Execute/Stream/Shown.antt =====
-- execute.py: what an attempt publishes, and why it is tried again (`_stream_cold_attempt`), from the
-- whole text of its log.
use aw_app_agents_platform_r.Prelude.{
  ◌≡◌, Bool, true, false, ◌||◌, Option, none, some, List, [], ◌∷◌, ◌++◌, if◌then◌else◌, ℤ,
}
use aw_app_agents_platform_r.Prelude.Texts.{Text}
use aw_app_agents_platform_r.Execute.Outside.{Outside}
use aw_app_agents_platform_r.Execute.Stream.{
  split_lines, is_blank, is_real, publish_all, StreamState, Reason, rate_limit, contention,
  reason_of, is_zero, is_silent, no_reason, settle_attempt, flush,
}
use aw_app_agents_platform_r.Execute.Stream.Held.{is_rollout_hit, is_rate_limit_hit, kept, has}

-- Why an attempt is tried again: a job of Codex that showed nothing real, on a rate limit, or on a
-- failure, or when it said something that was not the rollout error.
abbrev pub verdict : Bool → Bool → Bool → Bool → Bool → Bool → Option Reason
verdict false shows hit_limit hit_rollout silent clean = none
verdict true true hit_limit hit_rollout silent clean = none
verdict true false true hit_rollout silent clean = some rate_limit
verdict true false false hit_rollout silent false = some contention
verdict true false false hit_rollout true true = none
verdict true false false true false true = none
verdict true false false false false true = some contention

-- The lines of a log that are not blank, and its end if that is not blank.
abbrev pub lines_in : Text → List Text
lines_in text = kept (split_lines text).0

abbrev pub end_of : Text → List Text
end_of text = if is_blank (split_lines text).1 then [] else (split_lines text).1 ∷ []

module _ (O : Outside) (cr : Bool) (r : Text) where
  abbrev pub verdict_on : Text → ℤ → Option Reason
  verdict_on text rc =
      verdict cr (has O cr r is_real (lines_in text)) (has O cr r is_rate_limit_hit (lines_in text))
        (has O cr r is_rollout_hit (lines_in text)) (is_silent (lines_in text)) (is_zero rc)

  -- The end of an attempt, behind its chunks.
  abbrev finish_attempt :
      O.Handle → Bool → Text × StreamState O.World → O.World × Option (ℤ × Option Reason)
  finish_attempt h last q =
      let ended = settle_attempt O r h q.1.shown in
      let reason = reason_of cr ended.1 q.1 in
      (flush O (no_reason reason || last) r q.1.buffered_lines q.0 ended.0, some (ended.1, reason))

  -- What an attempt answers and what it leaves published: `early` before the exit status is read and
  -- `late` behind the removal.
  abbrev pub Published :
      O.Handle → Text → Bool → O.World → O.World × Option (ℤ × Option Reason) → Type 0
  Published h text last w outcome =
      (early : List Text) × (late : List Text) × (outcome ≡ (
        publish_all O r late (settle_attempt O r h (publish_all O r early w)).0,
        some (
          (settle_attempt O r h (publish_all O r early w)).1,
          verdict_on text (settle_attempt O r h (publish_all O r early w)).1,
        ),
      ))
      × (early ++ late ≡ (
          if no_reason (verdict_on text (settle_attempt O r h (publish_all O r early w)).1) || last
          then lines_in text ++ end_of text
          else []))
