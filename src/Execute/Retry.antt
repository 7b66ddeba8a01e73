-- ===== src/Execute/Retry.antt =====
-- execute.py: the attempts of a cold job, `_run_cold_agent_with_retry`.
pub mod Spawns
pub mod Ends
pub mod Looks
use aw_app_agents_platform_r.Prelude.{
  ℕ, zero, suc, ◌+◌, ◌-◌, ◌*◌, ◌/◌, Bool, true, false, Option, none, some, List, [], ◌∷◌,
  if◌then◌else◌, leb, ℤ, pos,
}
use aw_app_agents_platform_r.Prelude.Texts.{Text, codes}
use aw_app_agents_platform_r.Execute.Outside.{Outside, backoff_notice, result}
use aw_app_agents_platform_r.Execute.Publish.{publish_message}
use aw_app_agents_platform_r.Execute.Registry.{Process, is_aborted}
use aw_app_agents_platform_r.Execute.Stream.{Reason, rate_limit, contention, stream_cold_attempt}
use aw_app_agents_platform_r.Execute.Cooldown.{
  at_world, cooldown_arm, cooldown_wait, sleep_abortable,
}

-- `max_attempts`: the maximum of _CODEX_ROLLOUT_MAX_ATTEMPTS and _CODEX_RATE_LIMIT_MAX_ATTEMPTS.
abbrev pub max_attempts : Bool → ℕ
max_attempts codex_retryable = if codex_retryable then 3 else 1

-- _CODEX_ROLLOUT_RETRY_BACKOFF_S and _CODEX_RATE_LIMIT_RETRY_BACKOFF_S before an attempt, in
-- milliseconds.
abbrev pub contention_backoff : ℕ → ℕ
contention_backoff attempt = if leb attempt 2 then 300 else 600

abbrev pub rate_limit_backoff : ℕ → ℕ
rate_limit_backoff attempt = if leb attempt 2 then 20000 else 60000

-- What the preparation of a new attempt says: go on, or leave the loop; `none` where a sleep runs out
-- of fuel.
abbrev pub is_true : Option Bool → Bool
is_true (some true) = true
is_true _ = false

module _ (O : Outside) where
  -- The wait for the cooldown before a respawn: whether to respawn.
  unfoldable pub wait_cooldown : Text → Process O.World → Process O.World × Option Bool
  unfolding cooldown_wait
  wait_cooldown run_id p = let r = cooldown_wait O true run_id p in (r.0, some r.1)

  unfoldable pub on_slept : Text → Process O.World × Option Bool → Process O.World × Option Bool
  unfolding wait_cooldown
  on_slept run_id (p, none) = (p, none)
  on_slept run_id (p, some true) = (p, some false)
  on_slept run_id (p, some false) = wait_cooldown run_id p

  -- The backoff by the reason of the attempt before.
  unfoldable pub back_off : Reason → ℕ → Text → Process O.World → Process O.World × Option Bool
  unfolding cooldown_arm publish_message sleep_abortable on_slept wait_cooldown
  back_off rate_limit attempt run_id p =
      let b = rate_limit_backoff attempt in
      let jittered = O.uniform (b * 3 / 4) (b * 5 / 4) (cooldown_arm O true p.world) in
      let told = publish_message O run_id (backoff_notice jittered.1 attempt) jittered.0 in
      on_slept run_id (sleep_abortable O jittered.1 run_id (at_world O p told))
  back_off contention attempt run_id p =
      wait_cooldown run_id (at_world O p (O.sleep (contention_backoff attempt) p.world))

  -- All that stands before a respawn: whether to respawn.
  unfoldable pub prepare : Reason → ℕ → Text → Process O.World → Process O.World × Option Bool
  unfolding is_aborted back_off
  prepare reason attempt run_id p =
      let a = is_aborted O true run_id p in
      let b = back_off reason attempt run_id a.0 in if a.1 then (a.0, some false) else b

  unfoldable pub spawn_error : Text → O.World → O.World
  unfolding publish_message
  spawn_error run_id w =
      publish_message O run_id
        (result (codes "spawn_error") (codes "runner failed to respawn container on retry: ")) w

  -- The answer behind a respawn: the new container's attempts, or 1 when it cannot be run.
  unfoldable pub on_respawn :
      Option O.Handle
      → Text
      → Process O.World
      → (O.Handle → Process O.World × Option ℤ)
      → Process O.World × Option ℤ
  unfolding spawn_error
  on_respawn none run_id p attempts = (at_world O p (spawn_error run_id p.world), some (pos 1))
  on_respawn (some container) run_id p attempts = attempts container

  unfoldable pub on_prepared :
      Process O.World × Option Bool
      → ℤ
      → Text
      → (Process O.World → Process O.World × Option ℤ)
      → Process O.World × Option ℤ
  on_prepared (p, none) returncode run_id respawn = (p, none)
  on_prepared (p, some false) returncode run_id respawn = (p, some returncode)
  on_prepared (p, some true) returncode run_id respawn = respawn p

  -- The answer behind an attempt: another try for a reason, if one is left.
  unfoldable pub on_attempt :
      Option (ℤ × Option Reason)
      → Process O.World
      → (ℤ → Reason → Process O.World × Option ℤ)
      → Process O.World × Option ℤ
  on_attempt none p again = (p, some (pos 1))
  on_attempt (some (returncode, none)) p again = (p, some returncode)
  on_attempt (some (returncode, some reason)) p again = again returncode reason

  -- The attempts from one on, with the number of those that may follow it.
  unfoldable pub attempts_from :
      ℕ → ℕ → Bool → O.Handle → Text → Process O.World → Process O.World × Option ℤ
  unfolding stream_cold_attempt prepare on_respawn on_prepared on_attempt
  attempts_from zero attempt codex_retryable container run_id p =
      let r = stream_cold_attempt O container run_id codex_retryable true p.world in
      on_attempt r.1 (at_world O p r.0) (λ returncode reason. (at_world O p r.0, some returncode))
  attempts_from (suc left) attempt codex_retryable container run_id p =
      let r = stream_cold_attempt O container run_id codex_retryable false p.world in
      on_attempt r.1 (at_world O p r.0) (λ returncode reason.
        on_prepared (prepare reason (suc attempt) run_id (at_world O p r.0)) returncode run_id (λ q.
          let spawned = O.run_container q.world in
          on_respawn spawned.1 run_id (at_world O q spawned.0) (λ h.
            attempts_from left (suc attempt) codex_retryable h run_id (at_world O q spawned.0))))

  -- `_run_cold_agent_with_retry`; `none` where a sleep between attempts runs out of fuel.
  unfoldable pub run_cold_agent_with_retry :
      Bool → O.Handle → Text → Process O.World → Process O.World × Option ℤ
  unfolding attempts_from
  run_cold_agent_with_retry codex_retryable container run_id p =
      attempts_from (max_attempts codex_retryable - 1) 1 codex_retryable container run_id p
