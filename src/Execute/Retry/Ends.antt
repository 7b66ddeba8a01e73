-- ===== src/Execute/Retry/Ends.antt =====
-- execute.py: the attempts of a job end, and an aborted job is not started again
-- (`_run_cold_agent_with_retry`).
use aw_app_agents_platform_r.Prelude.{
  ℕ, zero, suc, ◌≡◌, refl, Bool, true, false, Option, none, some, ℤ, pos, is_some, not, ◌*◌, ◌/◌,
  ◌-◌, Bool-cases, inl, inr,
}
use aw_app_agents_platform_r.Prelude.Texts.{Text}
use aw_app_agents_platform_r.Execute.Outside.{Outside, backoff_notice}
use aw_app_agents_platform_r.Execute.Bounded.{get_item}
use aw_app_agents_platform_r.Execute.Publish.{publish_message}
use aw_app_agents_platform_r.Execute.Registry.{Process, is_aborted}
use aw_app_agents_platform_r.Execute.Stream.{Reason, rate_limit, contention, stream_cold_attempt}
use aw_app_agents_platform_r.Execute.Cooldown.{at_world, cooldown_arm, sleep_abortable}
use aw_app_agents_platform_r.Execute.Cooldown.Bounds.{Clock, sleep_abortable-some}
use aw_app_agents_platform_r.Execute.Retry.{
  max_attempts, rate_limit_backoff, wait_cooldown, on_slept, back_off, prepare, on_respawn,
  on_prepared, on_attempt, attempts_from, run_cold_agent_with_retry,
}

module _ (O : Outside) where
  on_attempt-some :
      (a : Option (ℤ × Option Reason)) (p : Process O.World)
      (again : ℤ → Reason → Process O.World × Option ℤ)
      → ((returncode : ℤ) (reason : Reason) → is_some (again returncode reason).1 ≡ true)
      → is_some (on_attempt O a p again).1 ≡ true
  unfolding on_attempt
  on_attempt-some none p again h = refl
  on_attempt-some (some (returncode, none)) p again h = refl
  on_attempt-some (some (returncode, some reason)) p again h = h returncode reason

  on_prepared-some :
      (q : Process O.World × Option Bool) (returncode : ℤ) (r : Text)
      (respawn : Process O.World → Process O.World × Option ℤ)
      → is_some q.1 ≡ true
      → is_some (respawn q.0).1 ≡ true
      → is_some (on_prepared O q returncode r respawn).1 ≡ true
  unfolding on_prepared
  on_prepared-some (p, none) returncode r respawn e h = absurd (cc e)
  on_prepared-some (p, some false) returncode r respawn e h = refl
  on_prepared-some (p, some true) returncode r respawn e h = h

  on_respawn-some :
      (h : Option O.Handle) (r : Text) (p : Process O.World)
      (attempts : O.Handle → Process O.World × Option ℤ)
      → ((x : O.Handle) → is_some (attempts x).1 ≡ true)
      → is_some (on_respawn O h r p attempts).1 ≡ true
  unfolding on_respawn
  on_respawn-some none r p attempts more = refl
  on_respawn-some (some x) r p attempts more = more x

  on_slept-some :
      (r : Text) (slept : Process O.World × Option Bool)
      → is_some slept.1 ≡ true
      → is_some (on_slept O r slept).1 ≡ true
  unfolding on_slept wait_cooldown
  on_slept-some r (p, none) e = absurd (cc e)
  on_slept-some r (p, some true) e = refl
  on_slept-some r (p, some false) e = refl

  back_off-some :
      (C : Clock O) (reason : Reason) (attempt : ℕ) (r : Text) (p : Process O.World)
      → is_some (back_off O reason attempt r p).1 ≡ true
  unfolding back_off wait_cooldown
  back_off-some C rate_limit attempt r p =
      let b = rate_limit_backoff attempt in
      let j = O.uniform (b * 3 / 4) (b * 5 / 4) (cooldown_arm O true p.world) in
      let w = publish_message O r (backoff_notice j.1 attempt) j.0 in
      on_slept-some r (sleep_abortable O j.1 r (at_world O p w))
        (sleep_abortable-some O C j.1 r (at_world O p w))
  back_off-some C contention attempt r p = refl

  prepare-some :
      (C : Clock O) (reason : Reason) (attempt : ℕ) (r : Text) (p : Process O.World)
      → is_some (prepare O reason attempt r p).1 ≡ true
  unfolding prepare
  prepare-some C reason attempt r p =
      let a = is_aborted O true r p in
      elim (Bool-cases a.1) [
        | inl stopped ↦ rw stopped refl
        | inr running ↦ rw running (back_off-some C reason attempt r a.0)
      ]

  attempts_from-some :
      (C : Clock O) (left attempt : ℕ) (cr : Bool) (h : O.Handle) (r : Text) (p : Process O.World)
      → is_some (attempts_from O left attempt cr h r p).1 ≡ true
  unfolding attempts_from
  attempts_from-some C zero attempt cr h r p =
      let a = stream_cold_attempt O h r cr true p.world in
      on_attempt-some a.1 (at_world O p a.0)
        (λ returncode reason. (at_world O p a.0, some returncode)) (λ returncode reason. refl)
  attempts_from-some C (suc left) attempt cr h r p =
      let a = stream_cold_attempt O h r cr false p.world in
      let p1 = at_world O p a.0 in
      on_attempt-some a.1 p1 _ (λ returncode reason.
        let q = prepare O reason (suc attempt) r p1 in
        let s = O.run_container q.0.world in
        on_prepared-some q returncode r _ (prepare-some C reason (suc attempt) r p1) (
          on_respawn-some s.1 r (at_world O q.0 s.0) _
            (λ x. attempts_from-some C left (suc attempt) cr x r (at_world O q.0 s.0))))

  -- The attempts of a job end with an exit status, whatever the calls answer, with a clock that never
  -- goes back and a sleep that takes at least its time.
  pub run_cold_agent_with_retry-some :
      (C : Clock O) (cr : Bool) (h : O.Handle) (run_id : Text) (p : Process O.World)
      → is_some (run_cold_agent_with_retry O cr h run_id p).1 ≡ true
  unfolding run_cold_agent_with_retry
  run_cold_agent_with_retry-some C cr h run_id p =
      attempts_from-some C (max_attempts cr - 1) 1 cr h run_id p

  -- The exit status that a job answers behind one attempt.
  abbrev pub status_of : Option (ℤ × Option Reason) → ℤ
  status_of none = pos 1
  status_of (some (returncode, reason)) = returncode

  on_attempt-status :
      (a : Option (ℤ × Option Reason)) (p : Process O.World)
      (again : ℤ → Reason → Process O.World × Option ℤ)
      → ((returncode : ℤ) (reason : Reason) → again returncode reason ≡ (p, some returncode))
      → on_attempt O a p again ≡ (p, some (status_of a))
  unfolding on_attempt
  on_attempt-status none p again h = refl
  on_attempt-status (some (returncode, none)) p again h = refl
  on_attempt-status (some (returncode, some reason)) p again h = h returncode reason

  prepare-aborted :
      (reason : Reason) (attempt : ℕ) (r : Text) (p : Process O.World)
      → is_some (get_item r p.aborted) ≡ true
      → prepare O reason attempt r p ≡ (p, some false)
  unfolding prepare is_aborted
  prepare-aborted reason attempt r p here = rw here refl

  -- A job that its process has marked as aborted makes no attempt behind the one that is running: it
  -- leaves what that attempt leaves, and answers its exit status, or 1 where its log broke.
  pub run_cold_agent_with_retry-aborted :
      (cr : Bool) (h : O.Handle) (run_id : Text) (p : Process O.World)
      → is_some (get_item run_id p.aborted) ≡ true
      → run_cold_agent_with_retry O cr h run_id p ≡ (
          let a = stream_cold_attempt O h run_id cr (not cr) p.world in
          (at_world O p a.0, some (status_of a.1)))
  unfolding run_cold_agent_with_retry attempts_from on_prepared
  run_cold_agent_with_retry-aborted false h run_id p here =
      let a = stream_cold_attempt O h run_id false true p.world in
      on_attempt-status a.1 (at_world O p a.0)
        (λ returncode reason. (at_world O p a.0, some returncode)) (λ returncode reason. refl)
  run_cold_agent_with_retry-aborted true h run_id p here =
      let a = stream_cold_attempt O h run_id true false p.world in
      on_attempt-status a.1 (at_world O p a.0) _
        (λ returncode reason. rw (prepare-aborted reason 2 run_id (at_world O p a.0) here) refl)
