-- ===== src/Execute/Retry/Looks.antt =====
-- execute.py: what stands between the end of an attempt and the start of the next container
-- (`_run_cold_agent_with_retry`).
use aw_app_agents_platform_r.Prelude.{
  ℕ, zero, suc, ◌+◌, ◌-◌, ◌*◌, ◌/◌, min, leb, ◌≡◌, refl, ap, ◌∙◌, Bool, true, false, Option, none,
  some, if◌then◌else◌, ℤ, is_some, Bool-cases, inl, inr,
}
use aw_app_agents_platform_r.Prelude.Texts.{Text, codes, text_eq, text_eq_refl}
use aw_app_agents_platform_r.Execute.Outside.{Outside, cooldown_notice, backoff_notice, result}
use aw_app_agents_platform_r.Execute.Bounded.{get_item}
use aw_app_agents_platform_r.Execute.Publish.{publish_line, publish_message}
use aw_app_agents_platform_r.Execute.Registry.{
  Process, or_none, reply_value, abort_flag_key, read_mirror, is_aborted,
}
use aw_app_agents_platform_r.Execute.Stream.{Reason, rate_limit, contention, stream_cold_attempt}
use aw_app_agents_platform_r.Execute.Cooldown.{
  cooldown_key, at_world, CooldownLook, proceeds, stops, again, next_ttl, set_cooldown, on_previous,
  cooldown_arm, on_look, poll_cooldown, after_poll, wait_turns, wait_polls, cooldown_wait,
  sleep_until, sleep_abortable,
}
use aw_app_agents_platform_r.Execute.Retry.{
  max_attempts, contention_backoff, rate_limit_backoff, wait_cooldown, on_slept, back_off, prepare,
  spawn_error, on_respawn, on_prepared, on_attempt, attempts_from, run_cold_agent_with_retry,
}
use aw_app_agents_platform_r.Execute.Frame.{Frame, view-publish_message, view-stream_cold_attempt}
use aw_app_agents_platform_r.Execute.Frame.Waits.{view-prepare}

-- What the looks at the abort flag in Redis showed since the last container ended: there was none, or
-- the last one found no flag, or a flag.
pub data Seen : Type 0 where
  unseen clear flagged : Seen

abbrev pub after_look : Text → Text → Option (Option Text) → Option Seen → Option Seen
after_look r k answer none = none
after_look r k answer (some s) =
    if text_eq k (abort_flag_key r)
    then (if is_some (or_none (reply_value answer)) then some flagged else some clear)
    else some s

-- The end of a container, and the start of one: that is allowed behind a look that found no flag.
abbrev pub after_end : Option Seen → Option Seen
after_end none = none
after_end (some s) = some unseen

abbrev pub after_start : Option Seen → Option Seen
after_start (some clear) = some unseen
after_start _ = none

-- The same calls, followed by the monitor.
abbrev pub watched : Text → Outside → Outside
watched r O = record {
  World = O.World × Option Seen;
  Handle = O.Handle;
  json_dumps = O.json_dumps;
  json_loads = O.json_loads;
  rewrite_stream_line = λ t i w. let (v, a) = O.rewrite_stream_line t i w.0 in ((v, w.1), a);
  redis_get = λ k w. let (v, a) = O.redis_get k w.0 in ((v, after_look r k a w.1), a);
  redis_set = λ k t n w. let (v, a) = O.redis_set k t n w.0 in ((v, w.1), a);
  redis_delete = λ k w. let (v, a) = O.redis_delete k w.0 in ((v, w.1), a);
  redis_close = λ w. (O.redis_close w.0, w.1);
  xadd_line = λ k t w. let (v, a) = O.xadd_line k t w.0 in ((v, w.1), a);
  xadd_done = λ k c w. let (v, a) = O.xadd_done k c w.0 in ((v, w.1), a);
  expire = λ k n w. let (v, a) = O.expire k n w.0 in ((v, w.1), a);
  connect_engine = λ w. let (v, a) = O.connect_engine w.0 in ((v, w.1), a);
  get_container = λ n w. let (v, a) = O.get_container n w.0 in ((v, w.1), a);
  kill = λ h w. let (v, a) = O.kill h w.0 in ((v, w.1), a);
  remove = λ h w. let (v, a) = O.remove h w.0 in ((v, w.1), a);
  read_stderr = λ h w. let (v, a) = O.read_stderr h w.0 in ((v, w.1), a);
  logs = O.logs;
  wait = λ h w. let (v, a) = O.wait h w.0 in ((v, after_end w.1), a);
  run_container = λ w. let (v, a) = O.run_container w.0 in ((v, after_start w.1), a);
  monotonic = λ w. let (v, a) = O.monotonic w.0 in ((v, w.1), a);
  sleep = λ n w. (O.sleep n w.0, w.1);
  uniform = λ a b w. let (v, x) = O.uniform a b w.0 in ((v, w.1), x);
}

some-after_look :
    (r k : Text) (a : Option (Option Text)) (s : Option Seen)
    → is_some (after_look r k a s) ≡ is_some s
some-after_look r k a none = refl
some-after_look r k a (some s) = elim (Bool-cases (text_eq k (abort_flag_key r))) [
  | inl own ↦ elim (Bool-cases (is_some (or_none (reply_value a)))) [
    | inl set ↦ rw (own, set) refl
    | inr unset ↦ rw (own, unset) refl
  ]
  | inr other ↦ rw other refl
]

some-after_end : (s : Option Seen) → is_some (after_end s) ≡ is_some s
some-after_end none = refl
some-after_end (some s) = refl

look-clear :
    (r : Text) (a : Option (Option Text)) (s : Option Seen)
    → is_some s ≡ true
    → is_some (or_none (reply_value a)) ≡ false
    → after_look r (abort_flag_key r) a s ≡ some clear
look-clear r a none here unset = cc here
look-clear r a (some s) here unset = rw (text_eq_refl (abort_flag_key r), unset) refl

cooldown-ne-flag : (r : Text) → text_eq cooldown_key (abort_flag_key r) ≡ false
unfolding text_eq abort_flag_key
cooldown-ne-flag r = refl

other-look :
    (r : Text) (a : Option (Option Text)) (s : Seen) → after_look r cooldown_key a (some s) ≡ some s
other-look r a s = rw (cooldown-ne-flag r) refl

module _ (O : Outside) (r : Text) where
  abbrev W : Outside
  W = watched r O

  abbrev frame : Frame W
  frame = record {
    View = Bool;
    view = λ w. is_some w.1;
    rewrite = λ i t w. refl;
    get = λ k w. some-after_look r k (O.redis_get k w.0).1 w.1;
    set = λ k t n w. refl;
    delete = λ k w. refl;
    line = λ k t w. refl;
    expired = λ k n w. refl;
    removed = λ h w. refl;
    stderr = λ h w. refl;
    waited = λ h w. some-after_end w.1;
    clock = λ w. refl;
    slept = λ n w. refl;
    random = λ a b w. refl;
  }

  abbrev IsClear : Process W.World → Type 0
  IsClear p = p.world.1 ≡ some clear

  is_aborted-IsClear :
      (p : Process W.World)
      → is_some p.world.1 ≡ true
      → (is_aborted W true r p).1 ≡ false
      → IsClear (is_aborted W true r p).0
  unfolding is_aborted read_mirror
  is_aborted-IsClear p here quiet = elim (Bool-cases (is_some (get_item r p.aborted))) [
    | inl marked ↦ cc (rw marked at quiet)
    | inr unmarked ↦ rw unmarked (
        look-clear r (O.redis_get (abort_flag_key r) p.world.0).1 p.world.1 here
          (rw unmarked at quiet))
  ]

  clear-some : (p : Process W.World) → IsClear p → is_some p.world.1 ≡ true
  clear-some p c = ap is_some c

  sleep_until-IsClear :
      (fuel end : ℕ) (p : Process W.World)
      → IsClear p
      → (sleep_until W fuel end r p).1 ≡ some false
      → IsClear (sleep_until W fuel end r p).0
  unfolding sleep_until
  sleep_until-IsClear zero end p c e = cc e
  sleep_until-IsClear (suc fuel) end p c e =
      let now = W.monotonic p.world in
      let a = is_aborted W true r (at_world W p now.0) in
      elim (Bool-cases (leb end now.1)) [
        | inl over ↦ rw over c
        | inr early ↦ elim (Bool-cases a.1) [
          | inl stopped ↦ cc (rw (early, stopped) at e)
          | inr running ↦
              rw (early, running)
                (sleep_until-IsClear fuel end
                  (at_world W a.0 (W.sleep (min 1000 (end - now.1)) a.0.world))
                  (is_aborted-IsClear (at_world W p now.0) (clear-some p c) running)
                  (rw (early, running) at e))
        ]
      ]

  abbrev LookClear : Process W.World × CooldownLook → Type 0
  LookClear (p, proceeds cleared) = IsClear p
  LookClear (p, stops) = Unit
  LookClear (p, again) = IsClear p

  on_look-LookClear :
      (look : Option (Option Text)) (notified : Bool) (p : Process W.World)
      → IsClear p
      → LookClear (on_look W look notified r p)
  unfolding on_look publish_message publish_line
  on_look-LookClear none notified p c = c
  on_look-LookClear (some armed) notified p c = elim (Bool-cases (is_some (or_none armed))) [
    | inl on ↦
        let told =
          at_world W p
            (if notified then p.world else publish_message W r cooldown_notice p.world) in
        let a = is_aborted W true r told in
        elim (Bool-cases a.1) [
          | inl stopped ↦ rw (on, stopped) tt
          | inr running ↦ rw (on, running) (is_aborted-IsClear told (silent notified) running)
        ]
    | inr off ↦ rw off c
  ]
    where
      silent :
          (b : Bool)
          → is_some (if b then p.world else publish_message W r cooldown_notice p.world).1 ≡ true
      silent true = clear-some p c
      silent false = clear-some p c

  poll_cooldown-LookClear :
      (notified : Bool) (p : Process W.World) → IsClear p → LookClear (poll_cooldown W notified r p)
  unfolding poll_cooldown
  poll_cooldown-LookClear notified p c =
      let a = W.redis_get cooldown_key p.world in
      on_look-LookClear a.1 notified (at_world W p a.0)
        (ap (after_look r cooldown_key a.1) c ∙ other-look r a.1 clear)

  after_poll-IsClear :
      (turn : Process W.World × CooldownLook) (later : Process W.World × Bool × Bool)
      → LookClear turn
      → (IsClear turn.0 → later.1 ≡ true → IsClear later.0)
      → (after_poll W turn later).1 ≡ true
      → IsClear (after_poll W turn later).0
  unfolding after_poll
  after_poll-IsClear (p, proceeds cleared) later c more e = c
  after_poll-IsClear (p, stops) later c more e = cc e
  after_poll-IsClear (p, again) later c more e = more c e

  wait_turns-IsClear :
      (left : ℕ) (notified : Bool) (p : Process W.World)
      → IsClear p
      → (wait_turns W left notified r p).1 ≡ true
      → IsClear (wait_turns W left notified r p).0
  unfolding wait_turns
  wait_turns-IsClear zero notified p c =
      after_poll-IsClear (poll_cooldown W notified r p) _ (poll_cooldown-LookClear notified p c)
        (λ d e. d)
  wait_turns-IsClear (suc left) notified p c =
      let turn = poll_cooldown W notified r p in
      after_poll-IsClear turn _ (poll_cooldown-LookClear notified p c)
        (λ d. wait_turns-IsClear left true (at_world W turn.0 (W.sleep 1000 turn.0.world)) d)

  abbrev Ready : Process W.World × Option Bool → Type 0
  Ready q = q.1 ≡ some true → IsClear q.0

  wait_cooldown-Ready : (p : Process W.World) → IsClear p → Ready (wait_cooldown W r p)
  unfolding wait_cooldown cooldown_wait
  wait_cooldown-Ready p c e =
      let t = wait_turns W wait_polls false r p in
      let goes : t.1 ≡ true = cc e in
      let there = wait_turns-IsClear wait_polls false p c goes in
      elim (Bool-cases t.2) [ inl cleared ↦ rw cleared there | inr late ↦ rw late there ]

  on_slept-Ready :
      (s : Process W.World × Option Bool)
      → (s.1 ≡ some false → IsClear s.0)
      → Ready (on_slept W r s)
  unfolding on_slept
  on_slept-Ready (p, none) c e = cc e
  on_slept-Ready (p, some true) c e = cc e
  on_slept-Ready (p, some false) c e = wait_cooldown-Ready p (c refl) e

  set_cooldown-same : (o : Option ℕ) (w : W.World) → (set_cooldown W o w).1 ≡ w.1
  unfolding set_cooldown
  set_cooldown-same none w = refl
  set_cooldown-same (some ttl) w = refl

  on_previous-same : (a : Option (Option Text)) (w : W.World) → (on_previous W a w).1 ≡ w.1
  unfolding on_previous
  on_previous-same none w = refl
  on_previous-same (some prev) w = set_cooldown-same (next_ttl (or_none prev)) w

  back_off-Ready :
      (reason : Reason) (attempt : ℕ) (p : Process W.World)
      → IsClear p
      → Ready (back_off W reason attempt r p)
  unfolding back_off cooldown_arm publish_message publish_line sleep_abortable
  back_off-Ready rate_limit attempt p c =
      let b = rate_limit_backoff attempt in
      let a = W.redis_get cooldown_key p.world in
      let armed : (cooldown_arm W true p.world).1 ≡ some clear =
        on_previous-same a.1 a.0 ∙ ap (after_look r cooldown_key a.1) c ∙ other-look r a.1 clear in
      let j = W.uniform (b * 3 / 4) (b * 5 / 4) (cooldown_arm W true p.world) in
      let told = at_world W p (publish_message W r (backoff_notice j.1 attempt) j.0) in
      let now = W.monotonic told.world in
      on_slept-Ready (sleep_abortable W j.1 r told)
        (sleep_until-IsClear (j.1 / 1000 + 2) (now.1 + j.1) (at_world W told now.0) armed)
  back_off-Ready contention attempt p c =
      wait_cooldown-Ready (at_world W p (W.sleep (contention_backoff attempt) p.world)) c

  prepare-Ready :
      (reason : Reason) (attempt : ℕ) (p : Process W.World)
      → is_some p.world.1 ≡ true
      → Ready (prepare W reason attempt r p)
  unfolding prepare
  prepare-Ready reason attempt p here e =
      let a = is_aborted W true r p in
      elim (Bool-cases a.1) [
        | inl stopped ↦ cc (rw stopped at e)
        | inr running ↦ rw running (
            back_off-Ready reason attempt a.0 (is_aborted-IsClear p here running) (rw running at e))
      ]

  abbrev Holds : Process W.World → Type 0
  Holds p = is_some p.world.1 ≡ true

  on_attempt-Holds :
      (a : Option (ℤ × Option Reason)) (p : Process W.World)
      (next : ℤ → Reason → Process W.World × Option ℤ)
      → Holds p
      → ((returncode : ℤ) (reason : Reason) → Holds (next returncode reason).0)
      → Holds (on_attempt W a p next).0
  unfolding on_attempt
  on_attempt-Holds none p next here more = here
  on_attempt-Holds (some (returncode, none)) p next here more = here
  on_attempt-Holds (some (returncode, some reason)) p next here more = more returncode reason

  on_prepared-Holds :
      (q : Process W.World × Option Bool) (returncode : ℤ)
      (respawn : Process W.World → Process W.World × Option ℤ)
      → Holds q.0
      → (q.1 ≡ some true → Holds (respawn q.0).0)
      → Holds (on_prepared W q returncode r respawn).0
  unfolding on_prepared
  on_prepared-Holds (p, none) returncode respawn here more = here
  on_prepared-Holds (p, some false) returncode respawn here more = here
  on_prepared-Holds (p, some true) returncode respawn here more = more refl

  on_respawn-Holds :
      (h : Option O.Handle) (p : Process W.World) (attempts : O.Handle → Process W.World × Option ℤ)
      → Holds p
      → ((x : O.Handle) → Holds (attempts x).0)
      → Holds (on_respawn W h r p attempts).0
  unfolding on_respawn spawn_error
  on_respawn-Holds none p attempts here more =
      view-publish_message W frame r
        (result (codes "spawn_error") (codes "runner failed to respawn container on retry: "))
        p.world
      ∙ here
  on_respawn-Holds (some x) p attempts here more = more x

  attempts_from-Holds :
      (left attempt : ℕ) (cr : Bool) (h : O.Handle) (p : Process W.World)
      → Holds p
      → Holds (attempts_from W left attempt cr h r p).0
  unfolding attempts_from
  attempts_from-Holds zero attempt cr h p here =
      let a = stream_cold_attempt W h r cr true p.world in
      let ended = view-stream_cold_attempt W frame h r cr true p.world ∙ here in
      on_attempt-Holds a.1 (at_world W p a.0)
        (λ returncode reason. (at_world W p a.0, some returncode)) ended
        (λ returncode reason. ended)
  attempts_from-Holds (suc left) attempt cr h p here =
      let a = stream_cold_attempt W h r cr false p.world in
      let ended = view-stream_cold_attempt W frame h r cr false p.world ∙ here in
      let p1 = at_world W p a.0 in
      on_attempt-Holds a.1 p1 _ ended (λ returncode reason.
        let q = prepare W reason (suc attempt) r p1 in
        let s = W.run_container q.0.world in
        on_prepared-Holds q returncode _ (view-prepare W frame reason (suc attempt) r p1 ∙ ended)
          (λ goes.
            let clear_now : q.0.world.1 ≡ some clear =
              prepare-Ready reason (suc attempt) p1 ended goes in
            let started : Holds (at_world W q.0 s.0) =
              ap (λ x. is_some (after_start x)) clear_now in
            on_respawn-Holds s.1 (at_world W q.0 s.0) _ started
              (λ x. attempts_from-Holds left (suc attempt) cr x (at_world W q.0 s.0) started)))

  -- Whatever the calls answer, each container that the attempts of a job start stands behind a look at
  -- the job's abort flag in Redis, made after the container before it had ended, and the last such look
  -- found no flag; where it finds one, none is started.
  pub run_cold_agent_with_retry-looks :
      (cr : Bool) (h : O.Handle) (p : Process O.World)
      → let e =
          run_cold_agent_with_retry W cr h r
            (record { names = p.names; aborted = p.aborted; world = (p.world, some unseen) }) in
        (s : Seen) × (e.0.world.1 ≡ some s)
  unfolding run_cold_agent_with_retry
  run_cold_agent_with_retry-looks cr h p = seen _ (
      attempts_from-Holds (max_attempts cr - 1) 1 cr h
        (record { names = p.names; aborted = p.aborted; world = (p.world, some unseen) }) refl)
    where
      seen : (o : Option Seen) → is_some o ≡ true → (s : Seen) × (o ≡ some s)
      seen none e = cc e
      seen (some s) e = (s, refl)
