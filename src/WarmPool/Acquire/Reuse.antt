-- ===== src/WarmPool/Acquire/Reuse.antt =====
-- When `get_or_create` (warm_pool.py) hands out a container that was there.
use aw_app_agents_platform_r.Prelude.{
  ℕ, ◌≡◌, ◌≢◌, refl, ap, ◌∙◌, Bool, true, false, Option, none, some, if◌then◌else◌, Option-cases,
  ◌⊎◌, inl, inr, ◌≤◌, ◌*◌, ℤ, pos, negsuc, arith,
}
use mathlib.Core.Option
use aw_app_agents_platform_r.Prelude.Texts.{Text, text_eq→eq}
use aw_app_agents_platform_r.WarmPool.Names.{warm_container_name}
use aw_app_agents_platform_r.WarmPool.Engine.{Labels, Container, Engine, Lawful, find_name}
use aw_app_agents_platform_r.WarmPool.Acquire.{
  Recycle, drain, force, Triage, reuse, stale, absent, reused, BuildKwargs, opt_eq, warm_ttl_s,
  created_age, within_ttl, container_labels, container_age, is_running_now, status_running, triage,
  check_running, check_age, reports_running, age_of, labels_of, retire, settle, launch,
  spawn_unless, spawn, finish, get_or_create,
}
use aw_app_agents_platform_r.WarmPool.Acquire.Effects.{
  view-container_labels, view-is_running_now, view-check_running,
}

reports_running-true :
    (o : Option Container)
    → reports_running o ≡ true
    → (c : Container) × (o ≡ some c) × (c.is_running ≡ true)
reports_running-true none h = cc
reports_running-true (some c) h = (c, refl, h)

keep-true : (b : Bool) → (if b then reuse else stale) ≡ reuse → b ≡ true
keep-true true h = refl
keep-true false h = cc

opt_eq→eq : (o : Option Text) (t : Text) → opt_eq o t ≡ true → o ≡ some t
opt_eq→eq none t h = cc
opt_eq→eq (some s) t h = ap some (text_eq→eq s t h)

-- An age, in microseconds, is at most the TTL; one that cannot be told passes.
abbrev pub IsYoung : Option ℤ → Type 0
IsYoung none = Unit
IsYoung (some (pos age)) = age ≤ 1800 * 1000000
IsYoung (some (negsuc n)) = Unit

within_ttl-IsYoung : (age : Option ℤ) → within_ttl warm_ttl_s age ≡ true → IsYoung age
unfolding within_ttl
within_ttl-IsYoung none h = tt
within_ttl-IsYoung (some (pos age)) h = ground (arith, h)
within_ttl-IsYoung (some (negsuc n)) h = tt

-- By the clock that is read in the world `w` the container is at most 1800 seconds old, or its creation
-- time cannot be read, or the engine does not tell its age right after that reading.
abbrev pub Current : (E : Engine) → Text → Container → E.World → Type 0
Current E name c w =
    IsYoung (created_age c.created (E.time w).1) ⊎ ((E.get name (E.time w).0).1 ≡ none)

-- The world in which `get_or_create` reads the clock: after the lookups of the labels and the status.
abbrev pub when_aged : (E : Engine) → Text → E.World → E.World
when_aged E name w = (is_running_now E name (container_labels E name w).0).0

module _ (E : Engine) where
  not-reused-settle : (name n : Text) (b : Bool) (w : E.World) → (settle E name b w).1 ≢ reused n
  unfolding settle
  not-reused-settle name n false w e = cc
  not-reused-settle name n true w e = cc

  not-reused-launch :
      (name n : Text) (t : Option (Text × Labels)) (w : E.World) → (launch E name t w).1 ≢ reused n
  unfolding launch
  not-reused-launch name n none w e = cc
  not-reused-launch name n (some (image, labels)) w e = not-reused-settle name n _ _ e

  not-reused-spawn_unless :
      (k : ℕ) (name epoch n : Text) (b : BuildKwargs) (o : Option ℕ) (w : E.World)
      → (spawn_unless E k name epoch b o w).1 ≢ reused n
  unfolding spawn_unless
  not-reused-spawn_unless k name epoch n b none w e = not-reused-launch name n (b name epoch) w e
  not-reused-spawn_unless k name epoch n b (some m) w e = cc

  not-reused-spawn :
      (k : ℕ) (name epoch n : Text) (b : BuildKwargs) (w : E.World)
      → (spawn E k name epoch b w).1 ≢ reused n
  unfolding spawn
  not-reused-spawn k name epoch n b w e = not-reused-spawn_unless k name epoch n b _ _ e

  finish-reused :
      (k : ℕ) (name epoch n : Text) (b : BuildKwargs) (t : Triage) (w : E.World)
      → (finish E k name epoch b t w).1 ≡ reused n
      → (t ≡ reuse) × ((finish E k name epoch b t w).0 ≡ w)
  unfolding finish
  finish-reused k name epoch n b reuse w e = (refl, refl)
  finish-reused k name epoch n b stale w e =
      absurd (not-reused-spawn k name epoch n b (retire E name w).0 e)
  finish-reused k name epoch n b absent w e = absurd (not-reused-spawn k name epoch n b w e)

  module _ (L : Lawful E) where
    status_running-found :
        (name : Text) (o : Option Container) (w : E.World)
        → ((c : Container) → o ≡ some c → find_name name (L.view w) ≡ some c)
        → (status_running E o w).1 ≡ true
        → (c : Container) × (o ≡ some c) × (c.is_running ≡ true)
    unfolding status_running
    status_running-found name none w k h = cc
    status_running-found name (some c) w k h =
        let (again, e, up) = reports_running-true (E.reload c.id w).1 h in
        (
          c,
          refl,
          cc (
            up,
            ap (λ (x : Container). x.is_running) (L.reload_found name w c again (k c refl) e),
          ),
        )

    is_running_now-found :
        (name : Text) (w : E.World)
        → (is_running_now E name w).1 ≡ true
        → (c : Container) × (find_name name (L.view w) ≡ some c) × (c.is_running ≡ true)
    unfolding is_running_now
    is_running_now-found name w h =
        let (c, e, up) =
          status_running-found name (E.get name w).1 (E.get name w).0
            (λ c e. rw L.view-get (L.get_found name w c e)) h in
        (c, L.get_found name w c e, up)

    container_age-current :
        (name : Text) (now : ℕ) (c : Container) (w : E.World)
        → find_name name (L.view w) ≡ some c
        → within_ttl warm_ttl_s (container_age E name now w).1 ≡ true
        → (within_ttl warm_ttl_s (created_age c.created now) ≡ true) ⊎ ((E.get name w).1 ≡ none)
    unfolding container_age
    container_age-current name now c w found h = elim (Option-cases (E.get name w).1) [
      | inl e ↦ inr e
      | inr (d, e) ↦
          let same : d ≡ c = cc (L.get_found name w d e, found) in
          inl (cc (h, ap (λ o. within_ttl warm_ttl_s (age_of o now)) (e ∙ ap some same)))
    ]

    check_age-reuse :
        (name : Text) (up : Bool) (c : Container) (w : E.World)
        → find_name name (L.view w) ≡ some c
        → (check_age E name up w).1 ≡ reuse
        → (up ≡ true) × Current E name c w
    unfolding check_age
    check_age-reuse name false c w found h = cc
    check_age-reuse name true c w found h =
        let (w1, now) = E.time w in
        let fits : within_ttl warm_ttl_s (container_age E name now w1).1 ≡ true = keep-true _ h in
        elim (container_age-current name now c w1 (rw L.view-time found) fits) [
          | inl young ↦ (refl, inl (within_ttl-IsYoung _ young))
          | inr unknown ↦ (refl, inr unknown)
        ]

    check_running-reuse :
        (name : Text) (same : Bool) (w : E.World)
        → (check_running E name same w).1 ≡ reuse
        → (same ≡ true)
          × ((c : Container) × (find_name name (L.view w) ≡ some c)
              × (c.is_running ≡ true)
              × Current E name c (is_running_now E name w).0)
    unfolding check_running
    check_running-reuse name false w h = cc
    check_running-reuse name true w h =
        let (w1, up) = is_running_now E name w in
        let up_true : up ≡ true = was_up up w1 h in
        let (c, found, c_up) = is_running_now-found name w up_true in
        (refl, (c, found, c_up, (check_age-reuse name up c w1 (rw view-is_running_now found) h).1))
      where
        was_up : (up : Bool) (w1 : E.World) → (check_age E name up w1).1 ≡ reuse → up ≡ true
        was_up true w1 e = refl
        was_up false w1 e = unfold check_age in cc

    triage-reuse :
        (name epoch : Text) (r : Option Recycle) (l : Option Labels) (w : E.World)
        → (triage E name epoch r l w).1 ≡ reuse
        → (r ≡ none)
          × (L.view (triage E name epoch r l w).0 ≡ L.view w)
          × ((lab : Labels) × (l ≡ some lab) × (lab.epoch ≡ some epoch))
          × ((c : Container) × (find_name name (L.view w) ≡ some c)
              × (c.is_running ≡ true)
              × Current E name c (is_running_now E name w).0)
    unfolding triage
    triage-reuse name epoch r none w h = cc
    triage-reuse name epoch none (some lab) w h =
        let (same, rest) = check_running-reuse name (opt_eq lab.epoch epoch) w h in
        (
          refl,
          view-check_running E L name (opt_eq lab.epoch epoch) w,
          (lab, refl, opt_eq→eq lab.epoch epoch same),
          rest,
        )
    triage-reuse name epoch (some drain) (some lab) w h = cc
    triage-reuse name epoch (some force) (some lab) w h = absurd (forced _ h)
      where
        forced : (b : Bool) → (if b then absent else stale) ≢ reuse
        forced true e = cc
        forced false e = cc

    container_labels-epoch :
        (name epoch : Text) (lab : Labels) (c : Container) (w : E.World)
        → (container_labels E name w).1 ≡ some lab
        → lab.epoch ≡ some epoch
        → find_name name (L.view w) ≡ some c
        → c.labels.epoch ≡ some epoch
    unfolding container_labels
    container_labels-epoch name epoch lab c w h e found = elim (Option-cases (E.get name w).1) [
      | inl gone ↦ cc (h, ap labels_of gone)
      | inr (d, got) ↦
          let same : d ≡ c = cc (L.get_found name w d got, found) in
          let labels : some c.labels ≡ some lab = cc (h, ap labels_of (got ∙ ap some same)) in
          cc (ap (λ (o : Option Labels). Option.map (λ (x : Labels). x.epoch) o) labels, e)
    ]

    -- `get_or_create` uses a container again only if recycling was not asked for and the engine has a
    -- running container with the session's stable name, labelled with the wanted epoch; that is at
    -- most 1800 seconds old by the clock then, or has no creation time that can be read, or, asked
    -- right after, gives no answer; and it changes nothing.
    pub get_or_create-reused :
        (k : ℕ) (agent session epoch n : Text) (b : BuildKwargs) (r : Option Recycle) (w : E.World)
        → (get_or_create E k agent session epoch b r w).1 ≡ reused n
        → (r ≡ none)
          × (L.view (get_or_create E k agent session epoch b r w).0 ≡ L.view w)
          × ((c : Container) × (find_name (warm_container_name agent session) (L.view w) ≡ some c)
              × (c.is_running ≡ true)
              × (c.labels.epoch ≡ some epoch)
              × Current E
                  (warm_container_name agent session)
                  c
                  (when_aged E (warm_container_name agent session) w))
    unfolding get_or_create
    get_or_create-reused k agent session epoch n b r w h =
        let name = warm_container_name agent session in
        let (w1, found) = container_labels E name w in
        let (w2, fate) = triage E name epoch r found w1 in
        let (reusing, same_world) = finish-reused k name epoch n b fate w2 h in
        let (fresh, same_view, (lab, got, e), (c, at, up, current)) =
          triage-reuse name epoch r found w1 reusing in
        let here = view-container_labels E L name w in
        let at_start : find_name name (L.view w) ≡ some c = rw (← here) at in
        (
          fresh,
          ap L.view same_world ∙ same_view ∙ here,
          (c, at_start, up, container_labels-epoch name epoch lab c w got e at_start, current),
        )
