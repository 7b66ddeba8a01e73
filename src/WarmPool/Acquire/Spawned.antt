-- ===== src/WarmPool/Acquire/Spawned.antt =====
-- What a spawn of `get_or_create` (warm_pool.py) leaves, and what a refusal by the ceiling means.
use aw_app_agents_platform_r.Prelude.{
  ℕ, ◌≤◌, ◌≡◌, refl, ap, sym, Bool, true, false, Option, none, some, arith, leb, if◌then◌else◌,
  Bool-cases, inl, inr, is_some,
}
use aw_app_agents_platform_r.Prelude.Texts.{Text, text_eq_refl}
use aw_app_agents_platform_r.WarmPool.Names.{warm_container_name}
use aw_app_agents_platform_r.WarmPool.Engine.{Labels, Container, RunArgs, Engine, Lawful, find_name}
use aw_app_agents_platform_r.WarmPool.Acquire.{
  Recycle, Triage, reuse, stale, absent, Acquired, reused, spawned, pool_full, spawn_failed,
  BuildKwargs, container_labels, triage, retire, check_ceiling, settle, launch, spawn_unless, spawn,
  finish, get_or_create,
}
use aw_app_agents_platform_r.WarmPool.Acquire.Effects.{live, pool, view-wait_ready}
use aw_app_agents_platform_r.WarmPool.Acquire.Ceiling.{
  Answers, check_ceiling_lem, view-check_ceiling,
}

-- What a returned name of a new container and a raised WarmPoolFull say of the engine's containers
-- afterwards.
abbrev pub Kept :
    (E : Engine) → Lawful E → ℕ → Text → Option (Text × Labels) → E.World → Acquired → Type 0
Kept E L k name built w (reused n) = n ≡ name
Kept E L k name built w (spawned n) =
    (n ≡ name)
    × ((image : Text) × (c : Container) × (built ≡ some (image, c.labels))
        × (find_name name (L.view w) ≡ some c)
        × (c.is_running ≡ true))
Kept E L k name built w (pool_full m j) = (j ≡ k) × (k ≤ m) × (pool E L w ≡ m)
Kept E L k name built w spawn_failed = Unit

module _ (E : Engine) (L : Lawful E) where
  Kept-settle :
      (k : ℕ) (name image : Text) (labels : Labels) (c : Container) (b : Bool) (w : E.World)
      → (b ≡ true → find_name name (L.view w) ≡ some c)
      → c.labels ≡ labels
      → c.is_running ≡ true
      → let r = settle E name b w in Kept E L k name (some (image, labels)) r.0 r.1
  unfolding settle
  Kept-settle k name image labels c false w found e up = tt
  Kept-settle k name image labels c true w found e up =
      (refl, (image, c, ap (λ l. some (image, l)) (sym e), rw view-wait_ready (found refl), up))

  Kept-launch :
      (k : ℕ) (name : Text) (built : Option (Text × Labels)) (w : E.World)
      → let r = launch E name built w in Kept E L k name built r.0 r.1
  unfolding launch
  Kept-launch k name none w = tt
  Kept-launch k name (some (image, labels)) w = elim (Bool-cases (E.run args w).1) [
    | inl ok ↦
        let (i, created, e) = L.run_started args w ok in
        Kept-settle k name image labels
          (record { id = i; name = name; is_running = true; labels = labels; created = created }) _
          _ (λ _. rw e (unfold find_name in rw text_eq_refl)) refl refl
    | inr failed ↦ rw failed (unfold settle in tt)
  ]
    where
      args : RunArgs
      args = record {
        image = image;
        run_labels = labels;
        run_name = name;
        detach = true;
        auto_remove = false;
      }

  Kept-spawn_unless :
      (k : ℕ) (name epoch : Text) (b : BuildKwargs) (w : E.World)
      → let r =
          spawn_unless E k name epoch b
            (if leb k (pool E L w) then some (pool E L w) else none)
            w in
        Kept E L k name (b name epoch) r.0 r.1
  unfolding spawn_unless
  Kept-spawn_unless k name epoch b w = elim (Bool-cases (leb k (pool E L w))) [
    | inl full ↦ rw full (refl, ground arith, refl)
    | inr room ↦ rw room (Kept-launch k name (b name epoch) w)
  ]

  Kept-spawn :
      (k : ℕ) (name epoch : Text) (b : BuildKwargs) (w : E.World)
      → is_some (E.list false w).1 ≡ true
      → let r = spawn E k name epoch b w in Kept E L k name (b name epoch) r.0 r.1
  unfolding spawn
  Kept-spawn k name epoch b w h =
      rw (check_ceiling_lem E L k w h, ← ap live (view-check_ceiling E L k w))
        (Kept-spawn_unless k name epoch b (check_ceiling E k w).0)

  Kept-finish :
      (k : ℕ) (name epoch : Text) (b : BuildKwargs) (t : Triage) (w : E.World)
      → Answers E
      → let r = finish E k name epoch b t w in Kept E L k name (b name epoch) r.0 r.1
  unfolding finish
  Kept-finish k name epoch b reuse w h = refl
  Kept-finish k name epoch b absent w h = Kept-spawn k name epoch b w (h w)
  Kept-finish k name epoch b stale w h =
      Kept-spawn k name epoch b (retire E name w).0 (h (retire E name w).0)

  -- While the engine answers every listing: a name that `get_or_create` returns is the session's
  -- stable name; after a spawn the engine has a running container of that name with the labels that
  -- `build_kwargs` gave for the wanted epoch; and WarmPoolFull reports the ceiling and the number of
  -- live containers that the engine then has, which is at least the ceiling.
  pub get_or_create-Kept :
      (k : ℕ) (agent session epoch : Text) (b : BuildKwargs) (r : Option Recycle) (w : E.World)
      → Answers E
      → let done = get_or_create E k agent session epoch b r w in
        let name = warm_container_name agent session in Kept E L k name (b name epoch) done.0 done.1
  unfolding get_or_create
  get_or_create-Kept k agent session epoch b r w h =
      let name = warm_container_name agent session in
      let (w1, found) = container_labels E name w in
      let (w2, fate) = triage E name epoch r found w1 in Kept-finish k name epoch b fate w2 h
