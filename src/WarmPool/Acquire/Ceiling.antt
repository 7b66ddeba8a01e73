-- ===== src/WarmPool/Acquire/Ceiling.antt =====
-- The ceiling of `get_or_create` (warm_pool.py `_check_ceiling`, WarmPoolFull) and the pool's size.
use aw_app_agents_platform_r.Prelude.{
  ℕ, ◌+◌, ◌≤◌, ◌≡◌, refl, ap, Bool, true, false, Option, none, some, arith, leb, if◌then◌else◌,
  Bool-cases, Option-cases, inl, inr, is_some,
}
use Prim.Native.Nat.{max}
use aw_app_agents_platform_r.Prelude.Texts.{Text}
use aw_app_agents_platform_r.WarmPool.Names.{warm_container_name}
use aw_app_agents_platform_r.WarmPool.Engine.{Labels, RunArgs, Engine, Lawful, is_live}
use aw_app_agents_platform_r.WarmPool.Acquire.{
  Recycle, Triage, reuse, stale, absent, BuildKwargs, container_labels, triage, retire,
  check_ceiling, settle, launch, spawn_unless, spawn, finish, get_or_create,
}
use aw_app_agents_platform_r.WarmPool.Acquire.Effects.{
  live, pool, count_if-select, view-container_labels, pool-triage, pool-retire, view-wait_ready,
}

-- Every listing of the running containers answers.
abbrev pub Answers : Engine → Type 0
Answers E = (w : E.World) → is_some (E.list false w).1 ≡ true

module _ (E : Engine) (L : Lawful E) where
  pub view-check_ceiling : (k : ℕ) (w : E.World) → L.view (check_ceiling E k w).0 ≡ L.view w
  unfolding check_ceiling
  view-check_ceiling k w = L.view-list false w

  -- Where the listing answers, the check stops the spawn exactly when the live containers number
  -- at least the ceiling, and reports their number.
  pub check_ceiling_lem :
      (k : ℕ) (w : E.World)
      → is_some (E.list false w).1 ≡ true
      → (check_ceiling E k w).1 ≡ (if leb k (pool E L w) then some (pool E L w) else none)
  unfolding check_ceiling
  check_ceiling_lem k w h = elim (Option-cases (E.list false w).1) [
    | inl e ↦ cc (ap is_some e)
    | inr (cs, e) ↦ rw (e, check_ceiling) (rw (L.list_running w cs e, count_if-select) refl)
  ]

  pool-settle : (name : Text) (b : Bool) (w : E.World) → pool E L (settle E name b w).0 ≡ pool E L w
  unfolding settle
  pool-settle name false w = refl
  pool-settle name true w = ap live (view-wait_ready E L name w)

  pool-launch :
      (name : Text) (t : Option (Text × Labels)) (w : E.World)
      → pool E L (launch E name t w).0 ≤ pool E L w + 1
  unfolding launch
  pool-launch name none w = omega arith
  pool-launch name (some (image, labels)) w = elim (Bool-cases (E.run args w).1) [
    | inl ok ↦
        let (i, created, e) = L.run_started args w ok in
        rw pool-settle (rw e (unfold is_live in ground arith))
    | inr failed ↦ rw pool-settle (rw (L.run_failed args w failed) (omega arith))
  ]
    where
      args : RunArgs
      args = record {
        image = image;
        run_labels = labels;
        run_name = name;
        detach = true;
        auto_remove = false;
      }

  pool-spawn_unless :
      (k : ℕ) (name epoch : Text) (b : BuildKwargs) (w : E.World)
      → pool E L
          (spawn_unless E k name epoch b
            (if leb k (pool E L w) then some (pool E L w) else none)
            w).0
        ≤ max k (pool E L w)
  unfolding spawn_unless
  pool-spawn_unless k name epoch b w = elim (Bool-cases (leb k (pool E L w))) [
    | inl full ↦ rw full (omega arith)
    | inr room ↦ rw room (ground (arith, pool-launch name (b name epoch) w))
  ]

  pool-spawn :
      (k : ℕ) (name epoch : Text) (b : BuildKwargs) (w : E.World)
      → is_some (E.list false w).1 ≡ true
      → pool E L (spawn E k name epoch b w).0 ≤ max k (pool E L w)
  unfolding spawn
  pool-spawn k name epoch b w h =
      let same = view-check_ceiling k w in
      rw (check_ceiling_lem k w h, ← ap live same)
        (pool-spawn_unless k name epoch b (check_ceiling E k w).0)

  pool-finish :
      (k : ℕ) (name epoch : Text) (b : BuildKwargs) (t : Triage) (w : E.World)
      → Answers E
      → pool E L (finish E k name epoch b t w).0 ≤ max k (pool E L w)
  unfolding finish
  pool-finish k name epoch b reuse w h = omega arith
  pool-finish k name epoch b absent w h = pool-spawn k name epoch b w (h w)
  pool-finish k name epoch b stale w h = omega (
    arith,
    pool-spawn k name epoch b (retire E name w).0 (h (retire E name w).0),
    pool-retire E L name w,
  )

  -- While the engine answers every listing, no call of `get_or_create` takes the number of live
  -- containers past the larger of the ceiling and what it was before the call.
  pub get_or_create-le-ceiling :
      (k : ℕ) (agent session epoch : Text) (b : BuildKwargs) (r : Option Recycle) (w : E.World)
      → Answers E
      → pool E L (get_or_create E k agent session epoch b r w).0 ≤ max k (pool E L w)
  unfolding get_or_create
  get_or_create-le-ceiling k agent session epoch b r w h =
      let name = warm_container_name agent session in
      let (w1, found) = container_labels E name w in
      let (w2, fate) = triage E name epoch r found w1 in
      omega (
        arith,
        pool-finish k name epoch b fate w2 h,
        pool-triage E L name epoch r found w1,
        ap live (view-container_labels E L name w),
      )
