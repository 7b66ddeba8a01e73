-- ===== src/WarmPool/Reap.antt =====
-- warm_pool.py: `reap` and `_condemn_over_ttl`. The session's lock, which
-- `_condemn_over_ttl` takes, is not modelled: no other call comes in between.
mod Lookup
mod Sweep
mod Tests
pub mod Fate
pub mod Clock
pub mod Outcome
use aw_app_agents_platform_r.Prelude.{
  ℕ, zero, suc, ◌+◌, ◌*◌, ◌/◌, Bool, true, false, ◌&&◌, not, Option, none, some, List, [], ◌∷◌, ltb,
  if◌then◌else◌, ℤ, pos, negsuc, exceeds,
}
use aw_app_agents_platform_r.Prelude.Texts.{Text}
use aw_app_agents_platform_r.Prelude.State.{Action, ◌>>=◌, ◌>>◌, pure}
use aw_app_agents_platform_r.WarmPool.Names.{draining_name, is_draining, drain_started}
use aw_app_agents_platform_r.WarmPool.Engine.{Container, Engine}
use aw_app_agents_platform_r.WarmPool.Acquire.{second, created_age}

-- The keyword arguments of `reap`, in seconds, with their defaults.
pub record Limits : Type 0 where
  pub drain_grace_s : ℕ
  pub ttl_s : ℕ
  pub slack_s : ℕ

abbrev pub default_limits : Limits
default_limits = record { drain_grace_s = 3600; ttl_s = 1800; slack_s = 300 }

-- `age is not None and age > ttl_s + slack_s`
unfoldable pub over_ttl : Limits → ℕ → Container → Bool
unfolding created_age
over_ttl l now c = elim (created_age c.created now) [
  | none ↦ false
  | some age ↦ exceeds age ((l.ttl_s + l.slack_s) * second)
]

-- `now - started > drain_grace_s`, with `now` in microseconds and `started` in seconds.
unfoldable pub over_grace : Limits → ℕ → ℤ → Bool
over_grace l now (pos started) = ltb ((started + l.drain_grace_s) * second) now
over_grace l now (negsuc n) = ltb (l.drain_grace_s * second) (now + suc n * second)

-- What became of one container: the counters `removed` and `condemned` count the first two.
pub data Swept : Type 0 where
  removed condemned left : Swept

abbrev pub as_removed : Bool → Swept
as_removed ok = if ok then removed else left

abbrev pub count_removed : Swept → ℕ → ℕ
count_removed removed n = suc n
count_removed _ n = n

module _ (E : Engine) where
  open E use {World, list, rename, remove, touch_drain, time, monotonic, sleep, reload}

  flag_renamed : Text → Bool → Action World Swept
  flag_renamed i false = pure left
  flag_renamed i true = do flagged ← touch_drain i; pure condemned

  condemn_if : Container → Bool → Action World Swept
  unfolding flag_renamed
  condemn_if c false = pure left
  condemn_if c true = do
    now ← time
    renamed ← rename c.id (draining_name c.name (now / second))
    flag_renamed c.id renamed

  -- `_condemn_over_ttl`, with the exception of a failed rename caught as `reap` does.
  pub condemn_over_ttl : Limits → ℕ → Container → Action World Swept
  unfolding condemn_if
  condemn_over_ttl l now c = condemn_if c (over_ttl l now c)

  remove_if : Text → Bool → Action World Swept
  remove_if i false = pure left
  remove_if i true = do ok ← remove i; pure (as_removed ok)

  collect_drainer : Limits → ℕ → Container → Option ℤ → Action World Swept
  unfolding remove_if
  collect_drainer l now c none = pure left
  collect_drainer l now c (some started) = remove_if c.id (over_grace l now started)

  sweep_running : Limits → ℕ → Container → Bool → Action World Swept
  unfolding collect_drainer condemn_over_ttl
  sweep_running l now c false = condemn_over_ttl l now c
  sweep_running l now c true = collect_drainer l now c (drain_started c.name)

  sweep_status : Limits → ℕ → Container → Bool → Action World Swept
  unfolding sweep_running
  sweep_status l now c false = remove_if c.id true
  sweep_status l now c true = sweep_running l now c (is_draining c.name)

  -- The body of the loop of `reap`.
  pub sweep_one : Limits → ℕ → Container → Action World Swept
  unfolding sweep_status
  sweep_one l now c = sweep_status l now c c.is_running

  -- The loop of `reap`, from a count of removed containers.
  pub sweep : Limits → ℕ → List Container → ℕ → Action World ℕ
  sweep l now [] n w = (w, n)
  sweep l now (c ∷ cs) n w =
      let (w1, fate) = sweep_one l now c w in sweep l now cs (count_removed fate n) w1

  sweep_listed : Limits → Option (List Container) → Action World ℕ
  unfolding sweep
  sweep_listed l none = pure 0
  sweep_listed l (some cs) = do now ← time; sweep l now cs 0

  -- `reap`: how many containers were removed.
  pub reap : Limits → Action World ℕ
  unfolding sweep_listed
  reap l = do cs ← list true; sweep_listed l cs
