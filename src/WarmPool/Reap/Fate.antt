-- ===== src/WarmPool/Reap/Fate.antt =====
-- What `reap` (warm_pool.py) does to each container.
use aw_app_agents_platform_r.Prelude.{
  ℕ, ◌/◌, ◌≡◌, refl, ap, ◌∙◌, Bool, true, false, Option, none, some, if◌then◌else◌, ℤ,
}
use aw_app_agents_platform_r.Prelude.Texts.{Text}
use aw_app_agents_platform_r.WarmPool.Names.{draining_name, is_draining, drain_started}
use aw_app_agents_platform_r.WarmPool.Engine.{Container, Engine, Lawful, find_id}
use aw_app_agents_platform_r.WarmPool.Acquire.{second}
use aw_app_agents_platform_r.WarmPool.Reap.{
  Limits, over_ttl, over_grace, flag_renamed, condemn_if, remove_if, collect_drainer, sweep_running,
  sweep_status, sweep_one,
}
use aw_app_agents_platform_r.WarmPool.Reap.Lookup.{find_id-remove_in_self, find_id-rename_in_self}
use aw_app_agents_platform_r.WarmPool.Reap.Sweep.{at}

-- What a sweep makes of a container, where the engine does as it is told.
pub data Verdict : Type 0 where
  collect condemn keep : Verdict

drainer_verdict : Limits → ℕ → Option ℤ → Verdict
drainer_verdict l now none = keep
drainer_verdict l now (some started) = if over_grace l now started then collect else keep

running_verdict : Limits → ℕ → Container → Bool → Verdict
unfolding drainer_verdict
running_verdict l now c true = drainer_verdict l now (drain_started c.name)
running_verdict l now c false = if over_ttl l now c then condemn else keep

-- A stopped container and a drainer past its grace are collected, another running container past its
-- TTL is condemned, and every other one is kept.
unfoldable pub verdict : Limits → ℕ → Container → Verdict
unfolding running_verdict
verdict l now c = if c.is_running then running_verdict l now c (is_draining c.name) else collect

-- The container with `c`'s id after a sweep: gone, renamed with the second of the clock in its name,
-- or as it was.
abbrev pub Fate : Verdict → Container → Option Container → Type 0
Fate collect c o = o ≡ none
Fate condemn c o = (ts : ℕ) × (o ≡ some (record c { name = draining_name c.name ts }))
Fate keep c o = o ≡ some c

-- The engine removes and renames as it is told.
pub record Obedient (E : Engine) : Type 0 where
  pub rename_works : (i new : Text) (w : E.World) → (E.rename i new w).1 ≡ true
  pub remove_works : (i : Text) (w : E.World) → (E.remove i w).1 ≡ true

module _ (E : Engine) (L : Lawful E) where
  view-remove_unless :
      (j : Text) (b : Bool) (w : E.World)
      → (if b then collect else keep) ≡ keep
      → L.view (remove_if E j b w).0 ≡ L.view w
  unfolding remove_if
  view-remove_unless j false w h = refl
  view-remove_unless j true w h = cc

  view-collect_drainer :
      (l : Limits) (now : ℕ) (c : Container) (o : Option ℤ) (w : E.World)
      → drainer_verdict l now o ≡ keep
      → L.view (collect_drainer E l now c o w).0 ≡ L.view w
  unfolding collect_drainer drainer_verdict
  view-collect_drainer l now c none w h = refl
  view-collect_drainer l now c (some t) w h = view-remove_unless c.id (over_grace l now t) w h

  view-condemn_if :
      (c : Container) (b : Bool) (w : E.World)
      → (if b then condemn else keep) ≡ keep
      → L.view (condemn_if E c b w).0 ≡ L.view w
  unfolding condemn_if
  view-condemn_if c false w h = refl
  view-condemn_if c true w h = cc

  view-sweep_running :
      (l : Limits) (now : ℕ) (c : Container) (b : Bool) (w : E.World)
      → running_verdict l now c b ≡ keep
      → L.view (sweep_running E l now c b w).0 ≡ L.view w
  unfolding sweep_running running_verdict
  view-sweep_running l now c true w h = view-collect_drainer l now c (drain_started c.name) w h
  view-sweep_running l now c false w h = view-condemn_if c (over_ttl l now c) w h

  view-sweep_status :
      (l : Limits) (now : ℕ) (c : Container) (b : Bool) (w : E.World)
      → (if b then running_verdict l now c (is_draining c.name) else collect) ≡ keep
      → L.view (sweep_status E l now c b w).0 ≡ L.view w
  unfolding sweep_status
  view-sweep_status l now c true w h = view-sweep_running l now c (is_draining c.name) w h
  view-sweep_status l now c false w h = cc

  -- Whether the engine obeys or not, a container with the verdict `keep` is left alone.
  pub sweep_one-keep :
      (l : Limits) (now : ℕ) (c : Container) (w : E.World)
      → verdict l now c ≡ keep
      → L.view (sweep_one E l now c w).0 ≡ L.view w
  unfolding sweep_one verdict
  sweep_one-keep l now c w h = view-sweep_status l now c c.is_running w h

  module _ (O : Obedient E) (c : Container) where
    abbrev here : E.World → Option Container
    here w = at E L c.id w

    Fate-remove_if :
        (b : Bool) (w : E.World)
        → here w ≡ some c
        → Fate (if b then collect else keep) c (here (remove_if E c.id b w).0)
    unfolding remove_if
    Fate-remove_if false w h = h
    Fate-remove_if true w h =
        rw (L.view-remove, O.remove_works) (find_id-remove_in_self c.id (L.view w))

    here-flag_renamed : (b : Bool) (w : E.World) → here (flag_renamed E c.id b w).0 ≡ here w
    unfolding flag_renamed
    here-flag_renamed false w = refl
    here-flag_renamed true w = ap (find_id c.id) (L.view-touch_drain c.id w)

    Fate-condemn_if :
        (b : Bool) (w : E.World)
        → here w ≡ some c
        → Fate (if b then condemn else keep) c (here (condemn_if E c b w).0)
    unfolding condemn_if
    Fate-condemn_if false w h = h
    Fate-condemn_if true w h =
        let (w1, now) = E.time w in
        let new = draining_name c.name (now / second) in
        (
          now / second,
          here-flag_renamed (E.rename c.id new w1).1 (E.rename c.id new w1).0
              ∙ rw (L.view-rename, O.rename_works)
                  (find_id-rename_in_self c.id new c (L.view w1) (rw L.view-time h)),
        )

    Fate-collect_drainer :
        (l : Limits) (now : ℕ) (o : Option ℤ) (w : E.World)
        → here w ≡ some c
        → Fate (drainer_verdict l now o) c (here (collect_drainer E l now c o w).0)
    unfolding collect_drainer drainer_verdict
    Fate-collect_drainer l now none w h = h
    Fate-collect_drainer l now (some t) w h = Fate-remove_if (over_grace l now t) w h

    Fate-sweep_running :
        (l : Limits) (now : ℕ) (b : Bool) (w : E.World)
        → here w ≡ some c
        → Fate (running_verdict l now c b) c (here (sweep_running E l now c b w).0)
    unfolding sweep_running running_verdict
    Fate-sweep_running l now true w h = Fate-collect_drainer l now (drain_started c.name) w h
    Fate-sweep_running l now false w h = Fate-condemn_if (over_ttl l now c) w h

    Fate-sweep_status :
        (l : Limits) (now : ℕ) (b : Bool) (w : E.World)
        → here w ≡ some c
        → Fate
            (if b then running_verdict l now c (is_draining c.name) else collect)
            c
            (here (sweep_status E l now c b w).0)
    unfolding sweep_status
    Fate-sweep_status l now true w h = Fate-sweep_running l now (is_draining c.name) w h
    Fate-sweep_status l now false w h = Fate-remove_if true w h

    pub sweep_one-Fate :
        (l : Limits) (now : ℕ) (w : E.World)
        → here w ≡ some c
        → Fate (verdict l now c) c (here (sweep_one E l now c w).0)
    unfolding sweep_one verdict
    sweep_one-Fate l now w h = Fate-sweep_status l now c.is_running w h
