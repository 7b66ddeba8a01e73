-- ===== src/WarmPool/Reap/Sweep.antt =====
-- A sweep of `reap` (warm_pool.py) over other containers, as seen from one container.
use aw_app_agents_platform_r.Prelude.{
  ℕ, ◌/◌, ◌≡◌, refl, ap, ◌∙◌, Bool, true, false, Option, none, some, List, [], ◌∷◌, arith,
  Bool-cases, inl, inr, ℤ,
}
use aw_app_agents_platform_r.Prelude.Texts.{Text, text_eq, text_eq_refl, text_eq→eq}
use aw_app_agents_platform_r.WarmPool.Names.{draining_name, is_draining, drain_started}
use aw_app_agents_platform_r.WarmPool.Engine.{Container, Engine, Lawful, find_id}
use aw_app_agents_platform_r.WarmPool.Acquire.{second}
use aw_app_agents_platform_r.WarmPool.Reap.{
  Limits, over_ttl, over_grace, flag_renamed, condemn_if, remove_if, collect_drainer, sweep_running,
  sweep_status, sweep_one, sweep, count_removed,
}
use aw_app_agents_platform_r.WarmPool.Reap.Lookup.{find_id-rename_in_ne, find_id-remove_in_ne}

text_eq_sym_false : (s t : Text) → text_eq s t ≡ false → text_eq t s ≡ false
text_eq_sym_false s t h = elim (Bool-cases (text_eq t s)) [
  | inl e ↦ cc (h, ap (λ u. text_eq s u) (text_eq→eq t s e), text_eq_refl s)
  | inr e ↦ e
]

some-none : (d : Container) → ¬ (some d ≡ none)
some-none d e = cc

module _ (E : Engine) (L : Lawful E) where
  module _ (i : Text) where
    abbrev pub at : E.World → Option Container
    at w = find_id i (L.view w)

    remove_if-other :
        (j : Text) (b : Bool) (w : E.World) → text_eq j i ≡ false → at (remove_if E j b w).0 ≡ at w
    unfolding remove_if
    remove_if-other j false w ne = refl
    remove_if-other j true w ne =
        rw L.view-remove (ground (arith, find_id-remove_in_ne i j (L.view w) ne))

    flag_renamed-other : (j : Text) (b : Bool) (w : E.World) → at (flag_renamed E j b w).0 ≡ at w
    unfolding flag_renamed
    flag_renamed-other j false w = refl
    flag_renamed-other j true w = ap (find_id i) (L.view-touch_drain j w)

    condemn_if-other :
        (d : Container) (b : Bool) (w : E.World)
        → text_eq d.id i ≡ false
        → at (condemn_if E d b w).0 ≡ at w
    unfolding condemn_if
    condemn_if-other d false w ne = refl
    condemn_if-other d true w ne =
        let (w1, now) = E.time w in
        let new = draining_name d.name (now / second) in
        flag_renamed-other d.id (E.rename d.id new w1).1 (E.rename d.id new w1).0
        ∙ rw L.view-rename
            (rw L.view-time (ground (arith, find_id-rename_in_ne i d.id new (L.view w) ne)))

    collect_drainer-other :
        (l : Limits) (now : ℕ) (d : Container) (o : Option ℤ) (w : E.World)
        → text_eq d.id i ≡ false
        → at (collect_drainer E l now d o w).0 ≡ at w
    unfolding collect_drainer
    collect_drainer-other l now d none w ne = refl
    collect_drainer-other l now d (some t) w ne = remove_if-other d.id (over_grace l now t) w ne

    sweep_running-other :
        (l : Limits) (now : ℕ) (d : Container) (b : Bool) (w : E.World)
        → text_eq d.id i ≡ false
        → at (sweep_running E l now d b w).0 ≡ at w
    unfolding sweep_running
    sweep_running-other l now d false w ne = condemn_if-other d (over_ttl l now d) w ne
    sweep_running-other l now d true w ne =
        collect_drainer-other l now d (drain_started d.name) w ne

    sweep_status-other :
        (l : Limits) (now : ℕ) (d : Container) (b : Bool) (w : E.World)
        → text_eq d.id i ≡ false
        → at (sweep_status E l now d b w).0 ≡ at w
    unfolding sweep_status
    sweep_status-other l now d false w ne = remove_if-other d.id true w ne
    sweep_status-other l now d true w ne = sweep_running-other l now d (is_draining d.name) w ne

    pub sweep_one-other :
        (l : Limits) (now : ℕ) (d : Container) (w : E.World)
        → text_eq d.id i ≡ false
        → at (sweep_one E l now d w).0 ≡ at w
    unfolding sweep_one
    sweep_one-other l now d w ne = sweep_status-other l now d d.is_running w ne

    -- A sweep over containers with other ids leaves the container.
    pub sweep-other :
        (l : Limits) (now : ℕ) (cs : List Container) (n : ℕ) (w : E.World)
        → find_id i cs ≡ none
        → at (sweep E l now cs n w).0 ≡ at w
    unfolding sweep find_id
    sweep-other l now [] n w h = refl
    sweep-other l now (d ∷ cs) n w h =
        let (w1, fate) = sweep_one E l now d w in
        elim (Bool-cases (text_eq d.id i)) [
          | inl e ↦ absurd (some-none d (rw e at h))
          | inr e ↦
              sweep-other l now cs (count_removed fate n) w1 (rw e at h)
              ∙ sweep_one-other l now d w e
        ]
