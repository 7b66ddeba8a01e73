-- ===== src/WarmPool/Reap/Outcome.antt =====
-- What a whole call of `reap` (warm_pool.py) does to each container, and two calls in turn.
use aw_app_agents_platform_r.Prelude.{
  ℕ, ◌+◌, ◌*◌, ◌/◌, ◌<◌, ◌≤◌, arith, ◌≡◌, ap, sym, subst, ◌∙◌, true, false, Option, none, some,
  List, [], ◌∷◌, Bool-cases, Option-cases, inl, inr, is_some, lt→ltb,
}
use aw_app_agents_platform_r.Prelude.Texts.{text_eq}
use aw_app_agents_platform_r.WarmPool.Names.{
  draining_name, is_draining, drain_started-draining_name,
}
use aw_app_agents_platform_r.WarmPool.Engine.{Container, Engine, Lawful, find_id, Distinct}
use aw_app_agents_platform_r.WarmPool.Acquire.{second}
use aw_app_agents_platform_r.WarmPool.Reap.{
  Limits, over_ttl, over_grace, sweep_one, sweep, sweep_listed, reap, count_removed,
}
use aw_app_agents_platform_r.WarmPool.Reap.Lookup.{find_id-select, Distinct-select}
use aw_app_agents_platform_r.WarmPool.Reap.Sweep.{at, sweep_one-other, sweep-other}
use aw_app_agents_platform_r.WarmPool.Reap.Clock.{Forward, sweep_one-on, sweep_one-stamped}
use aw_app_agents_platform_r.WarmPool.Reap.Fate.{
  collect, keep, verdict, Fate, Obedient, sweep_one-keep, sweep_one-Fate,
}

-- The clock that `reap` reads after its listing.
abbrev pub reap_time : (E : Engine) → E.World → ℕ
reap_time E w = (E.time (E.list true w).0).1

collects :
    (l : Limits) (now : ℕ) (c : Container) (ts : ℕ)
    → c.is_running ≡ true
    → (ts + l.drain_grace_s) * second < now
    → verdict l now (record c { name = draining_name c.name ts }) ≡ collect
unfolding verdict over_grace
collects l now c ts up late =
    let (mark, started) = drain_started-draining_name c.name ts in
    rw (up, mark, started, verdict) (rw (lt→ltb _ _ late))

module _ (E : Engine) (L : Lawful E) (c : Container) where
  -- Whatever holds of the container after its own turn holds after the sweep.
  module _ (P : Option Container → Type 0) (I : E.World → Type 0) (l : Limits) (now : ℕ) where
    sweep-turn :
        (cs : List Container) (n : ℕ) (w : E.World)
        → Distinct cs
        → find_id c.id cs ≡ some c
        → at E L c.id w ≡ some c
        → ((d : Container) (v : E.World) → I v → I (sweep_one E l now d v).0)
        → I w
        → ((v : E.World) → I v → at E L c.id v ≡ some c → P (at E L c.id (sweep_one E l now c v).0))
        → P (at E L c.id (sweep E l now cs n w).0)
    unfolding sweep find_id
    sweep-turn [] n w d f h kept i turn = cc
    sweep-turn (x ∷ cs) n w d f h kept i turn = elim (Bool-cases (text_eq x.id c.id)) [
      | inl e ↦
          let same : x ≡ c = cc (rw e at f) in
          let gone : find_id c.id cs ≡ none =
            cc (d.0, ap (λ (y : Container). find_id y.id cs) same) in
          rw (sweep-other E L c.id l now cs _ (sweep_one E l now x w).0 gone, same) (turn w i h)
      | inr e ↦
          let (w1, fate) = sweep_one E l now x w in
          sweep-turn cs (count_removed fate n) w1 d.1 (rw e at f)
            (sweep_one-other E L c.id l now x w e ∙ h) kept (kept x w i) turn
    ]

  module _ (P : Option Container → Type 0) (I : E.World → Type 0) (l : Limits) where
    reap-turn :
        (cs : List Container) (w : E.World)
        → (E.list true w).1 ≡ some cs
        → Distinct (L.view w)
        → c.labels.warm ≡ true
        → at E L c.id w ≡ some c
        → ((d : Container) (v : E.World) → I v → I (sweep_one E l (reap_time E w) d v).0)
        → I (E.time (E.list true w).0).0
        → ((v : E.World)
            → I v
            → at E L c.id v ≡ some c
            → P (at E L c.id (sweep_one E l (reap_time E w) c v).0))
        → P (at E L c.id (sweep_listed E l (some cs) (E.list true w).0).0)
    unfolding sweep_listed
    reap-turn cs w e d warm h kept i turn =
        let w1 = (E.list true w).0 in
        let listed = L.list_all w cs e in
        let there : at E L c.id (E.time w1).0 ≡ some c = rw (L.view-time, L.view-list) h in
        sweep-turn P I l (reap_time E w) cs 0 (E.time w1).0
          (subst Distinct (sym listed) (Distinct-select (λ k. k.labels.warm) (L.view w) d))
          (ap (find_id c.id) listed ∙ find_id-select (λ k. k.labels.warm) c.id c (L.view w) h warm)
          there kept i turn

  -- A call of `reap` on an engine that lists, renames and removes as it is told, where container ids
  -- are distinct: of every warm container, a stopped one and a drainer past its grace are gone, an
  -- other running one past its TTL has its draining name, and every other one is as it was.
  pub reap-Fate :
      (l : Limits) (w : E.World)
      → Obedient E
      → is_some (E.list true w).1 ≡ true
      → Distinct (L.view w)
      → c.labels.warm ≡ true
      → at E L c.id w ≡ some c
      → Fate (verdict l (reap_time E w) c) c (at E L c.id (reap E l w).0)
  unfolding reap sweep_listed
  reap-Fate l w O answers d warm h = elim (Option-cases (E.list true w).1) [
    | inl e ↦ cc (ap is_some e, answers)
    | inr (cs, e) ↦ rw e (
        reap-turn (Fate (verdict l (reap_time E w) c) c) (λ v. Unit) l cs w e d warm h (λ x v i. tt)
          tt (λ v i hv. sweep_one-Fate E L O c l (reap_time E w) v hv))
  ]

  -- The pool is safe from `reap`, also where calls of the engine fail: with distinct ids, a warm
  -- container that is neither stopped nor a drainer past its grace nor past its TTL by the clock of
  -- the call is left as it was.
  pub reap-keep :
      (l : Limits) (w : E.World)
      → Distinct (L.view w)
      → c.labels.warm ≡ true
      → at E L c.id w ≡ some c
      → verdict l (reap_time E w) c ≡ keep
      → at E L c.id (reap E l w).0 ≡ some c
  unfolding reap
  reap-keep l w d warm h v = elim (Option-cases (E.list true w).1) [
    | inl e ↦ rw e (unfold sweep_listed in ap (find_id c.id) (L.view-list true w) ∙ h)
    | inr (cs, e) ↦ rw e (
        reap-turn (λ o. o ≡ some c) (λ v. Unit) l cs w e d warm h (λ x v i. tt) tt
          (λ u i hu. ap (find_id c.id) (sweep_one-keep E L l (reap_time E w) c u v) ∙ hu))
  ]

  -- A container that is condemned: its name has the second of a reading of the clock in it, and that
  -- reading was not before the one that the call made of it behind its listing.
  abbrev pub Stamped : ℕ → Option Container → Type 0
  Stamped from o =
      (u : E.World) × (from ≤ (E.time u).1)
      × (o ≡ some (record c { name = draining_name c.name ((E.time u).1 / second) }))

  pub reap-Stamped :
      (F : Forward E) (l : Limits) (w : E.World)
      → Obedient E
      → is_some (E.list true w).1 ≡ true
      → Distinct (L.view w)
      → c.labels.warm ≡ true
      → c.is_running ≡ true
      → is_draining c.name ≡ false
      → over_ttl l (reap_time E w) c ≡ true
      → at E L c.id w ≡ some c
      → Stamped (reap_time E w) (at E L c.id (reap E l w).0)
  unfolding reap
  reap-Stamped F l w O answers d warm up plain old h = elim (Option-cases (E.list true w).1) [
    | inl e ↦ cc (ap is_some e, answers)
    | inr (cs, e) ↦
        let now = reap_time E w in
        rw e (
          reap-turn (Stamped now) (λ v. now ≤ F.clock v) l cs w e d warm h
            (λ x v i. omega (arith, i, sweep_one-on E F l now x v))
            (omega (arith, F.reads_clock (E.list true w).0, F.time_on (E.list true w).0))
            (λ v i hv. (
              v,
              omega (arith, i, F.reads_clock v),
              sweep_one-stamped E L O c l now v up plain old hv,
            )))
  ]

-- An engine as `reap` needs it.
pub record Sweepable (E : Engine) : Type 0 where
  pub obeys : Obedient E
  pub lists : (w : E.World) → is_some (E.list true w).1 ≡ true
  pub forward : Forward E

module _ (E : Engine) (L : Lawful E) (S : Sweepable E) (c : Container) where
  -- A running container that outlives its TTL is collected by two calls of `reap`, on an engine that
  -- lists, renames and removes as it is told, with a clock that does not go back over the calls of a
  -- sweep. The first one renames it after the second of a reading
  -- of the clock, not before the one that the call made behind its listing. A later one, by whose clock
  -- the grace has passed since the second in the name that the container kept, removes it, if it is
  -- still running; ids are distinct both times.
  pub condemned_then_collected :
      (l : Limits) (w v : E.World)
      → Distinct (L.view w)
      → c.labels.warm ≡ true
      → c.is_running ≡ true
      → is_draining c.name ≡ false
      → over_ttl l (reap_time E w) c ≡ true
      → at E L c.id w ≡ some c
      → Distinct (L.view v)
      → at E L c.id v ≡ at E L c.id (reap E l w).0
      → ((ts : ℕ)
          → at E L c.id v ≡ some (record c { name = draining_name c.name ts })
          → (ts + l.drain_grace_s) * second < reap_time E v)
      → Stamped E L c (reap_time E w) (at E L c.id (reap E l w).0)
        × (at E L c.id (reap E l v).0 ≡ none)
  condemned_then_collected l w v d warm up plain old h dv same late =
      let (u, after, renamed) =
        reap-Stamped E L c S.forward l w S.obeys (S.lists w) d warm up plain old h in
      let ts = (E.time u).1 / second in
      let drainer : Container = record c { name = draining_name c.name ts } in
      let still : at E L c.id v ≡ some drainer = same ∙ renamed in
      (
        (u, after, renamed),
        subst (λ k. Fate k drainer (at E L c.id (reap E l v).0))
            (collects l (reap_time E v) c ts up (late ts still))
            (reap-Fate E L drainer l v S.obeys (S.lists v) dv warm still),
      )
