-- ===== src/Execute/Cooldown/Bounds.antt =====
-- execute.py: how long the shared cooldown of Codex is set, and that the sleep before a new attempt ends.
use aw_app_agents_platform_r.Prelude.{
  ℕ, zero, suc, ◌+◌, ◌-◌, ◌*◌, ◌/◌, ◌≤◌, ◌<◌, min, ◌≡◌, refl, ap, ◌∙◌, subst, true, false, Option,
  none, some, leb, is_some, Bool-cases, inl, inr, arith,
}
use aw_app_agents_platform_r.Prelude.Texts.{Text}
use aw_app_agents_platform_r.Prelude.Decimal.{str, int-str}
use aw_app_agents_platform_r.Execute.Outside.{Outside}
use aw_app_agents_platform_r.Execute.Bounded.{get_item}
use aw_app_agents_platform_r.Execute.Registry.{Process, is_aborted, read_mirror, abort_flag_key}
use aw_app_agents_platform_r.Execute.Cooldown.{
  cooldown_base_s, cooldown_max_s, doubled, next_ttl, at_world, sleep_until, sleep_abortable,
}

abbrev pub reread : Option ℕ → Option ℕ
reread none = none
reread (some ttl) = next_ttl (some (str ttl))

-- The seconds of a cooldown that is set `n` more times while it is active, read back from its key.
abbrev pub rearmed : ℕ → Option ℕ
rearmed zero = next_ttl none
rearmed (suc n) = reread (rearmed n)

abbrev pub growth : ℕ → ℕ
growth zero = cooldown_base_s
growth (suc n) = min (growth n * 2) cooldown_max_s

next_ttl-str : (n : ℕ) → 0 < n → next_ttl (some (str n)) ≡ some (min (n * 2) cooldown_max_s)
unfolding next_ttl doubled
next_ttl-str zero lt = absurd (omega arith)
next_ttl-str (suc n) lt = ap doubled (int-str (suc n))

growth-bounds : (n : ℕ) → (cooldown_base_s ≤ growth n) × (growth n ≤ cooldown_max_s)
growth-bounds zero = (omega arith, omega arith)
growth-bounds (suc n) = let (a, b) = growth-bounds n in (omega arith, omega arith)

rearmed-some : (n : ℕ) → rearmed n ≡ some (growth n)
unfolding next_ttl
rearmed-some zero = refl
rearmed-some (suc n) =
    ap reread (rearmed-some n) ∙ next_ttl-str (growth n) (omega (arith, (growth-bounds n).0))

-- Each time the cooldown is set while it is active, the value that stands under its key is read back
-- and doubled, up to the maximum: it is set, for at least 30 and at most 120 seconds.
pub rearmed-growth :
    (n : ℕ)
    → (rearmed n ≡ some (growth n)) × (cooldown_base_s ≤ growth n) × (growth n ≤ cooldown_max_s)
rearmed-growth n = (rearmed-some n, (growth-bounds n).0, (growth-bounds n).1)

-- A clock that never goes back, and a sleep that takes at least its time.
pub record Clock (O : Outside) : Type 0 where
  pub now : O.World → ℕ
  pub monotonic_now : (w : O.World) → (O.monotonic w).1 ≡ now w
  pub monotonic_le : (w : O.World) → now w ≤ now (O.monotonic w).0
  pub get_le : (k : Text) (w : O.World) → now w ≤ now (O.redis_get k w).0
  pub sleep_le : (d : ℕ) (w : O.World) → now w + d ≤ now (O.sleep d w)

module _ (O : Outside) (C : Clock O) where
  is_aborted-later :
      (r : Text) (p : Process O.World) → C.now p.world ≤ C.now (is_aborted O true r p).0.world
  unfolding is_aborted read_mirror
  is_aborted-later r p = elim (Bool-cases (is_some (get_item r p.aborted))) [
    | inl here ↦ rw here (omega arith)
    | inr gone ↦ rw gone (C.get_le (abort_flag_key r) p.world)
  ]

  -- One turn of the sleep, by the turns behind it.
  sleep_until-turn :
      (fuel end : ℕ) (r : Text) (p : Process O.World)
      → let now = O.monotonic p.world in
        let a = is_aborted O true r (at_world O p now.0) in
        (leb end now.1 ≡ false
          → is_some
              (sleep_until O fuel end r
                (at_world O a.0 (O.sleep (min 1000 (end - now.1)) a.0.world))).1
            ≡ true)
        → is_some (sleep_until O (suc fuel) end r p).1 ≡ true
  unfolding sleep_until
  sleep_until-turn fuel end r p later =
      let now = O.monotonic p.world in
      let a = is_aborted O true r (at_world O p now.0) in
      elim (Bool-cases (leb end now.1)) [
        | inl over ↦ rw over refl
        | inr early ↦ elim (Bool-cases a.1) [
          | inl stopped ↦ rw (early, stopped) refl
          | inr running ↦ rw (early, running) (later early)
        ]
      ]

  sleep_until-some :
      (fuel end : ℕ) (r : Text) (p : Process O.World)
      → end ≤ C.now p.world + 1000 * fuel
      → is_some (sleep_until O (suc fuel) end r p).1 ≡ true
  sleep_until-some zero end r p enough =
      sleep_until-turn zero end r p
        (λ early. absurd (ground (arith, C.monotonic_now p.world, enough, early)))
  sleep_until-some (suc fuel) end r p enough =
      let now = O.monotonic p.world in
      let a = is_aborted O true r (at_world O p now.0) in
      let d = min 1000 (end - now.1) in
      sleep_until-turn (suc fuel) end r p (λ early.
        sleep_until-some fuel end r (at_world O a.0 (O.sleep d a.0.world)) (
          omega (
            arith,
            C.monotonic_now p.world,
            C.monotonic_le p.world,
            is_aborted-later r (at_world O p now.0),
            C.sleep_le d a.0.world,
            enough,
          )))

  -- The sleep before a new attempt ends, whatever its duration and whatever Redis answers, with a clock
  -- that never goes back and a sleep that takes at least its time: the turns that it is given suffice.
  pub sleep_abortable-some :
      (duration : ℕ) (r : Text) (p : Process O.World)
      → is_some (sleep_abortable O duration r p).1 ≡ true
  unfolding sleep_abortable
  sleep_abortable-some duration r p =
      let now = O.monotonic p.world in
      let turns : suc (duration / 1000 + 1) ≡ duration / 1000 + 2 = omega arith in
      subst (λ f. is_some (sleep_until O f (now.1 + duration) r (at_world O p now.0)).1 ≡ true)
        turns
        (sleep_until-some (duration / 1000 + 1) (now.1 + duration) r (at_world O p now.0)
          (omega (arith, C.monotonic_now p.world, C.monotonic_le p.world)))
