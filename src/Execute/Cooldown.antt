-- ===== src/Execute/Cooldown.antt =====
-- execute.py: the cooldown that all jobs of Codex share behind a 429 (`_codex_429_cooldown_arm`,
-- `_codex_429_cooldown_wait`), and the sleep that an abort ends (`_sleep_abortable`).
pub mod Bounds
use aw_app_agents_platform_r.Prelude.{
  ℕ, zero, suc, ◌+◌, ◌-◌, ◌*◌, ◌/◌, min, Bool, true, false, not, Option, none, some, List, [], ◌∷◌,
  if◌then◌else◌, leb, ℤ, pos, negsuc, is_some,
}
use aw_app_agents_platform_r.Prelude.Texts.{Text, codes, is_empty}
use aw_app_agents_platform_r.Prelude.Decimal.{str, int}
use aw_app_agents_platform_r.Execute.Outside.{Outside, cooldown_notice}
use aw_app_agents_platform_r.Execute.Publish.{publish_message}
use aw_app_agents_platform_r.Execute.Registry.{Process, or_none, is_aborted}

-- _CODEX_429_COOLDOWN_KEY
abbrev pub cooldown_key : Text
cooldown_key = codes "apr:codex:429-cooldown:codex"

-- _CODEX_429_COOLDOWN_BASE_S, _CODEX_429_COOLDOWN_MAX_S
abbrev pub cooldown_base_s : ℕ
cooldown_base_s = 30

abbrev pub cooldown_max_s : ℕ
cooldown_max_s = 120

-- _CODEX_429_COOLDOWN_WAIT_BOUND_S over _CODEX_429_COOLDOWN_WAIT_POLL_S
abbrev pub wait_polls : ℕ
wait_polls = 150

-- The seconds of the next cooldown, by the value of the key: none where `int` raises, or where the
-- seconds are not positive, so that Redis refuses them.
unfoldable pub doubled : Option ℤ → Option ℕ
doubled none = none
doubled (some (pos zero)) = none
doubled (some (pos (suc n))) = some (min (suc n * 2) cooldown_max_s)
doubled (some (negsuc n)) = none

unfoldable pub next_ttl : Option Text → Option ℕ
unfolding int doubled
next_ttl none = some cooldown_base_s
next_ttl (some prev) = doubled (int prev)

-- What one look at the cooldown tells the wait: `proceeds` when the look fails or finds none, with
-- whether this wait saw one before.
pub data CooldownLook : Type 0 where
  proceeds : Bool → CooldownLook
  stops again : CooldownLook

module _ (O : Outside) where
  unfoldable pub set_cooldown : Option ℕ → O.World → O.World
  unfolding str
  set_cooldown none w = w
  set_cooldown (some ttl) w = (O.redis_set cooldown_key (str ttl) ttl w).0

  unfoldable pub on_previous : Option (Option Text) → O.World → O.World
  unfolding or_none next_ttl set_cooldown
  on_previous none w = w
  on_previous (some prev) w = set_cooldown (next_ttl (or_none prev)) w

  -- `_codex_429_cooldown_arm`
  unfoldable pub cooldown_arm : Bool → O.World → O.World
  unfolding on_previous
  cooldown_arm connected w =
      let r = O.redis_get cooldown_key w in if connected then on_previous r.1 r.0 else w

  abbrev pub at_world : Process O.World → O.World → Process O.World
  at_world p w = record p { world = w }

  unfoldable pub on_look :
      Option (Option Text) → Bool → Text → Process O.World → Process O.World × CooldownLook
  unfolding or_none publish_message is_aborted
  on_look none notified run_id p = (p, proceeds false)
  on_look (some armed) notified run_id p =
      if is_some (or_none armed)
      then (let told =
            at_world p
              (if notified then p.world else publish_message O run_id cooldown_notice p.world) in
          let a = is_aborted O true run_id told in (a.0, (if a.1 then stops else again)))
      else (p, proceeds notified)

  -- One turn of the loop, up to its bound.
  unfoldable pub poll_cooldown : Bool → Text → Process O.World → Process O.World × CooldownLook
  unfolding on_look
  poll_cooldown notified run_id p =
      let r = O.redis_get cooldown_key p.world in on_look r.1 notified run_id (at_world p r.0)

  -- Whether to go on and whether the cooldown cleared: by the turn, or by the turns behind it.
  unfoldable pub after_poll :
      Process O.World × CooldownLook → Process O.World × Bool × Bool → Process O.World × Bool × Bool
  after_poll (p, proceeds cleared) later = (p, true, cleared)
  after_poll (p, stops) later = (p, false, false)
  after_poll (p, again) later = later

  -- `while True:`, with the seconds left to the bound.
  unfoldable pub wait_turns : ℕ → Bool → Text → Process O.World → Process O.World × Bool × Bool
  unfolding poll_cooldown after_poll
  wait_turns zero notified run_id p =
      let turn = poll_cooldown notified run_id p in after_poll turn (turn.0, true, false)
  wait_turns (suc left) notified run_id p =
      let turn = poll_cooldown notified run_id p in
      after_poll turn (wait_turns left true run_id (at_world turn.0 (O.sleep 1000 turn.0.world)))

  -- `_codex_429_cooldown_wait`: whether the attempt may be spawned.
  unfoldable pub cooldown_wait : Bool → Text → Process O.World → Process O.World × Bool
  unfolding wait_turns
  cooldown_wait connected run_id p =
      let r = wait_turns wait_polls false run_id p in
      let jitter = O.uniform 0 5000 r.0.world in
      if connected
      then (if r.2 then at_world r.0 (O.sleep jitter.1 jitter.0) else r.0, r.1)
      else (p, true)

  -- `_sleep_abortable`, in milliseconds to the instant `end`: whether the job was aborted; `none` when
  -- the fuel is used up.
  unfoldable pub sleep_until : ℕ → ℕ → Text → Process O.World → Process O.World × Option Bool
  unfolding is_aborted
  sleep_until zero end run_id p = (p, none)
  sleep_until (suc fuel) end run_id p =
      let now = O.monotonic p.world in
      let a = is_aborted O true run_id (at_world p now.0) in
      let later =
        sleep_until fuel end run_id (at_world a.0 (O.sleep (min 1000 (end - now.1)) a.0.world)) in
      if leb end now.1
      then (at_world p now.0, some false)
      else if a.1
      then (a.0, some true)
      else later

  -- The fuel is one turn for each second and two more.
  unfoldable pub sleep_abortable : ℕ → Text → Process O.World → Process O.World × Option Bool
  unfolding sleep_until
  sleep_abortable duration run_id p =
      let now = O.monotonic p.world in
      sleep_until (duration / 1000 + 2) (now.1 + duration) run_id (at_world p now.0)
