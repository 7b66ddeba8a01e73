-- ===== src/WarmPool/Config.antt =====
-- The switch and the ceiling of the pool, from the app's config and the environment
-- (warm_pool.py: `_truthy`, `_resolve_max_warm`, `configure`, `enabled`, `max_warm`).
use aw_app_agents_platform_r.Prelude.{
  Bool-cases, ℕ, zero, suc, ◌≤◌, ◌≡◌, refl, List, [], ◌∷◌, inl, inr, ◌⊎◌, Bool, true, false, not,
  Option, none, some, arith, if◌then◌else◌, ℤ, pos, negsuc,
}
use aw_app_agents_platform_r.Prelude.Texts.{Text, codes, lower, one_of, strip, is_empty}
use aw_app_agents_platform_r.Prelude.Decimal.{int}

-- A value of the app's config: absent or null, a boolean, a number, a text, or any other JSON.
pub data Value : Type 0 where
  null other : Value
  flag : Bool → Value
  number : ℤ → Value
  text : Text → Value

abbrev pub default_max_warm : ℕ
default_max_warm = 40

abbrev falsey : List Text
falsey = codes "0" ∷ codes "false" ∷ codes "no" ∷ codes "off" ∷ [] ∷ []

-- `str(raw).strip().lower() not in _FALSEY`; a number prints as its digits, and no other JSON value
-- prints as one of the five words.
unfoldable pub truthy : Value → Bool
truthy (flag b) = b
truthy (text t) = not (one_of falsey (lower (strip t)))
truthy (number (pos zero)) = false
truthy _ = true

-- `int(str(raw).strip())`, with `none` for ValueError; `str` of a boolean is no number.
unfoldable pub ceiling_number : Value → Option ℤ
ceiling_number (number n) = some n
ceiling_number (text t) = int (strip t)
ceiling_number _ = none

usable_ceiling : Option ℤ → ℕ
usable_ceiling none = default_max_warm
usable_ceiling (some (negsuc n)) = default_max_warm
usable_ceiling (some (pos zero)) = default_max_warm
usable_ceiling (some (pos (suc n))) = suc n

unfoldable pub resolve_max_warm : Value → ℕ
unfolding usable_ceiling ceiling_number
resolve_max_warm null = default_max_warm
resolve_max_warm (text t) =
    if is_empty (strip t) then default_max_warm else usable_ceiling (ceiling_number (text t))
resolve_max_warm v = usable_ceiling (ceiling_number v)

-- The two keys of the app's config that the pool reads; an absent key is `null`.
pub record AppConfig : Type 0 where
  pub warm_container : Value
  pub max_warm_containers : Value

-- `_config_enabled` and `_config_max_warm`.
pub record Switches : Type 0 where
  pub config_enabled : Bool
  pub config_max_warm : ℕ

abbrev pub initial : Switches
initial = record { config_enabled = true; config_max_warm = default_max_warm }

unfoldable pub max_warm : Switches → ℕ
max_warm s = s.config_max_warm

-- `raw` is the environment variable RUNNER_WARM_CONTAINER.
unfoldable pub enabled : Option Text → Switches → Bool
enabled none s = s.config_enabled
enabled (some raw) s = if is_empty (strip raw) then s.config_enabled else truthy (text raw)

warm_switch : Value → Bool
warm_switch null = true
warm_switch v = truthy v

-- The new switches and the answer of `enabled()`.
unfoldable pub configure : Option Text → AppConfig → Switches × Bool
unfolding warm_switch
configure env config =
    let switches : Switches = record {
      config_enabled = warm_switch config.warm_container;
      config_max_warm = resolve_max_warm config.max_warm_containers;
    } in
    (switches, enabled env switches)

abbrev pub CeilingCases : Option ℤ → ℕ → Type 0
CeilingCases read got =
    ((n : ℕ) × (1 ≤ n) × (read ≡ some (pos n)) × (got ≡ n))
    ⊎ (((n : ℕ) → read ≡ some (pos n) → n ≡ 0) × (got ≡ default_max_warm))

usable_ceiling-cases : (read : Option ℤ) → CeilingCases read (usable_ceiling read)
unfolding usable_ceiling
usable_ceiling-cases none = inr (λ n e. cc, refl)
usable_ceiling-cases (some (negsuc n)) = inr (λ m e. cc, refl)
usable_ceiling-cases (some (pos zero)) = inr (λ m e. ground arith, refl)
usable_ceiling-cases (some (pos (suc n))) = inl (suc n, omega arith, refl, refl)

int-blank : (s : Text) → is_empty s ≡ true → int s ≡ none
unfolding int strip
int-blank [] h = refl
int-blank (c ∷ s) h = cc

resolve_max_warm-cases : (v : Value) → CeilingCases (ceiling_number v) (resolve_max_warm v)
unfolding resolve_max_warm
resolve_max_warm-cases (text t) = elim (Bool-cases (is_empty (strip t))) [
  | inl blank ↦ rw (blank, int-blank (strip t) blank) (inr (λ n e. cc, refl))
  | inr more ↦ rw more (usable_ceiling-cases (int (strip t)))
]
resolve_max_warm-cases null = inr (λ n e. cc, refl)
resolve_max_warm-cases (number n) = usable_ceiling-cases (some n)
resolve_max_warm-cases (flag b) = usable_ceiling-cases none
resolve_max_warm-cases other = usable_ceiling-cases none

-- After `configure` the ceiling is the configured number if that reads as a positive number, and
-- forty otherwise, so never zero.
pub max_warm-configure :
    (env : Option Text) (config : AppConfig)
    → CeilingCases (ceiling_number config.max_warm_containers) (max_warm (configure env config).0)
unfolding configure max_warm
max_warm-configure env config = resolve_max_warm-cases config.max_warm_containers
