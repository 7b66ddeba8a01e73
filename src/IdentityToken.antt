-- ===== src/IdentityToken.antt =====
-- identity_token.py: when the identity token is refreshed, and the three hops of `refresh`. The HTTP
-- client and the workspace's environment are the fields of `Host`; what `json` and `base64` read in
-- the middle part of a token is a parameter. Times are whole numbers of one unit.
pub mod Due
pub mod Hops
mod Tests
use aw_app_agents_platform_r.Prelude.{
  ℕ, zero, suc, ◌+◌, ◌*◌, ◌-◌, Bool, true, false, not, ◌||◌, Option, none, some, List, [], ◌∷◌,
  ◌++◌, if◌then◌else◌, leb, ◌==◌,
}
use mathlib.Core.List.{reverse}
use aw_app_agents_platform_r.Prelude.Texts.{Text, codes, is_empty, strip}
use aw_app_agents_platform_r.ExecutionIndex.Targets.{rstrip_slash}

pub record Claims : Type 0 where
  pub iat : ℕ
  pub exp : ℕ

cons_part : ℕ → List Text → List Text
cons_part c [] = (c ∷ []) ∷ []
cons_part c (p ∷ ps) = (c ∷ p) ∷ ps

-- `token.split(".")`
split_dots : Text → List Text
unfolding cons_part
split_dots [] = [] ∷ []
split_dots (c ∷ s) = let rest = split_dots s in if c == b'.' then [] ∷ rest else cons_part c rest

middle : (Text → Option Claims) → List Text → Option Claims
middle payload_claims (a ∷ b ∷ c ∷ []) = payload_claims b
middle payload_claims _ = none

-- `_decode_claims`
pub decode_claims : (Text → Option Claims) → Text → Option Claims
unfolding split_dots middle
decode_claims payload_claims token = middle payload_claims (split_dots token)

-- `needs_refresh` of claims that were read; the half of a lifetime is compared without a division.
pub is_due : Claims → ℕ → Bool
is_due c now =
    if leb c.exp now || leb c.exp c.iat then true else leb (c.exp - c.iat) (2 * (now - c.iat))

due_claims : Option Claims → ℕ → Bool
unfolding is_due
due_claims none now = true
due_claims (some c) now = is_due c now

-- `needs_refresh`
pub needs_refresh : (Text → Option Claims) → Option Text → ℕ → Bool
unfolding due_claims
needs_refresh payload_claims none now = true
needs_refresh payload_claims (some token) now =
    if is_empty token then true else due_claims (decode_claims payload_claims token) now

-- The body of an answer: no JSON, JSON that is no object, or an object by its field `token`.
pub data Body : Type 0 where
  not_json not_object : Body
  object : Option Text → Body

-- A POST: an `httpx.HTTPError`, another exception, or an answer.
pub data Reply : Type 0 where
  unreachable crashed : Reply
  answered : ℕ → Body → Reply

-- The three requests, by what they carry.
pub data Request : Type 0 where
  mints : Text → Text → Request
  persists : Text → Text → Text → Request
  pushes : Text → Text → Text → Request

pub record Host : Type 1 where
  pub World : Type 0
  pub post : Request → World → World × Reply
  pub env : Text → Text
  pub platform_base : Text

-- What a hop or `refresh` does: it raises, or it returns a text or None.
pub data Outcome : Type 0 where
  raises : Outcome
  returns : Option Text → Outcome

-- `if not token: … return None`
token_or_none : Option Text → Option Text
token_or_none none = none
token_or_none (some t) = if is_empty t then none else some t

mint_body : Body → Outcome
unfolding token_or_none
mint_body not_json = returns none
mint_body not_object = raises
mint_body (object t) = returns (token_or_none t)

mint_reply : Reply → Outcome
unfolding mint_body
mint_reply unreachable = returns none
mint_reply crashed = raises
mint_reply (answered code body) = if leb 400 code then returns none else mint_body body

persist_reply : Text → Reply → Outcome
persist_reply token unreachable = returns none
persist_reply token crashed = raises
persist_reply token (answered code body) =
    if leb 400 code then returns none else returns (some token)

any_empty : List Text → Bool
any_empty [] = false
any_empty (t ∷ ts) = is_empty t || any_empty ts

module _ (H : Host) where
  open H use {World, post, env, platform_base}

  mint_url : Text
  mint_url =
      rstrip_slash (env (codes "AW_BACKEND_URL"))
      ++ codes "/api/workspaces/"
      ++ env (codes "AW_WORKSPACE")
      ++ codes "/identity-token"

  config_url : Text
  config_url =
      rstrip_slash (env (codes "AW_WORKSPACE_API_URL"))
      ++ codes "/api/apps/agents-platform-runners/config"

  push_url : Text
  push_url = rstrip_slash platform_base ++ codes "/api/runners/skills-token"

  -- `_persist`, behind the test of its two settings; `none` is its failure.
  persist : Text → World → World × Outcome
  unfolding persist_reply any_empty config_url
  persist token w =
      let (w1, reply) = post (persists config_url (env (codes "AW_WORKSPACE_API_KEY")) token) w in
      if any_empty (env (codes "AW_WORKSPACE_API_URL") ∷ env (codes "AW_WORKSPACE_API_KEY") ∷ [])
      then (w, returns none)
      else (w1, persist_reply token reply)

  after_mint : Outcome → World → World × Outcome
  unfolding persist
  after_mint raises w = (w, raises)
  after_mint (returns none) w = (w, returns none)
  after_mint (returns (some token)) w = persist token w

  -- `_mint_and_persist`
  pub mint_and_persist : World → World × Outcome
  unfolding after_mint mint_reply any_empty mint_url
  mint_and_persist w =
      let (w1, reply) = post (mints mint_url (env (codes "AW_WORKSPACE_HOST_TOKEN"))) w in
      if any_empty (
        env (codes "AW_BACKEND_URL")
        ∷ env (codes "AW_WORKSPACE")
        ∷ env (codes "AW_WORKSPACE_HOST_TOKEN")
        ∷ [])
      then (w, returns none)
      else after_mint (mint_reply reply) w1

  -- `push_skills_token`, with what it raises caught as `refresh` does; its answer is not read.
  pub push_skills_token : Option Text → World → World
  unfolding push_url
  push_skills_token none w = w
  push_skills_token (some token) w =
      let (w1, reply) = post (pushes push_url (strip (env (codes "AW_WORKSPACE"))) token) w in
      if is_empty token then w else w1

  -- `minted or current`
  either : Option Text → Option Text → Option Text
  either none current = current
  either (some t) current = if is_empty t then current else some t

  finish_refresh : Option Text → World × Outcome → World × Outcome
  unfolding push_skills_token either
  finish_refresh current (w, raises) = (w, raises)
  finish_refresh current (w, returns minted) =
      (push_skills_token (either minted current) w, returns minted)

  -- `refresh`, at a time.
  pub refresh : (Text → Option Claims) → Option Text → ℕ → World → World × Outcome
  unfolding finish_refresh
  refresh payload_claims current now w =
      finish_refresh current
        (if needs_refresh payload_claims current now then mint_and_persist w else (w, returns none))
