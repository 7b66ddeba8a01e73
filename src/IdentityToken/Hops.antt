-- ===== src/IdentityToken/Hops.antt =====
-- The requests that `refresh` (identity_token.py) makes, and what it answers.
use aw_app_agents_platform_r.Prelude.{
  ℕ, ◌≡◌, refl, sym, ◌∙◌, Bool, false, not, Option, none, some, List, [], ◌∷◌, ◌++◌, if◌then◌else◌,
  leb, Bool-cases, inl, inr,
}
use mathlib.Core.List.{append-nil}
use aw_app_agents_platform_r.Prelude.Texts.{Text, codes, is_empty}
use aw_app_agents_platform_r.IdentityToken.{
  Claims, needs_refresh, Body, not_json, not_object, object, Reply, unreachable, crashed, answered,
  Request, mints, persists, pushes, Host, Outcome, raises, returns, token_or_none, mint_body,
  mint_reply, persist_reply, any_empty, persist, after_mint, mint_and_persist, push_skills_token,
  either, finish_refresh, refresh, mint_url, config_url,
}

abbrev pub Log : Type 0
Log = List (Request × Reply)

-- The same host, which keeps the requests with their answers.
abbrev pub recorded : Host → Host
recorded H = record {
  World = H.World × Log;
  post = λ r w. let (w1, reply) = H.post r w.0 in ((w1, w.1 ++ ((r, reply) ∷ [])), reply);
  env = H.env;
  platform_base = H.platform_base;
}

abbrev accepted : Reply → Bool
accepted (answered code body) = not (leb 400 code)
accepted _ = false

-- The tokens whose saving as the app's config was accepted, in order.
abbrev pub saved : Log → List Text
saved [] = []
saved ((persists url key token, reply) ∷ log) =
    if accepted reply then token ∷ saved log else saved log
saved (x ∷ log) = saved log

-- The tokens that were pushed to the platform, in order.
abbrev pub pushed : Log → List Text
pushed [] = []
pushed ((pushes url workspace token, reply) ∷ log) = token ∷ pushed log
pushed (x ∷ log) = pushed log

-- A token that is not blank.
abbrev pub held : Option Text → List Text
held none = []
held (some t) = if is_empty t then [] else t ∷ []

abbrev pub Refreshed : Option Text → Outcome → Log → Type 0
Refreshed current (returns (some t)) log = (saved log ≡ t ∷ []) × (pushed log ≡ t ∷ [])
Refreshed current (returns none) log = (saved log ≡ []) × (pushed log ≡ held current)
Refreshed current raises log = (saved log ≡ []) × (pushed log ≡ [])

-- The same before the push.
abbrev Minted : Outcome → Log → Type 0
Minted (returns (some t)) log = (saved log ≡ t ∷ []) × (pushed log ≡ []) × (is_empty t ≡ false)
Minted (returns none) log = (saved log ≡ []) × (pushed log ≡ [])
Minted raises log = (saved log ≡ []) × (pushed log ≡ [])

abbrev FullToken : Outcome → Type 0
FullToken (returns (some t)) = is_empty t ≡ false
FullToken _ = Unit

token_or_none-FullToken : (o : Option Text) → FullToken (returns (token_or_none o))
unfolding token_or_none
token_or_none-FullToken none = tt
token_or_none-FullToken (some t) = elim (Bool-cases (is_empty t)) [
  | inl blank ↦ rw blank tt
  | inr full ↦ rw full full
]

mint_body-FullToken : (b : Body) → FullToken (mint_body b)
unfolding mint_body
mint_body-FullToken not_json = tt
mint_body-FullToken not_object = tt
mint_body-FullToken (object t) = token_or_none-FullToken t

mint_reply-FullToken : (r : Reply) → FullToken (mint_reply r)
unfolding mint_reply
mint_reply-FullToken unreachable = tt
mint_reply-FullToken crashed = tt
mint_reply-FullToken (answered code body) = elim (Bool-cases (leb 400 code)) [
  | inl bad ↦ rw bad tt
  | inr fine ↦ rw fine (mint_body-FullToken body)
]

-- A log with the tokens saved and pushed, behind one more push.
snoc-push :
    (log : Log) (url workspace token : Text) (reply : Reply)
    → (saved (log ++ ((pushes url workspace token, reply) ∷ [])) ≡ saved log)
      × (pushed (log ++ ((pushes url workspace token, reply) ∷ [])) ≡ pushed log ++ (token ∷ []))
snoc-push [] url workspace token reply = (refl, refl)
snoc-push ((mints u a, r) ∷ log) url workspace token reply = snoc-push log url workspace token reply
snoc-push ((persists u k t, r) ∷ log) url workspace token reply =
    let (s, p) = snoc-push log url workspace token reply in
    (elim (Bool-cases (accepted r)) [ inl e ↦ rw (e, s) refl | inr e ↦ rw (e, s) refl ], p)
snoc-push ((pushes u k t, r) ∷ log) url workspace token reply =
    let (s, p) = snoc-push log url workspace token reply in (s, rw p refl)

module _ (H : Host) where
  abbrev R : Host
  R = recorded H

  persist_reply-Minted :
      (token url key u a : Text) (r m : Reply)
      → is_empty token ≡ false
      → Minted (persist_reply token r) ((mints u a, m) ∷ (persists url key token, r) ∷ [])
  unfolding persist_reply
  persist_reply-Minted token url key u a unreachable m full = (refl, refl)
  persist_reply-Minted token url key u a crashed m full = (refl, refl)
  persist_reply-Minted token url key u a (answered code body) m full =
      elim (Bool-cases (leb 400 code)) [
        | inl bad ↦ rw bad (rw bad refl, refl)
        | inr fine ↦ rw fine (rw fine refl, refl, full)
      ]

  persist-Minted :
      (token u a : Text) (m : Reply) (w : H.World)
      → is_empty token ≡ false
      → let r = persist R token (w, (mints u a, m) ∷ []) in Minted r.1 r.0.1
  unfolding persist
  persist-Minted token u a m w full =
      elim (Bool-cases (
        any_empty
          (H.env (codes "AW_WORKSPACE_API_URL") ∷ H.env (codes "AW_WORKSPACE_API_KEY") ∷ []))) [
            | inl unset ↦ rw unset (refl, refl)
            | inr set ↦ rw set (
                persist_reply-Minted token (config_url R) (H.env (codes "AW_WORKSPACE_API_KEY")) u a
                  (H.post (persists (config_url R) (H.env (codes "AW_WORKSPACE_API_KEY")) token)
                    w).1
                  m full)
          ]

  after_mint-Minted :
      (o : Outcome) (u a : Text) (m : Reply) (w : H.World)
      → FullToken o
      → let r = after_mint R o (w, (mints u a, m) ∷ []) in Minted r.1 r.0.1
  unfolding after_mint
  after_mint-Minted raises u a m w full = (refl, refl)
  after_mint-Minted (returns none) u a m w full = (refl, refl)
  after_mint-Minted (returns (some t)) u a m w full = persist-Minted t u a m w full

  mint_and_persist-Minted : (w : H.World) → let r = mint_and_persist R (w, []) in Minted r.1 r.0.1
  unfolding mint_and_persist
  mint_and_persist-Minted w =
      elim (Bool-cases (
        any_empty (
          H.env (codes "AW_BACKEND_URL")
          ∷ H.env (codes "AW_WORKSPACE")
          ∷ H.env (codes "AW_WORKSPACE_HOST_TOKEN")
          ∷ []))) [
            | inl unset ↦ rw unset (refl, refl)
            | inr set ↦
                let (w1, reply) =
                  H.post (mints (mint_url R) (H.env (codes "AW_WORKSPACE_HOST_TOKEN"))) w in
                rw set (
                  after_mint-Minted (mint_reply reply) (mint_url R)
                    (H.env (codes "AW_WORKSPACE_HOST_TOKEN")) reply w1 (mint_reply-FullToken reply))
          ]

  push-pushed :
      (o : Option Text) (w : R.World)
      → (saved (push_skills_token R o w).1 ≡ saved w.1)
        × (pushed (push_skills_token R o w).1 ≡ pushed w.1 ++ held o)
  unfolding push_skills_token
  push-pushed none w = (refl, sym (append-nil (pushed w.1)))
  push-pushed (some t) w = elim (Bool-cases (is_empty t)) [
    | inl blank ↦ rw blank (refl, sym (append-nil (pushed w.1)))
    | inr full ↦ rw full (snoc-push w.1 _ _ t _)
  ]

  finish_refresh-Refreshed :
      (current : Option Text) (o : Outcome) (w : R.World)
      → Minted o w.1
      → let r = finish_refresh R current (w, o) in Refreshed current r.1 r.0.1
  unfolding finish_refresh either
  finish_refresh-Refreshed current raises w m = m
  finish_refresh-Refreshed current (returns none) w (s, p) =
      let (ps, pp) = push-pushed current w in (ps ∙ s, pp ∙ rw p refl)
  finish_refresh-Refreshed current (returns (some t)) w (s, p, full) =
      let (ps, pp) = push-pushed (some t) w in rw full (ps ∙ s, pp ∙ rw (p, full) refl)

  -- Whatever the three services answer: a new token is returned only when its saving was accepted,
  -- and it alone was saved and it alone is pushed; when none is returned, nothing was saved, and the
  -- token that the config holds is pushed, unless it is blank. Where `refresh` raises, nothing was
  -- saved and nothing is pushed.
  pub refresh-Refreshed :
      (payload_claims : Text → Option Claims) (current : Option Text) (now : ℕ) (w : H.World)
      → let r = refresh R payload_claims current now (w, []) in Refreshed current r.1 r.0.1
  unfolding refresh
  refresh-Refreshed payload_claims current now w =
      elim (Bool-cases (needs_refresh payload_claims current now)) [
        | inl due ↦
            let r = mint_and_persist R (w, []) in
            rw due (finish_refresh-Refreshed current r.1 r.0 (mint_and_persist-Minted w))
        | inr fresh ↦
            rw fresh (finish_refresh-Refreshed current (returns none) (w, []) (refl, refl))
      ]
