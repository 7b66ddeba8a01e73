-- ===== src/IdentityToken/Due.antt =====
-- When `needs_refresh` (identity_token.py) asks for a new token.
use aw_app_agents_platform_r.Prelude.{
  ℕ, ◌+◌, ◌*◌, ◌≤◌, ◌<◌, ◌≡◌, refl, true, false, Option, none, some, arith, Bool-cases, inl, inr,
}
use aw_app_agents_platform_r.Prelude.Texts.{Text, is_empty}
use aw_app_agents_platform_r.IdentityToken.{
  Claims, decode_claims, is_due, due_claims, needs_refresh,
}

fresh_claims :
    (c : Claims) (now : ℕ)
    → is_due c now ≡ false
    → (c.iat < c.exp) × (now < c.exp) × (2 * now < c.iat + c.exp)
unfolding is_due
fresh_claims c now h = ground arith

stays_due : (c : Claims) (now later : ℕ) → now ≤ later → is_due c now ≡ true → is_due c later ≡ true
unfolding is_due
stays_due c now later h d = ground arith

fresh_decoded :
    (o : Option Claims) (now : ℕ)
    → due_claims o now ≡ false
    → (c : Claims) × (o ≡ some c) × (c.iat < c.exp) × (now < c.exp) × (2 * now < c.iat + c.exp)
unfolding due_claims
fresh_decoded none now h = cc
fresh_decoded (some c) now h = let (a, b, d) = fresh_claims c now h in (c, refl, a, b, d)

module _ (payload_claims : Text → Option Claims) where
  -- A token that is not due has three parts with readable claims, is not expired, and has not yet
  -- lived half of its lifetime.
  pub needs_refresh-fresh :
      (token : Option Text) (now : ℕ)
      → needs_refresh payload_claims token now ≡ false
      → (t : Text) × (c : Claims) × (token ≡ some t)
        × (decode_claims payload_claims t ≡ some c)
        × (c.iat < c.exp)
        × (now < c.exp)
        × (2 * now < c.iat + c.exp)
  unfolding needs_refresh
  needs_refresh-fresh none now h = cc
  needs_refresh-fresh (some t) now h = elim (Bool-cases (is_empty t)) [
    | inl blank ↦ cc (rw blank at h)
    | inr full ↦
        let (c, e, a, b, d) = fresh_decoded (decode_claims payload_claims t) now (rw full at h) in
        (t, c, refl, e, a, b, d)
  ]

  later_due :
      (o : Option Claims) (now later : ℕ)
      → now ≤ later
      → due_claims o now ≡ true
      → due_claims o later ≡ true
  unfolding due_claims
  later_due none now later le h = refl
  later_due (some c) now later le h = stays_due c now later le h

  -- A token that is due stays due: no later tick finds it fresh again.
  pub needs_refresh-later :
      (token : Option Text) (now later : ℕ)
      → now ≤ later
      → needs_refresh payload_claims token now ≡ true
      → needs_refresh payload_claims token later ≡ true
  unfolding needs_refresh
  needs_refresh-later none now later le h = refl
  needs_refresh-later (some t) now later le h = elim (Bool-cases (is_empty t)) [
    | inl blank ↦ rw blank refl
    | inr full ↦ rw full (later_due (decode_claims payload_claims t) now later le (rw full at h))
  ]
