-- ===== src/IdentityToken/Tests.antt =====
-- The theorems on identity_token.py at concrete inputs.
use aw_app_agents_platform_r.Prelude.{ℕ, ◌≡◌, refl, Option, none, some, []}
use aw_app_agents_platform_r.Prelude.Texts.{Text, codes}
use aw_app_agents_platform_r.IdentityToken.{
  Claims, needs_refresh, not_object, object, answered, Host, raises, refresh, mint_and_persist,
  after_mint, mint_reply, mint_body, any_empty, finish_refresh,
}
use aw_app_agents_platform_r.IdentityToken.Hops.{recorded, Refreshed, refresh-Refreshed}

-- A token of an hour, in seconds.
abbrev hour : Text → Option Claims
hour t = some (record { iat = 1000; exp = 4600 })

-- A backend that answers 200 with the list `[]`.
abbrev odd : Host
odd = record {
  World = ℕ;
  post = λ r w. (w, answered 200 not_object);
  env = λ name. codes "x";
  platform_base = codes "http://p";
}

abbrev good : Host
good = record odd { post = λ r w. (w, answered 200 (object (some (codes "a.b.c")))) }

-- The answer raises past `refresh`.
escapes : (refresh odd hour none 0 7).1 ≡ raises
unfolding refresh needs_refresh finish_refresh mint_and_persist after_mint mint_reply mint_body
    any_empty
escapes = refl

refresh-Refreshed_example :
    let r = refresh (recorded good) hour none 0 (7, []) in Refreshed none r.1 r.0.1
refresh-Refreshed_example = refresh-Refreshed good hour none 0 7
