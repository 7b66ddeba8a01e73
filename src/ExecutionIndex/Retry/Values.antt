-- ===== src/ExecutionIndex/Retry/Values.antt =====
-- The values of the retry queue (execution_index.py): "<attempts>:<reason>".
use aw_app_agents_platform_r.Prelude.{
  ℕ, suc, ◌≡◌, ◌≢◌, refl, ap, ◌∙◌, false, some, [], ◌∷◌, ◌++◌, if◌then◌else◌, ◌==◌, leb, pos, arith,
  All,
}
use aw_app_agents_platform_r.Prelude.Texts.{Text, is_empty}
use aw_app_agents_platform_r.Prelude.Decimal.{IsDigit, str, str-IsDigit, str-ne-nil, int, int-str}
use aw_app_agents_platform_r.ExecutionIndex.Retry.{
  before_colon, after_colon, entry, attempts_of, Attempt, exhausted, requeued, fate, is_gated,
  retry_max_attempts,
}

colon-digits :
    (s r : Text)
    → All IsDigit s
    → (before_colon (s ++ (b':' ∷ r)) ≡ s) × (after_colon (s ++ (b':' ∷ r)) ≡ r)
unfolding before_colon after_colon
colon-digits [] r h = (refl, refl)
colon-digits (c ∷ s) r h =
    let (before, after) = colon-digits s r h.1 in
    let digit : (c == b':') ≡ false = is_no_colon c h.0 in (rw (digit, before), rw (digit, after))
  where
    is_no_colon : (d : ℕ) → IsDigit d → (d == b':') ≡ false
    is_no_colon d h = ground arith

attempts_of-str : (n : ℕ) → attempts_of (str n) ≡ some (pos n)
unfolding attempts_of
attempts_of-str n = whole (str n) (str-ne-nil n) ∙ int-str n
  where
    whole : (s : Text) → s ≢ [] → (if is_empty s then some (pos 0) else int s) ≡ int s
    whole [] h = absurd (h refl)
    whole (c ∷ s) h = refl

-- What the sweep and the snapshot read of a value that was written.
pub entry-parts :
    (n : ℕ) (reason : Text)
    → (attempts_of (before_colon (entry (pos n) reason)) ≡ some (pos n))
      × (after_colon (entry (pos n) reason) ≡ reason)
unfolding entry
entry-parts n reason =
    let (before, after) = colon-digits (str n) reason (str-IsDigit n) in
    (ap attempts_of before ∙ attempts_of-str n, after)

-- A value that was written with `n` attempts and a reason, colons in it or not, is read back as both,
-- so a further failure keeps the first reason: it is queued again with one attempt more, or given up
-- when that is the 24th.
pub fate-entry :
    (a : Attempt) (n : ℕ) (reason : Text)
    → a.ok ≡ false
    → is_gated a.reasons ≡ false
    → fate a (entry (pos n) reason) ≡ (
        if leb retry_max_attempts (suc n) then exhausted else requeued (entry (pos (suc n)) reason))
unfolding fate entry
fate-entry a n reason failed kept =
    let (before, after) = colon-digits (str n) reason (str-IsDigit n) in
    rw (failed, kept, before, after, attempts_of-str) refl
