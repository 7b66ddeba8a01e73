-- ===== src/IndexStore/Keys.antt =====
-- The primary key of a chunk (exec_index_store.py): two chunks with the same key are the same chunk of the
-- same run.
use aw_app_agents_platform_r.Prelude.{
  ℕ, ◌≡◌, refl, sym, ap, ◌∙◌, none, some, [], ◌∷◌, ◌++◌, length, length-append, All, arith, pos,
}
use aw_app_agents_platform_r.Prelude.Texts.{Text, after_last, after_last-append, starts_with}
use aw_app_agents_platform_r.Prelude.Decimal.{str, str-IsDigit, IsDigit, int, int-str}
use aw_app_agents_platform_r.IndexStore.{chunk_key}

append_cancel_right : (s t x : Text) → s ++ x ≡ t ++ x → s ≡ t
append_cancel_right [] [] x e = refl
append_cancel_right [] (d ∷ t) x e = absurd (omega (arith, ap length e, length-append t x))
append_cancel_right (c ∷ s) [] x e = absurd (omega (arith, ap length e, length-append s x))
append_cancel_right (c ∷ s) (d ∷ t) x e =
    let rest : s ++ x ≡ t ++ x = cc e in
    let first : c ≡ d = cc e in cc (first, append_cancel_right s t x rest)

colon : Text
colon = b':' ∷ []

after_last-no_colon : (s : Text) → All IsDigit s → after_last colon s ≡ none
unfolding after_last starts_with colon
after_last-no_colon [] h = refl
after_last-no_colon (c ∷ s) h = rw (after_last-no_colon s h.1) (ground arith)

after_last-colon : (s : Text) → All IsDigit s → after_last colon (b':' ∷ s) ≡ some s
unfolding after_last starts_with colon
after_last-colon [] h = refl
after_last-colon (c ∷ s) h = rw (after_last-no_colon (c ∷ s) h) (ground arith)

after_last-chunk_key : (r : Text) (s : ℕ) → after_last colon (chunk_key r s) ≡ some (str s)
unfolding chunk_key
after_last-chunk_key r s =
    after_last-append colon r (b':' ∷ str s) (str s) (after_last-colon (str s) (str-IsDigit s))

-- The key tells the run and the number.
pub chunk_key-injective :
    (r1 r2 : Text) (s1 s2 : ℕ) → chunk_key r1 s1 ≡ chunk_key r2 s2 → (r1 ≡ r2) × (s1 ≡ s2)
unfolding chunk_key
chunk_key-injective r1 r2 s1 s2 e =
    let tails : some (str s1) ≡ some (str s2) =
      sym (after_last-chunk_key r1 s1) ∙ (ap (after_last colon) e ∙ after_last-chunk_key r2 s2) in
    let digits : str s1 ≡ str s2 = cc tails in
    let numbers : some (pos s1) ≡ some (pos s2) = sym (int-str s1) ∙ (ap int digits ∙ int-str s2) in
    let same : pos s1 ≡ pos s2 = cc numbers in
    (append_cancel_right r1 r2 (b':' ∷ str s2) (ap (λ d. r1 ++ b':' ∷ d) (sym digits) ∙ e), cc same)
