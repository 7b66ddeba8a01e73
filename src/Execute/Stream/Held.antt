-- ===== src/Execute/Stream/Held.antt =====
-- execute.py: which lines of an attempt are held back, and which are published when
-- (`_stream_cold_attempt`).
use aw_app_agents_platform_r.Prelude.{
  ◌≡◌, refl, sym, ap, ◌∙◌, subst, Bool, true, false, ◌||◌, List, [], ◌∷◌, ◌++◌, if◌then◌else◌,
  Bool-cases, inl, inr,
}
use mathlib.Core.List.{append-nil, append_assoc}
use aw_app_agents_platform_r.Prelude.Texts.{Text}
use aw_app_agents_platform_r.Execute.Outside.{Outside}
use aw_app_agents_platform_r.Execute.Publish.{publish_line}
use aw_app_agents_platform_r.Execute.Stream.{
  is_blank, Kind, rate_limit_hit, rollout_hit, chatter, real, is_real, kind_of, publish_all,
  on_kind, StreamState, handle_line, handle_lines,
}

abbrev pub is_rollout_hit : Kind → Bool
is_rollout_hit rollout_hit = true
is_rollout_hit _ = false

abbrev pub is_rate_limit_hit : Kind → Bool
is_rate_limit_hit rate_limit_hit = true
is_rate_limit_hit _ = false

-- The lines that are not blank.
abbrev pub kept : List Text → List Text
kept [] = []
kept (l ∷ ls) = if is_blank l then kept ls else l ∷ kept ls

or_true : (b : Bool) → (b || true) ≡ true
or_true true = refl
or_true false = refl

or_false : (b : Bool) → (b || false) ≡ b
or_false true = refl
or_false false = refl

module _ (O : Outside) (cr : Bool) (r : Text) where
  -- A line of a kind is among them.
  abbrev pub has : (Kind → Bool) → List Text → Bool
  has p [] = false
  has p (l ∷ ls) = if p (kind_of O cr l) then true else has p ls

  pub publish_all-append :
      (xs ys : List Text) (w : O.World)
      → publish_all O r (xs ++ ys) w ≡ publish_all O r ys (publish_all O r xs w)
  unfolding publish_all
  publish_all-append [] ys w = refl
  publish_all-append (x ∷ xs) ys w = publish_all-append xs ys (publish_line O r x w)

  handle_lines-live :
      (ls : List Text) (s : StreamState O.World)
      → s.live ≡ true
      → handle_lines O cr r ls s ≡ record s { shown = publish_all O r (kept ls) s.shown }
  unfolding handle_lines handle_line publish_all
  handle_lines-live [] s on = refl
  handle_lines-live (l ∷ ls) s on = elim (Bool-cases (is_blank l)) [
    | inl blank ↦ rw blank (handle_lines-live ls s on)
    | inr full ↦ rw full (
        ap
          (λ b. handle_lines O cr r ls (
            if b
            then record s { shown = publish_line O r l s.shown }
            else on_kind O r (kind_of O cr l) l s))
          on
        ∙ handle_lines-live ls (record s { shown = publish_line O r l s.shown }) on)
  ]

  -- An attempt that was not live, behind lines: it is live, and has published all that it held with
  -- them, or it holds them too.
  abbrev pub Behind : Bool → List Text → StreamState O.World → StreamState O.World → Type 0
  Behind true ls s t =
      (t.live ≡ true)
      × (t.buffered_lines ≡ [])
      × (t.shown ≡ publish_all O r (s.buffered_lines ++ ls) s.shown)
  Behind false ls s t =
      (t.live ≡ false)
      × (t.buffered_lines ≡ s.buffered_lines ++ ls)
      × (t.shown ≡ s.shown)
      × (t.saw_rollout_signature ≡ (s.saw_rollout_signature || has is_rollout_hit ls))
      × (t.saw_rate_limit_signature ≡ (s.saw_rate_limit_signature || has is_rate_limit_hit ls))

  -- A line more that is held.
  Behind-held :
      (b : Bool) (l : Text) (ls : List Text) (s t : StreamState O.World) (rollout rate : Bool)
      → (if is_rollout_hit (kind_of O cr l) then true else s.saw_rollout_signature) ≡ rollout
      → (if is_rate_limit_hit (kind_of O cr l) then true else s.saw_rate_limit_signature) ≡ rate
      → Behind b ls
          (record s {
            buffered_lines = s.buffered_lines ++ l ∷ [];
            saw_rollout_signature = rollout;
            saw_rate_limit_signature = rate;
          })
          t
      → Behind b (l ∷ ls) s t
  Behind-held true l ls s t rollout rate e f h = (
    h.0,
    h.1,
    h.2 ∙ ap (λ x. publish_all O r x s.shown) (append_assoc s.buffered_lines (l ∷ []) ls),
  )
  Behind-held false l ls s t rollout rate e f h = (
    h.0,
    h.1 ∙ append_assoc s.buffered_lines (l ∷ []) ls,
    h.2,
    h.3 ∙ more is_rollout_hit s.saw_rollout_signature rollout e,
    h.4 ∙ more is_rate_limit_hit s.saw_rate_limit_signature rate f,
  )
    where
      more :
          (p : Kind → Bool) (before now : Bool)
          → (if p (kind_of O cr l) then true else before) ≡ now
          → (now || has p ls) ≡ (before || has p (l ∷ ls))
      more p before now h = elim (Bool-cases (p (kind_of O cr l))) [
        | inl hit ↦ rw (hit, sym (rw hit at h)) (sym (or_true before))
        | inr other ↦ rw (other, sym (rw other at h)) refl
      ]

  handle_lines-real :
      (l : Text) (ls : List Text) (s : StreamState O.World)
      → Behind true (l ∷ kept ls) s (handle_lines O cr r ls (on_kind O r real l s))
  unfolding on_kind publish_all
  handle_lines-real l ls s =
      let t = on_kind O r real l s in
      let e = handle_lines-live ls t refl in
      (
        ap (λ u. u.live) e,
        ap (λ u. u.buffered_lines) e,
        ap (λ u. u.shown) e ∙ sym (publish_all-append s.buffered_lines (l ∷ kept ls) s.shown),
      )

  pub handle_lines-Behind :
      (ls : List Text) (s : StreamState O.World)
      → s.live ≡ false
      → Behind (has is_real (kept ls)) (kept ls) s (handle_lines O cr r ls s)
  unfolding handle_lines handle_line on_kind
  handle_lines-Behind [] s off = (
    off,
    sym (append-nil s.buffered_lines),
    refl,
    sym (or_false s.saw_rollout_signature),
    sym (or_false s.saw_rate_limit_signature),
  )
  handle_lines-Behind (l ∷ ls) s off = elim (Bool-cases (is_blank l)) [
    | inl blank ↦ rw blank (handle_lines-Behind ls s off)
    | inr full ↦ rw full (
        subst
          (λ b.
            Behind (if is_real (kind_of O cr l) then true else has is_real (kept ls)) (l ∷ kept ls)
              s
              (handle_lines O cr r ls (
                if b
                then record s { shown = publish_line O r l s.shown }
                else on_kind O r (kind_of O cr l) l s)))
          (sym off) (by_kind (kind_of O cr l) refl (λ t. handle_lines-Behind ls t)))
  ]
    where
      by_kind :
          (k : Kind)
          → kind_of O cr l ≡ k
          → ((t : StreamState O.World)
              → t.live ≡ false
              → Behind (has is_real (kept ls)) (kept ls) t (handle_lines O cr r ls t))
          → Behind
              (if is_real k then true else has is_real (kept ls))
              (l ∷ kept ls)
              s
              (handle_lines O cr r ls (on_kind O r k l s))
      by_kind rate_limit_hit e ih =
          Behind-held (has is_real (kept ls)) l (kept ls) s
            (handle_lines O cr r ls (on_kind O r rate_limit_hit l s)) s.saw_rollout_signature true
            (rw e refl) (rw e refl) (ih (on_kind O r rate_limit_hit l s) off)
      by_kind rollout_hit e ih =
          Behind-held (has is_real (kept ls)) l (kept ls) s
            (handle_lines O cr r ls (on_kind O r rollout_hit l s)) true s.saw_rate_limit_signature
            (rw e refl) (rw e refl) (ih (on_kind O r rollout_hit l s) off)
      by_kind chatter e ih =
          Behind-held (has is_real (kept ls)) l (kept ls) s
            (handle_lines O cr r ls (on_kind O r chatter l s)) s.saw_rollout_signature
            s.saw_rate_limit_signature (rw e refl) (rw e refl) (ih (on_kind O r chatter l s) off)
      by_kind real e ih = handle_lines-real l ls s
