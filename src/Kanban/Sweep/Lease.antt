-- ===== src/Kanban/Sweep/Lease.antt =====
-- kanban_dispatch.py: what the lease of `claim_card` promises, when the calls of several dispatchers
-- on one card interleave. The card's property is a cell that the writes fill and the reads return.
use aw_app_agents_platform_r.Prelude.{
  ◌≡◌, refl, sym, ap, subst, ◌∙◌, false, Option, some, List, [], ◌∷◌, ◌++◌, map, Bool-cases, inl,
  inr, All,
}
use aw_app_agents_platform_r.Prelude.Texts.{Text, text_eq_refl, text_eq→eq, is_empty, strip}
use aw_app_agents_platform_r.Kanban.Card.{Field, text, get_or}
use aw_app_agents_platform_r.Kanban.Sweep.{
  Called, value, unavailable, raised, Api, holds, after_read, after_write, claim_token, claim_card,
  token_for,
}

-- The property of a page: a read that answers gives it, a read does not change it, and a write that
-- answers sets it.
pub record Cell (A : Api) (page : Text) : Type 0 where
  pub cell : A.World → Field
  pub read_value : (w : A.World) (f : Field) → (A.read_run_id page w).1 ≡ value f → f ≡ cell w
  pub after_reading : (w : A.World) → cell (A.read_run_id page w).0 ≡ cell w
  pub after_writing :
      (t : Text) (w : A.World) (u : Unit {0})
      → (A.set_run_id page t w).1 ≡ value u
      → cell (A.set_run_id page t w).0 ≡ text t

-- The calls on the page answer.
pub record Answering (A : Api) (page : Text) : Type 0 where
  pub write_answers : (t : Text) (w : A.World) → (A.set_run_id page t w).1 ≡ value tt
  pub read_answers : (w : A.World) → (f : Field) × ((A.read_run_id page w).1 ≡ value f)

-- A half of a claim, by the token of its dispatcher.
pub data Half : Type 0 where
  writes : Text → Half
  reads : Text → Half

abbrev if_won : Called (Option Text) → List Text → List Text
if_won (value (some t)) ts = t ∷ ts
if_won _ ts = ts

module _ (A : Api) (page : Text) where
  -- The tokens whose dispatchers go on to fire, when halves of claims run in an order.
  pub winners : List Half → A.World → List Text
  unfolding after_read
  winners [] w = []
  winners (writes t ∷ hs) w = winners hs (A.set_run_id page t w).0
  winners (reads t ∷ hs) w =
      let rest = winners hs (A.read_run_id page w).0 in
      if_won (after_read A t (A.read_run_id page w).1) rest

  module _ (C : Cell A page) where
    -- A reader wins only with the token that the cell holds.
    won_by :
        (t : Text) (r : Called Field) (f : Field) (ts : List Text)
        → ((g : Field) → r ≡ value g → g ≡ f)
        → All (λ u. u ≡ strip (get_or f [])) ts
        → All (λ u. u ≡ strip (get_or f [])) (if_won (after_read A t r) ts)
    unfolding after_read holds
    won_by t (value g) f ts same all = elim (Bool-cases (holds g t)) [
      | inl own ↦
          rw own (sym (text_eq→eq _ _ own) ∙ ap (λ h. strip (get_or h [])) (same g refl), all)
      | inr other ↦ rw other all
    ]
    won_by t (unavailable e) f ts same all = all
    won_by t (raised e) f ts same all = all

    readers :
        (rs : List Text) (w : A.World)
        → All (λ u. u ≡ strip (get_or (C.cell w) [])) (winners (map reads rs) w)
    unfolding winners
    readers [] w = tt
    readers (t ∷ rs) w = won_by t (A.read_run_id page w).1 (C.cell w) _ (C.read_value w) (
        subst
          (λ f.
            All (λ u. u ≡ strip (get_or f [])) (winners (map reads rs) (A.read_run_id page w).0))
          (C.after_reading w) (readers rs (A.read_run_id page w).0))

    -- When every write of the dispatchers stands before every read, all that win have one token.
    pub winners-agree :
        (ws rs : List Text) (w : A.World)
        → (holder : Text) × All (λ u. u ≡ holder) (winners (map writes ws ++ map reads rs) w)
    unfolding winners
    winners-agree [] rs w = (strip (get_or (C.cell w) []), readers rs w)
    winners-agree (t ∷ ws) rs w = winners-agree ws rs (A.set_run_id page t w).0

    claim_card-takes_over :
        (side t : Text) (w : A.World)
        → Answering A page
        → strip t ≡ t
        → is_empty t ≡ false
        → (claim_card A page side (some t) w).1 ≡ value (some t)
    unfolding claim_card claim_token token_for after_write after_read holds
    claim_card-takes_over side t w ans trimmed full =
        let v = (A.set_run_id page t w).0 in
        let (f, reads_f) = ans.read_answers v in
        let held : f ≡ text t =
          C.read_value v f reads_f ∙ C.after_writing t w tt (ans.write_answers t w) in
        rw (full, ans.write_answers t w) (proceeds v f reads_f held)
      where
        proceeds :
            (v : A.World) (f : Field)
            → (A.read_run_id page v).1 ≡ value f
            → f ≡ text t
            → (after_write A page t (value tt) v).1 ≡ value (some t)
        proceeds v f answered held = rw (answered, held, full, trimmed, text_eq_refl) refl

    -- A claim that runs as a whole wins, whatever the property holds: of two dispatchers on a card, of
    -- which the second claims behind the first one's read, both go on to fire.
    pub claim_card-both_win :
        (side1 side2 a b : Text) (w : A.World)
        → Answering A page
        → (strip a ≡ a) × (is_empty a ≡ false)
        → (strip b ≡ b) × (is_empty b ≡ false)
        → let first = claim_card A page side1 (some a) w in
          (first.1 ≡ value (some a))
          × ((claim_card A page side2 (some b) first.0).1 ≡ value (some b))
    claim_card-both_win side1 side2 a b w ans (ta, fa) (tb, fb) = (
      claim_card-takes_over side1 a w ans ta fa,
      claim_card-takes_over side2 b (claim_card A page side1 (some a) w).0 ans tb fb,
    )
