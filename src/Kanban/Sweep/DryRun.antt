-- ===== src/Kanban/Sweep/DryRun.antt =====
-- kanban_dispatch.py: what a dry run of `sweep_ready` says of the run that is not dry.
use aw_app_agents_platform_r.Prelude.{
  ◌≡◌, refl, sym, true, false, Option, none, some, List, [], ◌∷◌, Bool-cases, ◌⊎◌, inl, inr, subst,
}
use aw_app_agents_platform_r.Prelude.Texts.{Text, is_empty}
use aw_app_agents_platform_r.Kanban.Card.{
  get_or, get_default, Card, Payload, payload_of, with_path, merge, dispatch_payload,
  build_run_input, dispatch_payload-payload_of,
}
use aw_app_agents_platform_r.Kanban.Sweep.{
  Called, value, unavailable, raised, Flight, Api, Row, in_flight, no_longer_ready, names_nothing,
  claim_lost, would_dispatch, dispatch_error, dispatched, dispatched_unstamped, board_error, failed,
  Options, stamp_row, stamp, answer_of, dispatch, on_answer, on_move, on_claim, on_planned,
  after_write, claim_token, token_for, new_token, claim_card, is_in_flight, latest_of, latest_run,
  not_ready, on_card, read_card, on_latest, sweep_card,
}

-- The same calls, with the runs that were fired, the last one first.
abbrev pub logged : Api → Api
logged A = record {
  World = A.World × List (Text × Payload);
  ready_cards = λ s n w. let (v, r) = A.ready_cards s n w.0 in ((v, w.1), r);
  card = λ p w. let (v, r) = A.card p w.0 in ((v, w.1), r);
  set_run_id = λ p t w. let (v, r) = A.set_run_id p t w.0 in ((v, w.1), r);
  read_run_id = λ p w. let (v, r) = A.read_run_id p w.0 in ((v, w.1), r);
  move_running = λ p w. let (v, r) = A.move_running p w.0 in ((v, w.1), r);
  runs = λ p w. let (v, r) = A.runs p w.0 in ((v, w.1), r);
  post = λ path pl w. let (v, r) = A.post path pl w.0 in ((v, (path, pl) ∷ w.1), r);
  uuid4 = λ w. let (v, u) = A.uuid4 w.0 in ((v, w.1), u);
}

-- The runs that were fired by the row: none behind a lost claim; the payload, once, behind an answer
-- of the platform; and it or none behind another error.
abbrev pub Tried : Text → Payload → List (Text × Payload) → Row → Type 0
Tried path pl fired claim_lost = fired ≡ []
Tried path pl fired (dispatch_error e) = fired ≡ (path, pl) ∷ []
Tried path pl fired (dispatched id t) = (t ≡ pl.payload_target) × (fired ≡ (path, pl) ∷ [])
Tried path pl fired (dispatched_unstamped id t e) =
    (t ≡ pl.payload_target) × (fired ≡ (path, pl) ∷ [])
Tried path pl fired (board_error e) = (fired ≡ []) ⊎ (fired ≡ (path, pl) ∷ [])
Tried path pl fired (failed e) = (fired ≡ []) ⊎ (fired ≡ (path, pl) ∷ [])
Tried path pl fired _ = ⊥

-- The payload of a card as it was read again: its page, its input, this workspace, and the target.
abbrev pub IsPayload : Options → Card → Called Card → Text → Payload → Type 0
IsPayload o summary r target pl =
    (again : Card) × (r ≡ value again)
    × (pl.notion_task_id ≡ get_default (merge summary again).page_id)
    × (pl.input ≡ build_run_input (merge summary again))
    × (pl.workspace ≡ o.this_workspace)
    × (pl.payload_target ≡ target)

-- The row of a dry run, and the row and the fired runs of the other.
abbrev pub Agrees : Options → Card → Called Card → Row → List (Text × Payload) → Row → Type 0
Agrees o c r (would_dispatch path target) fired live =
    (pl : Payload) × IsPayload o c r target pl × Tried path pl fired live
Agrees o c r (in_flight id) fired live = (live ≡ in_flight id) × (fired ≡ [])
Agrees o c r (no_longer_ready s) fired live = (live ≡ no_longer_ready s) × (fired ≡ [])
Agrees o c r names_nothing fired live = (live ≡ names_nothing) × (fired ≡ [])
Agrees o c r (board_error e) fired live = (live ≡ board_error e) × (fired ≡ [])
Agrees o c r (failed e) fired live = (live ≡ failed e) × (fired ≡ [])
Agrees o c r _ fired live = ⊥

abbrev pub dry : Options → Options
dry o = record o { dry_run = true }

abbrev pub live : Options → Options
live o = record o { dry_run = false }

module _ (A : Api) where
  abbrev L : Api
  L = logged A

  abbrev pub Fires : Text → Payload → L.World × Row → Type 0
  Fires path pl (w, row) = Tried path pl w.1 row

  stamp-Fires :
      (page id path : Text) (pl : Payload) (w : A.World)
      → Fires path pl (stamp L page id pl.payload_target (w, (path, pl) ∷ []))
  unfolding stamp stamp_row
  stamp-Fires page id path pl w = by_answer (A.set_run_id page id w).1
    where
      by_answer :
          (r : Called Unit) → Tried path pl ((path, pl) ∷ []) (stamp_row id pl.payload_target r)
      by_answer (value u) = (refl, refl)
      by_answer (unavailable e) = (refl, refl)
      by_answer (raised e) = inr refl

  on_answer-Fires :
      (page path : Text) (pl : Payload) (r : Called (Text × Text)) (w : A.World)
      → Fires path pl (on_answer L page pl r (w, (path, pl) ∷ []))
  unfolding on_answer
  on_answer-Fires page path pl (value (id, error)) w = elim (Bool-cases (is_empty error)) [
    | inl fine ↦ elim (Bool-cases (is_empty id)) [
      | inl no_id ↦ rw (fine, no_id) (refl, refl)
      | inr full ↦ rw (fine, full) (stamp-Fires page id path pl w)
    ]
    | inr bad ↦ rw bad refl
  ]
  on_answer-Fires page path pl (unavailable e) w = inr refl
  on_answer-Fires page path pl (raised e) w = inr refl

  on_move-Fires :
      (page path : Text) (pl : Payload) (r : Called Unit) (w : A.World)
      → Fires path pl (on_move L page path pl r (w, []))
  unfolding on_move dispatch
  on_move-Fires page path pl (value u) w =
      on_answer-Fires page path pl (answer_of (A.post path pl w).1) (A.post path pl w).0
  on_move-Fires page path pl (unavailable e) w = inl refl
  on_move-Fires page path pl (raised e) w = inl refl

  on_claim-Fires :
      (page path : Text) (pl : Payload) (r : Called (Option Text)) (w : L.World)
      → w.1 ≡ []
      → Fires path pl (on_claim L page path pl r w)
  unfolding on_claim
  on_claim-Fires page path pl (value none) w none_yet = none_yet
  on_claim-Fires page path pl (value (some t)) (w, log) none_yet =
      rw none_yet (on_move-Fires page path pl (A.move_running page w).1 (A.move_running page w).0)
  on_claim-Fires page path pl (unavailable e) w none_yet = inl none_yet
  on_claim-Fires page path pl (raised e) w none_yet = inl none_yet

  after_write-silent :
      (page t : Text) (r : Called Unit) (w : L.World) → (after_write L page t r w).0.1 ≡ w.1
  unfolding after_write
  after_write-silent page t (value u) w = refl
  after_write-silent page t (unavailable e) w = refl
  after_write-silent page t (raised e) w = refl

  claim_card-silent : (page side : Text) (w : L.World) → (claim_card L page side none w).0.1 ≡ w.1
  unfolding claim_card claim_token token_for new_token
  claim_card-silent page side w =
      after_write-silent page _ (L.set_run_id page _ (L.uuid4 w).0).1
        (L.set_run_id page _ (L.uuid4 w).0).0

  module _ (o : Options) (summary : Card) (answer : Called Card) where
    abbrev Compares : L.World × Row → L.World × Row → Type 0
    Compares (v, planned) (w, row) = Agrees o summary answer planned w.1 row × (v.1 ≡ [])

    on_planned-Agrees :
        (page : Text) (planned : Option (Text × Payload)) (w : A.World)
        → ((path : Text) (pl : Payload)
            → planned ≡ some (path, pl)
            → IsPayload o summary answer pl.payload_target pl)
        → Compares
            (on_planned L (dry o) page planned (w, []))
            (on_planned L (live o) page planned (w, []))
    unfolding on_planned
    on_planned-Agrees page none w is_payload = ((refl, refl), refl)
    on_planned-Agrees page (some (path, pl)) w is_payload =
        let claim = claim_card L page o.claim_side none (w, []) in
        (
          (
            pl,
            is_payload path pl refl,
            on_claim-Fires page path pl claim.1 claim.0
                (claim_card-silent page o.claim_side (w, [])),
          ),
          refl,
        )

    dispatch_payload-IsPayload :
        (again : Card)
        → answer ≡ value again
        → (path : Text) (pl : Payload)
        → dispatch_payload o.this_workspace
            (merge summary again)
            (build_run_input (merge summary again))
          ≡ some (path, pl)
        → IsPayload o summary answer pl.payload_target pl
    unfolding payload_of
    dispatch_payload-IsPayload again e path pl h = by_path (
        dispatch_payload-payload_of o.this_workspace (merge summary again)
          (build_run_input (merge summary again)))
      where
        by_path :
            (p : Option Text) × (dispatch_payload o.this_workspace
                  (merge summary again)
                  (build_run_input (merge summary again))
                ≡ with_path p (
                    payload_of o.this_workspace
                      (merge summary again)
                      (build_run_input (merge summary again))))
            → IsPayload o summary answer pl.payload_target pl
        by_path (none, d) = cc (d, h)
        by_path (some p, d) =
            let same : pl
                ≡ payload_of o.this_workspace (merge summary again)
                    (build_run_input (merge summary again)) =
              cc (d, h) in
            subst (λ (x : Payload). IsPayload o summary answer x.payload_target x) (sym same)
              (again, e, refl, refl, refl, refl)

    on_card-Agrees :
        (page : Text) (r : Called Card) (w : A.World)
        → answer ≡ r
        → Compares
            (on_card L (dry o) page summary r (w, []))
            (on_card L (live o) page summary r (w, []))
    unfolding on_card
    on_card-Agrees page (value again) w e =
        let whole = merge summary again in
        elim (Bool-cases (not_ready summary.status whole.status)) [
          | inl moved ↦ rw moved ((refl, refl), refl)
          | inr ready ↦ rw ready (
              on_planned-Agrees page
                (dispatch_payload o.this_workspace whole (build_run_input whole)) w
                (dispatch_payload-IsPayload again e))
        ]
    on_card-Agrees page (unavailable x) w e = ((refl, refl), refl)
    on_card-Agrees page (raised x) w e = ((refl, refl), refl)

    read_card-Agrees :
        (page : Text) (w : A.World)
        → answer ≡ (A.card page w).1
        → Compares
            (read_card L (dry o) page summary (w, []))
            (read_card L (live o) page summary (w, []))
    unfolding read_card
    read_card-Agrees page w e = on_card-Agrees page (A.card page w).1 (A.card page w).0 e

    on_latest-Agrees :
        (page : Text) (r : Called (Option Flight)) (w : A.World)
        → answer ≡ (A.card page w).1
        → Compares
            (on_latest L (dry o) page summary r (w, []))
            (on_latest L (live o) page summary r (w, []))
    unfolding on_latest
    on_latest-Agrees page (value none) w e = read_card-Agrees page w e
    on_latest-Agrees page (value (some run)) w e = elim (Bool-cases (is_in_flight run.run_status)) [
      | inl going ↦ rw going ((refl, refl), refl)
      | inr free ↦ rw free (read_card-Agrees page w e)
    ]
    on_latest-Agrees page (unavailable x) w e = ((refl, refl), refl)
    on_latest-Agrees page (raised x) w e = ((refl, refl), refl)

  -- A dry run fires nothing. Where it skips a card or meets an error, the other run does the same, for
  -- the same reason, and fires nothing. Where it would dispatch, what the other run POSTs is, at the
  -- path that the dry run named, a payload with the target that it named, the page id and the input of
  -- the card as it was read again and this workspace: not at all where the claim is lost, once where
  -- the platform answered, and at most once where an error is reported.
  pub sweep_card-Agrees :
      (o : Options) (summary : Card) (w : A.World)
      → let page = get_or summary.page_id [] in
        let (v, planned) = sweep_card L (dry o) summary (w, []) in
        let (u, row) = sweep_card L (live o) summary (w, []) in
        Agrees o summary (A.card page (A.runs page w).0).1 planned u.1 row × (v.1 ≡ [])
  unfolding sweep_card latest_run
  sweep_card-Agrees o summary w =
      let page = get_or summary.page_id [] in
      on_latest-Agrees o summary (A.card page (A.runs page w).0).1 page
        (latest_of (A.runs page w).1) (A.runs page w).0 refl
