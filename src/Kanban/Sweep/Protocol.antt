-- ===== src/Kanban/Sweep/Protocol.antt =====
-- The order of the calls of `sweep_ready` (kanban_dispatch.py): a monitor that follows them.
use aw_app_agents_platform_r.Prelude.{
  ℕ, ◌≡◌, refl, false, Option, none, some, List, [], ◌∷◌, ◌++◌, if◌then◌else◌, Bool-cases, inl, inr,
  Bool, true, sym, subst,
}
use aw_app_agents_platform_r.Prelude.Texts.{Text, text_eq, text_eq_refl, is_empty}
use aw_app_agents_platform_r.Kanban.Card.{
  Field, absent, null, text, get_or, get_default, over, Card, Payload, payload_of, with_path, merge,
  dispatch_payload, build_run_input, dispatch_payload-payload_of,
}
use aw_app_agents_platform_r.Kanban.Sweep.{
  Called, value, unavailable, raised, Flight, Api, Row, in_flight, no_longer_ready, names_nothing,
  claim_lost, would_dispatch, dispatch_error, dispatched, dispatched_unstamped, board_error, failed,
  holds, Options, after_read, after_write, claim_token, claim_card, stamp_row, stamp, answer_of,
  dispatch, on_answer, on_move, on_claim, on_planned, is_in_flight, latest_of, latest_run,
  not_ready, on_card, read_card, on_latest, sweep_card, sweep_cards, sweep_listed, sweep_ready,
  new_token, token_for,
}

pub data Call : Type 0 where
  looks : Text → Call
  reads : Text → Called Card → Call
  writes : Text → Text → Call
  reads_back : Text → Called Field → Call
  moves : Text → Call
  fires : Text → Payload → Call

-- Where the handling of a card stands.
pub data Phase : Type 0 where
  resting lost stamped : Phase
  -- Behind the look-up of its runs, and behind its second read, which gave this page id.
  looked : Text → Phase
  reread : Text → Field → Phase
  claiming : Text → Field → Text → Phase
  owner running : Text → Field → Phase
  started : Text → Phase

abbrev same_page : Text → Text → Phase → Option Phase
same_page p q next = if text_eq p q then some next else none

abbrev read_own : Text → Field → Text → Called Field → Phase
read_own p id t (value f) = if holds f t then owner p id else lost
read_own p id t _ = lost

abbrev read_again : Text → Called Card → Phase
read_again p (value c) = reread p c.page_id
read_again p _ = looked p

-- The task of a payload is the page id that the card gave when it was read again, where it gave one.
abbrev pub names_task : Field → Option Text → Bool
names_task absent task = true
names_task null none = true
names_task null (some t) = false
names_task (text p) none = false
names_task (text p) (some t) = text_eq p t

-- The calls that each phase allows, all for the same card: `none` for another. The first write stands
-- behind a second read that answered. A run is fired only behind a move of the card, behind a read of
-- the dispatcher's own token, behind its write, and for the task of that card; and a second write only
-- behind that.
abbrev pub step : Call → Phase → Option Phase
step (looks q) p = some (looked q)
step (reads q c) (looked p) = same_page p q (read_again p c)
step (writes q t) (reread p id) = same_page p q (claiming p id t)
step (reads_back q f) (claiming p id t) = same_page p q (read_own p id t f)
step (moves q) (owner p id) = same_page p q (running p id)
step (fires path pl) (running p id) =
    if names_task id pl.notion_task_id then some (started p) else none
step (writes q t) (started p) = same_page p q stamped
step _ _ = none

abbrev pub follow : Call → Option Phase → Option Phase
follow c none = none
follow c (some p) = step c p

-- The same calls, followed by the monitor.
abbrev pub monitored : Api → Api
monitored A = record {
  World = A.World × Option Phase;
  ready_cards = λ s n w. let (w1, r) = A.ready_cards s n w.0 in ((w1, w.1), r);
  card = λ p w. let (w1, r) = A.card p w.0 in ((w1, follow (reads p r) w.1), r);
  set_run_id = λ p t w. let (w1, r) = A.set_run_id p t w.0 in ((w1, follow (writes p t) w.1), r);
  read_run_id = λ p w. let (w1, r) = A.read_run_id p w.0 in ((w1, follow (reads_back p r) w.1), r);
  move_running = λ p w. let (w1, r) = A.move_running p w.0 in ((w1, follow (moves p) w.1), r);
  runs = λ p w. let (w1, r) = A.runs p w.0 in ((w1, follow (looks p) w.1), r);
  post = λ path pl w. let (w1, r) = A.post path pl w.0 in ((w1, follow (fires path pl) w.1), r);
  uuid4 = λ w. let (w1, u) = A.uuid4 w.0 in ((w1, w.1), u);
}

-- Where the handling of a card ends, by its row.
abbrev pub Reaches : Row → Phase → Text → Type 0
Reaches (in_flight id) p page = p ≡ looked page
Reaches (no_longer_ready s) p page = (id : Field) × (p ≡ reread page id)
Reaches names_nothing p page = (id : Field) × (p ≡ reread page id)
Reaches (would_dispatch path target) p page = (id : Field) × (p ≡ reread page id)
Reaches claim_lost p page = p ≡ lost
Reaches (dispatch_error e) p page = p ≡ started page
Reaches (dispatched id target) p page = p ≡ (if is_empty id then started page else stamped)
Reaches (dispatched_unstamped id target e) p page = p ≡ stamped
Reaches (board_error e) p page = Unit
Reaches (failed e) p page = Unit

module _ (A : Api) where
  abbrev M : Api
  M = monitored A

  abbrev pub Ends : Text → M.World × Row → Type 0
  Ends page (w, row) = (p : Phase) × (w.1 ≡ some p) × Reaches row p page

  stamp-Ends :
      (page id target : Text) (w : A.World)
      → is_empty id ≡ false
      → Ends page (stamp M page id target (w, some (started page)))
  unfolding stamp stamp_row
  stamp-Ends page id target w full = rw (text_eq_refl) (by_answer (A.set_run_id page id w).1)
    where
      by_answer :
          (r : Called Unit)
          → (p : Phase) × (some stamped ≡ some p) × Reaches (stamp_row id target r) p page
      by_answer (value u) = (stamped, refl, rw full refl)
      by_answer (unavailable e) = (stamped, refl, refl)
      by_answer (raised e) = (stamped, refl, tt)

  on_answer-Ends :
      (page : Text) (payload : Payload) (r : Called (Text × Text)) (w : A.World)
      → Ends page (on_answer M page payload r (w, some (started page)))
  unfolding on_answer
  on_answer-Ends page payload (value (id, error)) w = elim (Bool-cases (is_empty error)) [
    | inl fine ↦ elim (Bool-cases (is_empty id)) [
      | inl no_id ↦ rw (fine, no_id) (started page, refl, rw no_id refl)
      | inr full ↦ rw (fine, full) (stamp-Ends page id payload.payload_target w full)
    ]
    | inr bad ↦ rw bad (started page, refl, refl)
  ]
  on_answer-Ends page payload (unavailable e) w = (started page, refl, tt)
  on_answer-Ends page payload (raised e) w = (started page, refl, tt)

  on_move-Ends :
      (page path : Text) (id : Field) (payload : Payload) (r : Called Unit) (w : A.World)
      → names_task id payload.notion_task_id ≡ true
      → Ends page (on_move M page path payload r (w, some (running page id)))
  unfolding on_move dispatch
  on_move-Ends page path id payload (value u) w named =
      rw named (
        on_answer-Ends page payload (answer_of (A.post path payload w).1) (A.post path payload w).0)
  on_move-Ends page path id payload (unavailable e) w named = (running page id, refl, tt)
  on_move-Ends page path id payload (raised e) w named = (running page id, refl, tt)

  abbrev Claimed : Text → Field → M.World × Called (Option Text) → Type 0
  Claimed page id (w, value (some t)) = w.1 ≡ some (owner page id)
  Claimed page id (w, value none) = w.1 ≡ some lost
  Claimed page id (w, unavailable e) = (p : Phase) × (w.1 ≡ some p)
  Claimed page id (w, raised e) = (p : Phase) × (w.1 ≡ some p)

  after_write-Claimed :
      (page t : Text) (id : Field) (r : Called Unit) (w : A.World)
      → Claimed page id (after_write M page t r (w, some (claiming page id t)))
  unfolding after_write after_read
  after_write-Claimed page t id (value u) w =
      rw (text_eq_refl) (by_read (A.read_run_id page w).0 (A.read_run_id page w).1)
    where
      by_read :
          (v : A.World) (r : Called Field)
          → Claimed page id ((v, some (read_own page id t r)), after_read M t r)
      by_read v (value f) = elim (Bool-cases (holds f t)) [
        | inl own ↦ rw own refl
        | inr other ↦ rw other refl
      ]
      by_read v (unavailable e) = (lost, refl)
      by_read v (raised e) = (lost, refl)
  after_write-Claimed page t id (unavailable e) w = (claiming page id t, refl)
  after_write-Claimed page t id (raised e) w = (claiming page id t, refl)

  claim_card-Claimed :
      (page side : Text) (id : Field) (w : A.World)
      → Claimed page id (claim_card M page side none (w, some (reread page id)))
  unfolding claim_card claim_token token_for new_token
  claim_card-Claimed page side id w =
      let u = A.uuid4 w in
      let t : Text = side ++ (b':' ∷ u.1) in
      rw text_eq_refl
        (after_write-Claimed page t id (A.set_run_id page t u.0).1 (A.set_run_id page t u.0).0)

  on_claim-Ends :
      (page path : Text) (id : Field) (payload : Payload) (r : Called (Option Text)) (w : M.World)
      → names_task id payload.notion_task_id ≡ true
      → Claimed page id (w, r)
      → Ends page (on_claim M page path payload r w)
  unfolding on_claim
  on_claim-Ends page path id payload (value none) w named c = (lost, c, refl)
  on_claim-Ends page path id payload (value (some t)) (w, m) named c =
      rw (c, text_eq_refl)
        (on_move-Ends page path id payload (A.move_running page w).1 (A.move_running page w).0
          named)
  on_claim-Ends page path id payload (unavailable e) w named (p, c) = (p, c, tt)
  on_claim-Ends page path id payload (raised e) w named (p, c) = (p, c, tt)

  abbrev Named : Field → Option (Text × Payload) → Type 0
  Named id none = Unit
  Named id (some (path, payload)) = names_task id payload.notion_task_id ≡ true

  on_planned-Ends :
      (o : Options) (page : Text) (id : Field) (planned : Option (Text × Payload)) (w : A.World)
      → Named id planned
      → Ends page (on_planned M o page planned (w, some (reread page id)))
  unfolding on_planned
  on_planned-Ends o page id none w named = (reread page id, refl, (id, refl))
  on_planned-Ends o page id (some (path, payload)) w named = elim (Bool-cases o.dry_run) [
    | inl dry ↦ rw dry (reread page id, refl, (id, refl))
    | inr live ↦
        let claim = claim_card M page o.claim_side none (w, some (reread page id)) in
        rw live (
          on_claim-Ends page path id payload claim.1 claim.0 named
            (claim_card-Claimed page o.claim_side id w))
  ]

  over-names_task : (f g : Field) → names_task g (get_default (over f g)) ≡ true
  over-names_task f absent = refl
  over-names_task f null = refl
  over-names_task f (text t) = text_eq_refl t

  dispatch_payload-Named :
      (o : Options) (summary again : Card)
      → Named again.page_id (
          dispatch_payload o.this_workspace
            (merge summary again)
            (build_run_input (merge summary again)))
  unfolding payload_of
  dispatch_payload-Named o summary again = by_path (
      dispatch_payload-payload_of o.this_workspace (merge summary again)
        (build_run_input (merge summary again)))
    where
      by_path :
          {d : Option (Text × Payload)}
          → (path : Option Text) × (d
              ≡ with_path path (
                  payload_of o.this_workspace
                    (merge summary again)
                    (build_run_input (merge summary again))))
          → Named again.page_id d
      by_path (none, e) = subst (Named again.page_id) (sym e) tt
      by_path (some path, e) =
          subst (Named again.page_id) (sym e) (over-names_task summary.page_id again.page_id)

  on_card-Ends :
      (o : Options) (page : Text) (summary : Card) (r : Called Card) (w : A.World)
      → Ends page (on_card M o page summary r (w, some (read_again page r)))
  unfolding on_card
  on_card-Ends o page summary (value again) w =
      let whole = merge summary again in
      let id = again.page_id in
      elim (Bool-cases (not_ready summary.status whole.status)) [
        | inl moved ↦ rw moved (reread page id, refl, (id, refl))
        | inr ready ↦ rw ready (
            on_planned-Ends o page id
              (dispatch_payload o.this_workspace whole (build_run_input whole)) w
              (dispatch_payload-Named o summary again))
      ]
  on_card-Ends o page summary (unavailable e) w = (looked page, refl, tt)
  on_card-Ends o page summary (raised e) w = (looked page, refl, tt)

  read_card-Ends :
      (o : Options) (page : Text) (summary : Card) (w : A.World)
      → Ends page (read_card M o page summary (w, some (looked page)))
  unfolding read_card
  read_card-Ends o page summary w =
      rw text_eq_refl (on_card-Ends o page summary (A.card page w).1 (A.card page w).0)

  on_latest-Ends :
      (o : Options) (page : Text) (summary : Card) (r : Called (Option Flight)) (w : A.World)
      → Ends page (on_latest M o page summary r (w, some (looked page)))
  unfolding on_latest
  on_latest-Ends o page summary (value none) w = read_card-Ends o page summary w
  on_latest-Ends o page summary (value (some run)) w =
      elim (Bool-cases (is_in_flight run.run_status)) [
        | inl going ↦ rw going (looked page, refl, refl)
        | inr free ↦ rw free (read_card-Ends o page summary w)
      ]
  on_latest-Ends o page summary (unavailable e) w = (looked page, refl, tt)
  on_latest-Ends o page summary (raised e) w = (looked page, refl, tt)

  -- Where the handling of a card stands when its row is reported, whatever the board and the platform
  -- answer: a card that is skipped, or only looked at by a dry run, was not written to; one whose claim
  -- was lost was neither moved nor fired; and one whose dispatch failed was moved to running and is
  -- left there, with the claim token as its run id.
  pub sweep_card-Ends :
      (o : Options) (summary : Card) (w : A.World) (before : Phase)
      → Ends (get_or summary.page_id []) (sweep_card M o summary (w, some before))
  unfolding sweep_card latest_run
  sweep_card-Ends o summary w before =
      let page = get_or summary.page_id [] in
      on_latest-Ends o page summary (latest_of (A.runs page w).1) (A.runs page w).0

  abbrev Following : M.World → Type 0
  Following w = (p : Phase) × (w.1 ≡ some p)

  sweep_cards-Following :
      (o : Options) (cs : List Card) (w : M.World)
      → Following w
      → Following (sweep_cards M o cs w).0
  unfolding sweep_cards
  sweep_cards-Following o [] w f = f
  sweep_cards-Following o (c ∷ cs) (w, m) (before, at) =
      sweep_cards-Following o cs (sweep_card M o c (w, m)).0
        (rw at (let (p, e, reached) = sweep_card-Ends o c w before in (p, e)))

  -- Whatever the board and the platform answer, each call of a sweep is one that the protocol allows
  -- at that place: nothing is written to a card before its runs are looked up and it is read again
  -- with an answer. A run is fired at most once behind each such look-up, only behind a read of the
  -- dispatcher's own token in the card and the move of the card to running, and its payload names the
  -- page id of the card as it was read again, where that read gave one.
  pub sweep_ready-Protocol :
      (o : Options) (status : Text) (limit : ℕ) (w : A.World)
      → (p : Phase) × ((sweep_ready M o status limit (w, some resting)).0.1 ≡ some p)
  unfolding sweep_ready sweep_listed
  sweep_ready-Protocol o status limit w =
      listed (A.ready_cards status limit w).1 (A.ready_cards status limit w).0
    where
      listed :
          (r : Called (List Card)) (v : A.World)
          → Following (sweep_listed M o r (v, some resting)).0
      listed (value cards) v = sweep_cards-Following o cards (v, some resting) (resting, refl)
      listed (unavailable e) v = (resting, refl)
      listed (raised e) v = (resting, refl)
