-- ===== src/Kanban/Sweep.antt =====
-- kanban_dispatch.py: `claim_card`, `PlatformClient` and `sweep_ready`. The board (aw-app-notion) and
-- the platform are the fields of `Api`; a call answers, raises `BoardUnavailable`, or raises another
-- exception. The text of an exception is given whole.
pub mod Lease
pub mod Protocol
pub mod DryRun
mod Tests
use aw_app_agents_platform_r.Prelude.{
  ℕ, zero, suc, Bool, true, false, ◌||◌, Option, none, some, List, [], ◌∷◌, ◌++◌, if◌then◌else◌,
  length, count_if, take,
}
use aw_app_agents_platform_r.Prelude.Texts.{Text, codes, text_eq, is_empty, strip}
use aw_app_agents_platform_r.Prelude.Decimal.{str}
use aw_app_agents_platform_r.Kanban.Card.{
  Field, absent, null, text, get_or, Card, merge, build_run_input, Payload, dispatch_payload,
}

pub data Called (A : Type 0) : Type 0 where
  value : A → Called A
  unavailable : Text → Called A
  raised : Text → Called A

-- The fields of a run that the sweep reads.
pub record Flight : Type 0 where
  pub run_status : Field
  pub run_id : Field

-- The answer of a POST that starts a run: an exception, a status that is not 200 with the text of its
-- body, the fields `run_id` and `id` of the body, or an exception while the body is read.
pub data Fired : Type 0 where
  post_raised : Text → Fired
  post_status : ℕ → Text → Fired
  post_body : Field → Field → Fired
  post_unread : Text → Fired

pub data Looked : Type 0 where
  get_raised : Looked
  get_status : ℕ → Looked
  get_runs : List Flight → Looked
  get_unread : Text → Looked

pub record Api : Type 1 where
  pub World : Type 0
  pub ready_cards : Text → ℕ → World → World × Called (List Card)
  pub card : Text → World → World × Called Card
  pub set_run_id : Text → Text → World → World × Called Unit
  pub read_run_id : Text → World → World × Called Field
  pub move_running : Text → World → World × Called Unit
  pub runs : Text → World → World × Looked
  pub post : Text → Payload → World → World × Fired
  pub uuid4 : World → World × Text

-- What the sweep reports of a card, less the card's title.
pub data Row : Type 0 where
  in_flight : Field → Row
  no_longer_ready : Field → Row
  names_nothing claim_lost : Row
  would_dispatch : Text → Text → Row
  dispatch_error : Text → Row
  dispatched : Text → Text → Row
  dispatched_unstamped : Text → Text → Text → Row
  board_error : Text → Row
  failed : Text → Row

-- `latest and latest.get("status") in ("pending", "running")`
is_in_flight : Field → Bool
is_in_flight (text t) = text_eq t (codes "pending") || text_eq t (codes "running")
is_in_flight _ = false

-- `ready_name and card.get("status") != ready_name`
not_ready : Field → Field → Bool
not_ready (text n) (text s) = if is_empty n then false else (if text_eq s n then false else true)
not_ready (text n) _ = if is_empty n then false else true
not_ready _ s = false

-- `str(current or "").strip() == token`
pub holds : Field → Text → Bool
unfolding strip
holds current token = text_eq (strip (get_or current [])) token

-- What `PlatformClient.dispatch` answers: the run id and the error, of which a text may be empty.
answer_of : Fired → Called (Text × Text)
answer_of (post_raised e) = value ([], codes "dispatch failed: " ++ e)
answer_of (post_status code body) =
    value ([], codes "dispatch failed: " ++ str code ++ (32 ∷ take 200 body))
answer_of (post_body run_id id) = value (get_or run_id (get_or id []), [])
answer_of (post_unread e) = raised e

-- What `PlatformClient.latest_run` answers.
latest_of : Looked → Called (Option Flight)
latest_of get_raised = value none
latest_of (get_status code) = value none
latest_of (get_runs []) = value none
latest_of (get_runs (r ∷ rest)) = value (some r)
latest_of (get_unread e) = raised e

pub record Report : Type 0 where
  pub considered : ℕ
  pub dispatched_count : ℕ
  pub was_dry_run : Bool
  pub results : List Row

-- `r.get("run_id") and not r.get("skipped")`
counts_as_dispatched : Row → Bool
counts_as_dispatched (dispatched id target) = if is_empty id then false else true
counts_as_dispatched (dispatched_unstamped id target e) = if is_empty id then false else true
counts_as_dispatched _ = false

-- How a sweep is called.
pub record Options : Type 0 where
  pub dry_run : Bool
  pub claim_side : Text
  pub this_workspace : Text

-- The row of a card whose run was fired, by the answer to the stamping of its run id.
stamp_row : Text → Text → Called Unit → Row
stamp_row id target (value u) = dispatched id target
stamp_row id target (unavailable e) = dispatched_unstamped id target e
stamp_row id target (raised e) = failed e

module _ (A : Api) where
  open A use {World, ready_cards, card, set_run_id, read_run_id, move_running, runs, post, uuid4}

  new_token : Text → World → World × Text
  new_token side w = let (w1, u) = uuid4 w in (w1, side ++ (b':' ∷ u))

  token_for : Text → Option Text → World → World × Text
  unfolding new_token
  token_for side none w = new_token side w
  token_for side (some token) w = if is_empty token then new_token side w else (w, token)

  after_read : Text → Called Field → Called (Option Text)
  after_read token (value current) = value (if holds current token then some token else none)
  after_read token (unavailable e) = unavailable e
  after_read token (raised e) = raised e

  after_write : Text → Text → Called Unit → World → World × Called (Option Text)
  unfolding after_read
  after_write page token (value u) w =
      let (w1, current) = read_run_id page w in (w1, after_read token current)
  after_write page token (unavailable e) w = (w, unavailable e)
  after_write page token (raised e) w = (w, raised e)

  claim_token : Text → Text → World → World × Called (Option Text)
  unfolding after_write
  claim_token page token w =
      let (w1, wrote) = set_run_id page token w in after_write page token wrote w1

  pub claim_card : Text → Text → Option Text → World → World × Called (Option Text)
  unfolding claim_token token_for
  claim_card page side token w = let (w1, t) = token_for side token w in claim_token page t w1

  -- `PlatformClient.latest_run`
  pub latest_run : Text → World → World × Called (Option Flight)
  unfolding latest_of
  latest_run page w = let (w1, looked) = runs page w in (w1, latest_of looked)

  -- `PlatformClient.dispatch`
  pub dispatch : Text → Payload → World → World × Called (Text × Text)
  unfolding answer_of
  dispatch path payload w = let (w1, fired) = post path payload w in (w1, answer_of fired)

  stamp : Text → Text → Text → World → World × Row
  unfolding stamp_row
  stamp page id target w = let (w1, wrote) = set_run_id page id w in (w1, stamp_row id target wrote)

  on_answer : Text → Payload → Called (Text × Text) → World → World × Row
  unfolding stamp
  on_answer page payload (value (id, error)) w =
      if is_empty error
      then (if is_empty id
          then (w, dispatched id payload.payload_target)
          else stamp page id payload.payload_target w)
      else (w, dispatch_error error)
  on_answer page payload (unavailable e) w = (w, board_error e)
  on_answer page payload (raised e) w = (w, failed e)

  on_move : Text → Text → Payload → Called Unit → World → World × Row
  unfolding dispatch on_answer
  on_move page path payload (value u) w =
      let (w1, answer) = dispatch path payload w in on_answer page payload answer w1
  on_move page path payload (unavailable e) w = (w, board_error e)
  on_move page path payload (raised e) w = (w, failed e)

  on_claim : Text → Text → Payload → Called (Option Text) → World → World × Row
  unfolding on_move
  on_claim page path payload (value none) w = (w, claim_lost)
  on_claim page path payload (value (some token)) w =
      let (w1, moved) = move_running page w in on_move page path payload moved w1
  on_claim page path payload (unavailable e) w = (w, board_error e)
  on_claim page path payload (raised e) w = (w, failed e)

  on_planned : Options → Text → Option (Text × Payload) → World → World × Row
  unfolding on_claim claim_card
  on_planned o page none w = (w, names_nothing)
  on_planned o page (some (path, payload)) w =
      if o.dry_run
      then (w, would_dispatch path payload.payload_target)
      else (let (w1, claim) = claim_card page o.claim_side none w in
          on_claim page path payload claim w1)

  on_card : Options → Text → Card → Called Card → World → World × Row
  unfolding on_planned not_ready
  on_card o page summary (value again) w =
      let whole = merge summary again in
      if not_ready summary.status whole.status
      then (w, no_longer_ready whole.status)
      else on_planned o page (dispatch_payload o.this_workspace whole (build_run_input whole)) w
  on_card o page summary (unavailable e) w = (w, board_error e)
  on_card o page summary (raised e) w = (w, failed e)

  read_card : Options → Text → Card → World → World × Row
  unfolding on_card
  read_card o page summary w = let (w1, again) = card page w in on_card o page summary again w1

  on_latest : Options → Text → Card → Called (Option Flight) → World → World × Row
  unfolding read_card is_in_flight
  on_latest o page summary (value none) w = read_card o page summary w
  on_latest o page summary (value (some run)) w =
      if is_in_flight run.run_status then (w, in_flight run.run_id) else read_card o page summary w
  on_latest o page summary (unavailable e) w = (w, board_error e)
  on_latest o page summary (raised e) w = (w, failed e)

  -- The body of the loop of `sweep_ready`.
  pub sweep_card : Options → Card → World → World × Row
  unfolding on_latest latest_run
  sweep_card o summary w =
      let page = get_or summary.page_id [] in
      let (w1, latest) = latest_run page w in on_latest o page summary latest w1

  pub sweep_cards : Options → List Card → World → World × List Row
  unfolding sweep_card
  sweep_cards o [] w = (w, [])
  sweep_cards o (c ∷ cs) w =
      let (w1, row) = sweep_card o c w in let (w2, rows) = sweep_cards o cs w1 in (w2, row ∷ rows)

  report : Options → List Row → Report
  unfolding counts_as_dispatched
  report o rows = record {
    considered = length rows;
    dispatched_count = count_if counts_as_dispatched rows;
    was_dry_run = o.dry_run;
    results = rows;
  }

  sweep_listed : Options → Called (List Card) → World → World × Called Report
  unfolding sweep_cards report
  sweep_listed o (value cards) w =
      let (w1, rows) = sweep_cards o cards w in (w1, value (report o rows))
  sweep_listed o (unavailable e) w = (w, unavailable e)
  sweep_listed o (raised e) w = (w, raised e)

  pub sweep_ready : Options → Text → ℕ → World → World × Called Report
  unfolding sweep_listed
  sweep_ready o status limit w =
      let (w1, cards) = ready_cards status limit w in sweep_listed o cards w1
