-- ===== src/Kanban/Card.antt =====
-- kanban_dispatch.py: cards, `build_run_input`, `dispatch_payload` and `resume_payload`. The
-- workspace's slug (`_this_workspace`) is an argument. A field of a card or a run that is neither
-- absent nor null is a text.
use aw_app_agents_platform_r.Prelude.{
  ◌≡◌, refl, Option, none, some, List, [], ◌∷◌, ◌++◌, if◌then◌else◌, ◌⊎◌, inl, inr,
}
use aw_app_agents_platform_r.Prelude.Texts.{Text, codes, is_empty, strip}

pub data Field : Type 0 where
  absent null : Field
  text : Text → Field

-- `d.get(key) or default`
abbrev pub get_or : Field → Text → Text
get_or absent d = d
get_or null d = d
get_or (text t) d = if is_empty t then d else t

-- `d.get(key, "")`; `none` is Python's None.
abbrev pub get_default : Field → Option Text
get_default absent = some []
get_default null = none
get_default (text t) = some t

abbrev pub or_else : Text → Text → Text
or_else t d = if is_empty t then d else t

pub record Card : Type 0 where
  pub page_id : Field
  pub title : Field
  pub status : Field
  pub agent_slug : Field
  pub workflow_slug : Field
  pub target_slug : Field
  pub body_md : Field
  pub comments_md : Field

abbrev pub over : Field → Field → Field
over summary absent = summary
over summary f = f

-- {**summary, **card}
abbrev pub merge : Card → Card → Card
merge s c = record {
  page_id = over s.page_id c.page_id;
  title = over s.title c.title;
  status = over s.status c.status;
  agent_slug = over s.agent_slug c.agent_slug;
  workflow_slug = over s.workflow_slug c.workflow_slug;
  target_slug = over s.target_slug c.target_slug;
  body_md = over s.body_md c.body_md;
  comments_md = over s.comments_md c.comments_md;
}

abbrev default_target_slug : Text
default_target_slug = codes "system-investigations"

abbrev skill_hint : Text
skill_hint =
    codes
      "Load skill aw-kanban before acting on this card — it's the tool reference for the aw-kanban MCP (how to call the tools, the page_id from NOTION_TASK_ID)."

-- "\n\n".join(parts)
join_paragraphs : List Text → Text
join_paragraphs [] = []
join_paragraphs (p ∷ []) = p
join_paragraphs (p ∷ q ∷ rest) = p ++ (10 ∷ 10 ∷ join_paragraphs (q ∷ rest))

-- f"{page_id}" where the page id may be None.
show_page : Option Text → Text
show_page none = codes "None"
show_page (some p) = p

history_part : Text → List Text
history_part comments =
    if is_empty comments
    then []
    else (codes "Comment history (oldest → newest):" ++ (10 ∷ 10 ∷ comments)) ∷ []

pub build_run_input : Card → Text
unfolding join_paragraphs show_page history_part strip
build_run_input card =
    let title = get_or card.title (codes "(untitled card)") in
    let body = strip (get_or card.body_md []) in
    let comments = strip (get_or card.comments_md []) in
    join_paragraphs (
      ((codes "Kanban card: \"" ++ title ++ codes "\"")
        ∷ (codes "page_id=" ++ show_page (get_default card.page_id))
        ∷ codes "(same value as your $NOTION_TASK_ID env var — use either)"
        ∷ (codes "Task content:" ++ (10 ∷ 10 ∷ or_else body (codes "Run task: " ++ title)))
        ∷ [])
      ++ history_part comments
      ++ (skill_hint ∷ []))

pub record Payload : Type 0 where
  pub input : Text
  pub payload_target : Text
  pub notion_task_id : Option Text
  pub workspace : Text

pub agents_path : Text → Text
agents_path slug = codes "/api/agents/" ++ slug ++ codes "/run"

pub workflows_path : Text → Text
workflows_path slug = codes "/api/workflows/" ++ slug ++ codes "/run"

planned_path : Text → Text → Option Text
unfolding agents_path workflows_path
planned_path agent_slug workflow_slug =
    if is_empty agent_slug
    then (if is_empty workflow_slug then none else some (workflows_path workflow_slug))
    else some (agents_path agent_slug)

unfoldable pub payload_of : Text → Card → Text → Payload
unfolding strip
payload_of workspace card input_text = record {
  input = input_text;
  payload_target = or_else (strip (get_or card.target_slug [])) default_target_slug;
  notion_task_id = get_default card.page_id;
  workspace = workspace;
}

abbrev pub with_path : Option Text → Payload → Option (Text × Payload)
with_path none payload = none
with_path (some path) payload = some (path, payload)

pub dispatch_payload : Text → Card → Text → Option (Text × Payload)
unfolding planned_path payload_of strip
dispatch_payload workspace card input_text =
    with_path
      (planned_path (strip (get_or card.agent_slug [])) (strip (get_or card.workflow_slug [])))
      (payload_of workspace card input_text)

-- Where a card is dispatched at all, the payload is that of the card.
pub dispatch_payload-payload_of :
    (workspace : Text) (card : Card) (input_text : Text)
    → (path : Option Text) × (dispatch_payload workspace card input_text
        ≡ with_path path (payload_of workspace card input_text))
unfolding dispatch_payload
dispatch_payload-payload_of workspace card input_text =
    (planned_path (strip (get_or card.agent_slug [])) (strip (get_or card.workflow_slug [])), refl)

-- The fields of a run that `resume_payload` reads.
pub record LatestRun : Type 0 where
  pub source_slug : Field
  pub session_id : Field
  pub target_id : Field

pub record ResumePayload : Type 0 where
  pub message : Text
  pub resumed_session : Text
  pub resumed_task : Text
  pub resumed_workspace : Text
  pub resumed_target : Option Text

-- `none` where the code does not set the key.
resume_target : Text → Option Text
resume_target t = if is_empty t then none else some t

pub data NotResumable : Type 0 where
  no_source_slug no_session_id : NotResumable

pub resume_payload : Text → LatestRun → Text → Text → NotResumable ⊎ (Text × ResumePayload)
unfolding agents_path strip resume_target
resume_payload workspace run page_id message =
    let agent_slug = strip (get_or run.source_slug []) in
    let session_id = strip (get_or run.session_id []) in
    if is_empty agent_slug
    then inl no_source_slug
    else if is_empty session_id
    then inl no_session_id
    else inr (
      agents_path agent_slug,
      record {
        message = message;
        resumed_session = session_id;
        resumed_task = page_id;
        resumed_workspace = workspace;
        resumed_target = resume_target (get_or run.target_id []);
      },
    )
