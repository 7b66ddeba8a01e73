-- ===== src/ExecutionIndex/Gate.antt =====
-- execution_index.py: a run, its events, and the gate `_interesting`.
pub mod Worth
use aw_app_agents_platform_r.Prelude.{
  Bool, true, false, not, ◌&&◌, ◌||◌, Option, none, some, List, [], ◌∷◌, ltb, if◌then◌else◌, length,
  any,
}
use aw_app_agents_platform_r.Prelude.Texts.{Text, codes, text_eq, one_of, is_empty, strip}

-- The fields of a run that the index reads; each is a text or null in the platform's JSON.
pub record Run : Type 0 where
  pub status : Option Text
  pub input : Option Text
  pub output : Option Text
  pub error : Option Text
  pub initiator_kind : Option Text

pub record Event : Type 0 where
  pub kind : Option Text
  pub type : Option Text
  pub body : Text

-- `str(x or "")`
abbrev pub or_empty : Option Text → Text
or_empty none = []
or_empty (some t) = t

-- Python's truth of a text or None.
abbrev pub truth : Option Text → Bool
truth none = false
truth (some t) = not (is_empty t)

abbrev or_else : Option Text → Text → Text
or_else none d = d
or_else (some t) d = if is_empty t then d else t

unfoldable pub event_kind : Event → Text
event_kind e = or_else e.kind (or_else e.type (codes "event"))

abbrev pub terminal : List Text
terminal = codes "success" ∷ codes "error" ∷ codes "cancelled" ∷ []

-- A run that compacts a session: `/compact`, or an initiator that stands for it.
unfoldable pub is_compaction : Run → Bool
is_compaction run =
    text_eq (strip (or_empty run.input)) (codes "/compact")
    || one_of (codes "auto_compact" ∷ codes "pending_compact" ∷ []) (or_empty run.initiator_kind)

abbrev pub is_tool_call : Event → Bool
is_tool_call e = text_eq (event_kind e) (codes "tool_call")

-- `not events`
abbrev pub is_nil : List Event → Bool
is_nil [] = true
is_nil (e ∷ es) = false

-- `_interesting`, its early returns in the code's order.
unfoldable pub interesting : Run → List Event → Text → Bool
interesting run events mode =
    if not (one_of terminal (or_empty run.status))
    then false
    else if is_compaction run
    then false
    else if text_eq (or_empty run.status) (codes "cancelled") && not (truth run.output)
    then false
    else if text_eq mode (codes "failures") && not (text_eq (or_empty run.status) (codes "error"))
    then false
    else if text_eq mode (codes "interesting") && not (truth run.error || any is_tool_call events)
    then false
    else if is_nil events && ltb (length (or_empty run.output)) 200
    then false
    else true
