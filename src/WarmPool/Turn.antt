-- ===== src/WarmPool/Turn.antt =====
-- warm_pool.py: `_with_claude_turn_context` and `dispatch_turn`, with `shlex.quote`. The container's
-- calls are the fields of `Shell`; the JSON of a payload stands as the fields that it is made of.
pub mod Fed
mod Tests
use aw_app_agents_platform_r.Prelude.{
  ℕ, Bool, true, false, ◌&&◌, ◌||◌, not, Option, none, some, List, [], ◌∷◌, ◌++◌, if◌then◌else◌,
  leb, ◌==◌,
}
use aw_app_agents_platform_r.Prelude.Texts.{Text, codes, text_eq, is_empty}

-- The characters that `shlex.quote` leaves as they are: ASCII letters, digits and _@%+=:,./-
unfoldable pub is_safe : ℕ → Bool
is_safe c =
    (leb b'a' c && leb c b'z')
    || (leb b'A' c && leb c b'Z')
    || (leb b'0' c && leb c b'9')
    || (c == b'_')
    || (c == b'@')
    || (c == b'%')
    || (c == b'+')
    || (c == b'=')
    || (c == b':')
    || (c == b',')
    || (c == b'.')
    || (c == b'/')
    || (c == b'-')

all_safe : Text → Bool
unfolding is_safe
all_safe [] = true
all_safe (c ∷ s) = is_safe c && all_safe s

-- s.replace("'", "'\"'\"'")
escape_quotes : Text → Text
escape_quotes [] = []
escape_quotes (c ∷ s) =
    let rest = escape_quotes s in if c == 39 then 39 ∷ 34 ∷ 39 ∷ 34 ∷ 39 ∷ rest else c ∷ rest

-- `shlex.quote`
pub quote : Text → Text
unfolding all_safe escape_quotes
quote s =
    if is_empty s
    then 39 ∷ 39 ∷ []
    else if all_safe s
    then s
    else 39 ∷ (escape_quotes s ++ (39 ∷ []))

abbrev or_blank_text : Option Text → Text
or_blank_text none = []
or_blank_text (some t) = t

-- `_sh`
pub sh : Option Text → Text
unfolding quote
sh s = quote (or_blank_text s)

-- What `dispatch_turn` is called with, less the client and the container's name.
pub record Turn : Type 0 where
  pub run_id : Text
  pub prompt : Text
  pub cli : Text
  pub notion_task_id : Option Text
  pub source_device : Option Text
  pub raw_prompt : Bool
  pub gateway_bearer_token : Option Text

part : Text → Option Text → List Text → List Text
part name none rest = rest
part name (some t) rest = if is_empty t then rest else (name ++ (b'=' ∷ t)) ∷ rest

-- " ".join(parts)
join_words : List Text → Text
join_words [] = []
join_words (p ∷ []) = p
join_words (p ∷ q ∷ ps) = p ++ (32 ∷ join_words (q ∷ ps))

abbrev turn_header : Text
turn_header = codes "[SYSTEM]\nExecution context for this turn: "

abbrev turn_footer : Text
turn_footer =
    codes
      ". $NOTION_TASK_ID/$AW_SOURCE_DEVICE/$AW_RUN_ID may read empty or stale via the Bash tool in a warm container — use the values above instead if so.\n\n"

with_parts : List Text → Text → Text
unfolding join_words
with_parts [] prompt = prompt
with_parts (p ∷ ps) prompt = turn_header ++ join_words (p ∷ ps) ++ turn_footer ++ prompt

-- `_with_claude_turn_context`
pub with_claude_turn_context : Turn → Text
unfolding part with_parts
with_claude_turn_context t =
    with_parts
      (part (codes "NOTION_TASK_ID") t.notion_task_id (
        part (codes "AW_SOURCE_DEVICE") t.source_device
          (part (codes "AW_RUN_ID") (some t.run_id) [])))
      t.prompt

token_export : Option Text → Text
unfolding sh
token_export none = []
token_export (some t) =
    if is_empty t then [] else codes "export AW_GATEWAY_BEARER_TOKEN=" ++ sh (some t) ++ (10 ∷ [])

pub turn_env : Turn → Text
unfolding sh token_export
turn_env t =
    codes "export AW_RUN_ID="
    ++ sh (some t.run_id)
    ++ codes "\nexport NOTION_TASK_ID="
    ++ sh t.notion_task_id
    ++ codes "\nexport AW_SOURCE_DEVICE="
    ++ sh t.source_device
    ++ (10 ∷ token_export t.gateway_bearer_token)

pub setup_cmd : Turn → Text
unfolding sh turn_env
setup_cmd t =
    codes "printf '%s' "
    ++ sh (some t.run_id)
    ++ codes " > /home/ubuntu/.aw-warm/current_run_id && printf '%s' "
    ++ sh (some (turn_env t))
    ++ codes " > /home/ubuntu/.aw-warm/turn_env"

-- The JSON line: {"prompt": …}, or a user message with its content.
pub data TurnPayload : Type 0 where
  codex_prompt : Text → TurnPayload
  user_message : Text → TurnPayload

pub payload : Turn → TurnPayload
unfolding with_claude_turn_context
payload t =
    if text_eq t.cli (codes "codex")
    then codex_prompt t.prompt
    else user_message (if t.raw_prompt then t.prompt else with_claude_turn_context t)

-- A call that raises answers `none` or `false`.
pub record Shell : Type 1 where
  pub World : Type 0
  pub get : Text → World → World × Bool
  pub exec_run : Text → World → World × Option ℕ
  pub open_fifo : World → World × Bool
  pub send_all : TurnPayload → World → World × Bool
  pub shut : World → World

-- How a dispatch ends: the container or its exec raised, the setup or the write is reported as
-- RuntimeError, or the turn was written.
pub data Dispatched : Type 0 where
  no_container exec_failed setup_refused fifo_failed write_failed written : Dispatched

abbrev sent : Bool → Dispatched
sent ok = if ok then written else write_failed

module _ (S : Shell) where
  open S use {World, get, exec_run, open_fifo, send_all, shut}

  on_open : Turn → Bool → World → World × Dispatched
  on_open t false w = (w, fifo_failed)
  on_open t true w = let (w1, ok) = send_all (payload t) w in (shut w1, sent ok)

  on_setup : Turn → Option ℕ → World → World × Dispatched
  unfolding on_open
  on_setup t none w = (w, exec_failed)
  on_setup t (some rc) w =
      let (w1, ok) = open_fifo w in
      let done = on_open t ok w1 in if rc == 0 then done else (w, setup_refused)

  on_found : Turn → Bool → World → World × Dispatched
  unfolding on_setup
  on_found t false w = (w, no_container)
  on_found t true w = let (w1, rc) = exec_run (setup_cmd t) w in on_setup t rc w1

  -- `dispatch_turn`
  pub dispatch_turn : Text → Turn → World → World × Dispatched
  unfolding on_found
  dispatch_turn name t w = let (w1, found) = get name w in on_found t found w1
