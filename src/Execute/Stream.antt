-- ===== src/Execute/Stream.antt =====
-- execute.py: `_stream_cold_attempt`, the lines of one attempt of a job, and which of them are held
-- back while it is open whether the attempt is doomed.
pub mod Lines
pub mod Held
pub mod Shown
use aw_app_agents_platform_r.Prelude.{
  ℕ, Bool, true, false, ◌&&◌, ◌||◌, not, Option, none, some, List, [], ◌∷◌, ◌++◌, if◌then◌else◌,
  ◌==◌, ℤ, pos, negsuc, any,
}
use aw_app_agents_platform_r.Prelude.Texts.{Text, codes, contains, is_empty, strip, text_eq}
use aw_app_agents_platform_r.Execute.Outside.{Outside, Loaded, not_json, no_object, object}
use aw_app_agents_platform_r.Execute.Publish.{publish_line, fetch_and_publish_cli_stderr}

-- `while "\n" in buf: line, buf = buf.split("\n", 1)`: the lines, and what is left of the buffer.
unfoldable pub to_first_line : ℕ → List Text × Text → List Text × Text
to_first_line c ([], rest) = ([], c ∷ rest)
to_first_line c (line ∷ lines, rest) = ((c ∷ line) ∷ lines, rest)

unfoldable pub split_lines : Text → List Text × Text
unfolding to_first_line
split_lines [] = ([], [])
split_lines (c ∷ buf) =
    let more = split_lines buf in if c == 10 then ([] ∷ more.0, more.1) else to_first_line c more

-- `not line.strip()`
abbrev pub is_blank : Text → Bool
is_blank line = is_empty (strip line)

-- `_CODEX_RATE_LIMIT_SIGNATURE_PARTS`, `_CODEX_ROLLOUT_ERROR_SIGNATURE`,
-- `_CODEX_SESSION_HANDSHAKE_SIGNATURES`, `_CODEX_PREAMBLE_SIGNATURES`
abbrev pub rollout_error_signature : Text
rollout_error_signature = codes "no rollout found for thread id"

abbrev pub session_handshake_signatures : List Text
session_handshake_signatures = codes "thread.started" ∷ codes "turn.started" ∷ []

abbrev pub preamble_signatures : List Text
preamble_signatures = codes "Reading additional input from stdin" ∷ []

is_error_type : Option Text → Bool
unfolding text_eq
is_error_type none = false
is_error_type (some t) = text_eq t (codes "error")

has_rate_limit_parts : Option Text → Bool
unfolding contains
has_rate_limit_parts none = false
has_rate_limit_parts (some m) =
    contains (codes "exceeded retry limit") m && contains (codes "429") m

-- `_is_codex_rate_limit_exhaustion`, by what the line is as JSON.
unfoldable pub is_exhaustion : Loaded → Bool
unfolding is_error_type has_rate_limit_parts
is_exhaustion not_json = false
is_exhaustion no_object = false
is_exhaustion (object type message) = is_error_type type && has_rate_limit_parts message

-- What a line that is not blank tells about an attempt that has shown nothing yet.
pub data Kind : Type 0 where
  rate_limit_hit rollout_hit chatter real : Kind

-- "rate_limit" | "contention"
pub data Reason : Type 0 where
  rate_limit contention : Reason

-- The local variables of the loop.
pub record StreamState (W : Type 0) : Type 0 where
  pub live : Bool
  pub buffered_lines : List Text
  pub saw_rollout_signature : Bool
  pub saw_rate_limit_signature : Bool
  pub shown : W

abbrev pub is_zero : ℤ → Bool
is_zero (pos n) = n == 0
is_zero (negsuc n) = false

abbrev pub is_silent : List Text → Bool
is_silent [] = true
is_silent (x ∷ xs) = false

-- The reason at the end of an attempt, by its exit status.
unfoldable pub reason_of : {W : Type 0} → Bool → ℤ → StreamState W → Option Reason
reason_of codex_retryable returncode s =
    if codex_retryable && (not s.live && s.saw_rate_limit_signature)
    then some rate_limit
    else if codex_retryable
        && (not s.live
            && (not (is_zero returncode)
                || (not (is_silent s.buffered_lines) && not s.saw_rollout_signature)))
    then some contention
    else none

abbrev pub is_real : Kind → Bool
is_real real = true
is_real _ = false

abbrev pub or_zero : Option ℤ → ℤ
or_zero none = pos 0
or_zero (some returncode) = returncode

abbrev pub no_reason : Option Reason → Bool
no_reason none = true
no_reason (some r) = false

module _ (O : Outside) where
  unfoldable pub kind_of : Bool → Text → Kind
  unfolding is_exhaustion contains
  kind_of codex_retryable line =
      if codex_retryable && is_exhaustion (O.json_loads line)
      then rate_limit_hit
      else if codex_retryable && contains rollout_error_signature line
      then rollout_hit
      else if codex_retryable
          && (any (λ sig. contains sig line) session_handshake_signatures
              || any (λ sig. contains sig line) preamble_signatures)
      then chatter
      else real

  unfoldable pub publish_all : Text → List Text → O.World → O.World
  unfolding publish_line
  publish_all run_id [] w = w
  publish_all run_id (line ∷ lines) w = publish_all run_id lines (publish_line O run_id line w)

  -- A line of an attempt that is not live: it is held back, or it makes the attempt live.
  unfoldable pub on_kind : Text → Kind → Text → StreamState O.World → StreamState O.World
  unfolding publish_all publish_line
  on_kind run_id rate_limit_hit line s = record s {
    saw_rate_limit_signature = true;
    buffered_lines = s.buffered_lines ++ line ∷ [];
  }
  on_kind run_id rollout_hit line s = record s {
    saw_rollout_signature = true;
    buffered_lines = s.buffered_lines ++ line ∷ [];
  }
  on_kind run_id chatter line s = record s { buffered_lines = s.buffered_lines ++ line ∷ [] }
  on_kind run_id real line s = record s {
    live = true;
    buffered_lines = [];
    shown = publish_line O run_id line (publish_all run_id s.buffered_lines s.shown);
  }

  unfoldable pub handle_line : Bool → Text → Text → StreamState O.World → StreamState O.World
  unfolding kind_of on_kind strip publish_line
  handle_line codex_retryable run_id line s =
      if is_blank line
      then s
      else if s.live
      then record s { shown = publish_line O run_id line s.shown }
      else on_kind run_id (kind_of codex_retryable line) line s

  unfoldable pub handle_lines : Bool → Text → List Text → StreamState O.World → StreamState O.World
  unfolding handle_line
  handle_lines codex_retryable run_id [] s = s
  handle_lines codex_retryable run_id (line ∷ lines) s =
      handle_lines codex_retryable run_id lines (handle_line codex_retryable run_id line s)

  -- The chunks in turn: what is left of the buffer, and the variables.
  unfoldable pub handle_chunks :
      Bool → Text → List Text → Text → StreamState O.World → Text × StreamState O.World
  unfolding split_lines handle_lines
  handle_chunks codex_retryable run_id [] buf s = (buf, s)
  handle_chunks codex_retryable run_id (raw ∷ more) buf s =
      let split = split_lines (buf ++ raw) in
      handle_chunks codex_retryable run_id more split.1
        (handle_lines codex_retryable run_id split.0 s)

  abbrev pub begun : O.World → StreamState O.World
  begun w = record {
    live = false;
    buffered_lines = [];
    saw_rollout_signature = false;
    saw_rate_limit_signature = false;
    shown = w;
  }

  -- The `finally` of an attempt: the exit status, and stderr before the removal.
  unfoldable pub settle_attempt : Text → O.Handle → O.World → O.World × ℤ
  unfolding fetch_and_publish_cli_stderr
  settle_attempt run_id container w =
      let status = O.wait container w in
      (
        (O.remove container (fetch_and_publish_cli_stderr O container run_id status.0)).0,
        or_zero status.1,
      )

  -- The lines that were held back and what is left of the buffer, if no attempt follows.
  unfoldable pub flush : Bool → Text → List Text → Text → O.World → O.World
  unfolding publish_all publish_line strip
  flush wanted run_id held buf w =
      if wanted
      then (let shown = publish_all run_id held w in
          if is_blank buf then shown else publish_line O run_id buf shown)
      else w

  -- `_stream_cold_attempt`; `none` where the log stream raises.
  unfoldable pub stream_cold_attempt :
      O.Handle → Text → Bool → Bool → O.World → O.World × Option (ℤ × Option Reason)
  unfolding handle_chunks settle_attempt reason_of flush
  stream_cold_attempt container run_id codex_retryable is_last_attempt w =
      let stream = O.logs container in
      let r = handle_chunks codex_retryable run_id stream.0 [] (begun w) in
      let ended = settle_attempt run_id container r.1.shown in
      let reason = reason_of codex_retryable ended.1 r.1 in
      if stream.1 then (ended.0, none) else (
        flush (no_reason reason || is_last_attempt) run_id r.1.buffered_lines r.0 ended.0,
        some (ended.1, reason),
      )
