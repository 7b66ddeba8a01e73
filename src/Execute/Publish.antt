-- ===== src/Execute/Publish.antt =====
-- execute.py: the entries of a run's Redis stream, `_publish_line`, `_publish_stderr_line`,
-- `_fetch_and_publish_cli_stderr`, `_publish_done`.
use aw_app_agents_platform_r.Prelude.{ℕ, Option, none, some, ◌++◌, if◌then◌else◌, ℤ}
use aw_app_agents_platform_r.Prelude.Texts.{Text, codes, is_empty, strip}
use aw_app_agents_platform_r.Execute.Outside.{Outside, Message, cli_stderr}

-- `_stream_key`
unfoldable pub stream_key : Text → Text
stream_key run_id = codes "run:" ++ (run_id ++ codes ":events")

abbrev pub stream_ttl_s : ℕ
stream_ttl_s = 86400

abbrev pub or_unchanged : Text → Option Text → Text
or_unchanged line none = line
or_unchanged line (some rewritten) = rewritten

module _ (O : Outside) where
  -- `_publish_line`
  unfoldable pub publish_line : Text → Text → O.World → O.World
  unfolding stream_key
  publish_line run_id line w =
      let r = O.rewrite_stream_line line run_id w in
      (O.xadd_line (stream_key run_id) (or_unchanged line r.1) r.0).0

  unfoldable pub publish_message : Text → Message → O.World → O.World
  unfolding publish_line
  publish_message run_id m w = publish_line run_id (O.json_dumps m) w

  unfoldable pub on_stderr : Text → Option Text → O.World → O.World
  unfolding publish_message strip
  on_stderr run_id none w = w
  on_stderr run_id (some text) w =
      if is_empty (strip text) then w else publish_message run_id (cli_stderr text) w

  -- `_fetch_and_publish_cli_stderr`
  unfoldable pub fetch_and_publish_cli_stderr : O.Handle → Text → O.World → O.World
  unfolding on_stderr
  fetch_and_publish_cli_stderr container run_id w =
      let r = O.read_stderr container w in on_stderr run_id r.1 r.0

  -- `_publish_done`
  unfoldable pub publish_done : Text → ℤ → O.World → O.World
  unfolding stream_key
  publish_done run_id returncode w =
      let r = O.xadd_done (stream_key run_id) returncode w in
      if r.1 then (O.expire (stream_key run_id) stream_ttl_s r.0).0 else r.0
