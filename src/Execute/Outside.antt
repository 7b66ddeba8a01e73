-- ===== src/Execute/Outside.antt =====
-- What execute.py calls that is not its own code: the Redis client, the container engine through the
-- docker SDK, the clock, and the loaded aw_attach.py. A call that raises answers `none` or `false`.
use aw_app_agents_platform_r.Prelude.{ℕ, Bool, Option, List, ℤ}
use aw_app_agents_platform_r.Prelude.Texts.{Text}

-- The objects that the code serialises as one line of the run's stream.
pub data Message : Type 0 where
  -- {"type": "cli.stderr", "text": …}
  cli_stderr : Text → Message
  -- {"type": "runner.notice", "text": …} of `_codex_429_cooldown_wait`
  cooldown_notice : Message
  -- {"type": "runner.notice", "text": …} of a backoff in milliseconds before an attempt
  backoff_notice : ℕ → ℕ → Message
  -- {"type": "result", "subtype": …, "is_error": True, "result": …}: the subtype, and the text up to
  -- that of the exception
  result : Text → Text → Message

-- `json.loads` of a line, as far as the code looks at it: an object's "type" and "message", where they
-- are texts.
pub data Loaded : Type 0 where
  not_json no_object : Loaded
  object : Option Text → Option Text → Loaded

-- `redis_get` answers the value that is set, if one is; `redis_set` takes the seconds it is kept.
-- `logs` is a container's stdout as the chunks of its stream, decoded one by one, and whether the
-- stream breaks behind them; `wait` is the exit status; `sleep` and `uniform` are in milliseconds.
pub record Outside : Type 1 where
  pub World : Type 0
  pub Handle : Type 0
  pub json_dumps : Message → Text
  pub json_loads : Text → Loaded
  pub rewrite_stream_line : Text → Text → World → World × Option Text
  pub redis_get : Text → World → World × Option (Option Text)
  pub redis_set : Text → Text → ℕ → World → World × Bool
  pub redis_delete : Text → World → World × Bool
  pub redis_close : World → World
  pub xadd_line : Text → Text → World → World × Bool
  pub xadd_done : Text → ℤ → World → World × Bool
  pub expire : Text → ℕ → World → World × Bool
  pub connect_engine : World → World × Bool
  pub get_container : Text → World → World × Option Handle
  pub kill : Handle → World → World × Bool
  pub remove : Handle → World → World × Bool
  pub read_stderr : Handle → World → World × Option Text
  pub logs : Handle → List Text × Bool
  pub wait : Handle → World → World × Option ℤ
  pub run_container : World → World × Option Handle
  pub monotonic : World → World × ℕ
  pub sleep : ℕ → World → World
  pub uniform : ℕ → ℕ → World → World × ℕ
