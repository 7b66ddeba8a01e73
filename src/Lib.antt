-- ===== src/Lib.antt =====
-- Verification library of the agents-platform runners app (the Python package
-- agents_platform_runners_app).
--
-- The app runs the agents of a workspace in containers. A job is dispatched to
-- agents_platform_runners_app/execute.py, which runs it in a container of its own and streams its lines
-- through Redis, tries a job of Codex again when an attempt showed nothing, and aborts a job by killing
-- its container. A turn of a session goes to a warm container that the warm pool keeps for the session
-- (agents_platform_runners_app/warm_pool.py), or to a container of its own when the pool is full; the
-- finished run is indexed at two services (agents_platform_runners_app/execution_index.py), of which one
-- keeps the chunks in a table of PostgreSQL (agents_platform_runners_app/exec_index_store.py). A watchdog
-- fires runs for the Ready cards of a Kanban board (agents_platform_runners_app/kanban_dispatch.py),
-- and another renews the token by which the workspace is known to the platform
-- (agents_platform_runners_app/identity_token.py). These six modules are modelled; the services
-- outside of the repository that they call are parameters of the model.
--
-- How the model is read:
--   * Code that changes state passes a world on. The services that it calls are the fields of a record
--     (`Engine`, `Shell`, `Web`, `RedisHash`, `Api`, `Host`, `Outside`); what their documentation promises is a
--     second record of laws (`Lawful`, `Ticks`, `HashLaws`, `Cell`, `LawfulRedis`, `Clock`, `Forward`), which a theorem takes only where
--     it needs it. A call that raises answers `none`, `false` or a constructor for it.
--   * A function of the code is split into one definition for each step behind a call, in the order of
--     the code; logging is left out.
--   * One call runs at a time: threads and the locks of sessions are not modelled, but for the claims on
--     a card (Kanban/Sweep/Lease), where the halves of several claims interleave, and for an abort against
--     the worker of its run (Execute/Abort/Race), whose steps interleave as a relation.
--   * Texts are lists of code points. The times of the warm pool are in microseconds, those of the
--     index in milliseconds, those of a token whole numbers of one unit.
--
-- Files, with the functions that they model:
--   Prelude           lists, texts and decimal numbers as Python has them, and actions on a world
--   WarmPool/Names    warm_container_name, the name of a drainer and what reap reads in it
--   WarmPool/Config   _truthy, _resolve_max_warm, max_warm, configure, enabled
--   WarmPool/Engine   the docker SDK as the pool uses it, and its laws
--   WarmPool/Acquire  get_or_create, _check_ceiling, _labels, _is_running, _created_age_s,
--                     _container_age_s, _wait_ready; its children are about what a call returns and leaves
--   WarmPool/Reap     reap and _condemn_over_ttl; its children are about what becomes of each container
--   WarmPool/Drain    drain
--   WarmPool/Turn     dispatch_turn, _with_claude_turn_context, _sh
--   WarmPool/Inventory  list_containers, _infer_cli
--   ExecutionIndex/Gate     _interesting, _event_kind
--   ExecutionIndex/Chunks   redact, _split, _event_text, _chunks
--   ExecutionIndex/Targets  _Target, exec_index_targets
--   ExecutionIndex/Run      index_run, _post_to_target
--   ExecutionIndex/Retry    _queue_retry, _index_and_maybe_queue_retry, sweep_retry_queue,
--                           retry_queue_snapshot
--   Kanban/Card       build_run_input, dispatch_payload, resume_payload
--   Kanban/Sweep      claim_card, PlatformClient, sweep_ready
--   Execute/Outside   Redis, the engine and the clock as execute.py uses them
--   Execute/Bounded   _bounded_put, start_job
--   Execute/Publish   _publish_line, _fetch_and_publish_cli_stderr, _publish_done
--   Execute/Registry  remember_container, lookup_container, forget_container, mark_aborted, is_aborted,
--                     clear_abort, _forget_run, abort_candidates
--   Execute/Abort     abort_job, _mark_hard_kill; Race is about its interleaving with the worker
--   Execute/Stream    _stream_cold_attempt, _is_codex_rate_limit_exhaustion
--   Execute/Cooldown  _codex_429_cooldown_arm, _codex_429_cooldown_wait, _sleep_abortable
--   Execute/Retry     _run_cold_agent_with_retry
--   Execute/Job       _run_job_blocking, mint_warm_session_id, _dispatch_warm_turn
--   Execute/Frame     what the calls of a job's attempts leave alone
--   IndexStore        upsert_chunks, delete_run; its children are about the keys of the table, what a
--                     call leaves in it, and the chunks that ExecutionIndex sends
--   IdentityToken     _decode_claims, needs_refresh, _mint, _persist, _mint_and_persist,
--                     push_skills_token, refresh
--
-- Fuel: _wait_ready sleeps 0.3 seconds a round against a deadline of 10 seconds, so 35 rounds are
-- enough; drain sleeps 5 seconds a round against 900, with 182 rounds. The polling of index_run
-- sleeps at least 0.25 seconds a round, so its fuel is the deadline in quarters of a second and
-- two more. The sleep between two attempts of a job
-- takes slices of a second, with one for each second and two more. This supposes a clock that no call turns back and sleeps that last. The slices of a
-- text and the pairs of events take its length as fuel.
--
-- Not modelled: in the warm pool maybe_reap's throttle, the generation key in Redis, and the
-- parsing of an ISO timestamp; in the index the regular expressions of the redactions, the
-- metadata of a chunk, the hourly counters and that of exhausted retries, a Redis that is not connected
-- or whose commands fail; in the Kanban bridge the
-- HTTP code of BoardClient and the addresses; fields of JSON that are of another type than
-- documented, where the code does not test for it; in execute.py the arguments of containers
-- (_build_container_kwargs, _build_warm_kwargs) with the mounts of permissions and credentials, the
-- inbound attachments, the prompt of a warm turn, and the warning about a revoked token, while the log
-- of a container is given as the chunks of decoded text that it yields; in the index store the schema,
-- the search, the pruning and the status, and numbers of chunks that are negative; and the other modules of the
-- app (routes.py, mcp_server.py, plugin.py, agent_provisioner.py, gallery.py and
-- smaller ones). The settings that platform_base.py resolves, addresses and the workspace's name,
-- are given.
pub mod Prelude
pub mod WarmPool
pub mod ExecutionIndex
pub mod Kanban
pub mod IdentityToken
pub mod Execute
pub mod IndexStore
