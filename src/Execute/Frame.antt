-- ===== src/Execute/Frame.antt =====
-- A view of the outside world that the calls of a job's attempts leave alone: all calls of execute.py
-- but those that start or kill a container, connect to the engine, or publish `done`.
pub mod Waits
pub mod Attempts
use aw_app_agents_platform_r.Prelude.{
  ℕ, zero, suc, min, ◌-◌, ◌≡◌, refl, sym, ap, ◌∙◌, Bool, true, false, Option, none, some, List, [],
  ◌∷◌, ◌++◌, ◌||◌, if◌then◌else◌, is_some, Bool-cases, inl, inr, leb, ◌+◌, ◌/◌, ◌*◌,
}
use aw_app_agents_platform_r.Prelude.Texts.{Text, is_empty, strip}
use aw_app_agents_platform_r.Execute.Outside.{
  Outside, Message, cooldown_notice, backoff_notice, result, cli_stderr,
}
use aw_app_agents_platform_r.Execute.Bounded.{get_item, pop_item, bounded_put}
use aw_app_agents_platform_r.Execute.Publish.{
  stream_key, or_unchanged, publish_line, publish_message, on_stderr, fetch_and_publish_cli_stderr,
}
use aw_app_agents_platform_r.Execute.Registry.{
  Process, mirror, read_mirror, is_aborted, remember_container, forget_container, clear_abort,
  forget_run, abort_flag_key,
}
use aw_app_agents_platform_r.Execute.Stream.{
  Kind, rate_limit_hit, rollout_hit, chatter, real, is_blank, split_lines, StreamState, begun,
  kind_of, publish_all, on_kind, handle_line, handle_lines, handle_chunks, settle_attempt, flush,
  reason_of, no_reason, Reason, rate_limit, contention, stream_cold_attempt,
}
use aw_app_agents_platform_r.Execute.Cooldown.{
  CooldownLook, proceeds, stops, again, next_ttl, set_cooldown, on_previous, cooldown_arm, at_world,
  on_look, poll_cooldown, after_poll, wait_turns, wait_polls, cooldown_wait, sleep_until,
  sleep_abortable, cooldown_key,
}

pub record Frame (O : Outside) : Type 1 where
  pub View : Type 0
  pub view : O.World → View
  pub rewrite : (i t : Text) (w : O.World) → view (O.rewrite_stream_line i t w).0 ≡ view w
  pub get : (k : Text) (w : O.World) → view (O.redis_get k w).0 ≡ view w
  pub set : (k t : Text) (n : ℕ) (w : O.World) → view (O.redis_set k t n w).0 ≡ view w
  pub delete : (k : Text) (w : O.World) → view (O.redis_delete k w).0 ≡ view w
  pub line : (k t : Text) (w : O.World) → view (O.xadd_line k t w).0 ≡ view w
  pub expired : (k : Text) (n : ℕ) (w : O.World) → view (O.expire k n w).0 ≡ view w
  pub removed : (h : O.Handle) (w : O.World) → view (O.remove h w).0 ≡ view w
  pub stderr : (h : O.Handle) (w : O.World) → view (O.read_stderr h w).0 ≡ view w
  pub waited : (h : O.Handle) (w : O.World) → view (O.wait h w).0 ≡ view w
  pub clock : (w : O.World) → view (O.monotonic w).0 ≡ view w
  pub slept : (n : ℕ) (w : O.World) → view (O.sleep n w) ≡ view w
  pub random : (a b : ℕ) (w : O.World) → view (O.uniform a b w).0 ≡ view w

module _ (O : Outside) (F : Frame O) where
  pub view-publish_line : (r t : Text) (w : O.World) → F.view (publish_line O r t w) ≡ F.view w
  unfolding publish_line
  view-publish_line r t w =
      let a = O.rewrite_stream_line t r w in
      F.line (stream_key r) (or_unchanged t a.1) a.0 ∙ F.rewrite t r w

  pub view-publish_message :
      (r : Text) (m : Message) (w : O.World) → F.view (publish_message O r m w) ≡ F.view w
  unfolding publish_message
  view-publish_message r m w = view-publish_line r (O.json_dumps m) w

  view-on_stderr :
      (r : Text) (t : Option Text) (w : O.World) → F.view (on_stderr O r t w) ≡ F.view w
  unfolding on_stderr
  view-on_stderr r none w = refl
  view-on_stderr r (some t) w = elim (Bool-cases (is_empty (strip t))) [
    | inl blank ↦ rw blank refl
    | inr full ↦ rw full (view-publish_message r (cli_stderr t) w)
  ]

  view-settle_attempt :
      (r : Text) (h : O.Handle) (w : O.World) → F.view (settle_attempt O r h w).0 ≡ F.view w
  unfolding settle_attempt fetch_and_publish_cli_stderr on_stderr
  view-settle_attempt r h w =
      let w1 = (O.wait h w).0 in
      let a = O.read_stderr h w1 in
      F.removed h (on_stderr O r a.1 a.0)
      ∙ (view-on_stderr r a.1 a.0 ∙ (F.stderr h w1 ∙ F.waited h w))

  view-publish_all :
      (r : Text) (ls : List Text) (w : O.World) → F.view (publish_all O r ls w) ≡ F.view w
  unfolding publish_all
  view-publish_all r [] w = refl
  view-publish_all r (l ∷ ls) w =
      view-publish_all r ls (publish_line O r l w) ∙ view-publish_line r l w

  view-on_kind :
      (r : Text) (k : Kind) (l : Text) (s : StreamState O.World)
      → F.view (on_kind O r k l s).shown ≡ F.view s.shown
  unfolding on_kind
  view-on_kind r rate_limit_hit l s = refl
  view-on_kind r rollout_hit l s = refl
  view-on_kind r chatter l s = refl
  view-on_kind r real l s = view-publish_line r l _ ∙ view-publish_all r s.buffered_lines s.shown

  view-either :
      (b : Bool) (s t : StreamState O.World) (v : F.View)
      → F.view s.shown ≡ v
      → F.view t.shown ≡ v
      → F.view (if b then s else t).shown ≡ v
  view-either true s t v e f = e
  view-either false s t v e f = f

  view-handle_line :
      (cr : Bool) (r l : Text) (s : StreamState O.World)
      → F.view (handle_line O cr r l s).shown ≡ F.view s.shown
  unfolding handle_line
  view-handle_line cr r l s =
      view-either (is_blank l) s
        (if s.live
          then record s { shown = publish_line O r l s.shown }
          else on_kind O r (kind_of O cr l) l s)
        (F.view s.shown) refl
        (view-either s.live (record s { shown = publish_line O r l s.shown })
          (on_kind O r (kind_of O cr l) l s) (F.view s.shown) (view-publish_line r l s.shown)
          (view-on_kind r (kind_of O cr l) l s))

  view-handle_lines :
      (cr : Bool) (r : Text) (ls : List Text) (s : StreamState O.World)
      → F.view (handle_lines O cr r ls s).shown ≡ F.view s.shown
  unfolding handle_lines
  view-handle_lines cr r [] s = refl
  view-handle_lines cr r (l ∷ ls) s =
      view-handle_lines cr r ls (handle_line O cr r l s) ∙ view-handle_line cr r l s

  view-handle_chunks :
      (cr : Bool) (r : Text) (chunks : List Text) (buf : Text) (s : StreamState O.World)
      → F.view (handle_chunks O cr r chunks buf s).1.shown ≡ F.view s.shown
  unfolding handle_chunks
  view-handle_chunks cr r [] buf s = refl
  view-handle_chunks cr r (raw ∷ more) buf s =
      view-handle_chunks cr r more _ (handle_lines O cr r (split_lines (buf ++ raw)).0 s)
      ∙ view-handle_lines cr r (split_lines (buf ++ raw)).0 s

  view-flush :
      (wanted : Bool) (r : Text) (held : List Text) (buf : Text) (w : O.World)
      → F.view (flush O wanted r held buf w) ≡ F.view w
  unfolding flush
  view-flush false r held buf w = refl
  view-flush true r held buf w = elim (Bool-cases (is_blank buf)) [
    | inl blank ↦ rw blank (view-publish_all r held w)
    | inr full ↦ rw full (view-publish_line r buf _ ∙ view-publish_all r held w)
  ]

  pub view-stream_cold_attempt :
      (h : O.Handle) (r : Text) (cr last : Bool) (w : O.World)
      → F.view (stream_cold_attempt O h r cr last w).0 ≡ F.view w
  unfolding stream_cold_attempt
  view-stream_cold_attempt h r cr last w =
      let q = handle_chunks O cr r (O.logs h).0 [] (begun O w) in
      let e = settle_attempt O r h q.1.shown in
      let chunks =
        view-settle_attempt r h q.1.shown ∙ view-handle_chunks cr r (O.logs h).0 [] (begun O w) in
      elim (Bool-cases (O.logs h).1) [
        | inl broke ↦ rw broke chunks
        | inr whole ↦ rw whole (
            view-flush (no_reason (reason_of cr e.1 q.1) || last) r q.1.buffered_lines q.0 e.0
            ∙ chunks)
      ]
