-- ===== src/Execute/Job/Tally.antt =====
-- execute.py: a tally of what a job does once, and the ends that its exits share.
use aw_app_agents_platform_r.Prelude.{ℕ, suc, ◌≡◌, refl, ap, ◌∙◌, ℤ, Bool-cases, inl, inr}
use aw_app_agents_platform_r.Prelude.Texts.{Text}
use aw_app_agents_platform_r.Execute.Outside.{Outside, result}
use aw_app_agents_platform_r.Execute.Publish.{stream_key, publish_message, publish_done}
use aw_app_agents_platform_r.Execute.Registry.{Process}
use aw_app_agents_platform_r.Execute.Frame.{Frame, view-publish_message}
use aw_app_agents_platform_r.Execute.Frame.Waits.{view-forget_run}
use aw_app_agents_platform_r.Execute.Job.{
  Host, Route, no_redis, went_warm, warm_error, aborted_before_spawn, spawn_failed, ran_raw,
  ran_cold, publish_result, conclude, report_end, leave,
}

-- How often `done` was published, the index started, its start behind `done` arranged, and the Redis
-- client closed.
pub record Tally : Type 0 where
  pub dones : ℕ
  pub starts : ℕ
  pub starts_after : ℕ
  pub closes : ℕ

abbrev pub tallied : Outside → Outside
tallied O = record {
  World = O.World × Tally;
  Handle = O.Handle;
  json_dumps = O.json_dumps;
  json_loads = O.json_loads;
  rewrite_stream_line = λ t i w. let (v, a) = O.rewrite_stream_line t i w.0 in ((v, w.1), a);
  redis_get = λ k w. let (v, a) = O.redis_get k w.0 in ((v, w.1), a);
  redis_set = λ k t n w. let (v, a) = O.redis_set k t n w.0 in ((v, w.1), a);
  redis_delete = λ k w. let (v, a) = O.redis_delete k w.0 in ((v, w.1), a);
  redis_close = λ w. (O.redis_close w.0, record w.1 { closes = suc w.1.closes });
  xadd_line = λ k t w. let (v, a) = O.xadd_line k t w.0 in ((v, w.1), a);
  xadd_done =
      λ k c w. let (v, a) = O.xadd_done k c w.0 in ((v, record w.1 { dones = suc w.1.dones }), a);
  expire = λ k n w. let (v, a) = O.expire k n w.0 in ((v, w.1), a);
  connect_engine = λ w. let (v, a) = O.connect_engine w.0 in ((v, w.1), a);
  get_container = λ n w. let (v, a) = O.get_container n w.0 in ((v, w.1), a);
  kill = λ h w. let (v, a) = O.kill h w.0 in ((v, w.1), a);
  remove = λ h w. let (v, a) = O.remove h w.0 in ((v, w.1), a);
  read_stderr = λ h w. let (v, a) = O.read_stderr h w.0 in ((v, w.1), a);
  logs = O.logs;
  wait = λ h w. let (v, a) = O.wait h w.0 in ((v, w.1), a);
  run_container = λ w. let (v, a) = O.run_container w.0 in ((v, w.1), a);
  monotonic = λ w. let (v, a) = O.monotonic w.0 in ((v, w.1), a);
  sleep = λ n w. (O.sleep n w.0, w.1);
  uniform = λ a b w. let (v, x) = O.uniform a b w.0 in ((v, w.1), x);
}

abbrev pub tallied_host : (O : Outside) → Host O → Host (tallied O)
tallied_host O H = record {
  warm_enabled = H.warm_enabled;
  uuid4 = λ w. let (v, a) = H.uuid4 w.0 in ((v, w.1), a);
  materialise_inbound = λ j w. let (v, a) = H.materialise_inbound j w.0 in ((v, w.1), a);
  pull_warm = λ j w. let (v, a) = H.pull_warm j w.0 in ((v, w.1), a);
  acquire = λ j w. let (v, a) = H.acquire j w.0 in ((v, w.1), a);
  feed_turn = λ j n w. let (v, a) = H.feed_turn j n w.0 in ((v, w.1), a);
  maybe_reap = λ w. (H.maybe_reap w.0, w.1);
  prepare_cold = λ j w. let (v, a) = H.prepare_cold j w.0 in ((v, w.1), a);
  container_name = H.container_name;
  container_logs = λ h w. let (v, a) = H.container_logs h w.0 in ((v, w.1), a);
  start_timer = λ h n w. (H.start_timer h n w.0, w.1);
  cancel_timer = λ w. (H.cancel_timer w.0, w.1);
  index_start = λ r w. (H.index_start r w.0, record w.1 { starts = suc w.1.starts });
  index_start_after_done =
      λ r w. (H.index_start_after_done r w.0, record w.1 { starts_after = suc w.1.starts_after });
}

abbrev pub closed : Tally → Tally
closed t = record t { closes = suc t.closes }

abbrev pub concluded : Tally → Tally
concluded t = record t { dones = suc t.dones; starts = suc t.starts }

-- What a job has done once, by the way it leaves.
abbrev pub tally_of : Route → Tally → Tally
tally_of no_redis t = t
tally_of went_warm t = closed (record t { starts_after = suc t.starts_after })
tally_of warm_error t = closed (concluded t)
tally_of aborted_before_spawn t = closed (concluded t)
tally_of spawn_failed t = concluded t
tally_of ran_raw t = closed (concluded t)
tally_of ran_cold t = closed (concluded t)

module _ (O : Outside) (H : Host O) where
  abbrev T : Outside
  T = tallied O

  abbrev HT : Host T
  HT = tallied_host O H

  abbrev pub frame : Frame T
  frame = record {
    View = Tally;
    view = λ w. w.1;
    rewrite = λ i t w. refl;
    get = λ k w. refl;
    set = λ k t n w. refl;
    delete = λ k w. refl;
    line = λ k t w. refl;
    expired = λ k n w. refl;
    removed = λ h w. refl;
    stderr = λ h w. refl;
    waited = λ h w. refl;
    clock = λ w. refl;
    slept = λ n w. refl;
    random = λ a b w. refl;
  }

  pub conclude-tally : (r : Text) (c : ℤ) (w : T.World) → (conclude T HT r c w).1 ≡ concluded w.1
  unfolding conclude publish_done
  conclude-tally r c w = elim (Bool-cases (O.xadd_done (stream_key r) c w.0).1) [
    | inl ok ↦ rw ok refl
    | inr raised ↦ rw raised refl
  ]

  pub leave-tally : (r : Text) (p : Process T.World) → (leave T HT r p).world.1 ≡ closed p.world.1
  unfolding leave
  leave-tally r p = ap closed (view-forget_run T frame r p)

  pub report_end-tally :
      (r subtype text : Text) (c : ℤ) (w : T.World)
      → (report_end T HT r subtype text c w).1 ≡ concluded w.1
  unfolding report_end publish_result
  report_end-tally r subtype text c w =
      conclude-tally r c (publish_message T r (result subtype text) w)
      ∙ ap concluded (view-publish_message T frame r (result subtype text) w)

  -- A job that leaves by a route did what the route says, from a tally.
  abbrev pub Tallied : Tally → Process T.World × Route → Type 0
  Tallied t e = e.0.world.1 ≡ tally_of e.1 t
