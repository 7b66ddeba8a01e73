-- ===== src/Kanban/Sweep/Tests.antt =====
-- The theorems on `claim_card` and `sweep_ready` (kanban_dispatch.py) at concrete inputs: a board of
-- one card, whose property is the world.
use aw_app_agents_platform_r.Prelude.{◌≡◌, refl, false, some, [], ◌∷◌, ◌++◌, map, All}
use aw_app_agents_platform_r.Prelude.Texts.{Text, codes, strip}
use aw_app_agents_platform_r.Kanban.Card.{Field, absent, null, text, Card}
use aw_app_agents_platform_r.Kanban.Sweep.{
  value, Api, Options, get_runs, post_status, claim_card, sweep_card, sweep_ready,
}
use aw_app_agents_platform_r.Kanban.Sweep.Lease.{
  Cell, Answering, writes, reads, winners, winners-agree, claim_card-both_win,
}
use aw_app_agents_platform_r.Kanban.Sweep.Protocol.{
  Phase, resting, Ends, monitored, sweep_card-Ends, sweep_ready-Protocol,
}
use aw_app_agents_platform_r.Kanban.Sweep.DryRun.{Agrees, dry, live, logged, sweep_card-Agrees}

abbrev ready : Card
ready = record {
  page_id = text (codes "p1");
  title = text (codes "Fix it");
  status = text (codes "Ready");
  agent_slug = text (codes "fixer");
  workflow_slug = null;
  target_slug = absent;
  body_md = absent;
  comments_md = absent;
}

-- The platform answers 503 to every dispatch.
abbrev board : Api
board = record {
  World = Field;
  ready_cards = λ s n w. (w, value (ready ∷ []));
  card = λ p w. (w, value ready);
  set_run_id = λ p t w. (text t, value tt);
  read_run_id = λ p w. (w, value w);
  move_running = λ p w. (w, value tt);
  runs = λ p w. (w, get_runs []);
  post = λ path pl w. (w, post_status 503 (codes "busy"));
  uuid4 = λ w. (w, codes "u1");
}

board-Cell : Cell board (codes "p1")
board-Cell = record {
  cell = λ w. w;
  read_value = λ w f e. cc;
  after_reading = λ w. refl;
  after_writing = λ t w u e. refl;
}

board-Answering : Answering board (codes "p1")
board-Answering = record { write_answers = λ t w. refl; read_answers = λ w. (w, refl) }

abbrev options : Options
options = record { dry_run = false; claim_side = codes "mt"; this_workspace = codes "aw" }

winners-agree_example :
    (holder : Text) × All
      (λ u. u ≡ holder)
      (winners board
        (codes "p1")
        (map writes (codes "mt:1" ∷ codes "mono:2" ∷ [])
          ++ map reads (codes "mono:2" ∷ codes "mt:1" ∷ []))
        absent)
winners-agree_example =
    winners-agree board (codes "p1") board-Cell (codes "mt:1" ∷ codes "mono:2" ∷ [])
      (codes "mono:2" ∷ codes "mt:1" ∷ []) absent

claim_card-both_win_example :
    let first = claim_card board (codes "p1") (codes "mt") (some (codes "mt:1")) absent in
    (first.1 ≡ value (some (codes "mt:1")))
    × ((claim_card board (codes "p1") (codes "mono") (some (codes "mono:2")) first.0).1
        ≡ value (some (codes "mono:2")))
unfolding strip
claim_card-both_win_example =
    claim_card-both_win board (codes "p1") board-Cell (codes "mt") (codes "mono") (codes "mt:1")
      (codes "mono:2") absent board-Answering (refl, refl) (refl, refl)

sweep_card-Ends_example :
    Ends board (codes "p1") (sweep_card (monitored board) options ready (absent, some resting))
sweep_card-Ends_example = sweep_card-Ends board options ready absent resting

sweep_ready-Protocol_example :
    (p : Phase) × ((sweep_ready
        (monitored board)
        options
        (codes "ready")
        50
        (absent, some resting)).0.1
      ≡ some p)
sweep_ready-Protocol_example = sweep_ready-Protocol board options (codes "ready") 50 absent

sweep_card-Agrees_example :
    let (v, planned) = sweep_card (logged board) (dry options) ready (absent, []) in
    let (u, row) = sweep_card (logged board) (live options) ready (absent, []) in
    Agrees options ready (value ready) planned u.1 row × (v.1 ≡ [])
sweep_card-Agrees_example = sweep_card-Agrees board options ready absent
