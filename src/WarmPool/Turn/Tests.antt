-- ===== src/WarmPool/Turn/Tests.antt =====
-- The theorems on `dispatch_turn` (warm_pool.py) at concrete inputs.
use aw_app_agents_platform_r.Prelude.{ℕ, true, false, none, some, []}
use aw_app_agents_platform_r.Prelude.Texts.{codes}
use aw_app_agents_platform_r.WarmPool.Turn.{Turn, Shell, dispatch_turn}
use aw_app_agents_platform_r.WarmPool.Turn.Fed.{traced, Traced, dispatch_turn-Traced}

abbrev compact : Turn
compact = record {
  run_id = codes "r1";
  prompt = codes "/compact";
  cli = codes "claude";
  notion_task_id = some (codes "t1");
  source_device = none;
  raw_prompt = true;
  gateway_bearer_token = none;
}

-- A container whose FIFO nobody reads.
abbrev wedged : Shell
wedged = record {
  World = ℕ;
  get = λ n w. (w, true);
  exec_run = λ c w. (w, some 0);
  open_fifo = λ w. (w, true);
  send_all = λ p w. (w, false);
  shut = λ w. w;
}

dispatch_turn-Traced_example :
    let (v, ended) = dispatch_turn (traced wedged) (codes "aw-warm-a-s") compact (7, []) in
    Traced (codes "aw-warm-a-s") compact ended v.1
dispatch_turn-Traced_example = dispatch_turn-Traced wedged (codes "aw-warm-a-s") compact 7
