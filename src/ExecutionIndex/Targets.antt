-- ===== src/ExecutionIndex/Targets.antt =====
-- execution_index.py: the write targets of the index and the names of the counters.
use aw_app_agents_platform_r.Prelude.{
  ◌≡◌, refl, Bool, true, false, Option, none, some, List, [], ◌∷◌, ◌++◌, if◌then◌else◌, ◌==◌,
}
use mathlib.Core.List.{reverse}
use aw_app_agents_platform_r.Prelude.Texts.{Text, codes, strip, is_empty}

-- `_Target`
pub record Target : Type 0 where
  pub phase : Text
  pub url : Text
  pub secret_header : Text
  pub success_counter : Text
  pub legacy_names : Bool

-- `_Target.counter`
unfoldable pub counter : Target → Text → Text
counter t suffix =
    if t.legacy_names
    then codes "skipped:" ++ suffix
    else codes "skipped:" ++ (t.phase ++ (codes ":" ++ suffix))

-- f"skipped:{phase}:{type(exc).__name__}"
abbrev pub phase_counter : Text → Text → Text
phase_counter phase error = codes "skipped:" ++ (phase ++ (codes ":" ++ error))

drop_slashes : Text → Text
drop_slashes [] = []
drop_slashes (c ∷ s) = let rest = drop_slashes s in if c == b'/' then rest else c ∷ s

-- `.rstrip("/")`
unfoldable pub rstrip_slash : Text → Text
unfolding drop_slashes
rstrip_slash t = reverse (drop_slashes (reverse t))

abbrev pub default_to : Text → Option Text → Text
default_to d none = d
default_to d (some t) = t

abbrev pub kb_target : Text → Target
kb_target base = record {
  phase = codes "kb_post";
  url = base ++ codes "/api/kb/executions";
  secret_header = codes "X-KB-Exec-Secret";
  success_counter = codes "indexed:kb";
  legacy_names = true;
}

abbrev pub exec_target : Text → Target
exec_target base = record {
  phase = codes "exec_post";
  url = base ++ codes "/executions";
  secret_header = codes "X-Exec-Index-Secret";
  success_counter = codes "indexed:exec";
  legacy_names = false;
}

abbrev target_unless_blank : Text → (Text → Target) → List Target → List Target
target_unless_blank base make rest = if is_empty base then rest else make base ∷ rest

-- The keys of the app's config that the index reads; an absent key is `none`.
pub record IndexConfig : Type 0 where
  pub execution_index_mode : Option Text
  pub kb_base_url : Option Text
  pub exec_index_url : Option Text

-- `exec_index_targets`
unfoldable pub exec_index_targets : IndexConfig → List Target
unfolding rstrip_slash
exec_index_targets cfg =
    target_unless_blank
      (rstrip_slash (strip (default_to (codes "http://aw-app-kb:8000") cfg.kb_base_url))) kb_target
      (target_unless_blank
        (rstrip_slash (strip (default_to (codes "http://127.0.0.1:9408") cfg.exec_index_url)))
        exec_target [])

both_by_default :
    exec_index_targets
      (record { execution_index_mode = none; kb_base_url = none; exec_index_url = none })
    ≡ kb_target (codes "http://aw-app-kb:8000") ∷ exec_target (codes "http://127.0.0.1:9408") ∷ []
unfolding exec_index_targets strip
both_by_default = refl
