-- ===== src/WarmPool/Turn/Fed.antt =====
-- The calls that `dispatch_turn` (warm_pool.py) makes, and the prompt that it feeds.
use aw_app_agents_platform_r.Prelude.{
  ℕ, ◌≡◌, refl, Bool, true, false, ◌||◌, Option, none, some, List, [], ◌∷◌, ◌++◌, if◌then◌else◌,
  ◌==◌, Bool-cases, inl, inr, ◌≢◌, arith,
}
use aw_app_agents_platform_r.Prelude.Texts.{Text, codes, text_eq}
use aw_app_agents_platform_r.WarmPool.Turn.{
  Turn, with_parts, turn_header, turn_footer, join_words, with_claude_turn_context, setup_cmd,
  TurnPayload, codex_prompt, user_message, payload, Shell, Dispatched, no_container, exec_failed,
  setup_refused, fifo_failed, write_failed, written, on_open, on_setup, on_found, dispatch_turn,
}

-- A call, with its answer.
pub data ShellCall : Type 0 where
  gets : Text → Bool → ShellCall
  execs : Text → Option ℕ → ShellCall
  opens : Bool → ShellCall
  sends : TurnPayload → Bool → ShellCall
  shuts : ShellCall

abbrev pub traced : Shell → Shell
traced S = record {
  World = S.World × List ShellCall;
  get = λ n w. let (v, r) = S.get n w.0 in ((v, w.1 ++ (gets n r ∷ [])), r);
  exec_run = λ c w. let (v, r) = S.exec_run c w.0 in ((v, w.1 ++ (execs c r ∷ [])), r);
  open_fifo = λ w. let (v, r) = S.open_fifo w.0 in ((v, w.1 ++ (opens r ∷ [])), r);
  send_all = λ p w. let (v, r) = S.send_all p w.0 in ((v, w.1 ++ (sends p r ∷ [])), r);
  shut = λ w. (S.shut w.0, w.1 ++ (shuts ∷ []));
}

-- The calls up to the setup, with their answers, and all calls of a turn that was set up.
abbrev pub up_to_setup : Text → Turn → Option ℕ → List ShellCall → List ShellCall
up_to_setup name t rc rest = gets name true ∷ execs (setup_cmd t) rc ∷ rest

abbrev pub sent_calls : Text → Turn → Bool → List ShellCall
sent_calls name t ok = up_to_setup name t (some 0) (opens true ∷ sends (payload t) ok ∷ shuts ∷ [])

-- The calls and the answers that lead to each end of a dispatch.
abbrev pub Traced : Text → Turn → Dispatched → List ShellCall → Type 0
Traced name t no_container log = log ≡ gets name false ∷ []
Traced name t exec_failed log = log ≡ up_to_setup name t none []
Traced name t setup_refused log = (rc : ℕ) × (rc ≢ 0) × (log ≡ up_to_setup name t (some rc) [])
Traced name t fifo_failed log = log ≡ up_to_setup name t (some 0) (opens false ∷ [])
Traced name t write_failed log = log ≡ sent_calls name t false
Traced name t written log = log ≡ sent_calls name t true

-- The prompt as the CLI reads it.
abbrev pub text_of : TurnPayload → Text
text_of (codex_prompt t) = t
text_of (user_message t) = t

module _ (S : Shell) where
  abbrev T : Shell
  T = traced S

  on_open-Traced :
      (name : Text) (t : Turn) (ok : Bool) (w : S.World)
      → let r = on_open T t ok (w, up_to_setup name t (some 0) (opens ok ∷ [])) in
        Traced name t r.1 r.0.1
  unfolding on_open
  on_open-Traced name t false w = refl
  on_open-Traced name t true w = by_send (S.send_all (payload t) w).1
    where
      by_send :
          (b : Bool) → Traced name t (if b then written else write_failed) (sent_calls name t b)
      by_send true = refl
      by_send false = refl

  on_setup-Traced :
      (name : Text) (t : Turn) (rc : Option ℕ) (w : S.World)
      → let r = on_setup T t rc (w, up_to_setup name t rc []) in Traced name t r.1 r.0.1
  unfolding on_setup
  on_setup-Traced name t none w = refl
  on_setup-Traced name t (some rc) w = elim (Bool-cases (rc == 0)) [
    | inl fine ↦
        let zero_rc : rc ≡ 0 = ground (arith, fine) in
        rw zero_rc (on_open-Traced name t (S.open_fifo w).1 (S.open_fifo w).0)
    | inr bad ↦ rw bad (rc, (λ e. ground (arith, e, bad)), refl)
  ]

  -- How a dispatch ends tells which calls it made, with which arguments, and what each answered: the
  -- turn is written only where the container was found, the command that sets its id and environment
  -- exited with 0 and the FIFO was opened; it is written at most once; and the socket is closed behind
  -- the write, also where that failed.
  pub dispatch_turn-Traced :
      (name : Text) (t : Turn) (w : S.World)
      → let (v, ended) = dispatch_turn T name t (w, []) in Traced name t ended v.1
  unfolding dispatch_turn on_found
  dispatch_turn-Traced name t w = by_found (S.get name w).1 (S.get name w).0
    where
      by_found :
          (b : Bool) (v : S.World)
          → let r = on_found T t b (v, gets name b ∷ []) in Traced name t r.1 r.0.1
      by_found false v = refl
      by_found true v =
          on_setup-Traced name t (S.exec_run (setup_cmd t) v).1 (S.exec_run (setup_cmd t) v).0

with_parts-prompt :
    (ps : List Text) (prompt : Text) → (before : Text) × (with_parts ps prompt ≡ before ++ prompt)
unfolding with_parts join_words
with_parts-prompt [] prompt = ([], refl)
with_parts-prompt (p ∷ ps) prompt = (turn_header ++ join_words (p ∷ ps) ++ turn_footer, refl)

-- The text that a turn feeds ends with the prompt, whichever the CLI; for Codex, and for a raw prompt
-- such as a slash command, it is the prompt.
pub payload-prompt :
    (t : Turn)
    → ((before : Text) × (text_of (payload t) ≡ before ++ t.prompt))
      × ((if text_eq t.cli (codes "codex") || t.raw_prompt then text_of (payload t) else t.prompt)
          ≡ t.prompt)
unfolding payload with_claude_turn_context
payload-prompt t = elim (Bool-cases (text_eq t.cli (codes "codex"))) [
  | inl codex ↦ rw codex (([], refl), refl)
  | inr claude ↦ elim (Bool-cases t.raw_prompt) [
    | inl raw ↦ rw (claude, raw) (([], refl), refl)
    | inr framed ↦ rw (claude, framed) (with_parts-prompt _ t.prompt, refl)
  ]
]
