-- ===== src/ExecutionIndex/Gate/Worth.antt =====
-- Which runs the gate `_interesting` (execution_index.py) lets through, without the order of its tests.
use aw_app_agents_platform_r.Prelude.{
  ℕ, ◌≤◌, ◌≡◌, ◌≢◌, refl, sym, ap, ◌∙◌, Bool, true, false, not, ◌&&◌, ◌||◌, Option, none, some,
  List, [], ◌∷◌, arith, ltb, if◌then◌else◌, ◌⊎◌, inl, inr, length, any, Bool-cases,
}
use aw_app_agents_platform_r.Prelude.Texts.{
  Text, codes, text_eq, text_eq_refl, text_eq→eq, one_of, strip,
}
use aw_app_agents_platform_r.ExecutionIndex.Gate.{
  Run, Event, or_empty, truth, event_kind, terminal, is_compaction, is_tool_call, is_nil,
  interesting,
}

-- The text is there and is not empty.
abbrev pub IsFull : Option Text → Type 0
IsFull none = ⊥
IsFull (some t) = t ≢ []

-- The run ended: a cancelled one counts only with output.
abbrev pub HasEnded : Run → Type 0
HasEnded run =
    (or_empty run.status ≡ codes "success")
    ⊎ (or_empty run.status ≡ codes "error")
    ⊎ ((or_empty run.status ≡ codes "cancelled") × IsFull run.output)

abbrev pub IsOrdinary : Run → Type 0
IsOrdinary run =
    (strip (or_empty run.input) ≢ codes "/compact")
    × (or_empty run.initiator_kind ≢ codes "auto_compact")
    × (or_empty run.initiator_kind ≢ codes "pending_compact")

-- A tool was called in one of the events.
abbrev pub CallsTool : List Event → Type 0
CallsTool [] = ⊥
CallsTool (e ∷ es) = (event_kind e ≡ codes "tool_call") ⊎ CallsTool es

-- What the gate asks of a run in a mode.
abbrev pub IsWorth : Run → List Event → Text → Type 0
IsWorth run events mode =
    HasEnded run
    × IsOrdinary run
    × ((events ≢ []) ⊎ (200 ≤ length (or_empty run.output)))
    × (mode ≡ codes "failures" → or_empty run.status ≡ codes "error")
    × (mode ≡ codes "interesting" → IsFull run.error ⊎ CallsTool events)

passes :
    (running compaction cancelled wrong uneventful blank : Bool)
    → (if running
        then false
        else if compaction
        then false
        else if cancelled
        then false
        else if wrong
        then false
        else if uneventful
        then false
        else if blank
        then false
        else true)
      ≡ true
    → (running ≡ false)
      × (compaction ≡ false)
      × (cancelled ≡ false)
      × (wrong ≡ false)
      × (uneventful ≡ false)
      × (blank ≡ false)
passes running compaction cancelled wrong uneventful blank h = ground arith

text_eq-ne : (s t : Text) → text_eq s t ≡ false → s ≢ t
text_eq-ne s t apart e = cc (apart, ap (text_eq s) (sym e), text_eq_refl s)

ne-text_eq : (s t : Text) → s ≢ t → text_eq s t ≡ false
ne-text_eq s t apart = elim (Bool-cases (text_eq s t)) [
  | inl same ↦ absurd (apart (text_eq→eq s t same))
  | inr other ↦ other
]

eq-text_eq : (s t : Text) → s ≡ t → text_eq s t ≡ true
eq-text_eq s t e = ap (text_eq s) (sym e) ∙ text_eq_refl s

truth→IsFull : (o : Option Text) → truth o ≡ true → IsFull o
truth→IsFull none h = cc h
truth→IsFull (some []) h = cc h
truth→IsFull (some (c ∷ t)) h = λ e. cc e

IsFull→truth : (o : Option Text) → IsFull o → truth o ≡ true
IsFull→truth none h = absurd h
IsFull→truth (some []) h = absurd (h refl)
IsFull→truth (some (c ∷ t)) h = refl

any→CallsTool : (es : List Event) → any is_tool_call es ≡ true → CallsTool es
any→CallsTool [] h = cc h
any→CallsTool (e ∷ es) h = elim (Bool-cases (is_tool_call e)) [
  | inl calls ↦ inl (text_eq→eq (event_kind e) (codes "tool_call") calls)
  | inr other ↦ inr (any→CallsTool es (rw other at h))
]

CallsTool→any : (es : List Event) → CallsTool es → any is_tool_call es ≡ true
CallsTool→any [] h = absurd h
CallsTool→any (e ∷ es) (inl calls) = rw (eq-text_eq (event_kind e) (codes "tool_call") calls) refl
CallsTool→any (e ∷ es) (inr later) = elim (Bool-cases (is_tool_call e)) [
  | inl calls ↦ rw calls refl
  | inr other ↦ rw other (CallsTool→any es later)
]

-- The three tests of the status and the output.
ended_cases :
    (s : Text) (full : Bool)
    → not (one_of terminal s) ≡ false
    → (text_eq s (codes "cancelled") && not full) ≡ false
    → (s ≡ codes "success") ⊎ (s ≡ codes "error") ⊎ ((s ≡ codes "cancelled") × (full ≡ true))
unfolding one_of
ended_cases s full over kept = elim (Bool-cases (text_eq s (codes "success"))) [
  | inl e ↦ inl (text_eq→eq s (codes "success") e)
  | inr a ↦ elim (Bool-cases (text_eq s (codes "error"))) [
    | inl e ↦ inr (inl (text_eq→eq s (codes "error") e))
    | inr b ↦ elim (Bool-cases (text_eq s (codes "cancelled"))) [
      | inl e ↦ inr (inr (text_eq→eq s (codes "cancelled") e, by_full full (rw e at kept)))
      | inr c ↦ cc (rw (a, b, c) at over)
    ]
  ]
]
  where
    by_full : (b : Bool) → not b ≡ false → b ≡ true
    by_full true h = refl
    by_full false h = cc h

evidence_cases :
    (events : List Event) (n : ℕ) → (is_nil events && ltb n 200) ≡ false → (events ≢ []) ⊎ (200 ≤ n)
evidence_cases [] n h = inr (ground arith)
evidence_cases (e ∷ es) n h = inl (λ p. cc)

ended_falses :
    (s : Text) (full : Bool)
    → (s ≡ codes "success") ⊎ (s ≡ codes "error") ⊎ ((s ≡ codes "cancelled") × (full ≡ true))
    → (not (one_of terminal s) ≡ false) × ((text_eq s (codes "cancelled") && not full) ≡ false)
unfolding one_of text_eq
ended_falses s full (inl e) = rw e (refl, refl)
ended_falses s full (inr (inl e)) = rw e (refl, refl)
ended_falses s full (inr (inr (e, h))) = rw (e, h) (refl, refl)

evidence_false :
    (events : List Event) (n : ℕ) → (events ≢ []) ⊎ (200 ≤ n) → (is_nil events && ltb n 200) ≡ false
evidence_false [] n (inl some_there) = absurd (some_there refl)
evidence_false [] n (inr long) = ground (arith, long)
evidence_false (e ∷ es) n h = refl

or_false : (a b : Bool) → (a || b) ≡ false → (a ≡ false) × (b ≡ false)
or_false true b h = cc h
or_false false b h = (refl, h)

or_true : (a b : Bool) → (a || b) ≡ true → (a ≡ true) ⊎ (b ≡ true)
or_true true b h = inl refl
or_true false b h = inr h

from_mode : (a b : Bool) → a ≡ true → (a && not b) ≡ false → b ≡ true
from_mode a true m h = refl
from_mode a false m h = ground (arith, m, h)

to_mode : (mode t : Text) (b : Bool) → (mode ≡ t → b ≡ true) → (text_eq mode t && not b) ≡ false
to_mode mode t b h = elim (Bool-cases (text_eq mode t)) [
  | inl same ↦ rw (same, h (text_eq→eq mode t same)) refl
  | inr other ↦ rw other refl
]

-- What the gate lets through is worth indexing.
interesting→IsWorth :
    (run : Run) (events : List Event) (mode : Text)
    → interesting run events mode ≡ true
    → IsWorth run events mode
unfolding interesting is_compaction one_of
interesting→IsWorth run events mode h =
    let (over, ordinary, kept, right, eventful, evidence) =
      passes (not (one_of terminal (or_empty run.status))) (is_compaction run)
        (text_eq (or_empty run.status) (codes "cancelled") && not (truth run.output))
        (text_eq mode (codes "failures") && not (text_eq (or_empty run.status) (codes "error")))
        (text_eq mode (codes "interesting") && not (truth run.error || any is_tool_call events))
        (is_nil events && ltb (length (or_empty run.output)) 200) h in
    let (not_compact, rest) = or_false _ _ ordinary in
    let (not_auto, rest2) = or_false _ _ rest in
    let (not_pending, last) = or_false _ _ rest2 in
    let ended : HasEnded run =
      elim (ended_cases (or_empty run.status) (truth run.output) over kept) [
        | inl e ↦ inl e
        | inr (inl e) ↦ inr (inl e)
        | inr (inr (e, full)) ↦ inr (inr (e, truth→IsFull run.output full))
      ] in
    (
      ended,
      (text_eq-ne _ _ not_compact, text_eq-ne _ _ not_auto, text_eq-ne _ _ not_pending),
      evidence_cases events (length (or_empty run.output)) evidence,
      (λ m. text_eq→eq _ _ (from_mode _ _ (eq-text_eq mode (codes "failures") m) right)),
      (λ m.
          elim (or_true (truth run.error) (any is_tool_call events)
            (from_mode _ _ (eq-text_eq mode (codes "interesting") m) eventful)) [
              | inl e ↦ inl (truth→IsFull run.error e)
              | inr c ↦ inr (any→CallsTool events c)
            ]),
    )

eventful_true :
    (run : Run) (events : List Event)
    → IsFull run.error ⊎ CallsTool events
    → (truth run.error || any is_tool_call events) ≡ true
eventful_true run events (inl e) = rw (IsFull→truth run.error e) refl
eventful_true run events (inr c) = elim (Bool-cases (truth run.error)) [
  | inl e ↦ rw e refl
  | inr n ↦ rw n (CallsTool→any events c)
]

IsWorth→interesting :
    (run : Run) (events : List Event) (mode : Text)
    → IsWorth run events mode
    → interesting run events mode ≡ true
unfolding interesting is_compaction one_of
IsWorth→interesting run events mode (ended, (p, q, o), evidence, right, eventful) =
    let (over, kept) = ended_falses (or_empty run.status) (truth run.output) (elim ended [
      | inl e ↦ inl e
      | inr (inl e) ↦ inr (inl e)
      | inr (inr (e, full)) ↦ inr (inr (e, IsFull→truth run.output full))
    ]) in
    rw
      (
        over,
        ne-text_eq _ _ p,
        ne-text_eq _ _ q,
        ne-text_eq _ _ o,
        kept,
        to_mode mode (codes "failures") (text_eq (or_empty run.status) (codes "error"))
            (λ m. eq-text_eq _ _ (right m)),
        to_mode mode (codes "interesting") (truth run.error || any is_tool_call events)
            (λ m. eventful_true run events (eventful m)),
        evidence_false events (length (or_empty run.output)) evidence,
      )
      refl

-- The gate lets a run through exactly if it ended, with output where it was cancelled; is no compaction;
-- has events or at least 200 characters of output; failed, in the mode `failures`; and has an error or
-- called a tool, in the mode `interesting`.
pub interesting-IsWorth :
    (run : Run) (events : List Event) (mode : Text)
    → (interesting run events mode ≡ true → IsWorth run events mode)
      × (IsWorth run events mode → interesting run events mode ≡ true)
interesting-IsWorth run events mode =
    (interesting→IsWorth run events mode, IsWorth→interesting run events mode)
