-- ===== src/ExecutionIndex/Chunks/Full.antt =====
-- execution_index.py: `_chunks` makes no chunk with an empty text.
use aw_app_agents_platform_r.Prelude.{
  ℕ, zero, suc, ◌≡◌, refl, sym, subst, map, Bool, true, false, not, List, [], ◌∷◌, ◌++◌, length,
  take, drop, All, All-append, select, arith,
}
use aw_app_agents_platform_r.Prelude.Texts.{Text, codes, is_empty}
use aw_app_agents_platform_r.ExecutionIndex.Gate.{Run, Event, is_nil, event_kind, truth, or_empty}
use aw_app_agents_platform_r.ExecutionIndex.Chunks.{
  Redaction, slices, or_blank, ChunkKind, io, trace, Chunk, pairs, join_lines, is_tool,
  candidate_if, number, fill-number, with_kind, redact, split, event_text, candidates, parts,
  chunks, max_chunks,
}

abbrev pub IsFull : Text → Type 0
IsFull t = is_empty t ≡ false

abbrev AllFull : List (ChunkKind × Text) → Type 0
AllFull ps = All (λ (p : ChunkKind × Text). IsFull p.1) ps

append-IsFull : (s : Text) (c : ℕ) (t : Text) → IsFull (s ++ (c ∷ t))
append-IsFull [] c t = refl
append-IsFull (a ∷ s) c t = refl

append-left : (s t : Text) → IsFull s → IsFull (s ++ t)
append-left [] t h = absurd (cc h)
append-left (a ∷ s) t h = refl

take-IsFull : (n : ℕ) (t : Text) → IsFull t → IsFull (take (suc n) t)
take-IsFull n [] h = absurd (cc h)
take-IsFull n (c ∷ t) h = refl

slices-IsFull : (f n : ℕ) (t : Text) → All IsFull (slices f (suc n) t)
unfolding slices
slices-IsFull zero n t = tt
slices-IsFull (suc f) n [] = tt
slices-IsFull (suc f) n (c ∷ t) = (refl, slices-IsFull f n (drop n t))

or_blank-IsFull :
    (n : ℕ) (t : Text) → IsFull t → All IsFull (or_blank (slices (length t) (suc n) t))
unfolding slices
or_blank-IsFull n [] h = absurd (cc h)
or_blank-IsFull n (c ∷ t) h = (refl, slices-IsFull (length t) n (drop n t))

with_kind-IsFull : (k : ChunkKind) (ts : List Text) → All IsFull ts → AllFull (with_kind k ts)
with_kind-IsFull k [] h = tt
with_kind-IsFull k (t ∷ ts) h = (h.0, with_kind-IsFull k ts h.1)

candidate_if-IsFull :
    (b : Bool) (k : ChunkKind) (t : Text) (rest : List (ChunkKind × Text))
    → IsFull t
    → AllFull rest
    → AllFull (candidate_if b k t rest)
candidate_if-IsFull true k t rest e h = (e, h)
candidate_if-IsFull false k t rest e h = h

number-IsFull :
    (n k : ℕ) (ps : List (ChunkKind × Text))
    → AllFull ps
    → All (λ (c : Chunk). IsFull c.content) (number n (take k ps))
number-IsFull n zero ps h = tt
number-IsFull n (suc k) [] h = tt
number-IsFull n (suc k) ((kind, t) ∷ ps) h = (h.0, number-IsFull (suc n) k ps h.1)

module _ (sub : Redaction → Text → Text) (summary_text : Run → Text)
    (event_json : Event → Text) where
  event_text-IsFull : (e : Event) → IsFull (event_text sub summary_text event_json e)
  unfolding event_text
  event_text-IsFull e = append-IsFull (event_kind e) b':' (32 ∷ event_json e)

  join_lines-IsFull :
      (e : Event) (es : List Event)
      → IsFull (join_lines (map (event_text sub summary_text event_json) (e ∷ es)))
  unfolding join_lines
  join_lines-IsFull e [] = event_text-IsFull e
  join_lines-IsFull e (d ∷ es) =
      append-IsFull (event_text sub summary_text event_json e) 10
        (join_lines (map (event_text sub summary_text event_json) (d ∷ es)))

  pairs-IsFull :
      (f : ℕ) (es : List Event)
      → AllFull (
          map
            (λ ds. (trace, join_lines (map (event_text sub summary_text event_json) ds)))
            (pairs f es))
  unfolding pairs
  pairs-IsFull zero es = tt
  pairs-IsFull (suc f) [] = tt
  pairs-IsFull (suc f) (e ∷ []) = (join_lines-IsFull e [], tt)
  pairs-IsFull (suc f) (e ∷ d ∷ es) = (join_lines-IsFull e (d ∷ []), pairs-IsFull f es)

  others-IsFull :
      (es : List Event)
      → AllFull (
          candidate_if
            (not (is_nil es))
            trace
            (join_lines (map (event_text sub summary_text event_json) es))
            [])
  others-IsFull [] = tt
  others-IsFull (e ∷ es) = (join_lines-IsFull e es, tt)

  candidates-IsFull :
      (run : Run) (events : List Event)
      → IsFull (summary_text run)
      → AllFull (candidates sub summary_text event_json run events)
  unfolding candidates
  candidates-IsFull run events h = (
    take-IsFull 2999 (summary_text run) h,
    candidate_if-IsFull (truth run.error) io (codes "error: " ++ or_empty run.error) _ refl (
        All-append (λ (p : ChunkKind × Text). IsFull p.1) _ _
          (pairs-IsFull (length (select is_tool events)) (select is_tool events))
          (candidate_if-IsFull (truth run.input) io (codes "input: " ++ or_empty run.input) _ refl (
            candidate_if-IsFull (truth run.output) io (codes "output: " ++ or_empty run.output) _
              refl (others-IsFull (select (λ e. not (is_tool e)) events))))),
  )

  parts-IsFull :
      (ps : List (ChunkKind × Text))
      → ((t : Text) → IsFull t → IsFull (redact sub summary_text event_json t))
      → AllFull ps
      → AllFull (parts sub summary_text event_json ps)
  unfolding parts split
  parts-IsFull [] keeps h = tt
  parts-IsFull ((k, t) ∷ ps) keeps h =
      All-append (λ (p : ChunkKind × Text). IsFull p.1)
        (with_kind k (split sub summary_text event_json t)) _
        (with_kind-IsFull k (split sub summary_text event_json t)
          (or_blank-IsFull 1499 (redact sub summary_text event_json t) (keeps t h.0)))
        (parts-IsFull ps keeps h.1)

  pub chunks-IsFull :
      (run : Run) (events : List Event)
      → ((t : Text) → IsFull t → IsFull (redact sub summary_text event_json t))
      → IsFull (summary_text run)
      → All (λ (c : Chunk). IsFull c.content) (chunks sub summary_text event_json run events)
  unfolding chunks
  chunks-IsFull run events keeps h =
      let ps =
        parts sub summary_text event_json (candidates sub summary_text event_json run events) in
      subst (All (λ (c : Chunk). IsFull c.content)) (sym (fill-number ps [] (omega arith))) (
        number-IsFull 0 max_chunks ps (
          parts-IsFull (candidates sub summary_text event_json run events) keeps
            (candidates-IsFull run events h)))
