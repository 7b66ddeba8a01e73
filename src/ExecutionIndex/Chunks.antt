-- ===== src/ExecutionIndex/Chunks.antt =====
-- execution_index.py: `redact`, `_split` and `_chunks`. The texts that `json.dumps` makes of the
-- summary and of an event, and `re.sub` by each of the five patterns, are parameters.
pub mod Full
use aw_app_agents_platform_r.Prelude.{
  ℕ, zero, suc, ◌*◌, ◌-◌, map, ◌≤◌, ◌≡◌, ◌≢◌, refl, sym, ap, ◌∙◌, Bool, not, ◌||◌, List, [], ◌∷◌,
  ◌++◌, arith, leb, if◌then◌else◌, Bool-cases, inl, inr, length, take, drop, All, select,
  length-append, All-append, length-take-le, length-drop-le, take-append-drop,
}
use mathlib.Core.List.{foldl, append-nil, append_assoc}
use aw_app_agents_platform_r.Prelude.Texts.{Text, codes, text_eq, is_empty}
use aw_app_agents_platform_r.ExecutionIndex.Gate.{Run, Event, is_nil, event_kind, truth, or_empty}

abbrev pub max_chars : ℕ
max_chars = 1500

abbrev pub max_chunks : ℕ
max_chunks = 12

-- `_REDACTIONS`, in order: API keys, GitHub tokens, Notion tokens, bearer tokens, X-Api-Key headers.
pub data Redaction : Type 0 where
  api_key github_token notion_token bearer x_api_key : Redaction

abbrev pub redactions : List Redaction
redactions = api_key ∷ github_token ∷ notion_token ∷ bearer ∷ x_api_key ∷ []

abbrev pub concat : List Text → Text
concat [] = []
concat (t ∷ ts) = t ++ concat ts

-- `[text[i:i + n] for i in range(0, len(text), n)]`; the fuel is the length.
slices : ℕ → ℕ → Text → List Text
slices zero n t = []
slices (suc f) n t = let rest = slices f n (drop n t) in if is_empty t then [] else take n t ∷ rest

-- `parts or [""]`
abbrev or_blank : List Text → List Text
or_blank [] = [] ∷ []
or_blank (t ∷ ts) = t ∷ ts

concat-slices : (f n : ℕ) (t : Text) → length t ≤ f → concat (slices f (suc n) t) ≡ t
unfolding slices
concat-slices zero n [] h = refl
concat-slices zero n (c ∷ t) h = absurd (omega arith)
concat-slices (suc f) n [] h = refl
concat-slices (suc f) n (c ∷ t) h =
    ap (◌++◌ (c ∷ take n t)) (concat-slices f n (drop n t) (omega (arith, length-drop-le n t)))
    ∙ ap (◌∷◌ c) (take-append-drop n t)

slices-bounded : (f n : ℕ) (t : Text) → All (λ s. length s ≤ n) (slices f n t)
unfolding slices
slices-bounded zero n t = tt
slices-bounded (suc f) n [] = tt
slices-bounded (suc f) n (c ∷ t) = (length-take-le n (c ∷ t), slices-bounded f n (drop n (c ∷ t)))

pub data ChunkKind : Type 0 where
  summary io trace : ChunkKind

pub record Chunk : Type 0 where
  pub seq : ℕ
  pub content : Text
  pub chunk_kind : ChunkKind

-- The loop over `tool_events[i:i + 2]`; the fuel is the length.
pairs : ℕ → List Event → List (List Event)
pairs zero es = []
pairs (suc f) [] = []
pairs (suc f) (e ∷ []) = (e ∷ []) ∷ []
pairs (suc f) (e ∷ d ∷ es) = (e ∷ d ∷ []) ∷ pairs f es

-- "\n".join(…)
join_lines : List Text → Text
join_lines [] = []
join_lines (t ∷ []) = t
join_lines (t ∷ u ∷ ts) = t ++ (10 ∷ join_lines (u ∷ ts))

abbrev is_tool : Event → Bool
is_tool e =
    text_eq (event_kind e) (codes "tool_call") || text_eq (event_kind e) (codes "tool_result")

abbrev candidate_if : Bool → ChunkKind → Text → List (ChunkKind × Text) → List (ChunkKind × Text)
candidate_if b k t rest = if b then (k, t) ∷ rest else rest

-- The loop over the parts of all candidates: from the chunks that are there already.
fill : List (ChunkKind × Text) → List Chunk → List Chunk
fill [] done = done
fill ((k, t) ∷ parts) done =
    let more =
      fill parts (done ++ record { seq = length done; content = t; chunk_kind = k } ∷ []) in
    if leb max_chunks (length done) then done else more

-- The parts as chunks, numbered from `n`.
abbrev pub number : ℕ → List (ChunkKind × Text) → List Chunk
number n [] = []
number n ((k, t) ∷ parts) = record { seq = n; content = t; chunk_kind = k } ∷ number (suc n) parts

take-nil : (n : ℕ) → take {A = ChunkKind × Text} n [] ≡ []
take-nil zero = refl
take-nil (suc n) = refl

number-bounded :
    (n k : ℕ) (ps : List (ChunkKind × Text))
    → All (λ p. length p.1 ≤ max_chars) ps
    → (length (number n (take k ps)) ≤ k)
      × All (λ (c : Chunk). length c.content ≤ max_chars) (number n (take k ps))
number-bounded n zero ps h = (omega arith, tt)
number-bounded n (suc k) [] h = (omega arith, tt)
number-bounded n (suc k) ((kind, t) ∷ ps) h =
    let (few, small) = number-bounded (suc n) k ps h.1 in (omega arith, (h.0, small))

All-with_kind :
    (k : ChunkKind) (ts : List Text)
    → All (λ s. length s ≤ max_chars) ts
    → All (λ (p : ChunkKind × Text). length p.1 ≤ max_chars) (map (λ t. (k, t)) ts)
All-with_kind k [] h = tt
All-with_kind k (t ∷ ts) h = (h.0, All-with_kind k ts h.1)

or_blank-split :
    (t : Text) (ts : List Text)
    → concat ts ≡ t
    → All (λ s. length s ≤ max_chars) ts
    → (concat (or_blank ts) ≡ t)
      × All (λ s. length s ≤ max_chars) (or_blank ts)
      × (or_blank ts ≢ [])
or_blank-split t [] e h = (e, (omega arith, tt), λ p. cc)
or_blank-split t (s ∷ ts) e h = (e, h, λ p. cc)

fill-number :
    (parts : List (ChunkKind × Text)) (done : List Chunk)
    → length done ≤ max_chunks
    → fill parts done ≡ done ++ number (length done) (take (max_chunks - length done) parts)
unfolding fill
fill-number [] done h = rw take-nil (sym (append-nil done))
fill-number ((k, t) ∷ parts) done h = elim (Bool-cases (leb max_chunks (length done))) [
  | inl full ↦
      let none_left : max_chunks - length done ≡ 0 = ground arith in
      rw (full, none_left) (sym (append-nil done))
  | inr room ↦
      let next : Chunk = record { seq = length done; content = t; chunk_kind = k } in
      let one_more : length (done ++ next ∷ []) ≡ suc (length done) =
        omega (arith, length-append done (next ∷ [])) in
      let left : max_chunks - length done ≡ suc (max_chunks - suc (length done)) = ground arith in
      rw (room, left)
        (fill-number parts (done ++ next ∷ []) (rw one_more (ground arith))
          ∙ rw one_more (append_assoc done (next ∷ []) _))
]

-- A candidate with the parts of its text.
abbrev pub with_kind : ChunkKind → List Text → List (ChunkKind × Text)
with_kind k ts = map (λ t. (k, t)) ts

module _ (sub : Redaction → Text → Text) (summary_text : Run → Text)
    (event_json : Event → Text) where
  -- `redact`
  unfoldable pub redact : Text → Text
  redact t = foldl (λ u r. sub r u) t redactions

  -- `_split`
  pub split : Text → List Text
  unfolding slices
  split t = or_blank (slices (length (redact t)) max_chars (redact t))

  -- `_event_text`
  event_text : Event → Text
  event_text e = event_kind e ++ (codes ": " ++ event_json e)

  -- The candidates of `_chunks`, in the order of their relevance.
  pub candidates : Run → List Event → List (ChunkKind × Text)
  unfolding event_text pairs join_lines
  candidates run events =
      let tools = select is_tool events in
      let others = select (λ e. not (is_tool e)) events in
      (summary, take (max_chars * 2) (summary_text run))
      ∷ candidate_if (truth run.error) io (codes "error: " ++ or_empty run.error) (
          map (λ es. (trace, join_lines (map event_text es))) (pairs (length tools) tools)
          ++ candidate_if (truth run.input) io (codes "input: " ++ or_empty run.input) (
              candidate_if (truth run.output) io (codes "output: " ++ or_empty run.output)
                (candidate_if (not (is_nil others)) trace (join_lines (map event_text others)) [])))

  -- The parts of all candidates, in order.
  pub parts : List (ChunkKind × Text) → List (ChunkKind × Text)
  unfolding split
  parts [] = []
  parts ((k, t) ∷ rest) = with_kind k (split t) ++ parts rest

  -- `_chunks`: the sequence number, the text and the kind of each chunk; the metadata that all share
  -- is not modelled.
  pub chunks : Run → List Event → List Chunk
  unfolding fill parts candidates
  chunks run events = fill (parts (candidates run events)) []

  -- Splitting loses nothing and gives at least one part, of at most 1500 characters each: the parts
  -- joined are the redacted text.
  pub concat-split :
      (t : Text)
      → (concat (split t) ≡ redact t) × All (λ s. length s ≤ max_chars) (split t) × (split t ≢ [])
  unfolding split
  concat-split t =
      or_blank-split (redact t) (slices (length (redact t)) max_chars (redact t))
        (concat-slices (length (redact t)) 1499 (redact t) (omega arith))
        (slices-bounded (length (redact t)) max_chars (redact t))

  parts-bounded : (cs : List (ChunkKind × Text)) → All (λ p. length p.1 ≤ max_chars) (parts cs)
  unfolding parts
  parts-bounded [] = tt
  parts-bounded ((k, t) ∷ rest) =
      All-append (λ p. length p.1 ≤ max_chars) (with_kind k (split t)) (parts rest)
        (All-with_kind k (split t) (concat-split t).1) (parts-bounded rest)

  -- The chunks of a run are the first twelve parts of its candidates, numbered from zero, each of at
  -- most 1500 characters.
  pub chunks-number :
      (run : Run) (events : List Event)
      → (chunks run events ≡ number 0 (take max_chunks (parts (candidates run events))))
        × (length (chunks run events) ≤ max_chunks)
        × All (λ (c : Chunk). length c.content ≤ max_chars) (chunks run events)
  unfolding chunks
  chunks-number run events =
      let ps = parts (candidates run events) in
      let same : fill ps [] ≡ number 0 (take max_chunks ps) = fill-number ps [] (omega arith) in
      let (few, small) = number-bounded 0 max_chunks ps (parts-bounded (candidates run events)) in
      (same, rw same few, rw same small)
