-- ===== src/IndexStore/Accepts.antt =====
-- What execution_index.py sends is what exec_index_store.py takes: `_chunks` into `upsert_chunks`.
use aw_app_agents_platform_r.Prelude.{
  ℕ, ◌≤◌, ◌≡◌, refl, Bool, true, false, Option, none, some, List, [], ◌∷◌, length, any, All,
  le→not-ltb, Bool-cases, inl, inr,
}
use aw_app_agents_platform_r.Prelude.Texts.{Text, is_empty}
use aw_app_agents_platform_r.ExecutionIndex.Gate.{Run, Event}
use aw_app_agents_platform_r.ExecutionIndex.Chunks.{
  Redaction, Chunk, max_chars, redact, chunks, chunks-number,
}
use aw_app_agents_platform_r.ExecutionIndex.Chunks.Full.{IsFull, chunks-IsFull}
use aw_app_agents_platform_r.IndexStore.{
  SentChunk, Item, StoredRow, Upserted, invalid, failed, stored, full_item, item_with, cons_item,
  items_of, is_oversized, texts_of, on_embedded, on_items, upsert_chunks, embed_max_chars,
}

-- A chunk as the index posts it; the metadata is given.
abbrev pub posted_chunk : Text → Chunk → SentChunk
posted_chunk metadata c = record { seq = some c.seq; content = some c.content; metadata = metadata }

abbrev pub posted_chunks : Text → List Chunk → List SentChunk
posted_chunks metadata [] = []
posted_chunks metadata (c ∷ cs) = posted_chunk metadata c ∷ posted_chunks metadata cs

abbrev item_for : Text → Chunk → Item
item_for metadata c = record {
  item_seq = c.seq;
  item_content = c.content;
  item_metadata = metadata;
}

abbrev items_for : Text → List Chunk → List Item
items_for metadata [] = []
items_for metadata (c ∷ cs) = item_for metadata c ∷ items_for metadata cs

items_of-posted :
    (metadata : Text) (cs : List Chunk)
    → All (λ (c : Chunk). IsFull c.content) cs
    → items_of (posted_chunks metadata cs) ≡ some (items_for metadata cs)
unfolding items_of item_with full_item cons_item
items_of-posted metadata [] h = refl
items_of-posted metadata (c ∷ cs) h = rw (h.0, items_of-posted metadata cs h.1) refl

none_oversized :
    (metadata : Text) (cs : List Chunk)
    → All (λ (c : Chunk). length c.content ≤ max_chars) cs
    → any is_oversized (items_for metadata cs) ≡ false
none_oversized metadata [] h = refl
none_oversized metadata (c ∷ cs) h =
    rw (le→not-ltb embed_max_chars (length c.content) h.0) (none_oversized metadata cs h.1)

-- The call was not refused.
abbrev pub is_accepted : Upserted → Bool
is_accepted invalid = false
is_accepted failed = true
is_accepted (stored n) = true

module _ (embed : List Text → Option (List Text)) (db_ok : Bool) (now : ℕ) where
  on_embedded-accepted :
      (r : Text) (items : List Item) (o : Option (List Text)) (n : ℕ) (rows : List StoredRow)
      → is_accepted (on_embedded embed db_ok now r items o n rows).1 ≡ true
  unfolding on_embedded
  on_embedded-accepted r items none n rows = refl
  on_embedded-accepted r items (some vectors) n rows = elim (Bool-cases db_ok) [
    | inl ok ↦ rw ok refl
    | inr down ↦ rw down refl
  ]

  accepted_lem :
      (r metadata : Text) (cs : List Chunk) (rows : List StoredRow)
      → is_empty r ≡ false
      → All (λ (c : Chunk). IsFull c.content) cs
      → All (λ (c : Chunk). length c.content ≤ max_chars) cs
      → is_accepted (upsert_chunks embed db_ok now r (posted_chunks metadata cs) rows).1 ≡ true
  unfolding upsert_chunks on_items
  accepted_lem r metadata [] rows named full short = rw named refl
  accepted_lem r metadata (c ∷ cs) rows named full short =
      rw (named, items_of-posted metadata (c ∷ cs) full, none_oversized metadata (c ∷ cs) short)
        (on_embedded-accepted r (items_for metadata (c ∷ cs))
          (embed (texts_of (items_for metadata (c ∷ cs))))
          (length (posted_chunks metadata (c ∷ cs))) rows)

  -- The store never refuses the chunks that the index makes of a run: none is empty and none is longer
  -- than the embedder reads, if the run has an id, its summary is not empty, and redacting leaves
  -- something of every text that is not empty.
  pub upsert_chunks-chunks :
      (sub : Redaction → Text → Text) (summary_text : Run → Text) (event_json : Event → Text)
      (run : Run) (events : List Event) (run_id metadata : Text) (rows : List StoredRow)
      → is_empty run_id ≡ false
      → IsFull (summary_text run)
      → ((t : Text) → IsFull t → IsFull (redact sub summary_text event_json t))
      → is_accepted
          (upsert_chunks embed db_ok now run_id
            (posted_chunks metadata (chunks sub summary_text event_json run events))
            rows).1
        ≡ true
  upsert_chunks-chunks sub summary_text event_json run events run_id metadata rows named full
        keeps =
      accepted_lem run_id metadata (chunks sub summary_text event_json run events) rows named
        (chunks-IsFull sub summary_text event_json run events keeps full)
        ((chunks-number sub summary_text event_json run events).2)
