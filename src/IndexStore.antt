-- ===== src/IndexStore.antt =====
-- agents_platform_runners_app/exec_index_store.py: the table `executions`, its full-replace upsert and
-- the deletion of a run. The statements of SQL stand as functions on the rows; what the server does with
-- them is not code of the repository, and `db_ok` says whether it carries them out up to the commit.
pub mod Keys
pub mod Replace
pub mod Refines
pub mod Accepts
mod Tests
use aw_app_agents_platform_r.Prelude.{
  ℕ, suc, ◌-◌, Bool, true, false, ◌&&◌, ◌||◌, not, Option, none, some, List, [], ◌∷◌, ◌++◌,
  if◌then◌else◌, ltb, ◌==◌, length, any,
}
use aw_app_agents_platform_r.Prelude.Texts.{Text, codes, text_eq, is_empty}
use aw_app_agents_platform_r.Prelude.Decimal.{str}

-- EMBED_MAX_CHARS
abbrev pub embed_max_chars : ℕ
embed_max_chars = 1500

-- A chunk as it is sent; `metadata` is its JSON.
pub record SentChunk : Type 0 where
  pub seq : Option ℕ
  pub content : Option Text
  pub metadata : Text

-- A chunk with a `seq` and a content that is not empty.
pub record Item : Type 0 where
  pub item_seq : ℕ
  pub item_content : Text
  pub item_metadata : Text

-- A row of `executions`; `embedding` is the literal of the vector.
pub record StoredRow : Type 0 where
  pub chunk_id : Text
  pub run_id : Text
  pub row_seq : ℕ
  pub row_content : Text
  pub row_metadata : Text
  pub embedding : Text
  pub indexed_at : ℕ

-- How `upsert_chunks` ends: with ValueError, with another exception, or with a number of chunks.
pub data Upserted : Type 0 where
  invalid failed : Upserted
  stored : ℕ → Upserted

-- f"{run_id}:{chunk['seq']}"
unfoldable pub chunk_key : Text → ℕ → Text
unfolding str
chunk_key run_id seq = run_id ++ (b':' ∷ str seq)

-- `c.get("seq") is None or not c.get("content")`
unfoldable pub full_item : ℕ → Text → Text → Option Item
full_item seq content metadata =
    if is_empty content
    then none
    else some (record { item_seq = seq; item_content = content; item_metadata = metadata })

unfoldable pub item_with : Option ℕ → Option Text → Text → Option Item
unfolding full_item
item_with none content metadata = none
item_with (some seq) none metadata = none
item_with (some seq) (some content) metadata = full_item seq content metadata

unfoldable pub cons_item : Option Item → Option (List Item) → Option (List Item)
cons_item none items = none
cons_item (some item) none = none
cons_item (some item) (some items) = some (item ∷ items)

unfoldable pub items_of : List SentChunk → Option (List Item)
unfolding item_with cons_item
items_of [] = some []
items_of (c ∷ chunks) = cons_item (item_with c.seq c.content c.metadata) (items_of chunks)

abbrev pub is_oversized : Item → Bool
is_oversized item = ltb embed_max_chars (length item.item_content)

abbrev pub texts_of : List Item → List Text
texts_of [] = []
texts_of (i ∷ items) = i.item_content ∷ texts_of items

-- INSERT … ON CONFLICT (chunk_id) DO UPDATE SET content, metadata, embedding, indexed_at
unfoldable pub insert_row : StoredRow → List StoredRow → List StoredRow
unfolding text_eq
insert_row row [] = row ∷ []
insert_row row (x ∷ rows) =
    if text_eq x.chunk_id row.chunk_id
    then record x {
      row_content = row.row_content;
      row_metadata = row.row_metadata;
      embedding = row.embedding;
      indexed_at = row.indexed_at;
    }
      ∷ rows
    else x ∷ insert_row row rows

abbrev pub row_for : Text → ℕ → Item → Text → StoredRow
row_for run_id now item vector = record {
  chunk_id = chunk_key run_id item.item_seq;
  run_id = run_id;
  row_seq = item.item_seq;
  row_content = item.item_content;
  row_metadata = item.item_metadata;
  embedding = vector;
  indexed_at = now;
}

-- `for chunk, vec in zip(chunks, vectors)`
unfoldable pub insert_all : Text → ℕ → List Item → List Text → List StoredRow → List StoredRow
unfolding insert_row
insert_all run_id now [] vectors rows = rows
insert_all run_id now (i ∷ items) [] rows = rows
insert_all run_id now (i ∷ items) (v ∷ vectors) rows =
    insert_all run_id now items vectors (insert_row (row_for run_id now i v) rows)

abbrev pub has_seq : List Item → ℕ → Bool
has_seq items s = any (λ i. i.item_seq == s) items

-- DELETE FROM executions WHERE run_id = … AND seq != ALL(…)
unfoldable pub delete_absent : Text → List Item → List StoredRow → List StoredRow
unfolding text_eq
delete_absent run_id items [] = []
delete_absent run_id items (x ∷ rows) =
    if text_eq x.run_id run_id && not (has_seq items x.row_seq)
    then delete_absent run_id items rows
    else x ∷ delete_absent run_id items rows

-- DELETE FROM executions WHERE run_id = …
unfoldable pub delete_rows : Text → List StoredRow → List StoredRow
unfolding text_eq
delete_rows run_id [] = []
delete_rows run_id (x ∷ rows) =
    if text_eq x.run_id run_id then delete_rows run_id rows else x ∷ delete_rows run_id rows

-- `delete_run`, where the server carries it out: the rows, and the number of those that went.
unfoldable pub delete_run : Text → List StoredRow → List StoredRow × ℕ
unfolding delete_rows
delete_run run_id rows = let kept = delete_rows run_id rows in (kept, length rows - length kept)

-- `embed` is `embed_docs` with `vec_str`, `now` the instant of the transaction.
module _ (embed : List Text → Option (List Text)) (db_ok : Bool) (now : ℕ) where
  unfoldable pub on_embedded :
      Text → List Item → Option (List Text) → ℕ → List StoredRow → List StoredRow × Upserted
  unfolding insert_all delete_absent
  on_embedded run_id items none n rows = (rows, failed)
  on_embedded run_id items (some vectors) n rows =
      if db_ok
      then (delete_absent run_id items (insert_all run_id now items vectors rows), stored n)
      else (rows, failed)

  unfoldable pub on_items :
      Text → Option (List Item) → ℕ → List StoredRow → List StoredRow × Upserted
  unfolding on_embedded
  on_items run_id none n rows = (rows, invalid)
  on_items run_id (some items) n rows =
      if any is_oversized items
      then (rows, invalid)
      else on_embedded run_id items (embed (texts_of items)) n rows

  -- `upsert_chunks`
  unfoldable pub upsert_chunks : Text → List SentChunk → List StoredRow → List StoredRow × Upserted
  unfolding items_of on_items
  upsert_chunks run_id [] rows = if is_empty run_id then (rows, invalid) else (rows, stored 0)
  upsert_chunks run_id (c ∷ chunks) rows =
      if is_empty run_id
      then (rows, invalid)
      else on_items run_id (items_of (c ∷ chunks)) (length (c ∷ chunks)) rows
