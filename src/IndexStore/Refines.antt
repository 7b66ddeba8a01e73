-- ===== src/IndexStore/Refines.antt =====
-- exec_index_store.py: `upsert_chunks` against the table as it is meant.
use aw_app_agents_platform_r.Prelude.{ℕ, ◌≡◌, List, length}
use aw_app_agents_platform_r.Prelude.Texts.{Text}
use aw_app_agents_platform_r.IndexStore.{SentChunk, StoredRow, Upserted, invalid, failed, stored}
use aw_app_agents_platform_r.IndexStore.Replace.{contents, replaced, Keyed}

-- A call that stores its chunks replaces the run by them; one that does not leaves the rows.
abbrev pub Refines : Text → List SentChunk → List StoredRow → List StoredRow × Upserted → Type 0
Refines r chunks rows (after, invalid) = after ≡ rows
Refines r chunks rows (after, failed) = after ≡ rows
Refines r chunks rows (after, stored n) =
    (n ≡ length chunks)
    × Keyed after
    × ((r2 : Text) (s : ℕ) → contents after r2 s ≡ replaced r chunks (contents rows) r2 s)
