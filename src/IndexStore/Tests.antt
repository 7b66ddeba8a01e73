-- ===== src/IndexStore/Tests.antt =====
-- The theorems on exec_index_store.py at a concrete table.
use aw_app_agents_platform_r.Prelude.{ℕ, ◌≡◌, refl, true, Option, none, some, List, [], ◌∷◌}
use aw_app_agents_platform_r.Prelude.Texts.{Text, codes}
use aw_app_agents_platform_r.IndexStore.{SentChunk, StoredRow, chunk_key, upsert_chunks}
use aw_app_agents_platform_r.IndexStore.Refines.{Refines}
use aw_app_agents_platform_r.ExecutionIndex.Gate.{Run}
use aw_app_agents_platform_r.ExecutionIndex.Chunks.{chunks, redact}
use aw_app_agents_platform_r.IndexStore.Accepts.{is_accepted, posted_chunks, upsert_chunks-chunks}

abbrev old_row : Text → ℕ → StoredRow
old_row run seq = record {
  chunk_id = chunk_key run seq;
  run_id = run;
  row_seq = seq;
  row_content = codes "old";
  row_metadata = codes "{}";
  embedding = codes "[1]";
  indexed_at = 1;
}

abbrev table : List StoredRow
table = old_row (codes "r1") 0 ∷ old_row (codes "r1") 12 ∷ old_row (codes "r2") 0 ∷ []

abbrev two : List SentChunk
two =
    record { seq = some 0; content = some (codes "new"); metadata = codes "{}" }
    ∷ record { seq = some 1; content = some (codes "more"); metadata = codes "{}" }
    ∷ []

abbrev zeros : List Text → List Text
zeros [] = []
zeros (t ∷ ts) = codes "[0]" ∷ zeros ts

abbrev embed : List Text → Option (List Text)
embed ts = some (zeros ts)

abbrev a_run : Run
a_run = record {
  status = some (codes "success");
  input = some (codes "hi");
  output = some (codes "done");
  error = none;
  initiator_kind = none;
}

upsert_chunks-chunks_example :
    is_accepted
      (upsert_chunks embed true 5
        (codes "r1")
        (posted_chunks (codes "{}") (
          chunks
            (λ r t. t)
            (λ r. codes "{}")
            (λ e. e.body)
            a_run
            (record { kind = none; type = none; body = codes "{}" } ∷ [])))
        table).1
    ≡ true
unfolding redact
upsert_chunks-chunks_example =
    upsert_chunks-chunks embed true 5 (λ r t. t) (λ r. codes "{}") (λ e. e.body) a_run
      (record { kind = none; type = none; body = codes "{}" } ∷ []) (codes "r1") (codes "{}") table
      refl refl (λ t h. h)
