-- ===== src/ExecutionIndex/Retry/Snapshot.antt =====
-- What the snapshot of the retry queue (execution_index.py) shows.
use aw_app_agents_platform_r.Prelude.{◌≡◌, refl, some, List, [], ◌∷◌, map, ℤ, pos}
use aw_app_agents_platform_r.Prelude.Texts.{Text, text_eq_refl}
use aw_app_agents_platform_r.ExecutionIndex.Retry.{
  entry, snapshot, snapshot_cons, RedisHash, retry_queue_snapshot,
}
use aw_app_agents_platform_r.ExecutionIndex.Retry.Values.{entry-parts}
use aw_app_agents_platform_r.ExecutionIndex.Retry.Laws.{
  DistinctKeys, IsEntry, Entries, Entries-tail, HashLaws, IsQueue,
}

-- The entry of the queue that a row of the snapshot is of.
abbrev pub as_entry : Text × ℤ × Text → Text × Text
as_entry (run_id, attempts, reason) = (run_id, entry attempts reason)

Shown : List (Text × Text) → Type 0
unfolding snapshot
Shown l = (rows : List (Text × ℤ × Text)) × (snapshot l ≡ some rows) × (map as_entry rows ≡ l)

Shown-cons : (k v : Text) (l : List (Text × Text)) → IsEntry v → Shown l → Shown ((k, v) ∷ l)
unfolding snapshot snapshot_cons Shown
Shown-cons k v l (n, reason, e, few) (rows, read, same) =
    let (attempts, why) = entry-parts n reason in
    ((k, pos n, reason) ∷ rows, rw (e, attempts, why, read) refl, rw (e, same) refl)

Entries-Shown : (l : List (Text × Text)) → DistinctKeys l → Entries l → Shown l
unfolding snapshot Shown
Entries-Shown [] d e = ([], refl, refl)
Entries-Shown ((k, v) ∷ l) d e =
    Shown-cons k v l (e k v (rw text_eq_refl refl)) (Entries-Shown l d.1 (Entries-tail k v l d.0 e))

module _ (H : RedisHash) (L : HashLaws H) where
  -- The snapshot of a queue whose values this module wrote does not raise and loses nothing: written
  -- again, its attempts and reasons are the queue's entries, in order.
  pub retry_queue_snapshot-entries :
      (h : H.Hash)
      → IsQueue H L h
      → (rows : List (Text × ℤ × Text)) × (retry_queue_snapshot H h ≡ some rows)
        × (map as_entry rows ≡ H.hgetall h)
  unfolding retry_queue_snapshot Shown
  retry_queue_snapshot-entries h e = Entries-Shown (H.hgetall h) (L.distinct h) e
