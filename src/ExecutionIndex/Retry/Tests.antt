-- ===== src/ExecutionIndex/Retry/Tests.antt =====
-- The theorems on the retry queue (execution_index.py) at concrete inputs: the hash is a list whose
-- first entry for a field counts.
use aw_app_agents_platform_r.Prelude.{
  ◌≡◌, refl, sym, ap, ◌∙◌, false, Option, none, some, List, [], ◌∷◌, arith, if◌then◌else◌,
  Bool-cases, inl, inr, pos, is_some, ℤ, map,
}
use aw_app_agents_platform_r.Prelude.Texts.{Text, codes, text_eq, text_eq_refl, text_eq→eq}
use aw_app_agents_platform_r.ExecutionIndex.Retry.{
  retry_queue_snapshot, entry, Attempt, is_gated, RedisHash, find, sweep_retry_queue,
}
use aw_app_agents_platform_r.ExecutionIndex.Retry.Laws.{
  DistinctKeys, or_value, HashLaws, IsQueue, queue,
}
use aw_app_agents_platform_r.ExecutionIndex.Retry.Swept.{left_of, sweep_retry_queue-left}
use aw_app_agents_platform_r.ExecutionIndex.Retry.Snapshot.{as_entry, retry_queue_snapshot-entries}
use aw_app_agents_platform_r.ExecutionIndex.Retry.GivesUp.{
  finishes, sweeps, happen, history, history-gives_up,
}

without : Text → List (Text × Text) → List (Text × Text)
without k [] = []
without k ((j, v) ∷ l) = let rest = without k l in if text_eq k j then rest else (j, v) ∷ rest

firsts : List (Text × Text) → List (Text × Text)
unfolding without
firsts [] = []
firsts ((k, v) ∷ l) = (k, v) ∷ without k (firsts l)

flip : (s t : Text) → text_eq s t ≡ false → text_eq t s ≡ false
flip s t h = elim (Bool-cases (text_eq t s)) [
  | inl e ↦ cc (h, ap (text_eq s) (text_eq→eq t s e), text_eq_refl s)
  | inr e ↦ e
]

find-without :
    (k j : Text) (l : List (Text × Text))
    → find j (without k l) ≡ (if text_eq k j then none else find j l)
unfolding without
find-without k j [] = elim (Bool-cases (text_eq k j)) [ inl e ↦ rw e refl | inr e ↦ rw e refl ]
find-without k j ((i, v) ∷ l) = elim (Bool-cases (text_eq k i)) [
  | inl e ↦
      rw (e, find-without k j l)
        (elim (Bool-cases (text_eq k j)) [
          | inl same ↦ rw same refl
          | inr apart ↦
              let other : text_eq i j ≡ false =
                ap (λ x. text_eq x j) (sym (text_eq→eq k i e)) ∙ apart in
              rw (apart, other) refl
        ])
  | inr e ↦ rw e (elim (Bool-cases (text_eq k j)) [
    | inl same ↦
        let other : text_eq i j ≡ false = ap (text_eq i) (sym (text_eq→eq k j same)) ∙ flip k i e in
        rw (other, find-without k j l, same) refl
    | inr apart ↦ rw (find-without k j l, apart) refl
  ])
]

find-firsts : (j : Text) (l : List (Text × Text)) → find j (firsts l) ≡ find j l
unfolding firsts
find-firsts j [] = refl
find-firsts j ((k, v) ∷ l) = elim (Bool-cases (text_eq k j)) [
  | inl e ↦ rw e refl
  | inr e ↦ rw (e, find-without k j (firsts l), e, find-firsts j l) refl
]

DistinctKeys-without :
    (k : Text) (l : List (Text × Text)) → DistinctKeys l → DistinctKeys (without k l)
unfolding without
DistinctKeys-without k [] d = tt
DistinctKeys-without k ((i, v) ∷ l) d = elim (Bool-cases (text_eq k i)) [
  | inl e ↦ rw e (DistinctKeys-without k l d.1)
  | inr e ↦ rw e (rw (find-without k i l, e) d.0, DistinctKeys-without k l d.1)
]

firsts-DistinctKeys : (l : List (Text × Text)) → DistinctKeys (firsts l)
unfolding firsts
firsts-DistinctKeys [] = tt
firsts-DistinctKeys ((k, v) ∷ l) = (
  rw (find-without k k (firsts l), text_eq_refl) refl,
  DistinctKeys-without k (firsts l) (firsts-DistinctKeys l),
)

abbrev sample : RedisHash
sample = record {
  Hash = List (Text × Text);
  hgetall = firsts;
  hset = λ k v h. (k, v) ∷ h;
  hsetnx = λ k v h. if is_some (find k h) then h else (k, v) ∷ h;
  hdel = without;
}

find-set_new :
    (k v j : Text) (h : List (Text × Text))
    → find j (if is_some (find k h) then h else (k, v) ∷ h)
      ≡ (if text_eq k j then or_value (find j h) v else find j h)
find-set_new k v j h = elim (Bool-cases (text_eq k j)) [
  | inl same ↦ rw (same, text_eq→eq k j same) (by_found j (find j h) refl)
  | inr apart ↦ elim (Bool-cases (is_some (find k h))) [
    | inl there ↦ rw (there, apart) refl
    | inr new ↦ rw (new, apart) refl
  ]
]
  where
    by_found :
        (i : Text) (o : Option Text)
        → find i h ≡ o
        → find i (if is_some (find i h) then h else (i, v) ∷ h) ≡ or_value (find i h) v
    by_found i none e = rw (e, e, text_eq_refl) refl
    by_found i (some u) e = rw (e, e) refl

sample-HashLaws : HashLaws sample
sample-HashLaws = record {
  distinct = firsts-DistinctKeys;
  find-hset = λ k v j h. rw (find-firsts j ((k, v) ∷ h), find-firsts j h) refl;
  find-hsetnx = λ k v j h.
      rw (find-firsts j (if is_some (find k h) then h else (k, v) ∷ h), find-firsts j h)
        (find-set_new k v j h);
  find-hdel = λ k j h. rw (find-firsts j (without k h), find-firsts j h) (find-without k j h);
}

-- A queue with one run, that failed three times.
abbrev waiting : List (Text × Text)
waiting = (codes "r1", entry (pos 3) (codes "skipped:http_error")) ∷ []

abbrev failing : Attempt
failing = record { ok = false; reasons = codes "skipped:secret_reject" ∷ [] }

waiting-IsQueue : IsQueue sample sample-HashLaws waiting
unfolding firsts without
waiting-IsQueue r v at = elim (Bool-cases (text_eq (codes "r1") r)) [
  | inl same ↦
      let here : v ≡ entry (pos 3) (codes "skipped:http_error") = cc (rw same at at) in
      (3, codes "skipped:http_error", here, omega arith)
  | inr apart ↦ cc (rw apart at at)
]

sweep_retry_queue-left_example :
    queue sample sample-HashLaws (codes "r1") (sweep_retry_queue sample (λ r. failing) waiting).0
    ≡ left_of failing 3 (codes "skipped:http_error")
unfolding firsts without text_eq
sweep_retry_queue-left_example =
    (sweep_retry_queue-left sample sample-HashLaws (λ r. failing) waiting waiting-IsQueue).1
      (codes "r1") (codes "skipped:http_error") 3 refl

-- Three hours of failures: after the first two sweeps the entry counts two.
history-gives_up_example :
    queue sample sample-HashLaws (codes "r1") (
      history sample
        (happen sample []
          (finishes (codes "r1") (record { ok = false; reasons = codes "skipped:no_target" ∷ [] })))
        (sweeps (λ r. failing) ∷ finishes (codes "r2") failing ∷ sweeps (λ r. failing) ∷ []))
    ≡ some (entry (pos 2) (codes "skipped:no_target"))
unfolding firsts text_eq is_gated
history-gives_up_example =
    (history-gives_up sample sample-HashLaws (codes "r1") (codes "skipped:no_target") []
      (sweeps (λ r. failing) ∷ finishes (codes "r2") failing ∷ sweeps (λ r. failing) ∷ [])
      (λ r. failing) [] (λ r v e. cc) refl refl ((refl, refl), ((refl, refl), tt)) (omega arith)
      (refl, refl)).0

retry_queue_snapshot-entries_example :
    (rows : List (Text × ℤ × Text)) × (retry_queue_snapshot sample waiting ≡ some rows)
    × (map as_entry rows ≡ waiting)
unfolding firsts without
retry_queue_snapshot-entries_example =
    retry_queue_snapshot-entries sample sample-HashLaws waiting waiting-IsQueue
