-- ===== src/ExecutionIndex/Retry/Laws.antt =====
-- What a sweep of the retry queue (execution_index.py) makes of each entry, and when it gives up.
use aw_app_agents_platform_r.Prelude.{
  ℕ, suc, ◌+◌, ◌<◌, ◌≡◌, ◌≢◌, refl, sym, ap, ◌∙◌, Option, none, some, List, [], ◌∷◌, if◌then◌else◌,
  leb, pos, arith, Bool-cases, ◌⊎◌, inl, inr, length, is_some,
}
use aw_app_agents_platform_r.Prelude.Texts.{Text, text_eq, text_eq_refl, text_eq→eq}
use aw_app_agents_platform_r.ExecutionIndex.Retry.{
  retry_max_attempts, entry, Attempt, Fate, indexed, gated, exhausted, broken, requeued, is_gated,
  fate, Counts, tally, RedisHash, find, apply_fate, unless_broken, sweep_entries, sweep_retry_queue,
}
use aw_app_agents_platform_r.ExecutionIndex.Retry.Values.{fate-entry}

abbrev pub DistinctKeys : List (Text × Text) → Type 0
DistinctKeys [] = Unit
DistinctKeys ((k, v) ∷ l) = (find k l ≡ none) × DistinctKeys l

abbrev pub or_value : Option Text → Text → Option Text
or_value none v = some v
or_value (some u) v = some u

-- The documented commands of a Redis hash: HGETALL lists each field once, HSET writes a field, HSETNX
-- only one that is not there, HDEL removes it.
pub record HashLaws (H : RedisHash) : Type 0 where
  pub distinct : (h : H.Hash) → DistinctKeys (H.hgetall h)
  pub find-hset :
      (k v j : Text) (h : H.Hash)
      → find j (H.hgetall (H.hset k v h)) ≡ (if text_eq k j then some v else find j (H.hgetall h))
  pub find-hsetnx :
      (k v j : Text) (h : H.Hash)
      → find j (H.hgetall (H.hsetnx k v h))
        ≡ (if text_eq k j then or_value (find j (H.hgetall h)) v else find j (H.hgetall h))
  pub find-hdel :
      (k j : Text) (h : H.Hash)
      → find j (H.hgetall (H.hdel k h)) ≡ (if text_eq k j then none else find j (H.hgetall h))

-- What the queue holds for a run after a sweep, by what it held before.
abbrev pub outcome : Fate → Option Text
outcome (requeued v) = some v
outcome _ = none

abbrev pub next : Attempt → Option Text → Option Text
next a none = none
next a (some v) = outcome (fate a v)

-- A value that the queue writes: fewer than 24 attempts, and a reason.
abbrev pub IsEntry : Text → Type 0
IsEntry v = (n : ℕ) × (reason : Text) × (v ≡ entry (pos n) reason) × (n < retry_max_attempts)

abbrev pub Entries : List (Text × Text) → Type 0
Entries l = (k v : Text) → find k l ≡ some v → IsEntry v

limit_cases :
    (n : ℕ) (v : Text) (f : Fate)
    → f ≡ (if leb retry_max_attempts (suc n) then exhausted else requeued v)
    → ((outcome f ≡ none) × (f ≢ broken)) ⊎ ((suc n < retry_max_attempts) × (f ≡ requeued v))
limit_cases n v f e = elim (Bool-cases (leb retry_max_attempts (suc n))) [
  | inl over ↦ let gone : f ≡ exhausted = rw over at e in inl (ap outcome gone, λ b. cc (gone, b))
  | inr room ↦ inr (ground arith, rw room at e)
]

-- An entry leaves the queue or is written again with one attempt more.
fate-cases :
    (a : Attempt) (n : ℕ) (reason : Text)
    → let f = fate a (entry (pos n) reason) in
      ((outcome f ≡ none) × (f ≢ broken))
      ⊎ ((suc n < retry_max_attempts) × (f ≡ requeued (entry (pos (suc n)) reason)))
fate-cases a n reason = elim (Bool-cases a.ok) [
  | inl done ↦ inl (unfold fate in rw done (refl, λ b. cc))
  | inr failed ↦ elim (Bool-cases (is_gated a.reasons)) [
    | inl out ↦ inl (unfold fate in rw (failed, out) (refl, λ b. cc))
    | inr kept ↦ limit_cases n _ _ (fate-entry a n reason failed kept)
  ]
]

fate-ne-broken : (a : Attempt) (v : Text) → IsEntry v → fate a v ≢ broken
fate-ne-broken a v (n, reason, e, few) = elim (fate-cases a n reason) [
  | inl (gone, whole) ↦ rw e whole
  | inr (room, again) ↦ rw e (λ b. cc (again, b))
]

outcome-IsEntry : (a : Attempt) (v u : Text) → IsEntry v → outcome (fate a v) ≡ some u → IsEntry u
outcome-IsEntry a v u (n, reason, e, few) h = elim (fate-cases a n reason) [
  | inl (gone, whole) ↦ cc (gone, h, ap (λ (x : Text). outcome (fate a x)) e)
  | inr (room, again) ↦
      (suc n, reason, cc (ap outcome again, h, ap (λ (x : Text). outcome (fate a x)) e), room)
]

none-some : (v : Text) → ¬ (none ≡ some v)
none-some v e = cc

pub Entries-tail :
    (k v : Text) (l : List (Text × Text)) → find k l ≡ none → Entries ((k, v) ∷ l) → Entries l
Entries-tail k v l fresh all j u h = all j u (elim (Bool-cases (text_eq k j)) [
  | inl same ↦ absurd (none-some u (sym fresh ∙ ap (λ i. find i l) (text_eq→eq k j same) ∙ h))
  | inr apart ↦ rw apart h
])

unless_broken-on {ℓ} : {A : Type ℓ} (f : Fate) (x y : A) → f ≢ broken → unless_broken f x y ≡ y
unfolding unless_broken
unless_broken-on broken x y b = absurd (b refl)
unless_broken-on indexed x y b = refl
unless_broken-on gated x y b = refl
unless_broken-on exhausted x y b = refl
unless_broken-on (requeued v) x y b = refl

abbrev pub size : Counts → ℕ
size c = c.n_indexed + c.n_gated + c.n_requeued + c.n_exhausted

size-tally :
    (f : Fate) (c : Counts)
    → f ≢ broken
    → ((tally f c).queued ≡ c.queued) × (size (tally f c) ≡ size c + 1)
size-tally broken c b = absurd (b refl)
size-tally indexed c b = (refl, omega arith)
size-tally gated c b = (refl, omega arith)
size-tally exhausted c b = (refl, omega arith)
size-tally (requeued v) c b = (refl, omega arith)

module _ (H : RedisHash) (L : HashLaws H) where
  find-apply_fate :
      (k v j : Text) (a : Attempt) (h : H.Hash)
      → IsEntry v
      → find j (H.hgetall (apply_fate H k (fate a v) h))
        ≡ (if text_eq k j then outcome (fate a v) else find j (H.hgetall h))
  find-apply_fate k v j a h e = by_fate (fate a v) (fate-ne-broken a v e)
    where
      by_fate :
          (f : Fate)
          → f ≢ broken
          → find j (H.hgetall (apply_fate H k f h))
            ≡ (if text_eq k j then outcome f else find j (H.hgetall h))
      by_fate indexed b = unfold apply_fate in L.find-hdel k j h
      by_fate gated b = unfold apply_fate in L.find-hdel k j h
      by_fate exhausted b = unfold apply_fate in L.find-hdel k j h
      by_fate (requeued u) b = unfold apply_fate in L.find-hset k u j h
      by_fate broken b = absurd (b refl)

  -- The entry that a round of the loop is at, and the others.
  round :
      (try : Text → Attempt) (k v j : Text) (l : List (Text × Text)) (h : H.Hash)
      → IsEntry v
      → find k l ≡ none
      → (if is_some (find j l)
          then next (try j) (find j l)
          else find j (H.hgetall (apply_fate H k (fate (try k) v) h)))
        ≡ (if is_some (find j ((k, v) ∷ l))
            then next (try j) (find j ((k, v) ∷ l))
            else find j (H.hgetall h))
  round try k v j l h e fresh = elim (Bool-cases (text_eq k j)) [
    | inl same ↦
        let is_j = text_eq→eq k j same in
        let gone : find j l ≡ none = ap (λ i. find i l) (sym is_j) ∙ fresh in
        rw (gone, same, find-apply_fate k v j (try k) h e, same)
          (ap (λ i. outcome (fate (try i) v)) is_j)
    | inr apart ↦ rw (find-apply_fate k v j (try k) h e, apart)
  ]

  abbrev Done :
      (Text → Attempt) → List (Text × Text) → H.Hash → Counts → H.Hash × Option Counts → Type 0
  Done try l h c r =
      ((d : Counts) × (r.1 ≡ some d) × (d.queued ≡ c.queued) × (size d ≡ size c + length l))
      × ((j : Text)
          → find j (H.hgetall r.0)
            ≡ (if is_some (find j l) then next (try j) (find j l) else find j (H.hgetall h)))

  sweep_entries-Done :
      (try : Text → Attempt) (l : List (Text × Text)) (h : H.Hash) (c : Counts)
      → DistinctKeys l
      → Entries l
      → Done try l h c (sweep_entries H try l h c)
  unfolding sweep_entries
  sweep_entries-Done try [] h c d e = ((c, refl, refl, omega arith), λ j. refl)
  sweep_entries-Done try ((k, v) ∷ l) h c d e =
      let f = fate (try k) v in
      let is_entry : IsEntry v = e k v (rw text_eq_refl) in
      let whole : f ≢ broken = fate-ne-broken (try k) v is_entry in
      let (same, grown) = size-tally f c whole in
      let ((counts, done, queued, total), holds) =
        sweep_entries-Done try l (apply_fate H k f h) (tally f c) d.1 (Entries-tail k v l d.0 e) in
      let goes_on =
        unless_broken-on f (h, none) (sweep_entries H try l (apply_fate H k f h) (tally f c))
          whole in
      (
        (counts, ap (λ r. r.1) goes_on ∙ done, queued ∙ same, omega (arith, grown)),
        λ j. ap (λ r. find j (H.hgetall r.0)) goes_on ∙ holds j ∙ round try k v j l h is_entry d.0,
      )

  abbrev pub queue : Text → H.Hash → Option Text
  queue r h = find r (H.hgetall h)

  -- The values in the queue are as this module writes them.
  abbrev pub IsQueue : H.Hash → Type 0
  IsQueue h = (r v : Text) → queue r h ≡ some v → IsEntry v

  -- A sweep of a queue with such values does not raise, leaves of every run what the body of its loop
  -- makes of the entry, and counts each entry once.
  pub sweep_retry_queue-next :
      (try : Text → Attempt) (h : H.Hash)
      → IsQueue h
      → ((d : Counts) × ((sweep_retry_queue H try h).1 ≡ some d)
          × (d.queued ≡ length (H.hgetall h))
          × (d.n_indexed + d.n_gated + d.n_requeued + d.n_exhausted ≡ d.queued))
        × ((r : Text) → queue r (sweep_retry_queue H try h).0 ≡ next (try r) (queue r h))
  unfolding sweep_retry_queue
  sweep_retry_queue-next try h e =
      let ((d, done, queued, total), holds) =
        sweep_entries-Done try (H.hgetall h) h _ (L.distinct h) e in
      ((d, done, queued, omega (arith, total, queued)), λ r. holds r ∙ if_some (try r) (queue r h))
    where
      if_some : (a : Attempt) (o : Option Text) → (if is_some o then next a o else o) ≡ next a o
      if_some a none = refl
      if_some a (some v) = refl

  pub sweep-IsQueue :
      (try : Text → Attempt) (h : H.Hash) → IsQueue h → IsQueue (sweep_retry_queue H try h).0
  sweep-IsQueue try h e r u at =
      stays (queue r h) refl (sym ((sweep_retry_queue-next try h e).1 r) ∙ at)
    where
      stays : (o : Option Text) → queue r h ≡ o → next (try r) o ≡ some u → IsEntry u
      stays none was now = cc
      stays (some v) was now = outcome-IsEntry (try r) v u (e r v was) now
