-- ===== src/ExecutionIndex/Run/Accounted.antt =====
-- How a call of `index_run` (execution_index.py) ends, and what it has counted and told by then.
use aw_app_agents_platform_r.Prelude.{
  ℕ, zero, suc, ◌+◌, ◌*◌, ◌/◌, ◌≤◌, ◌<◌, ◌≡◌, ◌≢◌, refl, Bool, true, false, List, [], ◌∷◌, ◌++◌,
  arith, if◌then◌else◌, leb, ◌⊎◌, inl, inr, Bool-cases,
}
use aw_app_agents_platform_r.Prelude.Texts.{Text, codes, text_eq}
use aw_app_agents_platform_r.ExecutionIndex.Gate.{Run, Event, interesting}
use aw_app_agents_platform_r.ExecutionIndex.Chunks.{Chunk}
use aw_app_agents_platform_r.ExecutionIndex.Targets.{Target, IndexConfig, exec_index_targets}
use aw_app_agents_platform_r.ExecutionIndex.Run.{
  after_reply, Reply, ok, bad_status, raised, bad_body, Posted, accepted, refused, failed, Polled,
  Web, Trace, incr, Poll, finalized, skipped, out_of_fuel, first_delay, next_delay, mode_of, posted,
  poll, post_all, Rendering, finish_posts, post_targets, index_events, index_polled, index_attempt,
  index_run, poll_fuel, nothing_yet,
}

-- What the standard library documents of the monotonic clock: no call turns it back, and a sleep
-- lasts at least as long as it is told.
pub record Ticks (W : Web) : Type 0 where
  pub clock : W.World → ℕ
  pub read : (w : W.World) → (W.monotonic w).1 ≡ clock w
  pub after_monotonic : (w : W.World) → clock w ≤ clock (W.monotonic w).0
  pub after_get_run : (r : Text) (w : W.World) → clock w ≤ clock (W.get_run r w).0
  pub after_sleep : (d : ℕ) (w : W.World) → clock w + d ≤ clock (W.sleep d w)

-- A call's result: success, counted under `indexed` after all else, or failure with a first reason.
abbrev pub Accounted : Trace → Bool → Type 0
Accounted s true = (cs : List Text) × (s.counters ≡ cs ++ codes "indexed" ∷ [])
Accounted s false = (reason : Text) × (rest : List Text) × (s.skips ≡ reason ∷ rest)

abbrev pub HasReason : Trace → Type 0
HasReason s = (reason : Text) × (rest : List Text) × (s.skips ≡ reason ∷ rest)

snoc-HasReason :
    (xs : List Text) (x : Text)
    → (reason : Text) × (rest : List Text) × ((xs ++ x ∷ []) ≡ reason ∷ rest)
snoc-HasReason [] x = (x, [], refl)
snoc-HasReason (y ∷ xs) x = (y, xs ++ x ∷ [], refl)

posted-cases :
    (t : Target) (r : Posted) (s : Trace) → ((posted t r s).1 ≡ true) ⊎ HasReason (posted t r s).0
unfolding posted
posted-cases t accepted s = inl refl
posted-cases t (refused code) s = inr (snoc-HasReason s.skips _)
posted-cases t (failed error) s = inr (snoc-HasReason s.skips _)

snoc-keeps :
    (xs : List Text) (x : Text)
    → ((reason : Text) × (rest : List Text) × (xs ≡ reason ∷ rest))
    → (reason : Text) × (rest : List Text) × ((xs ++ x ∷ []) ≡ reason ∷ rest)
snoc-keeps xs x h = snoc-HasReason xs x

posted-keeps : (t : Target) (r : Posted) (s : Trace) → HasReason s → HasReason (posted t r s).0
unfolding posted
posted-keeps t accepted s h = h
posted-keeps t (refused code) s h = snoc-HasReason s.skips _
posted-keeps t (failed error) s h = snoc-HasReason s.skips _

module _ (W : Web) where
  post_all-keeps :
      (ts : List Target) (cs : List Chunk) (s : Trace) (w : W.World)
      → HasReason s
      → HasReason (post_all W ts cs s w).1
  unfolding post_all
  post_all-keeps [] cs s w h = h
  post_all-keeps (t ∷ ts) cs s w h =
      let (w1, reply) = W.post t cs w in
      post_all-keeps ts cs (posted t reply s).0 w1 (posted-keeps t reply s h)

  post_all-cases :
      (t : Target) (ts : List Target) (cs : List Chunk) (s : Trace) (w : W.World)
      → ((post_all W (t ∷ ts) cs s w).2 ≡ true) ⊎ HasReason (post_all W (t ∷ ts) cs s w).1
  unfolding post_all
  post_all-cases t ts cs s w =
      let (w1, reply) = W.post t cs w in
      elim (posted-cases t reply s) [
        | inl yes_here ↦ inl (rw yes_here refl)
        | inr why ↦ inr (post_all-keeps ts cs (posted t reply s).0 w1 why)
      ]

  module _ (T : Ticks W) where
    three_ways :
        (a b : Bool) (run : Run) (why : Text) (w v : W.World) (rest : W.World × Poll)
        → (if a then (w, finalized run) else if b then (v, skipped why) else rest).1 ≡ out_of_fuel
        → (b ≡ false) × (rest.1 ≡ out_of_fuel)
    three_ways true b run why w v rest e = cc
    three_ways false true run why w v rest e = cc
    three_ways false false run why w v rest e = (refl, e)

    after_reply-ends :
        (again : W.World → W.World × Poll) (stop_at delay : ℕ) (r : Reply Polled) (w : W.World)
        → (T.clock w < stop_at → (again (W.sleep delay (W.monotonic w).0)).1 ≢ out_of_fuel)
        → (after_reply W again stop_at delay r w).1 ≢ out_of_fuel
    unfolding after_reply
    after_reply-ends again stop_at delay (bad_status code) w h e = cc
    after_reply-ends again stop_at delay (raised error) w h e = cc
    after_reply-ends again stop_at delay (bad_body error) w h e = cc
    after_reply-ends again stop_at delay (ok p) w h e =
        let (w1, now) = W.monotonic w in
        let (open_still, none_left) =
          three_ways p.ended (leb stop_at now) p.run (codes "skipped:finalize_timeout") w w1
            (again (W.sleep delay w1)) e in
        h (ground (arith, T.read w)) none_left

    -- With the deadline at most `fuel` quarters of a second after the clock, the loop ends.
    poll-ends :
        (fuel : ℕ) (run_id : Text) (deadline started delay : ℕ) (w : W.World)
        → 250 ≤ delay
        → started + deadline ≤ T.clock w + fuel * 250
        → (poll W (suc fuel) run_id deadline started delay w).1 ≢ out_of_fuel
    unfolding poll
    poll-ends zero run_id deadline started delay w slow h =
        let (w1, reply) = W.get_run run_id w in
        after_reply-ends (poll W zero run_id deadline started (next_delay delay))
          (started + deadline) delay reply w1
          (λ early. absurd (omega (arith, T.after_get_run run_id w)))
    poll-ends (suc fuel) run_id deadline started delay w slow h =
        let (w1, reply) = W.get_run run_id w in
        after_reply-ends (poll W (suc fuel) run_id deadline started (next_delay delay))
          (started + deadline) delay reply w1
          λ early.
            poll-ends fuel run_id deadline started (next_delay delay)
              (W.sleep delay (W.monotonic w1).0) (omega arith)
              (omega (
                arith,
                T.after_get_run run_id w,
                T.after_monotonic w1,
                T.after_sleep delay (W.monotonic w1).0,
              ))

  module _ (R : Rendering) where
    Accounted-finish_posts :
        (w : W.World) (s : Trace) (done : Bool)
        → (done ≡ true) ⊎ HasReason s
        → let r = finish_posts W R (w, s, done) in Accounted r.1 r.2
    unfolding finish_posts
    Accounted-finish_posts w s true h = (s.counters, refl)
    Accounted-finish_posts w s false (inl e) = cc
    Accounted-finish_posts w s false (inr why) = why

    Accounted-post_targets :
        (ts : List Target) (cs : List Chunk) (s : Trace) (w : W.World)
        → let r = post_targets W R ts cs s w in Accounted r.1 r.2
    unfolding post_targets
    Accounted-post_targets [] cs s w = snoc-HasReason s.skips _
    Accounted-post_targets (t ∷ ts) cs s w =
        let (w1, s1, done) = post_all W (t ∷ ts) cs s w in
        Accounted-finish_posts w1 s1 done (post_all-cases t ts cs s w)

    Accounted-index_events :
        (cfg : IndexConfig) (run : Run) (reply : Reply (List Event)) (s : Trace) (w : W.World)
        → let r = index_events W R cfg run reply s w in Accounted r.1 r.2
    unfolding index_events
    Accounted-index_events cfg run (bad_status code) s w = snoc-HasReason s.skips _
    Accounted-index_events cfg run (raised error) s w = snoc-HasReason s.skips _
    Accounted-index_events cfg run (bad_body error) s w = snoc-HasReason s.skips _
    Accounted-index_events cfg run (ok events) s w =
        elim (Bool-cases (interesting run events (mode_of cfg))) [
          | inl passed ↦ rw passed (Accounted-post_targets (exec_index_targets cfg) _ s w)
          | inr gated ↦ rw gated (snoc-HasReason s.skips _)
        ]

    Accounted-index_polled :
        (cfg : IndexConfig) (run_id : Text) (p : Poll) (s : Trace) (w : W.World)
        → p ≢ out_of_fuel
        → let r = index_polled W R cfg run_id p s w in Accounted r.1 r.2
    unfolding index_polled
    Accounted-index_polled cfg run_id out_of_fuel s w h = absurd (h refl)
    Accounted-index_polled cfg run_id (skipped reason) s w h = snoc-HasReason s.skips reason
    Accounted-index_polled cfg run_id (finalized run) s w h =
        let (w1, reply) = W.get_events run_id w in Accounted-index_events cfg run reply s w1

    -- Unless indexing is off, a call of `index_run` ends, given a clock that no call turns back and
    -- sleeps that last as long as they are told: either it returns True, and the last counter that it
    -- incremented is `indexed`, or it returns False and has told `on_skip` a reason.
    pub index_run-Accounted :
        (cfg : IndexConfig) (run_id : Text) (deadline : ℕ) (w : W.World)
        → Ticks W
        → text_eq (mode_of cfg) (codes "off") ≡ false
        → let r = index_run W R cfg run_id deadline w in Accounted r.1 r.2
    unfolding index_run index_attempt
    index_run-Accounted cfg run_id deadline w T on =
        let (w1, started) = W.monotonic w in
        let s = incr (codes "attempted") nothing_yet in
        rw on (
          Accounted-index_polled cfg run_id
            (poll W (poll_fuel deadline) run_id deadline started first_delay w1).1 s
            (poll W (poll_fuel deadline) run_id deadline started first_delay w1).0
            (poll-ends T (suc (deadline / 250)) run_id deadline started first_delay w1 (omega arith)
              (omega (arith, T.read w, T.after_monotonic w))))
