-- ===== src/Execute/Registry/Candidates.antt =====
-- execute.py: the candidates of `abort_candidates`.
use mathlib.Core.List.{append-nil, append_assoc}
use aw_app_agents_platform_r.Prelude.{
  ◌≡◌, refl, subst, sym, ap, ◌∙◌, Bool, true, false, Option, none, some, List, [], ◌∷◌, ◌++◌,
  if◌then◌else◌, any, Bool-cases, inl, inr,
}
use aw_app_agents_platform_r.Prelude.Texts.{Text, is_empty, text_eq, text_eq_refl, text_eq-other}
use aw_app_agents_platform_r.WarmPool.Names.{warm_container_name}
use aw_app_agents_platform_r.Execute.Registry.{
  Source, or_none, add_named, add, warm_half, add_warm, candidates_of, cold_container_name,
  monitor_container_name, local_registry, redis_registry, cold_name, monitor_name, warm_name,
}

-- A candidate has this name.
abbrev pub offers : Text → List (Text × Source) → Bool
offers n cs = any (λ e. text_eq n e.0) cs

-- No two candidates have the same name, and none has an empty one.
abbrev pub Tidy : List (Text × Source) → Type 0
Tidy [] = Unit
Tidy (c ∷ cs) = (is_empty c.0 ≡ false) × (offers c.0 cs ≡ false) × Tidy cs

offers-append :
    (n : Text) (s : Source) (m : Text) (cs : List (Text × Source))
    → offers m (cs ++ (n, s) ∷ []) ≡ (if offers m cs then true else text_eq m n)
offers-append n s m [] = elim (Bool-cases (text_eq m n)) [ inl e ↦ rw e refl | inr e ↦ rw e refl ]
offers-append n s m (c ∷ cs) = elim (Bool-cases (text_eq m c.0)) [
  | inl e ↦ rw e refl
  | inr e ↦ rw (e, offers-append n s m cs) refl
]

Tidy-append :
    (n : Text) (s : Source) (cs : List (Text × Source))
    → is_empty n ≡ false
    → offers n cs ≡ false
    → Tidy cs
    → Tidy (cs ++ (n, s) ∷ [])
Tidy-append n s [] full new h = (full, refl, tt)
Tidy-append n s (c ∷ cs) full new h = elim (Bool-cases (text_eq n c.0)) [
  | inl same ↦ absurd (cc (rw same at new))
  | inr other ↦ (
    h.0,
    offers-append n s c.0 cs ∙ rw (h.1, text_eq-other n c.0 other) refl,
    Tidy-append n s cs full (rw other at new) h.2,
  )
]

or_none-full : (o : Option Text) (n : Text) → or_none o ≡ some n → is_empty n ≡ false
unfolding or_none
or_none-full none n h = cc
or_none-full (some t) n h = elim (Bool-cases (is_empty t)) [
  | inl blank ↦ absurd (cc (rw blank at h))
  | inr full ↦ subst (λ u. is_empty u ≡ false) (cc (rw full at h)) full
]

add_named-Tidy :
    (o : Option Text) (s : Source) (cs : List (Text × Source))
    → ((n : Text) → o ≡ some n → is_empty n ≡ false)
    → Tidy cs
    → Tidy (add_named o s cs)
unfolding add_named
add_named-Tidy none s cs full h = h
add_named-Tidy (some n) s cs full h = elim (Bool-cases (offers n cs)) [
  | inl old ↦ rw old h
  | inr new ↦ rw new (Tidy-append n s cs (full n refl) new h)
]

add-Tidy : (o : Option Text) (s : Source) (cs : List (Text × Source)) → Tidy cs → Tidy (add o s cs)
unfolding add
add-Tidy o s cs h = add_named-Tidy (or_none o) s cs (or_none-full o) h

-- The candidates that are there stay in front.
abbrev pub Extends : List (Text × Source) → List (Text × Source) → Type 0
Extends cs out = (more : List (Text × Source)) × (out ≡ cs ++ more)

add_named-Extends :
    (o : Option Text) (s : Source) (cs : List (Text × Source)) → Extends cs (add_named o s cs)
unfolding add_named
add_named-Extends none s cs = ([], sym (append-nil cs))
add_named-Extends (some n) s cs = elim (Bool-cases (offers n cs)) [
  | inl old ↦ rw old ([], sym (append-nil cs))
  | inr new ↦ rw new ((n, s) ∷ [], refl)
]

add-Extends : (o : Option Text) (s : Source) (cs : List (Text × Source)) → Extends cs (add o s cs)
unfolding add
add-Extends o s cs = add_named-Extends (or_none o) s cs

Extends-trans : (a b c : List (Text × Source)) → Extends a b → Extends b c → Extends a c
Extends-trans a b c (m, f) (n, g) = (m ++ n, g ∙ (ap (λ x. x ++ n) f ∙ append_assoc a m n))

Extends-offers :
    (n : Text) (a b : List (Text × Source)) → Extends a b → offers n a ≡ true → offers n b ≡ true
Extends-offers n a b (m, f) h = subst (λ x. offers n x ≡ true) (sym f) (in_front n a m h)
  where
    in_front :
        (n : Text) (a m : List (Text × Source)) → offers n a ≡ true → offers n (a ++ m) ≡ true
    in_front n [] m h = absurd (cc h)
    in_front n (c ∷ a) m h = elim (Bool-cases (text_eq n c.0)) [
      | inl same ↦ rw same refl
      | inr other ↦ rw other (in_front n a m (rw other at h))
    ]

-- The name that a registry gave, if it gave one, is offered.
abbrev pub Offered : Option Text → List (Text × Source) → Type 0
Offered none cs = Unit
Offered (some n) cs = offers n cs ≡ true

Offered-Extends :
    (o : Option Text) (a b : List (Text × Source)) → Extends a b → Offered o a → Offered o b
Offered-Extends none a b e h = tt
Offered-Extends (some n) a b e h = Extends-offers n a b e h

add_named-Offered :
    (o : Option Text) (s : Source) (cs : List (Text × Source)) → Offered o (add_named o s cs)
unfolding add_named
add_named-Offered none s cs = tt
add_named-Offered (some n) s cs = elim (Bool-cases (offers n cs)) [
  | inl old ↦ rw old old
  | inr new ↦ rw new (offers-append n s n cs ∙ rw (new, text_eq_refl n) refl)
]

add-Offered :
    (o : Option Text) (s : Source) (cs : List (Text × Source)) → Offered (or_none o) (add o s cs)
unfolding add
add-Offered o s cs = add_named-Offered (or_none o) s cs

-- The first candidate is the name of the process's own registry, if it has one.
abbrev pub FirstIs : Option Text → List (Text × Source) → Type 0
FirstIs none cs = Unit
FirstIs (some n) cs = (rest : List (Text × Source)) × (cs ≡ (n, local_registry) ∷ rest)

FirstIs-Extends :
    (o : Option Text) (b : List (Text × Source))
    → Extends (add_named o local_registry []) b
    → FirstIs o b
unfolding add_named
FirstIs-Extends none b e = tt
FirstIs-Extends (some n) b (m, f) = (m, f)

or_none-warm_half : (a s : Option Text) → or_none (warm_half a s) ≡ warm_half a s
unfolding or_none warm_half warm_container_name
or_none-warm_half none s = refl
or_none-warm_half (some a) none = refl
or_none-warm_half (some a) (some s) = refl

-- The names that an abort tries: none is empty and none occurs twice; the name of the process's own
-- registry, if there is one, comes first, and the name from Redis, if there is one, the two names
-- that follow from the run's id, and the warm name, if the caller sent both halves, are all tried.
pub candidates_of-Tidy :
    (run_id : Text) (here there agent_id session_id : Option Text)
    → let cs = candidates_of run_id here there agent_id session_id in
      Tidy cs
      × FirstIs (or_none here) cs
      × Offered (or_none there) cs
      × (offers (cold_container_name run_id) cs ≡ true)
      × (offers (monitor_container_name run_id) cs ≡ true)
      × Offered (warm_half (or_none agent_id) (or_none session_id)) cs
unfolding candidates_of add_warm add cold_container_name monitor_container_name or_none warm_half
candidates_of-Tidy run_id here there agent_id session_id =
    let o1 = add here local_registry [] in
    let o2 = add there redis_registry o1 in
    let o3 = add (some (cold_container_name run_id)) cold_name o2 in
    let o4 = add (some (monitor_container_name run_id)) monitor_name o3 in
    let warm = warm_half (or_none agent_id) (or_none session_id) in
    let o5 = add warm warm_name o4 in
    let e2 = add-Extends there redis_registry o1 in
    let e3 = add-Extends (some (cold_container_name run_id)) cold_name o2 in
    let e4 = add-Extends (some (monitor_container_name run_id)) monitor_name o3 in
    let e5 = add-Extends warm warm_name o4 in
    let e35 = Extends-trans o3 o4 o5 e4 e5 in
    let e25 = Extends-trans o2 o3 o5 e3 e35 in
    (
      add-Tidy warm warm_name o4 (
          add-Tidy (some (monitor_container_name run_id)) monitor_name o3 (
            add-Tidy (some (cold_container_name run_id)) cold_name o2
              (add-Tidy there redis_registry o1 (add-Tidy here local_registry [] tt)))),
      FirstIs-Extends (or_none here) o5 (Extends-trans o1 o2 o5 e2 e25),
      Offered-Extends (or_none there) o2 o5 e25 (add-Offered there redis_registry o1),
      Extends-offers (cold_container_name run_id) o3 o5 e35
          (add-Offered (some (cold_container_name run_id)) cold_name o2),
      Extends-offers (monitor_container_name run_id) o4 o5 e5
          (add-Offered (some (monitor_container_name run_id)) monitor_name o3),
      subst (λ o. Offered o o5) (or_none-warm_half (or_none agent_id) (or_none session_id))
          (add-Offered warm warm_name o4),
    )
