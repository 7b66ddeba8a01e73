-- ===== src/Execute/Bounded/Size.antt =====
-- The bounded dictionaries of execute.py: their size, and which entries the eviction keeps.
use aw_app_agents_platform_r.Prelude.{
  ℕ, suc, ◌≤◌, ◌<◌, ◌≡◌, refl, ap, true, false, none, some, List, [], ◌∷◌, ◌++◌, inl, inr, ltb,
  length, is_some, Bool-cases, Option-cases, le→not-ltb, arith,
}
use aw_app_agents_platform_r.Prelude.Texts.{Text, text_eq, text_eq_refl}
use aw_app_agents_platform_r.Execute.Bounded.{get_item, set_item, pop_item, evict, bounded_put}

module _ {V : Type 0} where
  pub length-evict : (maximum : ℕ) (d : List (Text × V)) → length (evict maximum d) ≤ maximum
  unfolding evict
  length-evict maximum [] = omega arith
  length-evict maximum (x ∷ d) = elim (Bool-cases (ltb maximum (length (x ∷ d)))) [
    | inl over ↦ rw over (length-evict maximum d)
    | inr fits ↦ rw fits (ground arith)
  ]

  pub length-bounded_put :
      (maximum : ℕ) (k : Text) (v : V) (d : List (Text × V))
      → length (bounded_put maximum k v d) ≤ maximum
  unfolding bounded_put
  length-bounded_put maximum k v d = length-evict maximum (set_item k v d)

  -- The entries behind one that is kept are kept.
  pub evict-append :
      (maximum : ℕ) (pre : List (Text × V)) (x : Text × V) (post : List (Text × V))
      → length post < maximum
      → (kept : List (Text × V)) × (evict maximum (pre ++ x ∷ post) ≡ kept ++ x ∷ post)
  unfolding evict
  evict-append maximum [] x post lt = ([], rw (fits lt) refl)
    where
      fits : length post < maximum → ltb maximum (suc (length post)) ≡ false
      fits h = ground arith
  evict-append maximum (y ∷ pre) x post lt =
      elim (Bool-cases (ltb maximum (length (y ∷ (pre ++ x ∷ post))))) [
        | inl over ↦ rw over (evict-append maximum pre x post lt)
        | inr fits ↦ (y ∷ pre, rw fits refl)
      ]

  pub set_item-absent :
      (k : Text) (v : V) (d : List (Text × V))
      → get_item k d ≡ none
      → set_item k v d ≡ d ++ (k, v) ∷ []
  unfolding get_item set_item
  set_item-absent k v [] h = refl
  set_item-absent k v ((j, w) ∷ d) h = elim (Bool-cases (text_eq j k)) [
    | inl same ↦ absurd (cc (rw same at h))
    | inr other ↦ rw other (ap (λ rest. (j, w) ∷ rest) (set_item-absent k v d (rw other at h)))
  ]

  pub get_item-middle :
      (pre : List (Text × V)) (k : Text) (v : V) (post : List (Text × V))
      → is_some (get_item k (pre ++ (k, v) ∷ post)) ≡ true
  unfolding get_item
  get_item-middle [] k v post = rw (text_eq_refl k) refl
  get_item-middle ((j, w) ∷ pre) k v post = elim (Bool-cases (text_eq j k)) [
    | inl same ↦ rw same refl
    | inr other ↦ rw other (get_item-middle pre k v post)
  ]

  pub evict-le : (maximum : ℕ) (d : List (Text × V)) → length d ≤ maximum → evict maximum d ≡ d
  unfolding evict
  evict-le maximum [] le = refl
  evict-le maximum (x ∷ d) le = rw (le→not-ltb maximum (length (x ∷ d)) le) refl

  pub length-set_item-present :
      (k : Text) (v : V) (d : List (Text × V))
      → is_some (get_item k d) ≡ true
      → length (set_item k v d) ≡ length d
  unfolding get_item set_item
  length-set_item-present k v [] h = absurd (cc h)
  length-set_item-present k v ((j, w) ∷ d) h = elim (Bool-cases (text_eq j k)) [
    | inl same ↦ rw same refl
    | inr other ↦ rw other (ap suc (length-set_item-present k v d (rw other at h)))
  ]

  pub get_item-set_item :
      (k : Text) (v : V) (d : List (Text × V)) → get_item k (set_item k v d) ≡ some v
  unfolding get_item set_item
  get_item-set_item k v [] = rw (text_eq_refl k) refl
  get_item-set_item k v ((j, w) ∷ d) = elim (Bool-cases (text_eq j k)) [
    | inl same ↦ rw (same, same) refl
    | inr other ↦ rw (other, other) (get_item-set_item k v d)
  ]

  get_item-appended :
      (k : Text) (v : V) (d : List (Text × V))
      → get_item k d ≡ none
      → get_item k (d ++ (k, v) ∷ []) ≡ some v
  unfolding get_item
  get_item-appended k v [] new = rw (text_eq_refl k) refl
  get_item-appended k v ((j, w) ∷ d) new = elim (Bool-cases (text_eq j k)) [
    | inl same ↦ absurd (cc (rw same at new))
    | inr other ↦ rw other (get_item-appended k v d (rw other at new))
  ]

  -- A new entry is the youngest, so that it stays.
  get_item-evict :
      (maximum : ℕ) (k : Text) (v : V) (d : List (Text × V))
      → get_item k d ≡ none
      → 0 < maximum
      → get_item k (evict maximum (d ++ (k, v) ∷ [])) ≡ some v
  unfolding get_item evict
  get_item-evict maximum k v [] new lt =
      rw (le→not-ltb maximum 1 (omega arith), text_eq_refl k) refl
  get_item-evict maximum k v ((j, w) ∷ d) new lt = elim (Bool-cases (text_eq j k)) [
    | inl same ↦ absurd (cc (rw same at new))
    | inr other ↦ elim (Bool-cases (ltb maximum (length ((j, w) ∷ (d ++ (k, v) ∷ []))))) [
      | inl over ↦ rw over (get_item-evict maximum k v d (rw other at new) lt)
      | inr fits ↦ rw (fits, other) (get_item-appended k v d (rw other at new))
    ]
  ]

  -- What is put is found, in a dictionary that was within its bound.
  pub get_item-bounded_put :
      (maximum : ℕ) (k : Text) (v : V) (d : List (Text × V))
      → 0 < maximum
      → length d ≤ maximum
      → get_item k (bounded_put maximum k v d) ≡ some v
  unfolding bounded_put
  get_item-bounded_put maximum k v d lt le = elim (Option-cases (get_item k d)) [
    | inl new ↦ rw (set_item-absent k v d new) (get_item-evict maximum k v d new lt)
    | inr (u, known) ↦
        rw
          (evict-le maximum (set_item k v d)
            (omega (arith, length-set_item-present k v d (rw known refl), le)))
          (get_item-set_item k v d)
  ]

  pub length-pop_item : (k : Text) (d : List (Text × V)) → length (pop_item k d) ≤ length d
  unfolding pop_item
  length-pop_item k [] = omega arith
  length-pop_item k ((j, w) ∷ d) = elim (Bool-cases (text_eq j k)) [
    | inl same ↦ rw same (omega arith)
    | inr other ↦ rw other (omega (arith, length-pop_item k d))
  ]
