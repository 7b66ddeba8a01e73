-- ===== src/WarmPool/Reap/Lookup.antt =====
-- Looking a container up by its id after a rename, a removal or a filter.
use aw_app_agents_platform_r.Prelude.{
  ◌≡◌, refl, ap, ◌∙◌, Bool, true, false, none, some, List, [], ◌∷◌, arith, Bool-cases, inl, inr,
  select,
}
use aw_app_agents_platform_r.Prelude.Texts.{Text, text_eq, text_eq→eq}
use aw_app_agents_platform_r.WarmPool.Engine.{Container, rename_in, remove_in, find_id, Distinct}

pub find_id-rename_in_ne :
    (i j new : Text) (cs : List Container)
    → text_eq j i ≡ false
    → find_id i (rename_in j new cs) ≡ find_id i cs
unfolding find_id rename_in
find_id-rename_in_ne i j new [] h = refl
find_id-rename_in_ne i j new (c ∷ cs) h = elim (Bool-cases (text_eq c.id j)) [
  | inl e ↦
      let at : text_eq c.id i ≡ false = cc (ap (λ k. text_eq k i) (text_eq→eq c.id j e), h) in
      rw (e, at) (find_id-rename_in_ne i j new cs h)
  | inr e ↦ rw e (ground (arith, find_id-rename_in_ne i j new cs h))
]

pub find_id-remove_in_ne :
    (i j : Text) (cs : List Container)
    → text_eq j i ≡ false
    → find_id i (remove_in j cs) ≡ find_id i cs
unfolding find_id remove_in
find_id-remove_in_ne i j [] h = refl
find_id-remove_in_ne i j (c ∷ cs) h = elim (Bool-cases (text_eq c.id j)) [
  | inl e ↦
      let at : text_eq c.id i ≡ false = cc (ap (λ k. text_eq k i) (text_eq→eq c.id j e), h) in
      rw (e, at) (find_id-remove_in_ne i j cs h)
  | inr e ↦ rw e (ground (arith, find_id-remove_in_ne i j cs h))
]

pub find_id-remove_in_self : (i : Text) (cs : List Container) → find_id i (remove_in i cs) ≡ none
unfolding find_id remove_in
find_id-remove_in_self i [] = refl
find_id-remove_in_self i (c ∷ cs) = ground (arith, find_id-remove_in_self i cs)

pub find_id-rename_in_self :
    (i new : Text) (c : Container) (cs : List Container)
    → find_id i cs ≡ some c
    → find_id i (rename_in i new cs) ≡ some (record c { name = new })
unfolding find_id rename_in
find_id-rename_in_self i new c [] h = cc
find_id-rename_in_self i new c (x ∷ cs) h = elim (Bool-cases (text_eq x.id i)) [
  | inl e ↦
      let same : x ≡ c = cc (rw e at h) in
      rw (e, e) (ap (λ (y : Container). some (record y { name = new })) same)
  | inr e ↦ rw (e, e) (find_id-rename_in_self i new c cs (rw e at h))
]

pub find_id-select :
    (p : Container → Bool) (i : Text) (c : Container) (cs : List Container)
    → find_id i cs ≡ some c
    → p c ≡ true
    → find_id i (select p cs) ≡ some c
unfolding find_id
find_id-select p i c [] h keep = cc
find_id-select p i c (x ∷ cs) h keep = elim (Bool-cases (text_eq x.id i)) [
  | inl e ↦ let same : x ≡ c = cc (rw e at h) in rw (ap p same ∙ keep, e) (ap some same)
  | inr e ↦ ground (arith, find_id-select p i c cs)
]

pub find_id-select-none :
    (p : Container → Bool) (i : Text) (cs : List Container)
    → find_id i cs ≡ none
    → find_id i (select p cs) ≡ none
unfolding find_id
find_id-select-none p i [] h = refl
find_id-select-none p i (x ∷ cs) h = ground (arith, find_id-select-none p i cs)

pub Distinct-select :
    (p : Container → Bool) (cs : List Container) → Distinct cs → Distinct (select p cs)
Distinct-select p [] h = tt
Distinct-select p (c ∷ cs) h = elim (Bool-cases (p c)) [
  | inl e ↦ rw e (find_id-select-none p c.id cs h.0, Distinct-select p cs h.1)
  | inr e ↦ rw e (Distinct-select p cs h.1)
]
