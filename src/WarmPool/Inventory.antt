-- ===== src/WarmPool/Inventory.antt =====
-- warm_pool.py: `_infer_cli` and `list_containers`. A reload of a container is the
-- argument `inspect`, which answers whether it runs and its entrypoint, `none` where the reload raises.
use aw_app_agents_platform_r.Prelude.{
  ◌≡◌, refl, ap, ◌∙◌, ◌⊎◌, Bool, true, false, not, ◌&&◌, ◌||◌, Option, none, some, List, [], ◌∷◌,
  ◌++◌, map, if◌then◌else◌, take, select, Bool-cases, Option-cases, inl, inr,
}
use aw_app_agents_platform_r.Prelude.Texts.{Text, codes, contains, is_empty}
use aw_app_agents_platform_r.Prelude.State.{Action}
use aw_app_agents_platform_r.WarmPool.Names.{is_draining}
use aw_app_agents_platform_r.WarmPool.Engine.{Container, Created, Engine, Lawful}

-- " ".join(entrypoint)
join_spaced : List Text → Text
join_spaced [] = []
join_spaced (t ∷ []) = t
join_spaced (t ∷ u ∷ ts) = t ++ (32 ∷ join_spaced (u ∷ ts))

cli_of_entrypoint : List Text → Option Text
unfolding join_spaced
cli_of_entrypoint words =
    if contains (codes "aw-warm-wrapper-codex") (join_spaced words)
    then some (codes "codex")
    else if contains (codes "aw-warm-wrapper") (join_spaced words)
    then some (codes "claude")
    else none

-- A row of the inventory; the status as far as it is `running`.
pub record InventoryRow : Type 0 where
  pub container_id : Text
  pub row_name : Text
  pub status_is_running : Bool
  pub row_session : Option Text
  pub row_agent : Option Text
  pub row_cli : Option Text
  pub is_inferred : Bool
  pub row_epoch : Option Text
  pub row_created : Created
  pub draining : Bool

-- `not cli`
no_cli : Option Text → Bool
no_cli none = true
no_cli (some t) = is_empty t

row_of : Container → Bool → Option Text → Bool → InventoryRow
row_of c up cli inferred = record {
  container_id = take 12 c.id;
  row_name = c.name;
  status_is_running = up;
  row_session = c.labels.session_id;
  row_agent = c.labels.agent_id;
  row_cli = cli;
  is_inferred = inferred;
  row_epoch = c.labels.epoch;
  row_created = c.created;
  draining = is_draining c.name;
}

-- The containers that the inventory is of.
abbrev pub is_listed : Bool → Container → Bool
is_listed include_draining c = c.labels.warm && (include_draining || not (is_draining c.name))

module _ (E : Engine) (inspect : Text → Action E.World (Option (Bool × List Text))) where
  open E use {World, list}

  -- The status behind the reload, and the guess.
  infer_reloaded : Container → Option (Bool × List Text) → Bool × Option Text
  unfolding cli_of_entrypoint
  infer_reloaded c none = (c.is_running, none)
  infer_reloaded c (some (up, words)) = (up, cli_of_entrypoint words)

  -- `_infer_cli`, with the status that its reload leaves in the container's object.
  pub infer_cli : Container → Action World (Bool × Option Text)
  unfolding infer_reloaded
  infer_cli c w = let (w1, again) = inspect c.id w in (w1, infer_reloaded c again)

  row : Container → Action World InventoryRow
  unfolding infer_cli no_cli row_of
  row c w =
      let (w1, (up, inferred)) = infer_cli c w in
      if no_cli c.labels.cli
      then (w1, row_of c up inferred true)
      else (w, row_of c c.is_running c.labels.cli false)

  rows : Bool → List Container → Action World (List InventoryRow)
  unfolding row
  rows include_draining [] w = (w, [])
  rows include_draining (c ∷ cs) w =
      let (w1, r) = row c w in
      let (w2, rs) = rows include_draining cs w1 in
      let skipping = rows include_draining cs w in
      if is_draining c.name && not include_draining then skipping else (w2, r ∷ rs)

  rows_listed : Bool → Option (List Container) → Action World (Option (List InventoryRow))
  unfolding rows
  rows_listed include_draining none w = (w, none)
  rows_listed include_draining (some cs) w =
      let (w1, rs) = rows include_draining cs w in (w1, some rs)

  -- `list_containers`; `none` where its listing raises.
  pub list_containers : Bool → Action World (Option (List InventoryRow))
  unfolding rows_listed
  list_containers include_draining w =
      let (w1, cs) = list true w in rows_listed include_draining cs w1

  row-name : (c : Container) (w : World) → (row c w).1.row_name ≡ c.name
  unfolding row row_of
  row-name c w = elim (Bool-cases (no_cli c.labels.cli)) [ inl e ↦ rw e refl | inr e ↦ rw e refl ]

  abbrev Named : Bool → List Container → Type 0
  Named b cs =
      (w : World)
      → map (λ r. r.row_name) (rows b (select (λ k. k.labels.warm) cs) w).1
        ≡ map (λ k. k.name) (select (is_listed b) cs)

  rows-kept :
      (b : Bool) (c : Container) (cs : List Container) (w : World)
      → (is_draining c.name && not b) ≡ false
      → map (λ r. r.row_name) (rows b (c ∷ cs) w).1
        ≡ c.name ∷ map (λ r. r.row_name) (rows b cs (row c w).0).1
  unfolding rows
  rows-kept b c cs w kept =
      ap (λ (r : World × List InventoryRow). map (λ r. r.row_name) r.1)
        (otherwise (is_draining c.name && not b) (rows b cs w) _ kept)
      ∙ ap (λ n. n ∷ map (λ r. r.row_name) (rows b cs (row c w).0).1) (row-name c w)
    where
      otherwise :
          (s : Bool) (x y : World × List InventoryRow) → s ≡ false → (if s then x else y) ≡ y
      otherwise true x y e = cc
      otherwise false x y e = refl

  Named-cons :
      (b d : Bool) (c : Container) (cs : List Container)
      → Named b cs
      → c.labels.warm ≡ true
      → is_draining c.name ≡ d
      → Named b (c ∷ cs)
  unfolding rows
  Named-cons false true c cs rest warm drains w = rw (warm, drains) (rest w)
  Named-cons true d c cs rest warm drains w = rw warm (
      rows-kept true c (select (λ k. k.labels.warm) cs) w (flag (is_draining c.name))
      ∙ ap (λ ns. c.name ∷ ns) (rest (row c w).0))
    where
      flag : (x : Bool) → (x && false) ≡ false
      flag true = refl
      flag false = refl
  Named-cons false false c cs rest warm stays w = rw warm (
      rows-kept false c (select (λ k. k.labels.warm) cs) w (rw stays refl)
      ∙ ap (λ ns. c.name ∷ ns) (rest (row c w).0)
      ∙ rw stays refl)

  rows-names : (b : Bool) (cs : List Container) → Named b cs
  unfolding rows
  rows-names b [] w = refl
  rows-names b (c ∷ cs) w = elim (Bool-cases c.labels.warm) [
    | inr cold ↦ rw cold (rows-names b cs w)
    | inl warm ↦ Named-cons b (is_draining c.name) c cs (rows-names b cs) warm refl w
  ]

  -- The inventory is complete and no more: where the engine lists, it has a row for each warm
  -- container, in the engine's order, those that drain only on request; where the engine does not
  -- list, it is an error and not an empty inventory.
  pub list_containers-names :
      (L : Lawful E) (include_draining : Bool) (w : World)
      → ((E.list true w).1 ≡ none) × ((list_containers include_draining w).1 ≡ none)
        ⊎ ((rs : List InventoryRow) × ((list_containers include_draining w).1 ≡ some rs)
            × (map (λ r. r.row_name) rs
                ≡ map (λ c. c.name) (select (is_listed include_draining) (L.view w))))
  unfolding list_containers rows_listed
  list_containers-names L b w = elim (Option-cases (E.list true w).1) [
    | inl e ↦ inl (e, rw e refl)
    | inr (cs, e) ↦ inr (
      (rows b cs (E.list true w).0).1,
      rw e refl,
      rw (L.list_all w cs e) (rows-names b (L.view w) (E.list true w).0),
    )
  ]
