-- ===== src/WarmPool/Engine.antt =====
-- The container engine as warm_pool.py sees it through the docker SDK, which is not code of the
-- repository: its calls, the clock and the start of a thread are the fields of `Engine`, and `Lawful`
-- is what the SDK documents of them. A call that raises answers `none` or `false`.
use aw_app_agents_platform_r.Prelude.{
  ℕ, ◌≡◌, Bool, true, false, ◌&&◌, not, Option, none, some, List, [], ◌∷◌, if◌then◌else◌, select,
}
use aw_app_agents_platform_r.Prelude.Texts.{Text, text_eq}
use aw_app_agents_platform_r.WarmPool.Names.{is_draining}

-- The labels that the pool reads, by `labels.get(KEY)`: `warm` is WARM_LABEL=1.
pub record Labels : Type 0 where
  pub warm : Bool
  pub agent_id : Option Text
  pub session_id : Option Text
  pub epoch : Option Text
  pub cli : Option Text

-- `attrs["Created"]`, in microseconds. `iso` is a text, by the instant that
-- `datetime.fromisoformat` reads in it, `none` where it raises ValueError.
pub data Created : Type 0 where
  missing other : Created
  flag : Bool → Created
  epoch : ℕ → Created
  iso : Option ℕ → Created

pub record Container : Type 0 where
  pub id : Text
  pub name : Text
  pub is_running : Bool
  pub labels : Labels
  pub created : Created

-- What `containers.run` is called with: `build_kwargs`'s image and labels, and the three keys that
-- `get_or_create` sets.
pub record RunArgs : Type 0 where
  pub image : Text
  pub run_labels : Labels
  pub run_name : Text
  pub detach : Bool
  pub auto_remove : Bool

-- The second value of `list` is its `all`; an action that takes a text takes a container's id, but
-- `get` takes a name.
pub record Engine : Type 1 where
  pub World : Type 0
  pub list : Bool → World → World × Option (List Container)
  pub get : Text → World → World × Option Container
  pub reload : Text → World → World × Option Container
  pub rename : Text → Text → World → World × Bool
  pub remove : Text → World → World × Bool
  pub touch_drain : Text → World → World × Bool
  pub test_ready : Text → World → World × Option Bool
  pub run : RunArgs → World → World × Bool
  pub start_drain : Text → World → World × Bool
  pub time : World → World × ℕ
  pub monotonic : World → World × ℕ
  pub sleep : ℕ → World → World

-- A container that counts against the ceiling.
unfoldable pub is_live : Container → Bool
is_live c = c.labels.warm && (c.is_running && not (is_draining c.name))

-- The engine's containers after a rename and after a removal.
unfoldable pub rename_in : Text → Text → List Container → List Container
rename_in i new [] = []
rename_in i new (c ∷ cs) =
    (if text_eq c.id i then record c { name = new } else c) ∷ rename_in i new cs

unfoldable pub remove_in : Text → List Container → List Container
remove_in i [] = []
remove_in i (c ∷ cs) = if text_eq c.id i then remove_in i cs else c ∷ remove_in i cs

unfoldable pub find_name : Text → List Container → Option Container
find_name n [] = none
find_name n (c ∷ cs) = if text_eq c.name n then some c else find_name n cs

-- What the engine promises, over the containers `view w` that exist: a call that succeeds has its
-- documented effect, a call that fails has none, names
-- and ids are unique, and only these calls change the containers.
pub record Lawful (E : Engine) : Type 0 where
  pub view : E.World → List Container
  pub view-list : (all : Bool) (w : E.World) → view (E.list all w).0 ≡ view w
  pub list_running :
      (w : E.World) (cs : List Container)
      → (E.list false w).1 ≡ some cs
      → cs ≡ select (λ c. c.labels.warm && c.is_running) (view w)
  pub list_all :
      (w : E.World) (cs : List Container)
      → (E.list true w).1 ≡ some cs
      → cs ≡ select (λ c. c.labels.warm) (view w)
  pub view-get : (n : Text) (w : E.World) → view (E.get n w).0 ≡ view w
  pub get_found :
      (n : Text) (w : E.World) (c : Container)
      → (E.get n w).1 ≡ some c
      → find_name n (view w) ≡ some c
  pub view-reload : (i : Text) (w : E.World) → view (E.reload i w).0 ≡ view w
  pub reload_found :
      (n : Text) (w : E.World) (c again : Container)
      → find_name n (view w) ≡ some c
      → (E.reload c.id w).1 ≡ some again
      → again ≡ c
  pub view-rename :
      (i new : Text) (w : E.World)
      → view (E.rename i new w).0
        ≡ (if (E.rename i new w).1 then rename_in i new (view w) else view w)
  pub view-remove :
      (i : Text) (w : E.World)
      → view (E.remove i w).0 ≡ (if (E.remove i w).1 then remove_in i (view w) else view w)
  pub view-touch_drain : (i : Text) (w : E.World) → view (E.touch_drain i w).0 ≡ view w
  pub view-test_ready : (i : Text) (w : E.World) → view (E.test_ready i w).0 ≡ view w
  pub view-start_drain : (n : Text) (w : E.World) → view (E.start_drain n w).0 ≡ view w
  pub view-time : (w : E.World) → view (E.time w).0 ≡ view w
  pub view-monotonic : (w : E.World) → view (E.monotonic w).0 ≡ view w
  pub view-sleep : (d : ℕ) (w : E.World) → view (E.sleep d w) ≡ view w
  pub run_failed : (a : RunArgs) (w : E.World) → (E.run a w).1 ≡ false → view (E.run a w).0 ≡ view w
  pub run_started :
      (a : RunArgs) (w : E.World)
      → (E.run a w).1 ≡ true
      → (i : Text) × (created : Created) × (view (E.run a w).0
          ≡ record {
            id = i;
            name = a.run_name;
            is_running = true;
            labels = a.run_labels;
            created = created;
          }
            ∷ view w)

unfoldable pub find_id : Text → List Container → Option Container
find_id i [] = none
find_id i (c ∷ cs) = if text_eq c.id i then some c else find_id i cs

-- No two containers of the list have the same id.
abbrev pub Distinct : List Container → Type 0
Distinct [] = Unit
Distinct (c ∷ cs) = (find_id c.id cs ≡ none) × Distinct cs
