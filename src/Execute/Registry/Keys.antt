-- ===== src/Execute/Registry/Keys.antt =====
-- execute.py: what the registry of running and of aborted jobs gives back.
use aw_app_agents_platform_r.Prelude.{
  ℕ, ◌≤◌, ◌≡◌, refl, ap, ◌∙◌, Bool, true, false, Option, none, some, List, [], ◌∷◌, length, arith,
}
use aw_app_agents_platform_r.Prelude.Texts.{Text, codes, is_empty}
use aw_app_agents_platform_r.Execute.Bounded.{get_item, pop_item, bounded_put}
use aw_app_agents_platform_r.Execute.Bounded.Size.{
  length-bounded_put, length-pop_item, get_item-bounded_put,
}
use aw_app_agents_platform_r.Execute.Outside.{Outside}
use aw_app_agents_platform_r.Execute.Registry.{
  Process, container_reg_key, abort_flag_key, or_none, mirror, read_mirror, on_local,
  remember_container, lookup_container, forget_container, mark_aborted, is_aborted, clear_abort,
  abort_registry_ttl_s, run_container_names_max, aborted_run_ids_max,
}

-- Both dictionaries are within their bounds.
abbrev pub Small : {W : Type 0} → Process W → Type 0
Small p = (length p.names ≤ run_container_names_max) × (length p.aborted ≤ aborted_run_ids_max)

-- Redis as documented, as long as no key expires: what stands under a key.
pub record LawfulRedis (O : Outside) : Type 0 where
  pub stored : O.World → Text → Option Text
  pub stored-set :
      (k v : Text) (n : ℕ) (w : O.World)
      → (O.redis_set k v n w).1 ≡ true
      → stored (O.redis_set k v n w).0 k ≡ some v
  pub stored-delete :
      (k : Text) (w : O.World)
      → (O.redis_delete k w).1 ≡ true
      → stored (O.redis_delete k w).0 k ≡ none
  pub get_stored :
      (k : Text) (v : Option Text) (w : O.World) → (O.redis_get k w).1 ≡ some v → v ≡ stored w k

-- The changes that a process makes in its registry.
pub data Change : Type 0 where
  remembers : Text → Text → Change
  forgets marks clears : Text → Change

or_none-full : (t : Text) → is_empty t ≡ false → or_none (some t) ≡ some t
unfolding or_none
or_none-full t full = rw full refl

module _ (O : Outside) where
  abbrev pub apply : Bool → Change → Process O.World → Process O.World
  apply c (remembers r name) p = remember_container O c r name p
  apply c (forgets r) p = forget_container O c r p
  apply c (marks r) p = mark_aborted O c r p
  apply c (clears r) p = clear_abort O c r p

  abbrev pub apply_all : Bool → List Change → Process O.World → Process O.World
  apply_all c [] p = p
  apply_all c (x ∷ xs) p = apply_all c xs (apply c x p)

  mirror-Small :
      (c : Bool) (write : O.World → O.World × Bool) (p : Process O.World)
      → Small p
      → Small (mirror O c write p)
  unfolding mirror
  mirror-Small true write p h = h
  mirror-Small false write p h = h

  apply-Small : (c : Bool) (x : Change) (p : Process O.World) → Small p → Small (apply c x p)
  unfolding remember_container forget_container mark_aborted clear_abort
  apply-Small c (remembers r name) p h =
      mirror-Small c (O.redis_set (container_reg_key r) name abort_registry_ttl_s)
        (record p { names = bounded_put run_container_names_max r name p.names })
        (length-bounded_put run_container_names_max r name p.names, h.1)
  apply-Small c (forgets r) p h =
      mirror-Small c (O.redis_delete (container_reg_key r))
        (record p { names = pop_item r p.names })
        (omega (arith, length-pop_item r p.names, h.0), h.1)
  apply-Small c (marks r) p h =
      mirror-Small c (O.redis_set (abort_flag_key r) (codes "1") abort_registry_ttl_s)
        (record p { aborted = bounded_put aborted_run_ids_max r tt p.aborted })
        (h.0, length-bounded_put aborted_run_ids_max r tt p.aborted)
  apply-Small c (clears r) p h =
      mirror-Small c (O.redis_delete (abort_flag_key r))
        (record p { aborted = pop_item r p.aborted })
        (h.0, omega (arith, length-pop_item r p.aborted, h.1))

  apply_all-Small :
      (c : Bool) (xs : List Change) (p : Process O.World) → Small p → Small (apply_all c xs p)
  apply_all-Small c [] p h = h
  apply_all-Small c (x ∷ xs) p h = apply_all-Small c xs (apply c x p) (apply-Small c x p h)

  -- A run that is marked as aborted is seen as aborted in that process, whether or not Redis is
  -- connected and whatever it answers, when its dictionaries are
  -- within their bounds.
  pub is_aborted-mark_aborted :
      (c d : Bool) (run_id : Text) (p : Process O.World)
      → Small p
      → (is_aborted O d run_id (mark_aborted O c run_id p)).1 ≡ true
  unfolding is_aborted mark_aborted mirror
  is_aborted-mark_aborted true d run_id p h =
      rw (get_item-bounded_put aborted_run_ids_max run_id tt p.aborted (omega arith) h.1) refl
  is_aborted-mark_aborted false d run_id p h =
      rw (get_item-bounded_put aborted_run_ids_max run_id tt p.aborted (omega arith) h.1) refl

  remembered :
      (c : Bool) (r name : Text) (p : Process O.World)
      → Small p
      → get_item r (remember_container O c r name p).names ≡ some name
  unfolding remember_container mirror
  remembered true r name p h =
      get_item-bounded_put run_container_names_max r name p.names (omega arith) h.0
  remembered false r name p h =
      get_item-bounded_put run_container_names_max r name p.names (omega arith) h.0

  lookup_container-own :
      (d : Bool) (r name : Text) (p : Process O.World)
      → is_empty name ≡ false
      → get_item r p.names ≡ some name
      → (lookup_container O d r p).1 ≡ some name
  unfolding lookup_container on_local
  lookup_container-own d r name p full own = rw (own, or_none-full name full) refl

  lookup_container-shared :
      (L : LawfulRedis O) (r : Text) (q : Process O.World) (v : Option Text)
      → get_item r q.names ≡ none
      → (O.redis_get (container_reg_key r) q.world).1 ≡ some v
      → (lookup_container O true r q).1 ≡ or_none (L.stored q.world (container_reg_key r))
  unfolding lookup_container on_local read_mirror
  lookup_container-shared L r q v own got =
      rw (own, or_none, got, L.get_stored (container_reg_key r) v q.world got) refl

  stored-remember_container :
      (L : LawfulRedis O) (r name : Text) (p : Process O.World)
      → (O.redis_set (container_reg_key r) name abort_registry_ttl_s p.world).1 ≡ true
      → L.stored (remember_container O true r name p).world (container_reg_key r) ≡ some name
  unfolding remember_container mirror
  stored-remember_container L r name p took =
      L.stored-set (container_reg_key r) name abort_registry_ttl_s p.world took

  stored-forget_container :
      (L : LawfulRedis O) (r : Text) (p : Process O.World)
      → (O.redis_delete (container_reg_key r) p.world).1 ≡ true
      → L.stored (forget_container O true r p).world (container_reg_key r) ≡ none
  unfolding forget_container mirror
  stored-forget_container L r p took = L.stored-delete (container_reg_key r) p.world took

  -- A process behind the record of a name, and behind its loss.
  abbrev pub kept : Text → Text → Process O.World → Process O.World
  kept r name p = remember_container O true r name p

  abbrev pub dropped : Text → Text → Process O.World → Process O.World
  dropped r name p = forget_container O true r (kept r name p)

  -- The container of a run is found by its own process, whatever Redis answers, if the process is
  -- within its bounds and the name is not empty. A process with no record of the run finds it too, if
  -- Redis took the name and answers; and when the name was dropped and Redis took that as well, it
  -- finds nothing.
  pub lookup_container-remember_container :
      (L : LawfulRedis O) (d : Bool) (r name : Text) (p q : Process O.World) (v1 v2 : Option Text)
      → Small p
      → is_empty name ≡ false
      → get_item r q.names ≡ none
      → (O.redis_set (container_reg_key r) name abort_registry_ttl_s p.world).1 ≡ true
      → (O.redis_get (container_reg_key r) (kept r name p).world).1 ≡ some v1
      → (O.redis_delete (container_reg_key r) (kept r name p).world).1 ≡ true
      → (O.redis_get (container_reg_key r) (dropped r name p).world).1 ≡ some v2
      → ((lookup_container O d r (kept r name p)).1 ≡ some name)
        × ((lookup_container O true r (record q { world = (kept r name p).world })).1 ≡ some name)
        × ((lookup_container O true r (record q { world = (dropped r name p).world })).1 ≡ none)
  unfolding or_none
  lookup_container-remember_container L d r name p q v1 v2 h full own took got1 gone got2 =
      let p1 = kept r name p in
      let p2 = dropped r name p in
      (
        lookup_container-own d r name p1 full (remembered true r name p h),
        lookup_container-shared L r (record q { world = p1.world }) v1 own got1
            ∙ (ap or_none (stored-remember_container L r name p took) ∙ or_none-full name full),
        lookup_container-shared L r (record q { world = p2.world }) v2 own got2
            ∙ ap or_none (stored-forget_container L r p1 gone),
      )
