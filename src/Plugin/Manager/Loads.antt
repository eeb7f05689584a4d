-- ===== src/Plugin/Manager/Loads.antt =====
-- src/plugin/plugin_manager.cpp: EnsureLoaded and ResolveEach, up to Load.
use surface_ai.Base.{
  Ends, ℕ, zero, suc, ◌<◌, ◌≤◌, ◌≡◌, refl, ap, sym, arith, true, false, Option, none, some, List,
  [], ◌∷◌, ◌++◌, In, length, Bool-cases, inl, inr,
}
use surface_ai.Base.Text.{Text, text, text_eq_iff}
use surface_ai.Base.Dict.{Dict, find, insert_or_assign, find-insert}
use surface_ai.Core.Error.{ErrorCode, Result, ok, err, fault, fail}
use surface_ai.Core.TypeId.{TypeId, fnv1a_hash}
use surface_ai.Core.Registry.{resolve}
use surface_ai.Plugin.Manifest.{PluginManifest}
use surface_ai.Plugin.Manager.{
  Outcome, Plugin, Host, Manager, Loading, contains, find_manifest, resolve_each, finish_loading,
  ensure_loaded, load, discover_manifests,
}
use surface_ai.Plugin.Manager.Order.{unvisited, unvisited_visit, visit-contains, IsAssembled}
use surface_ai.Plugin.Manager.Leaves.{
  Leaves, IsRegistered, HasLoaded, IsNamed, fails, resolve-registered, Loads, each-Ends,
  finish-Leaves,
}

module _ (host : Host) (idx : Dict PluginManifest) (named : IsNamed idx) where
  ensure-Ends : (f : ℕ) → Loads host idx f (ensure_loaded host f)
  unfolding ensure_loaded
  ensure-Ends zero n s i lt v = absurd (omega arith)
  ensure-Ends (suc f) n s i lt v =
      registered (resolve (fnv1a_hash n) s.manager.plugin_registry)
        (λ p e. resolve-registered (fnv1a_hash n) p s.manager e) (ensure-Ends f)
    where
      s1 : Loading
      s1 = record s { visiting = n ∷ s.visiting }

      visited : (t : Text) → contains t s.visiting ≡ true → contains t (n ∷ s.visiting) ≡ true
      visited t = visit-contains n t s.visiting

      ended :
          (manifest : PluginManifest) (o : Option (Outcome × Loading))
          → find n idx ≡ some manifest
          → Ends (Leaves (HasLoaded manifest.dependencies) s1) o
          → Ends
              (Leaves (IsRegistered n) s)
              (elim o [ none ↦ none | some rs ↦ some (finish_loading host manifest rs) ])
      ended manifest none k h = h
      ended manifest (some (r, t)) k h =
          let l = finish-Leaves host idx n manifest s1 t r i k (named n manifest k) h in
          record {
            index_kept = l.index_kept;
            visits = λ t c. l.visits t (visited t c);
            grown = l.grown;
          }

      found :
          (o : Option PluginManifest)
          → find n idx ≡ o
          → contains n s.visiting ≡ false
          → Loads host idx f (ensure_loaded host f)
          → Ends
              (Leaves (IsRegistered n) s)
              (elim (elim o as (λ _. Result PluginManifest) [
                | none ↦
                    fail ErrorCode.core_type_not_found
                      (text "no manifest discovered for plugin '" ++ n ++ text "'")
                | some manifest ↦ ok manifest
              ]) [
                | err e' ↦ some (err e', s1)
                | fault ↦ some (fault, s1)
                | ok manifest ↦
                    elim (resolve_each host (ensure_loaded host f) manifest.dependencies s1) [
                      | none ↦ none
                      | some rs ↦ some (finish_loading host manifest rs)
                    ]
              ])
      found none k c calls = fails (IsRegistered n) s s1 _ (λ q. cc) refl visited
      found (some manifest) k c calls =
          ended manifest (resolve_each host (ensure_loaded host f) manifest.dependencies s1) k (
            each-Ends host idx f (ensure_loaded host f) calls manifest.dependencies s1 i
              (omega (arith, unvisited_visit idx n manifest s.visiting k c))
              (record { started = v.started; ordered = v.ordered }))

      registered :
          (o : Result Plugin)
          → ((p : Plugin) → o ≡ ok p → IsRegistered n s.manager)
          → Loads host idx f (ensure_loaded host f)
          → Ends (Leaves (IsRegistered n) s) (elim o [
            | ok instance_ ↦ some (ok tt, s)
            | fault ↦ some (fault, s)
            | err e ↦ elim (contains n s.visiting) [
              | true ↦ some (
                fail ErrorCode.plugin_circular_dependency
                    (text "circular dependency detected while resolving '" ++ n ++ text "'"),
                s,
              )
              | false ↦ elim (find_manifest n s.manager) [
                | err e' ↦ some (err e', s1)
                | fault ↦ some (fault, s1)
                | ok manifest ↦
                    elim (resolve_each host (ensure_loaded host f) manifest.dependencies s1) [
                      | none ↦ none
                      | some rs ↦ some (finish_loading host manifest rs)
                    ]
              ]
            ]
          ])
      registered (ok p) h calls = record {
        index_kept = refl;
        visits = λ t c. c;
        grown = λ q. (v, λ id m. m, h p refl);
      }
      registered fault h calls = fails (IsRegistered n) s s fault (λ q. cc) refl (λ t c. c)
      registered (err e) h calls = elim (Bool-cases (contains n s.visiting)) [
        | inl c ↦ rw c (fails (IsRegistered n) s s _ (λ q. cc) refl (λ t x. x))
        | inr c ↦
            rw (c, find_manifest)
              (found (find n s.manager.manifest_index) (ap (find n) (sym i)) c calls)
      ]

unvisited_le : (idx : Dict PluginManifest) (v : List Text) → unvisited idx v ≤ length idx
unvisited_le [] v = omega arith
unvisited_le ((k, m) ∷ idx) v = ground (arith, unvisited_le idx v)

-- From a manager whose registered plugins all started after their dependencies, with its manifests under
-- their names and more fuel than manifests, Load returns. It keeps the manifests, and if it succeeds, the
-- plugin has been loaded, no loaded one is lost, and again all registered plugins started after their
-- dependencies.
pub load-Ends :
    (host : Host) (f : ℕ) (name : Text) (m : Manager)
    → IsNamed m.manifest_index
    → IsAssembled m
    → length m.manifest_index < f
    → Ends
        (λ r m'.
          (m'.manifest_index ≡ m.manifest_index)
          × (r ≡ ok tt
              → IsAssembled m'
                × ((id : TypeId) → In id m.load_order → In id m'.load_order)
                × In (fnv1a_hash name) m'.load_order))
        (load host f name m)
unfolding load
load-Ends host f name m named v lt = ended (ensure_loaded host f name s) (
    ensure-Ends host m.manifest_index named f name s refl
      (omega (arith, unvisited_le m.manifest_index [])) v)
  where
    s : Loading
    s = record { manager = m; visiting = [] }

    ended :
        (o : Option (Outcome × Loading))
        → Ends (Leaves (IsRegistered name) s) o
        → Ends
            (λ r m'.
              (m'.manifest_index ≡ m.manifest_index)
              × (r ≡ ok tt
                  → IsAssembled m'
                    × ((id : TypeId) → In id m.load_order → In id m'.load_order)
                    × In (fnv1a_hash name) m'.load_order))
            (elim o [ none ↦ none | some (r, t) ↦ some (r, t.manager) ])
    ended none h = h
    ended (some (r, t)) h = (
      h.index_kept,
      λ e. let (vt, gt, reg) = h.grown e in (vt, gt, vt.started (fnv1a_hash name) reg),
    )

insert-IsNamed :
    (manifest : PluginManifest) (idx : Dict PluginManifest)
    → IsNamed idx
    → IsNamed (insert_or_assign manifest.name manifest idx)
insert-IsNamed manifest idx h key found e =
    ground (
      arith,
      find-insert key manifest.name manifest idx,
      text_eq_iff manifest.name key,
      h key found,
    )

-- DiscoverManifests keeps the manifests under their names, also when it stops at an error.
pub discover_manifests-IsNamed :
    (files : List (Result PluginManifest × Text)) (m : Manager)
    → IsNamed m.manifest_index
    → IsNamed (discover_manifests files m).1.manifest_index
unfolding discover_manifests
discover_manifests-IsNamed [] m h = h
discover_manifests-IsNamed ((ok manifest, path) ∷ files) m h =
    discover_manifests-IsNamed files _
      (insert-IsNamed (record manifest { library_path = path }) m.manifest_index h)
discover_manifests-IsNamed ((err e, path) ∷ files) m h = h
discover_manifests-IsNamed ((fault, path) ∷ files) m h = h
