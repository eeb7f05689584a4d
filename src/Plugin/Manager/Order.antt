-- ===== src/Plugin/Manager/Order.antt =====
-- src/plugin/plugin_manager.cpp: the order in which Load loads plugins.
use surface_ai.Base.{
  ℕ, ◌+◌, ◌<◌, ◌≤◌, ◌≡◌, ◌⊎◌, inl, inr, refl, ap, ◌∙◌, arith, true, false, some, List, [], ◌∷◌,
  ◌++◌, All, In, has_value, if◌then◌else◌, Bool-cases,
}
use surface_ai.Base.Text.{Text, text_eq, text_eq_iff, text_eq_refl}
use surface_ai.Base.Dict.{Dict, find}
use surface_ai.Base.Table.{Table, lookup, assign}
use surface_ai.Core.Error.{Result, ok, err, fault, ◌>>=◌}
use surface_ai.Core.TypeId.{TypeId, fnv1a_hash}
use surface_ai.Core.Registry.{register}
use surface_ai.Plugin.Manifest.{PluginManifest}
use surface_ai.Plugin.Manager.{
  Outcome, Plugin, Handle, Host, Manager, contains, validate_capabilities, validate_license,
  create_instance, on_start, on_initialize, start_instance, adopt_instance, use_library,
  load_single, invoke,
}

-- How many manifests are not being visited.
abbrev pub unvisited : Dict PluginManifest → List Text → ℕ
unvisited [] v = 0
unvisited ((k, m) ∷ idx) v = (if contains k v then 0 else 1) + unvisited idx v

pub unvisited_mono :
    (idx : Dict PluginManifest) (v v' : List Text)
    → ((t : Text) → contains t v ≡ true → contains t v' ≡ true)
    → unvisited idx v' ≤ unvisited idx v
unvisited_mono [] v v' h = omega arith
unvisited_mono ((k, m) ∷ idx) v v' h = ground (arith, unvisited_mono idx v v' h, h k)

pub visit-contains : (n t : Text) (v : List Text) → contains t v ≡ true → contains t (n ∷ v) ≡ true
unfolding contains
visit-contains n t v h = ground arith

pub unvisited_visit :
    (idx : Dict PluginManifest) (n : Text) (manifest : PluginManifest) (v : List Text)
    → find n idx ≡ some manifest
    → contains n v ≡ false
    → unvisited idx (n ∷ v) < unvisited idx v
unfolding find contains
unvisited_visit [] n manifest v e h = absurd (cc e)
unvisited_visit ((k, m) ∷ idx) n manifest v e h = elim (Bool-cases (text_eq k n)) [
  | inl p ↦ ground (
    arith,
    unvisited_mono idx v (n ∷ v) (λ t. visit-contains n t v),
    (text_eq_iff k n).0 p,
    text_eq_refl n,
  )
  | inr p ↦ ground (arith, unvisited_visit idx n manifest v)
]

-- Plugins in the order of loading, each with a manifest whose dependencies were loaded before.
pub data IsOrdered (idx : Dict PluginManifest) : List TypeId → Type 0 where
  none_loaded : IsOrdered idx []
  loaded :
      (order : List TypeId) (key : Text) (manifest : PluginManifest)
      → IsOrdered idx order
      → find key idx ≡ some manifest
      → All (λ d. In (fnv1a_hash d.plugin_name) order) manifest.dependencies
      → IsOrdered idx (order ++ fnv1a_hash manifest.name ∷ [])

-- Every registered plugin was started, after its dependencies.
pub record IsAssembled (m : Manager) : Type 0 where
  pub started : (id : TypeId) → has_value (lookup id m.plugin_registry) ≡ true → In id m.load_order
  pub ordered : IsOrdered m.manifest_index m.load_order

pub In-append : (id j : TypeId) (xs : List TypeId) → In j xs → In j (xs ++ id ∷ [])
In-append id j [] m = absurd m
In-append id j (x ∷ xs) m = elim m [ inl e ↦ inl e | inr n ↦ inr (In-append id j xs n) ]

pub In-last : (id : TypeId) (xs : List TypeId) → In id (xs ++ id ∷ [])
In-last id [] = inl refl
In-last id (x ∷ xs) = inr (In-last id xs)

-- What a step with the result `r` does to the manager on its way to load the plugin `id`.
pub record Adds (id : TypeId) (m : Manager) (r : Outcome) (m' : Manager) : Type 0 where
  pub index_kept : m'.manifest_index ≡ m.manifest_index
  pub added :
      r ≡ ok tt
      → (instance_ : Plugin) × (m'.plugin_registry ≡ assign id instance_ m.plugin_registry)
        × (m'.load_order ≡ m.load_order ++ id ∷ [])

module _ (host : Host) where
  start-Adds :
      (id : TypeId) (p : Plugin) (m : Manager) (r : Outcome) (m' : Manager)
      → m'.manifest_index ≡ m.manifest_index
      → m'.plugin_registry ≡ assign id p m.plugin_registry
      → m'.load_order ≡ m.load_order
      → Adds id m (start_instance host id p (r, m')).0 (start_instance host id p (r, m')).1
  unfolding start_instance
  start-Adds id p m (err e) m' i g l = record { index_kept = i; added = λ q. absurd (cc q) }
  start-Adds id p m fault m' i g l = record { index_kept = i; added = λ q. absurd (cc q) }
  start-Adds id p m (ok u) m' i g l = answered (host.answer m'.calls (on_start p))
    where
      m2 : Manager
      m2 = record m' { calls = on_start p ∷ m'.calls }

      answered :
          (r : Outcome)
          → (let o : Outcome × Manager = (elim r [
            | ok v ↦ (ok tt, record m2 { load_order = m2.load_order ++ id ∷ [] })
            | err e ↦ (err e, m2)
            | fault ↦ (fault, m2)
          ]) in
              Adds id m o.0 o.1)
      answered (ok v) = record { index_kept = i; added = λ q. (p, g, ap (λ xs. xs ++ id ∷ []) l) }
      answered (err e) = record { index_kept = i; added = λ q. absurd (cc q) }
      answered fault = record { index_kept = i; added = λ q. absurd (cc q) }

  register-assign :
      (id : TypeId) (p : Plugin) (entries : Table Plugin)
      → (register id p entries).0 ≡ ok tt
      → (register id p entries).1 ≡ assign id p entries
  unfolding register
  register-assign id p entries e = ground (arith, e)

  adopt-Adds :
      (id : TypeId) (o : Result Plugin) (m m' : Manager)
      → m'.manifest_index ≡ m.manifest_index
      → m'.plugin_registry ≡ m.plugin_registry
      → m'.load_order ≡ m.load_order
      → Adds id m (adopt_instance host id o m').0 (adopt_instance host id o m').1
  unfolding adopt_instance
  adopt-Adds id (err e) m m' i g l = record { index_kept = i; added = λ q. absurd (cc q) }
  adopt-Adds id fault m m' i g l = record { index_kept = i; added = λ q. absurd (cc q) }
  adopt-Adds id (ok p) m m' i g l =
      registered (register id p m'.plugin_registry).0 (register id p m'.plugin_registry).1
        (register-assign id p m'.plugin_registry)
    where
      registered :
          (r : Outcome) (entries : Table Plugin)
          → (r ≡ ok tt → entries ≡ assign id p m'.plugin_registry)
          → (let x : Outcome × Manager = (elim r as (λ _. Outcome × Manager) [
            | ok u ↦
                start_instance host id p
                  (invoke host (on_initialize p) (record m' { plugin_registry = entries }))
            | err e ↦ (err e, m')
            | fault ↦ (fault, m')
          ]) in
              Adds id m x.0 x.1)
      registered (ok u) entries h = start-Adds id p m _ _ i (h refl ∙ ap (assign id p) g) l
      registered (err e) entries h = record { index_kept = i; added = λ q. absurd (cc q) }
      registered fault entries h = record { index_kept = i; added = λ q. absurd (cc q) }

  use-Adds :
      (manifest : PluginManifest) (o : Text ⊎ Handle) (m : Manager)
      → Adds
          (fnv1a_hash manifest.name)
          m
          (use_library host manifest o m).0
          (use_library host manifest o m).1
  unfolding use_library
  use-Adds manifest (inl what) m = record { index_kept = refl; added = λ q. absurd (cc q) }
  use-Adds manifest (inr handle) m =
      adopt-Adds (fnv1a_hash manifest.name) (create_instance host handle manifest) m _ refl refl
        refl

  pub load_single-Adds :
      (manifest : PluginManifest) (m : Manager)
      → Adds
          (fnv1a_hash manifest.name)
          m
          (load_single host manifest m).0
          (load_single host manifest m).1
  unfolding load_single
  load_single-Adds manifest m = checked (
      validate_capabilities manifest.capabilities m.known_capabilities >>= λ u.
      validate_license manifest.license_token)
    where
      checked :
          (r : Outcome)
          → (let x : Outcome × Manager = (elim r as (λ _. Outcome × Manager) [
            | err e ↦ (err e, m)
            | fault ↦ (fault, m)
            | ok u ↦ use_library host manifest (host.dl_open manifest.library_path) m
          ]) in
              Adds (fnv1a_hash manifest.name) m x.0 x.1)
      checked (err e) = record { index_kept = refl; added = λ q. absurd (cc q) }
      checked fault = record { index_kept = refl; added = λ q. absurd (cc q) }
      checked (ok u) = use-Adds manifest (host.dl_open manifest.library_path) m
