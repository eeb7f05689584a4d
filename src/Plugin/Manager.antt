-- ===== src/Plugin/Manager.antt =====
-- include/sai/plugin/plugin_manager.h and src/plugin/plugin_manager.cpp. The dynamic linker and the code
-- of the plugins are a parameter; the calls of that code are recorded, and its answers may depend on
-- those before. `none` is fuel that ran out, one unit for each nested EnsureLoaded.
pub mod Version
pub mod Order
pub mod Leaves
pub mod Loads
pub mod Closing
pub mod Retry
use surface_ai.Base.{
  ℕ, zero, suc, ◌-◌, ltb, leb, ◌==◌, Bool, true, false, ◌&&◌, ◌||◌, not, ◌⊎◌, inl, inr, Option,
  none, some, List, [], ◌∷◌, ◌++◌, length, get_elem?, has_value, if◌then◌else◌,
}
use surface_ai.Base.Text.{Text, text, text_eq}
use surface_ai.Base.Dict.{Dict, find, insert_or_assign}
use surface_ai.Base.Table.{Table}
use surface_ai.Core.Error.{ErrorCode, Result, ok, err, fault, fail, ◌>>=◌}
use surface_ai.Core.TypeId.{TypeId, fnv1a_hash}
use surface_ai.Core.Registry.{register, resolve}
use surface_ai.Plugin.Manifest.{SemVer, VersionRange, PluginDependency, PluginManifest}

abbrev pub Outcome : Type 0
Outcome = Result (Unit {0})

abbrev pub Handle : Type 0
Handle = ℕ

-- An instance, by its address.
abbrev pub Plugin : Type 0
Plugin = ℕ

pub data Call : Type 0 where
  on_initialize on_start on_stop destroy_plugin : Plugin → Call
  dl_close : Handle → Call

-- dlopen, or the text of its error; dlsym, and the functions that a library exports; the answers of the lifecycle functions, by
-- the calls before, the last one first; and the version that an instance reports.
pub record Host : Type 0 where
  pub dl_open : Text → Text ⊎ Handle
  pub has_create : Handle → Bool
  pub has_destroy : Handle → Bool
  pub create_plugin : Handle → Option Plugin
  pub answer : List Call → Call → Outcome
  pub version_of : Plugin → SemVer

pub record Manager : Type 0 where
  pub plugin_registry : Table Plugin
  pub known_capabilities : List Text
  pub manifest_index : Dict PluginManifest
  pub library_handles : Dict Handle
  pub load_order : List TypeId
  pub calls : List Call

-- The manager, and the names that are being visited.
pub record Loading : Type 0 where
  pub manager : Manager
  pub visiting : List Text

unfoldable pub contains : Text → List Text → Bool
contains t [] = false
contains t (u ∷ us) = text_eq u t || contains t us

unfoldable pub check_version : VersionRange → SemVer → Outcome
check_version required actual =
    if ltb actual.major required.min_inclusive.major
      || (actual.major == required.min_inclusive.major
          && ltb actual.minor required.min_inclusive.minor)
      || ltb required.max_exclusive.major actual.major
      || (actual.major == required.max_exclusive.major
          && leb required.max_exclusive.minor actual.minor)
    then fail ErrorCode.plugin_version_incompatible
        (text "plugin version incompatible with required range")
    else ok tt

unfoldable pub validate_license : Text → Outcome
validate_license [] = fail ErrorCode.plugin_license_invalid (text "plugin license token is empty")
validate_license (c ∷ token) = ok tt

-- RegisterKnownCapability: the result, and the manager afterwards.
unfoldable pub register_known_capability : Text → Manager → Outcome × Manager
unfolding contains
register_known_capability capability m =
    if contains capability m.known_capabilities
    then (fail ErrorCode.core_type_already_registered (text "capability already registered"), m)
    else (ok tt, record m { known_capabilities = capability ∷ m.known_capabilities })

unfoldable pub validate_capabilities : List Text → List Text → Outcome
unfolding contains
validate_capabilities [] known = ok tt
validate_capabilities (cap ∷ caps) known =
    let rest = validate_capabilities caps known in
    if contains cap known
    then rest
    else fail ErrorCode.plugin_capability_unsupported
        (text "declared capability '" ++ cap ++ text "' is not registered as known")

unfoldable pub find_manifest : Text → Manager → Result PluginManifest
unfolding find
find_manifest plugin_name m = elim (find plugin_name m.manifest_index) [
  | none ↦
      fail ErrorCode.core_type_not_found
        (text "no manifest discovered for plugin '" ++ plugin_name ++ text "'")
  | some manifest ↦ ok manifest
]

-- DiscoverManifests: the manifest files under the directory, in the order of the iterator, each with
-- what LoadManifest gives and its library path under the directory of the file.
unfoldable pub discover_manifests :
    List (Result PluginManifest × Text) → Manager → Outcome × Manager
discover_manifests [] m = (ok tt, m)
discover_manifests ((ok manifest, path) ∷ files) m = discover_manifests files (record m {
  manifest_index =
      insert_or_assign manifest.name (record manifest { library_path = path }) m.manifest_index;
})
discover_manifests ((err e, path) ∷ files) m = (err e, m)
discover_manifests ((fault, path) ∷ files) m = (fault, m)

module _ (host : Host) where
  unfoldable pub create_instance : Handle → PluginManifest → Result Plugin
  create_instance handle manifest =
      if not (host.has_create handle)
      then fail ErrorCode.core_construction_failed
          (text "dlsym(\"CreatePlugin\") failed for plugin '" ++ manifest.name ++ text "'")
      else if not (host.has_destroy handle)
      then fail ErrorCode.core_construction_failed
          (text "dlsym(\"DestroyPlugin\") failed for plugin '" ++ manifest.name ++ text "'")
      else elim (host.create_plugin handle) [
        | none ↦
            fail ErrorCode.core_construction_failed
              (text "CreatePlugin() returned nullptr for plugin '" ++ manifest.name ++ text "'")
        | some instance_ ↦ ok instance_
      ]

  -- A call of the plugin's code.
  abbrev pub invoke : Call → Manager → Outcome × Manager
  invoke c m = (host.answer m.calls c, record m { calls = c ∷ m.calls })

  -- OnStart after OnInitialize, and the entry into the load order.
  unfoldable pub start_instance : TypeId → Plugin → Outcome × Manager → Outcome × Manager
  start_instance type_id instance_ (err e, m) = (err e, m)
  start_instance type_id instance_ (fault, m) = (fault, m)
  start_instance type_id instance_ (ok u, m) =
      let (r, m') = invoke (on_start instance_) m in
      elim r [
        | ok v ↦ (ok tt, record m' { load_order = m'.load_order ++ type_id ∷ [] })
        | err e ↦ (err e, m')
        | fault ↦ (fault, m')
      ]

  -- The end of LoadSingle, with the instance.
  unfoldable pub adopt_instance : TypeId → Result Plugin → Manager → Outcome × Manager
  unfolding start_instance
  adopt_instance type_id (err e) m = (err e, m)
  adopt_instance type_id fault m = (fault, m)
  adopt_instance type_id (ok instance_) m =
      let (r, entries) = register type_id instance_ m.plugin_registry in
      elim r [
        | ok u ↦
            start_instance type_id instance_
              (invoke (on_initialize instance_) (record m { plugin_registry = entries }))
        | err e ↦ (err e, m)
        | fault ↦ (fault, m)
      ]

  -- LoadSingle from the call of dlopen on.
  unfoldable pub use_library : PluginManifest → Text ⊎ Handle → Manager → Outcome × Manager
  unfolding adopt_instance create_instance
  use_library manifest (inl what) m = (
    fail ErrorCode.core_construction_failed
        (text "dlopen failed for '" ++ manifest.library_path ++ text "': " ++ what),
    m,
  )
  use_library manifest (inr handle) m =
      adopt_instance (fnv1a_hash manifest.name) (create_instance handle manifest)
        (record m { library_handles = insert_or_assign manifest.name handle m.library_handles })

  unfoldable pub load_single : PluginManifest → Manager → Outcome × Manager
  unfolding use_library
  load_single manifest m =
      elim (validate_capabilities manifest.capabilities m.known_capabilities >>= λ u.
      validate_license manifest.license_token) [
        | err e ↦ (err e, m)
        | fault ↦ (fault, m)
        | ok u ↦ use_library manifest (host.dl_open manifest.library_path) m
      ]

  -- The version check of ResolveEach.
  unfoldable pub check_dependency : PluginDependency → Manager → Outcome
  unfolding check_version
  check_dependency head m = resolve (fnv1a_hash head.plugin_name) m.plugin_registry >>= λ instance_.
      check_version head.required_version (host.version_of instance_)

  -- ResolveEach over EnsureLoaded: in order, up to the first failure.
  unfoldable pub resolve_each :
      (Text → Loading → Option (Outcome × Loading))
      → List PluginDependency
      → Loading
      → Option (Outcome × Loading)
  unfolding check_dependency
  resolve_each ensure [] s = some (ok tt, s)
  resolve_each ensure (head ∷ rest) s = elim (ensure head.plugin_name s) [
    | none ↦ none
    | some (r, s') ↦ elim (r >>= λ u. check_dependency head s'.manager) [
      | ok u ↦ resolve_each ensure rest s'
      | err e ↦ some (err e, s')
      | fault ↦ some (fault, s')
    ]
  ]

  -- LoadSingle after the dependencies.
  unfoldable pub finish_loading : PluginManifest → Outcome × Loading → Outcome × Loading
  unfolding load_single
  finish_loading manifest (err e, s) = (err e, s)
  finish_loading manifest (fault, s) = (fault, s)
  finish_loading manifest (ok u, s) =
      let (r, m) = load_single manifest s.manager in (r, record s { manager = m })

  unfoldable pub ensure_loaded : ℕ → Text → Loading → Option (Outcome × Loading)
  unfolding resolve_each finish_loading find_manifest
  ensure_loaded zero plugin_name s = none
  ensure_loaded (suc f) plugin_name s =
      elim (resolve (fnv1a_hash plugin_name) s.manager.plugin_registry) [
        | ok instance_ ↦ some (ok tt, s)
        | fault ↦ some (fault, s)
        | err e ↦ elim (contains plugin_name s.visiting) [
          | true ↦ some (
            fail ErrorCode.plugin_circular_dependency
                (text "circular dependency detected while resolving '" ++ plugin_name ++ text "'"),
            s,
          )
          | false ↦
              let s' = record s { visiting = plugin_name ∷ s.visiting } in
              elim (find_manifest plugin_name s.manager) [
                | err e' ↦ some (err e', s')
                | fault ↦ some (fault, s')
                | ok manifest ↦ elim (resolve_each (ensure_loaded f) manifest.dependencies s') [
                  | none ↦ none
                  | some rs ↦ some (finish_loading manifest rs)
                ]
              ]
        ]
      ]

  unfoldable pub load : ℕ → Text → Manager → Option (Outcome × Manager)
  unfolding ensure_loaded
  load f plugin_name m =
      elim (ensure_loaded f plugin_name (record { manager = m; visiting = [] })) [
        | none ↦ none
        | some (r, s) ↦ some (r, s.manager)
      ]
