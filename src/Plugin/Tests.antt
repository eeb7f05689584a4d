-- ===== src/Plugin/Tests.antt =====
-- Runs of the model of the plugin manager, and its theorems at concrete inputs.
use surface_ai.Base.{Ends, ℕ, ◌≡◌, ◌↔◌, refl, inr, true, some, List, [], ◌∷◌, In, length, arith}
use surface_ai.Base.Text.{Text, text, text_eq, text_compare}
use surface_ai.Base.Dict.{find, insert_or_assign}
use surface_ai.Base.Table.{lookup, assign}
use surface_ai.Core.Error.{ErrorCode, ErrorInfo, Result, ok, err}
use surface_ai.Core.TypeId.{TypeId, fnv1a_hash}
use surface_ai.Core.Registry.{resolve, register}
use surface_ai.Plugin.Manifest.{SemVer, VersionRange, PluginDependency, PluginManifest}
use surface_ai.Plugin.Manager.{
  Host, Manager, on_initialize, on_start, check_version, contains, validate_license,
  validate_capabilities, create_instance, discover_manifests, load,
}
use surface_ai.Plugin.Manager.Version.{IsBefore, check_version_iff}
use surface_ai.Plugin.Manager.Order.{IsAssembled, none_loaded}
use surface_ai.Plugin.Manager.Leaves.{IsNamed}
use surface_ai.Plugin.Manager.Loads.{load-Ends, discover_manifests-IsNamed}
use surface_ai.Plugin.Manager.Closing.{
  AreInstances, no_instances, one_more, Stops, shutdown, shutdown-Stops,
}
use surface_ai.Plugin.Manager.Retry.{IsReady, load_retry}

abbrev version : ℕ → ℕ → ℕ → SemVer
version a b c = record { major = a; minor = b; patch = c }

abbrev from_1_2 : VersionRange
from_1_2 = record { min_inclusive = version 1 2 5; max_exclusive = version 2 0 0 }

-- 1.2.0 is accepted for [1.2.5, 2.0.0).
patch_ignored : check_version from_1_2 (version 1 2 0) ≡ ok tt
unfolding check_version
patch_ignored = refl

check_version_iff_example :
    (check_version from_1_2 (version 1 9 0) ≡ ok tt)
    ↔ ((¬ IsBefore (version 1 9 0) (version 1 2 5)) × IsBefore (version 1 9 0) (version 2 0 0))
check_version_iff_example = check_version_iff from_1_2 (version 1 9 0)

abbrev manifest_of : Text → List PluginDependency → PluginManifest
manifest_of name dependencies = record {
  name = name;
  library_path = name;
  version = version 1 4 0;
  capabilities = [];
  dependencies = dependencies;
  license_token = text "key";
}

abbrev camera : PluginManifest
camera = manifest_of (text "camera") []

abbrev viewer : PluginManifest
viewer =
    manifest_of (text "viewer")
      (record { plugin_name = text "camera"; required_version = from_1_2 } ∷ [])

-- Libraries and instances have the length of the path as their number.
abbrev calm_host : Host
calm_host = record {
  dl_open = λ path. inr (length path);
  has_create = λ h. true;
  has_destroy = λ h. true;
  create_plugin = λ h. some h;
  answer = λ old c. ok tt;
  version_of = λ p. version 1 4 0;
}

abbrev fresh_manager : Manager
fresh_manager = record {
  plugin_registry = [];
  known_capabilities = [];
  manifest_index = [];
  library_handles = [];
  load_order = [];
  calls = [];
}

abbrev files : List (Result PluginManifest × Text)
files = (ok viewer, text "v.so") ∷ (ok camera, text "cam.so") ∷ []

abbrev discovered : Manager
discovered = record fresh_manager {
  manifest_index =
      (text "camera", record camera { library_path = text "cam.so" })
      ∷ (text "viewer", record viewer { library_path = text "v.so" })
      ∷ [];
}

discovers : discover_manifests files fresh_manager ≡ (ok tt, discovered)
unfolding discover_manifests insert_or_assign text_compare
discovers = refl

-- The dependency first.
abbrev both_loaded : Manager
both_loaded = record discovered {
  plugin_registry = (fnv1a_hash (text "camera"), 6) ∷ (fnv1a_hash (text "viewer"), 4) ∷ [];
  library_handles = (text "camera", 6) ∷ (text "viewer", 4) ∷ [];
  load_order = fnv1a_hash (text "camera") ∷ fnv1a_hash (text "viewer") ∷ [];
  calls = on_start 4 ∷ on_initialize 4 ∷ on_start 6 ∷ on_initialize 6 ∷ [];
}

loads_both : load calm_host 3 (text "viewer") discovered ≡ some (ok tt, both_loaded)
unfolding load contains validate_license validate_capabilities create_instance resolve register find
    lookup assign insert_or_assign text_eq text_compare fnv1a_hash
loads_both = refl

fresh-IsNamed : IsNamed []
unfolding find
fresh-IsNamed key manifest e = absurd (cc e)

discovered-IsAssembled : IsAssembled discovered
unfolding lookup
discovered-IsAssembled = record { started = λ id e. absurd (cc e); ordered = none_loaded }

discover_manifests-IsNamed_example :
    IsNamed (discover_manifests files fresh_manager).1.manifest_index
discover_manifests-IsNamed_example = discover_manifests-IsNamed files fresh_manager fresh-IsNamed

discovered-IsNamed : IsNamed discovered.manifest_index
unfolding discover_manifests insert_or_assign text_compare
discovered-IsNamed = discover_manifests-IsNamed files fresh_manager fresh-IsNamed

load-Ends_example :
    Ends
      (λ r m'.
        (m'.manifest_index ≡ discovered.manifest_index)
        × (r ≡ ok tt
            → IsAssembled m'
              × ((id : TypeId) → In id [] → In id m'.load_order)
              × In (fnv1a_hash (text "viewer")) m'.load_order))
      (load calm_host 3 (text "viewer") discovered)
load-Ends_example =
    load-Ends calm_host 3 (text "viewer") discovered discovered-IsNamed discovered-IsAssembled
      (omega arith)

loaded-AreInstances : AreInstances both_loaded.plugin_registry both_loaded.load_order (6 ∷ 4 ∷ [])
unfolding lookup fnv1a_hash
loaded-AreInstances =
    one_more (fnv1a_hash (text "camera") ∷ []) (6 ∷ []) (fnv1a_hash (text "viewer")) 4
      (one_more [] [] (fnv1a_hash (text "camera")) 6 no_instances refl) refl

shutdown-Stops_example :
    Stops calm_host (6 ∷ 4 ∷ []) (ok tt) both_loaded (shutdown calm_host both_loaded)
shutdown-Stops_example = shutdown-Stops calm_host (6 ∷ 4 ∷ []) both_loaded loaded-AreInstances

abbrev no_device : ErrorInfo
no_device = record { code = ErrorCode.device_connection_failed; message = text "no device" }

-- OnInitialize fails.
abbrev bad_host : Host
bad_host = record calm_host { answer = λ old c. err no_device }

camera-IsReady :
    IsReady bad_host discovered (text "camera") (record camera { library_path = text "cam.so" }) 6 6
unfolding find lookup text_eq validate_license validate_capabilities create_instance
camera-IsReady = record {
  found = refl;
  named = refl;
  alone = refl;
  capable = refl;
  licensed = refl;
  opened = refl;
  created = refl;
  new = refl;
}

load_retry_example :
    (m' : Manager) × (load bad_host 1 (text "camera") discovered ≡ some (err no_device, m'))
    × (load bad_host 1 (text "camera") m' ≡ some (ok tt, m'))
    × (m'.load_order ≡ [])
load_retry_example =
    load_retry bad_host discovered (text "camera") (record camera { library_path = text "cam.so" })
      6 6 0 no_device camera-IsReady refl
