-- ===== src/Plugin/Manager/Retry.antt =====
-- src/plugin/plugin_manager.cpp: a plugin that fails after it was registered.
use surface_ai.Base.{ℕ, suc, ◌≡◌, refl, none, some, inr, [], ◌∷◌, arith}
use surface_ai.Base.Text.{Text}
use surface_ai.Base.Dict.{find, insert_or_assign}
use surface_ai.Base.Table.{lookup, assign, lookup-assign}
use surface_ai.Core.Error.{ErrorInfo, ok, err}
use surface_ai.Core.TypeId.{fnv1a_hash}
use surface_ai.Core.Registry.{resolve_known, resolve_unknown, register_new}
use surface_ai.Plugin.Manifest.{PluginManifest}
use surface_ai.Plugin.Manager.{
  Handle, Plugin, Host, Manager, contains, validate_capabilities, validate_license, find_manifest,
  create_instance, on_initialize, start_instance, adopt_instance, use_library, load_single,
  resolve_each, finish_loading, ensure_loaded, load,
}

-- A plugin that is about to be loaded: it has a manifest that passes the checks and names no
-- dependencies, and a library that gives an instance.
pub record IsReady (host : Host) (m : Manager) (name : Text) (manifest : PluginManifest)
    (handle : Handle) (p : Plugin) : Type 0 where
  pub found : find name m.manifest_index ≡ some manifest
  pub named : manifest.name ≡ name
  pub alone : manifest.dependencies ≡ []
  pub capable : validate_capabilities manifest.capabilities m.known_capabilities ≡ ok tt
  pub licensed : validate_license manifest.license_token ≡ ok tt
  pub opened : host.dl_open manifest.library_path ≡ inr handle
  pub created : create_instance host handle manifest ≡ ok p
  pub new : lookup (fnv1a_hash name) m.plugin_registry ≡ none

-- The manager after OnInitialize of the plugin `p`.
abbrev pub initialized : Text → Handle → Plugin → Manager → Manager
initialized name handle p m = record m {
  plugin_registry = assign (fnv1a_hash name) p m.plugin_registry;
  library_handles = insert_or_assign name handle m.library_handles;
  calls = on_initialize p ∷ m.calls;
}

module _ (host : Host) (m : Manager) (name : Text) (manifest : PluginManifest) (handle : Handle)
    (p : Plugin) where
  first_load :
      (f : ℕ) (e : ErrorInfo)
      → IsReady host m name manifest handle p
      → host.answer m.calls (on_initialize p) ≡ err e
      → load host (suc f) name m ≡ some (err e, initialized name handle p m)
  unfolding load contains
  first_load f e r fails =
      rw
        (
          load,
          ensure_loaded,
          resolve_unknown (fnv1a_hash name) m.plugin_registry r.new,
          find_manifest,
          r.found,
          resolve_each,
          r.alone,
          finish_loading,
          load_single,
          r.capable,
          r.licensed,
          use_library,
          r.opened,
          adopt_instance,
          r.created,
          r.named,
          register_new (fnv1a_hash name) p m.plugin_registry r.new,
          start_instance,
          fails,
          r.named,
          register_new (fnv1a_hash name) p m.plugin_registry r.new,
        )
        refl

  second_load :
      (f : ℕ)
      → load host (suc f) name (initialized name handle p m)
        ≡ some (ok tt, initialized name handle p m)
  unfolding load
  second_load f =
      let known : lookup (fnv1a_hash name) (assign (fnv1a_hash name) p m.plugin_registry) ≡ some p =
        ground (arith, lookup-assign (fnv1a_hash name) (fnv1a_hash name) p m.plugin_registry) in
      rw
        (
          load,
          ensure_loaded,
          resolve_known (fnv1a_hash name) p (assign (fnv1a_hash name) p m.plugin_registry) known,
        )
        refl

  -- If OnInitialize of a plugin that is ready to load fails, Load reports the failure. A second Load reports
  -- success without another call of the plugin, which stays out of the load order.
  pub load_retry :
      (f : ℕ) (e : ErrorInfo)
      → IsReady host m name manifest handle p
      → host.answer m.calls (on_initialize p) ≡ err e
      → (m' : Manager) × (load host (suc f) name m ≡ some (err e, m'))
        × (load host (suc f) name m' ≡ some (ok tt, m'))
        × (m'.load_order ≡ m.load_order)
  load_retry f e r fails =
      (initialized name handle p m, first_load f e r fails, second_load f, refl)
