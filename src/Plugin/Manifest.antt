-- ===== src/Plugin/Manifest.antt =====
-- include/sai/plugin/manifest.h and src/plugin/manifest.cpp. yaml-cpp is a parameter, and so is its
-- as<std::uint32_t>; `none` is a YAML::Exception, whose text is `what`.
use surface_ai.Base.{ℕ, Option, none, some, List, [], ◌∷◌, ◌++◌}
use surface_ai.Base.Text.{Text, text}
use surface_ai.Core.Error.{ErrorCode, Result, ok, fail}
use surface_ai.Rule.Yaml.{Yaml}

pub record SemVer : Type 0 where
  pub major : ℕ
  pub minor : ℕ
  pub patch : ℕ

pub record VersionRange : Type 0 where
  pub min_inclusive : SemVer
  pub max_exclusive : SemVer

pub record PluginDependency : Type 0 where
  pub plugin_name : Text
  pub required_version : VersionRange

pub record PluginManifest : Type 0 where
  pub name : Text
  pub library_path : Text
  pub version : SemVer
  pub capabilities : List Text
  pub dependencies : List PluginDependency
  pub license_token : Text

-- The sequence of conversions, up to an exception.
infixl 5 ◌>>=◌
abbrev pub ◌>>=◌ : {A B : Type 0} → Option A → (A → Option B) → Option B
none >>= f = none
some a >>= f = f a

-- The loops that convert each element.
abbrev pub convert_each : {A B : Type 0} → (A → Option B) → List A → Option (List B)
convert_each f [] = some []
convert_each f (a ∷ as_) = do b ← f a; bs ← convert_each f as_; some (b ∷ bs)

module _ {D N : Type 0} (y : Yaml D N) (as_uint32 : N → Option ℕ) where
  unfoldable pub parse_sem_ver : N → Option SemVer
  parse_sem_ver node = do
    major ← as_uint32 (y.at (text "major") node)
    minor ← as_uint32 (y.at (text "minor") node)
    patch ← as_uint32 (y.at (text "patch") node)
    some (record { major = major; minor = minor; patch = patch })

  unfoldable pub parse_dependency : N → Option PluginDependency
  unfolding parse_sem_ver
  parse_dependency node =
      let range = y.at (text "required_version") node in
      do
        name ← y.text_of (y.at (text "plugin_name") node)
        low ← parse_sem_ver (y.at (text "min_inclusive") range)
        high ← parse_sem_ver (y.at (text "max_exclusive") range)
        some (record {
          plugin_name = name;
          required_version = record { min_inclusive = low; max_exclusive = high };
        })

  unfoldable pub parse_manifest : N → Option PluginManifest
  unfolding parse_sem_ver parse_dependency
  parse_manifest root = do
    name ← y.text_of (y.at (text "name") root)
    library_path ← y.text_of (y.at (text "library_path") root)
    version ← parse_sem_ver (y.at (text "version") root)
    license_token ← y.text_of (y.at (text "license_token") root)
    capabilities ← convert_each y.text_of (y.items (y.at (text "capabilities") root))
    dependencies ← convert_each parse_dependency (y.items (y.at (text "dependencies") root))
    some (record {
      name = name;
      library_path = library_path;
      version = version;
      capabilities = capabilities;
      dependencies = dependencies;
      license_token = license_token;
    })

  -- LoadManifest: `file` is the document that YAML::LoadFile gives.
  unfoldable pub load_manifest : Text → Option N → Result PluginManifest
  unfolding parse_manifest
  load_manifest what file =
      let read : Option PluginManifest = do root ← file; parse_manifest root
      in elim read [
        | none ↦
            fail ErrorCode.core_construction_failed
              (text "failed to parse plugin manifest: " ++ what)
        | some manifest ↦ ok manifest
      ]
