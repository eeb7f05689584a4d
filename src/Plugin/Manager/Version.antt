-- ===== src/Plugin/Manager/Version.antt =====
-- src/plugin/plugin_manager.cpp: CheckVersion against the order of versions by major, then minor number.
use surface_ai.Base.{◌<◌, ◌≡◌, ◌↔◌, ◌⊎◌, arith}
use surface_ai.Core.Error.{ok}
use surface_ai.Plugin.Manifest.{SemVer, VersionRange}
use surface_ai.Plugin.Manager.{check_version}

-- The order of versions that leaves the patch number out.
abbrev pub IsBefore : SemVer → SemVer → Type 0
IsBefore a b = (a.major < b.major) ⊎ ((a.major ≡ b.major) × (a.minor < b.minor))

-- CheckVersion accepts a version exactly if it is not before the lower end of the range and before its
-- upper end, by major and then minor number. The patch numbers do not count.
pub check_version_iff :
    (required : VersionRange) (actual : SemVer)
    → (check_version required actual ≡ ok tt)
      ↔ ((¬ IsBefore actual required.min_inclusive) × IsBefore actual required.max_exclusive)
unfolding check_version
check_version_iff required actual = ground arith
