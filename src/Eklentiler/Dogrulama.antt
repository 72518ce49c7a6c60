-- ===== src/Eklentiler/Dogrulama.antt =====
-- Manifests and their validation: core/turkish_code/eklentiler/manifest.py and dogrulama.py. The
-- matches of the two regular expressions and `str.strip` are parameters.
use turkish_code.Base.{
  ℕ, String, Bool, true, false, List, [], ◌∷◌, ◌++◌, Option, none, some, if◌then◌else◌, ltb, str_eq,
  ◌||◌, ◌==◌,
}
use turkish_code.Base.Dict.{contains}
use turkish_code.Hata.{ErrorKind, Raised, Result, Done, ok, err, raise_app, ◌>>=◌}
use turkish_code.Eklentiler.Modeller.{FsAccess, NetAccess, ShellAccess, RequestedCapabilities}

-- `PluginManifest`, less its authors, its license and its kind of runtime, which nothing reads.
pub record PluginManifest : Type 0 where
  pub id : String
  pub name : String
  pub version : String
  pub min_app_version : String
  pub tools : List String
  pub capabilities : RequestedCapabilities
  pub entry : String

-- Its `__post_init__`.
unfoldable pub make_manifest : PluginManifest → Result PluginManifest
make_manifest m =
    if str_eq m.id ""
      || str_eq m.name ""
      || str_eq m.version ""
      || str_eq m.min_app_version ""
      || str_eq m.entry ""
    then err Raised.value_error
    else ok m

abbrev pub Version : Type 0
Version = ℕ × ℕ × ℕ

-- `current < min_app` of two tuples.
unfoldable pub is_older : Version → Version → Bool
is_older (a, b, c) (x, y, z) =
    if ltb a x
    then true
    else if a == x
    then (if ltb b y then true else if b == y then ltb c z else false)
    else false

abbrev reject : {A : Type 0} → String → Result A
reject code = raise_app ErrorKind.validation code

abbrev pub has_duplicate : List String → Bool
has_duplicate [] = false
has_duplicate (s ∷ ss) = if contains s ss then true else has_duplicate ss

abbrev fs_token : FsAccess → List String
fs_token FsAccess.none = []
fs_token FsAccess.read = "fs:read" ∷ []
fs_token FsAccess.write = "fs:write" ∷ []

abbrev net_token : NetAccess → List String
net_token NetAccess.none = []
net_token NetAccess.egress = "net:egress" ∷ []

abbrev shell_token : ShellAccess → List String
shell_token ShellAccess.none = []
shell_token ShellAccess.exec = "shell:exec" ∷ []

unfoldable pub declared_capabilities : PluginManifest → List String
declared_capabilities m =
    fs_token m.capabilities.fs ++ net_token m.capabilities.net ++ shell_token m.capabilities.shell

module _ (is_plugin_id : String → Bool) (semver : String → Option Version)
    (is_blank : String → Bool) where
  abbrev any_blank : List String → Bool
  any_blank [] = false
  any_blank (s ∷ ss) = if is_blank s then true else any_blank ss

  unfoldable pub require_semver : String → Result Version
  require_semver value = elim (semver value) [
    | none ↦ reject "plugin.invalid_version"
    | some v ↦ ok v
  ]

  unfoldable pub validate_compatibility : Version → (app_version : String) → Done
  unfolding require_semver is_older
  validate_compatibility min_app app_version = require_semver app_version >>= λ current.
      if is_older current min_app then reject "plugin.incompatible" else ok tt

  unfoldable pub validate_contributions : PluginManifest → Done
  validate_contributions m =
      if any_blank m.tools || has_duplicate m.tools then reject "plugin.invalid_manifest" else ok tt

  unfoldable pub validate_manifest : (app_version : String) → PluginManifest → Done
  unfolding require_semver validate_compatibility validate_contributions
  validate_manifest app_version m =
      (if is_plugin_id m.id then ok tt else reject "plugin.invalid_id") >>= λ _.
      require_semver m.version >>= λ _. require_semver m.min_app_version >>= λ min_app.
      validate_compatibility min_app app_version >>= λ _. validate_contributions m
