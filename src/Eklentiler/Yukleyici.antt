-- ===== src/Eklentiler/Yukleyici.antt =====
-- The plugin loader: core/turkish_code/eklentiler/yukleyici.py. What the files hold, the texts of
-- values that are none, and the tools of a manifest are parameters.
pub mod Laws
use turkish_code.Base.{
  ℕ, String, Bool, true, false, List, [], ◌∷◌, ◌++◌, Option, none, some, map, if◌then◌else◌, str_eq,
}
use turkish_code.Base.Dict.{Dict, lookup}
use turkish_code.Hata.{ErrorKind, AppError, app, Raised, Result, Done, ok, err, raise_app, ◌>>=◌}
use turkish_code.Araclar.Kayit.{Tool}
use turkish_code.Eklentiler.Modeller.{FsAccess, NetAccess, ShellAccess, RequestedCapabilities}
use turkish_code.Eklentiler.Kopru.{Plugin}
use turkish_code.Eklentiler.Kayit.{PluginRegistry, register_plugin}
use turkish_code.Eklentiler.Dogrulama.{PluginManifest, Version, make_manifest, validate_manifest}

-- A value that `tomllib` gives: a text, a table, an array or any other.
mutual
  pub data Toml : Type 0 where
    text : String → Toml
    table : Fields → Toml
    array : Items → Toml
    scalar : (shown : String) → Toml

  pub data Fields : Type 0 where
    no_fields : Fields
    field_of : String → Toml → Fields → Fields

  pub data Items : Type 0 where
    no_items : Items
    item_of : Toml → Items → Items

abbrev pub find : String → Fields → Option Toml
find key no_fields = none
find key (field_of k v rest) = if str_eq k key then some v else find key rest

-- `value[key]`
abbrev pub item : String → Toml → Result Toml
item key (table fields) = elim (find key fields) [ none ↦ err Raised.key_error | some v ↦ ok v ]
item key _ = err Raised.type_error

-- `value.get(key, default)`
abbrev pub get : String → Toml → Toml → Result Toml
get key default (table fields) = elim (find key fields) [ none ↦ ok default | some v ↦ ok v ]
get key default _ = err Raised.attribute_error

-- The file of a manifest: it cannot be read or is no TOML, it is no UTF-8, or it has a table.
pub data ManifestFile : Type 0 where
  unreadable not_utf8 : ManifestFile
  parsed : Fields → ManifestFile

pub record LoadFailure : Type 0 where
  pub source : String
  pub error : AppError

pub record LoadReport : Type 0 where
  pub loaded : List String
  pub failures : List LoadFailure

abbrev read_error : {A : Type 0} → Result A
read_error = raise_app ErrorKind.validation "plugin.manifest_read"

abbrev fs_access : Toml → Result FsAccess
fs_access (text s) =
    if str_eq s "none"
    then ok FsAccess.none
    else if str_eq s "read"
    then ok FsAccess.read
    else if str_eq s "write"
    then ok FsAccess.write
    else err Raised.value_error
fs_access _ = err Raised.value_error

abbrev net_access : Toml → Result NetAccess
net_access (text s) =
    if str_eq s "none"
    then ok NetAccess.none
    else if str_eq s "egress"
    then ok NetAccess.egress
    else err Raised.value_error
net_access _ = err Raised.value_error

abbrev shell_access : Toml → Result ShellAccess
shell_access (text s) =
    if str_eq s "none"
    then ok ShellAccess.none
    else if str_eq s "exec"
    then ok ShellAccess.exec
    else err Raised.value_error
shell_access _ = err Raised.value_error

abbrev runtime_kind : Toml → Result (Unit {0})
runtime_kind (text s) = if str_eq s "python" then ok tt else err Raised.value_error
runtime_kind _ = err Raised.value_error

-- The handler of `_read_manifest` around `_manifest_from_toml`: an AttributeError passes.
abbrev pub malformed : Result PluginManifest → Result PluginManifest
malformed (ok m) = ok m
malformed (err Raised.key_error) = read_error
malformed (err Raised.value_error) = read_error
malformed (err Raised.type_error) = read_error
malformed (err e) = err e

-- `str` of a value that is no text, and the characters of a text.
module _ (shown : Toml → String) (letters : String → List String) where
  abbrev str_of : Toml → String
  str_of (text s) = s
  str_of v = shown v

  abbrev str_items : Items → List String
  str_items no_items = []
  str_items (item_of v vs) = str_of v ∷ str_items vs

  abbrev str_keys : Fields → List String
  str_keys no_fields = []
  str_keys (field_of k v rest) = k ∷ str_keys rest

  -- `tuple(str(x) for x in value)`
  abbrev pub str_each : Toml → Result (List String)
  str_each (text s) = ok (letters s)
  str_each (array items) = ok (str_items items)
  str_each (table fields) = ok (str_keys fields)
  str_each (scalar s) = err Raised.type_error

  unfoldable pub manifest_from_toml : Fields → Result PluginManifest
  manifest_from_toml raw = item "plugin" (table raw) >>= λ plugin.
      get "contributes" (table no_fields) (table raw) >>= λ contributes.
      get "capabilities-requested" (table no_fields) (table raw) >>= λ caps.
      get "runtime" (table no_fields) (table raw) >>= λ runtime. item "id" plugin >>= λ id.
      item "name" plugin >>= λ name. item "version" plugin >>= λ version.
      item "min_app_version" plugin >>= λ min_app_version.
      get "authors" (array no_items) plugin >>= λ authors. str_each authors >>= λ author_texts.
      get "tools" (array no_items) contributes >>= λ tools. str_each tools >>= λ tool_refs.
      get "fs" (text "none") caps >>= λ fs. fs_access fs >>= λ fs_level.
      get "net" (text "none") caps >>= λ net. net_access net >>= λ net_level.
      get "shell" (text "none") caps >>= λ shell. shell_access shell >>= λ shell_level.
      get "kind" (text "python") runtime >>= λ kind. runtime_kind kind >>= λ kind_known.
      get "entry" (text "main.py") runtime >>= λ entry. make_manifest (record {
        id = str_of id;
        name = str_of name;
        version = str_of version;
        min_app_version = str_of min_app_version;
        tools = tool_refs;
        capabilities = record { fs = fs_level; net = net_level; shell = shell_level };
        entry = str_of entry;
      })

  unfoldable pub read_manifest : ManifestFile → Result PluginManifest
  unfolding manifest_from_toml
  read_manifest unreadable = read_error
  read_manifest not_utf8 = err Raised.value_error
  read_manifest (parsed raw) = malformed (manifest_from_toml raw)

-- What follows one path; `later` is the rest of the loop.
abbrev pub reported :
    (LoadReport → LoadReport)
    → Result LoadReport × PluginRegistry
    → Result LoadReport × PluginRegistry
reported add (ok report, registry) = (ok (add report), registry)
reported add (err e, registry) = (err e, registry)

abbrev pub with_loaded : String → LoadReport → LoadReport
with_loaded id r = record { loaded = id ∷ r.loaded; failures = r.failures }

abbrev pub with_failure : String → AppError → LoadReport → LoadReport
with_failure path e r = record {
  loaded = r.loaded;
  failures = record { source = path; error = e } ∷ r.failures;
}

abbrev pub after_register :
    (PluginRegistry → Result LoadReport × PluginRegistry)
    → String
    → String
    → Done × PluginRegistry
    → Result LoadReport × PluginRegistry
after_register later path id (ok _, registry) = reported (with_loaded id) (later registry)
after_register later path id (err (app e), registry) =
    reported (with_failure path e) (later registry)
after_register later path id (err e, registry) = (err e, registry)

-- The `try` block: an AppError is a failure of this path, any other exception ends the loop.
abbrev pub after_load :
    (PluginRegistry → Result LoadReport × PluginRegistry)
    → String
    → PluginRegistry
    → Result Plugin
    → Result LoadReport × PluginRegistry
after_load later path registry (ok plugin) =
    after_register later path plugin.id (register_plugin plugin registry)
after_load later path registry (err (app e)) = reported (with_failure path e) (later registry)
after_load later path registry (err e) = (err e, registry)

module _ (shown : Toml → String) (letters : String → List String) (is_plugin_id : String → Bool)
    (semver : String → Option Version) (is_blank : String → Bool) (app_version : String)
    (files : String → ManifestFile) (tools_of : PluginManifest → Result (List Tool)) where
  -- `_load_one`
  unfoldable pub load_one : (path : String) → Result Plugin
  load_one path = read_manifest shown letters (files path) >>= λ manifest.
      validate_manifest is_plugin_id semver is_blank app_version manifest >>= λ _.
      tools_of manifest >>= λ tools. ok (record { id = manifest.id; tools = tools })

  -- `load_directory`, over the paths that `_discover` finds.
  unfoldable pub load_directory : List String → PluginRegistry → Result LoadReport × PluginRegistry
  unfolding load_one
  load_directory [] registry = (ok (record { loaded = []; failures = [] }), registry)
  load_directory (path ∷ paths) registry =
      after_load (load_directory paths) path registry (load_one path)
