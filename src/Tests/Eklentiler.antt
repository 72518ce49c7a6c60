-- ===== src/Tests/Eklentiler.antt =====
-- The plugins of core/turkish_code/eklentiler at a concrete host.
use turkish_code.Base.{
  String, List, Option, str_eq, if◌then◌else◌, Option, String, ◌≡◌, ◌↔◌, ◌⊎◌, refl, true, [], ◌∷◌,
  none, some,
}
use turkish_code.Base.Dict.{lookup}
use turkish_code.Hata.{Result, Raised, ok, err}
use turkish_code.Araclar.Izin.{SideEffect, Capability, PermissionRequest, Decision}
use turkish_code.Araclar.Kayit.{Tool}
use turkish_code.Eklentiler.Modeller.{
  RequestedCapabilities, FsAccess, NetAccess, ShellAccess, PluginState,
}
use turkish_code.Eklentiler.Izin.{plugin_id_of, namespaced_name, evaluate}
use turkish_code.Eklentiler.Izin.Laws.{GrantCall, MayUse, store_after, evaluate-intersects}
use turkish_code.Eklentiler.Kopru.{Plugin}
use turkish_code.Eklentiler.Kopru.Laws.{SameTools}
use turkish_code.Eklentiler.Kayit.{Entry, state_of, PluginRegistry}
use turkish_code.Eklentiler.Dogrulama.{
  PluginManifest, Version, make_manifest, validate_manifest, require_semver, validate_compatibility,
  validate_contributions, is_older,
}
use turkish_code.Eklentiler.Yukleyici.{
  Toml, Fields, field_of, no_fields, ManifestFile, parsed, unreadable, LoadReport, load_directory,
  load_one, read_manifest, manifest_from_toml,
}
use turkish_code.Eklentiler.Yukleyici.Laws.{Accounts, load_directory-Accounts}
use turkish_code.Eklentiler.Yasam.{Host, enable}
use turkish_code.Eklentiler.Yasam.Laws.{enable-outcome}

abbrev search : Tool
search = record {
  name = "search";
  capability = some Capability.fs_read;
  side_effect = SideEffect.read;
  timeout_ms = 1000;
}

-- A plugin that brings a tool twice.
abbrev twice : Plugin
twice = record { id = "notlar"; tools = search ∷ search ∷ [] }

abbrev entry : Entry
entry = record { plugin = twice; state = PluginState.disabled }

abbrev host : Host
host = record { plugins = ("notlar", entry) ∷ []; tools = [] }

enable-outcome_example :
    (((enable "notlar" host).0 ≡ ok tt)
      × (state_of "notlar" (enable "notlar" host).1.plugins ≡ ok PluginState.enabled))
    ⊎ ((c : Raised) × ((enable "notlar" host).0 ≡ err c)
        × (state_of "notlar" (enable "notlar" host).1.plugins ≡ ok PluginState.failed)
        × SameTools (enable "notlar" host).1.tools [])
unfolding lookup
enable-outcome_example = enable-outcome "notlar" host entry refl

abbrev wanted : PermissionRequest
wanted = record {
  tool = "notlar/search";
  capability = some Capability.fs_read;
  side_effect = SideEffect.read;
  target = none;
}

abbrev access : FsAccess → RequestedCapabilities
access fs = record { fs = fs; net = NetAccess.none; shell = ShellAccess.none }

-- The plugin is granted to write, loses that again, and is granted to read.
abbrev grant_calls : List GrantCall
grant_calls =
    GrantCall.add_grant "notlar" (access FsAccess.write)
    ∷ GrantCall.drop_grant "notlar"
    ∷ GrantCall.add_grant "diğer" (access FsAccess.write)
    ∷ GrantCall.add_grant "notlar" (access FsAccess.read)
    ∷ []

evaluate-intersects_example :
    (evaluate (λ r. Decision.allow) (store_after grant_calls []) wanted ≡ Decision.allow)
    ↔ (MayUse (access FsAccess.read) Capability.fs_read × (Decision.allow ≡ Decision.allow))
unfolding plugin_id_of namespaced_name
evaluate-intersects_example =
    evaluate-intersects (λ r. Decision.allow) grant_calls wanted "notlar" "search"
      Capability.fs_read refl refl refl

abbrev notes_toml : Fields
notes_toml =
    field_of "plugin"
      (Toml.table (
        field_of "id" (Toml.text "notlar") (
          field_of "name" (Toml.text "Notlar") (
            field_of "version" (Toml.text "1.2.0")
              (field_of "min_app_version" (Toml.text "1.0.0") no_fields)))))
      no_fields

-- The manifest of a plugin, and a file that cannot be read.
abbrev disk : String → ManifestFile
disk path = if str_eq path "notlar/plugin.toml" then parsed notes_toml else unreadable

abbrev version_of : String → Option Version
version_of s =
    if str_eq s "1.2.0" then some (1, 2, 0) else if str_eq s "1.0.0" then some (1, 0, 0) else none

abbrev provider : PluginManifest → Result (List Tool)
provider m = ok (search ∷ [])

abbrev scanned : Result LoadReport × PluginRegistry
scanned =
    load_directory (λ v. "") (λ s. []) (λ s. true) version_of (λ s. str_eq s "") "1.2.0" disk
      provider ("notlar/plugin.toml" ∷ "bozuk/plugin.toml" ∷ []) []

load_directory-Accounts_example :
    Accounts
      (λ v. "")
      (λ s. [])
      (λ s. true)
      version_of
      (λ s. str_eq s "")
      "1.2.0"
      disk
      provider
      ("notlar/plugin.toml" ∷ "bozuk/plugin.toml" ∷ [])
      []
      scanned.0
      scanned.1
unfolding load_one read_manifest manifest_from_toml make_manifest validate_manifest require_semver
    validate_compatibility validate_contributions is_older
load_directory-Accounts_example =
    load_directory-Accounts (λ v. "") (λ s. []) (λ s. true) version_of (λ s. str_eq s "") "1.2.0"
      disk provider ("notlar/plugin.toml" ∷ "bozuk/plugin.toml" ∷ []) [] (tt, (tt, tt))
