-- ===== src/Eklentiler/Izin.antt =====
-- The grants of the plugins and the gate before a plugin's tools: `PluginGrantStore` and
-- `PluginPermissionGate` of core/turkish_code/eklentiler/izin.py.
pub mod Laws
use Prim.Native.Char.{code}
use Prim.Native.String.{◌++◌ as str_append}
use mathlib.Core.Option.{map as Option_map}
use turkish_code.Base.{
  String, ℕ, Bool, true, false, ◌&&◌, not, Option, none, some, if◌then◌else◌, ◌==◌,
}
use turkish_code.Base.Dict.{Dict, lookup, insert, pop}
use turkish_code.Eklentiler.Modeller.{
  FsAccess, NetAccess, ShellAccess, RequestedCapabilities, no_capabilities,
}
use turkish_code.Araclar.Izin.{Capability, PermissionRequest, Decision}

unfoldable pub namespaced_name : String → String → String
namespaced_name plugin_id tool_name = str_append plugin_id (str_append "/" tool_name)

-- What stands before the first `/`, which is the character 47.
unfoldable pub plugin_id_of : String → Option String
plugin_id_of String.[] = none
plugin_id_of (String.◌∷◌ c s) =
    let rest = plugin_id_of s in if code c == 47 then some "" else Option_map (String.◌∷◌ c) rest

abbrev reads : FsAccess → Bool
reads FsAccess.none = false
reads FsAccess.read = true
reads FsAccess.write = true

abbrev writes : FsAccess → Bool
writes FsAccess.write = true
writes _ = false

abbrev sends : NetAccess → Bool
sends NetAccess.none = false
sends NetAccess.egress = true

abbrev executes : ShellAccess → Bool
executes ShellAccess.none = false
executes ShellAccess.exec = true

abbrev pub grant_covers : RequestedCapabilities → Capability → Bool
grant_covers granted Capability.fs_read = reads granted.fs
grant_covers granted Capability.fs_write = writes granted.fs
grant_covers granted Capability.shell_exec = executes granted.shell
grant_covers granted Capability.net_egress = sends granted.net
grant_covers granted _ = false

abbrev pub PluginGrantStore : Type 0
PluginGrantStore = Dict RequestedCapabilities

unfoldable pub grant : String → RequestedCapabilities → PluginGrantStore → PluginGrantStore
grant plugin_id capabilities grants = insert plugin_id capabilities grants

unfoldable pub revoke : String → PluginGrantStore → PluginGrantStore
revoke plugin_id grants = pop plugin_id grants

unfoldable pub granted_to : String → PluginGrantStore → RequestedCapabilities
granted_to plugin_id grants = elim (lookup plugin_id grants) [
  | none ↦ no_capabilities
  | some capabilities ↦ capabilities
]

unfoldable pub covered : PluginGrantStore → String → Capability → Bool
covered grants plugin_id capability = grant_covers (granted_to plugin_id grants) capability

-- The test of `evaluate`: a plugin's tool that asks for what the plugin was not granted.
unfoldable pub oversteps : PluginGrantStore → Option String → Option Capability → Bool
oversteps grants (some plugin_id) (some capability) = not (covered grants plugin_id capability)
oversteps grants _ _ = false

unfoldable pub evaluate :
    (PermissionRequest → Decision) → PluginGrantStore → PermissionRequest → Decision
evaluate base grants r =
    if oversteps grants (plugin_id_of r.tool) r.capability then Decision.deny else base r
