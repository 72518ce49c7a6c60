-- ===== src/Eklentiler/Kayit.antt =====
-- The plugin registry: core/turkish_code/eklentiler/kayit.py.
use turkish_code.Base.{String, Bool, true, false, Option, none, some}
use turkish_code.Base.Dict.{Dict, lookup, insert, pop}
use turkish_code.Hata.{ErrorKind, Result, Done, ok, raise_app, ◌>>=◌}
use turkish_code.Eklentiler.Modeller.{PluginState}
use turkish_code.Eklentiler.Kopru.{Plugin}

-- `_Entry`
pub record Entry : Type 0 where
  pub plugin : Plugin
  pub state : PluginState

abbrev pub PluginRegistry : Type 0
PluginRegistry = Dict Entry

abbrev pub plugin_not_found {ℓ} : {A : Type ℓ} → Result A
plugin_not_found = raise_app ErrorKind.not_found "plugin.not_found"

abbrev pub plugin_duplicate {ℓ} : {A : Type ℓ} → Result A
plugin_duplicate = raise_app ErrorKind.conflict "plugin.duplicate"

-- `_entry`
unfoldable pub entry_of : String → PluginRegistry → Result Entry
entry_of k registry = elim (lookup k registry) [ none ↦ plugin_not_found | some e ↦ ok e ]

unfoldable pub register_plugin : Plugin → PluginRegistry → Done × PluginRegistry
register_plugin p registry = elim (lookup p.id registry) [
  | some _ ↦ (plugin_duplicate, registry)
  | none ↦ (ok tt, insert p.id (record { plugin = p; state = PluginState.disabled }) registry)
]

unfoldable pub state_of : String → PluginRegistry → Result PluginState
state_of k registry = entry_of k registry >>= λ e. ok e.state

abbrev pub enabled_state : PluginState → Bool
enabled_state PluginState.enabled = true
enabled_state _ = false

abbrev enabled_entry : Option Entry → Bool
enabled_entry none = false
enabled_entry (some e) = enabled_state e.state

unfoldable pub is_enabled : String → PluginRegistry → Bool
is_enabled k registry = enabled_entry (lookup k registry)

-- The assignment `entry.state = …` behind `_entry`, as `enable`, `disable` and `mark_failed` do it.
unfoldable pub set_plugin_state : PluginState → String → PluginRegistry → Done × PluginRegistry
set_plugin_state state k registry = elim (lookup k registry) [
  | none ↦ (plugin_not_found, registry)
  | some e ↦ (ok tt, insert k (record { plugin = e.plugin; state = state }) registry)
]

unfoldable pub unload_plugin : String → PluginRegistry → Done × PluginRegistry
unload_plugin k registry = elim (lookup k registry) [
  | none ↦ (plugin_not_found, registry)
  | some _ ↦ (ok tt, pop k registry)
]
