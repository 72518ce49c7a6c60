-- ===== src/Eklentiler/Yasam.antt =====
-- The lifecycle of a plugin over the registry and the bridge:
-- core/turkish_code/eklentiler/yasam.py, with the hooks that
-- core/turkish_code/eklentiler/kompozisyon.py gives it.
pub mod Laws
use turkish_code.Base.{String, Bool, true, false, Option, none, some, if◌then◌else◌}
use turkish_code.Base.Dict.{lookup, is_some}
use turkish_code.Hata.{Raised, Result, Done, ok, err}
use turkish_code.Araclar.Kayit.{ToolRegistry}
use turkish_code.Eklentiler.Modeller.{PluginState}
use turkish_code.Eklentiler.Kopru.{Plugin, activate, deactivate}
use turkish_code.Eklentiler.Kayit.{
  Entry, PluginRegistry, plugin_not_found, register_plugin, is_enabled, set_plugin_state,
  unload_plugin,
}

-- The two registries that the lifecycle changes.
pub record Host : Type 0 where
  pub plugins : PluginRegistry
  pub tools : ToolRegistry

abbrev with_plugins : ToolRegistry → Done × PluginRegistry → Done × Host
with_plugins tools (result, plugins) = (result, record { plugins = plugins; tools = tools })

-- A statement that raises ends the method.
abbrev then_do : Done × Host → (Host → Done × Host) → Done × Host
then_do (ok _, h) next = next h
then_do (err e, h) next = (err e, h)

-- The `except` clause of `enable`: the plugin is marked FAILED, and the error is raised again.
abbrev raise_again : Raised → Done × PluginRegistry → Done × PluginRegistry
raise_again e (ok _, plugins) = (err e, plugins)
raise_again e (err c, plugins) = (err c, plugins)

abbrev pub after_activate : String → PluginRegistry → Done × ToolRegistry → Done × Host
after_activate k plugins (ok _, tools) =
    with_plugins tools (set_plugin_state PluginState.enabled k plugins)
after_activate k plugins (err e, tools) =
    with_plugins tools (raise_again e (set_plugin_state PluginState.failed k plugins))

unfoldable pub enable : String → Host → Done × Host
enable k h = if is_enabled k h.plugins then (ok tt, h) else elim (lookup k h.plugins) [
  | none ↦ (plugin_not_found, h)
  | some e ↦ after_activate k h.plugins (activate e.plugin h.tools)
]

abbrev after_deactivate : String → PluginRegistry → Done × ToolRegistry → Done × Host
after_deactivate k plugins (ok _, tools) =
    with_plugins tools (set_plugin_state PluginState.disabled k plugins)
after_deactivate k plugins (err e, tools) = (err e, record { plugins = plugins; tools = tools })

unfoldable pub disable : String → Host → Done × Host
disable k h =
    if is_enabled k h.plugins
    then elim (lookup k h.plugins) [
      | none ↦ (plugin_not_found, h)
      | some e ↦ after_deactivate k h.plugins (deactivate e.plugin h.tools)
    ]
    else (ok tt, h)

unfoldable pub unload : String → Host → Done × Host
unload k h = then_do (disable k h) (λ h'. with_plugins h'.tools (unload_plugin k h'.plugins))

unfoldable pub reload : Plugin → Host → Done × Host
reload p h =
    let was_enabled = is_enabled p.id h.plugins in
    then_do (if is_some (lookup p.id h.plugins) then unload p.id h else (ok tt, h)) (λ h'.
      then_do (with_plugins h'.tools (register_plugin p h'.plugins))
        (λ h''. if was_enabled then enable p.id h'' else (ok tt, h'')))

abbrev recover_from : String → Host → Option Entry → Done × Host
recover_from k h none = (plugin_not_found, h)
recover_from k h (some e) = elim e.state [
  | PluginState.failed ↦ with_plugins h.tools (set_plugin_state PluginState.disabled k h.plugins)
  | _ ↦ (ok tt, h)
]

unfoldable pub recover : String → Host → Done × Host
recover k h = recover_from k h (lookup k h.plugins)
