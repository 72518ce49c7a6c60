-- ===== src/Eklentiler/Kopru.antt =====
-- The bridge from the plugins to the tool registry: `PluginToolBridge` and `_NamespacedTool` of
-- core/turkish_code/eklentiler/izin.py.
pub mod Laws
use turkish_code.Base.{String, List, [], ◌∷◌, ◌++◌}
use turkish_code.Hata.{Raised, Result, Done, ok, err}
use turkish_code.Araclar.Kayit.{Tool, ToolRegistry, register, unregister}
use turkish_code.Eklentiler.Izin.{namespaced_name}

-- A plugin is read for its manifest's id and its tools.
pub record Plugin : Type 0 where
  pub id : String
  pub tools : List Tool

-- `_NamespacedTool`: the tool of the plugin under its name in the registry.
abbrev pub namespaced : String → Tool → Tool
namespaced plugin_id t = record {
  name = namespaced_name plugin_id t.name;
  capability = t.capability;
  side_effect = t.side_effect;
  timeout_ms = t.timeout_ms;
}

-- A call that raises ends the sequence with its error.
abbrev pub next : (ToolRegistry → Done × ToolRegistry) → Done × ToolRegistry → Done × ToolRegistry
next again (ok _, tools) = again tools
next again (err e, tools) = (err e, tools)

-- The `except` clause: the names that were registered are withdrawn, then the error is raised
-- again.
unfoldable pub roll_back : Raised → List String → ToolRegistry → Done × ToolRegistry
roll_back e [] tools = (err e, tools)
roll_back e (name ∷ names) tools = next (roll_back e names) (unregister name tools)

abbrev or_roll_back :
    (ToolRegistry → Done × ToolRegistry) → List String → Done × ToolRegistry → Done × ToolRegistry
or_roll_back again registered (ok _, tools) = again tools
or_roll_back again registered (err e, tools) = roll_back e registered tools

-- The loop of `activate`, with its list `registered`.
unfoldable pub activate_loop : String → List Tool → List String → ToolRegistry → Done × ToolRegistry
activate_loop plugin_id [] registered tools = (ok tt, tools)
activate_loop plugin_id (t ∷ ts) registered tools =
    let wrapped = namespaced plugin_id t in
    or_roll_back (activate_loop plugin_id ts (registered ++ wrapped.name ∷ [])) registered
      (register wrapped tools)

unfoldable pub activate : Plugin → ToolRegistry → Done × ToolRegistry
activate p tools = activate_loop p.id p.tools [] tools

unfoldable pub deactivate_loop : String → List Tool → ToolRegistry → Done × ToolRegistry
deactivate_loop plugin_id [] tools = (ok tt, tools)
deactivate_loop plugin_id (t ∷ ts) tools =
    next (deactivate_loop plugin_id ts) (unregister (namespaced_name plugin_id t.name) tools)

unfoldable pub deactivate : Plugin → ToolRegistry → Done × ToolRegistry
deactivate p tools = deactivate_loop p.id p.tools tools
