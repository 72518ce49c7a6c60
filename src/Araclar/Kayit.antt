-- ===== src/Araclar/Kayit.antt =====
-- The tool registry and the tools' metadata: core/turkish_code/araclar/kayit.py and modeller.py.
pub mod Laws
use turkish_code.Base.{ℕ, String, Bool, true, false, List, [], ◌∷◌, Option, none, some}
use turkish_code.Base.Dict.{Dict, lookup, insert, pop}
use turkish_code.Hata.{ErrorKind, Result, Done, ok, err, raise_app}
use turkish_code.Araclar.Izin.{SideEffect, Capability}

-- A tool is its metadata; `summary`, `brokered`, `reversible`, `idempotent` and `version` are read
-- by no operation that is modelled. What a call of the tool does is the dispatcher's parameter.
pub record Tool : Type 0 where
  pub name : String
  pub capability : Option Capability
  pub side_effect : SideEffect
  pub timeout_ms : ℕ

abbrev pub ToolRegistry : Type 0
ToolRegistry = Dict Tool

abbrev tool_not_found {ℓ} : {A : Type ℓ} → Result A
tool_not_found = raise_app ErrorKind.not_found "tool.not_found"

abbrev pub duplicate_tool {ℓ} : {A : Type ℓ} → Result A
duplicate_tool = raise_app ErrorKind.conflict "tool.duplicate"

unfoldable pub register : Tool → ToolRegistry → Done × ToolRegistry
register tool tools = elim (lookup tool.name tools) [
  | some _ ↦ (duplicate_tool, tools)
  | none ↦ (ok tt, insert tool.name tool tools)
]

-- The first duplicate aborts; the tools before it stay registered.
abbrev pub and_then :
    (ToolRegistry → Done × ToolRegistry) → Done × ToolRegistry → Done × ToolRegistry
and_then next (ok _, tools) = next tools
and_then next (err e, tools) = (err e, tools)

unfoldable pub register_all : List Tool → ToolRegistry → Done × ToolRegistry
register_all [] tools = (ok tt, tools)
register_all (t ∷ ts) tools = and_then (register_all ts) (register t tools)

unfoldable pub unregister : String → ToolRegistry → Done × ToolRegistry
unregister name tools = elim (lookup name tools) [
  | none ↦ (tool_not_found, tools)
  | some _ ↦ (ok tt, pop name tools)
]

unfoldable pub resolve : String → ToolRegistry → Result Tool
resolve name tools = elim (lookup name tools) [ none ↦ tool_not_found | some t ↦ ok t ]
