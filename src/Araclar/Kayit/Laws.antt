-- ===== src/Araclar/Kayit/Laws.antt =====
-- Laws of the tool registry of core/turkish_code/araclar/kayit.py.
use turkish_code.Base.{
  String, ◌≡◌, refl, List, [], ◌∷◌, some, eq_iff, arith, Option-cases, inl, inr,
}
use turkish_code.Base.Dict.{lookup, lookup-insert}
use turkish_code.Hata.{ok, err, Done}
use turkish_code.Araclar.Kayit.{Tool, ToolRegistry, register, register_all, and_then, resolve}

-- Every tool is registered under its own name.
abbrev pub IsValid : ToolRegistry → Type 0
IsValid tools = (j : String) (t : Tool) → lookup j tools ≡ some t → t.name ≡ j

register-keeps :
    (t u : Tool) (tools : ToolRegistry) (j : String)
    → lookup j tools ≡ some u
    → lookup j (register t tools).1 ≡ some u
unfolding register
register-keeps t u tools j here = ground (arith, lookup-insert t.name j t tools, eq_iff t.name j)

register-IsValid : (t : Tool) (tools : ToolRegistry) → IsValid tools → IsValid (register t tools).1
unfolding register
register-IsValid t tools v j u here = elim (Option-cases (lookup t.name tools)) [
  | inr (old, there) ↦ v j u (ground arith)
  | inl absent ↦ ground (arith, lookup-insert t.name j t tools, eq_iff t.name j, v j u)
]

-- After a registration that is or is not an error, what comes next keeps a property it keeps.
and_then-keeps :
    {P : ToolRegistry → Type 0} (next : ToolRegistry → Done × ToolRegistry)
    (r : Done × ToolRegistry)
    → ((tools : ToolRegistry) → P tools → P (next tools).1)
    → P r.1
    → P (and_then next r).1
and_then-keeps next (ok _, tools) keeps p = keeps tools p
and_then-keeps next (err e, tools) keeps p = p

register_all-IsValid :
    (ts : List Tool) (tools : ToolRegistry) → IsValid tools → IsValid (register_all ts tools).1
unfolding register_all
register_all-IsValid [] tools v = v
register_all-IsValid (t ∷ ts) tools v =
    and_then-keeps (register_all ts) (register t tools) (register_all-IsValid ts)
      (register-IsValid t tools v)

register_all-keeps :
    (ts : List Tool) (u : Tool) (j : String) (tools : ToolRegistry)
    → lookup j tools ≡ some u
    → lookup j (register_all ts tools).1 ≡ some u
unfolding register_all
register_all-keeps [] u j tools here = here
register_all-keeps (t ∷ ts) u j tools here =
    and_then-keeps {P = λ after. lookup j after ≡ some u} (register_all ts) (register t tools)
      (register_all-keeps ts u j) (register-keeps t u tools j here)

-- From a registry where every tool is under its own name, whatever is registered, and whether or
-- not a duplicate stops it: every tool is under its own name, and a tool that was there before is
-- resolved as before.
register_all-shadows_nothing :
    (ts : List Tool) (tools : ToolRegistry) (j : String) (u : Tool)
    → IsValid tools
    → lookup j tools ≡ some u
    → IsValid (register_all ts tools).1 × (resolve j (register_all ts tools).1 ≡ ok u)
unfolding resolve
register_all-shadows_nothing ts tools j u v here =
    (register_all-IsValid ts tools v, rw (register_all-keeps ts u j tools here, resolve) refl)
