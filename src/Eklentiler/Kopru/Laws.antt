-- ===== src/Eklentiler/Kopru/Laws.antt =====
-- Laws of the bridge of core/turkish_code/eklentiler/izin.py.
use turkish_code.Base.{
  subst, String, ◌≡◌, refl, sym, ◌∙◌, arith, false, List, [], ◌∷◌, ◌++◌, none, some, eq_iff,
  eq_refl, Option-cases, inl, inr,
}
use turkish_code.Base.Dict.{lookup, insert, pop, lookup-insert, lookup-pop}
use turkish_code.Hata.{app, app_error, ErrorKind, no_cause, Raised, err}
use turkish_code.Araclar.Kayit.{Tool, ToolRegistry, register, unregister}
use turkish_code.Eklentiler.Kopru.{Plugin, namespaced, roll_back, activate_loop, activate}

-- What `register` raises for a name that is taken.
abbrev duplicate : Raised
duplicate = app (app_error ErrorKind.conflict "tool.duplicate" false no_cause)

-- Two registries that answer every lookup alike.
abbrev pub SameTools : ToolRegistry → ToolRegistry → Type 0
SameTools tools tools' = (j : String) → lookup j tools ≡ lookup j tools'

-- The registry `now` is `before` with `names` on top: withdrawing them in turn gives it back.
OnTop : List String → ToolRegistry → ToolRegistry → Type 0
OnTop [] now before = SameTools now before
OnTop (name ∷ names) now before =
    ((t : Tool) × (lookup name now ≡ some t)) × OnTop names (pop name now) before

OnTop-same :
    (names : List String) (now now' before : ToolRegistry)
    → SameTools now' now
    → OnTop names now before
    → OnTop names now' before
unfolding OnTop
OnTop-same [] now now' before same h = λ j. same j ∙ h j
OnTop-same (name ∷ names) now now' before same ((t, here), h) = (
  (t, same name ∙ here),
  OnTop-same names (pop name now) (pop name now') before
      (λ j. ground (arith, lookup-pop name j now, lookup-pop name j now', same j)) h,
)

-- A new name goes on top of the others.
OnTop-insert :
    (names : List String) (k : String) (t : Tool) (now before : ToolRegistry)
    → lookup k now ≡ none
    → OnTop names now before
    → OnTop (names ++ k ∷ []) (insert k t now) before
unfolding OnTop
OnTop-insert [] k t now before absent h = (
  (t, ground (arith, lookup-insert k k t now, eq_refl k)),
  λ j. ground (arith, lookup-pop k j (insert k t now), lookup-insert k j t now, eq_iff k j, h j),
)
OnTop-insert (name ∷ names) k t now before absent ((u, here), h) = (
  (u, ground (arith, lookup-insert k name t now, eq_iff k name)),
  OnTop-same (names ++ k ∷ []) (insert k t (pop name now)) (pop name (insert k t now)) before
      (λ j. ground (
        arith,
        lookup-pop name j (insert k t now),
        lookup-insert k j t now,
        lookup-insert k j t (pop name now),
        lookup-pop name j now,
        eq_iff k j,
        eq_iff name j,
        eq_iff k name,
      ))
      (OnTop-insert names k t (pop name now) before (ground (arith, lookup-pop name k now)) h),
)

-- The rollback withdraws them all.
roll_back-restores :
    (e : Raised) (names : List String) (now before : ToolRegistry)
    → OnTop names now before
    → ((roll_back e names now).0 ≡ err e) × SameTools (roll_back e names now).1 before
unfolding roll_back unregister OnTop
roll_back-restores e [] now before h = (refl, h)
roll_back-restores e (name ∷ names) now before ((t, here), h) =
    rw (here, unregister) (roll_back-restores e names (pop name now) before h)

activate_loop-fresh :
    (plugin_id : String) (t : Tool) (ts : List Tool) (names : List String) (now : ToolRegistry)
    → lookup (namespaced plugin_id t).name now ≡ none
    → activate_loop plugin_id (t ∷ ts) names now
      ≡ activate_loop plugin_id ts
          (names ++ (namespaced plugin_id t).name ∷ [])
          (insert (namespaced plugin_id t).name (namespaced plugin_id t) now)
unfolding activate_loop register
activate_loop-fresh plugin_id t ts names now absent = rw (absent, register) refl

activate_loop-taken :
    (plugin_id : String) (t old : Tool) (ts : List Tool) (names : List String) (now : ToolRegistry)
    → lookup (namespaced plugin_id t).name now ≡ some old
    → activate_loop plugin_id (t ∷ ts) names now ≡ roll_back duplicate names now
unfolding activate_loop register
activate_loop-taken plugin_id t old ts names now there = rw (there, register) refl

-- Either every tool is in, or an error came and the registry answers as before.
activate_loop-atomic :
    (plugin_id : String) (ts : List Tool) (names : List String) (now before : ToolRegistry)
    → OnTop names now before
    → (e : Raised) → (activate_loop plugin_id ts names now).0 ≡ err e
    → SameTools (activate_loop plugin_id ts names now).1 before
unfolding activate_loop register
activate_loop-atomic plugin_id [] names now before h e failed = ground arith
activate_loop-atomic plugin_id (t ∷ ts) names now before h e failed =
    let wrapped = namespaced plugin_id t in
    elim (Option-cases (lookup wrapped.name now)) [
      | inl absent ↦
          subst (λ r. r.0 ≡ err e → SameTools r.1 before)
            (sym (activate_loop-fresh plugin_id t ts names now absent))
            (activate_loop-atomic plugin_id ts (names ++ wrapped.name ∷ [])
              (insert wrapped.name wrapped now) before
              (OnTop-insert names wrapped.name wrapped now before absent h) e)
            failed
      | inr (old, there) ↦
          subst (λ r. SameTools r.1 before)
            (sym (activate_loop-taken plugin_id t old ts names now there))
            (roll_back-restores duplicate names now before h).1
    ]

-- A plugin whose activation raises leaves nothing registered: the registry of the tools answers
-- every lookup as it did before.
pub activate-atomic :
    (p : Plugin) (tools : ToolRegistry) (e : Raised)
    → (activate p tools).0 ≡ err e
    → SameTools (activate p tools).1 tools
unfolding activate OnTop
activate-atomic p tools e failed =
    activate_loop-atomic p.id p.tools [] tools tools (λ j. refl) e failed
