-- ===== src/Yetenekler/Dagitici/Laws.antt =====
-- Laws of the skill dispatcher of core/turkish_code/yetenekler/dagitici.py and of the scope of
-- baglam.py.
use turkish_code.Base.{
  Option-cases, ◌∙◌, eq_refl, ◌↔◌, ◌≡◌, refl, arith, String, Bool, true, false, List, none,
  if◌then◌else◌, inl, inr, Bool-cases,
}
use turkish_code.Base.Dict.{is_some, lookup-pop, lookup-insert, lookup, Dict, contains}
use turkish_code.Hata.{ok}
use turkish_code.Araclar.Izin.{PermissionRequest, Decision, allow}
use turkish_code.Araclar.Kayit.{Tool, ToolRegistry, resolve}
use turkish_code.Araclar.Dagitici.{Tokens, ToolRequest, World, request_of}
use turkish_code.Araclar.Dagitici.Laws.{dispatch-executed}
use turkish_code.Yetenekler.Kayit.{resolve_skill, SkillRegistry}
use turkish_code.Yetenekler.Yasam.{Call, run, is_enabled}
use turkish_code.Yetenekler.Yasam.Laws.{nothing_loaded, run-enabled}
use turkish_code.Yetenekler.Dagitici.{
  is_cancelled, unregister_invocation, register_invocation, SkillRun, invoke, SkillExecutionContext,
  invoke_tool,
}

module _ (gate : PermissionRequest → Decision) (context : SkillExecutionContext)
    (tools : ToolRegistry) (r : ToolRequest) (w : World) (tokens : Tokens) where
  -- A skill has a tool executed exactly if the tool is among those that it is allowed, is
  -- registered, the gate has allowed it, and the call was not cancelled while the gate was
  -- awaited.
  pub invoke_tool-executed : ((invoke_tool gate context tools r w tokens).executed ≡ true) ↔ (
      (contains r.name context.allowed_tools ≡ true)
      × (t : Tool) × (resolve r.name tools ≡ ok t)
      × (gate (request_of t) ≡ allow)
      × (contains r.call_id w.while_gating ≡ false))
  unfolding invoke_tool
  invoke_tool-executed = elim (Bool-cases (contains r.name context.allowed_tools)) [
    | inl e ↦
        rw (e, invoke_tool)
          (
            λ h.
                let (t, here, allowed, open_call) = (dispatch-executed gate tools r w tokens).0 h in
                (refl, t, here, allowed, open_call),
            λ (in_scope, t, here, allowed, open_call).
                (dispatch-executed gate tools r w tokens).1 (t, here, allowed, open_call),
          )
    | inr e ↦ rw (e, invoke_tool) (λ h. ground (arith, h), λ h. ground (arith, h.0))
  ]

-- A token that was just registered is not cancelled.
is_cancelled-register_invocation :
    (id : String) (tokens : Dict Bool) → is_cancelled id (register_invocation id tokens) ≡ false
unfolding register_invocation
is_cancelled-register_invocation id tokens =
    ground (arith, lookup-insert id id false tokens, eq_refl id)

lookup-unregister_invocation :
    (id : String) (tokens : Dict Bool) → lookup id (unregister_invocation id tokens) ≡ none
unfolding unregister_invocation
lookup-unregister_invocation id tokens = ground (arith, lookup-pop id id tokens, eq_refl id)

invoke-registered :
    (skills : SkillRegistry) (skill_id invocation_id : String) (during : SkillRun)
    (tokens : Dict Bool)
    → let r = invoke skills skill_id invocation_id during tokens in
      (r.started ≡ is_some (lookup skill_id skills))
      × (lookup invocation_id r.invocations
          ≡ (if r.started then none else lookup invocation_id tokens))
unfolding invoke resolve_skill
invoke-registered skills skill_id invocation_id during tokens =
    elim (Option-cases (lookup skill_id skills)) [
      | inl absent ↦ rw (absent, invoke) (refl, refl)
      | inr (skill, here) ↦
          rw (here, invoke, is_cancelled-register_invocation invocation_id tokens)
            (refl, lookup-unregister_invocation invocation_id _)
    ]

-- After any calls of the lifecycle, an invocation starts a skill exactly while it is enabled, and
-- it leaves no token behind where it has started one.
pub invoke-started :
    (calls : List Call) (skill_id invocation_id : String) (during : SkillRun) (tokens : Dict Bool)
    → let l = run calls nothing_loaded in
      let r = invoke l.registry skill_id invocation_id during tokens in
      (r.started ≡ is_enabled skill_id l)
      × (lookup invocation_id r.invocations
          ≡ (if r.started then none else lookup invocation_id tokens))
invoke-started calls skill_id invocation_id during tokens =
    let l = run calls nothing_loaded in
    let (starts, leaves) = invoke-registered l.registry skill_id invocation_id during tokens in
    (starts ∙ run-enabled calls skill_id, leaves)
