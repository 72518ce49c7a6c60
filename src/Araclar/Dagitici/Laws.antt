-- ===== src/Araclar/Dagitici/Laws.antt =====
-- Laws of the tool dispatcher of core/turkish_code/araclar/dagitici.py.
use turkish_code.Base.{
  subst, ◌↔◌, String, ◌≡◌, ◌∙◌, Bool, true, false, List, [], ◌∷◌, none, some, if◌then◌else◌, str_eq,
  eq_iff, eq_refl, arith,
}
use turkish_code.Base.Dict.{lookup, insert, lookup-insert, lookup-pop, contains}
use turkish_code.Hata.{ok}
use turkish_code.Araclar.Izin.{
  Capability, PermissionRequest, Decision, allow, PermissionPolicy, is_sensitive, decide,
}
use turkish_code.Araclar.Izin.Laws.{Permits, decide-Permits}
use turkish_code.Araclar.Kayit.{Tool, ToolRegistry, resolve}
use turkish_code.Araclar.Dagitici.{
  Tokens, track, cancel, untrack, ToolRequest, Execution, World, execute, request_of, cancel_all,
  dispatch,
}

lookup-cancel :
    (k j : String) (b : Bool) (tokens : Tokens)
    → lookup j tokens ≡ some b
    → lookup j (cancel k tokens) ≡ some (if str_eq k j then true else b)
unfolding cancel
lookup-cancel k j b tokens here = ground (arith, lookup-insert k j true tokens, eq_iff k j)

lookup-cancel_all :
    (ids : List String) (j : String) (b : Bool) (tokens : Tokens)
    → lookup j tokens ≡ some b
    → lookup j (cancel_all ids tokens) ≡ some (if contains j ids then true else b)
unfolding cancel_all
lookup-cancel_all [] j b tokens here = here
lookup-cancel_all (k ∷ ids) j b tokens here =
    lookup-cancel_all ids j (if str_eq k j then true else b) (cancel k tokens)
      (lookup-cancel k j b tokens here)
    ∙ ground arith

-- While the gate is awaited, exactly the calls that are cancelled show as cancelled.
gated :
    (ids : List String) (j : String) (tokens : Tokens)
    → lookup j (cancel_all ids (track j tokens)) ≡ some (contains j ids)
unfolding track
gated ids j tokens =
    lookup-cancel_all ids j false (insert j false tokens)
      (lookup-insert j j false tokens ∙ ground (arith, eq_refl j))
    ∙ ground arith

module _ (gate : PermissionRequest → Decision) (tools : ToolRegistry) (r : ToolRequest) (w : World)
    (tokens : Tokens) where
  -- A tool is executed exactly if it is registered under the name of the request, the gate has
  -- allowed it, and the call was not cancelled while the gate was awaited.
  pub dispatch-executed : ((dispatch gate tools r w tokens).executed ≡ true) ↔ (
      (t : Tool) × (resolve r.name tools ≡ ok t)
      × (gate (request_of t) ≡ allow)
      × (contains r.call_id w.while_gating ≡ false))
  unfolding dispatch
  dispatch-executed = (
    λ h. ground (arith, gated w.while_gating r.call_id tokens),
    λ (t, here, allowed, open_call). ground (arith, gated w.while_gating r.call_id tokens),
  )

  -- A result is returned only by a tool that was executed and has succeeded.
  dispatch-returned :
      (output : String)
      → (dispatch gate tools r w tokens).result ≡ ok output
      → ((dispatch gate tools r w tokens).executed ≡ true)
        × (w.execution ≡ Execution.succeeded output)
  unfolding dispatch execute
  dispatch-returned output h = (ground arith, ground arith)

  -- Whatever happens to the call of a registered tool, it is tracked no longer than its dispatch.
  dispatch-tokens :
      (t : Tool)
      → resolve r.name tools ≡ ok t
      → lookup r.call_id (dispatch gate tools r w tokens).tokens ≡ none
  unfolding dispatch untrack
  dispatch-tokens t here = ground (
    arith,
    lookup-pop r.call_id r.call_id (cancel_all w.while_gating (track r.call_id tokens)),
    lookup-pop r.call_id r.call_id
        (cancel_all w.while_running (cancel_all w.while_gating (track r.call_id tokens))),
    eq_refl r.call_id,
  )

-- Under the policy as the gate: if a dispatch executes a brokered tool that mutates, executes or
-- sends, then the mode permits it, which PLAN never does, ASK does under a standing grant, and AUTO
-- under one or where the tool does not send, whatever the world does.
pub dispatch-policy :
    (p : PermissionPolicy) (tools : ToolRegistry) (r : ToolRequest) (w : World) (tokens : Tokens)
    (t : Tool) (c : Capability)
    → resolve r.name tools ≡ ok t
    → t.capability ≡ some c
    → is_sensitive t.side_effect ≡ true
    → (dispatch (decide p) tools r w tokens).executed ≡ true
    → Permits p c (request_of t) p.mode
dispatch-policy p tools r w tokens t c here brokered sensitive h =
    let (t', here', allowed, _) = (dispatch-executed (decide p) tools r w tokens).0 h in
    let same : t' ≡ t = ground arith in
    (decide-Permits p (request_of t) c brokered sensitive).0
      (subst (λ (x : Tool). decide p (request_of x) ≡ allow) same allowed)
