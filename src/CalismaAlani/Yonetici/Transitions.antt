-- ===== src/CalismaAlani/Yonetici/Transitions.antt =====
-- The states of a workspace under core/turkish_code/calisma_alani/yasam.py and yonetici.py.
use turkish_code.Base.{
  ◌≡◌, refl, subst, arith, String, Bool, true, false, inl, inr, Option, none, some, str_eq, eq_iff,
  Bool-cases, Option-cases,
}
use turkish_code.Base.Dict.{lookup, lookup-insert}
use turkish_code.CalismaAlani.Kayit.{WorkspaceState, WorkspaceSession, WorkspaceRegistry, put_state}
use turkish_code.CalismaAlani.Yonetici.{
  created_or_inactive, only_created, only_active, only_archived, transition, initialize, activate,
  deactivate, archive, restore, shutdown, LifecycleCall, drive, initializes, activates, deactivates,
  archives, restores, shuts_down,
}

-- The steps of the documented state machine.
pub data Step : WorkspaceState → WorkspaceState → Type 0 where
  stays : (s : WorkspaceState) → Step s s
  starts : Step WorkspaceState.created WorkspaceState.active
  resumes : Step WorkspaceState.inactive WorkspaceState.active
  pauses : Step WorkspaceState.active WorkspaceState.inactive
  shelves_new : Step WorkspaceState.created WorkspaceState.archived
  shelves : Step WorkspaceState.inactive WorkspaceState.archived
  comes_back : Step WorkspaceState.archived WorkspaceState.inactive
  ends : (s : WorkspaceState) → Step s WorkspaceState.shut_down

abbrev pub StepsTo : WorkspaceState → Option WorkspaceSession → Type 0
StepsTo s none = true ≡ false
StepsTo s (some w) = Step s w.state

-- What an allowed transition is.
abbrev IsLegal : (WorkspaceState → Bool) → WorkspaceState → Type 0
IsLegal allowed target = (s : WorkspaceState) → allowed s ≡ true → Step s target

put_state-StepsTo :
    (target : WorkspaceState) (id j : String) (w v : WorkspaceSession) (ws : WorkspaceRegistry)
    → lookup id ws ≡ some w
    → lookup j ws ≡ some v
    → Step w.state target
    → StepsTo v.state (lookup j (put_state target id w ws))
put_state-StepsTo target id j w v ws here there step = elim (Bool-cases (str_eq id j)) [
  | inl e ↦
      let same : w ≡ v = ground (arith, here, there, e, eq_iff id j) in
      rw (lookup-insert id j (record w { state = target }) ws, e)
        (subst (λ (x : WorkspaceSession). Step x.state target) same step)
  | inr e ↦ rw (lookup-insert id j (record w { state = target }) ws, e, there) (stays v.state)
]

transition-StepsTo :
    (id j : String) (allowed : WorkspaceState → Bool) (target : WorkspaceState)
    (ws : WorkspaceRegistry) (v : WorkspaceSession)
    → IsLegal allowed target
    → lookup j ws ≡ some v
    → StepsTo v.state (lookup j (transition id allowed target ws).1)
unfolding transition
transition-StepsTo id j allowed target ws v legal there = elim (Option-cases (lookup id ws)) [
  | inl absent ↦ rw (absent, transition, there) (stays v.state)
  | inr (w, here) ↦ elim (Bool-cases (allowed w.state)) [
    | inl e ↦
        rw (here, transition, e) (put_state-StepsTo target id j w v ws here there (legal w.state e))
    | inr e ↦ rw (here, transition, e, there) (stays v.state)
  ]
]

shutdown-StepsTo_at :
    (id j : String) (ws : WorkspaceRegistry) (v w : WorkspaceSession) (s : WorkspaceState)
    → lookup id ws ≡ some w
    → lookup j ws ≡ some v
    → w.state ≡ s
    → StepsTo v.state (lookup j (put_state WorkspaceState.shut_down id w ws))
    → StepsTo v.state (lookup j (shutdown id ws).1)
unfolding shutdown
shutdown-StepsTo_at id j ws v w WorkspaceState.created here there e put = rw (here, shutdown, e) put
shutdown-StepsTo_at id j ws v w WorkspaceState.active here there e put = rw (here, shutdown, e) put
shutdown-StepsTo_at id j ws v w WorkspaceState.inactive here there e put =
    rw (here, shutdown, e) put
shutdown-StepsTo_at id j ws v w WorkspaceState.archived here there e put =
    rw (here, shutdown, e) put
shutdown-StepsTo_at id j ws v w WorkspaceState.shut_down here there e put =
    rw (here, shutdown, e, there) (stays v.state)

shutdown-StepsTo :
    (id j : String) (ws : WorkspaceRegistry) (v : WorkspaceSession)
    → lookup j ws ≡ some v
    → StepsTo v.state (lookup j (shutdown id ws).1)
unfolding shutdown
shutdown-StepsTo id j ws v there = elim (Option-cases (lookup id ws)) [
  | inl absent ↦ rw (absent, shutdown, there) (stays v.state)
  | inr (w, here) ↦
      shutdown-StepsTo_at id j ws v w w.state here there refl
        (put_state-StepsTo WorkspaceState.shut_down id j w v ws here there (ends w.state))
]

-- What the lifecycle allows are steps of the state machine.
initialize-IsLegal : IsLegal only_created WorkspaceState.created
initialize-IsLegal WorkspaceState.created e = stays WorkspaceState.created
initialize-IsLegal WorkspaceState.active e = ground (arith, e)
initialize-IsLegal WorkspaceState.inactive e = ground (arith, e)
initialize-IsLegal WorkspaceState.archived e = ground (arith, e)
initialize-IsLegal WorkspaceState.shut_down e = ground (arith, e)

activate-IsLegal : IsLegal created_or_inactive WorkspaceState.active
activate-IsLegal WorkspaceState.created e = starts
activate-IsLegal WorkspaceState.active e = ground (arith, e)
activate-IsLegal WorkspaceState.inactive e = resumes
activate-IsLegal WorkspaceState.archived e = ground (arith, e)
activate-IsLegal WorkspaceState.shut_down e = ground (arith, e)

deactivate-IsLegal : IsLegal only_active WorkspaceState.inactive
deactivate-IsLegal WorkspaceState.created e = ground (arith, e)
deactivate-IsLegal WorkspaceState.active e = pauses
deactivate-IsLegal WorkspaceState.inactive e = ground (arith, e)
deactivate-IsLegal WorkspaceState.archived e = ground (arith, e)
deactivate-IsLegal WorkspaceState.shut_down e = ground (arith, e)

archive-IsLegal : IsLegal created_or_inactive WorkspaceState.archived
archive-IsLegal WorkspaceState.created e = shelves_new
archive-IsLegal WorkspaceState.active e = ground (arith, e)
archive-IsLegal WorkspaceState.inactive e = shelves
archive-IsLegal WorkspaceState.archived e = ground (arith, e)
archive-IsLegal WorkspaceState.shut_down e = ground (arith, e)

restore-IsLegal : IsLegal only_archived WorkspaceState.inactive
restore-IsLegal WorkspaceState.created e = ground (arith, e)
restore-IsLegal WorkspaceState.active e = ground (arith, e)
restore-IsLegal WorkspaceState.inactive e = ground (arith, e)
restore-IsLegal WorkspaceState.archived e = comes_back
restore-IsLegal WorkspaceState.shut_down e = ground (arith, e)

-- A call of the lifecycle takes every registered workspace along the documented state machine:
-- into one of the steps created to active, active to inactive and back, created or inactive to
-- archived, archived to inactive, any to shut down, or it leaves its state. So a workspace that is
-- shut down stays so.
pub drive-StepsTo :
    (c : LifecycleCall) (ws : WorkspaceRegistry) (id : String) (v : WorkspaceSession)
    → lookup id ws ≡ some v
    → StepsTo v.state (lookup id (drive c ws).1)
unfolding initialize activate deactivate archive restore
drive-StepsTo (initializes k) ws id v h = transition-StepsTo k id _ _ ws v initialize-IsLegal h
drive-StepsTo (activates k) ws id v h = transition-StepsTo k id _ _ ws v activate-IsLegal h
drive-StepsTo (deactivates k) ws id v h = transition-StepsTo k id _ _ ws v deactivate-IsLegal h
drive-StepsTo (archives k) ws id v h = transition-StepsTo k id _ _ ws v archive-IsLegal h
drive-StepsTo (restores k) ws id v h = transition-StepsTo k id _ _ ws v restore-IsLegal h
drive-StepsTo (shuts_down k) ws id v h = shutdown-StepsTo k id ws v h
