-- ===== src/CalismaAlani/Yonetici/Laws.antt =====
-- The current workspace of core/turkish_code/calisma_alani/yonetici.py.
use turkish_code.Base.{
  ◌≡◌, refl, ap, ◌∙◌, arith, String, Bool, true, false, inl, inr, List, [], ◌∷◌, Option, none, some,
  str_eq, eq_iff, eq_refl, Bool-cases, Option-cases,
}
use turkish_code.Base.Dict.{lookup, insert, pop, lookup-insert, lookup-pop}
use turkish_code.CalismaAlani.Kayit.{
  WorkspaceState, WorkspaceMetadata, WorkspaceSession, WorkspaceRegistry, register_workspace,
  delete_workspace,
}
use turkish_code.CalismaAlani.Yonetici.{
  current_workspace, WorkspaceConfig, WorkspaceManager, cleared, create, open_workspace, close,
  switch, delete, transition, initialize, activate, deactivate, archive, restore, shutdown,
  LifecycleCall, Call, drive, call, run, initializes, activates, deactivates, archives, restores,
  shuts_down, creates, opens, closes, switches, deletes, drives,
}

-- The workspace is registered, and its services are bound.
abbrev bound_at : Option WorkspaceSession → Bool
bound_at none = false
bound_at (some w) = w.is_bound

abbrev pub IsBoundAt : Option String → WorkspaceRegistry → Type 0
IsBoundAt none ws = Unit
IsBoundAt (some id) ws = bound_at (lookup id ws) ≡ true

abbrev pub IsSound : WorkspaceManager → Type 0
IsSound m = IsBoundAt m.current m.workspaces

-- The lifecycle binds and releases nothing.
abbrev SameBound : WorkspaceRegistry → WorkspaceRegistry → Type 0
SameBound before after = (id : String) → bound_at (lookup id after) ≡ bound_at (lookup id before)

transition-SameBound :
    (id : String) (allowed : WorkspaceState → Bool) (target : WorkspaceState)
    (ws : WorkspaceRegistry)
    → SameBound ws (transition id allowed target ws).1
unfolding transition
transition-SameBound id allowed target ws j = elim (Option-cases (lookup id ws)) [
  | inl absent ↦ rw (absent, transition) refl
  | inr (w, here) ↦
      ground (arith, here, lookup-insert id j (record w { state = target }) ws, eq_iff id j)
]

shutdown-SameBound : (id : String) (ws : WorkspaceRegistry) → SameBound ws (shutdown id ws).1
unfolding shutdown
shutdown-SameBound id ws j = elim (Option-cases (lookup id ws)) [
  | inl absent ↦ rw (absent, shutdown) refl
  | inr (w, here) ↦ ground (
    arith,
    here,
    lookup-insert id j (record w { state = WorkspaceState.shut_down }) ws,
    eq_iff id j,
  )
]

drive-SameBound : (c : LifecycleCall) (ws : WorkspaceRegistry) → SameBound ws (drive c ws).1
unfolding initialize activate deactivate archive restore
drive-SameBound (initializes id) ws = transition-SameBound id _ _ ws
drive-SameBound (activates id) ws = transition-SameBound id _ _ ws
drive-SameBound (deactivates id) ws = transition-SameBound id _ _ ws
drive-SameBound (archives id) ws = transition-SameBound id _ _ ws
drive-SameBound (restores id) ws = transition-SameBound id _ _ ws
drive-SameBound (shuts_down id) ws = shutdown-SameBound id ws

IsBoundAt-same :
    (current : Option String) (before after : WorkspaceRegistry)
    → SameBound before after
    → IsBoundAt current before
    → IsBoundAt current after
IsBoundAt-same none before after same h = tt
IsBoundAt-same (some id) before after same h = same id ∙ h

-- A change at one id leaves the current workspace sound unless it is this one.
cleared-IsBoundAt :
    (id : String) (current : Option String) (before after : WorkspaceRegistry)
    → ((j : String) → str_eq id j ≡ false → lookup j after ≡ lookup j before)
    → IsBoundAt current before
    → IsBoundAt (cleared id current) after
cleared-IsBoundAt id none before after same h = tt
cleared-IsBoundAt id (some k) before after same h = elim (Bool-cases (str_eq k id)) [
  | inl e ↦ rw e tt
  | inr e ↦ rw e (ap bound_at (same k (ground (arith, e, eq_iff k id, eq_iff id k))) ∙ h)
]

register_workspace-bound :
    (w : WorkspaceSession) (ws : WorkspaceRegistry) (j : String)
    → bound_at (lookup j ws) ≡ true
    → bound_at (lookup j (register_workspace w ws).1) ≡ true
unfolding register_workspace
register_workspace-bound w ws j h = elim (Option-cases (lookup w.id ws)) [
  | inr (old, here) ↦ rw (here, register_workspace) h
  | inl absent ↦
      rw (absent, register_workspace)
        (ground (arith, h, absent, lookup-insert w.id j w ws, eq_iff w.id j))
]

create-IsSound :
    (id : String) (metadata : WorkspaceMetadata) (config : WorkspaceConfig)
    (current : Option String) (ws : WorkspaceRegistry)
    → IsBoundAt current ws
    → IsSound (create id metadata config (record { workspaces = ws; current = current })).1
unfolding create
create-IsSound id metadata config none ws h = tt
create-IsSound id metadata config (some k) ws h = register_workspace-bound _ ws k h

open_workspace-IsSound :
    (id : String) (m : WorkspaceManager) → IsSound m → IsSound (open_workspace id m).1
unfolding open_workspace
open_workspace-IsSound id m h = elim (Option-cases (lookup id m.workspaces)) [
  | inl absent ↦ rw (absent, open_workspace) h
  | inr (w, here) ↦
      let now = record w { state = WorkspaceState.active; is_bound = true } in
      rw (here, open_workspace) (ground (arith, lookup-insert id id now m.workspaces, eq_refl id))
]

close-IsSound : (id : String) (m : WorkspaceManager) → IsSound m → IsSound (close id m).1
unfolding close
close-IsSound id m h = elim (Option-cases (lookup id m.workspaces)) [
  | inl absent ↦ rw (absent, close) h
  | inr (w, here) ↦
      let now = record w { state = WorkspaceState.inactive; is_bound = false } in
      rw (here, close)
        (cleared-IsBoundAt id m.current m.workspaces (insert id now m.workspaces)
          (λ j e. lookup-insert id j now m.workspaces ∙ ground (arith, e)) h)
]

delete-IsSound : (id : String) (m : WorkspaceManager) → IsSound m → IsSound (delete id m).1
unfolding delete delete_workspace
delete-IsSound id m h = elim (Option-cases (lookup id m.workspaces)) [
  | inl absent ↦
      rw (absent, delete_workspace)
        (cleared-IsBoundAt id m.current m.workspaces m.workspaces (λ j e. refl) h)
  | inr (w, here) ↦
      rw (here, delete_workspace)
        (cleared-IsBoundAt id m.current m.workspaces (pop id m.workspaces)
          (λ j e. lookup-pop id j m.workspaces ∙ ground (arith, e)) h)
]

call-IsSound : (c : Call) (m : WorkspaceManager) → IsSound m → IsSound (call c m).1
unfolding switch
call-IsSound (creates id metadata config) m h =
    create-IsSound id metadata config m.current m.workspaces h
call-IsSound (opens id) m h = open_workspace-IsSound id m h
call-IsSound (closes id) m h = close-IsSound id m h
call-IsSound (switches id) m h = open_workspace-IsSound id m h
call-IsSound (deletes id) m h = delete-IsSound id m h
call-IsSound (drives c) m h =
    IsBoundAt-same m.current m.workspaces (drive c m.workspaces).1 (drive-SameBound c m.workspaces)
      h

run-IsSound : (calls : List Call) (m : WorkspaceManager) → IsSound m → IsSound (run calls m)
unfolding run
run-IsSound [] m h = h
run-IsSound (c ∷ cs) m h = run-IsSound cs (call c m).1 (call-IsSound c m h)

-- What `current` answers where a current workspace is set: one whose services are bound.
abbrev pub Answers : Option String → Option WorkspaceSession → Type 0
Answers none answer = answer ≡ none
Answers (some id) answer = (w : WorkspaceSession) × (answer ≡ some w) × (w.is_bound ≡ true)

current_workspace-at :
    (current : Option String) (ws : WorkspaceRegistry)
    → IsBoundAt current ws
    → Answers current (current_workspace (record { workspaces = ws; current = current }))
unfolding current_workspace
current_workspace-at none ws h = refl
current_workspace-at (some id) ws h = elim (Option-cases (lookup id ws)) [
  | inl absent ↦ ground (arith, h, absent)
  | inr (w, here) ↦ (w, here, ground (arith, h, here))
]

-- After any calls of the manager and of the lifecycle, in any order and whether they raise or not,
-- the manager's current workspace, where one is set, is registered and its services are bound.
pub run-current :
    (calls : List Call)
    → let m = run calls (record { workspaces = []; current = none }) in
      Answers m.current (current_workspace m)
run-current calls =
    let m = run calls (record { workspaces = []; current = none }) in
    current_workspace-at m.current m.workspaces
      (run-IsSound calls (record { workspaces = []; current = none }) tt)
