-- ===== src/CalismaAlani/Yonetici.antt =====
-- The lifecycle and the manager of workspaces: core/turkish_code/calisma_alani/yasam.py and
-- yonetici.py. The factory of the bound services does not fail.
pub mod Laws
pub mod Transitions
use turkish_code.Base.{
  String, Bool, true, false, List, [], ◌∷◌, Option, none, some, if◌then◌else◌, str_eq,
}
use turkish_code.Base.Dict.{Dict, lookup, insert, pop}
use turkish_code.Hata.{ErrorKind, Raised, Result, Done, ok, err, raise_app}
use turkish_code.CalismaAlani.Yapilandirma.{WorkspaceConfig}
use turkish_code.CalismaAlani.Kayit.{
  WorkspaceState, WorkspaceMetadata, WorkspaceSession, WorkspaceRegistry, workspace_not_found,
  register_workspace, delete_workspace, put_state,
}

-- `WorkspaceManager` over the registry that it shares with the lifecycle.
pub record WorkspaceManager : Type 0 where
  pub workspaces : WorkspaceRegistry
  pub current : Option String

abbrev pub is_current : String → Option String → Bool
is_current id none = false
is_current id (some k) = str_eq k id

abbrev pub cleared : String → Option String → Option String
cleared id current = if is_current id current then none else current

abbrev pub with_registry : WorkspaceManager → Done × WorkspaceRegistry → Done × WorkspaceManager
with_registry m (result, ws) = (result, record m { workspaces = ws })

unfoldable pub create :
    String → WorkspaceMetadata → WorkspaceConfig → WorkspaceManager → Done × WorkspaceManager
create id metadata config m = with_registry m (
    register_workspace
      (record {
        id = id;
        metadata = metadata;
        config = config;
        state = WorkspaceState.created;
        is_bound = false;
      })
      m.workspaces)

-- `open`, whatever the state of the workspace is.
unfoldable pub open_workspace : String → WorkspaceManager → Done × WorkspaceManager
open_workspace id m = elim (lookup id m.workspaces) [
  | none ↦ (workspace_not_found, m)
  | some w ↦ (
    ok tt,
    record {
      workspaces =
          insert id (record w { state = WorkspaceState.active; is_bound = true }) m.workspaces;
      current = some id;
    },
  )
]

unfoldable pub close : String → WorkspaceManager → Done × WorkspaceManager
close id m = elim (lookup id m.workspaces) [
  | none ↦ (workspace_not_found, m)
  | some w ↦ (
    ok tt,
    record {
      workspaces =
          insert id (record w { state = WorkspaceState.inactive; is_bound = false }) m.workspaces;
      current = cleared id m.current;
    },
  )
]

unfoldable pub switch : String → WorkspaceManager → Done × WorkspaceManager
unfolding open_workspace
switch id m = open_workspace id m

unfoldable pub delete : String → WorkspaceManager → Done × WorkspaceManager
delete id m =
    with_registry (record m { current = cleared id m.current }) (delete_workspace id m.workspaces)

unfoldable pub current_workspace : WorkspaceManager → Option WorkspaceSession
current_workspace m = elim m.current [ none ↦ none | some id ↦ lookup id m.workspaces ]

-- `state in allowed`
abbrev pub created_or_inactive : WorkspaceState → Bool
created_or_inactive WorkspaceState.created = true
created_or_inactive WorkspaceState.inactive = true
created_or_inactive _ = false

abbrev pub only_created : WorkspaceState → Bool
only_created WorkspaceState.created = true
only_created _ = false

abbrev pub only_active : WorkspaceState → Bool
only_active WorkspaceState.active = true
only_active _ = false

abbrev pub only_archived : WorkspaceState → Bool
only_archived WorkspaceState.archived = true
only_archived _ = false

unfoldable pub transition :
    String → (WorkspaceState → Bool) → WorkspaceState → WorkspaceRegistry → Done × WorkspaceRegistry
transition id allowed target ws = elim (lookup id ws) [
  | none ↦ (workspace_not_found, ws)
  | some w ↦
      if allowed w.state
      then (ok tt, put_state target id w ws)
      else (raise_app ErrorKind.conflict "workspace.invalid_transition", ws)
]

unfoldable pub initialize : String → WorkspaceRegistry → Done × WorkspaceRegistry
unfolding transition
initialize id = transition id only_created WorkspaceState.created

unfoldable pub activate : String → WorkspaceRegistry → Done × WorkspaceRegistry
unfolding transition
activate id = transition id created_or_inactive WorkspaceState.active

unfoldable pub deactivate : String → WorkspaceRegistry → Done × WorkspaceRegistry
unfolding transition
deactivate id = transition id only_active WorkspaceState.inactive

unfoldable pub archive : String → WorkspaceRegistry → Done × WorkspaceRegistry
unfolding transition
archive id = transition id created_or_inactive WorkspaceState.archived

unfoldable pub restore : String → WorkspaceRegistry → Done × WorkspaceRegistry
unfolding transition
restore id = transition id only_archived WorkspaceState.inactive

-- A workspace that is shut down already is left as it is, which setting its state again does too.
unfoldable pub shutdown : String → WorkspaceRegistry → Done × WorkspaceRegistry
shutdown id ws = elim (lookup id ws) [
  | none ↦ (workspace_not_found, ws)
  | some w ↦ elim w.state [
    | WorkspaceState.shut_down ↦ (ok tt, ws)
    | _ ↦ (ok tt, put_state WorkspaceState.shut_down id w ws)
  ]
]

-- A call of the lifecycle or of the manager.
pub data LifecycleCall : Type 0 where
  initializes activates deactivates archives restores shuts_down : String → LifecycleCall

pub data Call : Type 0 where
  creates : String → WorkspaceMetadata → WorkspaceConfig → Call
  opens closes switches deletes : String → Call
  drives : LifecycleCall → Call

abbrev pub drive : LifecycleCall → WorkspaceRegistry → Done × WorkspaceRegistry
drive (initializes id) ws = initialize id ws
drive (activates id) ws = activate id ws
drive (deactivates id) ws = deactivate id ws
drive (archives id) ws = archive id ws
drive (restores id) ws = restore id ws
drive (shuts_down id) ws = shutdown id ws

abbrev pub call : Call → WorkspaceManager → Done × WorkspaceManager
call (creates id metadata config) m = create id metadata config m
call (opens id) m = open_workspace id m
call (closes id) m = close id m
call (switches id) m = switch id m
call (deletes id) m = delete id m
call (drives c) m = with_registry m (drive c m.workspaces)

-- What a sequence of calls leaves, whether they raise or not.
unfoldable pub run : List Call → WorkspaceManager → WorkspaceManager
run [] m = m
run (c ∷ cs) m = run cs (call c m).1
