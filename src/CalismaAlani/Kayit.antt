-- ===== src/CalismaAlani/Kayit.antt =====
-- Workspaces and their registry: core/turkish_code/calisma_alani/modeller.py, oturum.py and kayit.py.
-- Of the bound services it is known whether they are there.
use turkish_code.Base.{String, Bool, none, some}
use turkish_code.Base.Dict.{Dict, lookup, insert, pop}
use turkish_code.Hata.{ErrorKind, Result, Done, ok, raise_app}
use turkish_code.CalismaAlani.Yapilandirma.{WorkspaceConfig}

pub data WorkspaceState : Type 0 where
  created active inactive archived shut_down : WorkspaceState

pub record WorkspaceMetadata : Type 0 where
  pub name : String
  pub root : String
  pub description : String

pub record WorkspaceSession : Type 0 where
  pub id : String
  pub metadata : WorkspaceMetadata
  pub config : WorkspaceConfig
  pub state : WorkspaceState
  pub is_bound : Bool

abbrev pub WorkspaceRegistry : Type 0
WorkspaceRegistry = Dict WorkspaceSession

abbrev pub workspace_not_found : {A : Type 0} → Result A
workspace_not_found = raise_app ErrorKind.not_found "workspace.not_found"

unfoldable pub register_workspace : WorkspaceSession → WorkspaceRegistry → Done × WorkspaceRegistry
register_workspace w ws = elim (lookup w.id ws) [
  | some _ ↦ (raise_app ErrorKind.conflict "workspace.duplicate", ws)
  | none ↦ (ok tt, insert w.id w ws)
]

unfoldable pub delete_workspace : String → WorkspaceRegistry → Done × WorkspaceRegistry
delete_workspace id ws = elim (lookup id ws) [
  | none ↦ (workspace_not_found, ws)
  | some _ ↦ (ok tt, pop id ws)
]

-- `set_state`: the session is shared, so the registry sees the change.
abbrev pub put_state :
    WorkspaceState → String → WorkspaceSession → WorkspaceRegistry → WorkspaceRegistry
put_state target id w ws = insert id (record w { state = target }) ws

-- `archive` of the registry.
unfoldable pub archive_workspace : String → WorkspaceRegistry → Done × WorkspaceRegistry
archive_workspace id ws = elim (lookup id ws) [
  | none ↦ (workspace_not_found, ws)
  | some w ↦ (ok tt, put_state WorkspaceState.archived id w ws)
]
