-- ===== src/Tests/CalismaAlani.antt =====
-- The workspaces of core/turkish_code/calisma_alani at concrete calls.
use turkish_code.Base.{refl, true, false, List, [], ◌∷◌, none}
use turkish_code.Base.Dict.{lookup}
use turkish_code.CalismaAlani.Yapilandirma.{WorkspaceConfig}
use turkish_code.CalismaAlani.Kayit.{WorkspaceState, WorkspaceMetadata, WorkspaceSession}
use turkish_code.CalismaAlani.Yonetici.{
  Call, creates, opens, closes, drives, shuts_down, archives, drive, run, current_workspace,
}
use turkish_code.CalismaAlani.Yonetici.Laws.{Answers, run-current}
use turkish_code.CalismaAlani.Yonetici.Transitions.{StepsTo, drive-StepsTo}

abbrev config : WorkspaceConfig
config = record {
  default_agent_id = "";
  max_history_turns = 10;
  memory_enabled = true;
  version = 1;
}

abbrev metadata : WorkspaceMetadata
metadata = record { name = "proje"; root = "/p"; description = "" }

abbrev calls : List Call
calls =
    creates "w1" metadata config
    ∷ creates "w2" metadata config
    ∷ opens "w1"
    ∷ opens "w2"
    ∷ closes "w1"
    ∷ drives (shuts_down "w2")
    ∷ []

run-current_example :
    Answers
      (run calls (record { workspaces = []; current = none })).current
      (current_workspace (run calls (record { workspaces = []; current = none })))
run-current_example = run-current calls

abbrev idle : WorkspaceSession
idle = record {
  id = "w1";
  metadata = metadata;
  config = config;
  state = WorkspaceState.inactive;
  is_bound = false;
}

drive-StepsTo_example :
    StepsTo WorkspaceState.inactive (lookup "w1" (drive (archives "w1") (("w1", idle) ∷ [])).1)
unfolding lookup
drive-StepsTo_example = drive-StepsTo (archives "w1") (("w1", idle) ∷ []) "w1" idle refl
