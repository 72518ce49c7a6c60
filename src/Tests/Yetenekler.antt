-- ===== src/Tests/Yetenekler.antt =====
-- The skill runtime of core/turkish_code/yetenekler with one concrete skill.
use turkish_code.Base.{◌≡◌, ◌≢◌, ◌↔◌, true, false, List, [], ◌∷◌, none, if◌then◌else◌}
use turkish_code.Base.Dict.{lookup, contains}
use turkish_code.Hata.{Raised, ok, err}
use turkish_code.Araclar.Izin.{PermissionRequest, Decision, allow, SideEffect}
use turkish_code.Araclar.Kayit.{Tool, resolve}
use turkish_code.Araclar.Dagitici.{ToolRequest, World, Execution, request_of}
use turkish_code.Yetenekler.Kayit.{SkillMetadata, SkillScope}
use turkish_code.Yetenekler.Yasam.{Call, call, run, is_enabled, loads, enables, unloads}
use turkish_code.Yetenekler.Yasam.Laws.{nothing_loaded, run-registry}
use turkish_code.Yetenekler.Dagitici.{
  SkillRun, SkillEnd, SkillExecutionContext, invoke, invoke_tool,
}
use turkish_code.Yetenekler.Dagitici.Laws.{invoke-started, invoke_tool-executed}

abbrev writer : SkillMetadata
writer = record {
  id = "tauri-komut-yaz";
  description = "yaz";
  allowed_tools = "read_file" ∷ [];
  scope = SkillScope.workspace;
  timeout_ms = 30000;
  version = 1;
}

abbrev calls : List Call
calls = loads writer ∷ enables "tauri-komut-yaz" ∷ enables "other" ∷ []

run-registry_example :
    (lookup "tauri-komut-yaz" (run calls nothing_loaded).registry ≡ (
      if is_enabled "tauri-komut-yaz" (run calls nothing_loaded)
      then lookup "tauri-komut-yaz" (run calls nothing_loaded).loaded
      else none))
    × ((call (unloads "tauri-komut-yaz") (run calls nothing_loaded)).0 ≢ err Raised.key_error)
run-registry_example = run-registry calls (unloads "tauri-komut-yaz") "tauri-komut-yaz"

abbrev during : SkillRun
during = record { while_running = "i1" ∷ []; end = SkillEnd.pending }

invoke-started_example :
    ((invoke (run calls nothing_loaded).registry "tauri-komut-yaz" "i1" during []).started
      ≡ is_enabled "tauri-komut-yaz" (run calls nothing_loaded))
    × (lookup "i1"
          (invoke (run calls nothing_loaded).registry "tauri-komut-yaz" "i1" during []).invocations
        ≡ (if (invoke (run calls nothing_loaded).registry "tauri-komut-yaz" "i1" during []).started
            then none
            else lookup "i1" []))
invoke-started_example = invoke-started calls "tauri-komut-yaz" "i1" during []

abbrev reader : Tool
reader = record {
  name = "read_file";
  capability = none;
  side_effect = SideEffect.read;
  timeout_ms = 10;
}

abbrev request : ToolRequest
request = record { name = "read_file"; call_id = "c1" }

abbrev world : World
world = record { while_gating = []; while_running = []; execution = Execution.succeeded "merhaba" }

abbrev context : SkillExecutionContext
context = record { allowed_tools = "read_file" ∷ [] }

abbrev always : PermissionRequest → Decision
always r = allow

invoke_tool-executed_example :
    ((invoke_tool always context (("read_file", reader) ∷ []) request world []).executed ≡ true) ↔ (
      (contains "read_file" ("read_file" ∷ []) ≡ true)
      × (t : Tool) × (resolve "read_file" (("read_file", reader) ∷ []) ≡ ok t)
      × (always (request_of t) ≡ allow)
      × (contains "c1" [] ≡ false))
invoke_tool-executed_example =
    invoke_tool-executed always context (("read_file", reader) ∷ []) request world []
