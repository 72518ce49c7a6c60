-- ===== src/Yetenekler/Dagitici.antt =====
-- The skill dispatcher and the tools in a skill's scope: core/turkish_code/yetenekler/dagitici.py,
-- baglam.py and hata.py, over the tool dispatcher of core/turkish_code/araclar.
pub mod Laws
use turkish_code.Base.{String, Bool, true, false, List, [], ◌∷◌, Option, none, some, if◌then◌else◌}
use turkish_code.Base.Dict.{Dict, lookup, insert, pop, contains}
use turkish_code.Hata.{
  ErrorKind, AppError, app_error, no_cause, app, Raised, Result, ok, err, raise_app,
}
use turkish_code.Araclar.Izin.{PermissionRequest, Decision}
use turkish_code.Araclar.Kayit.{ToolRegistry}
use turkish_code.Araclar.Dagitici.{Tokens, ToolRequest, World, Dispatched, dispatch}
use turkish_code.Yetenekler.Kayit.{SkillMetadata, SkillRegistry, resolve_skill}

-- `SkillExecutionContext`, less the runtimes that a skill merely gets handed.
pub record SkillExecutionContext : Type 0 where
  pub allowed_tools : List String

module _ (gate : PermissionRequest → Decision) where
  unfoldable pub invoke_tool :
      SkillExecutionContext → ToolRegistry → ToolRequest → World → Tokens → Dispatched
  invoke_tool context tools request w tokens =
      if contains request.name context.allowed_tools
      then dispatch gate tools request w tokens
      else record {
        result = raise_app ErrorKind.permission "skill.tool_out_of_scope";
        executed = false;
        tokens = tokens;
      }

-- `CancellationRegistry`
unfoldable pub register_invocation : String → Dict Bool → Dict Bool
register_invocation id tokens = insert id false tokens

unfoldable pub cancel_invocation : String → Dict Bool → Dict Bool
cancel_invocation id tokens = elim (lookup id tokens) [
  | none ↦ tokens
  | some _ ↦ insert id true tokens
]

unfoldable pub unregister_invocation : String → Dict Bool → Dict Bool
unregister_invocation = pop

-- How the task of the skill stands when `asyncio.wait` comes back.
pub data SkillEnd : Type 0 where
  pending broke : SkillEnd
  returned : (output : String) → SkillEnd
  failed : AppError → SkillEnd

-- What happens while the skill runs: the ids that `cancel` is called with, and how its task stands
-- when the wait is over. Invocation ids are unique; a pending task that is cancelled is taken to end
-- without another error.
pub record SkillRun : Type 0 where
  pub while_running : List String
  pub end : SkillEnd

pub record Invoked : Type 0 where
  pub result : Result String
  pub started : Bool
  pub invocations : Dict Bool

-- `_guarded` and the handlers of `_run`: the result wins over a cancellation, and a cancellation
-- over the timeout.
unfoldable pub run_skill : SkillEnd → Bool → Result String
run_skill (returned output) cancelled = ok output
run_skill (failed e) cancelled = err (app e)
run_skill broke cancelled = raise_app ErrorKind.internal "skill.failed"
run_skill pending cancelled =
    if cancelled
    then raise_app ErrorKind.cancelled "skill.cancelled"
    else err (app (app_error ErrorKind.timeout "skill.timeout" true no_cause))

abbrev pub is_cancelled : String → Dict Bool → Bool
is_cancelled id tokens = elim (lookup id tokens) [ none ↦ false | some b ↦ b ]

unfoldable pub cancel_invocations : List String → Dict Bool → Dict Bool
unfolding cancel_invocation
cancel_invocations [] tokens = tokens
cancel_invocations (id ∷ ids) tokens = cancel_invocations ids (cancel_invocation id tokens)

-- The `try` block and its `finally`.
abbrev pub bounded_run : String → SkillRun → Dict Bool → Invoked
bounded_run id run tokens =
    if is_cancelled id tokens
    then record {
      result = raise_app ErrorKind.cancelled "skill.cancelled";
      started = false;
      invocations = unregister_invocation id tokens;
    }
    else (let after = cancel_invocations run.while_running tokens in
        record {
          result = run_skill run.end (is_cancelled id after);
          started = true;
          invocations = unregister_invocation id after;
        })

unfoldable pub invoke :
    SkillRegistry → (skill_id invocation_id : String) → SkillRun → Dict Bool → Invoked
invoke skills skill_id invocation_id run tokens = elim (resolve_skill skill_id skills) [
  | err e ↦ record { result = err e; started = false; invocations = tokens }
  | ok skill ↦ bounded_run invocation_id run (register_invocation invocation_id tokens)
]
