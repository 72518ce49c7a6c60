-- ===== src/Araclar/Dagitici.antt =====
-- The tool dispatcher: core/turkish_code/araclar/dagitici.py, with iptal.py and hata.py.
pub mod Laws
use turkish_code.Base.{
  List, [], ◌∷◌, String, Bool, true, false, ◌||◌, Option, none, some, if◌then◌else◌,
}
use turkish_code.Base.Dict.{Dict, lookup, insert, pop}
use turkish_code.Hata.{
  ErrorKind, AppError, app_error, no_cause, app, Raised, Result, Done, ok, err, raise_app,
}
use turkish_code.Araclar.Izin.{PermissionRequest, Decision, allow}
use turkish_code.Araclar.Kayit.{Tool, ToolRegistry, resolve}

-- `CancellationRegistry`: each tracked call and whether its token is cancelled.
abbrev pub Tokens : Type 0
Tokens = Dict Bool

unfoldable pub track : String → Tokens → Tokens
track call_id tokens = insert call_id false tokens

unfoldable pub cancel : String → Tokens → Tokens
cancel call_id tokens = elim (lookup call_id tokens) [
  | none ↦ tokens
  | some _ ↦ insert call_id true tokens
]

unfoldable pub untrack : String → Tokens → Tokens
untrack = pop

pub record ToolRequest : Type 0 where
  pub name : String
  pub call_id : String

-- How the execution task stands when `asyncio.wait` comes back: still pending, done with a result,
-- with an AppError, or with another exception.
pub data Execution : Type 0 where
  pending : Execution
  succeeded : (output : String) → Execution
  failed : AppError → Execution
  broke : Execution

-- What the rest of the process does during one dispatch: the ids that `cancel` is called with
-- while the gate is awaited and while the tool runs, and how the execution stands when the wait is
-- over. Call ids are unique, so no other call tracks or untracks this id meanwhile. A pending
-- execution that is cancelled is taken to end without another error.
pub record World : Type 0 where
  pub while_gating : List String
  pub while_running : List String
  pub execution : Execution

-- What `dispatch` returns or raises, whether the tool's `execute` was started, and the tokens.
pub record Dispatched : Type 0 where
  pub result : Result String
  pub executed : Bool
  pub tokens : Tokens

tool_denied : Result String
tool_denied = raise_app ErrorKind.permission "tool.denied"

tool_cancelled : Result String
tool_cancelled = raise_app ErrorKind.cancelled "tool.cancelled"

tool_timeout : Result String
tool_timeout = err (app (app_error ErrorKind.timeout "tool.timeout" true no_cause))

tool_failed : Result String
tool_failed = raise_app ErrorKind.internal "tool.failed"

-- `_guarded` and the handlers of `_execute`: the execution wins over a cancellation, and a
-- cancellation over the timeout.
unfoldable pub execute : Execution → Bool → Result String
unfolding tool_cancelled tool_timeout tool_failed
execute (succeeded output) cancelled = ok output
execute (failed e) cancelled = err (app e)
execute broke cancelled = tool_failed
execute pending cancelled = if cancelled then tool_cancelled else tool_timeout

abbrev pub request_of : Tool → PermissionRequest
request_of t = record {
  tool = t.name;
  capability = t.capability;
  side_effect = t.side_effect;
  target = none;
}

abbrev is_allow : Decision → Bool
is_allow Decision.allow = true
is_allow _ = false

abbrev is_cancelled : String → Tokens → Bool
is_cancelled call_id tokens = elim (lookup call_id tokens) [ none ↦ false | some b ↦ b ]

unfoldable pub cancel_all : List String → Tokens → Tokens
unfolding cancel
cancel_all [] tokens = tokens
cancel_all (id ∷ ids) tokens = cancel_all ids (cancel id tokens)

module _ (gate : PermissionRequest → Decision) where
  -- `_execute` and the `finally` that unregisters the token.
  abbrev finish : ToolRequest → World → Tokens → Dispatched
  finish r w tokens = record {
    result = execute w.execution (is_cancelled r.call_id tokens);
    executed = true;
    tokens = untrack r.call_id tokens;
  }

  -- The `try` block behind the answer of the gate.
  abbrev guarded : Tool → ToolRequest → World → Tokens → Dispatched
  guarded t r w tokens =
      if is_allow (gate (request_of t))
      then if is_cancelled r.call_id tokens
        then record { result = tool_cancelled; executed = false; tokens = untrack r.call_id tokens }
        else finish r w (cancel_all w.while_running tokens)
      else record { result = tool_denied; executed = false; tokens = untrack r.call_id tokens }

  unfoldable pub dispatch : ToolRegistry → ToolRequest → World → Tokens → Dispatched
  unfolding tool_denied tool_cancelled
  dispatch tools r w tokens = elim (resolve r.name tools) [
    | err e ↦ record { result = err e; executed = false; tokens = tokens }
    | ok t ↦ guarded t r w (cancel_all w.while_gating (track r.call_id tokens))
  ]
