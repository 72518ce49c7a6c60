-- ===== src/Ajanlar/Dagitici.antt =====
-- The agent dispatcher: core/turkish_code/ajanlar/dagitici.py, with iptal.py. A dispatch is the step
-- up to the await of the agent's run and the step behind it; other dispatches and cancellations run
-- in between.
pub mod Interleaving
pub mod Laws
use turkish_code.Base.{
  ℕ, suc, ◌==◌, String, Bool, true, false, List, [], ◌∷◌, Option, none, some, if◌then◌else◌,
}
use turkish_code.Base.Dict.{Dict, lookup, insert, pop}
use turkish_code.Hata.{
  ErrorKind, AppError, app_error, no_cause, app, Raised, Result, ok, err, raise_app,
}
use turkish_code.Ajanlar.Kayit.{AgentMetadata, AgentRegistry, route}

-- `CancellationRegistry`: the token of each run that is in flight, by its number, whether a token is
-- set, and the number of the next one.
pub record AgentCancels : Type 0 where
  pub tokens : Dict ℕ
  pub is_set : ℕ → Bool
  pub next : ℕ

abbrev pub no_runs : AgentCancels
no_runs = record { tokens = []; is_set = λ n. false; next = 0 }

abbrev put_token : ℕ → Bool → (ℕ → Bool) → ℕ → Bool
put_token t b is_set n = if n == t then b else is_set n

unfoldable pub track_run : String → AgentCancels → AgentCancels
track_run run_id s = record {
  tokens = insert run_id s.next s.tokens;
  is_set = put_token s.next false s.is_set;
  next = suc s.next;
}

unfoldable pub cancel_run : String → AgentCancels → AgentCancels
cancel_run run_id s = elim (lookup run_id s.tokens) [
  | none ↦ s
  | some t ↦ record { tokens = s.tokens; is_set = put_token t true s.is_set; next = s.next }
]

unfoldable pub untrack_run : String → AgentCancels → AgentCancels
untrack_run run_id s = record { tokens = pop run_id s.tokens; is_set = s.is_set; next = s.next }

-- `AgentRequest`, less what the dispatcher only hands on.
pub record AgentRequest : Type 0 where
  pub agent_id : String
  pub run_id : String

-- How the task of the run stands when `asyncio.wait` comes back: still pending, done with a
-- response, with an AppError or with another exception; or the dispatch itself was cancelled in the
-- wait. A pending task that is cancelled is taken to end without another error.
pub data RunEnd : Type 0 where
  pending broke interrupted : RunEnd
  returned : (output : String) → RunEnd
  failed : AppError → RunEnd

-- What a dispatch ends in; `cancelled_error` is asyncio's CancelledError.
pub data Outcome : Type 0 where
  response : (output : String) → Outcome
  raised : Raised → Outcome
  cancelled_error : Outcome

-- What the frame of `dispatch` holds while the run is awaited.
pub record Started : Type 0 where
  pub agent : AgentMetadata
  pub token : ℕ
  pub deadline_ms : ℕ

abbrev pub agent_error : ErrorKind → String → (retryable : Bool) → Raised
agent_error kind code retryable = app (app_error kind code retryable no_cause)

-- `_guarded` and the handlers of `_run`.
unfoldable pub run_agent : RunEnd → (cancelled : Bool) → Outcome
run_agent (returned output) cancelled = response output
run_agent (failed e) cancelled = raised (app e)
run_agent broke cancelled = raised (agent_error ErrorKind.internal "agent.failed" false)
run_agent interrupted cancelled = cancelled_error
run_agent pending cancelled =
    if cancelled
    then raised (agent_error ErrorKind.cancelled "agent.cancelled" false)
    else raised (agent_error ErrorKind.timeout "agent.timeout" true)

abbrev pub deadline_of : Option ℕ → AgentMetadata → ℕ
deadline_of none a = a.timeout_ms
deadline_of (some timeout_ms) a = timeout_ms

abbrev pub started_of : AgentMetadata → Option ℕ → (token : ℕ) → Started
started_of a timeout_ms token = record {
  agent = a;
  token = token;
  deadline_ms = deadline_of timeout_ms a;
}

-- The `try` block of `dispatch` up to the run.
abbrev pub start_run :
    AgentRequest → Option ℕ → AgentMetadata → ℕ → AgentCancels → Result Started × AgentCancels
start_run r timeout_ms a token s =
    if s.is_set token
    then (raise_app ErrorKind.cancelled "agent.cancelled", untrack_run r.run_id s)
    else (ok (started_of a timeout_ms token), s)

-- `dispatch` up to the await,
unfoldable pub begin_dispatch :
    AgentRegistry → AgentRequest → Option ℕ → AgentCancels → Result Started × AgentCancels
begin_dispatch agents r timeout_ms s = elim (route r.agent_id agents) [
  | err e ↦ (err e, s)
  | ok a ↦ start_run r timeout_ms a s.next (track_run r.run_id s)
]

-- and behind it, with the `finally`.
unfoldable pub end_dispatch :
    AgentRequest → Started → RunEnd → AgentCancels → Outcome × AgentCancels
end_dispatch r started end s = (run_agent end (s.is_set started.token), untrack_run r.run_id s)
