-- ===== src/Ajanlar/Oturum.antt =====
-- The agent session: core/turkish_code/ajanlar/oturum.py. A method returns its result, or what it
-- raises, beside the session as it is then; what was written before a raise stays written.
pub mod Laws
pub mod History
use turkish_code.Base.{
  ℕ, String, Bool, true, false, List, [], ◌∷◌, ◌++◌, Option, none, some, if◌then◌else◌, str_eq,
  filter, ◌||◌,
}
use turkish_code.Base.Dict.{Dict, lookup, insert}
use turkish_code.Hata.{ErrorKind, Raised, value_error, Result, Done, ok, err, raise_app}
use turkish_code.Ajanlar.Modeller.{SessionState, ConversationTurn, RunState, RunRecord, is_active}
use turkish_code.Ajanlar.Modeller

-- `_conversation` is its list of turns; its session id is that of the session.
pub record AgentSession : Type 0 where
  pub session_id : String
  pub agent_id : String
  pub state : SessionState
  pub turns : List ConversationTurn
  pub runs : Dict RunRecord
  pub order : List String

abbrev pub new_session : (session_id agent_id : String) → AgentSession
new_session session_id agent_id = record {
  session_id = session_id;
  agent_id = agent_id;
  state = SessionState.created;
  turns = [];
  runs = [];
  order = [];
}

abbrev pub set_state : SessionState → AgentSession → AgentSession
set_state target s = record s { state = target }

-- `ConversationTurn(...)` refuses an empty text; `add_turn` appends.
unfoldable pub add_turn {ℓ} :
    {A : Type ℓ} → Modeller.TurnRole → String → A → AgentSession → Result A × AgentSession
add_turn role content result s =
    if str_eq content ""
    then (err value_error, s)
    else (ok result, record s { turns = s.turns ++ record { role = role; content = content } ∷ [] })

run_duplicate {ℓ} : {A : Type ℓ} → Result A
run_duplicate = raise_app ErrorKind.conflict "agent.run_duplicate"

run_not_found {ℓ} : {A : Type ℓ} → Result A
run_not_found = raise_app ErrorKind.not_found "agent.run_not_found"

abbrev pub pending_run : String → AgentSession → String → RunRecord
pending_run run_id s message = record {
  run_id = run_id;
  agent_id = s.agent_id;
  message = message;
  state = RunState.pending;
  output = none;
  error_code = none;
}

unfoldable pub open_run : (run_id message : String) → AgentSession → Result RunRecord × AgentSession
unfolding add_turn run_duplicate
open_run run_id message s = elim (lookup run_id s.runs) [
  | some _ ↦ (run_duplicate, s)
  | none ↦ add_turn Modeller.TurnRole.user message (pending_run run_id s message) (record s {
    runs = insert run_id (pending_run run_id s message) s.runs;
    order = s.order ++ run_id ∷ [];
  })
]

-- `_run`, and then the rest of a method on the record that it found.
abbrev with_run :
    String → (RunRecord → AgentSession → Done × AgentSession) → AgentSession → Done × AgentSession
with_run run_id rest s = elim (lookup run_id s.runs) [
  | none ↦ (run_not_found, s)
  | some r ↦ rest r s
]

-- The record is changed in place.
abbrev write_run : String → RunRecord → AgentSession → AgentSession
write_run run_id r s = record s { runs = insert run_id r s.runs }

unfoldable pub start_run : String → AgentSession → Done × AgentSession
unfolding run_not_found
start_run run_id =
    with_run run_id (λ r s. (ok tt, write_run run_id (record r { state = RunState.running }) s))

unfoldable pub complete_run : (run_id output : String) → AgentSession → Done × AgentSession
unfolding run_not_found add_turn
complete_run run_id output = with_run run_id λ r s.
    add_turn Modeller.TurnRole.agent output tt
      (write_run run_id (record r { state = RunState.completed; output = some output }) s)

unfoldable pub fail_run : (run_id error_code : String) → AgentSession → Done × AgentSession
unfolding run_not_found
fail_run run_id error_code = with_run run_id λ r s.
    (ok tt, write_run run_id (record r { state = RunState.failed; error_code = some error_code }) s)

-- Cancels the record if it is still active.
unfoldable pub cancel_record : RunRecord → RunRecord
cancel_record r = if is_active r then record r { state = RunState.cancelled } else r

unfoldable pub cancel_run : String → AgentSession → Done × AgentSession
unfolding run_not_found
cancel_run run_id = with_run run_id (λ r s. (ok tt, write_run run_id (cancel_record r) s))

-- `runs`: the records in the order in which they were opened.
unfoldable pub runs_in : List String → Dict RunRecord → Result (List RunRecord)
runs_in [] d = ok []
runs_in (k ∷ ks) d = elim (lookup k d) [
  | none ↦ err Raised.key_error
  | some r ↦ elim (runs_in ks d) [ ok rs ↦ ok (r ∷ rs) | err e ↦ err e ]
]

unfoldable pub active_runs : AgentSession → Result (List RunRecord)
active_runs s = elim (runs_in s.order s.runs) [ ok rs ↦ ok (filter is_active rs) | err e ↦ err e ]

-- The loop of `cancel_active_runs`, over the ids whose records it visits.
unfoldable pub cancel_each : List String → Dict RunRecord → Dict RunRecord
cancel_each [] d = d
cancel_each (k ∷ ks) d = elim (lookup k d) [
  | none ↦ cancel_each ks d
  | some r ↦ cancel_each ks (insert k (cancel_record r) d)
]

unfoldable pub cancel_active_runs : AgentSession → Done × AgentSession
cancel_active_runs s = elim (runs_in s.order s.runs) [
  | err e ↦ (err e, s)
  | ok rs ↦ (ok tt, record s { runs = cancel_each s.order s.runs })
]
