-- ===== src/Ajanlar/Modeller.antt =====
-- Value objects of the agent runtime: core/turkish_code/ajanlar/modeller.py and durum.py.
use turkish_code.Base.{String, Bool, true, false, Option}

pub data SessionState : Type 0 where
  created running suspended stopped shutdown : SessionState

pub data TurnRole : Type 0 where
  user agent : TurnRole

pub record ConversationTurn : Type 0 where
  pub role : TurnRole
  pub content : String

pub data RunState : Type 0 where
  pending running completed cancelled failed : RunState

pub record RunRecord : Type 0 where
  pub run_id : String
  pub agent_id : String
  pub message : String
  pub state : RunState
  pub output : Option String
  pub error_code : Option String

abbrev active_state : RunState → Bool
active_state RunState.pending = true
active_state RunState.running = true
active_state _ = false

abbrev pub is_active : RunRecord → Bool
is_active r = active_state r.state
