-- ===== src/Ajanlar/Kayit.antt =====
-- The agent registry and the routing of a request to its agent:
-- core/turkish_code/ajanlar/kayit.py, `_resolve` of core/turkish_code/ajanlar/dagitici.py.
pub mod Laws
use turkish_code.Base.{[], String, ℕ, Bool, true, false, Option, none, some, if◌then◌else◌, str_eq}
use turkish_code.Base.Dict.{Dict, lookup, insert, is_some}
use turkish_code.Hata.{ErrorKind, Raised, key_error, Result, Done, ok, err, raise_app}

-- `AgentMetadata` of modeller.py, less what the registry and the dispatcher do not read.
pub record AgentMetadata : Type 0 where
  pub id : String
  pub role : String
  pub timeout_ms : ℕ

-- `AgentRegistry`; an agent is its metadata here.
pub record AgentRegistry : Type 0 where
  pub agents : Dict AgentMetadata
  pub default_id : Option String

abbrev pub new_registry : AgentRegistry
new_registry = record { agents = []; default_id = none }

abbrev agent_duplicate {ℓ} : {A : Type ℓ} → Result A
agent_duplicate = raise_app ErrorKind.conflict "agent.duplicate"

abbrev agent_not_found {ℓ} : {A : Type ℓ} → Result A
agent_not_found = raise_app ErrorKind.not_found "agent.not_found"

abbrev no_default {ℓ} : {A : Type ℓ} → Result A
no_default = raise_app ErrorKind.not_found "agent.no_default"

unfoldable pub register_agent : AgentMetadata → Bool → AgentRegistry → Done × AgentRegistry
register_agent a default s = elim (lookup a.id s.agents) [
  | some _ ↦ (agent_duplicate, s)
  | none ↦ (
    ok tt,
    record {
      agents = insert a.id a s.agents;
      default_id = if default then some a.id else s.default_id;
    },
  )
]

unfoldable pub resolve_agent : String → AgentRegistry → Result AgentMetadata
resolve_agent k s = elim (lookup k s.agents) [ none ↦ agent_not_found | some a ↦ ok a ]

unfoldable pub set_default : String → AgentRegistry → Done × AgentRegistry
set_default k s = elim (lookup k s.agents) [
  | none ↦ (agent_not_found, s)
  | some _ ↦ (ok tt, record { agents = s.agents; default_id = some k })
]

-- `default`, whose truth test takes an empty id for none.
unfoldable pub default_agent : AgentRegistry → Option AgentMetadata
default_agent s = elim s.default_id [
  | none ↦ none
  | some k ↦ if str_eq k "" then none else lookup k s.agents
]

-- `self._agents[k]`, where a key that is missing is a KeyError.
abbrev agent_at : String → AgentRegistry → Result AgentMetadata
agent_at k s = elim (lookup k s.agents) [ none ↦ err key_error | some a ↦ ok a ]

unfoldable pub resolve_default : AgentRegistry → Result AgentMetadata
resolve_default s = elim s.default_id [ none ↦ no_default | some k ↦ agent_at k s ]

-- `_resolve` of the dispatcher: the agent that is named, or the default one.
unfoldable pub route : String → AgentRegistry → Result AgentMetadata
route k s = if str_eq k "" then resolve_default s else resolve_agent k s
