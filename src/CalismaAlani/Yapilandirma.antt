-- ===== src/CalismaAlani/Yapilandirma.antt =====
-- The configuration of a workspace: `WorkspaceConfig` and `migrate_config` of
-- core/turkish_code/calisma_alani/modeller.py. A negative number stands for itself.
pub mod Laws
use turkish_code.Base.{
  ℕ, String, Bool, true, false, List, [], ◌∷◌, Option, none, some, if◌then◌else◌, ltb,
}
use turkish_code.Base.Dict.{Dict, lookup, insert}
use turkish_code.Hata.{Raised, Result, ok, err, ◌>>=◌}

-- A Python value: a text, a number from 0 on or below 0, a truth value, or any other.
pub data Value : Type 0 where
  text : String → Value
  number : ℕ → Value
  below_zero : ℕ → Value
  truth : Bool → Value
  other_value : Value

pub record WorkspaceConfig : Type 0 where
  pub default_agent_id : String
  pub max_history_turns : ℕ
  pub memory_enabled : Bool
  pub version : ℕ

abbrev pub default_config_version : ℕ
default_config_version = 1

-- `migrated.setdefault("version", ...)` of a copy
unfoldable pub migrate_config : Dict Value → Dict Value
migrate_config raw = elim (lookup "version" raw) [
  | none ↦ insert "version" (number default_config_version) raw
  | some _ ↦ raw
]

abbrev pub value_or : String → Value → Dict Value → Value
value_or key default raw = elim (lookup key raw) [ none ↦ default | some v ↦ v ]

-- `isinstance` and what the field is checked for in `__post_init__`.
abbrev as_text : Value → Result String
as_text (text s) = ok s
as_text _ = err Raised.value_error

abbrev as_truth : Value → Result Bool
as_truth (truth b) = ok b
as_truth _ = err Raised.value_error

-- A number below 0 passes `isinstance` and is refused by `__post_init__`, as a ValueError too.
abbrev as_number : Value → Result ℕ
as_number (number n) = ok n
as_number _ = err Raised.value_error

unfoldable pub make_config : String → ℕ → Bool → ℕ → Result WorkspaceConfig
make_config agent turns memory version =
    if ltb version 1
    then err Raised.value_error
    else ok (record {
      default_agent_id = agent;
      max_history_turns = turns;
      memory_enabled = memory;
      version = version;
    })

unfoldable pub to_dict : WorkspaceConfig → Dict Value
to_dict c =
    ("default_agent_id", text c.default_agent_id)
    ∷ ("max_history_turns", number c.max_history_turns)
    ∷ ("memory_enabled", truth c.memory_enabled)
    ∷ ("version", number c.version)
    ∷ []

unfoldable pub from_dict : Dict Value → Result WorkspaceConfig
from_dict raw =
    let migrated = migrate_config raw in
    as_text (value_or "default_agent_id" (text "") migrated) >>= λ agent.
    as_number (value_or "max_history_turns" (number 10) migrated) >>= λ turns.
    as_truth (value_or "memory_enabled" (truth true) migrated) >>= λ memory.
    as_number (value_or "version" (number default_config_version) migrated) >>= λ version.
    make_config agent turns memory version
