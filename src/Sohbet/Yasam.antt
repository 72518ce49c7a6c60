-- ===== src/Sohbet/Yasam.antt =====
-- Conversations, their registry and their lifecycle: core/turkish_code/sohbet/oturum.py and
-- yasam.py.
pub mod Laws
use turkish_code.Base.{
  String, Bool, true, false, not, List, [], ◌∷◌, Option, none, some, if◌then◌else◌,
}
use turkish_code.Base.Dict.{Dict, lookup, insert, pop}
use turkish_code.Hata.{ErrorKind, Raised, Result, Done, ok, err, raise_app}
use turkish_code.Sohbet.Gecmis.{Turn, History, append_turn}

pub data ConversationState : Type 0 where
  opened suspended closed archived : ConversationState

pub record Conversation : Type 0 where
  pub id : String
  pub agent_id : String
  pub state : ConversationState
  pub history : History

abbrev pub ConversationRegistry : Type 0
ConversationRegistry = Dict Conversation

abbrev pub not_found : {A : Type 0} → Result A
not_found = raise_app ErrorKind.not_found "conversation.not_found"

unfoldable pub create : String → String → ConversationRegistry → Done × ConversationRegistry
create id agent_id cs = elim (lookup id cs) [
  | some _ ↦ (raise_app ErrorKind.conflict "conversation.duplicate", cs)
  | none ↦ (
    ok tt,
    insert id
        (record { id = id; agent_id = agent_id; state = ConversationState.opened; history = [] })
        cs,
  )
]

unfoldable pub delete : String → ConversationRegistry → Done × ConversationRegistry
delete id cs = elim (lookup id cs) [ none ↦ (not_found, cs) | some _ ↦ (ok tt, pop id cs) ]

-- `set_state` and `add_turn`: the conversation is shared, so the registry sees the change.
abbrev pub put_state : ConversationState → Conversation → Conversation
put_state target c = record c { state = target }

abbrev pub add_turn : Turn → Conversation → Conversation
add_turn turn c = record c { history = append_turn turn c.history }

-- `resolve`, `_require` and `set_state`.
abbrev pub move :
    String
    → (ConversationState → Bool)
    → ConversationState
    → ConversationRegistry
    → Done × ConversationRegistry
move id allowed target cs = elim (lookup id cs) [
  | none ↦ (not_found, cs)
  | some c ↦
      if allowed c.state
      then (ok tt, insert id (put_state target c) cs)
      else (raise_app ErrorKind.conflict "conversation.invalid_transition", cs)
]

abbrev pub is_open : ConversationState → Bool
is_open ConversationState.opened = true
is_open _ = false

abbrev pub is_suspended : ConversationState → Bool
is_suspended ConversationState.suspended = true
is_suspended _ = false

abbrev pub open_or_suspended : ConversationState → Bool
open_or_suspended ConversationState.opened = true
open_or_suspended ConversationState.suspended = true
open_or_suspended _ = false

abbrev pub not_archived : ConversationState → Bool
not_archived ConversationState.archived = false
not_archived _ = true

unfoldable pub suspend : String → ConversationRegistry → Done × ConversationRegistry
suspend id = move id is_open ConversationState.suspended

unfoldable pub resume : String → ConversationRegistry → Done × ConversationRegistry
resume id = move id is_suspended ConversationState.opened

unfoldable pub close : String → ConversationRegistry → Done × ConversationRegistry
close id = move id open_or_suspended ConversationState.closed

unfoldable pub archive : String → ConversationRegistry → Done × ConversationRegistry
archive id = move id not_archived ConversationState.archived
