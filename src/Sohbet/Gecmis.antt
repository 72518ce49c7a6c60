-- ===== src/Sohbet/Gecmis.antt =====
-- Messages, turns, histories and the context of a turn: core/turkish_code/sohbet/modeller.py,
-- gecmis.py and baglam.py. A turn id is the pair that its text is made of.
pub mod Laws
use turkish_code.Base.{
  ℕ, zero, suc, ◌-◌, String, Bool, true, false, List, [], ◌∷◌, ◌++◌, Option, none, some, map,
  if◌then◌else◌, leb, length, drop, str_eq,
}
use turkish_code.Hata.{Raised, Result, ok, err, ◌>>=◌}
use Prim.Native.String.{◌++◌ as str_append}

pub data Role : Type 0 where
  user agent system : Role

pub record Message : Type 0 where
  pub role : Role
  pub content : String

abbrev pub TurnId : Type 0
TurnId = String × ℕ

pub record Turn : Type 0 where
  pub turn_id : TurnId
  pub user : Message
  pub agent : Message

unfoldable pub make_message : Role → String → Result Message
make_message role content =
    if str_eq content ""
    then err Raised.value_error
    else ok (record { role = role; content = content })

-- The turn of the engine, whose messages have the right roles.
unfoldable pub make_turn : TurnId → (content output : String) → Result Turn
unfolding make_message
make_turn turn_id content output = make_message Role.user content >>= λ asked.
    make_message Role.agent output >>= λ answered.
    ok (record { turn_id = turn_id; user = asked; agent = answered })

-- `History` is its turns, the oldest first.
abbrev pub History : Type 0
History = List Turn

unfoldable pub append_turn : Turn → History → History
append_turn turn turns = turns ++ turn ∷ []

unfoldable pub last_turn : History → Option Turn
last_turn [] = none
last_turn (t ∷ []) = some t
last_turn (t ∷ u ∷ ts) = last_turn (u ∷ ts)

unfoldable pub window : ℕ → History → History
window size turns = if leb size 0 then [] else drop (length turns - size) turns

unfoldable pub messages : History → List Message
messages [] = []
messages (t ∷ ts) = t.user ∷ t.agent ∷ messages ts

pub record ConversationContext : Type 0 where
  pub conversation_id : String
  pub message : String
  pub history : List Message
  pub memory : List String
  pub system : Option String

abbrev role_text : Role → String
role_text user = "user"
role_text agent = "agent"
role_text system = "system"

-- `"\n".join(parts)`
abbrev pub join_lines : List String → String
join_lines [] = ""
join_lines (p ∷ []) = p
join_lines (p ∷ q ∷ ps) = str_append p (str_append "\n" (join_lines (q ∷ ps)))

abbrev memory_part : List String → List String
memory_part [] = []
memory_part (m ∷ ms) = str_append "İlgili hafıza:\n" (join_lines (m ∷ ms)) ∷ []

abbrev system_part : Option String → List String
system_part none = []
system_part (some s) = if str_eq s "" then [] else s ∷ []

abbrev message_part : Message → String
message_part m = str_append (role_text m.role) (str_append ": " m.content)

unfoldable pub render : ConversationContext → String
render c = join_lines (
    system_part c.system
    ++ memory_part c.memory
    ++ map message_part c.history
    ++ str_append "user: " c.message ∷ [])

-- `HistoryBuilder`; `recall` is the memory source, where there is one.
pub record HistoryBuilder : Type 0 where
  pub max_turns : ℕ
  pub memory_limit : ℕ
  pub system : Option String
  pub recall : Option (String → ℕ → Result (List String))

abbrev snippets : HistoryBuilder → String → Result (List String)
snippets b message = elim b.recall [
  | none ↦ ok []
  | some recall ↦ if leb b.memory_limit 0 then ok [] else recall message b.memory_limit
]

unfoldable pub build :
    HistoryBuilder → (id : String) → History → String → Result ConversationContext
unfolding window messages
build b id turns message = snippets b message >>= λ memory. ok (record {
  conversation_id = id;
  message = message;
  history = messages (window b.max_turns turns);
  memory = memory;
  system = b.system;
})
