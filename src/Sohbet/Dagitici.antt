-- ===== src/Sohbet/Dagitici.antt =====
-- A turn of a conversation: core/turkish_code/sohbet/dagitici.py and motor.py. What the agent
-- runtime gives for a prompt is a parameter. No conversation is deleted while its turn is in flight.
pub mod Laws
use turkish_code.Base.{
  ℕ, ◌+◌, String, Bool, true, false, List, [], ◌∷◌, ◌++◌, Option, none, some, if◌then◌else◌,
}
use turkish_code.Base.Dict.{Dict, lookup, insert, pop}
use turkish_code.Hata.{ErrorKind, Raised, Result, ok, err, raise_app, ◌>>=◌}
use turkish_code.Sohbet.Gecmis.{
  TurnId, Turn, History, HistoryBuilder, ConversationContext, make_turn, build, render,
}
use turkish_code.Sohbet.Yasam.{Conversation, ConversationRegistry, is_open, not_found, add_turn}

-- `ConversationDispatcher` over the registry; `counter` is what `next` gives next.
pub record ConversationDispatcher : Type 0 where
  pub conversations : ConversationRegistry
  pub active : Dict TurnId
  pub counter : ℕ

-- A turn that awaits its agent.
pub record Flight : Type 0 where
  pub key : String
  pub turn_id : TurnId
  pub content : String

-- `send` until it awaits the engine.
unfoldable pub begin_send :
    String → String → ConversationDispatcher → Result Flight × ConversationDispatcher
begin_send key content d = elim (lookup key d.conversations) [
  | none ↦ (not_found, d)
  | some c ↦
      if is_open c.state
      then (
        ok (record { key = key; turn_id = (key, d.counter); content = content }),
        record d { active = insert key (key, d.counter) d.active; counter = d.counter + 1 },
      )
      else (raise_app ErrorKind.conflict "conversation.not_open", d)
]

-- `conversation.add_turn(turn)`
unfoldable pub persist : String → Turn → ConversationRegistry → ConversationRegistry
persist key turn cs = elim (lookup key cs) [ none ↦ cs | some c ↦ insert key (add_turn turn c) cs ]

abbrev pub settled :
    String → ConversationDispatcher → Result Turn → Result Turn × ConversationDispatcher
settled key d (ok turn) = (
  ok turn,
  record d { conversations = persist key turn d.conversations; active = pop key d.active },
)
settled key d (err e) = (err e, record d { active = pop key d.active })

-- The engine from the agent's answer on, and the `finally` of `send`.
unfoldable pub end_send :
    Flight → Result String → ConversationDispatcher → Result Turn × ConversationDispatcher
unfolding persist
end_send f answer d = settled f.key d (answer >>= λ output. make_turn f.turn_id f.content output)

-- `cancel`: the turn that the agents' dispatcher is told to cancel, if any.
unfoldable pub cancelled_turn : String → ConversationDispatcher → Option TurnId
cancelled_turn key d = lookup key d.active

module _ (builder : HistoryBuilder) (agent : String → (prompt : String) → Result String) where
  -- The engine up to the agent's answer.
  unfoldable pub ask : String → String → ConversationRegistry → Result String
  ask key content cs = elim (lookup key cs) [
    | none ↦ not_found
    | some c ↦ build builder c.id c.history content >>= λ context. agent c.agent_id (render context)
  ]

  abbrev pub after_begin :
      String
      → String
      → Result Flight × ConversationDispatcher
      → Result Turn × ConversationDispatcher
  after_begin key content (ok f, d) = end_send f (ask key content d.conversations) d
  after_begin key content (err e, d) = (err e, d)

  -- A whole `send` that nothing interrupts.
  unfoldable pub send :
      String → String → ConversationDispatcher → Result Turn × ConversationDispatcher
  send key content d = after_begin key content (begin_send key content d)
