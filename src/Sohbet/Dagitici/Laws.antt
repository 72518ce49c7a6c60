-- ===== src/Sohbet/Dagitici/Laws.antt =====
-- What a turn of core/turkish_code/sohbet/dagitici.py and motor.py leaves.
use turkish_code.Base.{
  [], ◌∷◌, ◌++◌, if◌then◌else◌, str_eq, ◌≡◌, refl, subst, arith, String, inl, inr, none, some,
  eq_refl, Bool-cases, Option-cases,
}
use turkish_code.Base.Dict.{lookup, lookup-insert, lookup-pop}
use turkish_code.Hata.{Result, ok, err, ◌>>=◌}
use turkish_code.Sohbet.Gecmis.{
  Role, append_turn, TurnId, Turn, HistoryBuilder, make_message, make_turn,
}
use turkish_code.Sohbet.Yasam.{
  Conversation, ConversationRegistry, ConversationState, is_open, add_turn,
}
use turkish_code.Sohbet.Dagitici.{
  ConversationDispatcher, Flight, begin_send, persist, settled, end_send, cancelled_turn, send,
}

-- The registry after a turn that returned or raised: the conversation was open and has the turn
-- behind its history, and every other conversation is as it was; or no conversation has changed.
abbrev pub Persisted :
    String → String → ConversationRegistry → ConversationRegistry → Result Turn → Type 0
Persisted key content before after (ok turn) =
    (c : Conversation) × (lookup key before ≡ some c)
    × (c.state ≡ ConversationState.opened)
    × (turn.user.content ≡ content)
    × (turn.user.role ≡ Role.user)
    × (turn.agent.role ≡ Role.agent)
    × ((j : String)
        → lookup j after ≡ (
            if str_eq key j
            then some (record c { history = c.history ++ turn ∷ [] })
            else lookup j before))
Persisted key content before after (err e) = after ≡ before

-- A turn that asks what was sent, and was answered by the agent.
abbrev IsAsked : String → Turn → Type 0
IsAsked content turn =
    (turn.user.content ≡ content) × (turn.user.role ≡ Role.user) × (turn.agent.role ≡ Role.agent)

make_turn-content :
    (id : TurnId) (content output : String) (turn : Turn)
    → make_turn id content output ≡ ok turn
    → IsAsked content turn
unfolding make_turn make_message
make_turn-content id content output turn h =
    (ground (arith, h), ground (arith, h), ground (arith, h))

lookup-persist :
    (key j : String) (turn : Turn) (cs : ConversationRegistry) (c : Conversation)
    → lookup key cs ≡ some c
    → lookup j (persist key turn cs)
      ≡ (if str_eq key j then some (record c { history = c.history ++ turn ∷ [] }) else lookup j cs)
unfolding persist append_turn
lookup-persist key j turn cs c here = rw (here, persist) (lookup-insert key j (add_turn turn c) cs)

settled-Persisted :
    (key content : String) (d : ConversationDispatcher) (c : Conversation) (r : Result Turn)
    → lookup key d.conversations ≡ some c
    → c.state ≡ ConversationState.opened
    → ((turn : Turn) → r ≡ ok turn → IsAsked content turn)
    → Persisted key content d.conversations (settled key d r).1.conversations (settled key d r).0
settled-Persisted key content d c (ok turn) here open_now same = (
  c,
  here,
  open_now,
  (same turn refl).0,
  (same turn refl).1,
  (same turn refl).2,
  λ j. lookup-persist key j turn d.conversations c here,
)
settled-Persisted key content d c (err e) here open_now same = refl

answered-content :
    (id : TurnId) (content : String) (answer : Result String) (turn : Turn)
    → (answer >>= λ output. make_turn id content output) ≡ ok turn
    → IsAsked content turn
answered-content id content (ok output) turn h = make_turn-content id content output turn h
answered-content id content (err e) turn h = ground (arith, h)

module _ (builder : HistoryBuilder) (agent : String → String → Result String) where
  -- A send either returns a turn: then the conversation was open, the turn has the message that
  -- was sent as the user's and one of the agent, its history is now the earlier one with this turn
  -- behind it, and every other conversation is as it was. Or it raises, and then no conversation
  -- has changed.
  pub send-Persisted :
      (key content : String) (d : ConversationDispatcher)
      → Persisted key content d.conversations
          (send builder agent key content d).1.conversations
          (send builder agent key content d).0
  unfolding send begin_send end_send
  send-Persisted key content d = elim (Option-cases (lookup key d.conversations)) [
    | inl absent ↦ rw (absent, send, begin_send) refl
    | inr (c, here) ↦ elim (Bool-cases (is_open c.state)) [
      | inr e ↦ rw (here, send, begin_send, e) refl
      | inl e ↦
          rw (here, send, begin_send, e)
            (settled-Persisted key content _ c _ here (ground (arith, e))
              (answered-content (key, d.counter) content _))
    ]
  ]

begin_send-active :
    (key content : String) (d after : ConversationDispatcher) (f : Flight)
    → begin_send key content d ≡ (ok f, after)
    → (f.key ≡ key) × (lookup key after.active ≡ some f.turn_id)
unfolding begin_send
begin_send-active key content d after f h = elim (Option-cases (lookup key d.conversations)) [
  | inl absent ↦ ground (arith, h, absent)
  | inr (c, here) ↦ elim (Bool-cases (is_open c.state)) [
    | inr e ↦ ground (arith, h, here, e)
    | inl e ↦
        let put = lookup-insert key key (key, d.counter) d.active in
        (ground (arith, h, here, e), ground (arith, h, here, e, put, eq_refl key))
  ]
]

settled-active :
    (key : String) (d : ConversationDispatcher) (r : Result Turn)
    → lookup key (settled key d r).1.active ≡ none
settled-active key d (ok turn) = ground (arith, lookup-pop key key d.active, eq_refl key)
settled-active key d (err e) = ground (arith, lookup-pop key key d.active, eq_refl key)

end_send-active :
    (f : Flight) (answer : Result String) (d : ConversationDispatcher)
    → lookup f.key (end_send f answer d).1.active ≡ none
unfolding end_send
end_send-active f answer d =
    settled-active f.key d (answer >>= λ output. make_turn f.turn_id f.content output)

-- A turn that has begun can be cancelled. But where a second turn of the same conversation begins
-- before the first has ended, the end of the first, however it ends, makes the second one's
-- cancellation do nothing, while it still awaits its agent.
pub end_send-cancelled_turn :
    (key first second : String) (d after later : ConversationDispatcher) (f g : Flight)
    (answer : Result String)
    → begin_send key first d ≡ (ok f, after)
    → begin_send key second after ≡ (ok g, later)
    → (cancelled_turn key later ≡ some g.turn_id)
      × (cancelled_turn key (end_send f answer later).1 ≡ none)
unfolding cancelled_turn
end_send-cancelled_turn key first second d after later f g answer one two =
    let begun = begin_send-active key first d after f one in
    (
      (begin_send-active key second after later g two).1,
      subst (λ k. lookup k (end_send f answer later).1.active ≡ none) begun.0
          (end_send-active f answer later),
    )
