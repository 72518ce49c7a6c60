-- ===== src/Tests/Sohbet.antt =====
-- The conversations of core/turkish_code/sohbet with one concrete conversation.
use turkish_code.Base.{ℕ, ◌≡◌, refl, String, [], ◌∷◌, none, some}
use turkish_code.Base.Dict.{lookup, insert}
use turkish_code.Hata.{Result, ok}
use turkish_code.Sohbet.Gecmis.{
  Role, Turn, window, messages, HistoryBuilder, ConversationContext, build,
}
use turkish_code.Sohbet.Gecmis.Laws.{HoldsRecent, build-HoldsRecent}
use turkish_code.Sohbet.Yasam.{ConversationState, Conversation}
use turkish_code.Sohbet.Yasam.Laws.{resumes, opens, closes, run, run-archived}
use turkish_code.Sohbet.Dagitici.{
  ConversationDispatcher, Flight, begin_send, end_send, cancelled_turn, send,
}
use turkish_code.Sohbet.Dagitici.Laws.{Persisted, send-Persisted, end_send-cancelled_turn}

abbrev talk : Conversation
talk = record { id = "k1"; agent_id = "a1"; state = ConversationState.opened; history = [] }

abbrev dispatcher : ConversationDispatcher
dispatcher = record { conversations = ("k1", talk) ∷ []; active = []; counter = 0 }

abbrev builder : HistoryBuilder
builder = record { max_turns = 10; memory_limit = 5; system = none; recall = none }

abbrev echo : String → String → Result String
echo agent_id prompt = ok prompt

send-Persisted_example :
    Persisted "k1" "merhaba" dispatcher.conversations
      (send builder echo "k1" "merhaba" dispatcher).1.conversations
      (send builder echo "k1" "merhaba" dispatcher).0
send-Persisted_example = send-Persisted builder echo "k1" "merhaba" dispatcher

abbrev first_flight : Flight
first_flight = record { key = "k1"; turn_id = ("k1", 0); content = "bir" }

abbrev second_flight : Flight
second_flight = record { key = "k1"; turn_id = ("k1", 1); content = "iki" }

abbrev after_first : ConversationDispatcher
after_first = record dispatcher { active = ("k1", ("k1", 0)) ∷ []; counter = 1 }

abbrev after_second : ConversationDispatcher
after_second = record dispatcher { active = ("k1", ("k1", 1)) ∷ []; counter = 2 }

end_send-cancelled_turn_example :
    (cancelled_turn "k1" after_second ≡ some ("k1", 1))
    × (cancelled_turn "k1" (end_send first_flight (ok "yanıt") after_second).1 ≡ none)
unfolding begin_send lookup insert
end_send-cancelled_turn_example =
    end_send-cancelled_turn "k1" "bir" "iki" dispatcher after_first after_second first_flight
      second_flight (ok "yanıt") refl refl

abbrev kept : Conversation
kept = record talk { state = ConversationState.archived }

run-archived_example :
    lookup "k1" (run (resumes "k1" ∷ opens "k1" "a2" ∷ closes "k1" ∷ []) (("k1", kept) ∷ []))
    ≡ some kept
unfolding lookup
run-archived_example =
    run-archived "k1" kept refl (resumes "k1" ∷ opens "k1" "a2" ∷ closes "k1" ∷ [])
      (("k1", kept) ∷ []) refl

abbrev turn_of : ℕ → String → String → Turn
turn_of n question answer = record {
  turn_id = ("k1", n);
  user = record { role = Role.user; content = question };
  agent = record { role = Role.agent; content = answer };
}

abbrev short_builder : HistoryBuilder
short_builder = record { max_turns = 1; memory_limit = 5; system = none; recall = none }

abbrev context : ConversationContext
context = record {
  conversation_id = "k1";
  message = "merhaba";
  history =
      record { role = Role.user; content = "iki" }
      ∷ record { role = Role.agent; content = "yanıt iki" }
      ∷ [];
  memory = [];
  system = none;
}

build-HoldsRecent_example :
    HoldsRecent short_builder
      (turn_of 0 "bir" "yanıt bir" ∷ turn_of 1 "iki" "yanıt iki" ∷ [])
      context
unfolding build window messages
build-HoldsRecent_example =
    build-HoldsRecent short_builder "k1"
      (turn_of 0 "bir" "yanıt bir" ∷ turn_of 1 "iki" "yanıt iki" ∷ []) "merhaba" context refl
