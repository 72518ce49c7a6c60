-- ===== src/Sohbet/Gecmis/Laws.antt =====
-- The context window of core/turkish_code/sohbet/modeller.py and gecmis.py.
use turkish_code.Base.{
  List, subst, append-nil, ℕ, zero, suc, ◌-◌, ◌≡◌, refl, sym, ap, arith, String, inl, inr, [], ◌∷◌,
  ◌++◌, leb, length, drop, take, min, length-drop, Bool-cases,
}
use turkish_code.Hata.{ok}
use turkish_code.Sohbet.Gecmis.{
  Message, Turn, History, window, messages, HistoryBuilder, ConversationContext, build,
}

take-drop : (n : ℕ) (turns : History) → take n turns ++ drop n turns ≡ turns
take-drop zero turns = refl
take-drop (suc n) [] = refl
take-drop (suc n) (t ∷ ts) = ap (λ l. t ∷ l) (take-drop n ts)

drop-all : (turns : History) → drop (length turns) turns ≡ []
drop-all [] = refl
drop-all (t ∷ ts) = drop-all ts

window-suffix :
    (size : ℕ) (turns : History)
    → (older : History) × (turns ≡ older ++ window size turns)
      × (length (window size turns) ≡ min size (length turns))
unfolding window
window-suffix size turns = elim (Bool-cases (leb size 0)) [
  | inl e ↦ rw e (turns, sym (append-nil turns), ground (arith, e))
  | inr e ↦ rw e (
    take (length turns - size) turns,
    sym (take-drop (length turns - size) turns),
    omega (arith, length-drop (length turns - size) turns),
  )
]

-- The messages of the turns, in their order: of each the user's and then the agent's.
pub data IsDialogue : History → List Message → Type 0 where
  ended : IsDialogue [] []
  asked_answered :
      (t : Turn) (ts : History) (ms : List Message)
      → IsDialogue ts ms
      → IsDialogue (t ∷ ts) (t.user ∷ t.agent ∷ ms)

messages-IsDialogue : (turns : History) → IsDialogue turns (messages turns)
unfolding messages
messages-IsDialogue [] = ended
messages-IsDialogue (t ∷ ts) = asked_answered t ts (messages ts) (messages-IsDialogue ts)

-- What the context of a turn holds of the history.
abbrev pub HoldsRecent : HistoryBuilder → History → ConversationContext → Type 0
HoldsRecent b turns c =
    (older : History) × (recent : History) × (turns ≡ older ++ recent)
    × (length recent ≡ min b.max_turns (length turns))
    × IsDialogue recent c.history

-- The context that is built for a turn holds the messages of the most recent turns of the
-- conversation, of as many as the budget allows and there are, in their order: of each turn the
-- user's message and then the agent's.
pub build-HoldsRecent :
    (b : HistoryBuilder) (id : String) (turns : History) (message : String)
    (c : ConversationContext)
    → build b id turns message ≡ ok c
    → HoldsRecent b turns c
unfolding build
build-HoldsRecent b id turns message c h =
    let (older, splits, size) = window-suffix b.max_turns turns in
    let same : c.history ≡ messages (window b.max_turns turns) = ground (arith, h) in
    (
      older,
      window b.max_turns turns,
      splits,
      size,
      subst (IsDialogue (window b.max_turns turns)) (sym same)
          (messages-IsDialogue (window b.max_turns turns)),
    )
