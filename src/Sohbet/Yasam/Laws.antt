-- ===== src/Sohbet/Yasam/Laws.antt =====
-- Laws of the conversations' lifecycle of core/turkish_code/sohbet/yasam.py.
use turkish_code.Base.{
  ◌≡◌, refl, ap, ◌∙◌, arith, String, Bool, false, inl, inr, List, [], ◌∷◌, some, str_eq, eq_iff,
  Bool-cases, Option-cases,
}
use turkish_code.Base.Dict.{lookup, lookup-insert}
use turkish_code.Hata.{Done}
use turkish_code.Sohbet.Yasam.{
  ConversationState, Conversation, ConversationRegistry, move, put_state, create, suspend, resume,
  close, archive,
}

-- A call of the lifecycle.
pub data Call : Type 0 where
  opens : String → String → Call
  suspends resumes closes archives : String → Call

abbrev call : Call → ConversationRegistry → Done × ConversationRegistry
call (opens id agent_id) cs = create id agent_id cs
call (suspends id) cs = suspend id cs
call (resumes id) cs = resume id cs
call (closes id) cs = close id cs
call (archives id) cs = archive id cs

-- What a sequence of calls leaves, whether they raise or not.
unfoldable pub run : List Call → ConversationRegistry → ConversationRegistry
run [] cs = cs
run (c ∷ later) cs = run later (call c cs).1

module _ (id : String) (c : Conversation) (ended : c.state ≡ ConversationState.archived) where
  -- A move that no archived conversation is allowed leaves this one.
  move-archived :
      (k : String) (allowed : ConversationState → Bool) (target : ConversationState)
      (cs : ConversationRegistry)
      → allowed ConversationState.archived ≡ false
      → lookup id cs ≡ some c
      → lookup id (move k allowed target cs).1 ≡ some c
  move-archived k allowed target cs refuses here = elim (Option-cases (lookup k cs)) [
    | inl absent ↦ rw (absent, move) here
    | inr (w, there) ↦ elim (Bool-cases (str_eq k id)) [
      | inl e ↦
          let same : w ≡ c = ground (arith, here, there, e, eq_iff k id) in
          let no : allowed w.state ≡ false =
            ap (λ (x : Conversation). allowed x.state) same ∙ ap allowed ended ∙ refuses in
          rw (there, move, no) here
      | inr e ↦ ground (arith, there, e, here, lookup-insert k id (put_state target w) cs)
    ]
  ]

  create-keeps :
      (k agent_id : String) (cs : ConversationRegistry)
      → lookup id cs ≡ some c
      → lookup id (create k agent_id cs).1 ≡ some c
  unfolding create
  create-keeps k agent_id cs here = elim (Option-cases (lookup k cs)) [
    | inr (w, there) ↦ rw (there, create) here
    | inl absent ↦
        let fresh : Conversation = record {
          id = k;
          agent_id = agent_id;
          state = ConversationState.opened;
          history = [];
        } in
        rw (absent, create) (ground (arith, absent, here, lookup-insert k id fresh cs, eq_iff k id))
  ]

  -- Whatever calls of the lifecycle follow, an archived conversation stays as it is, its history
  -- included.
  pub run-archived :
      (calls : List Call) (cs : ConversationRegistry)
      → lookup id cs ≡ some c
      → lookup id (run calls cs) ≡ some c
  unfolding run suspend resume close archive
  run-archived [] cs here = here
  run-archived (opens k agent_id ∷ later) cs here =
      run-archived later _ (create-keeps k agent_id cs here)
  run-archived (suspends k ∷ later) cs here =
      run-archived later _ (move-archived k _ _ cs refl here)
  run-archived (resumes k ∷ later) cs here = run-archived later _ (move-archived k _ _ cs refl here)
  run-archived (closes k ∷ later) cs here = run-archived later _ (move-archived k _ _ cs refl here)
  run-archived (archives k ∷ later) cs here =
      run-archived later _ (move-archived k _ _ cs refl here)
