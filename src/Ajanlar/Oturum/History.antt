-- ===== src/Ajanlar/Oturum/History.antt =====
-- The conversation and the outcomes of runs in core/turkish_code/ajanlar/oturum.py.
use turkish_code.Base.{
  String, ◌≡◌, refl, sym, ap, ◌∙◌, true, false, List, [], ◌∷◌, ◌++◌, none, some, str_eq, eq_refl,
  filter, arith, Bool-cases, Option-cases, inl, inr, append-nil,
}
use turkish_code.Base.Dict.{Dict, lookup, insert, lookup-insert}
use turkish_code.Hata.{app_error, ErrorKind, no_cause, app, value_error, Result, ok, err}
use mathlib.Core.Option
use turkish_code.Ajanlar.Modeller
use turkish_code.Ajanlar.Modeller.{ConversationTurn, RunState, RunRecord, is_active}
use turkish_code.Ajanlar.Oturum
use turkish_code.Ajanlar.Oturum.{AgentSession, cancel_record, runs_in, cancel_each, pending_run}
use turkish_code.Ajanlar.Oturum.Laws.{
  Method, open_run, start_run, complete_run, fail_run, cancel_run, cancel_active_runs, call,
  IsValid, cancel_active_runs-cancels, call-IsValid, runs_in-known, not-is_active-cancel_record,
}

-- What a method may add to the conversation: nothing, or one turn with a text.
abbrev Added : List ConversationTurn → Type 0
Added [] = Unit
Added (t ∷ []) = str_eq t.content "" ≡ false
Added _ = ⊥

abbrev pub Extends : List ConversationTurn → List ConversationTurn → Type 0
Extends before after = (more : List ConversationTurn) × (after ≡ before ++ more) × Added more

same : (ts : List ConversationTurn) → Extends ts ts
same ts = ([], sym (append-nil ts), tt)

turns-add_turn {ℓ} :
    {A : Type ℓ} (role : Modeller.TurnRole) (content : String) (a : A) (s : AgentSession)
    → Extends s.turns (Oturum.add_turn role content a s).1.turns
unfolding Oturum.add_turn
turns-add_turn role content a s = elim (Bool-cases (str_eq content "")) [
  | inl empty ↦ rw empty (same s.turns)
  | inr text ↦ rw text (record { role = role; content = content } ∷ [], refl, text)
]

-- The conversation is append-only: a method adds nothing to it, or one turn at its end, whose text
-- is not empty.
turns-call : (m : Method) (s : AgentSession) → Extends s.turns (call m s).turns
unfolding call Oturum.open_run Oturum.start_run Oturum.complete_run Oturum.fail_run
    Oturum.cancel_run Oturum.cancel_active_runs
turns-call (open_run k message) s = elim (Option-cases (lookup k s.runs)) [
  | inr (r, here) ↦ rw (here, call, Oturum.open_run) (same s.turns)
  | inl absent ↦ rw (absent, call, Oturum.open_run) (turns-add_turn _ message _ _)
]
turns-call (start_run k) s = elim (Option-cases (lookup k s.runs)) [
  | inl absent ↦ rw (absent, call, Oturum.start_run) (same s.turns)
  | inr (r, here) ↦ rw (here, call, Oturum.start_run) (same s.turns)
]
turns-call (complete_run k output) s = elim (Option-cases (lookup k s.runs)) [
  | inl absent ↦ rw (absent, call, Oturum.complete_run) (same s.turns)
  | inr (r, here) ↦ rw (here, call, Oturum.complete_run) (turns-add_turn _ output _ _)
]
turns-call (fail_run k code) s = elim (Option-cases (lookup k s.runs)) [
  | inl absent ↦ rw (absent, call, Oturum.fail_run) (same s.turns)
  | inr (r, here) ↦ rw (here, call, Oturum.fail_run) (same s.turns)
]
turns-call (cancel_run k) s = elim (Option-cases (lookup k s.runs)) [
  | inl absent ↦ rw (absent, call, Oturum.cancel_run) (same s.turns)
  | inr (r, here) ↦ rw (here, call, Oturum.cancel_run) (same s.turns)
]
turns-call cancel_active_runs s = after (runs_in s.order s.runs) refl
  where
    after :
        (o : Result (List RunRecord))
        → runs_in s.order s.runs ≡ o
        → Extends s.turns (Oturum.cancel_active_runs s).1.turns
    after (err e) h = rw (h, Oturum.cancel_active_runs) (same s.turns)
    after (ok rs) h = rw (h, Oturum.cancel_active_runs) (same s.turns)

-- For an id that is not taken and an empty message, `open_run` raises ValueError, but the run stays
-- registered as pending, without a user turn, and a second attempt under its id is refused as a
-- duplicate.
open_run-empty :
    (k message : String) (s : AgentSession)
    → lookup k s.runs ≡ none
    → ((Oturum.open_run k "" s).0 ≡ err value_error)
      × (lookup k (Oturum.open_run k "" s).1.runs ≡ some (pending_run k s ""))
      × ((Oturum.open_run k "" s).1.turns ≡ s.turns)
      × ((Oturum.open_run k message (Oturum.open_run k "" s).1).0
          ≡ err (app (app_error ErrorKind.conflict "agent.run_duplicate" false no_cause)))
unfolding Oturum.open_run
open_run-empty k message s absent =
    ground (arith, lookup-insert k k (pending_run k s "") s.runs, eq_refl k)

-- A run that is cancelled while it is active, and then completed, ends as COMPLETED: the terminal
-- outcome CANCELLED does not hold.
complete_run-cancel_run :
    (k output : String) (s : AgentSession) (r : RunRecord)
    → lookup k s.runs ≡ some r
    → is_active r ≡ true
    → (lookup k (Oturum.cancel_run k s).1.runs ≡ some (record r { state = RunState.cancelled }))
      × (lookup k (Oturum.complete_run k output (Oturum.cancel_run k s).1).1.runs
          ≡ some (record r { state = RunState.completed; output = some output }))
unfolding Oturum.complete_run Oturum.cancel_run cancel_record
complete_run-cancel_run k output s r here active = ground (
  arith,
  lookup-insert k k (cancel_record r) s.runs,
  lookup-insert k k (record r { state = RunState.completed; output = some output })
      (insert k (cancel_record r) s.runs),
  eq_refl k,
)

filter-runs_in :
    (ks : List String) (d : Dict RunRecord) (rs : List RunRecord)
    → ((j : String) (r : RunRecord) → lookup j d ≡ some r → is_active r ≡ false)
    → runs_in ks d ≡ ok rs
    → filter is_active rs ≡ []
unfolding runs_in
filter-runs_in [] d rs idle h = ground arith
filter-runs_in (k ∷ ks) d [] idle h = refl
filter-runs_in (k ∷ ks) d (r ∷ rs) idle h =
    let ih = filter-runs_in ks d rs idle in ground (arith, ih, idle k r)

active_runs-filter :
    (s : AgentSession) (rs : List RunRecord)
    → runs_in s.order s.runs ≡ ok rs
    → Oturum.active_runs s ≡ ok (filter is_active rs)
unfolding Oturum.active_runs
active_runs-filter s rs h = rw (h, Oturum.active_runs)

-- After `cancel_active_runs` no run of a valid session is active.
pub active_runs-cancel_active_runs :
    (s : AgentSession) → IsValid s → Oturum.active_runs (Oturum.cancel_active_runs s).1 ≡ ok []
active_runs-cancel_active_runs s v =
    let w : IsValid (Oturum.cancel_active_runs s).1 =
      unfold call in call-IsValid cancel_active_runs s v in
    let after = (Oturum.cancel_active_runs s).1 in
    let (rs, e) = runs_in-known after.order after.runs (λ j m. sym (w.known j) ∙ m) in
    active_runs-filter after rs e ∙ ap ok (filter-runs_in after.order after.runs rs idle e)
  where
    idle :
        (j : String) (r : RunRecord)
        → lookup j (Oturum.cancel_active_runs s).1.runs ≡ some r
        → is_active r ≡ false
    idle j r here = elim (Option-cases (lookup j s.runs)) [
      | inl absent ↦ cc ((cancel_active_runs-cancels s v).1 j, ap (Option.map cancel_record) absent)
      | inr (r0, there) ↦
          let e : some r ≡ some (cancel_record r0) =
            sym here ∙ (cancel_active_runs-cancels s v).1 j ∙ ap (Option.map cancel_record) there in
          ground (arith, e, not-is_active-cancel_record r0)
    ]
