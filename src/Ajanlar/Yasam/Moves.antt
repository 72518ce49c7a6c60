-- ===== src/Ajanlar/Yasam/Moves.antt =====
-- What one event does to a session store: lifecycle calls of core/turkish_code/ajanlar/yasam.py and
-- methods of the sessions of core/turkish_code/ajanlar/oturum.py.
use turkish_code.Base.{
  String, ◌≡◌, ◌⊎◌, inl, inr, refl, ap, ◌∙◌, true, List, [], ◌∷◌, Option, none, some, str_eq,
  eq_iff, arith, Bool, false, if◌then◌else◌, Bool-cases, Option-cases, ◌==◌, subst,
}
use turkish_code.Base.Dict.{lookup, insert, lookup-insert}
use turkish_code.Ajanlar.Modeller.{SessionState}
use turkish_code.Ajanlar.Oturum
use turkish_code.Ajanlar.Oturum.{AgentSession, new_session, set_state, cancel_active_runs}
use turkish_code.Ajanlar.Oturum.Laws
use turkish_code.Ajanlar.Oturum.Laws.{
  Method, IsValid, call, call-IsValid, cancel_active_runs-cancels,
}
use turkish_code.Ajanlar.Yasam
use turkish_code.Ajanlar.Yasam.{Sessions, session_not_found, invalid_transition, number}
use turkish_code.Ajanlar.Yasam.Laws.{
  Op, start, suspend, resume, stop, shutdown, perform, allowed, target, moved, perform-granted,
  perform-refused,
}

pub data Event : Type 0 where
  create : (session_id agent_id : String) → Event
  drive : Op → (session_id : String) → Event
  use_session : Method → (session_id : String) → Event
  set_raw : SessionState → (session_id : String) → Event

on_session : Method → String → Option AgentSession → Sessions → Sessions
on_session m k none store = store
on_session m k (some s) store = insert k (call m s) store

-- `set_state` on a session, which checks nothing.
pub raw_on_session : SessionState → String → Option AgentSession → Sessions → Sessions
raw_on_session target k none store = store
raw_on_session target k (some s) store = insert k (set_state target s) store

-- Somebody sets the state of this session past the lifecycle.
abbrev pub sets_raw : String → Event → Bool
sets_raw j (set_raw target k) = str_eq k j
sets_raw j _ = false

abbrev pub set_raw_in : String → List Event → Bool
set_raw_in j [] = false
set_raw_in j (e ∷ es) = if sets_raw j e then true else set_raw_in j es

pub step : Event → Sessions → Sessions
unfolding on_session raw_on_session
step (create k agent_id) store = (Yasam.create k agent_id store).1
step (drive op k) store = (perform op k store).1
step (use_session m k) store = on_session m k (lookup k store) store
step (set_raw target k) store = raw_on_session target k (lookup k store) store

abbrev pub AllValid : Sessions → Type 0
AllValid store = (j : String) (s : AgentSession) → lookup j store ≡ some s → IsValid s

new_session-IsValid : (k a : String) → IsValid (new_session k a)
unfolding lookup
new_session-IsValid k a = record { known = λ j. refl; distinct = tt }

moved-IsValid : (op : Op) (s : AgentSession) → IsValid s → IsValid (moved op s)
moved-IsValid start s v = record { known = v.known; distinct = v.distinct }
moved-IsValid suspend s v = record { known = v.known; distinct = v.distinct }
moved-IsValid resume s v = record { known = v.known; distinct = v.distinct }
moved-IsValid stop s v =
    let w = call-IsValid Laws.cancel_active_runs s v in
    unfold call in record { known = w.known; distinct = w.distinct }
moved-IsValid shutdown s v = elim (Bool-cases (number s.state == number SessionState.shutdown)) [
  | inl down ↦ rw down v
  | inr up ↦
      let w = call-IsValid Laws.cancel_active_runs s v in
      rw up (unfold call in record { known = w.known; distinct = w.distinct })
]

perform-missing :
    (op : Op) (k : String) (store : Sessions)
    → lookup k store ≡ none
    → perform op k store ≡ (session_not_found, store)
unfolding perform Yasam.start Yasam.suspend Yasam.resume Yasam.stop Yasam.shutdown
perform-missing start k store absent = ground arith
perform-missing suspend k store absent = ground arith
perform-missing resume k store absent = ground arith
perform-missing stop k store absent = ground arith
perform-missing shutdown k store absent = ground arith

state-call : (m : Method) (s : AgentSession) → (call m s).state ≡ s.state
unfolding call Oturum.open_run Oturum.start_run Oturum.complete_run Oturum.fail_run
    Oturum.cancel_run cancel_active_runs
state-call (Method.open_run k message) s = ground arith
state-call (Method.start_run k) s = ground arith
state-call (Method.complete_run k output) s = ground arith
state-call (Method.fail_run k code) s = ground arith
state-call (Method.cancel_run k) s = ground arith
state-call Method.cancel_active_runs s = ground arith

-- What one event may do to the session `s` under `j`: it stays there, valid, in the same state or in
-- the target of a call that its state allows.
pub record Moves (s : AgentSession) (j : String) (store : Sessions) : Type 0 where
  pub after : AgentSession
  pub found : lookup j store ≡ some after
  pub valid : IsValid after
  pub edge :
      (after.state ≡ s.state)
      ⊎ ((op : Op) × (allowed op s.state ≡ true) × (after.state ≡ target op))

stays :
    (s : AgentSession) (j : String) (store : Sessions)
    → lookup j store ≡ some s
    → IsValid s
    → Moves s j store
stays s j store here v = record { after = s; found = here; valid = v; edge = inl refl }

state-moved : (op : Op) (s : AgentSession) → (moved op s).state ≡ target op
state-moved shutdown s = ground arith
state-moved _ s = refl

granted-Moves :
    (op : Op) (k j : String) (s t : AgentSession) (store : Sessions)
    → AllValid store
    → lookup j store ≡ some s
    → lookup k store ≡ some t
    → allowed op t.state ≡ true
    → Moves s j (perform op k store).1
granted-Moves op k j s t store all here there granted =
    let after = perform-granted op k j t store there (all k t there) granted in
    elim (Bool-cases (str_eq k j)) [
      | inr other ↦ record {
        after = s;
        found = after ∙ ground arith;
        valid = all j s here;
        edge = inl refl;
      }
      | inl named ↦
          let same : t ≡ s = cc (here, there, (eq_iff k j).0 named) in
          record {
            after = moved op t;
            found = after ∙ ground arith;
            valid = moved-IsValid op t (all k t there);
            edge = inr (
              op,
              subst (λ (x : AgentSession). allowed op x.state ≡ true) same granted,
              state-moved op t,
            );
          }
    ]

drive-Moves :
    (op : Op) (k j : String) (s : AgentSession) (store : Sessions)
    → AllValid store
    → lookup j store ≡ some s
    → Moves s j (perform op k store).1
drive-Moves op k j s store all here = elim (Option-cases (lookup k store)) [
  | inl absent ↦ rw (perform-missing op k store absent) (stays s j store here (all j s here))
  | inr (t, there) ↦ elim (Bool-cases (allowed op t.state)) [
    | inr refused ↦
        rw (perform-refused op k t store there refused) (stays s j store here (all j s here))
    | inl granted ↦ granted-Moves op k j s t store all here there granted
  ]
]

-- A write under `k` of a valid session that is in the state of the one before it.
insert-Moves :
    (k j : String) (s t t' : AgentSession) (store : Sessions)
    → AllValid store
    → lookup j store ≡ some s
    → lookup k store ≡ some t
    → IsValid t'
    → t'.state ≡ t.state
    → Moves s j (insert k t' store)
insert-Moves k j s t t' store all here there v e = elim (Bool-cases (str_eq k j)) [
  | inr other ↦ record {
    after = s;
    found = lookup-insert k j t' store ∙ ground arith;
    valid = all j s here;
    edge = inl refl;
  }
  | inl named ↦
      let same : t ≡ s = cc (here, there, (eq_iff k j).0 named) in
      record {
        after = t';
        found = lookup-insert k j t' store ∙ ground arith;
        valid = v;
        edge = inl (e ∙ ap (λ (x : AgentSession). x.state) same);
      }
]

pub step-Moves :
    (e : Event) (j : String) (s : AgentSession) (store : Sessions)
    → AllValid store
    → lookup j store ≡ some s
    → sets_raw j e ≡ false
    → Moves s j (step e store)
unfolding step Yasam.create raw_on_session
step-Moves (set_raw target k) j s store all here other = elim (Option-cases (lookup k store)) [
  | inl absent ↦ rw (absent, step, raw_on_session) (stays s j store here (all j s here))
  | inr (t, there) ↦
      rw (there, step, raw_on_session)
        (record {
          after = s;
          found = lookup-insert k j (set_state target t) store ∙ ground (arith, other, here);
          valid = all j s here;
          edge = inl refl;
        })
]
step-Moves (drive op k) j s store all here tame = drive-Moves op k j s store all here
step-Moves (use_session m k) j s store all here tame = elim (Option-cases (lookup k store)) [
  | inl absent ↦ rw (absent, step, on_session) (stays s j store here (all j s here))
  | inr (t, there) ↦
      rw (there, step, on_session)
        (insert-Moves k j s t (call m t) store all here there (call-IsValid m t (all k t there))
          (state-call m t))
]
step-Moves (create k a) j s store all here tame = elim (Option-cases (lookup k store)) [
  | inr (t, there) ↦ rw (there, step, Yasam.create) (stays s j store here (all j s here))
  | inl absent ↦
      rw (absent, step, Yasam.create)
        (record {
          after = s;
          found = lookup-insert k j (new_session k a) store ∙ ground (arith, eq_iff k j);
          valid = all j s here;
          edge = inl refl;
        })
]

drive-new :
    (op : Op) (k j : String) (store : Sessions)
    → AllValid store
    → lookup j store ≡ none
    → lookup j (perform op k store).1 ≡ none
drive-new op k j store all absent = elim (Option-cases (lookup k store)) [
  | inl missing ↦ rw (perform-missing op k store missing) absent
  | inr (t, there) ↦ elim (Bool-cases (allowed op t.state)) [
    | inr refused ↦ rw (perform-refused op k t store there refused) absent
    | inl granted ↦
        perform-granted op k j t store there (all k t there) granted ∙ ground (arith, eq_iff k j)
  ]
]

pub step-new :
    (e : Event) (j : String) (s : AgentSession) (store : Sessions)
    → AllValid store
    → lookup j store ≡ none
    → lookup j (step e store) ≡ some s
    → IsValid s
unfolding step on_session raw_on_session Yasam.create
step-new (set_raw target k) j s store all absent found = elim (Option-cases (lookup k store)) [
  | inl missing ↦ ground arith
  | inr (t, there) ↦ ground (arith, lookup-insert k j (set_state target t) store, eq_iff k j)
]
step-new (drive op k) j s store all absent found = cc (found, drive-new op k j store all absent)
step-new (use_session m k) j s store all absent found = elim (Option-cases (lookup k store)) [
  | inl missing ↦ ground arith
  | inr (t, there) ↦ ground (arith, lookup-insert k j (call m t) store, eq_iff k j)
]
step-new (create k a) j s store all absent found = elim (Option-cases (lookup k store)) [
  | inr (t, there) ↦ ground arith
  | inl missing ↦
      let new : new_session k a ≡ s = ground (arith, lookup-insert k j (new_session k a) store) in
      subst IsValid new (new_session-IsValid k a)
]

-- Setting the state writes neither the runs nor their order.
pub set_raw-AllValid :
    (target : SessionState) (k : String) (store : Sessions)
    → AllValid store
    → AllValid (step (set_raw target k) store)
unfolding step raw_on_session
set_raw-AllValid target k store all j s' found = elim (Option-cases (lookup k store)) [
  | inl missing ↦ all j s' (ground (arith, found, missing))
  | inr (t, there) ↦ elim (Bool-cases (str_eq k j)) [
    | inr other ↦
        all j s' (ground (arith, found, there, lookup-insert k j (set_state target t) store, other))
    | inl named ↦
        let same : set_state target t ≡ s' =
          ground (arith, found, there, lookup-insert k j (set_state target t) store, named) in
        subst IsValid same
          (record { known = (all k t there).known; distinct = (all k t there).distinct })
  ]
]
