-- ===== src/Ajanlar/Oturum/Laws.antt =====
-- Laws of the methods of core/turkish_code/ajanlar/oturum.py.
use turkish_code.Base.{
  String, ◌≡◌, refl, sym, ◌∙◌, true, false, List, [], ◌∷◌, ◌++◌, none, some, if◌then◌else◌, str_eq,
  eq_iff, eq_refl, arith, Bool-cases, Option-cases, inl, inr,
}
use mathlib.Core.Option
use turkish_code.Base.Dict.{Dict, lookup, insert, lookup-insert, contains, is_some}
use turkish_code.Hata.{Result, ok, err}
use turkish_code.Ajanlar.Modeller.{ConversationTurn, RunRecord, is_active}
use turkish_code.Ajanlar.Oturum
use turkish_code.Ajanlar.Oturum.{
  AgentSession, new_session, cancel_record, runs_in, cancel_each, pending_run,
}

-- A call of one of the methods that write to a session's runs or turns; `set_state`, which writes
-- neither, is an event of its own in Yasam/Runs.
pub data Method : Type 0 where
  open_run : (run_id message : String) → Method
  start_run : (run_id : String) → Method
  complete_run : (run_id output : String) → Method
  fail_run : (run_id error_code : String) → Method
  cancel_run : (run_id : String) → Method
  cancel_active_runs : Method

-- The session after the call, whether it returns or raises.
unfoldable pub call : Method → AgentSession → AgentSession
call (open_run run_id message) s = (Oturum.open_run run_id message s).1
call (start_run run_id) s = (Oturum.start_run run_id s).1
call (complete_run run_id output) s = (Oturum.complete_run run_id output s).1
call (fail_run run_id error_code) s = (Oturum.fail_run run_id error_code s).1
call (cancel_run run_id) s = (Oturum.cancel_run run_id s).1
call cancel_active_runs s = (Oturum.cancel_active_runs s).1

abbrev IsDistinct : List String → Type 0
IsDistinct [] = Unit
IsDistinct (k ∷ ks) = (contains k ks ≡ false) × IsDistinct ks

-- `_order` lists the keys of `_runs`, each once.
pub record IsValid (s : AgentSession) : Type 0 where
  pub known : (j : String) → contains j s.order ≡ is_some (lookup j s.runs)
  pub distinct : IsDistinct s.order

contains-snoc :
    (j k : String) (ks : List String)
    → contains j (ks ++ k ∷ []) ≡ (if str_eq k j then true else contains j ks)
contains-snoc j k [] = refl
contains-snoc j k (i ∷ ks) = ground (arith, contains-snoc j k ks)

IsDistinct-snoc :
    (k : String) (ks : List String)
    → contains k ks ≡ false
    → IsDistinct ks
    → IsDistinct (ks ++ k ∷ [])
IsDistinct-snoc k [] h d = (refl, tt)
IsDistinct-snoc k (i ∷ ks) h d = (
  ground (arith, contains-snoc i k ks, eq_iff i k, eq_iff k i, d.0),
  IsDistinct-snoc k ks (ground arith) d.1,
)

-- A write to a run that is there keeps the keys.
is_some-insert :
    (k j : String) (r r' : RunRecord) (d : Dict RunRecord)
    → lookup k d ≡ some r
    → is_some (lookup j (insert k r' d)) ≡ is_some (lookup j d)
is_some-insert k j r r' d h = ground (arith, lookup-insert k j r' d, eq_iff k j)

is_some-cancel_each :
    (ks : List String) (j : String) (d : Dict RunRecord)
    → is_some (lookup j (cancel_each ks d)) ≡ is_some (lookup j d)
unfolding cancel_each
is_some-cancel_each [] j d = refl
is_some-cancel_each (k ∷ ks) j d = elim (Option-cases (lookup k d)) [
  | inl absent ↦ rw (absent, cancel_each) (is_some-cancel_each ks j d)
  | inr (r, here) ↦
      rw (here, cancel_each)
        (is_some-cancel_each ks j (insert k (cancel_record r) d)
          ∙ is_some-insert k j r (cancel_record r) d here)
]

IsValid-write :
    (k : String) (r r' : RunRecord) (s : AgentSession)
    → lookup k s.runs ≡ some r
    → IsValid s
    → IsValid (record s { runs = insert k r' s.runs })
IsValid-write k r r' s here v = record {
  known = λ j. v.known j ∙ sym (is_some-insert k j r r' s.runs here);
  distinct = v.distinct;
}

IsValid-open :
    (k : String) (r : RunRecord) (s : AgentSession)
    → lookup k s.runs ≡ none
    → IsValid s
    → IsValid (record s { runs = insert k r s.runs; order = s.order ++ k ∷ [] })
IsValid-open k r s absent v = record {
  known = λ j. ground (arith, contains-snoc j k s.order, lookup-insert k j r s.runs, v.known j);
  distinct = IsDistinct-snoc k s.order (ground (arith, v.known k)) v.distinct;
}

IsValid-turns :
    (ts : List ConversationTurn) (s : AgentSession) → IsValid s → IsValid (record s { turns = ts })
IsValid-turns ts s v = record { known = v.known; distinct = v.distinct }

-- Every method keeps the session's records and their order in step, also when it raises.
pub call-IsValid : (m : Method) (s : AgentSession) → IsValid s → IsValid (call m s)
unfolding call Oturum.open_run Oturum.start_run Oturum.complete_run Oturum.fail_run
    Oturum.cancel_run Oturum.cancel_active_runs
call-IsValid (open_run k message) s v = elim (Option-cases (lookup k s.runs)) [
  | inr (r, here) ↦ rw (here, call, Oturum.open_run) v
  | inl absent ↦
      rw (absent, call, Oturum.open_run)
        (elim (Bool-cases (str_eq message "")) [
          | inl empty ↦
              rw (empty, call, Oturum.open_run)
                (IsValid-open k (pending_run k s message) s absent v)
          | inr text ↦
              rw (text, call, Oturum.open_run)
                (IsValid-turns _ _ (IsValid-open k (pending_run k s message) s absent v))
        ])
]
call-IsValid (start_run k) s v = elim (Option-cases (lookup k s.runs)) [
  | inl absent ↦ rw (absent, call, Oturum.start_run) v
  | inr (r, here) ↦ rw (here, call, Oturum.start_run) (IsValid-write k r _ s here v)
]
call-IsValid (complete_run k output) s v = elim (Option-cases (lookup k s.runs)) [
  | inl absent ↦ rw (absent, call, Oturum.complete_run) v
  | inr (r, here) ↦
      rw (here, call, Oturum.complete_run)
        (elim (Bool-cases (str_eq output "")) [
          | inl empty ↦ rw (empty, call, Oturum.complete_run) (IsValid-write k r _ s here v)
          | inr text ↦
              rw (text, call, Oturum.complete_run)
                (IsValid-turns _ _ (IsValid-write k r _ s here v))
        ])
]
call-IsValid (fail_run k code) s v = elim (Option-cases (lookup k s.runs)) [
  | inl absent ↦ rw (absent, call, Oturum.fail_run) v
  | inr (r, here) ↦ rw (here, call, Oturum.fail_run) (IsValid-write k r _ s here v)
]
call-IsValid (cancel_run k) s v = elim (Option-cases (lookup k s.runs)) [
  | inl absent ↦ rw (absent, call, Oturum.cancel_run) v
  | inr (r, here) ↦ rw (here, call, Oturum.cancel_run) (IsValid-write k r _ s here v)
]
call-IsValid cancel_active_runs s v = after (runs_in s.order s.runs) refl
  where
    after :
        (o : Result (List RunRecord))
        → runs_in s.order s.runs ≡ o
        → IsValid (Oturum.cancel_active_runs s).1
    after (err e) h = rw (h, call, Oturum.cancel_active_runs) v
    after (ok rs) h =
        rw (h, call, Oturum.cancel_active_runs)
          (record {
            known = λ j. v.known j ∙ sym (is_some-cancel_each s.order j s.runs);
            distinct = v.distinct;
          })

-- `runs` finds every record: no KeyError.
pub runs_in-known :
    (ks : List String) (d : Dict RunRecord)
    → ((j : String) → contains j ks ≡ true → is_some (lookup j d) ≡ true)
    → (rs : List RunRecord) × (runs_in ks d ≡ ok rs)
unfolding runs_in
runs_in-known [] d h = ([], refl)
runs_in-known (k ∷ ks) d h =
    let (rs, e) = runs_in-known ks d (λ j m. h j (ground arith)) in
    elim (Option-cases (lookup k d)) [
      | inl absent ↦ ground (arith, h k (ground (arith, eq_refl k)))
      | inr (r, here) ↦ (r ∷ rs, ground arith)
    ]

cancel_record_idem : (r : RunRecord) → cancel_record (cancel_record r) ≡ cancel_record r
unfolding cancel_record
cancel_record_idem r = ground arith

lookup-cancel_each :
    (ks : List String) (j : String) (d : Dict RunRecord)
    → lookup j (cancel_each ks d)
      ≡ (if contains j ks then Option.map cancel_record (lookup j d) else lookup j d)
unfolding cancel_each
lookup-cancel_each [] j d = refl
lookup-cancel_each (k ∷ ks) j d = elim (Option-cases (lookup k d)) [
  | inl absent ↦ rw (absent, cancel_each) (lookup-cancel_each ks j d ∙ ground (arith, eq_iff k j))
  | inr (r, here) ↦
      rw (here, cancel_each)
        (lookup-cancel_each ks j (insert k (cancel_record r) d)
          ∙ ground (arith, lookup-insert k j (cancel_record r) d, eq_iff k j, cancel_record_idem r))
]

-- On a valid session `cancel_active_runs` returns, and replaces each record, whichever it is, by
-- its cancelled form: an active one becomes CANCELLED, a terminal one stays as it is.
pub cancel_active_runs-cancels :
    (s : AgentSession)
    → IsValid s
    → ((Oturum.cancel_active_runs s).0 ≡ ok tt)
      × ((j : String)
          → lookup j (Oturum.cancel_active_runs s).1.runs
            ≡ Option.map cancel_record (lookup j s.runs))
unfolding Oturum.cancel_active_runs
cancel_active_runs-cancels s v =
    let (rs, e) = runs_in-known s.order s.runs (λ j m. sym (v.known j) ∙ m) in
    (
      rw (e, Oturum.cancel_active_runs),
      λ j.
          rw (e, Oturum.cancel_active_runs)
            (lookup-cancel_each s.order j s.runs ∙ ground (arith, v.known j)),
    )

pub not-is_active-cancel_record : (r : RunRecord) → is_active (cancel_record r) ≡ false
unfolding cancel_record
not-is_active-cancel_record r = ground arith
