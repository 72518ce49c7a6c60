-- ===== src/Ajanlar/Dagitici/Interleaving.antt =====
-- The tokens of the runs in flight under core/turkish_code/ajanlar/dagitici.py, over the events that
-- may happen while a run is awaited.
use turkish_code.Base.{
  ℕ, ltb, ◌≡◌, refl, arith, String, Bool, true, false, inl, inr, List, [], ◌∷◌, Option, some,
  if◌then◌else◌, ◌⊎◌, subst, str_eq, eq_iff, Option-cases,
}
use turkish_code.Base.Dict.{lookup, lookup-insert, lookup-pop}
use turkish_code.Hata.{Raised, Result, ok, err}
use turkish_code.Ajanlar.Kayit.{AgentMetadata, AgentRegistry, route}
use turkish_code.Ajanlar.Dagitici.{
  started_of, AgentCancels, no_runs, track_run, cancel_run, untrack_run, AgentRequest, RunEnd,
  Started, started_of, begin_dispatch, end_dispatch,
}

-- What the process may do while a run is awaited: begin a dispatch, cancel a run, finish one.
pub data DispatchEvent : Type 0 where
  begun : AgentRequest → Option ℕ → DispatchEvent
  cancelled : String → DispatchEvent
  finished : (r : AgentRequest) → Started → RunEnd → DispatchEvent

abbrev pub happen : AgentRegistry → DispatchEvent → AgentCancels → AgentCancels
happen agents (begun r timeout_ms) s = (begin_dispatch agents r timeout_ms s).1
happen agents (cancelled run_id) s = cancel_run run_id s
happen agents (finished r started end) s = (end_dispatch r started end s).1

unfoldable pub happen_all : AgentRegistry → List DispatchEvent → AgentCancels → AgentCancels
happen_all agents [] s = s
happen_all agents (e ∷ es) s = happen_all agents es (happen agents e s)

-- Some event begins or finishes a dispatch under this run's id.
abbrev pub takes : String → DispatchEvent → Bool
takes id (begun r timeout_ms) = str_eq r.run_id id
takes id (cancelled run_id) = false
takes id (finished r started end) = str_eq r.run_id id

abbrev pub reused : String → List DispatchEvent → Bool
reused id [] = false
reused id (e ∷ es) = if takes id e then true else reused id es

-- Some event cancels this run.
abbrev pub cancels : String → DispatchEvent → Bool
cancels id (cancelled run_id) = str_eq run_id id
cancels id _ = false

abbrev pub cancelled_in : String → List DispatchEvent → Bool
cancelled_in id [] = false
cancelled_in id (e ∷ es) = if cancels id e then true else cancelled_in id es

-- The tokens in use have been handed out, and no two runs share one.
unfoldable pub IsDistinct : AgentCancels → Type 0
IsDistinct s =
    ((k : String) (t : ℕ) → lookup k s.tokens ≡ some t → ltb t s.next ≡ true)
    × ((j k : String) (t : ℕ) → lookup j s.tokens ≡ some t → lookup k s.tokens ≡ some t → j ≡ k)

Result-cases : {A : Type 0} (r : Result A) → ((a : A) × (r ≡ ok a)) ⊎ ((e : Raised) × (r ≡ err e))
Result-cases (ok a) = inl (a, refl)
Result-cases (err e) = inr (e, refl)

pub no_runs-IsDistinct : IsDistinct no_runs
unfolding IsDistinct lookup
no_runs-IsDistinct = (λ k t here. ground arith, λ j k t here there. ground arith)

pub track_run-IsDistinct :
    (id : String) (s : AgentCancels) → IsDistinct s → IsDistinct (track_run id s)
unfolding IsDistinct track_run
track_run-IsDistinct id s (below, own) = (
  λ k t here. ground (arith, lookup-insert id k s.next s.tokens, below k t),
  λ j k t here there. ground (
    arith,
    lookup-insert id j s.next s.tokens,
    lookup-insert id k s.next s.tokens,
    eq_iff id j,
    eq_iff id k,
    below j t,
    below k t,
    own j k t,
  ),
)

untrack_run-IsDistinct :
    (id : String) (s : AgentCancels) → IsDistinct s → IsDistinct (untrack_run id s)
unfolding IsDistinct untrack_run
untrack_run-IsDistinct id s (below, own) = (
  λ k t here. ground (arith, lookup-pop id k s.tokens, below k t),
  λ j k t here there. ground (arith, lookup-pop id j s.tokens, lookup-pop id k s.tokens, own j k t),
)

cancel_run-IsDistinct :
    (id : String) (s : AgentCancels) → IsDistinct s → IsDistinct (cancel_run id s)
unfolding IsDistinct cancel_run
cancel_run-IsDistinct id s h = elim (Option-cases (lookup id s.tokens)) [
  | inl absent ↦ rw (absent, cancel_run) h
  | inr (t, here) ↦ rw (here, cancel_run) h
]

-- A dispatch that is routed always gets as far as its run.
pub begin_dispatch-routed :
    (agents : AgentRegistry) (r : AgentRequest) (timeout_ms : Option ℕ) (s : AgentCancels)
    (a : AgentMetadata)
    → route r.agent_id agents ≡ ok a
    → begin_dispatch agents r timeout_ms s
      ≡ (ok (started_of a timeout_ms s.next), track_run r.run_id s)
unfolding begin_dispatch track_run
begin_dispatch-routed agents r timeout_ms s a routed = ground (arith, routed)

begin_dispatch-unrouted :
    (agents : AgentRegistry) (r : AgentRequest) (timeout_ms : Option ℕ) (s : AgentCancels)
    (e : Raised)
    → route r.agent_id agents ≡ err e
    → begin_dispatch agents r timeout_ms s ≡ (err e, s)
unfolding begin_dispatch
begin_dispatch-unrouted agents r timeout_ms s e lost = ground (arith, lost)

happen-IsDistinct :
    (agents : AgentRegistry) (e : DispatchEvent) (s : AgentCancels)
    → IsDistinct s
    → IsDistinct (happen agents e s)
unfolding end_dispatch
happen-IsDistinct agents (begun r timeout_ms) s h = elim (Result-cases (route r.agent_id agents)) [
  | inl (a, routed) ↦
      rw (begin_dispatch-routed agents r timeout_ms s a routed, happen)
        (track_run-IsDistinct r.run_id s h)
  | inr (e, lost) ↦ rw (begin_dispatch-unrouted agents r timeout_ms s e lost, happen) h
]
happen-IsDistinct agents (cancelled run_id) s h = cancel_run-IsDistinct run_id s h
happen-IsDistinct agents (finished r started end) s h = untrack_run-IsDistinct r.run_id s h

pub happen_all-IsDistinct :
    (agents : AgentRegistry) (es : List DispatchEvent) (s : AgentCancels)
    → IsDistinct s
    → IsDistinct (happen_all agents es s)
unfolding happen_all
happen_all-IsDistinct agents [] s h = h
happen_all-IsDistinct agents (e ∷ es) s h =
    happen_all-IsDistinct agents es (happen agents e s) (happen-IsDistinct agents e s h)

-- A run keeps its token, which is set as given.
abbrev pub Holds : String → ℕ → Bool → AgentCancels → Type 0
Holds id t set s = (lookup id s.tokens ≡ some t) × (s.is_set t ≡ set)

track_run-Holds :
    (id j : String) (t : ℕ) (set : Bool) (s : AgentCancels)
    → IsDistinct s
    → str_eq id j ≡ false
    → Holds j t set s
    → Holds j t set (track_run id s)
unfolding track_run IsDistinct
track_run-Holds id j t set s (below, own) other (here, is) = (
  ground (arith, lookup-insert id j s.next s.tokens, here, other),
  ground (arith, below j t here, is),
)

untrack_run-Holds :
    (id j : String) (t : ℕ) (set : Bool) (s : AgentCancels)
    → str_eq id j ≡ false
    → Holds j t set s
    → Holds j t set (untrack_run id s)
unfolding untrack_run
untrack_run-Holds id j t set s other (here, is) =
    (ground (arith, lookup-pop id j s.tokens, here, other), is)

cancel_run-Holds :
    (id j : String) (t : ℕ) (set : Bool) (s : AgentCancels)
    → IsDistinct s
    → Holds j t set s
    → Holds j t (if str_eq id j then true else set) (cancel_run id s)
unfolding cancel_run IsDistinct
cancel_run-Holds id j t set s (below, own) (here, is) = elim (Option-cases (lookup id s.tokens)) [
  | inl absent ↦ rw (absent, cancel_run) (here, ground (arith, eq_iff id j))
  | inr (u, there) ↦ rw (there, cancel_run) (here, ground (arith, eq_iff id j, own id j t))
]

happen-Holds :
    (agents : AgentRegistry) (e : DispatchEvent) (id : String) (t : ℕ) (set : Bool)
    (s : AgentCancels)
    → IsDistinct s
    → takes id e ≡ false
    → Holds id t set s
    → Holds id t (if cancels id e then true else set) (happen agents e s)
unfolding end_dispatch
happen-Holds agents (begun r timeout_ms) id t set s h other held =
    elim (Result-cases (route r.agent_id agents)) [
      | inl (a, routed) ↦
          rw (begin_dispatch-routed agents r timeout_ms s a routed, happen)
            (track_run-Holds r.run_id id t set s h other held)
      | inr (e, lost) ↦ rw (begin_dispatch-unrouted agents r timeout_ms s e lost, happen) held
    ]
happen-Holds agents (cancelled run_id) id t set s h other held =
    cancel_run-Holds run_id id t set s h held
happen-Holds agents (finished r started end) id t set s h other held =
    untrack_run-Holds r.run_id id t set s other held

pub happen_all-Holds :
    (agents : AgentRegistry) (es : List DispatchEvent) (id : String) (t : ℕ) (set : Bool)
    (s : AgentCancels)
    → IsDistinct s
    → reused id es ≡ false
    → Holds id t set s
    → Holds id t (if cancelled_in id es then true else set) (happen_all agents es s)
unfolding happen_all
happen_all-Holds agents [] id t set s h free held = held
happen_all-Holds agents (e ∷ es) id t set s h free held =
    subst (λ b. Holds id t b (happen_all agents es (happen agents e s))) (ground arith)
      (happen_all-Holds agents es id t (if cancels id e then true else set) (happen agents e s)
        (happen-IsDistinct agents e s h) (ground arith)
        (happen-Holds agents e id t set s h (ground arith) held))
