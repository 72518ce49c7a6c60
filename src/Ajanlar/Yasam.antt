-- ===== src/Ajanlar/Yasam.antt =====
-- The lifecycle of agent sessions: core/turkish_code/ajanlar/yasam.py. The store is the dictionary
-- of sessions; a session is an object of the store, changed in place.
pub mod Laws
pub mod Moves
pub mod Runs
pub mod Halting
use turkish_code.Base.{
  String, Bool, true, false, List, [], ◌∷◌, Option, none, some, if◌then◌else◌, ℕ, ◌==◌,
}
use turkish_code.Base.Dict.{Dict, lookup, insert}
use turkish_code.Hata.{ErrorKind, Raised, Result, Done, ok, err, raise_app}
use turkish_code.Ajanlar.Modeller.{SessionState}
use turkish_code.Ajanlar.Oturum.{AgentSession, new_session, set_state, cancel_active_runs}

abbrev pub Sessions : Type 0
Sessions = Dict AgentSession

pub session_not_found {ℓ} : {A : Type ℓ} → Result A
session_not_found = raise_app ErrorKind.not_found "agent.session_not_found"

pub session_duplicate {ℓ} : {A : Type ℓ} → Result A
session_duplicate = raise_app ErrorKind.conflict "agent.session_duplicate"

pub invalid_transition {ℓ} : {A : Type ℓ} → Result A
invalid_transition = raise_app ErrorKind.conflict "agent.invalid_transition"

unfoldable pub create : (session_id agent_id : String) → Sessions → Result AgentSession × Sessions
create session_id agent_id store = elim (lookup session_id store) [
  | some _ ↦ (session_duplicate, store)
  | none ↦ (
    ok (new_session session_id agent_id),
    insert session_id (new_session session_id agent_id) store,
  )
]

-- `resolve`, and then the rest of a method on the session that it found.
abbrev with_session :
    String → (AgentSession → Sessions → Done × Sessions) → Sessions → Done × Sessions
with_session session_id rest store = elim (lookup session_id store) [
  | none ↦ (session_not_found, store)
  | some s ↦ rest s store
]

abbrev pub number : SessionState → ℕ
number SessionState.created = 0
number SessionState.running = 1
number SessionState.suspended = 2
number SessionState.stopped = 3
number SessionState.shutdown = 4

abbrev is_in : SessionState → List SessionState → Bool
is_in s [] = false
is_in s (a ∷ allowed) = if number s == number a then true else is_in s allowed

-- `_require(session, allowed)`, and then `set_state(target)`.
abbrev transition : List SessionState → SessionState → String → Sessions → Done × Sessions
transition allowed target session_id = with_session session_id λ s store.
    if is_in s.state allowed
    then (ok tt, insert session_id (set_state target s) store)
    else (invalid_transition, store)

unfoldable pub start : String → Sessions → Done × Sessions
start = transition (SessionState.created ∷ SessionState.stopped ∷ []) SessionState.running

unfoldable pub suspend : String → Sessions → Done × Sessions
suspend = transition (SessionState.running ∷ []) SessionState.suspended

unfoldable pub resume : String → Sessions → Done × Sessions
resume = transition (SessionState.suspended ∷ []) SessionState.running

-- `cancel_active_runs()`, and then `set_state(target)`; what the former raises is passed on.
abbrev halt : SessionState → String → AgentSession → Sessions → Done × Sessions
halt target session_id s store = elim (cancel_active_runs s).0 [
  | err e ↦ (err e, insert session_id (cancel_active_runs s).1 store)
  | ok _ ↦ (ok tt, insert session_id (set_state target (cancel_active_runs s).1) store)
]

unfoldable pub stop : String → Sessions → Done × Sessions
stop session_id = with_session session_id λ s store.
    if is_in s.state (SessionState.running ∷ SessionState.suspended ∷ [])
    then halt SessionState.stopped session_id s store
    else (invalid_transition, store)

unfoldable pub shutdown : String → Sessions → Done × Sessions
shutdown session_id = with_session session_id λ s store.
    if number s.state == number SessionState.shutdown
    then (ok tt, store)
    else halt SessionState.shutdown session_id s store
