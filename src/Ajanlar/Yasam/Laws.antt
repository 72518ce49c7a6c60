-- ===== src/Ajanlar/Yasam/Laws.antt =====
-- The state machine of core/turkish_code/ajanlar/yasam.py.
use turkish_code.Base.{
  String, ◌≡◌, ap, ◌∙◌, Bool, true, false, some, if◌then◌else◌, str_eq, eq_iff, arith, ◌==◌,
}
use turkish_code.Base.Dict.{lookup, lookup-insert}
use turkish_code.Hata.{Done, ok}
use turkish_code.Ajanlar.Modeller.{SessionState}
use turkish_code.Ajanlar.Oturum.{AgentSession, set_state, cancel_active_runs}
use turkish_code.Ajanlar.Oturum.Laws.{IsValid, cancel_active_runs-cancels}
use turkish_code.Ajanlar.Yasam
use turkish_code.Ajanlar.Yasam.{Sessions, session_not_found, invalid_transition, number}

-- The calls that drive a session that is there.
pub data Op : Type 0 where
  start suspend resume stop shutdown : Op

unfoldable pub perform : Op → String → Sessions → Done × Sessions
perform start = Yasam.start
perform suspend = Yasam.suspend
perform resume = Yasam.resume
perform stop = Yasam.stop
perform shutdown = Yasam.shutdown

-- The transitions of the lifecycle, as the documentation lists them. `shutdown` of a session that
-- is shut down is the one call that is allowed and stays.
abbrev pub allowed : Op → SessionState → Bool
allowed start SessionState.created = true
allowed start SessionState.stopped = true
allowed suspend SessionState.running = true
allowed resume SessionState.suspended = true
allowed stop SessionState.running = true
allowed stop SessionState.suspended = true
allowed shutdown _ = true
allowed _ _ = false

abbrev pub target : Op → SessionState
target start = SessionState.running
target suspend = SessionState.suspended
target resume = SessionState.running
target stop = SessionState.stopped
target shutdown = SessionState.shutdown

-- The session after a call that is allowed.
abbrev pub moved : Op → AgentSession → AgentSession
moved stop s = set_state SessionState.stopped (cancel_active_runs s).1
moved shutdown s =
    if number s.state == number SessionState.shutdown
    then s
    else set_state SessionState.shutdown (cancel_active_runs s).1
moved op s = set_state (target op) s

-- On a valid session, a call succeeds exactly where the lifecycle allows it: the session is then
-- the moved one, and every other session is as it was. Where it is not allowed, the call is
-- refused as an invalid transition and every session is as it was.
pub perform-outcome :
    (op : Op) (k j : String) (s : AgentSession) (store : Sessions)
    → lookup k store ≡ some s
    → IsValid s
    → ((perform op k store).0 ≡ (if allowed op s.state then ok tt else invalid_transition))
      × (lookup j (perform op k store).1 ≡ (
          if allowed op s.state
          then (if str_eq k j then some (moved op s) else lookup j store)
          else lookup j store))
unfolding perform Yasam.start Yasam.suspend Yasam.resume Yasam.stop Yasam.shutdown
perform-outcome start k j s store here v = ground (arith, lookup-insert k j (moved start s) store)
perform-outcome suspend k j s store here v =
    ground (arith, lookup-insert k j (moved suspend s) store)
perform-outcome resume k j s store here v = ground (arith, lookup-insert k j (moved resume s) store)
perform-outcome stop k j s store here v =
    ground (arith, lookup-insert k j (moved stop s) store, (cancel_active_runs-cancels s v).0)
perform-outcome shutdown k j s store here v = ground (
  arith,
  lookup-insert k j (set_state SessionState.shutdown (cancel_active_runs s).1) store,
  (cancel_active_runs-cancels s v).0,
  eq_iff k j,
)

pub perform-refused :
    (op : Op) (k : String) (s : AgentSession) (store : Sessions)
    → lookup k store ≡ some s
    → allowed op s.state ≡ false
    → perform op k store ≡ (invalid_transition, store)
unfolding perform Yasam.start Yasam.suspend Yasam.resume Yasam.stop Yasam.shutdown
perform-refused start k s store here refused = ground arith
perform-refused suspend k s store here refused = ground arith
perform-refused resume k s store here refused = ground arith
perform-refused stop k s store here refused = ground arith
perform-refused shutdown k s store here refused = ground arith

pub perform-granted :
    (op : Op) (k j : String) (s : AgentSession) (store : Sessions)
    → lookup k store ≡ some s
    → IsValid s
    → allowed op s.state ≡ true
    → lookup j (perform op k store).1 ≡ (if str_eq k j then some (moved op s) else lookup j store)
perform-granted op k j s store here v granted =
    (perform-outcome op k j s store here v).1
    ∙ ap
        (λ b.
          if b then (if str_eq k j then some (moved op s) else lookup j store) else lookup j store)
        granted
