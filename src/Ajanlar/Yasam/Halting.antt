-- ===== src/Ajanlar/Yasam/Halting.antt =====
-- What `stop` and `shutdown` of core/turkish_code/ajanlar/yasam.py leave of a session's runs.
use turkish_code.Base.{
  String, ◌≡◌, ◌≢◌, refl, ◌∙◌, Bool, true, false, [], some, eq_refl, arith, ◌==◌,
}
use turkish_code.Base.Dict.{lookup}
use turkish_code.Hata.{ok}
use turkish_code.Ajanlar.Modeller.{SessionState}
use turkish_code.Ajanlar.Oturum
use turkish_code.Ajanlar.Oturum.{AgentSession, new_session, set_state, cancel_active_runs}
use turkish_code.Ajanlar.Oturum.Laws.{IsValid}
use turkish_code.Ajanlar.Oturum.History.{active_runs-cancel_active_runs}
use turkish_code.Ajanlar.Yasam.{Sessions, number}
use turkish_code.Ajanlar.Yasam.Laws.{
  Op, start, suspend, resume, stop, shutdown, perform, allowed, moved, perform-outcome,
}

active_runs-moved-stop : (s : AgentSession) → IsValid s → Oturum.active_runs (moved stop s) ≡ ok []
unfolding Oturum.active_runs
active_runs-moved-stop s v = active_runs-cancel_active_runs s v

active_runs-moved-shutdown :
    (s : AgentSession)
    → IsValid s
    → s.state ≢ SessionState.shutdown
    → Oturum.active_runs (moved shutdown s) ≡ ok []
unfolding Oturum.active_runs
active_runs-moved-shutdown s v up =
    let e : (number s.state == number SessionState.shutdown) ≡ false = ground arith in
    rw e (active_runs-cancel_active_runs s v)

-- The states in which a call halts the runs of a session.
abbrev halting : Op → SessionState → Bool
halting stop SessionState.running = true
halting stop SessionState.suspended = true
halting shutdown SessionState.shutdown = false
halting shutdown _ = true
halting _ _ = false

active_runs-moved :
    (op : Op) (s : AgentSession)
    → IsValid s
    → halting op s.state ≡ true
    → (allowed op s.state ≡ true) × (Oturum.active_runs (moved op s) ≡ ok [])
active_runs-moved stop s v h = (ground arith, active_runs-moved-stop s v)
active_runs-moved shutdown s v h = (refl, active_runs-moved-shutdown s v (ground arith))
active_runs-moved start s v h = absurd (ground arith)
active_runs-moved suspend s v h = absurd (ground arith)
active_runs-moved resume s v h = absurd (ground arith)

-- A valid session that `stop` or `shutdown` has just halted is in the store with no active run
-- left.
active_runs-halt :
    (op : Op) (k : String) (s : AgentSession) (store : Sessions)
    → lookup k store ≡ some s
    → IsValid s
    → halting op s.state ≡ true
    → (s' : AgentSession) × (lookup k (perform op k store).1 ≡ some s')
      × (Oturum.active_runs s' ≡ ok [])
active_runs-halt op k s store here v h =
    let (granted, idle) = active_runs-moved op s v h in
    (moved op s, (perform-outcome op k k s store here v).1 ∙ ground (arith, eq_refl k), idle)
