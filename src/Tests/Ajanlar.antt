-- ===== src/Tests/Ajanlar.antt =====
-- The sessions of core/turkish_code/ajanlar at concrete stores.
use turkish_code.Base.{none, String, ◌≡◌, refl, List, [], ◌∷◌, some, arith}
use turkish_code.Base.Dict.{lookup}
use turkish_code.Hata.{ok}
use turkish_code.Ajanlar.Kayit.{AgentMetadata, AgentRegistry}
use turkish_code.Ajanlar.Modeller.{SessionState, RunRecord}
use turkish_code.Ajanlar.Oturum
use turkish_code.Ajanlar.Oturum.{AgentSession, pending_run, cancel_record, set_state}
use turkish_code.Ajanlar.Oturum.Laws.{Method, IsValid}
use turkish_code.Ajanlar.Yasam.{Sessions}
use turkish_code.Ajanlar.Yasam.Laws.{Op, perform, moved, perform-outcome}
use turkish_code.Ajanlar.Yasam.Moves.{Event, AllValid}
use turkish_code.Ajanlar.Yasam.Runs.{history, history-AllValid, history-shutdown}
use turkish_code.Ajanlar.Dagitici.{AgentRequest}
use turkish_code.Ajanlar.Dagitici.Interleaving.{DispatchEvent}

abbrev fresh : AgentSession
fresh = Oturum.new_session "s1" "yonetici"

abbrev waiting : RunRecord
waiting = pending_run "r1" fresh "merhaba"

-- A running session with one run that is pending.
abbrev busy : AgentSession
busy = record fresh { state = SessionState.running; runs = ("r1", waiting) ∷ []; order = "r1" ∷ [] }

busy-IsValid : IsValid busy
unfolding lookup
busy-IsValid = record { known = λ j. ground arith; distinct = (refl, tt) }

abbrev down : AgentSession
down = set_state SessionState.shutdown fresh

down-IsValid : IsValid down
unfolding lookup
down-IsValid = record { known = λ j. refl; distinct = tt }

abbrev store_of : AgentSession → Sessions
store_of s = ("s1", s) ∷ []

store_of-AllValid : (s : AgentSession) → IsValid s → AllValid (store_of s)
unfolding lookup
store_of-AllValid s v j t here = ground (arith, v)

perform-outcome_example :
    ((perform Op.suspend "s1" (store_of busy)).0 ≡ ok tt)
    × (lookup "s1" (perform Op.suspend "s1" (store_of busy)).1 ≡ some (moved Op.suspend busy))
unfolding lookup
perform-outcome_example =
    perform-outcome Op.suspend "s1" "s1" busy (store_of busy) refl busy-IsValid

abbrev events : List Event
events =
    Event.drive Op.start "s1"
    ∷ Event.use_session (Method.open_run "r2" "selam") "s1"
    ∷ Event.create "s2" "yonetici"
    ∷ Event.set_raw SessionState.running "s2"
    ∷ Event.drive Op.shutdown "s1"
    ∷ []

history-AllValid_example : AllValid (history events (store_of busy))
history-AllValid_example =
    history-AllValid events (store_of busy) (store_of-AllValid busy busy-IsValid)

history-shutdown_example :
    (s' : AgentSession) × (lookup "s1" (history events (store_of down)) ≡ some s')
    × (s'.state ≡ SessionState.shutdown)
unfolding lookup
history-shutdown_example =
    history-shutdown events "s1" down (store_of down) (store_of-AllValid down down-IsValid) refl
      refl refl

abbrev manager : AgentMetadata
manager = record { id = "yonetici"; role = "orchestrator"; timeout_ms = 60000 }

abbrev agents : AgentRegistry
agents = record { agents = ("yonetici", manager) ∷ []; default_id = some "yonetici" }

abbrev asked : String → AgentRequest
asked run_id = record { agent_id = ""; run_id = run_id }

-- Another run begins and is cancelled, then this one is.
abbrev meanwhile : List DispatchEvent
meanwhile =
    DispatchEvent.begun (asked "r2") none
    ∷ DispatchEvent.cancelled "r2"
    ∷ DispatchEvent.cancelled "r1"
    ∷ []
