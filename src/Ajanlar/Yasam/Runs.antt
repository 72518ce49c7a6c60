-- ===== src/Ajanlar/Yasam/Runs.antt =====
-- Whole histories of a session store: lifecycle calls of core/turkish_code/ajanlar/yasam.py and
-- methods of the sessions of core/turkish_code/ajanlar/oturum.py, in any order.
use turkish_code.Base.{
  String, ◌≡◌, ◌⊎◌, inl, inr, refl, ◌∙◌, true, List, [], ◌∷◌, some, arith, false, Option-cases,
  subst,
}
use turkish_code.Base.Dict.{lookup}
use turkish_code.Ajanlar.Modeller.{SessionState}
use turkish_code.Ajanlar.Oturum.{AgentSession}
use turkish_code.Ajanlar.Oturum.Laws.{IsValid}
use turkish_code.Ajanlar.Yasam.{Sessions}
use turkish_code.Ajanlar.Yasam.Laws.{Op, shutdown, allowed, target}
use turkish_code.Ajanlar.Yasam.Moves.{
  Event, set_raw, step, set_raw_in, AllValid, step-Moves, step-new, set_raw-AllValid,
}

pub history : List Event → Sessions → Sessions
history [] store = store
history (e ∷ es) store = history es (step e store)

shutdown_edge :
    (s after : AgentSession)
    → (after.state ≡ s.state)
      ⊎ ((op : Op) × (allowed op s.state ≡ true) × (after.state ≡ target op))
    → s.state ≡ SessionState.shutdown
    → after.state ≡ SessionState.shutdown
shutdown_edge s after (inl e) down = e ∙ down
shutdown_edge s after (inr (shutdown, g, e)) down = e
shutdown_edge s after (inr (_, g, e)) down = ground arith

-- A session that an event leaves in the store is valid: it was created, or it was there before.
step-AllValid : (e : Event) (store : Sessions) → AllValid store → AllValid (step e store)
step-AllValid (set_raw target k) store all j s' found =
    set_raw-AllValid target k store all j s' found
step-AllValid e store all j s' found = elim (Option-cases (lookup j store)) [
  | inr (s, here) ↦
      let m = step-Moves e j s store all here refl in
      let same : m.after ≡ s' = cc (m.found, found) in subst IsValid same m.valid
  | inl absent ↦ step-new e j s' store all absent found
]

-- From a store of valid sessions, whatever is called on the store and its sessions, in any order,
-- the raw `set_state` included: every session of the store stays valid.
pub history-AllValid :
    (es : List Event) (store : Sessions) → AllValid store → AllValid (history es store)
unfolding history
history-AllValid [] store all = all
history-AllValid (e ∷ es) store all = history-AllValid es (step e store) (step-AllValid e store all)

-- SHUTDOWN is terminal, but for `set_state`, which checks nothing: from a store of valid sessions,
-- whatever is called afterwards, in any order, on the store and its sessions, except for a
-- `set_state` on this session from outside the lifecycle, a session that is SHUTDOWN stays in the
-- store and stays SHUTDOWN.
pub history-shutdown :
    (es : List Event) (j : String) (s : AgentSession) (store : Sessions)
    → AllValid store
    → lookup j store ≡ some s
    → s.state ≡ SessionState.shutdown
    → set_raw_in j es ≡ false
    → (s' : AgentSession) × (lookup j (history es store) ≡ some s')
      × (s'.state ≡ SessionState.shutdown)
unfolding history
history-shutdown [] j s store all here down tame = (s, here, down)
history-shutdown (e ∷ es) j s store all here down tame =
    let m = step-Moves e j s store all here (ground (arith, tame)) in
    history-shutdown es j m.after (step e store) (step-AllValid e store all) m.found
      (shutdown_edge s m.after m.edge down) (ground (arith, tame))
