-- ===== src/Yetenekler/Yasam.antt =====
-- The lifecycle of a skill: core/turkish_code/yetenekler/yasam.py.
pub mod Sound
pub mod Laws
use turkish_code.Base.{
  List, [], ◌∷◌, ◌∷◌, List, String, Bool, true, false, Option, none, some, if◌then◌else◌,
}
use turkish_code.Base.Dict.{Dict, lookup, insert, pop}
use turkish_code.Hata.{Raised, Result, Done, ok, err}
use turkish_code.Yetenekler.Kayit.{
  SkillMetadata, SkillState, SkillRegistry, register_skill, unregister_skill, skill_not_found,
  duplicate_skill,
}

-- `SkillLifecycle` and the registry that it shares with the dispatcher.
pub record SkillLifecycle : Type 0 where
  pub registry : SkillRegistry
  pub loaded : Dict SkillMetadata
  pub states : Dict SkillState

abbrev pub is_enabled_state : SkillState → Bool
is_enabled_state SkillState.enabled = true
is_enabled_state _ = false

abbrev pub is_failed_state : SkillState → Bool
is_failed_state SkillState.failed = true
is_failed_state _ = false

unfoldable pub load : SkillMetadata → SkillLifecycle → Done × SkillLifecycle
load skill l = elim (lookup skill.id l.loaded) [
  | some _ ↦ (duplicate_skill, l)
  | none ↦ (
    ok tt,
    record l {
      loaded = insert skill.id skill l.loaded;
      states = insert skill.id SkillState.disabled l.states;
    },
  )
]

module _ {A : Type 0} where
  -- `_require_loaded` and `self._states[skill_id]`, and what follows them.
  abbrev pub with_loaded :
      String
      → SkillLifecycle
      → (SkillMetadata → SkillState → Result A × SkillLifecycle)
      → Result A × SkillLifecycle
  with_loaded id l next = elim (lookup id l.loaded) [
    | none ↦ (skill_not_found, l)
    | some skill ↦ elim (lookup id l.states) [
      | none ↦ (err Raised.key_error, l)
      | some state ↦ next skill state
    ]
  ]

  -- A call of the registry, and what follows where it does not raise.
  abbrev pub then_go :
      (SkillRegistry → Result A × SkillLifecycle)
      → SkillLifecycle
      → Done × SkillRegistry
      → Result A × SkillLifecycle
  then_go next l (ok _, registry) = next registry
  then_go next l (err e, registry) = (err e, record l { registry = registry })

  -- `if ... is SkillState.ENABLED: self._registry.unregister(skill_id)`
  abbrev pub withdrawn :
      String
      → SkillLifecycle
      → SkillState
      → (SkillRegistry → Result A × SkillLifecycle)
      → Result A × SkillLifecycle
  withdrawn id l state next =
      if is_enabled_state state
      then then_go next l (unregister_skill id l.registry)
      else next l.registry

abbrev pub becomes : String → SkillState → SkillLifecycle → SkillRegistry → Done × SkillLifecycle
becomes id state l registry =
    (ok tt, record l { registry = registry; states = insert id state l.states })

unfoldable pub enable : String → SkillLifecycle → Done × SkillLifecycle
enable id l = with_loaded id l (λ skill state.
    if is_enabled_state state
    then (ok tt, l)
    else then_go (becomes id SkillState.enabled l) l (register_skill skill l.registry))

unfoldable pub disable : String → SkillLifecycle → Done × SkillLifecycle
disable id l =
    with_loaded id l (λ skill state. withdrawn id l state (becomes id SkillState.disabled l))

unfoldable pub mark_failed : String → SkillLifecycle → Done × SkillLifecycle
mark_failed id l =
    with_loaded id l (λ skill state. withdrawn id l state (becomes id SkillState.failed l))

unfoldable pub recover : String → SkillLifecycle → Done × SkillLifecycle
recover id l = with_loaded id l (λ skill state.
    if is_failed_state state then becomes id SkillState.disabled l l.registry else (ok tt, l))

unfoldable pub unload : String → SkillLifecycle → Result SkillMetadata × SkillLifecycle
unload id l = with_loaded id l (λ skill state. withdrawn id l state (λ registry.
    (ok skill, record { registry = registry; loaded = pop id l.loaded; states = pop id l.states })))

unfoldable pub state_of : String → SkillLifecycle → Result SkillState × SkillLifecycle
state_of id l = with_loaded id l (λ skill state. (ok state, l))

unfoldable pub is_enabled : String → SkillLifecycle → Bool
is_enabled id l = elim (lookup id l.states) [ none ↦ false | some state ↦ is_enabled_state state ]

-- A call of the lifecycle.
pub data Call : Type 0 where
  loads : SkillMetadata → Call
  enables disables marks_failed recovers unloads : String → Call

abbrev pub forget : Result SkillMetadata × SkillLifecycle → Done × SkillLifecycle
forget (ok _, l) = (ok tt, l)
forget (err e, l) = (err e, l)

abbrev pub call : Call → SkillLifecycle → Done × SkillLifecycle
call (loads skill) l = load skill l
call (enables id) l = enable id l
call (disables id) l = disable id l
call (marks_failed id) l = mark_failed id l
call (recovers id) l = recover id l
call (unloads id) l = forget (unload id l)

-- What a sequence of calls leaves, whether they raise or not.
unfoldable pub run : List Call → SkillLifecycle → SkillLifecycle
run [] l = l
run (c ∷ cs) l = run cs (call c l).1
