-- ===== src/Yetenekler/Yasam/Sound.antt =====
-- What stays true of the dicts of the skills' lifecycle of core/turkish_code/yetenekler/yasam.py.
use turkish_code.Base.{
  String, ◌≡◌, ◌≢◌, inl, inr, refl, sym, ap, ◌∙◌, subst, arith, true, false, Option, none, some,
  if◌then◌else◌, eq_iff, str_eq, Bool-cases, Option-cases,
}
use turkish_code.Base.Dict.{Dict, lookup, pop, lookup-insert, lookup-pop}
use turkish_code.Hata.{Raised, Result, err}
use turkish_code.Yetenekler.Kayit.{SkillMetadata, SkillState, SkillRegistry, unregister_skill}
use turkish_code.Yetenekler.Yasam.{
  becomes, with_loaded, withdrawn, SkillLifecycle, is_enabled_state, load,
}

-- What the three dicts hold under one id: the skill is loaded and has a state, and it is registered
-- exactly while this state is ENABLED; or nothing is there.
abbrev pub SoundAt :
    String → Option SkillMetadata → Option SkillState → Option SkillMetadata → Type 0
SoundAt id none none registered = registered ≡ none
SoundAt id (some skill) (some state) registered =
    (skill.id ≡ id) × (registered ≡ (if is_enabled_state state then some skill else none))
SoundAt id _ _ registered = true ≡ false

abbrev pub IsSound : SkillLifecycle → Type 0
IsSound l =
    (id : String) → SoundAt id (lookup id l.loaded) (lookup id l.states) (lookup id l.registry)

abbrev pub Keeps : {A : Type 0} → Result A × SkillLifecycle → Type 0
Keeps r = IsSound r.1 × (r.0 ≢ err Raised.key_error)

-- A dict that is changed at one key at most.
abbrev pub ChangedAt : {V : Type 0} → String → Option V → Dict V → Dict V → Type 0
ChangedAt key value before after =
    (id : String) → lookup id after ≡ (if str_eq key id then value else lookup id before)

pub unchanged : {V : Type 0} (key : String) (d : Dict V) → ChangedAt key (lookup key d) d d
unchanged key d id = ground (arith, eq_iff key id)

-- The lifecycle after a change at one id is sound if it is so at this id.
pub changed-IsSound :
    (key : String) (l after : SkillLifecycle) (skill registered : Option SkillMetadata)
    (state : Option SkillState)
    → IsSound l
    → SoundAt key skill state registered
    → ChangedAt key skill l.loaded after.loaded
    → ChangedAt key state l.states after.states
    → ChangedAt key registered l.registry after.registry
    → IsSound after
changed-IsSound key l after skill registered state sound at skills states registry id =
    elim (Bool-cases (str_eq key id)) [
      | inl e ↦ rw (skills id, states id, registry id, e, sym ((eq_iff key id).0 e)) at
      | inr e ↦ rw (skills id, states id, registry id, e) (sound id)
    ]

pub absent_at :
    (id : String) (state : Option SkillState) (registered : Option SkillMetadata)
    → SoundAt id none state registered
    → registered ≡ none
absent_at id none registered h = h
absent_at id (some state) registered h = ground (arith, h)

-- What is known of a loaded skill.
abbrev pub Known : String → SkillLifecycle → SkillMetadata → SkillState → Type 0
Known id l skill state =
    (lookup id l.states ≡ some state)
    × (skill.id ≡ id)
    × (lookup id l.registry ≡ (if is_enabled_state state then some skill else none))

pub known_at :
    (id : String) (skill : SkillMetadata) (state : Option SkillState)
    (registered : Option SkillMetadata)
    → SoundAt id (some skill) state registered
    → (s : SkillState) × (state ≡ some s)
      × (skill.id ≡ id)
      × (registered ≡ (if is_enabled_state s then some skill else none))
known_at id skill none registered h = ground (arith, h)
known_at id skill (some s) registered h = (s, refl, h.0, h.1)

pub known :
    (id : String) (l : SkillLifecycle) (skill : SkillMetadata)
    → IsSound l
    → lookup id l.loaded ≡ some skill
    → (s : SkillState) × Known id l skill s
known id l skill h here =
    let (s, a, b, c) =
      known_at id skill (lookup id l.states) (lookup id l.registry)
        (subst (λ x. SoundAt id x (lookup id l.states) (lookup id l.registry)) here (h id)) in
    (s, (a, b, c))

pub load-IsSound : (skill : SkillMetadata) (l : SkillLifecycle) → IsSound l → Keeps (load skill l)
unfolding load
load-IsSound skill l h = elim (Option-cases (lookup skill.id l.loaded)) [
  | inr (s, here) ↦ rw (here, load) (h, λ e. ground (arith, e))
  | inl absent ↦
      rw (absent, load)
        (
          changed-IsSound skill.id l _ (some skill) (lookup skill.id l.registry)
              (some SkillState.disabled) h
              (
                refl,
                absent_at skill.id (lookup skill.id l.states) (lookup skill.id l.registry) (
                    subst
                      (λ x.
                        SoundAt skill.id x (lookup skill.id l.states) (lookup skill.id l.registry))
                      absent (h skill.id)),
              )
              (λ id. lookup-insert skill.id id skill l.loaded)
              (λ id. lookup-insert skill.id id SkillState.disabled l.states)
              (unchanged skill.id l.registry),
          λ e. ground (arith, e),
        )
]

-- A call for a loaded skill is sound if what follows its guard is.
pub with_loaded-Keeps :
    {A : Type 0} (id : String) (l : SkillLifecycle)
    (next : SkillMetadata → SkillState → Result A × SkillLifecycle)
    → IsSound l
    → ((skill : SkillMetadata) (state : SkillState)
        → lookup id l.loaded ≡ some skill
        → Known id l skill state
        → Keeps (next skill state))
    → Keeps (with_loaded id l next)
with_loaded-Keeps id l next h then_keeps = elim (Option-cases (lookup id l.loaded)) [
  | inl absent ↦ rw (absent, with_loaded) (h, λ e. ground (arith, e))
  | inr (skill, here) ↦
      let (state, k) = known id l skill h here in
      rw (here, k.0, with_loaded) (then_keeps skill state here k)
]

-- A new state for a loaded skill, whose registry entry follows it.
pub becomes-IsSound :
    (id : String) (l : SkillLifecycle) (skill : SkillMetadata) (state : SkillState)
    (registry : SkillRegistry)
    → IsSound l
    → lookup id l.loaded ≡ some skill
    → skill.id ≡ id
    → ChangedAt id (if is_enabled_state state then some skill else none) l.registry registry
    → IsSound (becomes id state l registry).1
becomes-IsSound id l skill state registry h here named changes =
    changed-IsSound id l _ (some skill) (if is_enabled_state state then some skill else none)
      (some state) h (named, refl) (λ j. rw (sym here) (unchanged id l.loaded j))
      (λ j. lookup-insert id j state l.states) changes

-- A registered skill is withdrawn without an error, one that is not is not registered.
pub withdrawn-Keeps :
    {A : Type 0} (id : String) (l : SkillLifecycle) (skill : SkillMetadata) (state : SkillState)
    (next : SkillRegistry → Result A × SkillLifecycle)
    → Known id l skill state
    → ((registry : SkillRegistry) → ChangedAt id none l.registry registry → Keeps (next registry))
    → Keeps (withdrawn id l state next)
unfolding unregister_skill
withdrawn-Keeps id l skill state next k then_keeps = elim (Bool-cases (is_enabled_state state)) [
  | inl on ↦
      let here : lookup id l.registry ≡ some skill =
        k.2 ∙ ap (λ b. if b then some skill else none) on in
      rw (on, here, unregister_skill)
        (then_keeps (pop id l.registry) (λ j. lookup-pop id j l.registry))
  | inr off ↦
      let here : lookup id l.registry ≡ none = k.2 ∙ ap (λ b. if b then some skill else none) off in
      rw off (then_keeps l.registry (λ j. rw (sym here) (unchanged id l.registry j)))
]
