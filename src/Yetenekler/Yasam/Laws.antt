-- ===== src/Yetenekler/Yasam/Laws.antt =====
-- Laws of the skills' lifecycle of core/turkish_code/yetenekler/yasam.py.
use turkish_code.Base.{
  String, ◌≡◌, ◌≢◌, inl, inr, refl, sym, ap, ◌∙◌, subst, arith, false, List, [], ◌∷◌, Option, none,
  some, if◌then◌else◌, Bool-cases,
}
use turkish_code.Base.Dict.{is_some, lookup, insert, lookup-insert, lookup-pop}
use turkish_code.Hata.{Raised, Result, ok, err}
use turkish_code.Yetenekler.Kayit.{SkillMetadata, SkillState, register_skill}
use turkish_code.Yetenekler.Yasam.{
  SkillLifecycle, is_enabled_state, is_failed_state, enable, disable, mark_failed, recover, unload,
  Call, loads, enables, disables, marks_failed, recovers, unloads, call, run, forget, is_enabled,
}
use turkish_code.Yetenekler.Yasam.Sound.{
  SoundAt, IsSound, Keeps, ChangedAt, unchanged, changed-IsSound, load-IsSound, with_loaded-Keeps,
  becomes-IsSound, withdrawn-Keeps,
}

disable-IsSound : (id : String) (l : SkillLifecycle) → IsSound l → Keeps (disable id l)
unfolding disable
disable-IsSound id l h = with_loaded-Keeps id l _ h (λ skill state here k.
    withdrawn-Keeps id l skill state _ k (λ registry changes. (
      becomes-IsSound id l skill SkillState.disabled registry h here k.1 changes,
      λ e. ground (arith, e),
    )))

mark_failed-IsSound : (id : String) (l : SkillLifecycle) → IsSound l → Keeps (mark_failed id l)
unfolding mark_failed
mark_failed-IsSound id l h = with_loaded-Keeps id l _ h (λ skill state here k.
    withdrawn-Keeps id l skill state _ k (λ registry changes. (
      becomes-IsSound id l skill SkillState.failed registry h here k.1 changes,
      λ e. ground (arith, e),
    )))

unload-IsSound : (id : String) (l : SkillLifecycle) → IsSound l → Keeps (unload id l)
unfolding unload
unload-IsSound id l h = with_loaded-Keeps id l _ h (λ skill state here k.
    withdrawn-Keeps id l skill state _ k (λ registry changes. (
      changed-IsSound id l _ none none none h refl (λ j. lookup-pop id j l.loaded)
          (λ j. lookup-pop id j l.states) changes,
      λ e. ground (arith, e),
    )))

enable-IsSound : (id : String) (l : SkillLifecycle) → IsSound l → Keeps (enable id l)
unfolding enable register_skill
enable-IsSound id l h = with_loaded-Keeps id l _ h (λ skill state here k.
    elim (Bool-cases (is_enabled_state state)) [
      | inl on ↦ rw on (h, λ e. ground (arith, e))
      | inr off ↦
          let free : lookup id l.registry ≡ none =
            k.2 ∙ ap (λ b. if b then some skill else none) off in
          let unregistered : lookup skill.id l.registry ≡ none = rw k.1 free in
          rw (off, unregistered, register_skill)
            (
              becomes-IsSound id l skill SkillState.enabled (insert skill.id skill l.registry) h
                  here k.1
                  (subst
                    (λ key.
                      ChangedAt key (some skill) l.registry (insert skill.id skill l.registry))
                    k.1 (λ j. lookup-insert skill.id j skill l.registry)),
              λ e. ground (arith, e),
            )
    ])

recover-IsSound : (id : String) (l : SkillLifecycle) → IsSound l → Keeps (recover id l)
unfolding recover
recover-IsSound id l h = with_loaded-Keeps id l _ h (λ skill state here k.
    elim (Bool-cases (is_failed_state state)) [
      | inl failed ↦
          let free : lookup id l.registry ≡ none = ground (arith, k.2, failed) in
          rw failed (
            becomes-IsSound id l skill SkillState.disabled l.registry h here k.1
                (λ j. rw (sym free) (unchanged id l.registry j)),
            λ e. ground (arith, e),
          )
      | inr other ↦ rw other (h, λ e. ground (arith, e))
    ])

forget-Keeps : (r : Result SkillMetadata × SkillLifecycle) → Keeps r → Keeps (forget r)
forget-Keeps (ok s, l) (h, e) = (h, λ x. ground (arith, x))
forget-Keeps (err c, l) (h, e) = (h, λ x. e (ground (arith, x)))

call-Keeps : (c : Call) (l : SkillLifecycle) → IsSound l → Keeps (call c l)
call-Keeps (loads skill) l h = load-IsSound skill l h
call-Keeps (enables id) l h = enable-IsSound id l h
call-Keeps (disables id) l h = disable-IsSound id l h
call-Keeps (marks_failed id) l h = mark_failed-IsSound id l h
call-Keeps (recovers id) l h = recover-IsSound id l h
call-Keeps (unloads id) l h = forget-Keeps (unload id l) (unload-IsSound id l h)

run-IsSound : (calls : List Call) (l : SkillLifecycle) → IsSound l → IsSound (run calls l)
unfolding run
run-IsSound [] l h = h
run-IsSound (c ∷ cs) l h = run-IsSound cs (call c l).1 (call-Keeps c l h).0

abbrev pub nothing_loaded : SkillLifecycle
nothing_loaded = record { registry = []; loaded = []; states = [] }

nothing_loaded-IsSound : IsSound nothing_loaded
unfolding lookup
nothing_loaded-IsSound id = refl

registered_at :
    (id : String) (skill : Option SkillMetadata) (state : Option SkillState)
    (registered : Option SkillMetadata)
    → SoundAt id skill state registered
    → registered
      ≡ (if (elim state [ none ↦ false | some s ↦ is_enabled_state s ]) then skill else none)
registered_at id none none registered h = h
registered_at id (some skill) (some state) registered h = h.1
registered_at id none (some state) registered h = ground (arith, h)
registered_at id (some skill) none registered h = ground (arith, h)

-- After any calls of the lifecycle, in any order and whether they raise or not, the registry that
-- the dispatcher reads holds exactly the loaded skills that are enabled, and the next call never
-- raises a KeyError.
pub run-registry :
    (calls : List Call) (next : Call) (id : String)
    → let l = run calls nothing_loaded in
      (lookup id l.registry ≡ (if is_enabled id l then lookup id l.loaded else none))
      × ((call next l).0 ≢ err Raised.key_error)
unfolding is_enabled
run-registry calls next id =
    let sound = run-IsSound calls nothing_loaded nothing_loaded-IsSound in
    (registered_at id _ _ _ (sound id), (call-Keeps next _ sound).1)

enabled_at :
    (id : String) (skill : Option SkillMetadata) (state : Option SkillState)
    (registered : Option SkillMetadata)
    → SoundAt id skill state registered
    → is_some registered ≡ elim state [ none ↦ false | some s ↦ is_enabled_state s ]
enabled_at id none none registered h = ground (arith, h)
enabled_at id (some skill) (some state) registered h = ground (arith, h.1)
enabled_at id none (some state) registered h = ground (arith, h)
enabled_at id (some skill) none registered h = ground (arith, h)

pub run-enabled :
    (calls : List Call) (id : String)
    → is_some (lookup id (run calls nothing_loaded).registry)
      ≡ is_enabled id (run calls nothing_loaded)
unfolding is_enabled
run-enabled calls id =
    enabled_at id _ _ _ (run-IsSound calls nothing_loaded nothing_loaded-IsSound id)
