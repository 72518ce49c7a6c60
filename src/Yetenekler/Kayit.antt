-- ===== src/Yetenekler/Kayit.antt =====
-- Skills and their registry: core/turkish_code/yetenekler/modeller.py and kayit.py.
use turkish_code.Base.{ℕ, String, List, [], ◌∷◌, none, some, ◌||◌, if◌then◌else◌, leb, ltb, str_eq}
use turkish_code.Base.Dict.{Dict, lookup, insert, pop}
use turkish_code.Hata.{ErrorKind, Raised, Result, Done, ok, err, raise_app, ◌>>=◌}

pub data SkillScope : Type 0 where
  workspace global : SkillScope

pub data SkillState : Type 0 where
  disabled enabled failed : SkillState

-- `SkillMetadata`; `requires` is read by no operation.
pub record SkillMetadata : Type 0 where
  pub id : String
  pub description : String
  pub allowed_tools : List String
  pub scope : SkillScope
  pub timeout_ms : ℕ
  pub version : ℕ

-- Its `__post_init__`.
unfoldable pub check_metadata : SkillMetadata → Result SkillMetadata
check_metadata m =
    if str_eq m.id "" || str_eq m.description "" || leb m.timeout_ms 0 || ltb m.version 1
    then err Raised.value_error
    else ok m

-- A skill is its metadata; what its `run` does is the dispatcher's parameter.
abbrev pub SkillRegistry : Type 0
SkillRegistry = Dict SkillMetadata

abbrev pub skill_not_found {ℓ} : {A : Type ℓ} → Result A
skill_not_found = raise_app ErrorKind.not_found "skill.not_found"

abbrev pub duplicate_skill {ℓ} : {A : Type ℓ} → Result A
duplicate_skill = raise_app ErrorKind.conflict "skill.duplicate"

unfoldable pub register_skill : SkillMetadata → SkillRegistry → Done × SkillRegistry
register_skill skill skills = elim (lookup skill.id skills) [
  | some _ ↦ (duplicate_skill, skills)
  | none ↦ (ok tt, insert skill.id skill skills)
]

-- The first duplicate aborts; the skills before it stay registered.
abbrev go_on : (SkillRegistry → Done × SkillRegistry) → Done × SkillRegistry → Done × SkillRegistry
go_on next (ok _, skills) = next skills
go_on next (err e, skills) = (err e, skills)

unfoldable pub register_all_skills : List SkillMetadata → SkillRegistry → Done × SkillRegistry
register_all_skills [] skills = (ok tt, skills)
register_all_skills (s ∷ ss) skills = go_on (register_all_skills ss) (register_skill s skills)

unfoldable pub unregister_skill : String → SkillRegistry → Done × SkillRegistry
unregister_skill id skills = elim (lookup id skills) [
  | none ↦ (skill_not_found, skills)
  | some _ ↦ (ok tt, pop id skills)
]

unfoldable pub resolve_skill : String → SkillRegistry → Result SkillMetadata
resolve_skill id skills = elim (lookup id skills) [ none ↦ skill_not_found | some s ↦ ok s ]

unfoldable pub version_of : String → SkillRegistry → Result ℕ
unfolding resolve_skill
version_of id skills = resolve_skill id skills >>= λ s. ok s.version
