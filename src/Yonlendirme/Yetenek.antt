-- ===== src/Yonlendirme/Yetenek.antt =====
-- Capabilities and their hard requirements: core/turkish_code/yonlendirme/capability (taxonomy.py,
-- need.py, match.py). A level of an `IntEnum` is its number.
use turkish_code.Base.{ℕ, Bool, true, false, ◌&&◌, Option, none, some, if◌then◌else◌, leb, ◌==◌}

pub data Role : Type 0 where
  chat embed rerank vision code : Role

abbrev role_number : Role → ℕ
role_number chat = 0
role_number embed = 1
role_number rerank = 2
role_number vision = 3
role_number code = 4

pub record CapabilitySet : Type 0 where
  pub role : Role
  pub reasoning : ℕ
  pub code_aptitude : ℕ
  pub context_window : ℕ
  pub tool_use : ℕ
  pub vision : Bool
  pub multilingual_tr : ℕ
  pub latency_class : ℕ
  pub cost_class : ℕ
  pub max_output : ℕ
  pub streaming : Bool

pub record Requirement (T : Type 0) : Type 0 where
  pub value : T
  pub hard : Bool

pub record CapabilityNeed : Type 0 where
  pub role : Option (Requirement Role)
  pub reasoning : Option (Requirement ℕ)
  pub code_aptitude : Option (Requirement ℕ)
  pub context_window : Option (Requirement ℕ)
  pub tool_use : Option (Requirement ℕ)
  pub vision : Option (Requirement Bool)
  pub multilingual_tr : Option (Requirement ℕ)
  pub latency_class : Option (Requirement ℕ)
  pub max_output : Option (Requirement ℕ)
  pub streaming : Option (Requirement Bool)

-- `_satisfies`, at its three kinds of value.
abbrev pub same_role : Role → Role → Bool
same_role required offered = role_number offered == role_number required

abbrev pub same_flag : Bool → Bool → Bool
same_flag true offered = offered
same_flag false offered = if offered then false else true

-- One member of `checks`, and the test that it is set and hard.
abbrev meets : {T : Type 0} → (T → T → Bool) → Option (Requirement T) → T → Bool
meets satisfies none offered = true
meets satisfies (some r) offered = if r.hard then satisfies r.value offered else true

unfoldable pub matches_hard : CapabilitySet → CapabilityNeed → Bool
matches_hard c need =
    meets same_role need.role c.role
    && meets leb need.reasoning c.reasoning
    && meets leb need.code_aptitude c.code_aptitude
    && meets leb need.context_window c.context_window
    && meets leb need.tool_use c.tool_use
    && meets same_flag need.vision c.vision
    && meets leb need.multilingual_tr c.multilingual_tr
    && meets leb need.latency_class c.latency_class
    && meets leb need.max_output c.max_output
    && meets same_flag need.streaming c.streaming
