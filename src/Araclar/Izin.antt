-- ===== src/Araclar/Izin.antt =====
-- Permission decisions: core/turkish_code/araclar/izin.py, with the enumerations of modeller.py.
-- The `reason` of a decision is text for the user and is not modelled.
pub mod Laws
use turkish_code.Base.{
  ℕ, String, Bool, true, false, ◌&&◌, ◌||◌, List, [], ◌∷◌, Option, some, if◌then◌else◌, str_eq,
  ◌==◌,
}

pub data SideEffect : Type 0 where
  none read mutate exec egress : SideEffect

pub data Capability : Type 0 where
  fs_read fs_write shell_exec net_egress open_external secret_use workspace_switch : Capability

abbrev pub number : Capability → ℕ
number fs_read = 0
number fs_write = 1
number shell_exec = 2
number net_egress = 3
number open_external = 4
number secret_use = 5
number workspace_switch = 6

pub data PermissionMode : Type 0 where
  plan ask auto : PermissionMode

pub record Grant : Type 0 where
  pub capability : Capability
  pub target : Option String

pub record PermissionRequest : Type 0 where
  pub tool : String
  pub capability : Option Capability
  pub side_effect : SideEffect
  pub target : Option String

pub data Decision : Type 0 where
  allow deny : Decision
  prompt_required : PermissionRequest → Decision

pub record PermissionPolicy : Type 0 where
  pub mode : PermissionMode
  pub grants : List Grant

-- Membership in `_SENSITIVE`.
abbrev pub is_sensitive : SideEffect → Bool
is_sensitive SideEffect.mutate = true
is_sensitive SideEffect.exec = true
is_sensitive SideEffect.egress = true
is_sensitive _ = false

-- `grant.target is None or grant.target == request.target`
abbrev target_matches : Option String → Option String → Bool
target_matches Option.none t = true
target_matches (some g) Option.none = false
target_matches (some g) (some t) = str_eq g t

abbrev covers : Capability → Option String → Grant → Bool
covers c target g = number g.capability == number c && target_matches g.target target

unfoldable pub granted : Capability → Option String → List Grant → Bool
granted c target [] = false
granted c target (g ∷ gs) = covers c target g || granted c target gs

-- The end of `decide`, for the modes other than PLAN.
abbrev ungranted : PermissionMode → PermissionRequest → Decision
ungranted PermissionMode.ask r = prompt_required r
ungranted _ r = elim r.side_effect [ SideEffect.egress ↦ deny | _ ↦ allow ]

abbrev decide_sensitive :
    PermissionPolicy → Capability → PermissionRequest → PermissionMode → Decision
decide_sensitive p c r PermissionMode.plan = deny
decide_sensitive p c r mode = if granted c r.target p.grants then allow else ungranted mode r

abbrev decide_brokered : PermissionPolicy → PermissionRequest → Option Capability → Decision
decide_brokered p r Option.none = allow
decide_brokered p r (some c) =
    if is_sensitive r.side_effect then decide_sensitive p c r p.mode else allow

unfoldable pub decide : PermissionPolicy → PermissionRequest → Decision
decide p r = decide_brokered p r r.capability
