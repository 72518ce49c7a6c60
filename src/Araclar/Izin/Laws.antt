-- ===== src/Araclar/Izin/Laws.antt =====
-- What the permission policy of core/turkish_code/araclar/izin.py lets through.
use turkish_code.Base.{◌≡◌, ◌≢◌, ◌↔◌, ◌⊎◌, refl, true, ◌∷◌, some, arith}
use turkish_code.Araclar.Izin.{
  SideEffect, Capability, PermissionMode, Grant, PermissionRequest, allow, PermissionPolicy,
  is_sensitive, granted, decide,
}

-- What a sensitive action of the capability `c` needs in each mode.
abbrev pub Permits : PermissionPolicy → Capability → PermissionRequest → PermissionMode → Type 0
Permits p c r PermissionMode.plan = ⊥
Permits p c r PermissionMode.ask = granted c r.target p.grants ≡ true
Permits p c r PermissionMode.auto =
    (granted c r.target p.grants ≡ true) ⊎ (r.side_effect ≢ SideEffect.egress)

-- A sensitive action of a brokered tool is allowed exactly so: never in PLAN, whatever is granted;
-- in ASK exactly under a standing grant; in AUTO exactly under a grant, or where it is no egress.
pub decide-Permits :
    (p : PermissionPolicy) (r : PermissionRequest) (c : Capability)
    → r.capability ≡ some c
    → is_sensitive r.side_effect ≡ true
    → (decide p r ≡ allow) ↔ Permits p c r p.mode
unfolding decide
decide-Permits p r c brokered sensitive = by_mode p.mode refl
  where
    by_mode : (m : PermissionMode) → p.mode ≡ m → (decide p r ≡ allow) ↔ Permits p c r p.mode
    by_mode PermissionMode.plan e = rw e (λ h. ground arith, λ h. absurd h)
    by_mode PermissionMode.ask e = rw e (λ h. ground arith, λ h. ground arith)
    by_mode PermissionMode.auto e = rw e (λ h. ground arith, λ h. ground arith)

-- One more grant never takes an action away.
decide-grant :
    (p : PermissionPolicy) (r : PermissionRequest) (g : Grant)
    → decide p r ≡ allow
    → decide (record p { grants = g ∷ p.grants }) r ≡ allow
unfolding decide granted
decide-grant p r g h = ground arith
