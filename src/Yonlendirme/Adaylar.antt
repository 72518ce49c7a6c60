-- ===== src/Yonlendirme/Adaylar.antt =====
-- The candidates of a routing request: core/turkish_code/yonlendirme/candidates.py, over the
-- catalogue of core/turkish_code/saglayicilar/manager.py. `now` is what the clock reads while the
-- candidates are generated.
pub mod Laws
use turkish_code.Base.{
  ℕ, String, Bool, true, false, List, [], ◌∷◌, ◌++◌, Option, none, some, if◌then◌else◌,
}
use turkish_code.Base.Dict.{Dict, lookup}
use turkish_code.Hata.{ErrorKind, Result, ok, err, raise_app, ◌>>=◌}
use turkish_code.Yonlendirme.Yetenek.{CapabilitySet, CapabilityNeed, matches_hard}
use turkish_code.Yonlendirme.Kota.{QuotaStore, is_cooling_down}

-- `ModelInfo` and `Provider`, less what routing does not read; `quota_limits` is that of
-- the provider's `tier_info`.
pub record ModelInfo : Type 0 where
  pub id : String
  pub provider_id : String
  pub capabilities : CapabilitySet
  pub context_window : ℕ

pub record Provider : Type 0 where
  pub id : String
  pub is_offline_fallback : Bool
  pub quota_limits : Dict ℕ

-- The providers of the manager and what its cache holds of each.
pub record ProviderManager : Type 0 where
  pub providers : Dict Provider
  pub cached : Dict (List ModelInfo)

abbrev cached_models : String → Dict (List ModelInfo) → List ModelInfo
cached_models k cached = elim (lookup k cached) [ none ↦ [] | some models ↦ models ]

abbrev catalog : Dict Provider → Dict (List ModelInfo) → List ModelInfo
catalog [] cached = []
catalog ((k, p) ∷ ps) cached = cached_models k cached ++ catalog ps cached

unfoldable pub all_models : ProviderManager → List ModelInfo
all_models m = catalog m.providers m.cached

unfoldable pub provider : String → ProviderManager → Result Provider
provider k m = elim (lookup k m.providers) [
  | none ↦ raise_app ErrorKind.not_found "provider.unknown"
  | some p ↦ ok p
]

pub record Served : Type 0 where
  pub model : ModelInfo
  pub server : Provider

pub record CandidateSet : Type 0 where
  pub primaries : List Served
  pub offline_fallback : Option Served

-- The first offline fallback is kept.
abbrev pub or_else : Option Served → Served → Option Served
or_else none c = some c
or_else (some kept) c = some kept

module _ (m : ProviderManager) (need : CapabilityNeed) (now : ℕ) (quota : QuotaStore) where
  -- What the loop does with a capable model and its provider.
  abbrev pub place :
      (List Served → Option Served → Result CandidateSet)
      → List Served
      → Option Served
      → Served
      → Result CandidateSet
  place again primaries fallback c =
      if c.server.is_offline_fallback
      then again primaries (or_else fallback c)
      else if is_cooling_down now c.server.id quota
      then again primaries fallback
      else again (primaries ++ c ∷ []) fallback

  -- The loop over the catalogue.
  unfoldable pub generate_loop : List ModelInfo → List Served → Option Served → Result CandidateSet
  generate_loop [] primaries fallback =
      ok (record { primaries = primaries; offline_fallback = fallback })
  generate_loop (model ∷ models) primaries fallback =
      let skipped = generate_loop models primaries fallback in
      let placed = provider model.provider_id m >>= λ p.
      place (generate_loop models) primaries fallback (record { model = model; server = p }) in
      if matches_hard model.capabilities need then placed else skipped

  unfoldable pub generate_candidates : Result CandidateSet
  generate_candidates = generate_loop (all_models m) [] none
