-- ===== src/Yonlendirme/Adaylar/Laws.antt =====
-- Which candidates core/turkish_code/yonlendirme/candidates.py generates.
use turkish_code.Base.{
  some, ℕ, ◌≡◌, refl, sym, ap, ◌∙◌, arith, Bool, not, ◌&&◌, List, [], ◌∷◌, ◌++◌, append-nil,
  append_assoc, Option, none, if◌then◌else◌, filter,
}
use turkish_code.Hata.{ok}
use turkish_code.Yonlendirme.Yetenek.{CapabilityNeed, matches_hard}
use turkish_code.Yonlendirme.Kota.{QuotaStore, is_cooling_down}
use turkish_code.Yonlendirme.Adaylar.{
  ModelInfo, Provider, ProviderManager, Served, or_else, place, provider, all_models, generate_loop,
  generate_candidates,
}

-- The models with the providers that serve them, in the same order.
pub data AreServed (m : ProviderManager) : List ModelInfo → List Served → Type 0 where
  none_served : AreServed m [] []
  one_served :
      (model : ModelInfo) (p : Provider) (models : List ModelInfo) (served : List Served)
      → provider model.provider_id m ≡ ok p
      → AreServed m models served
      → AreServed m (model ∷ models) (record { model = model; server = p } ∷ served)

module _ (m : ProviderManager) (need : CapabilityNeed) (now : ℕ) (quota : QuotaStore) where
  abbrev is_capable : Served → Bool
  is_capable c = matches_hard c.model.capabilities need

  -- Capable, online, and not cooling down.
  abbrev is_primary : Served → Bool
  is_primary c =
      is_capable c
      && (not c.server.is_offline_fallback && not (is_cooling_down now c.server.id quota))

  abbrev is_fallback : Served → Bool
  is_fallback c = is_capable c && c.server.is_offline_fallback

  -- The first of a list, behind one that is there already.
  abbrev first_of : Option Served → List Served → Option Served
  first_of none [] = none
  first_of none (c ∷ cs) = some c
  first_of (some kept) cs = some kept

  first_of-or_else :
      (kept : Option Served) (c : Served) (cs : List Served)
      → first_of (or_else kept c) cs ≡ first_of kept (c ∷ cs)
  first_of-or_else none c cs = refl
  first_of-or_else (some k) c cs = refl

  first_of-nil : (kept : Option Served) → first_of kept [] ≡ kept
  first_of-nil none = refl
  first_of-nil (some k) = refl

  generate_loop-step :
      (model : ModelInfo) (p : Provider) (models : List ModelInfo) (primaries : List Served)
      (kept : Option Served)
      → provider model.provider_id m ≡ ok p
      → generate_loop m need now quota (model ∷ models) primaries kept ≡ (
          if matches_hard model.capabilities need
          then place m need now quota
              (generate_loop m need now quota models)
              primaries
              kept
              (record { model = model; server = p })
          else generate_loop m need now quota models primaries kept)
  unfolding generate_loop
  generate_loop-step model p models primaries kept found = rw (found, generate_loop) refl

  generate_loop-selects :
      (models : List ModelInfo) (served primaries : List Served) (kept : Option Served)
      → AreServed m models served
      → generate_loop m need now quota models primaries kept
        ≡ ok (record {
          primaries = primaries ++ filter is_primary served;
          offline_fallback = first_of kept (filter is_fallback served);
        })
  generate_loop-selects [] _ primaries kept none_served =
      unfold generate_loop in
      ap (λ ps. ok (record { primaries = ps; offline_fallback = kept }))
        (sym (append-nil primaries))
      ∙ ap (λ k. ok (record { primaries = primaries ++ []; offline_fallback = k }))
          (sym (first_of-nil kept))
  generate_loop-selects (model ∷ models) _ primaries kept (one_served _ p _ served found rest) =
      let c : Served = record { model = model; server = p } in
      generate_loop-step model p models primaries kept found
      ∙ ground (
        arith,
        generate_loop-selects models served primaries kept rest,
        generate_loop-selects models served primaries (or_else kept c) rest,
        generate_loop-selects models served (primaries ++ c ∷ []) kept rest,
        append_assoc primaries (c ∷ []) (filter is_primary served),
        first_of-or_else kept c (filter is_fallback served),
      )

  -- Where every model of the catalogue has a registered provider, the primaries are exactly the
  -- models that meet the hard requirements, whose provider is no offline fallback and is not
  -- cooling down, in the order of the catalogue; the offline fallback is the first in that order of
  -- the models that meet them and whose provider is an offline fallback, or none.
  pub generate_candidates-selects :
      (served : List Served)
      → AreServed m (all_models m) served
      → generate_candidates m need now quota
        ≡ ok (record {
          primaries = filter is_primary served;
          offline_fallback = first_of none (filter is_fallback served);
        })
  unfolding generate_candidates
  generate_candidates-selects served h = generate_loop-selects (all_models m) served [] none h
