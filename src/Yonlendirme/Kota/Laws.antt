-- ===== src/Yonlendirme/Kota/Laws.antt =====
-- Laws of the quota accounting of core/turkish_code/yonlendirme/quota.
use turkish_code.Base.{
  ℕ, ◌+◌, ◌-◌, ◌<◌, ◌≤◌, ◌≡◌, ◌↔◌, refl, String, List, [], ◌∷◌, ◌++◌, some, filter, leb, ltb,
  if◌then◌else◌, str_eq, arith,
}
use turkish_code.Base.Dict.{lookup-insert}
use turkish_code.Yonlendirme.Kota.{
  UsageRecord, QuotaStore, records_of, sum_of, record_usage, usage_in_window, enter_cooldown,
  is_cooling_down, Fraction, headroom,
}

-- After a cooldown is entered, the provider is cooling down exactly while the clock is before its
-- end; the other providers are as they were.
is_cooling_down-enter_cooldown :
    (p j : String) (until now : ℕ) (q : QuotaStore)
    → is_cooling_down now j (enter_cooldown p until q)
      ≡ (if str_eq p j then ltb now until else is_cooling_down now j q)
unfolding is_cooling_down enter_cooldown
is_cooling_down-enter_cooldown p j until now q = ground (arith, lookup-insert p j until q.cooldowns)

sum_of-snoc :
    (f : UsageRecord → ℕ) (since : ℕ) (r : UsageRecord) (rs : List UsageRecord)
    → sum_of f (filter (λ x. leb since x.at) (rs ++ r ∷ []))
      ≡ sum_of f (filter (λ x. leb since x.at) rs) + (if leb since r.at then f r else 0)
sum_of-snoc f since r [] = ground arith
sum_of-snoc f since r (x ∷ rs) = ground (arith, sum_of-snoc f since r rs)

-- A call recorded at `now` counts in every window that still holds that instant, and in no other;
-- the usage of the other providers is as it was.
usage_in_window-record_usage :
    (p j : String) (now later window requests tokens : ℕ) (q : QuotaStore)
    → usage_in_window later window j (record_usage now p requests tokens q) ≡ (
        if str_eq p j
        then (let before = usage_in_window later window p q in
            if leb later (now + window)
            then record { requests = before.requests + requests; tokens = before.tokens + tokens }
            else before)
        else usage_in_window later window j q)
unfolding usage_in_window record_usage
usage_in_window-record_usage p j now later window requests tokens q =
    let r : UsageRecord = record { at = now; requests = requests; tokens = tokens } in
    ground (
      arith,
      lookup-insert p j (records_of p q ++ r ∷ []) q.usage,
      sum_of-snoc (λ x. x.requests) (later - window) r (records_of p q),
      sum_of-snoc (λ x. x.tokens) (later - window) r (records_of p q),
    )

-- Under a positive limit the headroom lies between 0 and 1, falls as the use grows, and is 0
-- exactly from the limit on.
headroom_bounds :
    (limit used more : ℕ)
    → 0 < limit
    → (f g : Fraction) × (headroom (some limit) used ≡ some f)
      × (headroom (some limit) (used + more) ≡ some g)
      × (f.den ≡ limit)
      × (g.den ≡ limit)
      × (g.num ≤ f.num)
      × (f.num ≤ f.den)
      × ((f.num ≡ 0) ↔ (limit ≤ used))
unfolding headroom
headroom_bounds limit used more pos = (
  record { num = limit - used; den = limit },
  record { num = limit - (used + more); den = limit },
  ground arith,
  ground arith,
  refl,
  refl,
  omega arith,
  omega arith,
  (λ h. omega arith, λ h. omega arith),
)
