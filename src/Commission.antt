-- ===== src/Commission.antt =====
-- The fee of a seller: Policy, SetPolicy, Describe and EffectiveRate of
-- internal/service/commission_service.go. `days_left` is the number of days that Describe shows for
-- a time until the end, a computation on float64.
pub mod Fee
use campusassistant_api.Base.{
  ℕ, ℤ, pos, ◌+ℤ◌, ◌-ℤ◌, ◌*ℤ◌, ltb_ℤ, Bool, true, false, not, ◌||◌, if◌then◌else◌, Option, none,
  some, List, [], ◌∷◌,
}
use campusassistant_api.Base.Float.{Float64, hundred, zero_float, is_nan, ltb_float}
use campusassistant_api.Domain.{
  day, CommissionPolicy, Merchant, is_approved, Store, Result, ok, err, M, pure, gets, fail_if,
  update, invalid_policy, ◌>>=◌, ◌>>◌,
}

abbrev pub default_promo_days : ℤ
default_promo_days = pos 60

-- `First` in the order of creation.
abbrev pub first_policy : List CommissionPolicy → Option CommissionPolicy
first_policy [] = none
first_policy (p ∷ ps) = some p

abbrev pub policy_or_default : Option CommissionPolicy → CommissionPolicy
policy_or_default none = record {
  promo_active = false;
  promo_rate = zero_float;
  promo_days = default_promo_days;
}
policy_or_default (some p) = p

unfoldable pub policy : M CommissionPolicy
policy = do row ← gets (λ s. first_policy s.commission_policies); pure (policy_or_default row)

-- `Save(&p)`: the row that was read, or a new one.
abbrev pub save_policy : CommissionPolicy → List CommissionPolicy → List CommissionPolicy
save_policy p [] = p ∷ []
save_policy p (q ∷ qs) = p ∷ qs

abbrev pub is_bad_rate : Float64 → Bool
is_bad_rate rate = is_nan rate || (ltb_float rate zero_float || ltb_float hundred rate)

abbrev pub is_bad_length : ℤ → Bool
is_bad_length days = ltb_ℤ days (pos 1) || ltb_ℤ (pos 730) days

unfoldable pub set_policy : Bool → Float64 → ℤ → M CommissionPolicy
set_policy active rate days = do
  fail_if (is_bad_rate rate) invalid_policy
  fail_if (is_bad_length days) invalid_policy
  update (λ s. record s {
    commission_policies =
        save_policy (record { promo_active = active; promo_rate = rate; promo_days = days })
          s.commission_policies;
  })
  pure (record { promo_active = active; promo_rate = rate; promo_days = days })

pub record CommissionInfo : Type 0 where
  pub rate : Float64
  pub base_rate : Float64
  pub on_promo : Bool
  pub promo_ends_at : Option ℤ
  pub promo_days_left : ℤ

abbrev pub base_info : Merchant → CommissionInfo
base_info m = record {
  rate = m.commission_rate;
  base_rate = m.commission_rate;
  on_promo = false;
  promo_ends_at = none;
  promo_days_left = pos 0;
}

abbrev pub promo_start : Merchant → ℕ
promo_start m = elim m.approved_at [ none ↦ m.created_at | some t ↦ t ]

-- `start.AddDate(0, 0, p.PromoDays)`
abbrev pub promo_end : Merchant → CommissionPolicy → ℤ
promo_end m p = pos (promo_start m) +ℤ p.promo_days *ℤ pos day

module _ (days_left : ℤ → ℤ) where
  abbrev pub promo_info : Merchant → CommissionPolicy → ℕ → CommissionInfo
  promo_info m p now = record {
    rate = if ltb_float p.promo_rate m.commission_rate then p.promo_rate else m.commission_rate;
    base_rate = m.commission_rate;
    on_promo = true;
    promo_ends_at = some (promo_end m p);
    promo_days_left = days_left (promo_end m p -ℤ pos now);
  }

  unfoldable pub describe : Merchant → ℕ → M CommissionInfo
  describe m now = if m.is_platform || not (is_approved m.status) then pure (base_info m) else (do
    p ← policy
    pure (
        if not p.promo_active
        then base_info m
        else (if not (ltb_ℤ (pos now) (promo_end m p)) then base_info m else promo_info m p now)))

  abbrev pub rate_or : Float64 → Result CommissionInfo × Store → Result Float64 × Store
  rate_or base (ok info, s) = (ok info.rate, s)
  rate_or base (err e, s) = (ok base, s)

  unfoldable pub effective_rate : Merchant → M Float64
  effective_rate m s = rate_or m.commission_rate (describe m s.now s)
