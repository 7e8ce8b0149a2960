-- ===== src/Commission/Fee.antt =====
-- The fee that EffectiveRate of internal/service/commission_service.go decides on.
use campusassistant_api.Base.{
  false_or, ℤ, pos, ◌≤ℤ◌, ◌<ℤ◌, ltb_ℤ, arith, ◌≡◌, refl, ◌⊎◌, ◌↔◌, inl, inr, Bool, true, false, not,
  ◌||◌, Bool-cases, Option-cases, none, some, List, [], ◌∷◌,
}
use campusassistant_api.Base.Float.{Float64, hundred, zero_float, is_nan, ltb_float}
use campusassistant_api.Domain.{
  CommissionPolicy, Merchant, MerchantStatus, is_approved, Store, ok, err, invalid_policy,
}
use campusassistant_api.Commission.{
  first_policy, policy, set_policy, save_policy, is_bad_rate, is_bad_length, promo_end, describe,
  effective_rate,
}

-- A promotion of the policy `p` that lowers the fee of `m`.
abbrev pub HasPromo : Merchant → CommissionPolicy → Store → Type 0
HasPromo m p s =
    (m.is_platform ≡ false)
    × (m.status ≡ MerchantStatus.approved)
    × (first_policy s.commission_policies ≡ some p)
    × (p.promo_active ≡ true)
    × (pos s.now <ℤ promo_end m p)
    × (ltb_float p.promo_rate m.commission_rate ≡ true)

is_approved_iff : (st : MerchantStatus) → (is_approved st ≡ true) ↔ (st ≡ MerchantStatus.approved)
is_approved_iff MerchantStatus.approved = ((λ h. refl), (λ h. refl))
is_approved_iff MerchantStatus.pending = ((λ h. cc), (λ h. cc))
is_approved_iff MerchantStatus.rejected = ((λ h. cc), (λ h. cc))

module _ (days_left : ℤ → ℤ) where
  effective_rate-none :
      (m : Merchant) (s : Store)
      → first_policy s.commission_policies ≡ none
      → effective_rate days_left m s ≡ (ok m.commission_rate, s)
  unfolding effective_rate describe policy
  effective_rate-none m s h = elim (Bool-cases (m.is_platform || not (is_approved m.status))) [
    | inl e ↦ rw e refl
    | inr e ↦ rw (e, h) refl
  ]

  effective_rate-some :
      (m : Merchant) (s : Store) (p : CommissionPolicy)
      → first_policy s.commission_policies ≡ some p
      → (HasPromo m p s × (effective_rate days_left m s ≡ (ok p.promo_rate, s)))
        ⊎ ((HasPromo m p s → ⊥) × (effective_rate days_left m s ≡ (ok m.commission_rate, s)))
  unfolding effective_rate describe policy
  effective_rate-some m s p h = elim (Bool-cases m.is_platform) [
    | inl a ↦ inr ((λ k. cc k.0), rw a refl)
    | inr a ↦ elim (Bool-cases (is_approved m.status)) [
      | inr b ↦ inr ((λ k. cc ((is_approved_iff m.status).1 k.1)), rw (a, b) refl)
      | inl b ↦ elim (Bool-cases p.promo_active) [
        | inr c ↦ inr ((λ k. cc k.3), rw (a, b, h, c) refl)
        | inl c ↦ elim (Bool-cases (ltb_ℤ (pos s.now) (promo_end m p))) [
          | inr d ↦
              inr (
                (λ k. let (_, _, _, _, l, _) = k in absurd (ground arith)),
                rw (a, b, h, c, d) refl,
              )
          | inl d ↦ elim (Bool-cases (ltb_float p.promo_rate m.commission_rate)) [
            | inr e ↦ inr ((λ k. cc k.5), rw (a, b, h, c, d, e) refl)
            | inl e ↦ inl (
              (a, (is_approved_iff m.status).0 b, h, c, ground arith, e),
              rw (a, b, h, c, d, e) refl,
            )
          ]
        ]
      ]
    ]
  ]

  -- EffectiveRate answers the promotional rate of the first policy if the seller is approved and not
  -- the platform, the policy is on, its days since the seller's start are not over, and its rate is
  -- lower than the seller's; else it answers the seller's own rate.
  pub effective_rate_lem :
      (m : Merchant) (s : Store)
      → ((p : CommissionPolicy) × HasPromo m p s
          × (effective_rate days_left m s ≡ (ok p.promo_rate, s)))
        ⊎ (((p : CommissionPolicy) → HasPromo m p s → ⊥)
            × (effective_rate days_left m s ≡ (ok m.commission_rate, s)))
  effective_rate_lem m s = elim (Option-cases (first_policy s.commission_policies)) [
    | inl e ↦ inr ((λ p h. cc h.2), effective_rate-none m s e)
    | inr (p, e) ↦ elim (effective_rate-some m s p e) [
      | inl h ↦ inl (p, h.0, h.1)
      | inr h ↦ inr ((λ q k. let same : p ≡ q = cc k.2 in h.0 (rw same k)), h.1)
    ]
  ]

-- What SetPolicy accepts.
abbrev pub IsPolicy : Float64 → ℤ → Type 0
IsPolicy rate days =
    (is_nan rate ≡ false)
    × (ltb_float rate zero_float ≡ false)
    × (ltb_float hundred rate ≡ false)
    × (pos 1 ≤ℤ days)
    × (days ≤ℤ pos 730)

first-save_policy :
    (p : CommissionPolicy) (ps : List CommissionPolicy) → first_policy (save_policy p ps) ≡ some p
first-save_policy p [] = refl
first-save_policy p (q ∷ qs) = refl

long_enough : (days : ℤ) → pos 1 ≤ℤ days → days ≤ℤ pos 730 → is_bad_length days ≡ true → ⊥
long_enough days h k e = ground arith

good_length : (days : ℤ) → is_bad_length days ≡ false → (pos 1 ≤ℤ days) × (days ≤ℤ pos 730)
good_length days h = (ground arith, ground arith)

-- SetPolicy with a rate that is a number from 0 to 100 and a length from 1 to 730 days saves them,
-- and Policy answers them afterwards; with any other it fails and changes nothing.
pub policy-set_policy :
    (active : Bool) (rate : Float64) (days : ℤ) (s : Store)
    → let p : CommissionPolicy = record {
      promo_active = active;
      promo_rate = rate;
      promo_days = days;
    } in
      let (r, t) = set_policy active rate days s in
      (IsPolicy rate days × (r ≡ ok p) × (policy t ≡ (ok p, t)))
      ⊎ ((IsPolicy rate days → ⊥) × (r ≡ err invalid_policy) × (t ≡ s))
unfolding set_policy policy
policy-set_policy active rate days s =
    let p : CommissionPolicy = record {
      promo_active = active;
      promo_rate = rate;
      promo_days = days;
    } in
    elim (Bool-cases (is_bad_rate rate)) [
      | inl e ↦ rw e (inr ((λ k. cc (rw (k.0, k.1, k.2) at e)), refl, refl))
      | inr e ↦ elim (Bool-cases (is_bad_length days)) [
        | inl d ↦ rw (e, d) (inr ((λ k. long_enough days k.3 k.4 d), refl, refl))
        | inr d ↦
            let (a, bc) =
              false_or (is_nan rate) (ltb_float rate zero_float || ltb_float hundred rate) e in
            let (b, c) = false_or (ltb_float rate zero_float) (ltb_float hundred rate) bc in
            let (l, u) = good_length days d in
            rw (e, d, first-save_policy p s.commission_policies) (inl ((a, b, c, l, u), refl, refl))
      ]
    ]
