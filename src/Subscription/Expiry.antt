-- ===== src/Subscription/Expiry.antt =====
-- When Pro ends: subscriptionEnd of internal/service/payment_service.go and ComputeStatus of
-- internal/domain/subscription.go.
use campusassistant_api.Base.{
  ℕ, ◌+◌, ◌*◌, ◌≤◌, ltb, max, arith, ap, ◌≡◌, refl, ◌↔◌, ◌⊎◌, inl, inr, Bool, true, false,
  Bool-cases, Option-cases, is_some, Option, none, some,
}
use campusassistant_api.Domain.{SubscriptionPlan, UserSubscription, day}
use campusassistant_api.Subscription.{
  renewal_base, subscription_end, SubscriptionStatus, compute_status,
}

-- The end that a plan gives: none exactly for a lifetime plan and for who never ends; else the
-- plan's days after the end of a Pro that still runs, and after now for anyone else.
abbrev pub IsEnd : ℕ → Bool → Option ℕ → SubscriptionPlan → Option ℕ → Type 0
IsEnd now is_pro current plan end =
    (end ≡ none ↔ ((plan.is_lifetime ≡ true) ⊎ ((is_pro ≡ true) × (current ≡ none))))
    × ((e t : ℕ)
        → end ≡ some e
        → is_pro ≡ true
        → current ≡ some t
        → e ≡ max now t + plan.duration_days * day)
    × ((e : ℕ) → end ≡ some e → is_pro ≡ false → e ≡ now + plan.duration_days * day)

-- The three ways to an end.
abbrev EndCases : ℕ → Bool → Option ℕ → SubscriptionPlan → Option ℕ → Type 0
EndCases now is_pro current plan end =
    (((plan.is_lifetime ≡ true) ⊎ ((is_pro ≡ true) × (current ≡ none))) × (end ≡ none))
    ⊎ (((plan.is_lifetime ≡ false)
          × (is_pro ≡ false)
          × (end ≡ some (now + plan.duration_days * day)))
        ⊎ ((c : ℕ) × (plan.is_lifetime ≡ false)
            × (is_pro ≡ true)
            × (current ≡ some c)
            × (end ≡ some (max now c + plan.duration_days * day))))

later_start : (now c n : ℕ) → ltb now c ≡ true → some (c + n * day) ≡ some (max now c + n * day)
later_start now c n h = ap some (ap (λ x. x + n * day) (ground arith))

now_start : (now c n : ℕ) → ltb now c ≡ false → some (now + n * day) ≡ some (max now c + n * day)
now_start now c n h = ap some (ap (λ x. x + n * day) (ground arith))

subscription_end_cases :
    (now : ℕ) (is_pro : Bool) (current : Option ℕ) (plan : SubscriptionPlan)
    → EndCases now is_pro current plan (subscription_end now is_pro current plan)
unfolding subscription_end renewal_base
subscription_end_cases now is_pro current plan = elim (Bool-cases plan.is_lifetime) [
  | inl e ↦ inl (inl e, rw e refl)
  | inr e ↦ elim (Bool-cases is_pro) [
    | inr f ↦ elim (Option-cases current) [
      | inl g ↦ inr (inl (e, f, rw (e, f, g) refl))
      | inr (c, g) ↦ inr (inl (e, f, rw (e, f, g) refl))
    ]
    | inl f ↦ elim (Option-cases current) [
      | inl g ↦ inl (inr (f, g), rw (e, f, g) refl)
      | inr (c, g) ↦ elim (Bool-cases (ltb now c)) [
        | inl b ↦ inr (inr (c, e, f, g, rw (e, f, g, b) (later_start now c plan.duration_days b)))
        | inr b ↦ inr (inr (c, e, f, g, rw (e, f, g, b) (now_start now c plan.duration_days b)))
      ]
    ]
  ]
]

some-IsEnd :
    (now : ℕ) (is_pro : Bool) (current : Option ℕ) (plan : SubscriptionPlan) (end : Option ℕ)
    → EndCases now is_pro current plan end
    → IsEnd now is_pro current plan end
some-IsEnd now is_pro current plan end (inl (h, k)) =
    (((λ _. h), (λ _. k)), (λ e t l. cc), (λ e l. cc))
some-IsEnd now is_pro current plan end (inr (inl (h, k, l))) =
    (((λ m. cc), (λ m. elim m [ inl n ↦ cc | inr n ↦ cc ])), (λ e t m n o. cc), (λ e m n. cc))
some-IsEnd now is_pro current plan end (inr (inr (c, h, k, l, r))) =
    (((λ m. cc), (λ m. elim m [ inl n ↦ cc | inr n ↦ cc ])), (λ e t m n o. cc), (λ e m n. cc))

-- subscriptionEnd never ends exactly for a lifetime plan, or for a Pro user without an expiry. The
-- end that it gives otherwise is the plan's days after the later of now and the current expiry of a
-- Pro user, and after now for a user who is not Pro.
pub subscription_end-IsEnd :
    (now : ℕ) (is_pro : Bool) (current : Option ℕ) (plan : SubscriptionPlan)
    → IsEnd now is_pro current plan (subscription_end now is_pro current plan)
subscription_end-IsEnd now is_pro current plan =
    some-IsEnd now is_pro current plan (subscription_end now is_pro current plan)
      (subscription_end_cases now is_pro current plan)

-- How far a status is on its way out.
pub status_stage : SubscriptionStatus → ℕ
status_stage SubscriptionStatus.active = 0
status_stage SubscriptionStatus.grace = 1
status_stage SubscriptionStatus.expired = 2
status_stage SubscriptionStatus.refunded = 3

-- With time a subscription only moves from active to grace to expired.
pub compute_status_monotone :
    (sub : UserSubscription) (t u : ℕ)
    → t ≤ u
    → status_stage (compute_status sub t) ≤ status_stage (compute_status sub u)
unfolding compute_status status_stage
compute_status_monotone sub t u h = elim (Bool-cases (is_some sub.refunded_at)) [
  | inl e ↦ rw e (omega arith)
  | inr e ↦ elim (Option-cases sub.end_date) [
    | inl f ↦ rw (e, f) (omega arith)
    | inr (c, f) ↦ elim (Option-cases sub.grace_ends_at) [
      | inl g ↦ rw (e, f, g) (ground arith)
      | inr (d, g) ↦ rw (e, f, g) (ground arith)
    ]
  ]
]
