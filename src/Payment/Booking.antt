-- ===== src/Payment/Booking.antt =====
-- The tables that fulfil of internal/service/payment_service.go writes.
use campusassistant_api.Base.{ℕ, ◌≡◌, refl, inl, inr, Bool-cases, Option-cases, none, some, ◌∙◌}
use campusassistant_api.Base.Table.{lookup, modify, insert}
use campusassistant_api.Domain.{
  BkashTransaction, SubscriptionPlan, User, BkashStatus, Store, Result, ok, err, M, Keeps, bind-ok,
  plan_not_found, record_not_found, after, pure, then-Keeps, ◌>>=◌, ◌>>◌,
}
use campusassistant_api.Gateway.{ExecuteResult}
use campusassistant_api.Billing.{record_subscription_payment}
use campusassistant_api.Billing.Frame.{record_subscription_payment-Keeps, post_journal-Keeps}
use campusassistant_api.Coupon.{force_coupon_use}
use campusassistant_api.Subscription.{
  latest_of, save_grant, granted_end, grant_subscription, new_subscription,
}
use campusassistant_api.Payment.{
  stamp, Outcome, subscription_for, completed, reclaim, grant_of, fulfil_payment, report,
}

-- The tables that say who is Pro, and for which payment, are as they were.
abbrev pub SameGrants : Store → Store → Type 0
SameGrants s t =
    (t.bkash_txs ≡ s.bkash_txs) × (t.subscriptions ≡ s.subscriptions) × (t.users ≡ s.users)

pub reclaim-SameGrants : (tx : BkashTransaction) (s : Store) → SameGrants s (reclaim tx s)
unfolding force_coupon_use
reclaim-SameGrants tx s = elim (Bool-cases tx.coupon_reserved) [
  | inl e ↦ rw e (refl, refl, refl)
  | inr e ↦ elim (Option-cases tx.coupon_code_id) [
    | inl f ↦ rw (e, f) (refl, refl, refl)
    | inr (id, f) ↦ rw (e, f) (refl, refl, refl)
  ]
]

-- The store of `fulfil_payment` after the grant, before the payment is booked.
abbrev granted : ℕ → BkashTransaction → ExecuteResult → SubscriptionPlan → User → Store → Store
granted id tx r plan user s =
    let gr = grant_of tx plan in
    stamp id (completed r s.next_id) (reclaim tx (save_grant gr (granted_end gr user s) s))

module _ (id : ℕ) (tx : BkashTransaction) (r : ExecuteResult) (plan : SubscriptionPlan)
    (user : User) (s : Store) (planned : lookup tx.plan_id s.plans ≡ some plan)
    (known : lookup tx.user_id s.users ≡ some user) where
  abbrev booking : M Outcome
  booking =
      record_subscription_payment id
        (record tx { trx_id = r.trx_id; status = BkashStatus.completed }) plan.title
      >> pure (Outcome.fresh s.next_id tx.amount)

  fulfil_payment-booking : fulfil_payment id tx r s ≡ booking (granted id tx r plan user s)
  unfolding fulfil_payment grant_subscription
  fulfil_payment-booking = rw (planned, known)

  fulfil_payment-SameGrants : SameGrants (granted id tx r plan user s) (fulfil_payment id tx r s).1
  fulfil_payment-SameGrants =
      let t = granted id tx r plan user s in
      rw fulfil_payment-booking (
        then-Keeps (SameGrants t)
          (record_subscription_payment id
            (record tx { trx_id = r.trx_id; status = BkashStatus.completed }) plan.title)
          (pure (Outcome.fresh s.next_id tx.amount))
          (record_subscription_payment-Keeps (SameGrants t)
            (post_journal-Keeps (SameGrants t) (λ u js h. h)) (λ u invs cs h. h) id
            (record tx { trx_id = r.trx_id; status = BkashStatus.completed }) plan.title)
          (λ u h. h) t (refl, refl, refl))

  -- The tables after the grant, whether or not the booking failed.
  pub fulfil_payment-tables :
      let gr = grant_of tx plan in
      let t = (fulfil_payment id tx r s).1 in
      (t.bkash_txs ≡ modify id (completed r s.next_id) s.bkash_txs)
      × (t.subscriptions
          ≡ insert s.next_id (new_subscription gr (granted_end gr user s) s.now) s.subscriptions)
      × (t.users ≡ (save_grant gr (granted_end gr user s) s).users)
  fulfil_payment-tables =
      let gr = grant_of tx plan in
      let (a, b, c) = fulfil_payment-SameGrants in
      let (d, e, f) = reclaim-SameGrants tx (save_grant gr (granted_end gr user s) s) in
      (a ∙ rw d (unfold save_grant in refl), b ∙ e ∙ (unfold save_grant in refl), c ∙ f)

  pub fulfil_payment-fresh :
      (out : Outcome)
      → (fulfil_payment id tx r s).0 ≡ ok out
      → out ≡ Outcome.fresh s.next_id tx.amount
  fulfil_payment-fresh out h =
      let (_, _, q) =
        bind-ok
          (record_subscription_payment id
            (record tx { trx_id = r.trx_id; status = BkashStatus.completed }) plan.title)
          (λ _. pure (Outcome.fresh s.next_id tx.amount)) (granted id tx r plan user s)
          (rw fulfil_payment-booking at h) in
      cc (rw (fulfil_payment-booking, q) at h)

pub fulfil_payment_planless :
    (id : ℕ) (tx : BkashTransaction) (r : ExecuteResult) (s : Store)
    → lookup tx.plan_id s.plans ≡ none
    → fulfil_payment id tx r s ≡ (err plan_not_found, s)
unfolding fulfil_payment
fulfil_payment_planless id tx r s planless = rw planless

pub fulfil_payment_userless :
    (id : ℕ) (tx : BkashTransaction) (r : ExecuteResult) (plan : SubscriptionPlan) (s : Store)
    → lookup tx.plan_id s.plans ≡ some plan
    → lookup tx.user_id s.users ≡ none
    → fulfil_payment id tx r s ≡ (err record_not_found, s)
unfolding fulfil_payment grant_subscription
fulfil_payment_userless id tx r plan s planned userless = rw (planned, userless)

pub subscription_at-same : (tx : BkashTransaction) (s : Store) → (subscription_for tx s).1 ≡ s
unfolding subscription_for
subscription_at-same tx s = elim (Option-cases tx.subscription_id) [
  | inl e ↦
      rw e (elim (Option-cases (latest_of tx.user_id s)) [ inl f ↦ rw f | inr (row, f) ↦ rw f ])
  | inr (id, e) ↦
      rw e (elim (Option-cases (lookup id s.subscriptions)) [ inl f ↦ rw f | inr (row, f) ↦ rw f ])
]

answer_same : (res : Result ℕ × Store) → (after (λ id. pure (Outcome.existing id)) res).1 ≡ res.1
answer_same (ok id, s) = refl
answer_same (err e, s) = refl

pub existing-same :
    (tx : BkashTransaction) (s : Store)
    → ((subscription_for tx >>= λ id. pure (Outcome.existing id)) s).1 ≡ s
existing-same tx s = answer_same (subscription_for tx s) ∙ subscription_at-same tx s

pub report-SameGrants : (s₀ : Store) (out : Outcome) → Keeps (SameGrants s₀) (report out)
report-SameGrants s₀ (Outcome.existing id) s h = h
report-SameGrants s₀ Outcome.mismatch s h = h
report-SameGrants s₀ (Outcome.fresh id amount) s h = h
