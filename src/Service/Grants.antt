-- ===== src/Service/Grants.antt =====
-- What the steps of a subscription's payment (internal/service/payment_service.go) preserve.
use Prim.Native.String.{String}
use text.Mathlib.Text.{◌==◌ as str_eq}
use campusassistant_api.Base.{
  Bool, ℕ, ℤ, ◌≡◌, refl, ap, inl, inr, ◌==◌, Bool-cases, Option-cases, Option, none, some, find,
  exists,
}
use campusassistant_api.Base.Table.{lookup}
use campusassistant_api.Domain.{
  BkashStatus, is_initiated, BkashTransaction, SubscriptionPlan, Store, ok, err, Keeps, then-Keeps,
  bind-Keeps, result_cases, transaction-Keeps, pure,
}
use campusassistant_api.Billing.{record_subscription_payment}
use campusassistant_api.Billing.Frame.{record_subscription_payment-Keeps}
use campusassistant_api.Gateway.{ExecuteResult, Session}
use campusassistant_api.Coupon.{
  reserve_coupon, force_coupon_use, release_coupon, validate_coupon, has_use_left,
}
use campusassistant_api.Subscription.{Grant, grant_subscription, save_grant}
use campusassistant_api.Payment.{
  has_payment_id, find_payment, has_code, reserve, release_if, save_session, Outcome, stamp,
  fulfil_payment, report, mark_terminal, cancel_payment, admin_grant_pro, reclaim, grant_of,
  completed,
}
use campusassistant_api.Service.Orders.{IsPreserved}

module _ (P : Store → Type 0) (preserved : IsPreserved P) where
  release_if-keeps : (o : Option ℕ) (s : Store) → P s → P (release_if o s)
  unfolding release_coupon
  release_if-keeps none s h = h
  release_if-keeps (some id) s h = preserved.frames s _ refl refl h

  reserve_coupon-Keeps : (id : ℕ) → Keeps P (reserve_coupon id)
  unfolding reserve_coupon
  reserve_coupon-Keeps id s h = elim (Option-cases (lookup id s.coupons)) [
    | inl e ↦ rw (reserve_coupon, e) h
    | inr (c, e) ↦ elim (Bool-cases (has_use_left c)) [
      | inl a ↦ rw (reserve_coupon, e, a) (preserved.frames s _ refl refl h)
      | inr a ↦ rw (reserve_coupon, e, a) h
    ]
  ]

  pub reserve-Keeps :
      (same_code : String → String → Bool) (plan_id : ℕ) (plan : SubscriptionPlan) (code : String)
      → Keeps P (reserve same_code plan_id plan code)
  unfolding reserve
  reserve-Keeps same_code plan_id plan code s h = elim (Bool-cases (str_eq code "")) [
    | inl e ↦ rw e h
    | inr e ↦ elim (Option-cases (find (has_code same_code code) s.coupons)) [
      | inl a ↦ rw (e, a) h
      | inr ((id, c), a) ↦ elim (result_cases (validate_coupon c plan_id plan.price s.now, s)) [
        | inr (x, b) ↦
            let failed : validate_coupon c plan_id plan.price s.now ≡ err x = ap (λ r. r.0) b in
            rw (e, a, failed) h
        | inl (amount, b) ↦
            let done : validate_coupon c plan_id plan.price s.now ≡ ok amount = ap (λ r. r.0) b in
            rw (e, a, done)
              (then-Keeps P (reserve_coupon id) (pure (amount, some id)) (reserve_coupon-Keeps id)
                (λ u l. l) s h)
      ]
    ]
  ]

  pub save_session-Keeps :
      (user_id plan_id : ℕ) (amount original : ℤ) (coupon : Option ℕ) (opened : Session)
      → Keeps P (save_session user_id plan_id amount original coupon opened)
  save_session-Keeps user_id plan_id amount original coupon Session.refused s h =
      release_if-keeps coupon s h
  save_session-Keeps user_id plan_id amount original coupon (Session.opened payment_id) s h =
      elim (Bool-cases (exists (has_payment_id payment_id) s.bkash_txs)) [
        | inl e ↦ rw e (release_if-keeps coupon s h)
        | inr e ↦ rw e (preserved.frames s _ refl refl h)
      ]

  grant_subscription-Keeps : (gr : Grant) → Keeps P (grant_subscription gr)
  unfolding grant_subscription save_grant
  grant_subscription-Keeps gr s h = elim (Option-cases (lookup gr.user_id s.users)) [
    | inl e ↦ rw e h
    | inr (u, e) ↦ rw e (preserved.frames s _ refl refl h)
  ]

  reclaim-keeps : (tx : BkashTransaction) (s : Store) → P s → P (reclaim tx s)
  unfolding force_coupon_use
  reclaim-keeps tx s h = elim (Bool-cases tx.coupon_reserved) [
    | inl e ↦ rw e h
    | inr e ↦ elim (Option-cases tx.coupon_code_id) [
      | inl f ↦ rw (e, f) h
      | inr (id, f) ↦ rw (e, f) (preserved.frames s _ refl refl h)
    ]
  ]

  pub fulfil_payment-Keeps :
      (id : ℕ) (tx : BkashTransaction) (r : ExecuteResult) → Keeps P (fulfil_payment id tx r)
  unfolding fulfil_payment
  fulfil_payment-Keeps id tx r s h = elim (Option-cases (lookup tx.plan_id s.plans)) [
    | inl e ↦ rw e h
    | inr (plan, e) ↦ rw e (
        bind-Keeps P (grant_subscription (grant_of tx plan)) _
          (grant_subscription-Keeps (grant_of tx plan))
          (λ sub t k.
            then-Keeps P
              (record_subscription_payment id
                (record tx { trx_id = r.trx_id; status = BkashStatus.completed }) plan.title)
              (pure (Outcome.fresh sub tx.amount))
              (record_subscription_payment-Keeps P preserved.posts
                (λ u invs cs l. preserved.frames u _ refl refl l) id
                (record tx { trx_id = r.trx_id; status = BkashStatus.completed }) plan.title)
              (λ u l. l) (stamp id (completed r sub) (reclaim tx t))
              (preserved.frames (reclaim tx t) _ refl refl (reclaim-keeps tx t k)))
          s h)
  ]

  pub report-Keeps : (out : Outcome) → Keeps P (report out)
  report-Keeps (Outcome.existing id) s h = h
  report-Keeps Outcome.mismatch s h = h
  report-Keeps (Outcome.fresh id amount) s h = preserved.frames s _ refl refl h

  pub mark_terminal-keeps :
      (payment_id : String) (st : BkashStatus) (trx raw : String) (s : Store)
      → P s
      → P (mark_terminal payment_id st trx raw s)
  unfolding mark_terminal
  mark_terminal-keeps payment_id st trx raw s h = elim (Option-cases (find_payment payment_id s)) [
    | inl e ↦ rw e h
    | inr ((id, tx), e) ↦ elim (Bool-cases (is_initiated tx.status)) [
      | inr a ↦ rw (e, a) h
      | inl a ↦ elim (Bool-cases tx.coupon_reserved) [
        | inl b ↦
            rw (e, a, b)
              (preserved.frames (release_if tx.coupon_code_id s) _ refl refl
                (release_if-keeps tx.coupon_code_id s h))
        | inr b ↦ rw (e, a, b) (preserved.frames s _ refl refl h)
      ]
    ]
  ]

  pub cancel_payment-Keeps :
      (user_id : ℕ) (payment_id : String) → Keeps P (cancel_payment user_id payment_id)
  unfolding cancel_payment
  cancel_payment-Keeps user_id payment_id s h = elim (Option-cases (find_payment payment_id s)) [
    | inl e ↦ rw e h
    | inr ((id, tx), e) ↦ elim (Bool-cases (tx.user_id == user_id)) [
      | inr a ↦ rw (e, a) h
      | inl a ↦ elim (Bool-cases (is_initiated tx.status)) [
        | inl b ↦ rw (e, a, b) (mark_terminal-keeps payment_id BkashStatus.cancelled "" "" s h)
        | inr b ↦ rw (e, a, b) h
      ]
    ]
  ]

  pub admin_grant_pro-Keeps :
      (admin user_id plan_id : ℕ) (note : String)
      → Keeps P (admin_grant_pro admin user_id plan_id note)
  unfolding admin_grant_pro
  admin_grant_pro-Keeps admin user_id plan_id note s h =
      elim (Option-cases (lookup plan_id s.plans)) [
        | inl e ↦ rw e h
        | inr (plan, e) ↦
            rw e (transaction-Keeps P (grant_subscription _) (grant_subscription-Keeps _) s h)
      ]
