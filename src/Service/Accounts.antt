-- ===== src/Service/Accounts.antt =====
-- What the requests about subscriptions (internal/service/payment_service.go) preserve.
use Prim.Native.String.{String}
use campusassistant_api.Base.{
  Bool, ℕ, ◌-◌, ltb, refl, inl, inr, ◌==◌, Bool-cases, Option-cases, List, [], ◌∷◌,
}
use campusassistant_api.Base.Table.{lookup}
use campusassistant_api.Domain.{
  BkashStatus, is_completed, is_needs_review, BkashTransaction, Store, Keeps, bind-Keeps,
  transaction-Keeps, transaction,
}
use campusassistant_api.Gateway.{
  Gateway, ExecuteResult, Reply, is_confirmed, paid_amount, settle_reply, ReconcileStats,
}
use campusassistant_api.Market.{is_other_amount}
use campusassistant_api.Payment.{
  find_payment, reserve, subscription_for, report, settle_payment, fulfil, conclude, create_payment,
  execute_payment, reconcile_reply, reconcile_each, reconcile_pending,
}
use campusassistant_api.Payment.Booking.{subscription_at-same}
use campusassistant_api.Service.Orders.{IsPreserved}
use campusassistant_api.Service.Grants.{
  reserve-Keeps, save_session-Keeps, fulfil_payment-Keeps, report-Keeps, mark_terminal-keeps,
}

module _ (P : Store → Type 0) (preserved : IsPreserved P) where
  module _ (g : Gateway) where
    pub create_payment-Keeps :
        (same_code : String → String → Bool) (user_id plan_id : ℕ) (code : String)
        → Keeps P (create_payment g same_code user_id plan_id code)
    unfolding create_payment
    create_payment-Keeps same_code user_id plan_id code s h =
        elim (Option-cases (lookup plan_id s.plans)) [
          | inl e ↦ rw e h
          | inr (plan, e) ↦ rw e (
              bind-Keeps P (reserve same_code plan_id plan code) _
                (reserve-Keeps P preserved same_code plan_id plan code)
                (λ c.
                  save_session-Keeps P preserved user_id plan_id c.0 plan.price c.1
                    (g.create_payment c.0))
                s h)
        ]

    settle_payment-Keeps :
        (payment_id : String) (r : ExecuteResult) → Keeps P (settle_payment g payment_id r)
    unfolding settle_payment
    settle_payment-Keeps payment_id r s h = elim (Option-cases (find_payment payment_id s)) [
      | inl e ↦ rw e h
      | inr ((id, tx), e) ↦ elim (Bool-cases (is_completed tx.status)) [
        | inl a ↦
            rw (e, a)
              (bind-Keeps P (subscription_for tx) _ (λ u l. rw (subscription_at-same tx u) l)
                (λ sub u l. l) s h)
        | inr a ↦ elim (Bool-cases (is_other_amount (paid_amount g r) tx.amount)) [
          | inl b ↦ rw (e, a, b) (preserved.frames s _ refl refl h)
          | inr b ↦ rw (e, a, b) (fulfil_payment-Keeps P preserved id tx r s h)
        ]
      ]
    ]

    fulfil-Keeps : (payment_id : String) (r : ExecuteResult) → Keeps P (fulfil g payment_id r)
    unfolding fulfil
    fulfil-Keeps payment_id r =
        bind-Keeps P (transaction (settle_payment g payment_id r)) report
          (transaction-Keeps P (settle_payment g payment_id r) (settle_payment-Keeps payment_id r))
          (report-Keeps P preserved)

    conclude-Keeps : (payment_id : String) (reply : Reply) → Keeps P (conclude g payment_id reply)
    conclude-Keeps payment_id Reply.failed s h = h
    conclude-Keeps payment_id (Reply.answered r) s h = elim (Bool-cases (is_confirmed r)) [
      | inl e ↦ rw e (fulfil-Keeps payment_id r s h)
      | inr e ↦
          rw e (mark_terminal-keeps P preserved payment_id BkashStatus.failed r.trx_id r.raw s h)
    ]

    pub execute_payment-Keeps :
        (user_id : ℕ) (payment_id : String) → Keeps P (execute_payment g user_id payment_id)
    unfolding execute_payment
    execute_payment-Keeps user_id payment_id s h = elim (Option-cases (find_payment payment_id s)) [
      | inl e ↦ rw e h
      | inr ((id, tx), e) ↦ elim (Bool-cases (tx.user_id == user_id)) [
        | inr b ↦ rw (e, b) h
        | inl b ↦ elim (Bool-cases (is_completed tx.status)) [
          | inl c ↦ rw (e, b, c, subscription_at-same tx s) h
          | inr c ↦ elim (Bool-cases (is_needs_review tx.status)) [
            | inl d ↦ rw (e, b, c, d) h
            | inr d ↦ rw (e, b, c, d) (conclude-Keeps payment_id (settle_reply g payment_id) s h)
          ]
        ]
      ]
    ]

    reconcile_reply-keeps :
        (cancel_after : ℕ) (tx : BkashTransaction) (reply : Reply) (st : ReconcileStats) (s : Store)
        → P s
        → P (reconcile_reply g cancel_after tx reply st s).1
    unfolding reconcile_reply
    reconcile_reply-keeps cancel_after tx Reply.failed st s h = h
    reconcile_reply-keeps cancel_after tx (Reply.answered r) st s h =
        elim (Bool-cases (is_confirmed r)) [
          | inl e ↦ rw e (fulfil-Keeps tx.payment_id r s h)
          | inr e ↦ elim (Bool-cases (ltb tx.created_at (s.now - cancel_after))) [
            | inl a ↦
                rw (e, a)
                  (mark_terminal-keeps P preserved tx.payment_id BkashStatus.cancelled "" "" s h)
            | inr a ↦ rw (e, a) h
          ]
        ]

    reconcile_each-keeps :
        (cancel_after : ℕ) (txs : List (ℕ × BkashTransaction)) (st : ReconcileStats) (s : Store)
        → P s
        → P (reconcile_each g cancel_after txs st s).1
    unfolding reconcile_each
    reconcile_each-keeps cancel_after [] st s h = h
    reconcile_each-keeps cancel_after ((id, tx) ∷ txs) st s h =
        reconcile_each-keeps cancel_after txs _ _
          (reconcile_reply-keeps cancel_after tx (g.query_payment tx.payment_id) _ s h)

    pub reconcile_pending-keeps :
        (min_age cancel_after batch : ℕ) (s : Store)
        → P s
        → P (reconcile_pending g min_age cancel_after batch s).1
    unfolding reconcile_pending
    reconcile_pending-keeps min_age cancel_after batch s h =
        reconcile_each-keeps cancel_after _ _ s h
