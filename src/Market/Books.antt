-- ===== src/Market/Books.antt =====
-- The books through the payments of orders.
use Prim.Native.String.{String}
use campusassistant_api.Base.{ℕ, inl, inr, Bool-cases, Option-cases}
use campusassistant_api.Base.Table.{lookup}
use campusassistant_api.Domain.{
  OrderStatus, same_status, is_completed, Order, OrderTransaction, Keeps, then-Keeps, bind-Keeps,
  transaction-Keeps, transaction, pure,
}
use campusassistant_api.Ledger.Books.{IsBooks, post_journal-IsBooks}
use campusassistant_api.Billing.{record_order_payment}
use campusassistant_api.Billing.Frame.{record_order_payment-Keeps}
use campusassistant_api.Gateway.{Gateway, ExecuteResult, paid_amount}
use campusassistant_api.Order.{record_order_event, order_status_changed}
use campusassistant_api.Market.{
  find_payment, Outcome, pay_order, is_other_amount, settle_order, report, settle_payment, fulfil,
}
use campusassistant_api.Market.Fulfilment.{stamped_paid}

pay_order-IsBooks :
    (id : ℕ) (ot : OrderTransaction) (order : Order) (r : ExecuteResult)
    → Keeps IsBooks (pay_order id ot order r)
unfolding pay_order record_order_event
pay_order-IsBooks id ot order r s h =
    then-Keeps IsBooks (record_order_payment ot.order_id order r.trx_id)
      (pure (Outcome.paid ot.order_id ot.amount))
      (record_order_payment-Keeps IsBooks post_journal-IsBooks (λ u invs cs k. k) ot.order_id order
        r.trx_id)
      (λ u k. k) (stamped_paid id ot r s) h

report-IsBooks : (r : ExecuteResult) (out : Outcome) → Keeps IsBooks (report r out)
unfolding order_status_changed
report-IsBooks r Outcome.already s h = h
report-IsBooks r (Outcome.flagged e) s h = h
report-IsBooks r (Outcome.paid order_id amount) s h = h

module _ (g : Gateway) where
  settle_payment-IsBooks :
      (payment_id : String) (r : ExecuteResult) → Keeps IsBooks (settle_payment g payment_id r)
  unfolding settle_payment settle_order
  settle_payment-IsBooks payment_id r s h = elim (Option-cases (find_payment payment_id s)) [
    | inl e ↦ rw e h
    | inr ((id, ot), e) ↦ elim (Bool-cases (is_completed ot.status)) [
      | inl a ↦ rw (e, a) h
      | inr a ↦ elim (Bool-cases (is_other_amount (paid_amount g r) ot.amount)) [
        | inl b ↦ rw (e, a, b) h
        | inr b ↦ elim (Option-cases (lookup ot.order_id s.orders)) [
          | inl f ↦ rw (e, a, b, f) h
          | inr (order, f) ↦
              elim (Bool-cases (same_status order.status OrderStatus.pending_payment)) [
                | inl c ↦ rw (e, a, b, f, c) (pay_order-IsBooks id ot order r s h)
                | inr c ↦ rw (e, a, b, f, c) h
              ]
        ]
      ]
    ]
  ]

  -- Whatever bKash answers, fulfilling an order's payment keeps the books sound and their keys unique.
  pub fulfil-IsBooks :
      (payment_id : String) (r : ExecuteResult) → Keeps IsBooks (fulfil g payment_id r)
  unfolding fulfil
  fulfil-IsBooks payment_id r =
      bind-Keeps IsBooks (transaction (settle_payment g payment_id r)) (report r)
        (transaction-Keeps IsBooks (settle_payment g payment_id r)
          (settle_payment-IsBooks payment_id r))
        (report-IsBooks r)
