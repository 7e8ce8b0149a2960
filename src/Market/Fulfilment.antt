-- ===== src/Market/Fulfilment.antt =====
-- fulfil of internal/service/marketplace_payment_service.go, and the orders.
use Prim.Native.String.{String}
use campusassistant_api.Base.{
  ℕ, ◌≡◌, refl, ◌⊎◌, inl, inr, true, false, Bool-cases, Option-cases, some,
}
use campusassistant_api.Base.Table.{lookup, modify, find-modify}
use campusassistant_api.Domain.{
  OrderStatus, same_status, BkashStatus, is_completed, Order, OrderTransaction, Store, Result, ok,
  err, Err, Keeps, bind-ok, transaction-ok, commit-keeps, amount_mismatch, order_not_payable,
  transaction, after, then-Keeps, pure,
}
use campusassistant_api.Gateway.{Gateway, ExecuteResult, paid_amount}
use campusassistant_api.Billing.{record_order_payment}
use campusassistant_api.Billing.Frame.{SameOrders, record_order_payment-Keeps, post_journal-Keeps}
use campusassistant_api.Order.{order_status_changed, set_status, record_order_event}
use campusassistant_api.Market.{
  has_payment_id, find_payment, stamp, stamped, Outcome, pay_order, is_other_amount, settle_order,
  report, settle_payment, fulfil,
}

-- The payment table is as it was.
abbrev SameOrderTxs : Store → Store → Type 0
SameOrderTxs s t = t.order_txs ≡ s.order_txs

-- The store of `pay_order` before the payment is booked.
abbrev pub stamped_paid : ℕ → OrderTransaction → ExecuteResult → Store → Store
stamped_paid id ot r s =
    stamp id BkashStatus.completed r.trx_id r.raw (
      record_order_event ot.order_id OrderStatus.paid 0 (set_status ot.order_id OrderStatus.paid s))

pay_order-orders :
    (id : ℕ) (ot : OrderTransaction) (order : Order) (r : ExecuteResult) (s : Store)
    → ((pay_order id ot order r s).1.orders
        ≡ modify ot.order_id (λ o. record o { status = OrderStatus.paid }) s.orders)
      × ((pay_order id ot order r s).1.order_txs
          ≡ modify id (stamped BkashStatus.completed r.trx_id r.raw) s.order_txs)
unfolding pay_order record_order_event
pay_order-orders id ot order r s =
    let t = stamped_paid id ot r s in
    (
      then-Keeps (SameOrders t) (record_order_payment ot.order_id order r.trx_id)
          (pure (Outcome.paid ot.order_id ot.amount))
          (record_order_payment-Keeps (SameOrders t)
            (post_journal-Keeps (SameOrders t) (λ u js h. h)) (λ u invs cs h. h) ot.order_id order
            r.trx_id)
          (λ u h. h) t refl,
      then-Keeps (SameOrderTxs t) (record_order_payment ot.order_id order r.trx_id)
          (pure (Outcome.paid ot.order_id ot.amount))
          (record_order_payment-Keeps (SameOrderTxs t)
            (post_journal-Keeps (SameOrderTxs t) (λ u js h. h)) (λ u invs cs h. h) ot.order_id order
            r.trx_id)
          (λ u h. h) t refl,
    )

-- What the payment `payment_id` must be, and its order, for the order to be paid.
abbrev pub MayPay : Gateway → String → ExecuteResult → Store → ℕ → OrderTransaction → Order → Type 0
MayPay g payment_id r s id ot order =
    (find_payment payment_id s ≡ some (id, ot))
    × (is_completed ot.status ≡ false)
    × (is_other_amount (paid_amount g r) ot.amount ≡ false)
    × (lookup ot.order_id s.orders ≡ some order)
    × (same_status order.status OrderStatus.pending_payment ≡ true)

-- The orders are as before, or the one order that may be paid is.
abbrev pub PaysOne : Gateway → String → ExecuteResult → Store → Store → Type 0
PaysOne g payment_id r s t =
    (t.orders ≡ s.orders)
    ⊎ ((id : ℕ) × (ot : OrderTransaction) × (order : Order) × MayPay g payment_id r s id ot order
        × (t.orders ≡ modify ot.order_id (λ o. record o { status = OrderStatus.paid }) s.orders))

report-SameOrders :
    (s₀ : Store) (r : ExecuteResult) (out : Outcome) → Keeps (SameOrders s₀) (report r out)
unfolding order_status_changed
report-SameOrders s₀ r Outcome.already s h = h
report-SameOrders s₀ r (Outcome.flagged e) s h = h
report-SameOrders s₀ r (Outcome.paid order_id amount) s h = h

module _ (g : Gateway) where
  report_keeps :
      (payment_id : String) (r : ExecuteResult) (s : Store) (res : Result Outcome × Store)
      → PaysOne g payment_id r s res.1
      → PaysOne g payment_id r s (after (report r) res).1
  report_keeps payment_id r s (err e, t) h = h
  report_keeps payment_id r s (ok out, t) h = rw (report-SameOrders t r out t refl) h

  settle_payment-PaysOne :
      (payment_id : String) (r : ExecuteResult) (s : Store)
      → PaysOne g payment_id r s (settle_payment g payment_id r s).1
  unfolding settle_payment settle_order
  settle_payment-PaysOne payment_id r s = elim (Option-cases (find_payment payment_id s)) [
    | inl e ↦ inl (rw e)
    | inr ((id, ot), e) ↦ elim (Bool-cases (is_completed ot.status)) [
      | inl a ↦ inl (rw (e, a))
      | inr a ↦ elim (Bool-cases (is_other_amount (paid_amount g r) ot.amount)) [
        | inl b ↦ inl (rw (e, a, b))
        | inr b ↦ elim (Option-cases (lookup ot.order_id s.orders)) [
          | inl f ↦ inl (rw (e, a, b, f))
          | inr (order, f) ↦
              elim (Bool-cases (same_status order.status OrderStatus.pending_payment)) [
                | inl c ↦ inr (
                  id,
                  ot,
                  order,
                  (e, a, b, f, c),
                  rw (e, a, b, f, c) ((pay_order-orders id ot order r s).0),
                )
                | inr c ↦ inl (rw (e, a, b, f, c))
              ]
        ]
      ]
    ]
  ]

  -- Fulfilling a payment changes no order, unless the payment is not completed yet, bKash reported
  -- no amount other than the one stored, and the order awaits payment: then that order is paid.
  pub fulfil-PaysOne :
      (payment_id : String) (r : ExecuteResult) (s : Store)
      → PaysOne g payment_id r s (fulfil g payment_id r s).1
  unfolding fulfil
  fulfil-PaysOne payment_id r s =
      report_keeps payment_id r s (transaction (settle_payment g payment_id r) s) (
        commit-keeps (PaysOne g payment_id r s) s (settle_payment g payment_id r s) (inl refl)
          (settle_payment-PaysOne payment_id r s))

abbrev IsSettled : String → Store → Type 0
IsSettled payment_id s =
    (row : ℕ × OrderTransaction) × (find_payment payment_id s ≡ some row)
    × (is_completed row.1.status ≡ true)

abbrev IsClear : Outcome → Type 0
IsClear (Outcome.flagged e) = ⊥
IsClear _ = Unit

report-SameOrderTxs :
    (s₀ : Store) (r : ExecuteResult) (out : Outcome) → Keeps (SameOrderTxs s₀) (report r out)
unfolding order_status_changed
report-SameOrderTxs s₀ r Outcome.already s h = h
report-SameOrderTxs s₀ r (Outcome.flagged e) s h = h
report-SameOrderTxs s₀ r (Outcome.paid order_id amount) s h = h

report-IsClear :
    (r : ExecuteResult) (out : Outcome) (s : Store) → (report r out s).0 ≡ ok tt → IsClear out
report-IsClear r Outcome.already s h = tt
report-IsClear r (Outcome.flagged e) s h = cc
report-IsClear r (Outcome.paid order_id amount) s h = tt

flagged_clear :
    (e : Err) (out : Outcome)
    → Path (Result Outcome) (ok (Outcome.flagged e)) (ok out)
    → IsClear out
    → ⊥
flagged_clear e Outcome.already h clear = cc
flagged_clear e (Outcome.flagged d) h clear = clear
flagged_clear e (Outcome.paid id amount) h clear = cc

module _ (g : Gateway) where
  settle_payment-IsSettled :
      (payment_id : String) (r : ExecuteResult) (s : Store) (out : Outcome)
      → (settle_payment g payment_id r s).0 ≡ ok out
      → IsClear out
      → IsSettled payment_id (settle_payment g payment_id r s).1
  unfolding settle_payment settle_order
  settle_payment-IsSettled payment_id r s out h clear =
      elim (Option-cases (find_payment payment_id s)) [
        | inl e ↦ cc (rw e at h)
        | inr ((id, ot), e) ↦ elim (Bool-cases (is_completed ot.status)) [
          | inl a ↦ ((id, ot), rw (e, a) e, a)
          | inr a ↦ elim (Bool-cases (is_other_amount (paid_amount g r) ot.amount)) [
            | inl b ↦ absurd (flagged_clear amount_mismatch out (rw (e, a, b) at h) clear)
            | inr b ↦ elim (Option-cases (lookup ot.order_id s.orders)) [
              | inl f ↦ cc (rw (e, a, b, f) at h)
              | inr (order, f) ↦
                  elim (Bool-cases (same_status order.status OrderStatus.pending_payment)) [
                    | inl c ↦
                        let done = stamped BkashStatus.completed r.trx_id r.raw in
                        (
                          (id, done ot),
                          rw (e, a, b, f, c)
                              (rw ((pay_order-orders id ot order r s).1) (
                                find-modify (has_payment_id payment_id) id done s.order_txs
                                  (λ i w. refl) e)),
                          refl,
                        )
                    | inr c ↦
                        absurd (flagged_clear order_not_payable out (rw (e, a, b, f, c) at h) clear)
                  ]
            ]
          ]
        ]
      ]

  fulfil_settled :
      (payment_id : String) (r : ExecuteResult) (s : Store)
      → IsSettled payment_id s
      → fulfil g payment_id r s ≡ (ok tt, s)
  unfolding fulfil settle_payment
  fulfil_settled payment_id r s (row, e, a) = rw (e, a)

  -- A payment that was fulfilled is fulfilled once: whatever bKash answers when it is fulfilled
  -- again, the call succeeds and changes nothing.
  pub fulfil_twice :
      (payment_id : String) (r r' : ExecuteResult) (s : Store)
      → (fulfil g payment_id r s).0 ≡ ok tt
      → let t = (fulfil g payment_id r s).1 in fulfil g payment_id r' t ≡ (ok tt, t)
  unfolding fulfil
  fulfil_twice payment_id r r' s h =
      let u = (transaction (settle_payment g payment_id r) s).1 in
      let (out, p, q) = bind-ok (transaction (settle_payment g payment_id r)) (report r) s h in
      let c = transaction-ok (settle_payment g payment_id r) s p in
      let clear = report-IsClear r out u (rw q at h) in
      let (row, e, a) = settle_payment-IsSettled payment_id r s out (rw c at p) clear in
      fulfil_settled payment_id r' (fulfil g payment_id r s).1
        (row, (rw (q, report-SameOrderTxs u r out u refl, c) e), a)
