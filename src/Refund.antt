-- ===== src/Refund.antt =====
-- Refunds: validateRefundInput, RefundSubscriptionPayment and RefundOrder of
-- internal/service/refund_service.go. `trim` is strings.TrimSpace.
pub mod Once
use Prim.Native.String.{String}
use text.Mathlib.Text.{◌==◌ as str_eq}
use campusassistant_api.Base.{
  ℕ, ltb, Bool, true, false, not, ◌&&◌, ◌||◌, ◌==◌, if◌then◌else◌, Option, none, some, List, [],
  ◌∷◌, ◌++◌, map, exists, select,
}
use campusassistant_api.Base.Table.{lookup, modify}
use campusassistant_api.Domain.{
  OrderStatus, same_status, is_bkash, Order, BkashStatus, is_completed, is_needs_review,
  OrderTransaction, Kind, SourceType, same_source, Refund, BkashTransaction, Store, M, gets,
  or_fail, fail_if, update, when, Done, transaction, order_not_found, transaction_not_found,
  not_refundable, already_refunded, unique_violation, ◌>>=◌, ◌>>◌,
}
use campusassistant_api.Ledger.{reverse_journals}
use campusassistant_api.Billing.{is_invoice_of}
use campusassistant_api.Order.{set_status, record_order_event, restock_order, order_status_changed}
use campusassistant_api.Market.{stamp}
use campusassistant_api.Subscription.{recompute_pro}
use campusassistant_api.Coupon.{release_coupon}

abbrev pub is_refunded : BkashStatus → Bool
is_refunded BkashStatus.refunded = true
is_refunded _ = false

-- The invoices of a source get their voiding time.
unfoldable pub void_invoices : SourceType → ℕ → Store → Store
void_invoices t i s = record s {
  invoices =
      map (λ inv. if is_invoice_of t i inv then record inv { voided_at = some s.now } else inv)
        s.invoices;
}

abbrev pub is_refund_of : Refund → Refund → Bool
is_refund_of r q = same_source q.source_type r.source_type && q.source_id == r.source_id

-- `tx.Create(r)`, under the unique index on the source.
unfoldable pub create_refund : Refund → M Done
create_refund r = do
  taken ← gets (λ s. exists (is_refund_of r) s.refunds)
  fail_if taken unique_violation
  update (λ s. record s { refunds = s.refunds ++ r ∷ [] })

abbrev pub end_subscription : Option ℕ → Store → Store
end_subscription none s = s
end_subscription (some id) s = record s {
  subscriptions = modify id (λ sub. record sub { refunded_at = some s.now }) s.subscriptions;
}

abbrev pub release_if : Option ℕ → Store → Store
release_if none s = s
release_if (some id) s = release_coupon id s

-- A completed payment gives its coupon use back.
abbrev pub return_coupon : BkashTransaction → Store → Store
return_coupon bt s = if is_completed bt.status then release_if bt.coupon_code_id s else s

abbrev pub set_refunded : ℕ → Store → Store
set_refunded id s = record s {
  bkash_txs = modify id (λ bt. record bt { status = BkashStatus.refunded }) s.bkash_txs;
}

unfoldable pub refund_found : ℕ → ℕ → BkashTransaction → String → String → M Done
refund_found admin_id id bt reference reason = do
  fail_if (is_refunded bt.status) already_refunded
  fail_if (not (is_completed bt.status || is_needs_review bt.status)) not_refundable
  reverse_journals SourceType.bkash_transaction id (Kind.subscription_payment ∷ [])
  update (end_subscription bt.subscription_id)
  update (void_invoices SourceType.bkash_transaction id)
  update (recompute_pro bt.user_id)
  update (return_coupon bt)
  update (set_refunded id)
  create_refund (record {
    source_type = SourceType.bkash_transaction;
    source_id = id;
    user_id = bt.user_id;
    amount = bt.amount;
    reference = reference;
    reason = reason;
    refunded_by = admin_id;
  })

-- The payments of an order that a refund looks at, and the one created last among them.
abbrev pub is_settled_of : ℕ → ℕ × OrderTransaction → Bool
is_settled_of order_id (_, ot) =
    ot.order_id == order_id
    && (is_completed ot.status || is_needs_review ot.status || is_refunded ot.status)

abbrev pub later_of :
    Option (ℕ × OrderTransaction) → ℕ × OrderTransaction → Option (ℕ × OrderTransaction)
later_of none row = some row
later_of (some best) row = if ltb row.1.created_at best.1.created_at then some best else some row

unfoldable pub newest :
    Option (ℕ × OrderTransaction) → List (ℕ × OrderTransaction) → Option (ℕ × OrderTransaction)
newest best [] = best
newest best (row ∷ rows) = newest (later_of best row) rows

unfoldable pub settled_payment : ℕ → Store → Option (ℕ × OrderTransaction)
unfolding newest
settled_payment order_id s = newest none (select (is_settled_of order_id) s.order_txs)

unfoldable pub refund_paid : ℕ → ℕ → Order → ℕ → OrderTransaction → String → String → M Done
refund_paid admin_id order_id order ot_id ot reference reason = do
  fail_if (is_refunded ot.status) already_refunded
  reverse_journals SourceType.order order_id (Kind.order_release ∷ Kind.order_payment ∷ [])
  update (void_invoices SourceType.order order_id)
  update (set_status order_id OrderStatus.cancelled)
  when (not (same_status order.status OrderStatus.delivered)) (update (restock_order order_id))
  update (record_order_event order_id OrderStatus.cancelled admin_id)
  update (stamp ot_id BkashStatus.refunded ot.trx_id ot.raw_response)
  create_refund (record {
    source_type = SourceType.order;
    source_id = order_id;
    user_id = order.buyer_id;
    amount = ot.amount;
    reference = reference;
    reason = reason;
    refunded_by = admin_id;
  })

module _ (trim : String → String) where
  unfoldable pub refund_subscription_payment : ℕ → ℕ → String → String → M Done
  refund_subscription_payment admin_id id reference reason = do
    fail_if (str_eq (trim reference) "") not_refundable
    transaction (do
      row ← gets (λ s. lookup id s.bkash_txs)
      bt ← or_fail row transaction_not_found
      refund_found admin_id id bt (trim reference) (trim reason))

  unfoldable pub refund_order : ℕ → ℕ → String → String → M Done
  refund_order admin_id order_id reference reason = do
    fail_if (str_eq (trim reference) "") not_refundable
    transaction (do
      row ← gets (λ s. lookup order_id s.orders)
      order ← or_fail row order_not_found
      fail_if (not (is_bkash order.payment_method)) not_refundable
      payment ← gets (settled_payment order_id)
      ot ← or_fail payment not_refundable
      refund_paid admin_id order_id order ot.0 ot.1 (trim reference) (trim reason))
    order_status_changed order_id OrderStatus.cancelled
