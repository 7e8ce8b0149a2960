-- ===== src/Billing/Delivery.antt =====
-- Delivery turns an order into earnings: commissionFor, OnOrderDelivered and
-- ReleaseDeliveredOrders of internal/service/billing_service.go.
use Prim.Native.String.{String}
use campusassistant_api.Base.{
  ℕ, suc, ℤ, pos, ◌+ℤ◌, ltb_ℤ, Bool, not, ◌&&◌, ◌==◌, if◌then◌else◌, Option, none, some, List, [],
  ◌∷◌, find, select, take,
}
use campusassistant_api.Base.Table.{Table, lookup}
use campusassistant_api.Domain.{
  Float64, OrderStatus, same_status, is_bkash, OrderItem, Order, OrderTransaction, is_completed,
  Kind, SourceType, Memo, Store, M, Result, ok, err, pure, gets, or_fail, fail_if, when, Done,
  transaction, record_not_found, order_not_delivered, ◌>>=◌, ◌>>◌,
}
use campusassistant_api.Ledger.{journal_exists, post_journal}
use campusassistant_api.Billing.{
  gross_of, record_order_payment, issue_order_invoice, Share, sort_shares, release_lines,
}

-- The clamp of `commissionFor`; `c` is the rounded product of gross and rate.
unfoldable pub clamp_commission : ℤ → ℤ → ℤ
clamp_commission gross c = if ltb_ℤ c (pos 0) then pos 0 else if ltb_ℤ gross c then gross else c

-- `ot.TrxID` of the completed payment, empty if there is none.
abbrev pub trx_id_of : Option (ℕ × OrderTransaction) → String
trx_id_of none = ""
trx_id_of (some (_, ot)) = ot.trx_id

abbrev pub is_completed_of : ℕ → ℕ × OrderTransaction → Bool
is_completed_of id (_, ot) = ot.order_id == id && is_completed ot.status

-- The backfill of the payment journal, or the invoice of a cash order.
unfoldable pub book_payment : ℕ → Order → M Done
book_payment id order =
    if is_bkash order.payment_method
    then (do
      paid ← gets (journal_exists Kind.order_payment SourceType.order id)
      ot ← gets (λ s. find (is_completed_of id) s.order_txs)
      when (not paid) (record_order_payment id order (trx_id_of ot)))
    else issue_order_invoice id order "cash_on_delivery" ""

abbrev pub counted : Result Done → ℕ → ℕ
counted (ok _) n = suc n
counted (err _) n = n

-- `round_share gross rate` is `int(math.Round(float64(gross) * rate / 100))`, Go's float arithmetic.
module _ (round_share : ℤ → Float64 → ℤ) where
  unfoldable pub commission_for : ℤ → Float64 → ℤ
  unfolding clamp_commission
  commission_for gross rate = clamp_commission gross (round_share gross rate)

  -- One turn of the loop over the items: the item's merchant gets its own share.
  unfoldable pub add_item : OrderItem → Table Share → Table Share
  add_item it [] =
      (
        it.merchant_id,
        record {
          gross = pos 0 +ℤ gross_of it;
          commission = pos 0 +ℤ commission_for (gross_of it) it.commission_rate_snapshot;
        },
      )
      ∷ []
  add_item it ((id, sh) ∷ t) =
      let rest = add_item it t in
      if id == it.merchant_id
      then (
        id,
        record {
          gross = sh.gross +ℤ gross_of it;
          commission = sh.commission +ℤ commission_for (gross_of it) it.commission_rate_snapshot;
        },
      )
        ∷ t
      else (id, sh) ∷ rest

  unfoldable pub shares_from : Table Share → List OrderItem → Table Share
  shares_from t [] = t
  shares_from t (it ∷ its) = shares_from (add_item it t) its

  unfoldable pub shares_of : List OrderItem → Table Share
  shares_of items = sort_shares (shares_from [] items)

  unfoldable pub release_order : ℕ → Order → M Done
  release_order id order = do
    book_payment id order
    merchants ← gets (λ s. s.merchants)
    post_journal Kind.order_release SourceType.order id (Memo.text "Order delivered")
        (release_lines merchants (is_bkash order.payment_method) (shares_of order.items))
    pure tt

  unfoldable pub on_order_delivered : ℕ → M Done
  on_order_delivered id = transaction (do
    order ← gets (λ s. lookup id s.orders)
    found ← or_fail order record_not_found
    fail_if (not (same_status found.status OrderStatus.delivered)) order_not_delivered
    released ← gets (journal_exists Kind.order_release SourceType.order id)
    when (not released) (release_order id found))

  -- The rows that the sweeper picks.
  abbrev pub is_unreleased : Store → ℕ × Order → Bool
  is_unreleased s (id, order) =
      same_status order.status OrderStatus.delivered
      && not (journal_exists Kind.order_release SourceType.order id s)

  -- The sweeper's loop: an order that fails is logged and skipped.
  unfoldable pub release_each : List (ℕ × Order) → ℕ → M ℕ
  release_each [] done s = (ok done, s)
  release_each ((id, _) ∷ os) done s =
      let (r, t) = on_order_delivered id s in release_each os (counted r done) t

  unfoldable pub release_delivered_orders : ℕ → M ℕ
  release_delivered_orders limit s =
      release_each (take limit (select (is_unreleased s) s.orders)) 0 s
