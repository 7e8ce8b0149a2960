-- ===== src/Market.antt =====
-- bKash payments of marketplace orders: internal/service/marketplace_payment_service.go.
-- The service has billing, a notifier and Telegram; what these send stands in the outbox.
pub mod Fulfilment
pub mod Books
pub mod Closing
use Prim.Native.String.{String}
use text.Mathlib.Text.{◌==◌ as str_eq}
use campusassistant_api.Base.{
  ℕ, suc, ◌-◌, ◌+◌, ℤ, eq_ℤ, ltb, Bool, true, false, not, ◌&&◌, ◌||◌, ◌==◌, if◌then◌else◌, Option,
  none, some, List, [], ◌∷◌, find, exists, select, take, map,
}
use campusassistant_api.Base.Table.{Table, lookup, modify, insert}
use campusassistant_api.Domain.{
  OrderStatus, same_status, is_bkash, Order, BkashStatus, is_initiated, is_completed,
  is_needs_review, OrderTransaction, Store, M, Result, ok, err, Err, pure, fail, gets, or_fail,
  fail_if, update, emit, when, Done, transaction, order_not_found, forbidden, order_not_payable,
  gateway_error, unique_violation, order_tx_not_found, amount_mismatch, telegram_order_paid,
  marketplace_payment_not_completed, ◌>>=◌, ◌>>◌,
}
use campusassistant_api.Billing.{record_order_payment}
use campusassistant_api.Order.{set_status, record_order_event, order_status_changed}
use campusassistant_api.Gateway.{
  Gateway, ExecuteResult, Reply, Session, is_confirmed, paid_amount, settle_reply, ReconcileStats,
  no_stats,
}

abbrev pub has_payment_id : String → ℕ × OrderTransaction → Bool
has_payment_id payment_id (_, ot) = str_eq ot.payment_id payment_id

abbrev pub find_payment : String → Store → Option (ℕ × OrderTransaction)
find_payment payment_id s = find (has_payment_id payment_id) s.order_txs

unfoldable pub open_payment : ℕ → ℤ → String → Store → Store
open_payment order_id amount payment_id s = record s {
  order_txs =
      insert s.next_id
        (record {
          created_at = s.now;
          order_id = order_id;
          payment_id = payment_id;
          trx_id = "";
          amount = amount;
          status = BkashStatus.initiated;
          raw_response = "";
        })
        s.order_txs;
  next_id = suc s.next_id;
}

abbrev pub save_session : ℕ → ℤ → Session → M String
save_session order_id amount Session.refused = fail gateway_error
save_session order_id amount (Session.opened payment_id) = do
  taken ← gets (λ s. exists (has_payment_id payment_id) s.order_txs)
  fail_if taken unique_violation
  update (open_payment order_id amount payment_id)
  pure payment_id

-- The status, bKash's transaction id and its answer, written to one payment row.
abbrev pub stamped : BkashStatus → String → String → OrderTransaction → OrderTransaction
stamped status trx_id raw ot = record ot { status = status; trx_id = trx_id; raw_response = raw }

abbrev pub stamp : ℕ → BkashStatus → String → String → Store → Store
stamp id status trx_id raw s = record s {
  order_txs = modify id (stamped status trx_id raw) s.order_txs;
}

-- How the transaction of `fulfil` ended: nothing to do, flagged with `outcome`, or paid.
pub data Outcome : Type 0 where
  already : Outcome
  flagged : Err → Outcome
  paid : ℕ → ℤ → Outcome

unfoldable pub pay_order : ℕ → OrderTransaction → Order → ExecuteResult → M Outcome
pay_order id ot order r = do
  update (set_status ot.order_id OrderStatus.paid)
  update (record_order_event ot.order_id OrderStatus.paid 0)
  update (stamp id BkashStatus.completed r.trx_id r.raw)
  record_order_payment ot.order_id order r.trx_id
  pure (paid ot.order_id ot.amount)

abbrev pub flag_review : ℕ → ExecuteResult → Err → M Outcome
flag_review id r e = do update (stamp id BkashStatus.needs_review r.trx_id r.raw); pure (flagged e)

abbrev pub is_other_amount : Option ℤ → ℤ → Bool
is_other_amount none amount = false
is_other_amount (some reported) amount = not (eq_ℤ reported amount)

unfoldable pub settle_order : ℕ → OrderTransaction → ExecuteResult → M Outcome
settle_order id ot r = do
  row ← gets (λ s. lookup ot.order_id s.orders)
  order ← or_fail row order_not_found
  if same_status order.status OrderStatus.pending_payment
      then pay_order id ot order r
      else flag_review id r order_not_payable

-- After the payment: the order's messages, or the error that was carried out of the transaction.
abbrev pub report : ExecuteResult → Outcome → M Done
report r already = pure tt
report r (flagged e) = fail e
report r (paid order_id amount) =
    order_status_changed order_id OrderStatus.paid >> emit (telegram_order_paid order_id amount)

-- A payment that is still initiated is closed; any other is left alone.
abbrev pub closed :
    String → BkashStatus → String → String → ℕ × OrderTransaction → ℕ × OrderTransaction
closed payment_id status trx_id raw (id, ot) = (
  id,
  if str_eq ot.payment_id payment_id && is_initiated ot.status
      then stamped status trx_id raw ot
      else ot,
)

unfoldable pub mark_terminal : String → BkashStatus → String → String → Store → Store
mark_terminal payment_id status trx_id raw s = record s {
  order_txs = map (closed payment_id status trx_id raw) s.order_txs;
}

module _ (g : Gateway) where
  unfoldable pub create_payment : ℕ → ℕ → M String
  create_payment user_id order_id = do
    row ← gets (λ s. lookup order_id s.orders)
    order ← or_fail row order_not_found
    fail_if (not (order.buyer_id == user_id)) forbidden
    fail_if
        (not (same_status order.status OrderStatus.pending_payment)
          || not (is_bkash order.payment_method))
        order_not_payable
    save_session order_id order.total_amount (g.create_payment order.total_amount)

  unfoldable pub settle_payment : String → ExecuteResult → M Outcome
  settle_payment payment_id r = do
    row ← gets (find_payment payment_id)
    tx ← or_fail row order_tx_not_found
    if is_completed tx.1.status
        then pure already
        else (if is_other_amount (paid_amount g r) tx.1.amount
            then flag_review tx.0 r amount_mismatch
            else settle_order tx.0 tx.1 r)

  unfoldable pub fulfil : String → ExecuteResult → M Done
  fulfil payment_id r = transaction (settle_payment payment_id r) >>= report r

  abbrev pub conclude : String → Reply → M Done
  conclude payment_id Reply.failed = fail gateway_error
  conclude payment_id (Reply.answered r) =
      if is_confirmed r
      then fulfil payment_id r
      else (update (mark_terminal payment_id BkashStatus.failed r.trx_id r.raw)
          >> fail marketplace_payment_not_completed)

  unfoldable pub execute_payment : ℕ → String → M Done
  execute_payment user_id payment_id = do
    found ← gets (find_payment payment_id)
    tx ← or_fail found order_tx_not_found
    row ← gets (λ s. lookup tx.1.order_id s.orders)
    order ← or_fail row order_not_found
    fail_if (not (order.buyer_id == user_id)) forbidden
    if is_completed tx.1.status
        then pure tt
        else (if is_needs_review tx.1.status
            then fail amount_mismatch
            else conclude payment_id (settle_reply g payment_id))

  -- One pending payment of the reconciler: the new counts and the store.
  abbrev pub tally : ReconcileStats → Result Done → ReconcileStats
  tally st (ok _) = record st { recovered = suc st.recovered }
  tally st (err _) = record st { errors = suc st.errors }

  unfoldable pub reconcile_reply :
      ℕ → OrderTransaction → Reply → ReconcileStats → Store → ReconcileStats × Store
  reconcile_reply cancel_after ot Reply.failed st s = (record st { errors = suc st.errors }, s)
  reconcile_reply cancel_after ot (Reply.answered r) st s =
      if is_confirmed r
      then (let (res, t) = fulfil ot.payment_id r s in (tally st res, t))
      else (if ltb ot.created_at (s.now - cancel_after)
          then (
            record st { cancelled = suc st.cancelled },
            mark_terminal ot.payment_id BkashStatus.cancelled "" "" s,
          )
          else (st, s))

  unfoldable pub reconcile_each :
      ℕ → List (ℕ × OrderTransaction) → ReconcileStats → Store → ReconcileStats × Store
  reconcile_each cancel_after [] st s = (st, s)
  reconcile_each cancel_after ((_, ot) ∷ ots) st s =
      let (st', t) =
        reconcile_reply cancel_after ot (g.query_payment ot.payment_id)
          (record st { checked = suc st.checked }) s in
      reconcile_each cancel_after ots st' t

  abbrev pub is_pending : ℕ → Store → ℕ × OrderTransaction → Bool
  is_pending min_age s (_, ot) = is_initiated ot.status && ltb ot.created_at (s.now - min_age)

  unfoldable pub reconcile_pending : ℕ → ℕ → ℕ → Store → ReconcileStats × Store
  reconcile_pending min_age cancel_after batch s =
      reconcile_each cancel_after (take batch (select (is_pending min_age s) s.order_txs)) no_stats
        s
