-- ===== src/Order.antt =====
-- The life of an order: CanTransition, recordOrderEvent, PlaceOrder, restockOrder, OnCreated,
-- Transition, CancelByBuyer, ExpireUnpaid and afterChange of internal/service/order_service.go.
-- The service has billing, a notifier and insights; what these send stands in the outbox.
pub mod Status
pub mod Transition
pub mod Stock
pub mod Placing
pub mod Books
pub mod Cancelling
use Prim.Native.String.{String}
use campusassistant_api.Base.{
  ℕ, suc, ◌-◌, ◌*◌, ℤ, pos, ◌+ℤ◌, ◌-ℤ◌, leb_ℤ, ltb, Bool, true, false, not, ◌&&◌, ◌||◌, ◌==◌,
  if◌then◌else◌, Option, none, some, List, [], ◌∷◌, ◌++◌, select, exists, take,
}
use campusassistant_api.Base.Table.{Table, lookup, modify, insert}
use campusassistant_api.Domain.{
  Float64, OrderStatus, same_status, is_bkash, is_cash_on_delivery, OrderItem, Order, OrderEvent,
  Product, BkashStatus, is_completed, is_needs_review, is_initiated, OrderTransaction, Store, M,
  Result, ok, err, Effect, pure, gets, or_fail, fail_if, update, emit, when, Done, transaction, Err,
  order_not_found, forbidden, order_not_cancellable, invalid_transition, stock_error, ◌>>=◌, ◌>>◌,
  buyer_status, merchants_new_order, merchants_cancelled, refresh_ship_speed,
}
use campusassistant_api.Billing.Delivery.{on_order_delivered, counted}

-- `orderRank`, a map: cancelled and unknown statuses are not in it.
unfoldable pub order_rank : OrderStatus → Option ℕ
order_rank OrderStatus.pending_payment = some 0
order_rank OrderStatus.paid = some 1
order_rank OrderStatus.processing = some 2
order_rank OrderStatus.shipped = some 3
order_rank OrderStatus.delivered = some 4
order_rank _ = none

abbrev pub rank_above : Option ℕ → Option ℕ → Bool
rank_above (some rt) (some rf) = ltb rf rt
rank_above _ _ = false

unfoldable pub can_transition : OrderStatus → OrderStatus → Bool
unfolding order_rank
can_transition from to =
    if same_status from to
      || (same_status from OrderStatus.delivered || same_status from OrderStatus.cancelled)
    then false
    else (if same_status to OrderStatus.cancelled
        then true
        else rank_above (order_rank to) (order_rank from))

-- `recordOrderEvent`
unfoldable pub record_order_event : ℕ → OrderStatus → ℕ → Store → Store
record_order_event id status actor s = record s {
  events = s.events ++ record { order_id = id; status = status; actor_id = actor } ∷ [];
}

-- `Update("status", to)` on one order.
abbrev pub set_status : ℕ → OrderStatus → Store → Store
set_status id to s = record s { orders = modify id (λ o. record o { status = to }) s.orders }

abbrev pub with_stock : ℤ → Product → Product
with_stock n p = record p { stock = n }

-- Why no row matched: the query for the reason does not see a product that is deleted.
abbrev pub shortfall : OrderItem → Product → Err
shortfall it p =
    if p.is_deleted
    then stock_error it.product_title (pos 0) true
    else stock_error it.product_title p.stock (not p.is_published)

-- The conditional UPDATE of one line, which also matches a deleted product, then the reason when no
-- row matched.
unfoldable pub take_stock : OrderItem → M Done
take_stock it s = elim (lookup it.product_id s.products) [
  | none ↦ (err (stock_error it.product_title (pos 0) true), s)
  | some p ↦
      if p.is_published && leb_ℤ it.quantity p.stock
      then (
        ok tt,
        record s {
          products = modify it.product_id (λ q. with_stock (q.stock -ℤ it.quantity) q) s.products;
        },
      )
      else (err (shortfall it p), s)
]

unfoldable pub take_each : List OrderItem → M Done
take_each [] = pure tt
take_each (it ∷ its) = take_stock it >> take_each its

-- `tx.Create(order)`, with the id that it gets.
unfoldable pub create_order : Order → Store → Store
create_order o s = record s { orders = insert s.next_id o s.orders; next_id = suc s.next_id }

unfoldable pub place_order : Order → M ℕ
place_order order = do
  id ← transaction (do
    take_each order.items
    id ← gets (λ s. s.next_id)
    update (create_order order)
    update (record_order_event id order.status order.buyer_id)
    pure id)
  when (same_status order.status OrderStatus.processing) (emit (merchants_new_order id))
  pure id

-- The loop of `restockOrder`; a product that is gone matches no row.
unfoldable pub restock_each : List OrderItem → Table Product → Table Product
restock_each [] ps = ps
restock_each (it ∷ its) ps =
    restock_each its (modify it.product_id (λ q. with_stock (q.stock +ℤ it.quantity) q) ps)

abbrev pub items_of : Option Order → List OrderItem
items_of none = []
items_of (some o) = o.items

unfoldable pub restock_order : ℕ → Store → Store
restock_order id s = record s { products = restock_each (items_of (lookup id s.orders)) s.products }

unfoldable pub on_created : ℕ → Order → M Done
on_created id order = do
  update (record_order_event id order.status order.buyer_id)
  when (same_status order.status OrderStatus.processing) (emit (merchants_new_order id))

-- `OrderStatusChanged`: the buyer's message for a status that has one, and the sellers' when paid.
unfoldable pub order_status_changed : ℕ → OrderStatus → M Done
order_status_changed id OrderStatus.pending_payment = pure tt
order_status_changed id (OrderStatus.other n) = pure tt
order_status_changed id OrderStatus.paid =
    emit (buyer_status id OrderStatus.paid) >> emit (merchants_new_order id)
order_status_changed id to = emit (buyer_status id to)

-- The transaction of `Transition`, once the order is known to have another status.
unfoldable pub move_order : ℕ → Order → OrderStatus → ℕ → M Bool
move_order id order to actor = do
  fail_if (not (can_transition order.status to)) (invalid_transition order.status to)
  update (set_status id to)
  when (same_status to OrderStatus.cancelled) (update (restock_order id))
  update (record_order_event id to actor)
  pure true

-- The transaction of `Transition`; the answer is `changed`.
unfoldable pub change_status : ℕ → OrderStatus → ℕ → M Bool
unfolding move_order
change_status id to actor = do
  row ← gets (λ s. lookup id s.orders)
  order ← or_fail row order_not_found
  if same_status order.status to then pure false else move_order id order to actor

-- Cash on delivery that has not shipped.
abbrev pub is_open_cash : Order → Bool
is_open_cash order =
    is_cash_on_delivery order.payment_method && same_status order.status OrderStatus.processing

unfoldable pub cancel_open : ℕ → ℕ → Order → M (Bool × Bool)
cancel_open user_id id order = do
  fail_if (not (same_status order.status OrderStatus.pending_payment) && not (is_open_cash order))
      order_not_cancellable
  update (set_status id OrderStatus.cancelled)
  update (restock_order id)
  update (record_order_event id OrderStatus.cancelled user_id)
  pure (true, is_open_cash order)

-- The transaction of `CancelByBuyer`; the answer is `changed` and `sellersKnew`.
unfoldable pub cancel_status : ℕ → ℕ → M (Bool × Bool)
unfolding cancel_open
cancel_status user_id id = do
  row ← gets (λ s. lookup id s.orders)
  order ← or_fail row order_not_found
  fail_if (not (order.buyer_id == user_id)) forbidden
  if same_status order.status OrderStatus.cancelled
      then pure (false, false)
      else cancel_open user_id id order

unfoldable pub cancel_by_buyer : ℕ → ℕ → M Done
cancel_by_buyer user_id id = do
  outcome ← transaction (cancel_status user_id id)
  when (outcome.0 && outcome.1) (emit (merchants_cancelled id))

-- A failed booking is logged, and never returned.
abbrev pub ignoring : M Done → M Done
ignoring m s = (ok tt, (m s).1)

abbrev pub hour : ℕ
hour = 3600 * 1_000_000_000

-- A payment of the order that is completed, awaits review, or began within the last hour.
abbrev pub holds_order : ℕ → ℕ → ℕ × OrderTransaction → Bool
holds_order now id (_, ot) =
    ot.order_id == id
    && (is_completed ot.status
        || is_needs_review ot.status
        || (is_initiated ot.status && ltb (now - hour) ot.created_at))

-- The orders that the query of `ExpireUnpaid` finds; the table is in order of creation.
abbrev pub is_abandoned : ℕ → Store → ℕ × Order → Bool
is_abandoned max_age s (id, o) =
    same_status o.status OrderStatus.pending_payment
    && (is_bkash o.payment_method
        && ltb o.created_at (s.now - max_age)
        && not (exists (holds_order s.now id) s.order_txs))

module _ (round_share : ℤ → Float64 → ℤ) where
  unfoldable pub after_change : ℕ → OrderStatus → M Done
  after_change id to = do
    when (same_status to OrderStatus.delivered) (ignoring (on_order_delivered round_share id))
    when (same_status to OrderStatus.shipped) (emit (refresh_ship_speed id))
    order_status_changed id to

  unfoldable pub transition : ℕ → OrderStatus → ℕ → M Done
  transition id to actor = do
    changed ← transaction (change_status id to actor)
    when changed (after_change id to)

  unfoldable pub expire_each : List (ℕ × Order) → ℕ → M ℕ
  expire_each [] n s = (ok n, s)
  expire_each ((id, _) ∷ os) n s =
      let (r, t) = transition id OrderStatus.cancelled 0 s in expire_each os (counted r n) t

  unfoldable pub expire_unpaid : ℕ → ℕ → M ℕ
  expire_unpaid max_age batch s =
      expire_each (take batch (select (is_abandoned max_age s) s.orders)) 0 s
