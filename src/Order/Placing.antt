-- ===== src/Order/Placing.antt =====
-- PlaceOrder and a cancellation through Transition (internal/service/order_service.go).
use mathlib.Core.Option
use campusassistant_api.Base.{
  ℕ, ℤ, ◌-ℤ◌, int_laws, ==_refl, ◌≡◌, refl, ◌∙◌, ap, inl, inr, true, false, Bool-cases,
  Option-cases, none, some, List,
}
use campusassistant_api.Base.Table.{Table, lookup, lookup-insert, lookup-modify_self}
use campusassistant_api.Domain.{
  Float64, bind-ok, transaction-ok, transaction-err, bind-err, OrderItem, OrderStatus, same_status,
  Order, Product, Store, ok, err, Err, M, pure, gets, update, emit, merchants_new_order,
  transaction, when, ◌>>=◌, ◌>>◌,
}
use campusassistant_api.Order.{
  order_status_changed, restock_each, take_each, create_order, record_order_event, place_order,
  restock_order, transition, can_transition, after_change,
}
use campusassistant_api.Order.Transition.{moved, transition-moved}
use campusassistant_api.Order.Stock.{
  ordered, stock_of, taken, stock_of-taken, stock_of-restock_each, Stocked, take_each-ok,
}

-- The transaction of PlaceOrder.
place_body : Order → M ℕ
place_body order = do
  take_each order.items
  id ← gets (λ s. s.next_id)
  update (create_order order)
  update (record_order_event id order.status order.buyer_id)
  pure id

-- The store of a placed order, before the sellers' message.
abbrev placed : Order → Store → Store
placed order s =
    record_order_event s.next_id order.status order.buyer_id
      (create_order order (record s { products = taken order.items s.products }))

announced : ℕ → Order → Store → Store
announced id order s =
    ((when (same_status order.status OrderStatus.processing) (emit (merchants_new_order id))) s).1

place_body-ok :
    (order : Order) (s : Store) {id : ℕ}
    → (place_body order s).0 ≡ ok id
    → (place_body order s ≡ (ok s.next_id, placed order s))
      × (Stocked s.products → Stocked (taken order.items s.products))
unfolding place_body
place_body-ok order s h =
    let (_, p, q) =
      bind-ok (take_each order.items)
        (λ _. gets (λ t. t.next_id) >>= λ id.
          update (create_order order)
          >> update (record_order_event id order.status order.buyer_id)
          >> pure id)
        s h in
    let (e, k) = take_each-ok order.items s p in (rw q (rw e refl), k)

place_order-body :
    (order : Order) (s : Store) {id : ℕ}
    → (place_order order s).0 ≡ ok id
    → (place_order order s ≡ (ok s.next_id, announced s.next_id order (placed order s)))
      × (Stocked s.products → Stocked (taken order.items s.products))
unfolding place_order announced place_body
place_order-body order s h =
    let (_, p, q) =
      bind-ok (transaction (place_body order))
        (λ id.
          when (same_status order.status OrderStatus.processing) (emit (merchants_new_order id))
          >> pure id)
        s h in
    let c = transaction-ok (place_body order) s p in
    let (e, k) = place_body-ok order s (rw c at p) in
    (
      elim (Bool-cases (same_status order.status OrderStatus.processing)) [
        | inl st ↦ rw (c ∙ e, announced, st)
        | inr st ↦ rw (c ∙ e, announced, st)
      ],
      k,
    )

announced-products :
    (id : ℕ) (order : Order) (s : Store) → (announced id order s).products ≡ s.products
unfolding announced
announced-products id order s =
    elim (Bool-cases (same_status order.status OrderStatus.processing)) [
      | inl e ↦ rw (announced, e)
      | inr e ↦ rw (announced, e)
    ]

placed-products :
    (order : Order) (s : Store) → (placed order s).products ≡ taken order.items s.products
unfolding record_order_event create_order
placed-products order s = refl

-- A placed order took from each product's stock exactly what its items ask for, and no stock fell
-- below zero.
pub place_order_stock :
    (order : Order) (s : Store) {id : ℕ} (k : ℕ)
    → (place_order order s).0 ≡ ok id
    → let t = (place_order order s).1 in
      (stock_of k t.products ≡ Option.map (λ n. n -ℤ ordered k order.items) (stock_of k s.products))
      × (Stocked s.products → Stocked t.products)
place_order_stock order s k h =
    let (e, stocked) = place_order-body order s h in
    rw (e, announced-products s.next_id order (placed order s), placed-products order s)
      (stock_of-taken k order.items s.products, stocked)

-- A refused order changes nothing: no stock is taken, and there is no order and no event.
pub place_order_refused :
    (order : Order) (s : Store) {e : Err}
    → (place_order order s).0 ≡ err e
    → place_order order s ≡ (err e, s)
unfolding place_order place_body
place_order_refused order s h =
    elim (bind-err (transaction (place_body order))
      (λ id.
        when (same_status order.status OrderStatus.processing) (emit (merchants_new_order id))
        >> pure id)
      s h) [
        | inl (p, q) ↦ q ∙ rw (transaction-err (place_body order) s p)
        | inr (id, p, q) ↦ elim (Bool-cases (same_status order.status OrderStatus.processing)) [
          | inl st ↦ cc (rw st at q)
          | inr st ↦ cc (rw st at q)
        ]
      ]

announced-orders : (id : ℕ) (order : Order) (s : Store) → (announced id order s).orders ≡ s.orders
unfolding announced
announced-orders id order s = elim (Bool-cases (same_status order.status OrderStatus.processing)) [
  | inl e ↦ rw (announced, e)
  | inr e ↦ rw (announced, e)
]

placed_row :
    (order : Order) (s : Store)
    → lookup s.next_id s.orders ≡ none
    → lookup s.next_id (announced s.next_id order (placed order s)).orders ≡ some order
placed_row order s fresh = rw (announced-orders s.next_id order (placed order s)) (
    unfold record_order_event create_order in
    rw (lookup-insert s.next_id s.next_id order s.orders fresh, ==_refl s.next_id))

restocked-products :
    (id actor : ℕ) (order : Order) (s : Store)
    → lookup id s.orders ≡ some order
    → (moved id OrderStatus.cancelled actor s).products ≡ restock_each order.items s.products
unfolding record_order_event restock_order
restocked-products id actor order s found =
    rw (lookup-modify_self id (λ o. record o { status = OrderStatus.cancelled }) s.orders found)

stock_back :
    (k : ℕ) (its : List OrderItem) (ps : Table Product)
    → stock_of k (restock_each its (taken its ps)) ≡ stock_of k ps
stock_back k its ps =
    rw (stock_of-restock_each k its (taken its ps), stock_of-taken k its ps)
      (elim (Option-cases (lookup k ps)) [
        | inl e ↦ rw e
        | inr (p, e) ↦ rw e (ap some (omega int_laws))
      ])

module _ (round_share : ℤ → Float64 → ℤ) where
  after_cancel-products :
      (id : ℕ) (s : Store)
      → (after_change round_share id OrderStatus.cancelled s).1.products ≡ s.products
  unfolding after_change order_status_changed
  after_cancel-products id s = refl

  -- Placing an order and cancelling it at once leaves every product's stock as it was before, if
  -- the next id is free and the order's status can move to cancelled.
  pub place_then_cancel :
      (order : Order) (s : Store) {id : ℕ} (actor k : ℕ)
      → (place_order order s).0 ≡ ok id
      → lookup s.next_id s.orders ≡ none
      → same_status order.status OrderStatus.cancelled ≡ false
      → can_transition order.status OrderStatus.cancelled ≡ true
      → let t = (place_order order s).1 in
        stock_of k (transition round_share s.next_id OrderStatus.cancelled actor t).1.products
        ≡ stock_of k s.products
  place_then_cancel order s actor k h fresh other allowed =
      let (e, _) = place_order-body order s h in
      let t = announced s.next_id order (placed order s) in
      let found = placed_row order s fresh in
      rw
        (
          e,
          transition-moved round_share s.next_id OrderStatus.cancelled actor order t found other
              allowed,
          after_cancel-products s.next_id (moved s.next_id OrderStatus.cancelled actor t),
          restocked-products s.next_id actor order t found,
          announced-products s.next_id order (placed order s),
          placed-products order s,
        )
        (stock_back k order.items s.products)

-- A placed order is stored under its id.
pub lookup-place_order :
    (order : Order) (s : Store) {id : ℕ}
    → (place_order order s).0 ≡ ok id
    → lookup s.next_id s.orders ≡ none
    → lookup id (place_order order s).1.orders ≡ some order
lookup-place_order order s {id} h fresh =
    let (e, _) = place_order-body order s h in
    let same : s.next_id ≡ id = cc (rw e at h) in rw (← same, e) (placed_row order s fresh)
