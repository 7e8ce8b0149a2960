-- ===== src/Service/Orders.antt =====
-- What the requests about orders (internal/service/order_service.go and the checkout of
-- internal/delivery/http/handler/order_handler.go) preserve.
use Prim.Native.String.{String}
use campusassistant_api.Base.{
  leb_ℤ, ◌==◌, ℕ, ℤ, ◌≡◌, refl, ◌⊎◌, inl, inr, Bool, true, not, ◌&&◌, Bool-cases, Option-cases,
  some, List, [], ◌∷◌, take, select,
}
use campusassistant_api.Base.Float.{Float64}
use campusassistant_api.Base.Table.{Table, lookup, insert}
use campusassistant_api.Domain.{
  OrderStatus, same_status, Order, OrderItem, Kind, SourceType, Memo, Store, M, Keeps, then-Keeps,
  bind-Keeps, when-Keeps, transaction-Keeps, transaction, when, emit, update, pure, gets,
  merchants_cancelled, merchants_new_order, refresh_ship_speed, Effect, ◌>>=◌, ◌>>◌,
}
use campusassistant_api.Ledger.{Line, post_journal}
use campusassistant_api.Billing.Delivery.{
  on_order_delivered, release_each, release_delivered_orders,
}
use campusassistant_api.Billing.Frame.{on_order_delivered-Keeps}
use campusassistant_api.Order.{
  can_transition, set_status, take_stock, take_each, create_order, place_order, record_order_event,
  restock_order, transition, after_change, order_status_changed, ignoring, cancel_open,
  cancel_status, cancel_by_buyer, is_open_cash, expire_each, expire_unpaid, is_abandoned,
}
use campusassistant_api.Order.Transition.{
  moved, transition_refused, transition-moved, transition_other,
}
use campusassistant_api.Checkout.{CheckoutRequest, checkout, order_for}
use campusassistant_api.Checkout.Placed.{checkout-cases}

-- A change of status that the diagram allows, or a cancellation by a refund.
abbrev pub Moves : OrderStatus → OrderStatus → Type 0
Moves from to = (can_transition from to ≡ true) ⊎ (to ≡ OrderStatus.cancelled)

abbrev pub with_orders : Table Order → Store → Store
with_orders os s = record s { orders = os }

-- A property of the journals and the orders that the ledger's posts, new orders and moves preserve.
pub record IsPreserved (P : Store → Type 0) : Type 0 where
  pub posts :
      (k : Kind) (t : SourceType) (i : ℕ) (memo : Memo) (ls : List Line)
      → Keeps P (post_journal k t i memo ls)
  pub frames : (s t : Store) → t.journals ≡ s.journals → t.orders ≡ s.orders → P s → P t
  pub creates : (id : ℕ) (o : Order) (s : Store) → P s → P (with_orders (insert id o s.orders) s)
  pub moves :
      (id : ℕ) (o : Order) (to : OrderStatus) (s : Store)
      → lookup id s.orders ≡ some o
      → Moves o.status to
      → P s
      → P (set_status id to s)

-- The transaction of PlaceOrder.
abbrev placing : Order → M ℕ
placing o = do
  take_each o.items
  id ← gets (λ s. s.next_id)
  update (create_order o)
  update (record_order_event id o.status o.buyer_id)
  pure id

module _ (P : Store → Type 0) (preserved : IsPreserved P) where
  pub emit-Keeps : (e : Effect) → Keeps P (emit e)
  emit-Keeps e s h = preserved.frames s _ refl refl h

  pub order_status_changed-Keeps :
      (id : ℕ) (to : OrderStatus) → Keeps P (order_status_changed id to)
  unfolding order_status_changed
  order_status_changed-Keeps id OrderStatus.pending_payment s h = h
  order_status_changed-Keeps id OrderStatus.paid s h = preserved.frames s _ refl refl h
  order_status_changed-Keeps id (OrderStatus.other n) s h = h
  order_status_changed-Keeps id _ s h = preserved.frames s _ refl refl h

  moved-keeps :
      (id : ℕ) (to : OrderStatus) (actor : ℕ) (o : Order) (s : Store)
      → lookup id s.orders ≡ some o
      → Moves o.status to
      → P s
      → P (moved id to actor s)
  unfolding record_order_event restock_order
  moved-keeps id to actor o s found allowed h =
      let k = preserved.moves id o to s found allowed h in
      elim (Bool-cases (same_status to OrderStatus.cancelled)) [
        | inl e ↦ rw e (preserved.frames (set_status id to s) _ refl refl k)
        | inr e ↦ rw e (preserved.frames (set_status id to s) _ refl refl k)
      ]

  take_stock-Keeps : (it : OrderItem) → Keeps P (take_stock it)
  unfolding take_stock
  take_stock-Keeps it s h = elim (Option-cases (lookup it.product_id s.products)) [
    | inl e ↦ rw (take_stock, e) h
    | inr (p, e) ↦ elim (Bool-cases (p.is_published && leb_ℤ it.quantity p.stock)) [
      | inl a ↦ rw (take_stock, e, a) (preserved.frames s _ refl refl h)
      | inr a ↦ rw (take_stock, e, a) h
    ]
  ]

  take_each-Keeps : (its : List OrderItem) → Keeps P (take_each its)
  unfolding take_each
  take_each-Keeps [] s h = h
  take_each-Keeps (it ∷ its) s h =
      then-Keeps P (take_stock it) (take_each its) (take_stock-Keeps it) (take_each-Keeps its) s h

  place_order-Keeps : (o : Order) → Keeps P (place_order o)
  unfolding place_order create_order record_order_event
  place_order-Keeps o =
      bind-Keeps P (transaction (placing o)) _
        (transaction-Keeps P (placing o) (
          then-Keeps P (take_each o.items) _ (take_each-Keeps o.items) (λ s h.
            preserved.frames (with_orders (insert s.next_id o s.orders) s) _ refl refl
              (preserved.creates s.next_id o s h))))
        (λ id.
          then-Keeps P
            (when (same_status o.status OrderStatus.processing) (emit (merchants_new_order id)))
            (pure id)
            (when-Keeps P (same_status o.status OrderStatus.processing)
              (emit (merchants_new_order id)) (emit-Keeps (merchants_new_order id)))
            (λ s h. h))

  cancel_open-keeps :
      (user_id id : ℕ) (o : Order) (s : Store)
      → lookup id s.orders ≡ some o
      → P s
      → P (cancel_open user_id id o s).1
  unfolding cancel_open restock_order record_order_event
  cancel_open-keeps user_id id o s found h =
      elim (Bool-cases
        (not (same_status o.status OrderStatus.pending_payment) && not (is_open_cash o))) [
          | inl e ↦ rw e h
          | inr e ↦ rw e (
              preserved.frames (set_status id OrderStatus.cancelled s) _ refl refl
                (preserved.moves id o OrderStatus.cancelled s found (inr refl) h))
        ]

  cancel_status-Keeps : (user_id id : ℕ) → Keeps P (cancel_status user_id id)
  unfolding cancel_status
  cancel_status-Keeps user_id id s h = elim (Option-cases (lookup id s.orders)) [
    | inl e ↦ rw e h
    | inr (o, e) ↦ elim (Bool-cases (o.buyer_id == user_id)) [
      | inr a ↦ rw (e, a) h
      | inl a ↦ elim (Bool-cases (same_status o.status OrderStatus.cancelled)) [
        | inl b ↦ rw (e, a, b) h
        | inr b ↦ rw (e, a, b) (cancel_open-keeps user_id id o s e h)
      ]
    ]
  ]

  pub cancel_by_buyer-Keeps : (user_id id : ℕ) → Keeps P (cancel_by_buyer user_id id)
  unfolding cancel_by_buyer
  cancel_by_buyer-Keeps user_id id =
      bind-Keeps P (transaction (cancel_status user_id id)) _
        (transaction-Keeps P (cancel_status user_id id) (cancel_status-Keeps user_id id))
        (λ a.
          when-Keeps P (a.0 && a.1) (emit (merchants_cancelled id))
            (emit-Keeps (merchants_cancelled id)))

  pub checkout-Keeps :
      (same_city : String → String → Bool) (days_left : ℤ → ℤ) (is_bound : CheckoutRequest → Bool)
      (user_id : ℕ) (req : CheckoutRequest)
      → Keeps P (checkout same_city days_left is_bound user_id req)
  checkout-Keeps same_city days_left is_bound user_id req s h =
      elim (checkout-cases same_city days_left is_bound user_id req s) [
        | inl (e, k) ↦ rw k h
        | inr (a, cart, _, _, _, k) ↦
            rw k (place_order-Keeps (order_for user_id req.payment_method a cart s.now) s h)
      ]

  module _ (round_share : ℤ → Float64 → ℤ) where
    pub delivered-Keeps : (id : ℕ) → Keeps P (on_order_delivered round_share id)
    delivered-Keeps =
        on_order_delivered-Keeps P preserved.posts (λ s invs cs h. preserved.frames s _ refl refl h)
          round_share

    after_change-Keeps : (id : ℕ) (to : OrderStatus) → Keeps P (after_change round_share id to)
    unfolding after_change
    after_change-Keeps id to =
        then-Keeps P
          (when (same_status to OrderStatus.delivered)
            (ignoring (on_order_delivered round_share id)))
          _
          (when-Keeps P (same_status to OrderStatus.delivered)
            (ignoring (on_order_delivered round_share id)) (delivered-Keeps id))
          (then-Keeps P (when (same_status to OrderStatus.shipped) (emit (refresh_ship_speed id)))
            (order_status_changed id to)
            (when-Keeps P (same_status to OrderStatus.shipped) (emit (refresh_ship_speed id))
              (emit-Keeps (refresh_ship_speed id)))
            (order_status_changed-Keeps id to))

    pub transition-Keeps :
        (id : ℕ) (to : OrderStatus) (actor : ℕ) → Keeps P (transition round_share id to actor)
    transition-Keeps id to actor s h = elim (Option-cases (lookup id s.orders)) [
      | inl e ↦ rw (transition_other round_share id to actor s (inl e)) h
      | inr (order, e) ↦ elim (Bool-cases (same_status order.status to)) [
        | inl a ↦ rw (transition_other round_share id to actor s (inr (order, e, a))) h
        | inr a ↦ elim (Bool-cases (can_transition order.status to)) [
          | inl b ↦ rw (transition-moved round_share id to actor order s e a b) (
              after_change-Keeps id to (moved id to actor s)
                (moved-keeps id to actor order s e (inl b) h))
          | inr b ↦ rw (transition_refused round_share id to actor order s e a b) h
        ]
      ]
    ]

    expire_each-Keeps : (os : List (ℕ × Order)) (n : ℕ) → Keeps P (expire_each round_share os n)
    unfolding expire_each
    expire_each-Keeps [] n s h = h
    expire_each-Keeps ((id, o) ∷ os) n s h =
        expire_each-Keeps os _ _ (transition-Keeps id OrderStatus.cancelled 0 s h)

    pub expire_unpaid-Keeps :
        (max_age batch : ℕ) → Keeps P (expire_unpaid round_share max_age batch)
    unfolding expire_unpaid
    expire_unpaid-Keeps max_age batch s h =
        expire_each-Keeps (take batch (select (is_abandoned max_age s) s.orders)) 0 s h

    release_each-Keeps : (os : List (ℕ × Order)) (n : ℕ) → Keeps P (release_each round_share os n)
    unfolding release_each
    release_each-Keeps [] n s h = h
    release_each-Keeps ((id, o) ∷ os) n s h = release_each-Keeps os _ _ (delivered-Keeps id s h)

    pub release_delivered_orders-Keeps :
        (batch : ℕ) → Keeps P (release_delivered_orders round_share batch)
    unfolding release_delivered_orders
    release_delivered_orders-Keeps batch s h = release_each-Keeps _ 0 s h
