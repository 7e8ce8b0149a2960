-- ===== src/Order/Transition.antt =====
-- Transition of internal/service/order_service.go, branch by branch.
use campusassistant_api.Base.{
  sym, ◌==◌, ℕ, ℤ, ◌≡◌, refl, ◌⊎◌, inl, inr, true, false, Bool-cases, Option-cases, none, some,
  ==_iff, ==_refl, if◌then◌else◌,
}
use campusassistant_api.Base.Table.{lookup, modify, lookup-modify}
use campusassistant_api.Domain.{
  Float64, OrderStatus, same_status, Order, Store, err, Keeps, then-Keeps, when-Keeps,
  invalid_transition, emit, when, ◌>>◌, refresh_ship_speed,
}
use campusassistant_api.Billing.Frame.{SameOrders, on_order_delivered-SameOrders}
use campusassistant_api.Billing.Delivery.{on_order_delivered}
use campusassistant_api.Order.{
  can_transition, set_status, restock_order, record_order_event, move_order, change_status,
  transition, after_change, order_status_changed, ignoring,
}

pub same_status_refl : (o : OrderStatus) → same_status o o ≡ true
same_status_refl (OrderStatus.other n) = ==_refl n
same_status_refl _ = refl

pub same_status_eq : (a b : OrderStatus) → same_status a b ≡ true → a ≡ b
same_status_eq OrderStatus.pending_payment OrderStatus.pending_payment h = refl
same_status_eq OrderStatus.paid OrderStatus.paid h = refl
same_status_eq OrderStatus.processing OrderStatus.processing h = refl
same_status_eq OrderStatus.shipped OrderStatus.shipped h = refl
same_status_eq OrderStatus.delivered OrderStatus.delivered h = refl
same_status_eq OrderStatus.cancelled OrderStatus.cancelled h = refl
same_status_eq (OrderStatus.other m) (OrderStatus.other n) h = rw ((==_iff m n).0 h)
same_status_eq _ _ h = cc

pub order_status_changed-SameOrders :
    (s₀ : Store) (id : ℕ) (to : OrderStatus) → Keeps (SameOrders s₀) (order_status_changed id to)
unfolding order_status_changed
order_status_changed-SameOrders s₀ id OrderStatus.pending_payment s h = h
order_status_changed-SameOrders s₀ id OrderStatus.paid s h = h
order_status_changed-SameOrders s₀ id _ s h = h

-- The order as the move leaves it, before the hooks.
abbrev pub moved : ℕ → OrderStatus → ℕ → Store → Store
moved id to actor s = record_order_event id to actor (
    if same_status to OrderStatus.cancelled
    then restock_order id (set_status id to s)
    else set_status id to s)

moved-orders :
    (id : ℕ) (to : OrderStatus) (actor : ℕ) (s : Store)
    → (moved id to actor s).orders ≡ modify id (λ o. record o { status = to }) s.orders
unfolding record_order_event restock_order
moved-orders id to actor s = elim (Bool-cases (same_status to OrderStatus.cancelled)) [
  | inl e ↦ rw e
  | inr e ↦ rw e
]

-- What a call may have done to the row under key `k`: nothing, or an allowed move of order `id`.
abbrev pub MayMove : ℕ → OrderStatus → Store → Store → ℕ → Order → Type 0
MayMove id to s t k o =
    (lookup k t.orders ≡ some o)
    ⊎ ((k ≡ id)
        × (can_transition o.status to ≡ true)
        × (lookup k t.orders ≡ some (record o { status = to })))

module _ (round_share : ℤ → Float64 → ℤ) where
  after_change-SameOrders :
      (s₀ : Store) (id : ℕ) (to : OrderStatus)
      → Keeps (SameOrders s₀) (after_change round_share id to)
  unfolding after_change
  after_change-SameOrders s₀ id to =
      then-Keeps (SameOrders s₀)
        (when (same_status to OrderStatus.delivered) (ignoring (on_order_delivered round_share id)))
        (when (same_status to OrderStatus.shipped) (emit (refresh_ship_speed id))
          >> order_status_changed id to)
        (when-Keeps (SameOrders s₀) (same_status to OrderStatus.delivered)
          (ignoring (on_order_delivered round_share id))
          (on_order_delivered-SameOrders round_share s₀ id))
        (then-Keeps (SameOrders s₀)
          (when (same_status to OrderStatus.shipped) (emit (refresh_ship_speed id)))
          (order_status_changed id to)
          (when-Keeps (SameOrders s₀) (same_status to OrderStatus.shipped)
            (emit (refresh_ship_speed id)) (λ s h. h))
          (order_status_changed-SameOrders s₀ id to))

  -- A move that the diagram does not have is refused with both statuses, and changes nothing.
  pub transition_refused :
      (id : ℕ) (to : OrderStatus) (actor : ℕ) (order : Order) (s : Store)
      → lookup id s.orders ≡ some order
      → same_status order.status to ≡ false
      → can_transition order.status to ≡ false
      → transition round_share id to actor s ≡ (err (invalid_transition order.status to), s)
  unfolding transition change_status move_order
  transition_refused id to actor order s found other forbidden = rw (found, other, forbidden)

  pub transition-moved :
      (id : ℕ) (to : OrderStatus) (actor : ℕ) (order : Order) (s : Store)
      → lookup id s.orders ≡ some order
      → same_status order.status to ≡ false
      → can_transition order.status to ≡ true
      → transition round_share id to actor s ≡ after_change round_share id to (moved id to actor s)
  unfolding transition change_status move_order
  transition-moved id to actor order s found other allowed =
      elim (Bool-cases (same_status to OrderStatus.cancelled)) [
        | inl e ↦ rw (found, other, allowed, e)
        | inr e ↦ rw (found, other, allowed, e)
      ]

  pub transition_other :
      (id : ℕ) (to : OrderStatus) (actor : ℕ) (s : Store)
      → (lookup id s.orders ≡ none)
        ⊎ ((o : Order) × (lookup id s.orders ≡ some o) × (same_status o.status to ≡ true))
      → (transition round_share id to actor s).1 ≡ s
  unfolding transition change_status
  transition_other id to actor s (inl e) = rw e
  transition_other id to actor s (inr (o, found, same)) = rw (found, same)

  moved_row :
      (id : ℕ) (to : OrderStatus) (actor : ℕ) (order : Order) (s : Store) (k : ℕ) (o : Order)
      → lookup id s.orders ≡ some order
      → can_transition order.status to ≡ true
      → lookup k s.orders ≡ some o
      → MayMove id to s (after_change round_share id to (moved id to actor s)).1 k o
  moved_row id to actor order s k o found allowed row =
      rw
        (
          after_change-SameOrders (moved id to actor s) id to (moved id to actor s) refl,
          moved-orders id to actor s,
        )
        (elim (Bool-cases (id == k)) [
          | inl e ↦
              let same : id ≡ k = (==_iff id k).0 e in
              inr (
                sym same,
                cc,
                rw (lookup-modify k id (λ q. record q { status = to }) s.orders, e, row),
              )
          | inr e ↦ inl (rw (lookup-modify k id (λ q. record q { status = to }) s.orders, e, row))
        ])

  -- Whatever the request, Transition leaves every order as it was, but that the order it is called
  -- for may have made one move, and one that the diagram allows.
  pub transition-MayMove :
      (id : ℕ) (to : OrderStatus) (actor : ℕ) (s : Store) (k : ℕ) (o : Order)
      → lookup k s.orders ≡ some o
      → MayMove id to s (transition round_share id to actor s).1 k o
  transition-MayMove id to actor s k o row = elim (Option-cases (lookup id s.orders)) [
    | inl e ↦ inl (rw (transition_other id to actor s (inl e)) row)
    | inr (order, e) ↦ elim (Bool-cases (same_status order.status to)) [
      | inl a ↦ inl (rw (transition_other id to actor s (inr (order, e, a))) row)
      | inr a ↦ elim (Bool-cases (can_transition order.status to)) [
        | inl b ↦
            rw (transition-moved id to actor order s e a b)
              (moved_row id to actor order s k o e b row)
        | inr b ↦ inl (rw (transition_refused id to actor order s e a b) row)
      ]
    ]
  ]
