-- ===== src/Order/Books.antt =====
-- The books through the moves of an order.
use campusassistant_api.Base.{ℕ, ℤ, inl, inr, Bool-cases, Option-cases}
use campusassistant_api.Base.Table.{lookup}
use campusassistant_api.Domain.{
  Float64, OrderStatus, same_status, Store, Keeps, then-Keeps, when-Keeps, when, emit,
  refresh_ship_speed, ◌>>◌,
}
use campusassistant_api.Ledger.Books.{IsBooks}
use campusassistant_api.Billing.Delivery.{on_order_delivered}
use campusassistant_api.Billing.Frame.{on_order_delivered-IsBooks}
use campusassistant_api.Order.{
  can_transition, restock_order, record_order_event, transition, after_change, order_status_changed,
  ignoring,
}
use campusassistant_api.Order.Transition.{
  moved, transition_refused, transition-moved, transition_other,
}

order_status_changed-IsBooks :
    (id : ℕ) (to : OrderStatus) → Keeps IsBooks (order_status_changed id to)
unfolding order_status_changed
order_status_changed-IsBooks id OrderStatus.pending_payment s h = h
order_status_changed-IsBooks id OrderStatus.paid s h = h
order_status_changed-IsBooks id _ s h = h

moved-IsBooks :
    (id : ℕ) (to : OrderStatus) (actor : ℕ) (s : Store) → IsBooks s → IsBooks (moved id to actor s)
unfolding record_order_event restock_order
moved-IsBooks id to actor s h = elim (Bool-cases (same_status to OrderStatus.cancelled)) [
  | inl e ↦ rw e h
  | inr e ↦ rw e h
]

module _ (round_share : ℤ → Float64 → ℤ) where
  after_change-IsBooks :
      (id : ℕ) (to : OrderStatus) → Keeps IsBooks (after_change round_share id to)
  unfolding after_change
  after_change-IsBooks id to =
      then-Keeps IsBooks
        (when (same_status to OrderStatus.delivered) (ignoring (on_order_delivered round_share id)))
        (when (same_status to OrderStatus.shipped) (emit (refresh_ship_speed id))
          >> order_status_changed id to)
        (when-Keeps IsBooks (same_status to OrderStatus.delivered)
          (ignoring (on_order_delivered round_share id))
          (on_order_delivered-IsBooks round_share id))
        (then-Keeps IsBooks
          (when (same_status to OrderStatus.shipped) (emit (refresh_ship_speed id)))
          (order_status_changed id to)
          (when-Keeps IsBooks (same_status to OrderStatus.shipped) (emit (refresh_ship_speed id))
            (λ s h. h))
          (order_status_changed-IsBooks id to))

  -- Whatever the request, and whether or not the booking of a delivery succeeds, Transition keeps the
  -- books sound and their keys unique.
  pub transition-IsBooks :
      (id : ℕ) (to : OrderStatus) (actor : ℕ) → Keeps IsBooks (transition round_share id to actor)
  transition-IsBooks id to actor s h = elim (Option-cases (lookup id s.orders)) [
    | inl e ↦ rw (transition_other round_share id to actor s (inl e)) h
    | inr (order, e) ↦ elim (Bool-cases (same_status order.status to)) [
      | inl a ↦ rw (transition_other round_share id to actor s (inr (order, e, a))) h
      | inr a ↦ elim (Bool-cases (can_transition order.status to)) [
        | inl b ↦
            rw (transition-moved round_share id to actor order s e a b)
              (after_change-IsBooks id to (moved id to actor s) (moved-IsBooks id to actor s h))
        | inr b ↦ rw (transition_refused round_share id to actor order s e a b) h
      ]
    ]
  ]
