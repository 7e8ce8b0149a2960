-- ===== src/Billing/Delivered.antt =====
-- The effect of a whole call of OnOrderDelivered (internal/service/billing_service.go).
use campusassistant_api.Base.{
  Option-cases, ℕ, ℤ, ◌≡◌, refl, true, false, inl, inr, Bool-cases, some,
}
use campusassistant_api.Base.Table.{lookup}
use campusassistant_api.Domain.{
  transaction, same_status, transaction-ok, bind-ok, is_bkash, pure, Journal, Memo, OrderStatus,
  PaymentMethod, Float64, Order, Kind, SourceType, Store, ok,
}
use campusassistant_api.Ledger.{post_journal, new_journal, journal_exists}
use campusassistant_api.Ledger.Posting.{
  post_journal-journal_exists, entries_balance-to_entries, credit_balance-append_journal,
}
use campusassistant_api.Billing.{release_lines}
use campusassistant_api.Billing.Delivery.{
  on_order_delivered, release_order, book_payment, shares_of,
}
use campusassistant_api.Billing.Commission.{AreSales}
use campusassistant_api.Billing.Frame.{on_order_delivered-SameOrders}
use campusassistant_api.Ledger.Posting.{entries_balance-to_entries, credit_balance-append_journal}

module _ (round_share : ℤ → Float64 → ℤ) where
  -- The books after the release journal of a bKash order.
  release_journal : ℕ → Order → Store → Journal
  release_journal id order s =
      new_journal Kind.order_release SourceType.order id (Memo.text "Order delivered")
        (release_lines s.merchants true (shares_of round_share order.items))

  release_order-journal_exists :
      (id : ℕ) (order : Order) (s : Store)
      → (release_order round_share id order s).0 ≡ ok tt
      → journal_exists Kind.order_release SourceType.order id
          (release_order round_share id order s).1
        ≡ true
  unfolding release_order
  release_order-journal_exists id order s h =
      let (_, _, e) = bind-ok (book_payment id order) _ s h in
      let t = (book_payment id order s).1 in
      let (b, p, q) =
        bind-ok
          (post_journal Kind.order_release SourceType.order id (Memo.text "Order delivered") (
            release_lines t.merchants (is_bkash order.payment_method)
              (shares_of round_share order.items)))
          (λ _. pure tt) t (rw e at h) in
      rw (e, q)
        (post_journal-journal_exists Kind.order_release SourceType.order id
          (Memo.text "Order delivered")
          (release_lines t.merchants (is_bkash order.payment_method)
            (shares_of round_share order.items))
          t p)

  abbrev IsDelivered : ℕ → Store → Type 0
  IsDelivered id s =
      (o : Order) × (lookup id s.orders ≡ some o)
      × (same_status o.status OrderStatus.delivered ≡ true)

  on_order_delivered_released :
      (id : ℕ) (s : Store)
      → IsDelivered id s
      → journal_exists Kind.order_release SourceType.order id s ≡ true
      → on_order_delivered round_share id s ≡ (ok tt, s)
  unfolding on_order_delivered
  on_order_delivered_released id s (o, found, st) x = rw (found, st, x)

  on_order_delivered_fresh :
      (id : ℕ) (s : Store) (o : Order)
      → lookup id s.orders ≡ some o
      → same_status o.status OrderStatus.delivered ≡ true
      → journal_exists Kind.order_release SourceType.order id s ≡ false
      → on_order_delivered round_share id s ≡ transaction (release_order round_share id o) s
  unfolding on_order_delivered
  on_order_delivered_fresh id s o found st x = rw (found, st, x)

  on_order_delivered-IsDelivered :
      (id : ℕ) (s : Store) → (on_order_delivered round_share id s).0 ≡ ok tt → IsDelivered id s
  unfolding on_order_delivered
  on_order_delivered-IsDelivered id s h = elim (Option-cases (lookup id s.orders)) [
    | inl e ↦ cc (rw e at h)
    | inr (o, e) ↦ elim (Bool-cases (same_status o.status OrderStatus.delivered)) [
      | inl st ↦ (o, e, st)
      | inr st ↦ cc (rw (e, st) at h)
    ]
  ]

  on_order_delivered-journal_exists :
      (id : ℕ) (s : Store)
      → (on_order_delivered round_share id s).0 ≡ ok tt
      → journal_exists Kind.order_release SourceType.order id
          (on_order_delivered round_share id s).1
        ≡ true
  on_order_delivered-journal_exists id s h =
      let (o, found, st) = on_order_delivered-IsDelivered id s h in
      elim (Bool-cases (journal_exists Kind.order_release SourceType.order id s)) [
        | inl x ↦ rw (on_order_delivered_released id s (o, found, st) x) x
        | inr x ↦
            let e = on_order_delivered_fresh id s o found st x in
            let q = transaction-ok (release_order round_share id o) s (rw e at h) in
            rw (e, q) (release_order-journal_exists id o s (rw (e, q) at h))
      ]

  -- A delivery that was booked is booked once: calling the hook again succeeds and changes nothing.
  pub on_order_delivered_twice :
      (id : ℕ) (s : Store)
      → (on_order_delivered round_share id s).0 ≡ ok tt
      → let t = (on_order_delivered round_share id s).1 in
        on_order_delivered round_share id t ≡ (ok tt, t)
  on_order_delivered_twice id s h =
      let (o, found, st) = on_order_delivered-IsDelivered id s h in
      on_order_delivered_released id (on_order_delivered round_share id s).1
        (o, rw (on_order_delivered-SameOrders round_share s id s refl) found, st)
        (on_order_delivered-journal_exists id s h)

  -- A paid bKash order that is being booked for the first time.
  abbrev pub IsPayable : ℕ → Order → Store → Type 0
  IsPayable id order s =
      (lookup id s.orders ≡ some order)
      × (order.status ≡ OrderStatus.delivered)
      × (order.payment_method ≡ PaymentMethod.bkash)
      × AreSales order.items
      × (journal_exists Kind.order_payment SourceType.order id s ≡ true)
      × (journal_exists Kind.order_release SourceType.order id s ≡ false)
