-- ===== src/Order/Cancelling.antt =====
-- CancelByBuyer of internal/service/order_service.go, and the orders.
use campusassistant_api.Base.{
  arith, ℕ, ◌≡◌, sym, ◌⊎◌, inl, inr, ◌==◌, ==_iff, not, ◌&&◌, ◌||◌, Bool, true, false, Bool-cases,
  Option-cases, some,
}
use campusassistant_api.Base.Table.{lookup, lookup-modify}
use campusassistant_api.Domain.{
  OrderStatus, same_status, Order, Store, emit, merchants_cancelled, transaction, Result, ok, err,
  after, when, commit-keeps,
}
use campusassistant_api.Order.{
  is_open_cash, cancel_open, cancel_status, cancel_by_buyer, restock_order, record_order_event,
}

-- Nothing happened to the row under key `k`, or it is order `id` of the buyer, it was awaiting
-- payment or an open cash order, and it is cancelled now.
abbrev pub MayCancel : ℕ → ℕ → Store → ℕ → Order → Type 0
MayCancel user_id id t k o =
    (lookup k t.orders ≡ some o)
    ⊎ ((k ≡ id)
        × (o.buyer_id ≡ user_id)
        × ((same_status o.status OrderStatus.pending_payment || is_open_cash o) ≡ true)
        × (lookup k t.orders ≡ some (record o { status = OrderStatus.cancelled })))

either_of : (p q : Bool) → (not p && not q) ≡ false → (p || q) ≡ true
either_of p q h = ground arith

cancel_status-MayCancel :
    (user_id id : ℕ) (s : Store) (k : ℕ) (o : Order)
    → lookup k s.orders ≡ some o
    → MayCancel user_id id (cancel_status user_id id s).1 k o
unfolding cancel_status cancel_open restock_order record_order_event
cancel_status-MayCancel user_id id s k o row = elim (Option-cases (lookup id s.orders)) [
  | inl e ↦ inl (rw e row)
  | inr (order, e) ↦ elim (Bool-cases (order.buyer_id == user_id)) [
    | inr a ↦ inl (rw (e, a) row)
    | inl a ↦ elim (Bool-cases (same_status order.status OrderStatus.cancelled)) [
      | inl b ↦ inl (rw (e, a, b) row)
      | inr b ↦
          elim (Bool-cases (
            not (same_status order.status OrderStatus.pending_payment)
            && not (is_open_cash order))) [
              | inl c ↦ inl (rw (e, a, b, c) row)
              | inr c ↦ elim (Bool-cases (id == k)) [
                | inr d ↦ inl (
                    rw (e, a, b, c)
                      (rw (
                        lookup-modify k id (λ q. record q { status = OrderStatus.cancelled })
                            s.orders,
                        d,
                        row,
                      )))
                | inl d ↦
                    let same : id ≡ k = (==_iff id k).0 d in
                    let own : order ≡ o = cc in
                    inr (
                      sym same,
                      rw (← own) ((==_iff order.buyer_id user_id).0 a),
                      rw (← own) (
                          either_of (same_status order.status OrderStatus.pending_payment)
                            (is_open_cash order) c),
                      rw (e, a, b, c)
                          (rw (
                            lookup-modify k id (λ q. record q { status = OrderStatus.cancelled })
                                s.orders,
                            d,
                            row,
                          )),
                    )
              ]
            ]
    ]
  ]
]

told-MayCancel :
    (user_id id : ℕ) (k : ℕ) (o : Order) (res : Result (Bool × Bool) × Store)
    → MayCancel user_id id res.1 k o
    → MayCancel user_id id
        (after (λ (out : Bool × Bool). when (out.0 && out.1) (emit (merchants_cancelled id))) res).1
        k
        o
told-MayCancel user_id id k o (err e, t) h = h
told-MayCancel user_id id k o (ok (a, b), t) h = elim (Bool-cases (a && b)) [
  | inl e ↦ rw e h
  | inr e ↦ rw e h
]

-- Whatever the request, CancelByBuyer leaves every order as it was, but that the order it is called
-- for may be cancelled: if it belongs to the caller, and awaits payment or is an open cash order.
pub cancel_by_buyer-MayCancel :
    (user_id id : ℕ) (s : Store) (k : ℕ) (o : Order)
    → lookup k s.orders ≡ some o
    → MayCancel user_id id (cancel_by_buyer user_id id s).1 k o
unfolding cancel_by_buyer
cancel_by_buyer-MayCancel user_id id s k o row =
    told-MayCancel user_id id k o (transaction (cancel_status user_id id) s) (
      commit-keeps (λ t. MayCancel user_id id t k o) s (cancel_status user_id id s) (inl row)
        (cancel_status-MayCancel user_id id s k o row))
