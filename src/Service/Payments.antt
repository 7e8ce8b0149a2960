-- ===== src/Service/Payments.antt =====
-- What the requests about payments of orders (internal/service/marketplace_payment_service.go)
-- preserve.
use Prim.Native.String.{String}
use campusassistant_api.Base.{
  ℕ, ◌-◌, ℤ, ltb, ◌≡◌, refl, inl, inr, true, not, ◌||◌, ◌==◌, Bool-cases, Option-cases, some, List,
  [], ◌∷◌, exists,
}
use campusassistant_api.Base.Table.{lookup}
use campusassistant_api.Domain.{
  BkashStatus, OrderStatus, same_status, is_bkash, is_completed, is_needs_review, Order,
  OrderTransaction, Store, Keeps, then-Keeps, bind-Keeps, transaction-Keeps, transaction, pure,
  emit, telegram_order_paid,
}
use campusassistant_api.Billing.{record_order_payment}
use campusassistant_api.Billing.Frame.{record_order_payment-Keeps}
use campusassistant_api.Gateway.{
  Gateway, ExecuteResult, Session, Reply, is_confirmed, paid_amount, settle_reply, ReconcileStats,
}
use campusassistant_api.Order.{
  order_rank, can_transition, set_status, record_order_event, order_status_changed,
}
use campusassistant_api.Market.{
  has_payment_id, find_payment, save_session, open_payment, Outcome, pay_order, is_other_amount,
  settle_order, report, settle_payment, fulfil, create_payment, execute_payment, conclude,
  mark_terminal, reconcile_reply, reconcile_each, reconcile_pending,
}
use campusassistant_api.Service.Orders.{Moves, IsPreserved, emit-Keeps, order_status_changed-Keeps}

module _ (P : Store → Type 0) (preserved : IsPreserved P) where
  save_session-Keeps :
      (id : ℕ) (amount : ℤ) (opened : Session) → Keeps P (save_session id amount opened)
  unfolding open_payment
  save_session-Keeps id amount Session.refused s h = h
  save_session-Keeps id amount (Session.opened payment_id) s h =
      elim (Bool-cases (exists (has_payment_id payment_id) s.order_txs)) [
        | inl e ↦ rw e h
        | inr e ↦ rw e (preserved.frames s _ refl refl h)
      ]

  -- An order that awaits payment may become paid.
  paid_move :
      (st : OrderStatus)
      → same_status st OrderStatus.pending_payment ≡ true
      → Moves st OrderStatus.paid
  unfolding can_transition order_rank
  paid_move OrderStatus.pending_payment e = inl refl
  paid_move _ e = cc

  pay_order-keeps :
      (id : ℕ) (ot : OrderTransaction) (o : Order) (r : ExecuteResult) (s : Store)
      → lookup ot.order_id s.orders ≡ some o
      → same_status o.status OrderStatus.pending_payment ≡ true
      → P s
      → P (pay_order id ot o r s).1
  unfolding pay_order record_order_event
  pay_order-keeps id ot o r s found awaits h =
      then-Keeps P (record_order_payment ot.order_id o r.trx_id)
        (pure (Outcome.paid ot.order_id ot.amount))
        (record_order_payment-Keeps P preserved.posts
          (λ u invs cs k. preserved.frames u _ refl refl k) ot.order_id o r.trx_id)
        (λ u k. k) _
        (preserved.frames (set_status ot.order_id OrderStatus.paid s) _ refl refl
          (preserved.moves ot.order_id o OrderStatus.paid s found (paid_move o.status awaits) h))

  report-Keeps : (r : ExecuteResult) (out : Outcome) → Keeps P (report r out)
  report-Keeps r Outcome.already = λ s h. h
  report-Keeps r (Outcome.flagged e) = λ s h. h
  report-Keeps r (Outcome.paid order_id amount) =
      then-Keeps P (order_status_changed order_id OrderStatus.paid)
        (emit (telegram_order_paid order_id amount))
        (order_status_changed-Keeps P preserved order_id OrderStatus.paid)
        (emit-Keeps P preserved (telegram_order_paid order_id amount))

  mark_terminal-keeps :
      (payment_id : String) (st : BkashStatus) (trx raw : String) (s : Store)
      → P s
      → P (mark_terminal payment_id st trx raw s)
  unfolding mark_terminal
  mark_terminal-keeps payment_id st trx raw s h = preserved.frames s _ refl refl h

  module _ (g : Gateway) where
    pub create_payment-Keeps : (user_id id : ℕ) → Keeps P (create_payment g user_id id)
    unfolding create_payment
    create_payment-Keeps user_id id s h = elim (Option-cases (lookup id s.orders)) [
      | inl e ↦ rw e h
      | inr (o, e) ↦ elim (Bool-cases (o.buyer_id == user_id)) [
        | inr a ↦ rw (e, a) h
        | inl a ↦
            elim (Bool-cases (
              not (same_status o.status OrderStatus.pending_payment)
              || not (is_bkash o.payment_method))) [
                | inl b ↦ rw (e, a, b) h
                | inr b ↦
                    rw (e, a, b)
                      (save_session-Keeps id o.total_amount (g.create_payment o.total_amount) s h)
              ]
      ]
    ]

    settle_order-keeps :
        (id : ℕ) (ot : OrderTransaction) (r : ExecuteResult) (s : Store)
        → P s
        → P (settle_order id ot r s).1
    unfolding settle_order
    settle_order-keeps id ot r s h = elim (Option-cases (lookup ot.order_id s.orders)) [
      | inl e ↦ rw e h
      | inr (o, e) ↦ elim (Bool-cases (same_status o.status OrderStatus.pending_payment)) [
        | inl a ↦ rw (e, a) (pay_order-keeps id ot o r s e a h)
        | inr a ↦ rw (e, a) (preserved.frames s _ refl refl h)
      ]
    ]

    settle_payment-Keeps :
        (payment_id : String) (r : ExecuteResult) → Keeps P (settle_payment g payment_id r)
    unfolding settle_payment
    settle_payment-Keeps payment_id r s h = elim (Option-cases (find_payment payment_id s)) [
      | inl e ↦ rw e h
      | inr ((id, ot), e) ↦ elim (Bool-cases (is_completed ot.status)) [
        | inl a ↦ rw (e, a) h
        | inr a ↦ elim (Bool-cases (is_other_amount (paid_amount g r) ot.amount)) [
          | inl b ↦ rw (e, a, b) (preserved.frames s _ refl refl h)
          | inr b ↦ rw (e, a, b) (settle_order-keeps id ot r s h)
        ]
      ]
    ]

    fulfil-Keeps : (payment_id : String) (r : ExecuteResult) → Keeps P (fulfil g payment_id r)
    unfolding fulfil
    fulfil-Keeps payment_id r =
        bind-Keeps P (transaction (settle_payment g payment_id r)) (report r)
          (transaction-Keeps P (settle_payment g payment_id r) (settle_payment-Keeps payment_id r))
          (report-Keeps r)

    conclude-Keeps : (payment_id : String) (reply : Reply) → Keeps P (conclude g payment_id reply)
    conclude-Keeps payment_id Reply.failed s h = h
    conclude-Keeps payment_id (Reply.answered r) s h = elim (Bool-cases (is_confirmed r)) [
      | inl e ↦ rw e (fulfil-Keeps payment_id r s h)
      | inr e ↦ rw e (mark_terminal-keeps payment_id BkashStatus.failed r.trx_id r.raw s h)
    ]

    pub execute_payment-Keeps :
        (user_id : ℕ) (payment_id : String) → Keeps P (execute_payment g user_id payment_id)
    unfolding execute_payment
    execute_payment-Keeps user_id payment_id s h = elim (Option-cases (find_payment payment_id s)) [
      | inl e ↦ rw e h
      | inr ((id, ot), e) ↦ elim (Option-cases (lookup ot.order_id s.orders)) [
        | inl a ↦ rw (e, a) h
        | inr (o, a) ↦ elim (Bool-cases (o.buyer_id == user_id)) [
          | inr b ↦ rw (e, a, b) h
          | inl b ↦ elim (Bool-cases (is_completed ot.status)) [
            | inl c ↦ rw (e, a, b, c) h
            | inr c ↦ elim (Bool-cases (is_needs_review ot.status)) [
              | inl d ↦ rw (e, a, b, c, d) h
              | inr d ↦
                  rw (e, a, b, c, d) (conclude-Keeps payment_id (settle_reply g payment_id) s h)
            ]
          ]
        ]
      ]
    ]

    reconcile_reply-keeps :
        (cancel_after : ℕ) (ot : OrderTransaction) (reply : Reply) (st : ReconcileStats) (s : Store)
        → P s
        → P (reconcile_reply g cancel_after ot reply st s).1
    unfolding reconcile_reply
    reconcile_reply-keeps cancel_after ot Reply.failed st s h = h
    reconcile_reply-keeps cancel_after ot (Reply.answered r) st s h =
        elim (Bool-cases (is_confirmed r)) [
          | inl e ↦ rw e (fulfil-Keeps ot.payment_id r s h)
          | inr e ↦ elim (Bool-cases (ltb ot.created_at (s.now - cancel_after))) [
            | inl a ↦ rw (e, a) (mark_terminal-keeps ot.payment_id BkashStatus.cancelled "" "" s h)
            | inr a ↦ rw (e, a) h
          ]
        ]

    reconcile_each-keeps :
        (cancel_after : ℕ) (ots : List (ℕ × OrderTransaction)) (st : ReconcileStats) (s : Store)
        → P s
        → P (reconcile_each g cancel_after ots st s).1
    unfolding reconcile_each
    reconcile_each-keeps cancel_after [] st s h = h
    reconcile_each-keeps cancel_after ((id, ot) ∷ ots) st s h =
        reconcile_each-keeps cancel_after ots _ _
          (reconcile_reply-keeps cancel_after ot (g.query_payment ot.payment_id) _ s h)

    pub reconcile_pending-keeps :
        (min_age cancel_after batch : ℕ) (s : Store)
        → P s
        → P (reconcile_pending g min_age cancel_after batch s).1
    unfolding reconcile_pending
    reconcile_pending-keeps min_age cancel_after batch s h =
        reconcile_each-keeps cancel_after _ _ s h
