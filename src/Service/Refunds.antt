-- ===== src/Service/Refunds.antt =====
-- What the requests about refunds (internal/service/refund_service.go) preserve.
use Prim.Native.String.{String}
use text.Mathlib.Text.{◌==◌ as str_eq}
use campusassistant_api.Base.{
  ℕ, ◌≡◌, refl, inl, inr, not, ◌||◌, Bool-cases, Option-cases, Option, none, some, List, [], ◌∷◌,
  map, exists, select,
}
use campusassistant_api.Base.Table.{Table, lookup}
use campusassistant_api.Domain.{
  OrderStatus, same_status, is_bkash, is_completed, is_needs_review, BkashTransaction, Order,
  OrderTransaction, SourceType, Kind, Memo, Journal, Refund, Store, Keeps, then-Keeps, run_cases,
  after-keeps, commit, commit-keeps, transaction-Keeps,
}
use campusassistant_api.Ledger.{
  Line, post_journal, reverse_journals, reverse_each, swapped, is_source_of,
}
use campusassistant_api.Billing.Frame.{post_journal-Keeps}
use campusassistant_api.Order.{set_status, restock_order, record_order_event, order_status_changed}
use campusassistant_api.Subscription.{recompute_pro}
use campusassistant_api.Coupon.{release_coupon}
use campusassistant_api.Refund.{
  is_refunded, void_invoices, is_refund_of, create_refund, end_subscription, return_coupon,
  set_refunded, refund_found, settled_payment, refund_paid, refund_subscription_payment,
  refund_order,
}
use campusassistant_api.Service.Orders.{IsPreserved, order_status_changed-Keeps}

module _ (Q : Store → Type 0)
    (posts : (k : Kind) (t : SourceType) (i : ℕ) (memo : Memo) (ls : List Line)
      → Keeps Q (post_journal k t i memo ls)) where
  reverse_each-Keeps : (t : SourceType) (i : ℕ) (js : List Journal) → Keeps Q (reverse_each t i js)
  unfolding reverse_each
  reverse_each-Keeps t i [] s h = h
  reverse_each-Keeps t i (j ∷ js) s h =
      then-Keeps Q
        (post_journal (Kind.refund j.kind) t i (Memo.refund_of j.kind) (map swapped j.entries))
        (reverse_each t i js)
        (posts (Kind.refund j.kind) t i (Memo.refund_of j.kind) (map swapped j.entries))
        (reverse_each-Keeps t i js) s h

  reverse_journals-Keeps :
      (t : SourceType) (i : ℕ) (ks : List Kind) → Keeps Q (reverse_journals t i ks)
  unfolding reverse_journals
  reverse_journals-Keeps t i ks s h =
      reverse_each-Keeps t i (select (is_source_of t i ks) s.journals) s h

module _ (P : Store → Type 0) (preserved : IsPreserved P) where
  create_refund-Keeps : (r : Refund) → Keeps P (create_refund r)
  unfolding create_refund
  create_refund-Keeps r s h = elim (Bool-cases (exists (is_refund_of r) s.refunds)) [
    | inl e ↦ rw e h
    | inr e ↦ rw e (preserved.frames s _ refl refl h)
  ]

  return_coupon-keeps : (bt : BkashTransaction) (s : Store) → P s → P (return_coupon bt s)
  unfolding release_coupon
  return_coupon-keeps bt s h = elim (Bool-cases (is_completed bt.status)) [
    | inr e ↦ rw e h
    | inl e ↦ elim (Option-cases bt.coupon_code_id) [
      | inl a ↦ rw (e, a) h
      | inr (id, a) ↦ rw (e, a) (preserved.frames s _ refl refl h)
    ]
  ]

  end_subscription-keeps : (o : Option ℕ) (s : Store) → P s → P (end_subscription o s)
  end_subscription-keeps none s h = h
  end_subscription-keeps (some id) s h = preserved.frames s _ refl refl h

  -- The tables that a refund of a subscription's payment writes after the reversal.
  refunded-keeps :
      (id : ℕ) (bt : BkashTransaction) (s : Store)
      → P s
      → P (
          set_refunded id (
            return_coupon bt (
              recompute_pro bt.user_id (
                void_invoices SourceType.bkash_transaction id
                  (end_subscription bt.subscription_id s)))))
  unfolding void_invoices recompute_pro
  refunded-keeps id bt s h =
      let a = end_subscription-keeps bt.subscription_id s h in
      let b =
        preserved.frames (end_subscription bt.subscription_id s)
          (recompute_pro bt.user_id
            (void_invoices SourceType.bkash_transaction id (end_subscription bt.subscription_id s)))
          refl refl a in
      preserved.frames
        (return_coupon bt (
          recompute_pro bt.user_id (
            void_invoices SourceType.bkash_transaction id (end_subscription bt.subscription_id s))))
        _ refl refl (return_coupon-keeps bt _ b)

  refund_found-Keeps :
      (admin id : ℕ) (bt : BkashTransaction) (reference reason : String)
      → Keeps P (refund_found admin id bt reference reason)
  unfolding refund_found
  refund_found-Keeps admin id bt reference reason s h = elim (Bool-cases (is_refunded bt.status)) [
    | inl e ↦ rw e h
    | inr e ↦ elim (Bool-cases (not (is_completed bt.status || is_needs_review bt.status))) [
      | inl a ↦ rw (e, a) h
      | inr a ↦
          rw (e, a)
            (then-Keeps P
              (reverse_journals SourceType.bkash_transaction id (Kind.subscription_payment ∷ [])) _
              (reverse_journals-Keeps P preserved.posts SourceType.bkash_transaction id
                (Kind.subscription_payment ∷ []))
              (λ t k. create_refund-Keeps _ _ (refunded-keeps id bt t k)) s h)
    ]
  ]

  -- The orders are the given ones, and the property holds.
  abbrev With : Table Order → Store → Type 0
  With os t = (t.orders ≡ os) × P t

  With-posts :
      (os : Table Order) (k : Kind) (t : SourceType) (i : ℕ) (memo : Memo) (ls : List Line)
      → Keeps (With os) (post_journal k t i memo ls)
  With-posts os k t i memo ls s (a, h) = (
    post_journal-Keeps (λ u. u.orders ≡ os) (λ u js e. e) k t i memo ls s a,
    preserved.posts k t i memo ls s h,
  )

  refund_paid-keeps :
      (admin id : ℕ) (o : Order) (ot_id : ℕ) (ot : OrderTransaction) (reference reason : String)
      (s : Store)
      → lookup id s.orders ≡ some o
      → P s
      → P (refund_paid admin id o ot_id ot reference reason s).1
  unfolding refund_paid void_invoices restock_order record_order_event
  refund_paid-keeps admin id o ot_id ot reference reason s found h =
      let back =
        reverse_journals SourceType.order id (Kind.order_release ∷ Kind.order_payment ∷ []) in
      let t = (back s).1 in
      let (same, k) =
        reverse_journals-Keeps (With s.orders) (With-posts s.orders) SourceType.order id
          (Kind.order_release ∷ Kind.order_payment ∷ []) s (refl, h) in
      let there : lookup id t.orders ≡ some o = rw same found in
      let moved = preserved.moves id o OrderStatus.cancelled t there (inr refl) k in
      elim (Bool-cases (is_refunded ot.status)) [
        | inl d ↦ rw d h
        | inr d ↦ elim (run_cases back s) [
          | inr (x, e) ↦ rw (d, e) k
          | inl (x, e) ↦ elim (Bool-cases (not (same_status o.status OrderStatus.delivered))) [
            | inl f ↦
                rw (d, e, f)
                  (create_refund-Keeps _ _
                    (preserved.frames (set_status id OrderStatus.cancelled t) _ refl refl moved))
            | inr f ↦
                rw (d, e, f)
                  (create_refund-Keeps _ _
                    (preserved.frames (set_status id OrderStatus.cancelled t) _ refl refl moved))
          ]
        ]
      ]

  module _ (trim : String → String) where
    pub refund_subscription_payment-Keeps :
        (admin id : ℕ) (reference reason : String)
        → Keeps P (refund_subscription_payment trim admin id reference reason)
    unfolding refund_subscription_payment
    refund_subscription_payment-Keeps admin id reference reason s h =
        elim (Bool-cases (str_eq (trim reference) "")) [
          | inl e ↦ rw e h
          | inr e ↦ elim (Option-cases (lookup id s.bkash_txs)) [
            | inl a ↦ rw (e, a) h
            | inr (bt, a) ↦
                rw (e, a)
                  (transaction-Keeps P (refund_found admin id bt (trim reference) (trim reason))
                    (refund_found-Keeps admin id bt (trim reference) (trim reason)) s h)
          ]
        ]

    pub refund_order-Keeps :
        (admin id : ℕ) (reference reason : String)
        → Keeps P (refund_order trim admin id reference reason)
    unfolding refund_order
    refund_order-Keeps admin id reference reason s h =
        elim (Bool-cases (str_eq (trim reference) "")) [
          | inl e ↦ rw e h
          | inr e ↦ elim (Option-cases (lookup id s.orders)) [
            | inl a ↦ rw (e, a) h
            | inr (o, a) ↦ elim (Bool-cases (is_bkash o.payment_method)) [
              | inr b ↦ rw (e, a, b) h
              | inl b ↦ elim (Option-cases (settled_payment id s)) [
                | inl c ↦ rw (e, a, b, c) h
                | inr ((ot_id, ot), c) ↦
                    let paid = refund_paid admin id o ot_id ot (trim reference) (trim reason) in
                    rw (e, a, b, c)
                      (after-keeps P (λ _. order_status_changed id OrderStatus.cancelled)
                        (commit s (paid s))
                        (λ _. order_status_changed-Keeps P preserved id OrderStatus.cancelled)
                        (commit-keeps P s (paid s) h (
                          refund_paid-keeps admin id o ot_id ot (trim reference) (trim reason) s a
                            h)))
              ]
            ]
          ]
        ]
