-- ===== src/Service/Runs.antt =====
-- What every run of requests preserves.
use Prim.Native.String.{String}
use campusassistant_api.Payout.{mark_payout_paid, reject_payout}
use campusassistant_api.Base.{
  find, ℕ, ℤ, pos, leb_ℤ, arith, ◌≡◌, refl, ap, inl, inr, Bool, false, ◌==◌, ==_iff, Bool-cases,
  Option-cases, some, List, [], ◌∷◌,
}
use campusassistant_api.Base.Float.{Float64}
use campusassistant_api.Base.Table.{lookup, lookup-modify, lookup-insert_other}
use campusassistant_api.Domain.{
  PayoutStatus, OrderStatus, same_status, Order, PlanEntitlement, Store, ok, err, Keeps,
  result_cases,
}
use campusassistant_api.Ledger.Books.{IsBooks, post_journal-IsBooks}
use campusassistant_api.Billing.Frame.{post_journal-Keeps}
use campusassistant_api.Order.{can_transition, order_rank, set_status}
use campusassistant_api.Entitlement.{active_plan, resolve, consume, entry_of, is_for, row_or_zero}
use campusassistant_api.Entitlement.Resolving.{grants_at, features_at, consume-found}
use campusassistant_api.Entitlement.Remaining.{consume_by-counters}
use campusassistant_api.Entitlement.Plans.{checked_items, set_plan_entitlements}
use campusassistant_api.Commission.{set_policy, is_bad_rate, is_bad_length}
use campusassistant_api.Service.{World, Request, perform, run}
use campusassistant_api.Seller.{merchant_update_order_status}
use campusassistant_api.Seller.Fulfilling.{update-cases}
use campusassistant_api.Service.Orders.{
  Moves, IsPreserved, transition-Keeps, cancel_by_buyer-Keeps, expire_unpaid-Keeps,
  release_delivered_orders-Keeps, checkout-Keeps,
}
use campusassistant_api.Service.Payments
use campusassistant_api.Service.Accounts
use campusassistant_api.Service.Grants.{cancel_payment-Keeps, admin_grant_pro-Keeps}
use campusassistant_api.Service.Payouts.{request_payout-Keeps, settle_payout-Keeps}
use campusassistant_api.Service.Refunds.{refund_subscription_payment-Keeps, refund_order-Keeps}

module _ (P : Store → Type 0) (preserved : IsPreserved P) where
  consume-Keeps :
      (month_of : ℕ → ℕ) (user_id : ℕ) (f : String) (n : ℤ) → Keeps P (consume month_of user_id f n)
  unfolding consume resolve active_plan
  consume-Keeps month_of user_id f n s h = elim (Bool-cases (leb_ℤ n (pos 0))) [
    | inl e ↦ rw e h
    | inr e ↦ elim (Option-cases (lookup user_id s.users)) [
      | inl a ↦ rw (e, a) h
      | inr (u, a) ↦
          elim (Bool-cases
            (entry_of f (features_at month_of user_id (grants_at u user_id s) s)).allowed) [
              | inl b ↦
                  let (cs, k) =
                    consume_by-counters month_of user_id f n
                      (row_or_zero (find (is_for f) (grants_at u user_id s))) s in
                  rw (consume-found month_of user_id f n u s a (ground arith), b, k)
                    (preserved.frames s _ refl refl h)
              | inr b ↦ rw (consume-found month_of user_id f n u s a (ground arith), b) h
            ]
    ]
  ]

  set_plan_entitlements-Keeps :
      (plan_id : ℕ) (items : List PlanEntitlement) → Keeps P (set_plan_entitlements plan_id items)
  unfolding set_plan_entitlements
  set_plan_entitlements-Keeps plan_id items s h =
      elim (result_cases (checked_items plan_id [] items, s)) [
        | inr (x, b) ↦
            let failed : checked_items plan_id [] items ≡ err x = ap (λ r. r.0) b in rw failed h
        | inl (rows, b) ↦
            let done : checked_items plan_id [] items ≡ ok rows = ap (λ r. r.0) b in
            elim (Option-cases (lookup plan_id s.plans)) [
              | inl e ↦ rw (done, e) h
              | inr (p, e) ↦ rw (done, e) (preserved.frames s _ refl refl h)
            ]
      ]

  set_policy-Keeps :
      (active : Bool) (rate : Float64) (days : ℤ) → Keeps P (set_policy active rate days)
  unfolding set_policy
  set_policy-Keeps active rate days s h = elim (Bool-cases (is_bad_rate rate)) [
    | inl e ↦ rw e h
    | inr e ↦ elim (Bool-cases (is_bad_length days)) [
      | inl a ↦ rw (e, a) h
      | inr a ↦ rw (e, a) (preserved.frames s _ refl refl h)
    ]
  ]

  merchant_update-Keeps :
      (round_share : ℤ → Float64 → ℤ) (user_id merchant_id id : ℕ) (to : OrderStatus)
      → Keeps P (merchant_update_order_status round_share user_id merchant_id id to)
  merchant_update-Keeps round_share user_id merchant_id id to s h =
      elim (update-cases round_share user_id merchant_id id to s) [
        | inl same ↦ rw same h
        | inr (o, _, _, e) ↦ rw e (transition-Keeps P preserved round_share id to user_id s h)
      ]

  perform-keeps : (w : World) (r : Request) (s : Store) → P s → P (perform w r s)
  unfolding mark_payout_paid reject_payout
  perform-keeps w (Request.check_out user_id req) =
      checkout-Keeps P preserved w.same_city w.days_left w.is_bound user_id req
  perform-keeps w (Request.move_to id to actor) =
      transition-Keeps P preserved w.round_share id to actor
  perform-keeps w (Request.move_by_seller user_id merchant_id id to) =
      merchant_update-Keeps w.round_share user_id merchant_id id to
  perform-keeps w (Request.cancel user_id id) = cancel_by_buyer-Keeps P preserved user_id id
  perform-keeps w (Request.expire max_age batch) =
      expire_unpaid-Keeps P preserved w.round_share max_age batch
  perform-keeps w (Request.release batch) =
      release_delivered_orders-Keeps P preserved w.round_share batch
  perform-keeps w (Request.open_order_payment user_id id) =
      Payments.create_payment-Keeps P preserved w.gateway user_id id
  perform-keeps w (Request.pay_with user_id payment_id) =
      Payments.execute_payment-Keeps P preserved w.gateway user_id payment_id
  perform-keeps w (Request.reconcile_orders min_age cancel_after batch) =
      Payments.reconcile_pending-keeps P preserved w.gateway min_age cancel_after batch
  perform-keeps w (Request.open_subscription_payment user_id plan_id code) =
      Accounts.create_payment-Keeps P preserved w.gateway w.same_code user_id plan_id code
  perform-keeps w (Request.pay_subscription user_id payment_id) =
      Accounts.execute_payment-Keeps P preserved w.gateway user_id payment_id
  perform-keeps w (Request.abandon_subscription user_id payment_id) =
      cancel_payment-Keeps P preserved user_id payment_id
  perform-keeps w (Request.reconcile_subscriptions min_age cancel_after batch) =
      Accounts.reconcile_pending-keeps P preserved w.gateway min_age cancel_after batch
  perform-keeps w (Request.grant_pro admin user_id plan_id note) =
      admin_grant_pro-Keeps P preserved admin user_id plan_id note
  perform-keeps w (Request.ask_payout min_payout merchant_id user_id amount) =
      request_payout-Keeps P preserved min_payout merchant_id user_id amount
  perform-keeps w (Request.confirm_payout id admin reference) =
      settle_payout-Keeps P preserved id admin PayoutStatus.paid reference ""
  perform-keeps w (Request.refuse_payout id admin note) =
      settle_payout-Keeps P preserved id admin PayoutStatus.rejected "" note
  perform-keeps w (Request.refund_subscription admin id reference reason) =
      refund_subscription_payment-Keeps P preserved w.trim admin id reference reason
  perform-keeps w (Request.refund admin id reference reason) =
      refund_order-Keeps P preserved w.trim admin id reference reason
  perform-keeps w (Request.use_feature user_id feature n) =
      consume-Keeps w.month_of user_id feature n
  perform-keeps w (Request.set_entitlements plan_id items) =
      set_plan_entitlements-Keeps plan_id items
  perform-keeps w (Request.set_fee active rate days) = set_policy-Keeps active rate days
  perform-keeps w (Request.pass_time n) = λ s h. preserved.frames s _ refl refl h

  run-keeps : (w : World) (rs : List Request) (s : Store) → P s → P (run w rs s)
  run-keeps w [] s h = h
  run-keeps w (r ∷ rs) s h = run-keeps w rs (perform w r s) (perform-keeps w r s h)

-- A chain of moves of one order.
pub data Reaches : OrderStatus → OrderStatus → Type 0 where
  stays : {a : OrderStatus} → Reaches a a
  then_moves : {a b c : OrderStatus} → Reaches a b → Moves b c → Reaches a c

-- The orders of an earlier store are still there, each at a status that it can have reached.
abbrev pub HasOrders : Store → Store → Type 0
HasOrders s₀ s =
    (id : ℕ) (o₀ : Order)
    → lookup id s₀.orders ≡ some o₀
    → (o : Order) × (lookup id s.orders ≡ some o) × Reaches o₀.status o.status

moved_row :
    (id : ℕ) (o : Order) (to : OrderStatus) (s : Store) (k : ℕ) (o₀ : Order)
    → lookup id s.orders ≡ some o
    → Moves o.status to
    → (q : Order) × (lookup k s.orders ≡ some q) × Reaches o₀.status q.status
    → (q : Order) × (lookup k (set_status id to s).orders ≡ some q) × Reaches o₀.status q.status
moved_row id o to s k o₀ found m (q, a, r) =
    let f : Order → Order = λ p. record p { status = to } in
    elim (Bool-cases (id == k)) [
      | inl e ↦
          let there : lookup id s.orders ≡ some q = rw ((==_iff id k).0 e) a in
          let same : o ≡ q = cc (rw there at found) in
          (f q, rw (lookup-modify k id f s.orders, e, a) refl, Reaches.then_moves r (rw (← same) m))
      | inr e ↦ (q, rw (lookup-modify k id f s.orders, e) a, r)
    ]

no_move : (to : OrderStatus) → can_transition OrderStatus.cancelled to ≡ false
unfolding can_transition order_rank
no_move to = elim (Bool-cases (same_status OrderStatus.cancelled to)) [
  | inl e ↦ rw e refl
  | inr e ↦ rw e refl
]

Reaches-cancelled :
    {a b : OrderStatus} → Reaches a b → a ≡ OrderStatus.cancelled → b ≡ OrderStatus.cancelled
Reaches-cancelled Reaches.stays h = h
Reaches-cancelled (Reaches.then_moves {c = c} r (inl m)) h =
    cc (rw (Reaches-cancelled r h, no_move c) at m)
Reaches-cancelled (Reaches.then_moves r (inr m)) h = m

IsBooks-IsPreserved : IsPreserved IsBooks
IsBooks-IsPreserved = record {
  posts = post_journal-IsBooks;
  frames = λ s t e f h. rw e h;
  creates = λ id o s h. h;
  moves = λ id o to s found m h. h;
}

HasOrders-IsPreserved : (s₀ : Store) → IsPreserved (HasOrders s₀)
HasOrders-IsPreserved s₀ = record {
  posts = post_journal-Keeps (HasOrders s₀) (λ s js h. h);
  frames = λ s t e f h id o₀ k. rw f (h id o₀ k);
  creates = λ id o s h k o₀ there.
      let (q, a, r) = h k o₀ there in (q, lookup-insert_other k id o q s.orders a, r);
  moves = λ id o to s found m h k o₀ there. moved_row id o to s k o₀ found m (h k o₀ there);
}

-- After any run of requests, whatever bKash, the rounding of commissions and the texts are, the books
-- are sound and their keys unique, if they were at its start. In sound books the debits and the
-- credits of each journal are equal as 64-bit ints, so they are equal as numbers if both sums fit one.
pub run-IsBooks : (w : World) (rs : List Request) (s : Store) → IsBooks s → IsBooks (run w rs s)
run-IsBooks = run-keeps IsBooks IsBooks-IsPreserved

-- Any run of requests keeps every order that was there at its start, and the run is for that order a
-- chain of moves, each of which the diagram of statuses allows or is a cancellation. A cancelled
-- order stays cancelled.
pub run-Reaches :
    (w : World) (rs : List Request) (s : Store) (id : ℕ) (o₀ : Order)
    → lookup id s.orders ≡ some o₀
    → (o : Order) × (lookup id (run w rs s).orders ≡ some o)
      × Reaches o₀.status o.status
      × (o₀.status ≡ OrderStatus.cancelled → o.status ≡ OrderStatus.cancelled)
run-Reaches w rs s id o₀ found =
    let start : HasOrders s s = λ k o h. (o, h, Reaches.stays) in
    let (o, a, r) = run-keeps (HasOrders s) (HasOrders-IsPreserved s) w rs s start id o₀ found in
    (o, a, r, Reaches-cancelled r)
