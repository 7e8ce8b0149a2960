-- ===== src/Payment.antt =====
-- bKash payments of subscriptions: internal/service/payment_service.go. The service has billing and
-- Telegram; what these send stands in the outbox.
pub mod Booking
pub mod Grants
pub mod Once
use Prim.Native.String.{String}
use text.Mathlib.Text.{◌==◌ as str_eq}
use campusassistant_api.Base.{
  ℕ, suc, ◌-◌, ℤ, pos, eq_ℤ, ltb, Bool, true, false, not, ◌&&◌, ◌==◌, if◌then◌else◌, Option, none,
  some, List, [], ◌∷◌, find, exists, select, take, is_some,
}
use campusassistant_api.Base.Table.{Table, lookup, modify, insert}
use campusassistant_api.Domain.{
  BkashStatus, is_initiated, is_completed, is_needs_review, SubscriptionPlan, GrantReason,
  UserSubscription, BkashTransaction, CouponCode, Store, M, Result, ok, err, Err, pure, fail, gets,
  or_fail, fail_if, update, emit, when, Done, transaction, plan_not_found, transaction_not_found,
  forbidden, amount_mismatch, payment_not_completed, gateway_error, unique_violation,
  coupon_not_found, record_not_found, telegram_subscription_paid, ◌>>=◌, ◌>>◌,
}
use campusassistant_api.Billing.{record_subscription_payment}
use campusassistant_api.Coupon.{validate_coupon, reserve_coupon, force_coupon_use, release_coupon}
use campusassistant_api.Subscription.{Grant, grant_subscription, is_of_user, latest_of}
use campusassistant_api.Market.{is_other_amount}
use campusassistant_api.Gateway.{
  Gateway, ExecuteResult, Reply, Session, is_confirmed, paid_amount, settle_reply, ReconcileStats,
  no_stats,
}

abbrev pub has_payment_id : String → ℕ × BkashTransaction → Bool
has_payment_id payment_id (_, tx) = str_eq tx.payment_id payment_id

abbrev pub find_payment : String → Store → Option (ℕ × BkashTransaction)
find_payment payment_id s = find (has_payment_id payment_id) s.bkash_txs

-- `GetByCode`, where `same_code` is UPPER(code) = strings.ToUpper(typed).
abbrev pub has_code : (String → String → Bool) → String → ℕ × CouponCode → Bool
has_code same_code code (_, c) = same_code c.code code

-- The result of `validateCoupon`, as a step that changes nothing.
abbrev pub lift : {A : Type 0} → Result A → M A
lift r s = (r, s)

-- The charge and the coupon whose use was reserved; an empty code is no coupon.
unfoldable pub reserve : (String → String → Bool) → ℕ → SubscriptionPlan → String → M (ℤ × Option ℕ)
reserve same_code plan_id plan code = if str_eq code "" then pure (plan.price, none) else (do
  row ← gets (λ s. find (has_code same_code code) s.coupons)
  coupon ← or_fail row coupon_not_found
  now ← gets (λ s. s.now)
  amount ← lift (validate_coupon coupon.1 plan_id plan.price now)
  reserve_coupon coupon.0
  pure (amount, some coupon.0))

-- Gives a use back, if there is a coupon.
abbrev pub release_if : Option ℕ → Store → Store
release_if none s = s
release_if (some id) s = release_coupon id s

unfoldable pub new_payment : ℕ → ℕ → ℤ → ℤ → Option ℕ → String → ℕ → BkashTransaction
new_payment user_id plan_id amount original coupon payment_id now = record {
  created_at = now;
  user_id = user_id;
  plan_id = plan_id;
  payment_id = payment_id;
  trx_id = "";
  amount = amount;
  original_amount = original;
  coupon_code_id = coupon;
  coupon_reserved = is_some coupon;
  subscription_id = none;
  status = BkashStatus.initiated;
  raw_response = "";
}

abbrev pub save_payment : BkashTransaction → Store → Store
save_payment tx s = record s {
  bkash_txs = insert s.next_id tx s.bkash_txs;
  next_id = suc s.next_id;
}

-- After bKash opened a session, or refused: a failure hands the reserved use back.
abbrev pub save_session : ℕ → ℕ → ℤ → ℤ → Option ℕ → Session → M String
save_session user_id plan_id amount original coupon Session.refused =
    update (release_if coupon) >> fail gateway_error
save_session user_id plan_id amount original coupon (Session.opened payment_id) = do
  taken ← gets (λ s. exists (has_payment_id payment_id) s.bkash_txs)
  when taken (update (release_if coupon))
  fail_if taken unique_violation
  update (λ s. save_payment (new_payment user_id plan_id amount original coupon payment_id s.now) s)
  pure payment_id

-- How the transaction of `fulfil` ended: already granted, flagged for review, or granted now.
pub data Outcome : Type 0 where
  existing : ℕ → Outcome
  mismatch : Outcome
  fresh : ℕ → ℤ → Outcome

-- `subscriptionForDB`: the recorded subscription, else the newest of the user.
abbrev pub subscription_at : ℕ → Option ℕ → M ℕ
subscription_at user_id (some id) = do
  row ← gets (λ s. lookup id s.subscriptions)
  or_fail row record_not_found
  pure id
subscription_at user_id none = do
  row ← gets (latest_of user_id)
  sub ← or_fail row record_not_found
  pure sub.0

unfoldable pub subscription_for : BkashTransaction → M ℕ
subscription_for tx = subscription_at tx.user_id tx.subscription_id

abbrev pub stamp : ℕ → (BkashTransaction → BkashTransaction) → Store → Store
stamp id f s = record s { bkash_txs = modify id f s.bkash_txs }

abbrev pub needs_review : ExecuteResult → BkashTransaction → BkashTransaction
needs_review r tx = record tx {
  status = BkashStatus.needs_review;
  trx_id = r.trx_id;
  raw_response = r.raw;
}

-- The row of a fulfilled payment.
abbrev pub completed : ExecuteResult → ℕ → BkashTransaction → BkashTransaction
completed r sub_id tx = record tx {
  status = BkashStatus.completed;
  trx_id = r.trx_id;
  raw_response = r.raw;
  subscription_id = some sub_id;
  coupon_reserved = is_some tx.coupon_code_id;
}

abbrev pub force_if : Option ℕ → Store → Store
force_if none s = s
force_if (some id) s = force_coupon_use id s

-- The use of a coupon whose reservation was released meanwhile is taken again.
abbrev pub reclaim : BkashTransaction → Store → Store
reclaim tx s = if tx.coupon_reserved then s else force_if tx.coupon_code_id s

abbrev pub grant_of : BkashTransaction → SubscriptionPlan → Grant
grant_of tx plan = record {
  user_id = tx.user_id;
  plan_id = tx.plan_id;
  plan = plan;
  price = tx.amount;
  reason = if is_some tx.coupon_code_id then GrantReason.coupon else GrantReason.payment;
  granted_by = none;
  note = "";
}

unfoldable pub fulfil_payment : ℕ → BkashTransaction → ExecuteResult → M Outcome
fulfil_payment id tx r = do
  row ← gets (λ s. lookup tx.plan_id s.plans)
  plan ← or_fail row plan_not_found
  sub_id ← grant_subscription (grant_of tx plan)
  update (reclaim tx)
  update (stamp id (completed r sub_id))
  record_subscription_payment id (record tx { trx_id = r.trx_id; status = BkashStatus.completed })
      plan.title
  pure (fresh sub_id tx.amount)

abbrev pub report : Outcome → M ℕ
report (existing id) = pure id
report mismatch = fail amount_mismatch
report (fresh id amount) = emit (telegram_subscription_paid id amount) >> pure id

abbrev pub terminal : BkashStatus → String → String → BkashTransaction → BkashTransaction
terminal status trx_id raw tx = record tx {
  status = status;
  trx_id = trx_id;
  raw_response = raw;
  coupon_reserved = false;
}

-- The body of `markTerminal` for the row that was found.
abbrev pub close_found :
    BkashStatus → String → String → Option (ℕ × BkashTransaction) → Store → Store
close_found status trx_id raw none s = s
close_found status trx_id raw (some (id, tx)) s =
    if is_initiated tx.status
    then stamp id (terminal status trx_id raw)
        (if tx.coupon_reserved then release_if tx.coupon_code_id s else s)
    else s

unfoldable pub mark_terminal : String → BkashStatus → String → String → Store → Store
mark_terminal payment_id status trx_id raw s =
    close_found status trx_id raw (find_payment payment_id s) s

unfoldable pub cancel_payment : ℕ → String → M Done
cancel_payment user_id payment_id = do
  found ← gets (find_payment payment_id)
  tx ← or_fail found transaction_not_found
  fail_if (not (tx.1.user_id == user_id)) forbidden
  when (is_initiated tx.1.status) (update (mark_terminal payment_id BkashStatus.cancelled "" ""))

unfoldable pub admin_grant_pro : ℕ → ℕ → ℕ → String → M ℕ
admin_grant_pro admin_id user_id plan_id note = do
  row ← gets (λ s. lookup plan_id s.plans)
  plan ← or_fail row plan_not_found
  transaction (
      grant_subscription (record {
        user_id = user_id;
        plan_id = plan_id;
        plan = plan;
        price = pos 0;
        reason = GrantReason.admin_grant;
        granted_by = some admin_id;
        note = note;
      }))

module _ (g : Gateway) where
  unfoldable pub create_payment : (String → String → Bool) → ℕ → ℕ → String → M String
  create_payment same_code user_id plan_id code = do
    row ← gets (λ s. lookup plan_id s.plans)
    plan ← or_fail row plan_not_found
    charge ← reserve same_code plan_id plan code
    save_session user_id plan_id charge.0 plan.price charge.1 (g.create_payment charge.0)

  unfoldable pub settle_payment : String → ExecuteResult → M Outcome
  settle_payment payment_id r = do
    row ← gets (find_payment payment_id)
    tx ← or_fail row transaction_not_found
    if is_completed tx.1.status
        then (subscription_for tx.1 >>= λ id. pure (existing id))
        else (if is_other_amount (paid_amount g r) tx.1.amount
            then (update (stamp tx.0 (needs_review r)) >> pure mismatch)
            else fulfil_payment tx.0 tx.1 r)

  unfoldable pub fulfil : String → ExecuteResult → M ℕ
  fulfil payment_id r = transaction (settle_payment payment_id r) >>= report

  abbrev pub conclude : String → Reply → M ℕ
  conclude payment_id Reply.failed = fail gateway_error
  conclude payment_id (Reply.answered r) =
      if is_confirmed r
      then fulfil payment_id r
      else (update (mark_terminal payment_id BkashStatus.failed r.trx_id r.raw)
          >> fail payment_not_completed)

  unfoldable pub execute_payment : ℕ → String → M ℕ
  execute_payment user_id payment_id = do
    found ← gets (find_payment payment_id)
    tx ← or_fail found transaction_not_found
    fail_if (not (tx.1.user_id == user_id)) forbidden
    if is_completed tx.1.status
        then subscription_for tx.1
        else (if is_needs_review tx.1.status
            then fail amount_mismatch
            else conclude payment_id (settle_reply g payment_id))

  abbrev pub tally : ReconcileStats → Result ℕ → ReconcileStats
  tally st (ok _) = record st { recovered = suc st.recovered }
  tally st (err _) = record st { errors = suc st.errors }

  unfoldable pub reconcile_reply :
      ℕ → BkashTransaction → Reply → ReconcileStats → Store → ReconcileStats × Store
  reconcile_reply cancel_after tx Reply.failed st s = (record st { errors = suc st.errors }, s)
  reconcile_reply cancel_after tx (Reply.answered r) st s =
      if is_confirmed r
      then (let (res, t) = fulfil tx.payment_id r s in (tally st res, t))
      else (if ltb tx.created_at (s.now - cancel_after)
          then (
            record st { cancelled = suc st.cancelled },
            mark_terminal tx.payment_id BkashStatus.cancelled "" "" s,
          )
          else (st, s))

  unfoldable pub reconcile_each :
      ℕ → List (ℕ × BkashTransaction) → ReconcileStats → Store → ReconcileStats × Store
  reconcile_each cancel_after [] st s = (st, s)
  reconcile_each cancel_after ((_, tx) ∷ txs) st s =
      let (st', t) =
        reconcile_reply cancel_after tx (g.query_payment tx.payment_id)
          (record st { checked = suc st.checked }) s in
      reconcile_each cancel_after txs st' t

  abbrev pub is_pending : ℕ → Store → ℕ × BkashTransaction → Bool
  is_pending min_age s (_, tx) = is_initiated tx.status && ltb tx.created_at (s.now - min_age)

  unfoldable pub reconcile_pending : ℕ → ℕ → ℕ → Store → ReconcileStats × Store
  reconcile_pending min_age cancel_after batch s =
      reconcile_each cancel_after (take batch (select (is_pending min_age s) s.bkash_txs)) no_stats
        s
