-- ===== src/Domain/Database.antt =====
-- The database as one value, and the monad of the services. A statement of a healthy database
-- succeeds; `transaction` gives back the store as it was when its body returns an error.
use Prim.Native.String.{String}
use campusassistant_api.Base.{ℕ, ℤ, Bool, true, false, List, ◌∷◌, [], ◌++◌, Option, none, some}
use campusassistant_api.Base.Table.{Table}
use campusassistant_api.Domain.Market.{
  OrderStatus, Order, OrderEvent, OrderTransaction, Product, Merchant,
}
use campusassistant_api.Domain.Ledger.{Journal, Invoice, Refund, MerchantPayout}
use campusassistant_api.Domain.Access.{
  PlanEntitlement, UsageCounter, AccessGrant, Student, CommissionPolicy, Moderator, Address,
}
use campusassistant_api.Domain.Subscription.{
  SubscriptionPlan, UserSubscription, BkashTransaction, CouponCode, User,
}

-- The sentinel errors of the services, and the answers of the order handlers; `stock_error` is the
-- struct StockError.
pub data Err : Type 0 where
  order_not_found forbidden order_not_cancellable : Err
  invalid_transition : OrderStatus → OrderStatus → Err
  stock_error : String → ℤ → Bool → Err
  order_tx_not_found marketplace_payment_not_completed order_not_payable amount_mismatch : Err
  order_not_delivered insufficient_balance below_min_payout no_payout_account : Err
  merchant_not_approved merchant_not_found payout_not_found payout_not_requested : Err
  invoice_not_found ledger_unbalanced invalid_line invalid_payout_amount : Err
  not_refundable already_refunded : Err
  plan_not_found transaction_not_found payment_not_completed : Err
  coupon_not_found coupon_expired coupon_exhausted coupon_min_amount coupon_plan_mismatch : Err
  record_not_found unique_violation gateway_error : Err
  feature_not_entitled feature_limit_reached invalid_entitlement : Err
  invalid_policy address_not_found product_not_found invalid_request not_fulfillable : Err

-- What the services do besides the database: messages to people, and the seller's reputation.
pub data Effect : Type 0 where
  buyer_status : ℕ → OrderStatus → Effect
  merchants_new_order merchants_cancelled refresh_ship_speed : ℕ → Effect
  telegram_order_paid telegram_subscription_paid : ℕ → ℤ → Effect

pub record Store : Type 0 where
  pub products : Table Product
  pub orders : Table Order
  pub events : List OrderEvent
  pub order_txs : Table OrderTransaction
  pub merchants : Table Merchant
  pub journals : List Journal
  pub invoices : List Invoice
  pub invoice_counters : Table ℕ
  pub payouts : Table MerchantPayout
  pub refunds : List Refund
  pub users : Table User
  pub plans : Table SubscriptionPlan
  pub subscriptions : Table UserSubscription
  pub bkash_txs : Table BkashTransaction
  pub coupons : Table CouponCode
  pub plan_entitlements : List PlanEntitlement
  pub usage_counters : List UsageCounter
  pub access_grants : List AccessGrant
  pub students : List Student
  pub commission_policies : List CommissionPolicy
  pub moderators : List Moderator
  pub addresses : Table Address
  pub outbox : List Effect
  pub next_id : ℕ
  pub now : ℕ
  pub year : ℕ

pub data Result {ℓ} (A : Type ℓ) : Type ℓ where
  ok : A → Result A
  err : Err → Result A

abbrev pub M : Type 0 → Type 0
M A = Store → Result A × Store

module _ {A : Type 0} where
  abbrev pub pure : A → M A
  pure a s = (ok a, s)

  abbrev pub fail : Err → M A
  fail e s = (err e, s)

  abbrev pub gets : (Store → A) → M A
  gets f s = (ok (f s), s)

  -- `if err := ...First(...); err != nil { return e }`
  abbrev pub or_fail : Option A → Err → M A
  or_fail none e s = (err e, s)
  or_fail (some a) e s = (ok a, s)

  -- `db.Transaction(func(tx) error { ... })`
  abbrev pub commit : Store → Result A × Store → Result A × Store
  commit s (ok a, t) = (ok a, t)
  commit s (err e, t) = (err e, s)

  abbrev pub transaction : M A → M A
  transaction m s = commit s (m s)

infixl 5 ◌>>=◌ ◌>>◌
abbrev pub after : {A B : Type 0} → (A → M B) → Result A × Store → Result B × Store
after f (ok a, s) = f a s
after f (err e, s) = (err e, s)

abbrev pub ◌>>=◌ : {A B : Type 0} → M A → (A → M B) → M B
◌>>=◌ m f s = after f (m s)

abbrev pub ◌>>◌ : {A B : Type 0} → M A → M B → M B
m >> k = m >>= λ _. k

abbrev pub Done : Type 0
Done = Unit

abbrev pub update : (Store → Store) → M Done
update f s = (ok tt, f s)

abbrev pub emit : Effect → M Done
emit e s = (ok tt, record s { outbox = s.outbox ++ e ∷ [] })

-- `return e` behind a test.
abbrev pub fail_if : Bool → Err → M Done
fail_if true e s = (err e, s)
fail_if false e s = (ok tt, s)

-- A statement behind a test.
abbrev pub when : Bool → M Done → M Done
when true m = m
when false m = λ s. (ok tt, s)
