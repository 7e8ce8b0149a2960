-- ===== src/Service.antt =====
-- The services together: a request to one of them, and runs of requests, each on the store that the
-- one before it left.
pub mod Orders
pub mod Payments
pub mod Grants
pub mod Accounts
pub mod Refunds
pub mod Payouts
pub mod Runs
use Prim.Native.String.{String}
use campusassistant_api.Base.{ℕ, ◌+◌, ℤ, Bool, List, [], ◌∷◌}
use campusassistant_api.Base.Float.{Float64}
use campusassistant_api.Domain.{OrderStatus, PlanEntitlement, Store}
use campusassistant_api.Gateway.{Gateway}
use campusassistant_api.Order.{transition, cancel_by_buyer, expire_unpaid}
use campusassistant_api.Seller.{merchant_update_order_status}
use campusassistant_api.Billing.Delivery.{release_delivered_orders}
use campusassistant_api.Market
use campusassistant_api.Payment
use campusassistant_api.Payment.{cancel_payment, admin_grant_pro}
use campusassistant_api.Payout.{request_payout, mark_payout_paid, reject_payout}
use campusassistant_api.Refund.{refund_subscription_payment, refund_order}
use campusassistant_api.Entitlement.{consume}
use campusassistant_api.Entitlement.Plans.{set_plan_entitlements}
use campusassistant_api.Commission.{set_policy}
use campusassistant_api.Checkout.{CheckoutRequest, checkout}

-- The code that is not the repository's.
pub record World : Type 0 where
  pub gateway : Gateway
  pub round_share : ℤ → Float64 → ℤ
  pub trim : String → String
  pub same_city : String → String → Bool
  pub same_code : String → String → Bool
  pub days_left : ℤ → ℤ
  pub is_bound : CheckoutRequest → Bool
  pub month_of : ℕ → ℕ

pub data Request : Type 0 where
  check_out : ℕ → CheckoutRequest → Request
  move_to : ℕ → OrderStatus → ℕ → Request
  cancel : ℕ → ℕ → Request
  move_by_seller : ℕ → ℕ → ℕ → OrderStatus → Request
  expire : ℕ → ℕ → Request
  release : ℕ → Request
  open_order_payment : ℕ → ℕ → Request
  pay_with : ℕ → String → Request
  reconcile_orders : ℕ → ℕ → ℕ → Request
  open_subscription_payment : ℕ → ℕ → String → Request
  pay_subscription : ℕ → String → Request
  abandon_subscription : ℕ → String → Request
  reconcile_subscriptions : ℕ → ℕ → ℕ → Request
  grant_pro : ℕ → ℕ → ℕ → String → Request
  ask_payout : ℤ → ℕ → ℕ → ℤ → Request
  confirm_payout : ℕ → ℕ → String → Request
  refuse_payout : ℕ → ℕ → String → Request
  refund_subscription : ℕ → ℕ → String → String → Request
  refund : ℕ → ℕ → String → String → Request
  use_feature : ℕ → String → ℤ → Request
  set_entitlements : ℕ → List PlanEntitlement → Request
  set_fee : Bool → Float64 → ℤ → Request
  pass_time : ℕ → Request

module _ (w : World) where
  -- The store after a request, whatever it was answered.
  abbrev pub perform : Request → Store → Store
  perform (Request.check_out user_id req) s =
      (checkout w.same_city w.days_left w.is_bound user_id req s).1
  perform (Request.move_to id to actor) s = (transition w.round_share id to actor s).1
  perform (Request.move_by_seller user_id merchant_id id to) s =
      (merchant_update_order_status w.round_share user_id merchant_id id to s).1
  perform (Request.cancel user_id id) s = (cancel_by_buyer user_id id s).1
  perform (Request.expire max_age batch) s = (expire_unpaid w.round_share max_age batch s).1
  perform (Request.release batch) s = (release_delivered_orders w.round_share batch s).1
  perform (Request.open_order_payment user_id id) s =
      (Market.create_payment w.gateway user_id id s).1
  perform (Request.pay_with user_id payment_id) s =
      (Market.execute_payment w.gateway user_id payment_id s).1
  perform (Request.reconcile_orders min_age cancel_after batch) s =
      (Market.reconcile_pending w.gateway min_age cancel_after batch s).1
  perform (Request.open_subscription_payment user_id plan_id code) s =
      (Payment.create_payment w.gateway w.same_code user_id plan_id code s).1
  perform (Request.pay_subscription user_id payment_id) s =
      (Payment.execute_payment w.gateway user_id payment_id s).1
  perform (Request.abandon_subscription user_id payment_id) s =
      (cancel_payment user_id payment_id s).1
  perform (Request.reconcile_subscriptions min_age cancel_after batch) s =
      (Payment.reconcile_pending w.gateway min_age cancel_after batch s).1
  perform (Request.grant_pro admin user_id plan_id note) s =
      (admin_grant_pro admin user_id plan_id note s).1
  perform (Request.ask_payout min_payout merchant_id user_id amount) s =
      (request_payout min_payout merchant_id user_id amount s).1
  perform (Request.confirm_payout id admin reference) s = (mark_payout_paid id admin reference s).1
  perform (Request.refuse_payout id admin note) s = (reject_payout id admin note s).1
  perform (Request.refund_subscription admin id reference reason) s =
      (refund_subscription_payment w.trim admin id reference reason s).1
  perform (Request.refund admin id reference reason) s =
      (refund_order w.trim admin id reference reason s).1
  perform (Request.use_feature user_id feature n) s = (consume w.month_of user_id feature n s).1
  perform (Request.set_entitlements plan_id items) s = (set_plan_entitlements plan_id items s).1
  perform (Request.set_fee active rate days) s = (set_policy active rate days s).1
  perform (Request.pass_time n) s = record s { now = s.now + n }

  abbrev pub run : List Request → Store → Store
  run [] s = s
  run (r ∷ rs) s = run rs (perform r s)
