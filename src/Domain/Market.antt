-- ===== src/Domain/Market.antt =====
-- Marketplace rows: internal/domain/order.go, order_transaction.go, product.go, merchant.go.
-- An id is a number that is only compared, and 0 is uuid.Nil.
use Prim.Native.String.{String}
pub use campusassistant_api.Base.Float.{Float64}
use campusassistant_api.Base.{ℕ, ℤ, Bool, true, false, List, Option, ◌==◌}

-- A status column is text: `other n` stands for the n-th text that is none of the constants.
pub data OrderStatus : Type 0 where
  pending_payment paid processing shipped delivered cancelled : OrderStatus
  other : ℕ → OrderStatus

-- Go's `==` on two statuses.
abbrev pub same_status : OrderStatus → OrderStatus → Bool
same_status OrderStatus.pending_payment OrderStatus.pending_payment = true
same_status OrderStatus.paid OrderStatus.paid = true
same_status OrderStatus.processing OrderStatus.processing = true
same_status OrderStatus.shipped OrderStatus.shipped = true
same_status OrderStatus.delivered OrderStatus.delivered = true
same_status OrderStatus.cancelled OrderStatus.cancelled = true
same_status (OrderStatus.other m) (OrderStatus.other n) = m == n
same_status _ _ = false

pub data PaymentMethod : Type 0 where
  bkash cash_on_delivery : PaymentMethod
  other : ℕ → PaymentMethod

abbrev pub is_bkash : PaymentMethod → Bool
is_bkash PaymentMethod.bkash = true
is_bkash _ = false

abbrev pub is_cash_on_delivery : PaymentMethod → Bool
is_cash_on_delivery PaymentMethod.cash_on_delivery = true
is_cash_on_delivery _ = false

pub record OrderItem : Type 0 where
  pub product_id : ℕ
  pub product_title : String
  pub merchant_id : ℕ
  pub quantity : ℤ
  pub unit_price : ℤ
  pub commission_rate_snapshot : Float64

-- An order with its items; the shipping snapshot is text that no operation reads.
pub record Order : Type 0 where
  pub created_at : ℕ
  pub buyer_id : ℕ
  pub shipping_recipient_name : String
  pub shipping_phone : String
  pub shipping_address_line : String
  pub shipping_city : String
  pub delivery_charge : ℤ
  pub total_amount : ℤ
  pub status : OrderStatus
  pub payment_method : PaymentMethod
  pub items : List OrderItem

pub record OrderEvent : Type 0 where
  pub order_id : ℕ
  pub status : OrderStatus
  pub actor_id : ℕ

-- What the modelled services read of a product; the description, images, category and aggregates are
-- other services'.
pub record Product : Type 0 where
  pub merchant_id : ℕ
  pub title : String
  pub price : ℤ
  pub stock : ℤ
  pub is_published : Bool
  pub is_deleted : Bool

pub data MerchantStatus : Type 0 where
  pending approved rejected : MerchantStatus

abbrev pub is_approved : MerchantStatus → Bool
is_approved MerchantStatus.approved = true
is_approved _ = false

-- What payouts and earnings read of a merchant; the shop's profile is left out.
pub record Merchant : Type 0 where
  pub created_at : ℕ
  pub user_id : ℕ
  pub commission_rate : Float64
  pub status : MerchantStatus
  pub is_platform : Bool
  pub payout_method : String
  pub payout_account : String
  pub city : String
  pub delivery_charge_inside : ℤ
  pub delivery_charge_outside : ℤ
  pub approved_at : Option ℕ

-- The life of a bKash payment, of an order or of a subscription.
pub data BkashStatus : Type 0 where
  initiated completed failed cancelled needs_review refunded : BkashStatus

abbrev pub is_initiated : BkashStatus → Bool
is_initiated BkashStatus.initiated = true
is_initiated _ = false

abbrev pub is_completed : BkashStatus → Bool
is_completed BkashStatus.completed = true
is_completed _ = false

abbrev pub is_needs_review : BkashStatus → Bool
is_needs_review BkashStatus.needs_review = true
is_needs_review _ = false

pub record OrderTransaction : Type 0 where
  pub created_at : ℕ
  pub order_id : ℕ
  pub payment_id : String
  pub trx_id : String
  pub amount : ℤ
  pub status : BkashStatus
  pub raw_response : String
