-- ===== src/Domain/Subscription.antt =====
-- Rows of the subscription side: internal/domain/subscription.go, bkash_transaction.go, coupon.go
-- and the Pro columns of user.go.
use Prim.Native.String.{String}
use campusassistant_api.Base.{ℕ, ℤ, Bool, Option, ◌*◌}
use campusassistant_api.Domain.Market.{BkashStatus}

-- Times are nanoseconds of the Unix clock, from 1970 on.
abbrev pub day : ℕ
day = 86_400 * 1_000_000_000

pub record SubscriptionPlan : Type 0 where
  pub title : String
  pub price : ℤ
  pub duration_days : ℕ
  pub is_lifetime : Bool

abbrev pub grace_days : ℕ
grace_days = 7

-- Why a subscription was granted.
pub data GrantReason : Type 0 where
  payment admin_grant coupon : GrantReason

pub record UserSubscription : Type 0 where
  pub created_at : ℕ
  pub user_id : ℕ
  pub plan_id : ℕ
  pub plan : String
  pub price : ℤ
  pub start_date : ℕ
  pub granted_by : Option ℕ
  pub grant_reason : GrantReason
  pub note : String
  pub end_date : Option ℕ
  pub grace_ends_at : Option ℕ
  pub refunded_at : Option ℕ

pub record BkashTransaction : Type 0 where
  pub created_at : ℕ
  pub user_id : ℕ
  pub plan_id : ℕ
  pub payment_id : String
  pub trx_id : String
  pub amount : ℤ
  pub original_amount : ℤ
  pub coupon_code_id : Option ℕ
  pub coupon_reserved : Bool
  pub subscription_id : Option ℕ
  pub status : BkashStatus
  pub raw_response : String

pub data DiscountType : Type 0 where
  percentage fixed : DiscountType
  other : ℕ → DiscountType

pub record CouponCode : Type 0 where
  pub code : String
  pub discount_type : DiscountType
  pub discount_value : ℤ
  pub max_uses : ℤ
  pub used_count : ℤ
  pub plan_id : Option ℕ
  pub min_amount : ℤ
  pub expires_at : Option ℕ
  pub is_active : Bool

-- The columns of a user that say who is Pro, since when there is an account, and where it belongs;
-- the profile is left out.
pub record User : Type 0 where
  pub created_at : ℕ
  pub university_id : Option ℕ
  pub department_id : Option ℕ
  pub is_pro : Bool
  pub pro_expiry : Option ℕ
