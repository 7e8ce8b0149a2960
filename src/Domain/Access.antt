-- ===== src/Domain/Access.antt =====
-- Rows of what a user may do besides buying: internal/domain/entitlement.go, access_grant.go,
-- commission.go, moderator.go, address.go, and the columns of student.go that place a user.
use Prim.Native.String.{String}
use campusassistant_api.Base.{ℕ, ℤ, negsuc, Bool, Option, List, [], ◌∷◌}
use campusassistant_api.Domain.Market.{Float64}

abbrev pub feature_ad_free : String
feature_ad_free = "ad_free"

abbrev pub feature_unlimited_downloads : String
feature_unlimited_downloads = "unlimited_downloads"

abbrev pub feature_premium_content : String
feature_premium_content = "premium_content"

abbrev pub default_pro_features : List String
default_pro_features = feature_ad_free ∷ feature_unlimited_downloads ∷ feature_premium_content ∷ []

-- `LimitUnlimited`, -1
abbrev pub limit_unlimited : ℤ
limit_unlimited = negsuc 0

abbrev pub period_none : String
period_none = "none"

abbrev pub period_daily : String
period_daily = "daily"

abbrev pub period_month : String
period_month = "month"

pub record PlanEntitlement : Type 0 where
  pub plan_id : ℕ
  pub feature : String
  pub limit : ℤ
  pub period : String

-- The text of a period: a date, a month or "all". Two texts are equal when these are.
pub data PeriodKey : Type 0 where
  date : ℕ → PeriodKey
  month : ℕ → PeriodKey
  all : PeriodKey

pub record UsageCounter : Type 0 where
  pub user_id : ℕ
  pub feature : String
  pub period_key : PeriodKey
  pub used : ℤ

pub record FeatureAccess : Type 0 where
  pub allowed : Bool
  pub limit : ℤ
  pub period : String
  pub used : ℤ
  pub remaining : ℤ

-- `Features` is a Go map: its order means nothing.
pub record UserEntitlements : Type 0 where
  pub is_pro : Bool
  pub plan_id : Option ℕ
  pub features : List (String × FeatureAccess)

-- The scope is a text column; `other n` is the n-th text that is none of the constants.
pub data GrantScope : Type 0 where
  all university department batch user : GrantScope
  other : ℕ → GrantScope

pub record AccessGrant : Type 0 where
  pub label : String
  pub scope_type : GrantScope
  pub scope_id : Option ℕ
  pub ad_free : Bool
  pub coin_free : Bool
  pub starts_at : ℕ
  pub ends_at : Option ℕ
  pub new_user_days : ℤ

-- An end of `none` with the perk on is no end.
pub record GrantPerks : Type 0 where
  pub ad_free : Bool
  pub ad_free_until : Option ℕ
  pub coin_free : Bool
  pub coin_free_until : Option ℕ
  pub label : String

-- What places a student in the tree of universities.
pub record Student : Type 0 where
  pub user_id : Option ℕ
  pub batch_id : ℕ
  pub department_id : ℕ
  pub university_id : ℕ

pub record CommissionPolicy : Type 0 where
  pub promo_active : Bool
  pub promo_rate : Float64
  pub promo_days : ℤ

pub data ModeratorScope : Type 0 where
  batch department university : ModeratorScope
  other : ℕ → ModeratorScope

pub record Moderator : Type 0 where
  pub user_id : ℕ
  pub scope_type : ModeratorScope
  pub scope_id : ℕ
  pub term_start : Option ℕ
  pub term_end : Option ℕ
  pub is_active : Bool

-- The address that an order copies; of its text only the city is read.
pub record Address : Type 0 where
  pub user_id : ℕ
  pub recipient_name : String
  pub phone : String
  pub address_line : String
  pub city : String
