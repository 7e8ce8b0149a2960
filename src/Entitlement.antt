-- ===== src/Entitlement.antt =====
-- Entitlements: activePlan, resolve, ForUser, Check and Consume of
-- internal/service/entitlement_service.go. `month_of` is the month of a time, Go's calendar.
pub mod Counters
pub mod Usage
pub mod Resolving
pub mod Consuming
pub mod Remaining
pub mod Plans
pub mod Stored
pub mod Replacing
pub mod Gate
use Prim.Native.String.{String}
use text.Mathlib.Text.{◌==◌ as str_eq}
use campusassistant_api.Base.{
  ℕ, ◌/◌, ℤ, pos, negsuc, ◌+ℤ◌, ◌-ℤ◌, ltb_ℤ, leb_ℤ, eq_ℤ, ltb, Bool, true, false, not, ◌&&◌, ◌||◌,
  ◌==◌, if◌then◌else◌, Option, none, some, is_some, List, [], ◌∷◌, ◌++◌, find, select, exists, map,
}
use campusassistant_api.Base.Table.{lookup}
use campusassistant_api.Domain.{
  day, User, UserSubscription, PlanEntitlement, PeriodKey, UsageCounter, FeatureAccess,
  UserEntitlements, GrantPerks, feature_ad_free, feature_unlimited_downloads, default_pro_features,
  limit_unlimited, period_none, period_daily, period_month, Store, Result, ok, err, M, pure, fail,
  gets, or_fail, fail_if, update, when, Done, transaction, record_not_found, plan_not_found,
  feature_not_entitled, feature_limit_reached, invalid_entitlement, ◌>>=◌, ◌>>◌,
}
use campusassistant_api.Subscription.{is_running, newest}
use campusassistant_api.Perks.{resolve_grant_perks}

-- Pro, and not past the expiry.
abbrev pub is_active_pro : ℕ → User → Bool
is_active_pro now u = u.is_pro && (elim u.pro_expiry [ none ↦ true | some t ↦ ltb now t ])

abbrev pub plan_of : Option (ℕ × UserSubscription) → Option ℕ
plan_of none = none
plan_of (some (_, sub)) = some sub.plan_id

-- Whether the user is Pro now, and the plan of the newest running subscription.
unfoldable pub active_plan : ℕ → M (Bool × Option ℕ)
active_plan user_id = do
  row ← gets (λ s. lookup user_id s.users)
  user ← or_fail row record_not_found
  now ← gets (λ s. s.now)
  sub ← gets (λ s. newest none (select (is_running user_id s.now) s.subscriptions))
  pure (if is_active_pro now user then (true, plan_of sub) else (false, none))

abbrev pub uncapped : String → PlanEntitlement
uncapped f = record { plan_id = 0; feature = f; limit = limit_unlimited; period = period_none }

abbrev pub is_row_of : ℕ → PlanEntitlement → Bool
is_row_of plan_id r = r.plan_id == plan_id

abbrev pub rows_of : Option ℕ → List PlanEntitlement → List PlanEntitlement
rows_of none rs = []
rows_of (some plan_id) rs = select (is_row_of plan_id) rs

abbrev pub or_defaults : List PlanEntitlement → List PlanEntitlement
or_defaults [] = map uncapped default_pro_features
or_defaults (r ∷ rs) = r ∷ rs

-- The rows that a plan gives; a plan with none gives every default feature.
abbrev pub plan_rows : Bool × Option ℕ → List PlanEntitlement → List PlanEntitlement
plan_rows (false, _) rs = []
plan_rows (true, plan_id) rs = or_defaults (rows_of plan_id rs)

-- `grants`, a map from a feature to its row; a later row replaces an earlier one.
abbrev pub Grants : Type 0
Grants = List PlanEntitlement

abbrev pub is_for : String → PlanEntitlement → Bool
is_for f r = str_eq r.feature f

unfoldable pub put : PlanEntitlement → Grants → Grants
put r [] = r ∷ []
put r (g ∷ gs) = let rest = put r gs in if is_for r.feature g then r ∷ gs else g ∷ rest

unfoldable pub put_each : List PlanEntitlement → Grants → Grants
put_each [] gs = gs
put_each (r ∷ rs) gs = put_each rs (put r gs)

abbrev pub put_if : Bool → String → Grants → Grants
put_if b f gs = if b then put (uncapped f) gs else gs

-- The perks of access grants switch features on without a cap.
unfoldable pub with_perks : GrantPerks → Grants → Grants
with_perks p gs =
    put_if p.coin_free feature_unlimited_downloads (put_if p.ad_free feature_ad_free gs)

abbrev pub same_key : PeriodKey → PeriodKey → Bool
same_key (PeriodKey.date m) (PeriodKey.date n) = m == n
same_key (PeriodKey.month m) (PeriodKey.month n) = m == n
same_key PeriodKey.all PeriodKey.all = true
same_key _ _ = false

abbrev pub is_counter : ℕ → String → PeriodKey → UsageCounter → Bool
is_counter user_id f key c =
    c.user_id == user_id && (str_eq c.feature f && same_key c.period_key key)

abbrev pub used_of : Option UsageCounter → ℤ
used_of none = pos 0
used_of (some c) = c.used

abbrev pub at_least_zero : ℤ → ℤ
at_least_zero n = if ltb_ℤ n (pos 0) then pos 0 else n

abbrev pub denied : FeatureAccess
denied = record {
  allowed = false;
  limit = pos 0;
  period = period_none;
  used = pos 0;
  remaining = pos 0;
}

-- Go's zero value.
abbrev pub no_access : FeatureAccess
no_access = record { allowed = false; limit = pos 0; period = ""; used = pos 0; remaining = pos 0 }

abbrev pub allowed_uncapped : PlanEntitlement → FeatureAccess
allowed_uncapped g = record {
  allowed = true;
  limit = g.limit;
  period = g.period;
  used = pos 0;
  remaining = limit_unlimited;
}

abbrev pub allowed_capped : PlanEntitlement → ℤ → FeatureAccess
allowed_capped g used = record {
  allowed = true;
  limit = g.limit;
  period = g.period;
  used = used;
  remaining = at_least_zero (g.limit -ℤ used);
}

abbrev pub known_features : Grants → List String
known_features gs =
    default_pro_features
    ++ select (λ f. not (exists (str_eq f) default_pro_features)) (map (λ g. g.feature) gs)

abbrev pub entry_of : String → List (String × FeatureAccess) → FeatureAccess
entry_of f [] = no_access
entry_of f ((k, a) ∷ t) = if str_eq k f then a else entry_of f t

-- The insert that does nothing on a conflict.
unfoldable pub ensure_counter : ℕ → String → PeriodKey → Store → Store
ensure_counter user_id f key s =
    if exists (is_counter user_id f key) s.usage_counters then s else record s {
      usage_counters =
          s.usage_counters
          ++ record { user_id = user_id; feature = f; period_key = key; used = pos 0 } ∷ [];
    }

-- The conditional UPDATE: whether it wrote a row.
abbrev pub has_room : ℤ → ℤ → UsageCounter → Bool
has_room n limit c = leb_ℤ (c.used +ℤ n) limit

abbrev pub spend_one : ℕ → String → PeriodKey → ℤ → ℤ → UsageCounter → UsageCounter
spend_one user_id f key n limit c =
    if is_counter user_id f key c && has_room n limit c then record c { used = c.used +ℤ n } else c

unfoldable pub spend : ℕ → String → PeriodKey → ℤ → ℤ → M Done
spend user_id f key n limit s =
    if exists (λ c. is_counter user_id f key c && has_room n limit c) s.usage_counters
    then (
      ok tt,
      record s { usage_counters = map (spend_one user_id f key n limit) s.usage_counters },
    )
    else (err feature_limit_reached, s)

-- `grants[feature]`, Go's zero value when the feature is not in the map.
abbrev pub row_or_zero : Option PlanEntitlement → PlanEntitlement
row_or_zero none = record { plan_id = 0; feature = ""; limit = pos 0; period = "" }
row_or_zero (some g) = g

module _ (month_of : ℕ → ℕ) where
  unfoldable pub period_key : String → ℕ → PeriodKey
  period_key period now =
      if str_eq period period_daily
      then PeriodKey.date (now / day)
      else (if str_eq period period_month then PeriodKey.month (month_of now) else PeriodKey.all)

  abbrev pub used_now : ℕ → String → String → Store → ℤ
  used_now user_id f period s =
      used_of (find (is_counter user_id f (period_key period s.now)) s.usage_counters)

  abbrev pub access_by : ℕ → String → Option PlanEntitlement → Store → FeatureAccess
  access_by user_id f none s = denied
  access_by user_id f (some g) s =
      if eq_ℤ g.limit (pos 0)
      then denied
      else (if eq_ℤ g.limit limit_unlimited
          then allowed_uncapped g
          else allowed_capped g (used_now user_id f g.period s))

  -- The answer about every known feature, and the map of the grants.
  unfoldable pub resolve : ℕ → M (UserEntitlements × Grants)
  resolve user_id = do
    plan ← active_plan user_id
    rows ← gets (λ s. put_each (plan_rows plan s.plan_entitlements) [])
    perks ← resolve_grant_perks user_id
    features ← gets (λ s.
        map (λ f. (f, access_by user_id f (find (is_for f) (with_perks perks rows)) s))
          (known_features (with_perks perks rows)))
    pure (record { is_pro = plan.0; plan_id = plan.1; features = features }, with_perks perks rows)

  unfoldable pub for_user : ℕ → M UserEntitlements
  for_user user_id = do e ← resolve user_id; pure e.0

  unfoldable pub check : ℕ → String → M FeatureAccess
  check user_id f = do e ← resolve user_id; pure (entry_of f e.0.features)

  unfoldable pub consume_by : ℕ → String → ℤ → PlanEntitlement → M Done
  consume_by user_id f n g = if eq_ℤ g.limit limit_unlimited then pure tt else (do
    now ← gets (λ s. s.now)
    update (ensure_counter user_id f (period_key g.period now))
    spend user_id f (period_key g.period now) n g.limit)

  unfoldable pub consume : ℕ → String → ℤ → M Done
  consume user_id f n = do
    fail_if (leb_ℤ n (pos 0)) invalid_entitlement
    e ← resolve user_id
    fail_if (not (entry_of f e.0.features).allowed) feature_not_entitled
    consume_by user_id f n (row_or_zero (find (is_for f) e.1))
