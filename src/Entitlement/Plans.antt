-- ===== src/Entitlement/Plans.antt =====
-- SetPlanEntitlements of internal/service/entitlement_service.go.
use Prim.Native.String.{String, len}
use text.Mathlib.Text.{◌==◌ as str_eq}
use campusassistant_api.Base.{
  ℕ, ℤ, pos, ltb_ℤ, eq_ℤ, ltb, Bool, not, ◌||◌, Option, none, some, List, [], ◌∷◌, ◌++◌, select,
  exists, if◌then◌else◌,
}
use campusassistant_api.Base.Table.{lookup}
use campusassistant_api.Domain.{
  PlanEntitlement, Store, Result, ok, err, M, pure, gets, or_fail, update, transaction,
  limit_unlimited, period_none, period_daily, period_month, plan_not_found, invalid_entitlement,
  ◌>>=◌, ◌>>◌,
}
use campusassistant_api.Entitlement.{is_row_of}

-- The period that is stored for a period that is sent; none if it is not known.
abbrev pub period_of : String → Option String
period_of p =
    if str_eq p ""
    then some period_none
    else (if str_eq p period_none
        then some period_none
        else (if str_eq p period_daily
            then some period_daily
            else (if str_eq p period_month then some period_month else none)))

abbrev pub is_bad_feature : List String → String → Bool
is_bad_feature seen f = str_eq f "" || (ltb 60 (len f) || exists (str_eq f) seen)

-- GORM's Create writes the default of the column, -1, for a limit that is zero, and sets it in the
-- item too.
abbrev pub created_limit : ℤ → ℤ
created_limit n = if eq_ℤ n (pos 0) then limit_unlimited else n

-- The row that is stored for an item.
abbrev pub row_for : ℕ → PlanEntitlement → String → PlanEntitlement
row_for plan_id it period = record it {
  plan_id = plan_id;
  limit = created_limit it.limit;
  period = if eq_ℤ it.limit limit_unlimited then period_none else period;
}

abbrev pub cons_ok : PlanEntitlement → Result (List PlanEntitlement) → Result (List PlanEntitlement)
cons_ok r (ok rs) = ok (r ∷ rs)
cons_ok r (err e) = err e

abbrev pub checked_item :
    ℕ
    → PlanEntitlement
    → Option String
    → Result (List PlanEntitlement)
    → Result (List PlanEntitlement)
checked_item plan_id it none rest = err invalid_entitlement
checked_item plan_id it (some period) rest = cons_ok (row_for plan_id it period) rest

-- The loop over the items, with the features seen so far.
unfoldable pub checked_items :
    ℕ → List String → List PlanEntitlement → Result (List PlanEntitlement)
checked_items plan_id seen [] = ok []
checked_items plan_id seen (it ∷ its) =
    let rest = checked_items plan_id (it.feature ∷ seen) its in
    if is_bad_feature seen it.feature || ltb_ℤ it.limit limit_unlimited
    then err invalid_entitlement
    else checked_item plan_id it (period_of it.period) rest

abbrev pub replace_rows : ℕ → List PlanEntitlement → Store → Store
replace_rows plan_id rows s = record s {
  plan_entitlements = select (λ r. not (is_row_of plan_id r)) s.plan_entitlements ++ rows;
}

unfoldable pub set_plan_entitlements : ℕ → List PlanEntitlement → M (List PlanEntitlement)
set_plan_entitlements plan_id items = do
  rows ← (λ s. (checked_items plan_id [] items, s))
  transaction (do
    plan ← gets (λ s. lookup plan_id s.plans)
    found ← or_fail plan plan_not_found
    update (replace_rows plan_id rows))
  pure rows
