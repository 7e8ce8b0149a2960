-- ===== src/Coupon.antt =====
-- Coupons: validateCoupon, reserveCoupon, forceCouponUse and releaseCoupon of
-- internal/service/payment_service.go.
pub mod Discount
pub mod Uses
use campusassistant_api.Base.{
  ℕ, ℤ, pos, ◌+ℤ◌, ◌-ℤ◌, ◌*ℤ◌, div_100, ltb_ℤ, leb_ℤ, eq_ℤ, ltb, Bool, true, false, not, ◌&&◌, ◌||◌,
  ◌==◌, if◌then◌else◌, Option, none, some,
}
use campusassistant_api.Base.Table.{Table, lookup, modify}
use campusassistant_api.Domain.{
  DiscountType, CouponCode, Store, M, Result, ok, err, Done, coupon_not_found, coupon_expired,
  coupon_exhausted, coupon_min_amount, coupon_plan_mismatch,
}

abbrev pub is_before : Option ℕ → ℕ → Bool
is_before none now = false
is_before (some t) now = ltb t now

abbrev pub is_other_plan : Option ℕ → ℕ → Bool
is_other_plan none plan_id = false
is_other_plan (some p) plan_id = not (p == plan_id)

-- The price after the discount: the `switch` of `validateCoupon`.
unfoldable pub discounted : DiscountType → ℤ → ℤ → ℤ
discounted DiscountType.percentage value price =
    let discount = div_100 (price *ℤ value) in
    if ltb_ℤ price discount then pos 0 else price -ℤ discount
discounted DiscountType.fixed value price = if leb_ℤ price value then pos 0 else price -ℤ value
discounted (DiscountType.other n) value price = price

abbrev pub is_used_up : CouponCode → Bool
is_used_up c = ltb_ℤ (pos 0) c.max_uses && leb_ℤ c.max_uses c.used_count

unfoldable pub validate_coupon : CouponCode → ℕ → ℤ → ℕ → Result ℤ
unfolding discounted
validate_coupon c plan_id price now =
    if not c.is_active
    then err coupon_not_found
    else (if is_before c.expires_at now
        then err coupon_expired
        else (if is_used_up c
            then err coupon_exhausted
            else (if ltb_ℤ (pos 0) c.min_amount && ltb_ℤ price c.min_amount
                then err coupon_min_amount
                else (if is_other_plan c.plan_id plan_id
                    then err coupon_plan_mismatch
                    else ok (discounted c.discount_type c.discount_value price)))))

abbrev pub add_uses : ℤ → CouponCode → CouponCode
add_uses n c = record c { used_count = n }

-- The WHERE clause of the UPDATE that claims a use.
abbrev pub has_use_left : CouponCode → Bool
has_use_left c = c.is_active && (eq_ℤ c.max_uses (pos 0) || ltb_ℤ c.used_count c.max_uses)

abbrev pub one_more : CouponCode → CouponCode
one_more c = add_uses (c.used_count +ℤ pos 1) c

unfoldable pub reserve_coupon : ℕ → M Done
reserve_coupon id s = elim (lookup id s.coupons) [
  | none ↦ (err coupon_exhausted, s)
  | some c ↦
      if has_use_left c
      then (ok tt, record s { coupons = modify id one_more s.coupons })
      else (err coupon_exhausted, s)
]

unfoldable pub force_coupon_use : ℕ → Store → Store
force_coupon_use id s = record s { coupons = modify id one_more s.coupons }

-- One use less, if there is one.
abbrev pub one_less : CouponCode → CouponCode
one_less c = if ltb_ℤ (pos 0) c.used_count then add_uses (c.used_count -ℤ pos 1) c else c

unfoldable pub release_coupon : ℕ → Store → Store
release_coupon id s = record s { coupons = modify id one_less s.coupons }
