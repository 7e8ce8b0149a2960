-- ===== src/Coupon/Discount.antt =====
-- The checks and the arithmetic of validateCoupon (internal/service/payment_service.go).
use campusassistant_api.Base.{
  ℕ, ℤ, pos, ◌*ℤ◌, ◌≤ℤ◌, div_100, ltb_ℤ, leb_ℤ, int_laws, *ℤ_nonneg, div_100-nonneg, arith, ◌≡◌,
  inl, inr, true, false, ◌&&◌, Bool-cases,
}
use campusassistant_api.Domain.{DiscountType, CouponCode, Result, ok}
use campusassistant_api.Coupon.{discounted, validate_coupon, is_before, is_used_up, is_other_plan}

discounted_bounds :
    (kind : DiscountType) (value price : ℤ)
    → pos 0 ≤ℤ value
    → pos 0 ≤ℤ price
    → (pos 0 ≤ℤ discounted kind value price) × (discounted kind value price ≤ℤ price)
unfolding discounted
discounted_bounds DiscountType.percentage value price hv hp =
    let k = div_100-nonneg (price *ℤ value) (*ℤ_nonneg price value hp hv) in
    elim (Bool-cases (ltb_ℤ price (div_100 (price *ℤ value)))) [
      | inl e ↦ rw e (omega arith, omega arith)
      | inr e ↦ rw e (grind int_laws, omega int_laws)
    ]
discounted_bounds DiscountType.fixed value price hv hp = elim (Bool-cases (leb_ℤ price value)) [
  | inl e ↦ rw e (omega arith, omega arith)
  | inr e ↦ rw e (grind int_laws, omega int_laws)
]
discounted_bounds (DiscountType.other n) value price hv hp = (hp, omega arith)

-- The coupon passes every check.
abbrev pub Accepts : CouponCode → ℕ → ℤ → ℕ → Type 0
Accepts c plan_id price now =
    (c.is_active ≡ true)
    × (is_before c.expires_at now ≡ false)
    × (is_used_up c ≡ false)
    × ((ltb_ℤ (pos 0) c.min_amount && ltb_ℤ price c.min_amount) ≡ false)
    × (is_other_plan c.plan_id plan_id ≡ false)

same_answer : {m n : ℤ} → ◌≡◌ {A = Result ℤ} (ok m) (ok n) → n ≡ m
same_answer h = cc

validate_coupon-Accepts :
    (c : CouponCode) (plan_id : ℕ) (price : ℤ) (now : ℕ) (n : ℤ)
    → validate_coupon c plan_id price now ≡ ok n
    → Accepts c plan_id price now × (n ≡ discounted c.discount_type c.discount_value price)
unfolding validate_coupon
validate_coupon-Accepts c plan_id price now n h = elim (Bool-cases c.is_active) [
  | inr a ↦ cc (rw a at h)
  | inl a ↦ elim (Bool-cases (is_before c.expires_at now)) [
    | inl b ↦ cc (rw (a, b) at h)
    | inr b ↦ elim (Bool-cases (is_used_up c)) [
      | inl d ↦ cc (rw (a, b, d) at h)
      | inr d ↦ elim (Bool-cases (ltb_ℤ (pos 0) c.min_amount && ltb_ℤ price c.min_amount)) [
        | inl e ↦ cc (rw (a, b, d, e) at h)
        | inr e ↦ elim (Bool-cases (is_other_plan c.plan_id plan_id)) [
          | inl f ↦ cc (rw (a, b, d, e, f) at h)
          | inr f ↦ ((a, b, d, e, f), same_answer (rw (a, b, d, e, f) at h))
        ]
      ]
    ]
  ]
]

-- A coupon that is accepted is active, not expired, not used up, meets its minimum and fits the plan;
-- if its value and the price are not negative, the charge lies between zero and the price.
pub validate_coupon_bounds :
    (c : CouponCode) (plan_id : ℕ) (price : ℤ) (now : ℕ) (n : ℤ)
    → pos 0 ≤ℤ c.discount_value
    → pos 0 ≤ℤ price
    → validate_coupon c plan_id price now ≡ ok n
    → Accepts c plan_id price now × (pos 0 ≤ℤ n) × (n ≤ℤ price)
validate_coupon_bounds c plan_id price now n hv hp h =
    let (accepts, e) = validate_coupon-Accepts c plan_id price now n h in
    let (low, high) = discounted_bounds c.discount_type c.discount_value price hv hp in
    (accepts, rw e low, rw e high)
