-- ===== src/Coupon/Uses.antt =====
-- The count of a coupon's uses: reserveCoupon and releaseCoupon
-- (internal/service/payment_service.go).
use campusassistant_api.Base.{
  ℕ, ℤ, pos, ◌+ℤ◌, ◌-ℤ◌, ◌≤ℤ◌, ◌<ℤ◌, ltb_ℤ, int_laws, ◌≡◌, inl, inr, ◌==◌, ==_iff, true, Bool-cases,
  Option-cases, some, ap, sym, ◌∙◌,
}
use campusassistant_api.Base.Table.{lookup, modify, lookup-modify, lookup-modify_self}
use campusassistant_api.Domain.{CouponCode, Store, ok}
use campusassistant_api.Coupon.{
  has_use_left, one_more, one_less, add_uses, reserve_coupon, release_coupon,
}

-- No coupon with a limit was used more often than that.
abbrev pub WithinLimits : Store → Type 0
WithinLimits s =
    (k : ℕ) (c : CouponCode)
    → lookup k s.coupons ≡ some c
    → pos 0 <ℤ c.max_uses
    → c.used_count ≤ℤ c.max_uses

pub reserve_coupon-ok :
    (id : ℕ) (s : Store)
    → (reserve_coupon id s).0 ≡ ok tt
    → (c : CouponCode) × (lookup id s.coupons ≡ some c)
      × (has_use_left c ≡ true)
      × (reserve_coupon id s ≡ (ok tt, record s { coupons = modify id one_more s.coupons }))
unfolding reserve_coupon
reserve_coupon-ok id s h = elim (Option-cases (lookup id s.coupons)) [
  | inl e ↦ cc (rw (reserve_coupon, e) at h)
  | inr (c, e) ↦ elim (Bool-cases (has_use_left c)) [
    | inl a ↦ (c, e, a, rw (reserve_coupon, e, a))
    | inr a ↦ cc (rw (reserve_coupon, e, a) at h)
  ]
]

row_value : {c d : CouponCode} → some c ≡ some d → c ≡ d
row_value h = cc

modify_limits :
    (id : ℕ) (f : CouponCode → CouponCode) (s : Store)
    → ((c : CouponCode)
        → lookup id s.coupons ≡ some c
        → pos 0 <ℤ (f c).max_uses
        → (f c).used_count ≤ℤ (f c).max_uses)
    → WithinLimits s
    → WithinLimits (record s { coupons = modify id f s.coupons })
modify_limits id f s step limits k c h = elim (Bool-cases (id == k)) [
  | inl e ↦
      let same : id ≡ k = (==_iff id k).0 e in
      elim (Option-cases (lookup k s.coupons)) [
        | inl q ↦ cc (rw (lookup-modify k id f s.coupons, e, q) at h)
        | inr (d, q) ↦
            let val : f d ≡ c = row_value (rw (lookup-modify k id f s.coupons, e, q) at h) in
            rw (← val) (step d (rw same q))
      ]
  | inr e ↦ limits k c (rw (lookup-modify k id f s.coupons, e) at h)
]

use_left :
    (d : CouponCode)
    → has_use_left d ≡ true
    → pos 0 <ℤ d.max_uses
    → (d.used_count +ℤ pos 1) ≤ℤ d.max_uses
use_left d left h = grind int_laws

less_bound : (d : CouponCode) → d.used_count ≤ℤ d.max_uses → (d.used_count -ℤ pos 1) ≤ℤ d.max_uses
less_bound d h = omega int_laws

counted : (n : ℤ) → pos 0 ≤ℤ n → ltb_ℤ (pos 0) (n +ℤ pos 1) ≡ true
counted n h = grind int_laws

reserve_step :
    (c d : CouponCode)
    → c ≡ d
    → has_use_left c ≡ true
    → pos 0 <ℤ (one_more d).max_uses
    → (one_more d).used_count ≤ℤ (one_more d).max_uses
reserve_step c d e left h = use_left d (rw e at left) h

release_step :
    (d : CouponCode)
    → (pos 0 <ℤ d.max_uses → d.used_count ≤ℤ d.max_uses)
    → pos 0 <ℤ (one_less d).max_uses
    → (one_less d).used_count ≤ℤ (one_less d).max_uses
release_step d limit h = elim (Bool-cases (ltb_ℤ (pos 0) d.used_count)) [
  | inl e ↦ rw e (less_bound d (limit (rw e at h)))
  | inr e ↦ rw e (limit (rw e at h))
]

one_less-one_more : (c : CouponCode) → pos 0 ≤ℤ c.used_count → one_less (one_more c) ≡ c
one_less-one_more c h =
    let e : ltb_ℤ (pos 0) (c.used_count +ℤ pos 1) ≡ true = counted c.used_count h in
    rw e (ap (λ n. add_uses n c) (omega int_laws))

-- Reserving a use and giving one back keep every coupon within its limit.
pub reserve_release-WithinLimits :
    (id : ℕ) (s : Store)
    → WithinLimits s
    → WithinLimits (reserve_coupon id s).1 × WithinLimits (release_coupon id s)
unfolding release_coupon reserve_coupon
reserve_release-WithinLimits id s limits = (
  elim (Option-cases (lookup id s.coupons)) [
    | inl e ↦ rw (reserve_coupon, e) limits
    | inr (c, e) ↦ elim (Bool-cases (has_use_left c)) [
      | inl a ↦
          rw (reserve_coupon, e, a)
            (modify_limits id one_more s (λ d q k. reserve_step c d (row_value (sym e ∙ q)) a k)
              limits)
      | inr a ↦ rw (reserve_coupon, e, a) limits
    ]
  ],
  modify_limits id one_less s (λ d q k. release_step d (limits id d q) k) limits,
)

-- A use that was reserved and given back leaves the coupon as it was, if its count is not negative.
pub reserve_then_release :
    (id : ℕ) (s : Store) (c : CouponCode)
    → lookup id s.coupons ≡ some c
    → pos 0 ≤ℤ c.used_count
    → (reserve_coupon id s).0 ≡ ok tt
    → lookup id (release_coupon id (reserve_coupon id s).1).coupons ≡ some c
unfolding release_coupon
reserve_then_release id s c found nonneg h =
    let (d, e, a, q) = reserve_coupon-ok id s h in
    rw q (
      lookup-modify_self id one_less (modify id one_more s.coupons)
        (lookup-modify_self id one_more s.coupons found)
      ∙ ap some (one_less-one_more c nonneg))
