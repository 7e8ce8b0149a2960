-- ===== src/Tests/Payments.antt =====
-- Subscriptions, their payments and coupons in the sample shop.
use Prim.Native.String.{String}
use campusassistant_api.Refund.Once.{refund_subscription_payment_once}
use campusassistant_api.Refund.{
  refund_subscription_payment, refund_found, create_refund, void_invoices,
}
use campusassistant_api.Base.{
  ℕ, pos, Bool, ◌≢◌, ◌≡◌, refl, ◌≤ℤ◌, true, false, Option, none, some, [], ◌∷◌, arith,
}
use campusassistant_api.Base.Word.{wrap, bits_of, signed}
use campusassistant_api.Base.Int.{◌+ℤ◌, ◌-ℤ◌, ◌*ℤ◌, div_100}
use campusassistant_api.Base.Table.{lookup}
use campusassistant_api.Domain.{
  err, BkashStatus, already_refunded, User, UserSubscription, GrantReason, Store, ok,
}
use campusassistant_api.Ledger.{
  reverse_journals, reverse_each, post_journal, sum_lines, journal_exists, append_journal,
}
use campusassistant_api.Billing.{
  record_subscription_payment, issue_invoice, create_invoice, next_invoice_number, bump_counter,
}
use campusassistant_api.Gateway.{paid_amount}
use campusassistant_api.Coupon.{validate_coupon, discounted, reserve_coupon, release_coupon}
use campusassistant_api.Coupon.Discount.{Accepts, validate_coupon_bounds}
use campusassistant_api.Coupon.Uses.{WithinLimits, reserve_release-WithinLimits}
use campusassistant_api.Subscription.{
  subscription_end, recompute_pro, grant_subscription, save_grant,
}
use campusassistant_api.Subscription.Expiry.{IsEnd, subscription_end-IsEnd}
use campusassistant_api.Subscription.Recomputed.{IsProUntil, recompute_pro-IsProUntil}
use campusassistant_api.Payment
use campusassistant_api.Payment.{fulfil_payment}
use campusassistant_api.Payment.Once.{fulfil_again}
use campusassistant_api.Tests.Samples.{bkash_tx, shop, monthly, half_off, bkash, confirmed}

validate_coupon_bounds_example :
    Accepts half_off 40 (pos 200) 1000 × (pos 0 ≤ℤ pos 100) × (pos 100 ≤ℤ pos 200)
unfolding validate_coupon discounted ◌*ℤ◌ ◌-ℤ◌ div_100
validate_coupon_bounds_example =
    validate_coupon_bounds half_off 40 (pos 200) 1000 (pos 100) (ground arith) (ground arith) refl

shop-WithinLimits : WithinLimits shop
shop-WithinLimits = λ k c h p. ground arith

reserve_release-WithinLimits_example :
    WithinLimits (reserve_coupon 60 shop).1 × WithinLimits (release_coupon 60 shop)
reserve_release-WithinLimits_example = reserve_release-WithinLimits 60 shop shop-WithinLimits

subscription_end-IsEnd_example :
    IsEnd 1000 true (some 5000) monthly (subscription_end 1000 true (some 5000) monthly)
subscription_end-IsEnd_example = subscription_end-IsEnd 1000 true (some 5000) monthly

abbrev running : UserSubscription
running = record {
  created_at = 1;
  user_id = 7;
  plan_id = 40;
  plan = "Monthly";
  price = pos 200;
  start_date = 1;
  granted_by = none;
  grant_reason = GrantReason.payment;
  note = "";
  end_date = some 2000;
  grace_ends_at = some 3000;
  refunded_at = none;
}

abbrev member : Store
member = record shop { subscriptions = (80, running) ∷ [] }

abbrev not_yet_pro : User
not_yet_pro = record {
  created_at = 1;
  university_id = none;
  department_id = none;
  is_pro = false;
  pro_expiry = none;
}

recompute_pro-IsProUntil_example :
    (is_pro : Bool) × (expiry : Option ℕ) × (lookup 7 (recompute_pro 7 member).users
      ≡ some (record not_yet_pro { is_pro = is_pro; pro_expiry = expiry }))
    × IsProUntil 7 1000 ((80, running) ∷ []) (is_pro, expiry)
    × ((other : ℕ)
        → other ≢ 7
        → lookup other (recompute_pro 7 member).users ≡ lookup other shop.users)
recompute_pro-IsProUntil_example = recompute_pro-IsProUntil 7 member not_yet_pro refl

granted_ok : (Payment.fulfil bkash "sub-1" confirmed shop).0 ≡ ok 100
unfolding Payment.fulfil Payment.settle_payment fulfil_payment grant_subscription paid_amount
    record_subscription_payment post_journal sum_lines wrap bits_of signed journal_exists
    issue_invoice create_invoice next_invoice_number bump_counter append_journal save_grant ◌+ℤ◌
granted_ok = refl

fulfil_again_example :
    let t = (Payment.fulfil bkash "sub-1" confirmed shop).1 in
    Payment.fulfil bkash "sub-1" confirmed t ≡ (ok 100, t)
fulfil_again_example = fulfil_again bkash "sub-1" confirmed confirmed shop granted_ok

-- The payment was flagged for review, and its refund is wired back by hand.
abbrev flagged_shop : Store
flagged_shop = record shop {
  bkash_txs = (50, record bkash_tx { status = BkashStatus.needs_review }) ∷ [];
}

abbrev untrimmed : String → String
untrimmed t = t

flagged_refund : (refund_subscription_payment untrimmed 1 50 "R1" "short" flagged_shop).0 ≡ ok tt
unfolding refund_subscription_payment refund_found reverse_journals reverse_each create_refund
    void_invoices recompute_pro
flagged_refund = refl

refund_subscription_payment_once_example :
    let t = (refund_subscription_payment untrimmed 1 50 "R1" "short" flagged_shop).1 in
    refund_subscription_payment untrimmed 2 50 "R2" "again" t ≡ (err already_refunded, t)
refund_subscription_payment_once_example =
    refund_subscription_payment_once untrimmed 1 2 50 "R1" "short" "R2" "again" flagged_shop refl
      flagged_refund

-- A refunded payment that bKash still calls completed grants again.
abbrev refunded_shop : Store
refunded_shop = record shop {
  bkash_txs = (50, record bkash_tx { status = BkashStatus.refunded }) ∷ [];
}

refunded_granted : (Payment.fulfil bkash "sub-1" confirmed refunded_shop).0 ≡ ok 100
unfolding Payment.fulfil Payment.settle_payment fulfil_payment grant_subscription paid_amount
    record_subscription_payment post_journal sum_lines wrap bits_of signed journal_exists
    issue_invoice create_invoice next_invoice_number bump_counter append_journal save_grant ◌+ℤ◌
refunded_granted = refl
