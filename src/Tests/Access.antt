-- ===== src/Tests/Access.antt =====
-- Entitlements, access grants, permissions, fees and the checkout in the sample shop.
use Prim.Native.String.{String}
use text.Mathlib.Text.{◌==◌ as str_eq}
use campusassistant_api.Base.{
  ℕ, ℤ, pos, arith, ◌≡◌, ◌↔◌, ◌⊎◌, inr, refl, true, false, Bool, none, some, List, [], ◌∷◌,
}
use campusassistant_api.Base.Table.{lookup}
use campusassistant_api.Base.Word.{wrap, bits_of, signed}
use campusassistant_api.Base.Int.{◌+ℤ◌, ◌-ℤ◌}
use campusassistant_api.Domain.{
  OrderStatus, UserSubscription, GrantReason, PlanEntitlement, FeatureAccess, CommissionPolicy,
  ModeratorScope, PaymentMethod, Order, Merchant, Store, ok, err, forbidden, invalid_policy,
}
use campusassistant_api.Perks.{
  UserScope, load_user_scope, grants_of, resolve_grant_perks, merge_each, grant_until, merge,
  scope_of,
}
use campusassistant_api.Subscription.{newest}
use campusassistant_api.Perks.Latest.{IsLatest, ends_of, resolve_grant_perks-IsLatest}
use campusassistant_api.Entitlement.{
  active_plan, put, put_each, with_perks, resolve, check, consume,
}
use campusassistant_api.Entitlement.Counters.{UniqueCounters}
use campusassistant_api.Entitlement.Consuming.{Covers, consume_iff}
use campusassistant_api.Entitlement.Remaining.{IsLess, check-consume}
use campusassistant_api.Entitlement.Gate.{Gate, require_entitlement, require_entitlement_iff}
use campusassistant_api.Authz.{Target, Actor}
use campusassistant_api.Commission.{policy, set_policy, describe, effective_rate}
use campusassistant_api.Commission.Fee.{HasPromo, effective_rate_lem, IsPolicy, policy-set_policy}
use campusassistant_api.Checkout.{CheckoutRequest, add_each, checkout}
use campusassistant_api.Checkout.Placed.{IsOrderOf, checkout-IsOrderOf, checkout_refused}
use campusassistant_api.Order.{can_transition, place_order, take_each, take_stock}
use campusassistant_api.Tests.Samples.{shop, seller, tenth, order_in}
use campusassistant_api.Seller.{merchant_update_order_status}
use campusassistant_api.Seller.Fulfilling.{MayFulfil, merchant_update_order_status-MayFulfil}

abbrev running : UserSubscription
running = record {
  created_at = 10;
  user_id = 7;
  plan_id = 40;
  plan = "Monthly";
  price = pos 200;
  start_date = 10;
  granted_by = none;
  grant_reason = GrantReason.payment;
  note = "";
  end_date = some 9000;
  grace_ends_at = some 9000;
  refunded_at = none;
}

-- User 7 is Pro on plan 40, and moderates department 5.
abbrev pro_shop : Store
pro_shop = record shop {
  users =
      (
        7,
        record {
          created_at = 1;
          university_id = none;
          department_id = none;
          is_pro = true;
          pro_expiry = some 9000;
        },
      )
      ∷ [];
  subscriptions = (80, running) ∷ [];
  commission_policies = record { promo_active = true; promo_rate = 0; promo_days = pos 60 } ∷ [];
  moderators =
      record {
        user_id = 7;
        scope_type = ModeratorScope.department;
        scope_id = 5;
        term_start = none;
        term_end = some 5000;
        is_active = true;
      }
      ∷ [];
}

-- Every time is in the first month.
abbrev first_month : ℕ → ℕ
first_month t = 0

abbrev three_notes : FeatureAccess
three_notes = record {
  allowed = true;
  limit = pos 3;
  period = "daily";
  used = pos 0;
  remaining = pos 3;
}

no_counters : UniqueCounters pro_shop
no_counters user_id f key = tt

checked_notes : (check first_month 7 "notes" pro_shop).0 ≡ ok three_notes
unfolding check resolve active_plan resolve_grant_perks load_user_scope with_perks merge_each
    grants_of grant_until merge put put_each newest ◌-ℤ◌
checked_notes = refl

resolve_grant_perks-IsLatest_example :
    let sc : UserScope = record {
      created_at = 1;
      university_id = none;
      department_id = none;
      batch_id = none;
    } in
    IsLatest (ends_of (λ g. g.ad_free) 1 1000 (grants_of 7 sc shop)) (true, some 5000)
    × IsLatest (ends_of (λ g. g.coin_free) 1 1000 (grants_of 7 sc shop)) (false, none)
unfolding resolve_grant_perks load_user_scope merge_each scope_of grants_of grant_until merge
resolve_grant_perks-IsLatest_example =
    resolve_grant_perks-IsLatest 7
      (record { created_at = 1; university_id = none; department_id = none; batch_id = none })
      (record {
        ad_free = true;
        ad_free_until = some 5000;
        coin_free = false;
        coin_free_until = none;
        label = "Launch";
      })
      shop refl refl

consume_iff_example :
    ((consume first_month 7 "notes" (pos 2) pro_shop).0 ≡ ok tt) ↔ Covers three_notes (pos 2)
consume_iff_example =
    consume_iff first_month 7 "notes" (pos 2) pro_shop checked_notes (omega arith) no_counters

consumed : (consume first_month 7 "notes" (pos 2) pro_shop).0 ≡ ok tt
consumed = consume_iff_example.1 (refl, inr (omega arith))

check-consume_example :
    let t = (consume first_month 7 "notes" (pos 2) pro_shop).1 in
    ((b : FeatureAccess) × ((check first_month 7 "notes" t).0 ≡ ok b)
      × IsLess (pos 2) three_notes b)
    × UniqueCounters t
check-consume_example =
    check-consume first_month 7 "notes" (pos 2) pro_shop checked_notes (omega arith) no_counters
      consumed (λ h. cc)

require_entitlement_iff_example :
    (require_entitlement first_month (some 7) "notes" pro_shop ≡ Gate.next)
    ↔ ((consume first_month 7 "notes" (pos 1) pro_shop).0 ≡ ok tt)
require_entitlement_iff_example =
    require_entitlement_iff first_month 7 "notes" pro_shop checked_notes no_counters

abbrev paid_shop : Store
paid_shop = record shop { orders = (20, order_in OrderStatus.paid) ∷ [] }

abbrev two_items : List PlanEntitlement
two_items =
    record { plan_id = 0; feature = "notes"; limit = pos 5; period = "" }
    ∷ record { plan_id = 0; feature = "chat"; limit = pos 0; period = "daily" }
    ∷ []

abbrev user_7 : Actor
user_7 = record { user_id = 7; is_admin = false }

abbrev batch_12 : Target
batch_12 = record { university_id = 3; department_id = 5; batch_id = 12 }

abbrev whole_days : ℤ → ℤ
whole_days n = n

abbrev promo : CommissionPolicy
promo = record { promo_active = true; promo_rate = 0; promo_days = pos 60 }

-- A fee of 2.0, in a shop whose policy is a fee of nothing for sixty days.
abbrev seller_at_two : Merchant
seller_at_two = record seller { commission_rate = 4_611_686_018_427_387_904 }

effective_rate_lem_example :
    ((p : CommissionPolicy) × HasPromo seller_at_two p pro_shop
      × (effective_rate whole_days seller_at_two pro_shop ≡ (ok p.promo_rate, pro_shop)))
    ⊎ (((p : CommissionPolicy) → HasPromo seller_at_two p pro_shop → ⊥)
        × (effective_rate whole_days seller_at_two pro_shop
            ≡ (ok 4_611_686_018_427_387_904, pro_shop)))
effective_rate_lem_example = effective_rate_lem whole_days seller_at_two pro_shop

policy-set_policy_example :
    let (r, t) = set_policy true 0 (pos 60) shop in
    (IsPolicy 0 (pos 60) × (r ≡ ok promo) × (policy t ≡ (ok promo, t)))
    ⊎ ((IsPolicy 0 (pos 60) → ⊥) × (r ≡ err invalid_policy) × (t ≡ shop))
policy-set_policy_example = policy-set_policy true 0 (pos 60) shop

abbrev same_text : String → String → Bool
same_text a b = str_eq a b

abbrev always : CheckoutRequest → Bool
always req = true

abbrev two_books : CheckoutRequest
two_books = record {
  address_id = 90;
  items =
      record { product_id = 1; quantity = pos 1 }
      ∷ record { product_id = 1; quantity = pos 2 }
      ∷ [];
  payment_method = PaymentMethod.bkash;
}

checkout-IsOrderOf_example :
    (o : Order) × (lookup 100 (checkout same_text whole_days always 7 two_books shop).1.orders
      ≡ some o)
    × IsOrderOf same_text whole_days 7 two_books shop o
unfolding checkout add_each effective_rate describe policy place_order take_each take_stock ◌-ℤ◌
    ◌+ℤ◌ wrap bits_of signed
checkout-IsOrderOf_example =
    checkout-IsOrderOf same_text whole_days always 7 two_books shop refl refl

checkout_refused_example :
    checkout same_text whole_days always 8 two_books shop ≡ (err forbidden, shop)
unfolding checkout
checkout_refused_example = checkout_refused same_text whole_days always 8 two_books shop refl

merchant_update_order_status-MayFulfil_example :
    let t = (merchant_update_order_status tenth 8 10 20 OrderStatus.shipped paid_shop).1 in
    (lookup 20 t.orders ≡ some (order_in OrderStatus.paid))
    ⊎ ((◌≡◌ {A = ℕ} 20 20)
        × (can_transition OrderStatus.paid OrderStatus.shipped ≡ true)
        × (lookup 20 t.orders ≡ some (order_in OrderStatus.shipped))
        × MayFulfil 8 10 OrderStatus.shipped paid_shop (order_in OrderStatus.paid))
merchant_update_order_status-MayFulfil_example =
    merchant_update_order_status-MayFulfil tenth 8 10 20 OrderStatus.shipped paid_shop 20
      (order_in OrderStatus.paid) refl
