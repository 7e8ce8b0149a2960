-- ===== src/Tests/Samples.antt =====
-- A small shop: a seller, a product, an order that awaits payment and one that is delivered, a
-- plan and a coupon.
use campusassistant_api.Base.{◌/◌, negsuc, ℤ, pos, true, false, none, some, [], ◌∷◌}
use campusassistant_api.Domain.{
  GrantScope, Float64, OrderStatus, PaymentMethod, OrderItem, Order, Merchant, MerchantStatus,
  BkashStatus, OrderTransaction, Store, SubscriptionPlan, BkashTransaction, CouponCode,
  DiscountType, Account, Kind, SourceType, Memo, Journal,
}
use campusassistant_api.Gateway.{Gateway, ExecuteResult, Reply, Session}

-- A tenth, rounded down, whatever the rate.
abbrev pub tenth : ℤ → Float64 → ℤ
tenth gross rate = elim gross [ pos n ↦ pos (n / 10) | negsuc n ↦ pos 0 ]

abbrev pub book : OrderItem
book = record {
  product_id = 1;
  product_title = "Book";
  merchant_id = 10;
  quantity = pos 2;
  unit_price = pos 300;
  commission_rate_snapshot = 0;
}

abbrev pub order_in : OrderStatus → Order
order_in status = record {
  created_at = 100;
  buyer_id = 7;
  shipping_recipient_name = "Rafi";
  shipping_phone = "01700000000";
  shipping_address_line = "12 Hall Road";
  shipping_city = "Dhaka";
  delivery_charge = pos 60;
  total_amount = pos 660;
  status = status;
  payment_method = PaymentMethod.bkash;
  items = book ∷ [];
}

abbrev pub seller : Merchant
seller = record {
  created_at = 1;
  user_id = 8;
  commission_rate = 0;
  status = MerchantStatus.approved;
  is_platform = false;
  payout_method = "bkash";
  payout_account = "017";
  city = "Dhaka";
  delivery_charge_inside = pos 60;
  delivery_charge_outside = pos 120;
  approved_at = some 2;
}

abbrev pub monthly : SubscriptionPlan
monthly = record { title = "Monthly"; price = pos 200; duration_days = 30; is_lifetime = false }

abbrev pub half_off : CouponCode
half_off = record {
  code = "HALF";
  discount_type = DiscountType.percentage;
  discount_value = pos 50;
  max_uses = pos 2;
  used_count = pos 1;
  plan_id = none;
  min_amount = pos 0;
  expires_at = none;
  is_active = true;
}

abbrev pub order_tx : OrderTransaction
order_tx = record {
  created_at = 110;
  order_id = 20;
  payment_id = "pay-1";
  trx_id = "";
  amount = pos 660;
  status = BkashStatus.initiated;
  raw_response = "";
}

abbrev pub bkash_tx : BkashTransaction
bkash_tx = record {
  created_at = 110;
  user_id = 7;
  plan_id = 40;
  payment_id = "sub-1";
  trx_id = "";
  amount = pos 200;
  original_amount = pos 200;
  coupon_code_id = none;
  coupon_reserved = false;
  subscription_id = none;
  status = BkashStatus.initiated;
  raw_response = "";
}

abbrev pub payment_journal : Journal
payment_journal = record {
  kind = Kind.order_payment;
  source_type = SourceType.order;
  source_id = 21;
  memo = Memo.text "Order payment";
  entries =
      record { account = Account.gateway_bkash; debit = pos 660; credit = pos 0 }
      ∷ record { account = Account.orders_escrow; debit = pos 0; credit = pos 660 }
      ∷ [];
}

-- Order 20 awaits payment, and order 21 is paid and delivered but not booked.
abbrev pub shop : Store
shop = record {
  products =
      (
        1,
        record {
          merchant_id = 10;
          title = "Book";
          price = pos 300;
          stock = pos 5;
          is_published = true;
          is_deleted = false;
        },
      )
      ∷ [];
  orders = (20, order_in OrderStatus.pending_payment) ∷ (21, order_in OrderStatus.delivered) ∷ [];
  events = [];
  order_txs = (30, order_tx) ∷ [];
  merchants = (10, seller) ∷ [];
  journals = payment_journal ∷ [];
  invoices = [];
  invoice_counters = [];
  payouts = [];
  refunds = [];
  users =
      (
        7,
        record {
          created_at = 1;
          university_id = none;
          department_id = none;
          is_pro = false;
          pro_expiry = none;
        },
      )
      ∷ [];
  plans = (40, monthly) ∷ [];
  subscriptions = [];
  bkash_txs = (50, bkash_tx) ∷ [];
  coupons = (60, half_off) ∷ [];
  plan_entitlements =
      record { plan_id = 40; feature = "notes"; limit = pos 3; period = "daily" } ∷ [];
  usage_counters = [];
  access_grants =
      record {
        label = "Launch";
        scope_type = GrantScope.all;
        scope_id = none;
        ad_free = true;
        coin_free = false;
        starts_at = 10;
        ends_at = some 5000;
        new_user_days = pos 0;
      }
      ∷ [];
  students = [];
  commission_policies = [];
  moderators = [];
  addresses =
      (
        90,
        record {
          user_id = 7;
          recipient_name = "Rafi";
          phone = "01700000000";
          address_line = "12 Hall Road";
          city = "Dhaka";
        },
      )
      ∷ [];
  outbox = [];
  next_id = 100;
  now = 1000;
  year = 2026;
}

-- bKash confirms every payment and reports no amount.
abbrev pub confirmed : ExecuteResult
confirmed = record { transaction_status = "Completed"; trx_id = "T1"; amount = ""; raw = "{}" }

abbrev pub bkash : Gateway
bkash = record {
  create_payment = λ n. Session.opened "pay-2";
  execute_payment = λ p. Reply.answered confirmed;
  query_payment = λ p. Reply.answered confirmed;
  parse_amount = λ t. none;
}
