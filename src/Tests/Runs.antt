-- ===== src/Tests/Runs.antt =====
-- A run of requests in the sample shop.
use text.Mathlib.Text.{◌==◌ as str_eq}
use campusassistant_api.Base.{arith, pos, ◌≡◌, refl, true, some, List, [], ◌∷◌}
use campusassistant_api.Base.Table.{lookup}
use campusassistant_api.Base.Int.{◌+ℤ◌}
use campusassistant_api.Domain.{Order, OrderStatus, PaymentMethod}
use campusassistant_api.Ledger.Balanced.{total_debit, total_credit}
use campusassistant_api.Ledger.Books.{IsBooks}
use campusassistant_api.Service.{World, Request, run}
use campusassistant_api.Service.Runs.{Reaches, run-IsBooks, run-Reaches}
use campusassistant_api.Tests.Samples.{shop, tenth, bkash, order_in}

abbrev campus : World
campus = record {
  gateway = bkash;
  round_share = tenth;
  trim = λ t. t;
  same_city = λ a b. str_eq a b;
  same_code = λ a b. str_eq a b;
  days_left = λ n. n;
  is_bound = λ req. true;
  month_of = λ t. 0;
}

-- An order is paid, sent, delivered and refunded, and another is placed meanwhile.
abbrev requests : List Request
requests =
    Request.pay_with 7 "pay-1"
    ∷ Request.check_out 7 (record {
      address_id = 90;
      items = record { product_id = 1; quantity = pos 1 } ∷ [];
      payment_method = PaymentMethod.cash_on_delivery;
    })
    ∷ Request.move_to 20 OrderStatus.shipped 1
    ∷ Request.pass_time 100
    ∷ Request.move_to 20 OrderStatus.delivered 1
    ∷ Request.refund 1 20 "R1" "broken"
    ∷ []

shop-IsBooks : IsBooks shop
unfolding total_debit total_credit ◌+ℤ◌
shop-IsBooks = ground arith

run-IsBooks_example : IsBooks (run campus requests shop)
run-IsBooks_example = run-IsBooks campus requests shop shop-IsBooks

run-Reaches_example :
    (o : Order) × (lookup 20 (run campus requests shop).orders ≡ some o)
    × Reaches OrderStatus.pending_payment o.status
    × (OrderStatus.pending_payment ≡ OrderStatus.cancelled → o.status ≡ OrderStatus.cancelled)
run-Reaches_example =
    run-Reaches campus requests shop 20 (order_in OrderStatus.pending_payment) refl
