-- ===== src/Tests/Orders.antt =====
-- Orders and their payments in the sample shop.

use campusassistant_api.Ledger.Balanced.{total_debit, total_credit}
use campusassistant_api.Ledger.Books.{IsBooks}
use campusassistant_api.Market.Closing.{mark_terminal_keeps}
use campusassistant_api.Order.Cancelling.{MayCancel, cancel_by_buyer-MayCancel}
use campusassistant_api.Base.{
  arith, pos, ◌≡◌, ◌≢◌, ◌↔◌, refl, ◌<◌, ◌≤◌, ◌+◌, length, true, false, some, [], ◌∷◌,
}
use campusassistant_api.Base.Table.{lookup}
use campusassistant_api.Base.Word.{wrap, bits_of, signed}
use campusassistant_api.Base.Int.{◌+ℤ◌, ◌-ℤ◌}
use campusassistant_api.Domain.{
  OrderTransaction, BkashStatus, OrderStatus, Order, ok, err, stock_error,
}
use campusassistant_api.Ledger.{post_journal, sum_lines, journal_exists, append_journal}
use campusassistant_api.Billing.{
  record_order_payment, payment_lines, issue_order_invoice, issue_invoice, create_invoice,
  next_invoice_number, bump_counter,
}
use campusassistant_api.Gateway.{paid_amount}
use campusassistant_api.Order.{
  cancel_by_buyer, order_rank, can_transition, take_stock, take_each, record_order_event,
  place_order, transition, order_status_changed,
}
use campusassistant_api.Order.Status.{stage, can_transition_iff, IsHistory-length}
use campusassistant_api.Order.Transition.{MayMove, transition-MayMove}
use campusassistant_api.Order.Stock.{ordered, stock_of, Stocked}
use campusassistant_api.Order.Placing.{place_order_stock, place_order_refused, place_then_cancel}
use campusassistant_api.Market
use campusassistant_api.Market.{pay_order, settle_order}
use campusassistant_api.Market.Fulfilment.{PaysOne, fulfil-PaysOne, fulfil_twice}
use campusassistant_api.Tests.Samples.{order_tx, shop, tenth, order_in, book, bkash, confirmed}

abbrev new_order : Order
new_order = order_in OrderStatus.pending_payment

-- More books than there are.
abbrev large_order : Order
large_order = record new_order { items = book ∷ book ∷ book ∷ [] }

can_transition_iff_example : (can_transition OrderStatus.paid OrderStatus.shipped ≡ true) ↔ (
    (stage OrderStatus.paid < stage OrderStatus.shipped)
    × (OrderStatus.paid ≢ OrderStatus.delivered))
can_transition_iff_example = can_transition_iff OrderStatus.paid OrderStatus.shipped tt tt

IsHistory-length_example :
    stage OrderStatus.paid + length (OrderStatus.shipped ∷ OrderStatus.delivered ∷ []) ≤ 5
unfolding can_transition order_rank
IsHistory-length_example =
    IsHistory-length OrderStatus.paid (OrderStatus.shipped ∷ OrderStatus.delivered ∷ [])
      (refl, (refl, tt))

transition-MayMove_example :
    MayMove 20 OrderStatus.paid shop (transition tenth 20 OrderStatus.paid 1 shop).1 20 new_order
transition-MayMove_example = transition-MayMove tenth 20 OrderStatus.paid 1 shop 20 new_order refl

placed_ok : (place_order new_order shop).0 ≡ ok 100
unfolding place_order take_each take_stock
placed_ok = refl

place_order_stock_example :
    let t = (place_order new_order shop).1 in
    (stock_of 1 t.products ≡ some (pos 5 -ℤ ordered 1 (book ∷ [])))
    × (Stocked shop.products → Stocked t.products)
place_order_stock_example = place_order_stock new_order shop 1 placed_ok

place_order_refused_example :
    place_order large_order shop ≡ (err (stock_error "Book" (pos 1) false), shop)
unfolding place_order take_each take_stock ◌-ℤ◌
place_order_refused_example = place_order_refused large_order shop refl

place_then_cancel_example :
    let t = (place_order new_order shop).1 in
    stock_of 1 (transition tenth 100 OrderStatus.cancelled 1 t).1.products ≡ some (pos 5)
unfolding can_transition order_rank
place_then_cancel_example = place_then_cancel tenth new_order shop 1 1 placed_ok refl refl refl

fulfil-PaysOne_example :
    PaysOne bkash "pay-1" confirmed shop (Market.fulfil bkash "pay-1" confirmed shop).1
fulfil-PaysOne_example = fulfil-PaysOne bkash "pay-1" confirmed shop

fulfilled : (Market.fulfil bkash "pay-1" confirmed shop).0 ≡ ok tt
unfolding Market.fulfil Market.settle_payment settle_order pay_order paid_amount
    record_order_payment post_journal payment_lines sum_lines wrap bits_of signed journal_exists
    issue_order_invoice issue_invoice create_invoice next_invoice_number bump_counter
    order_status_changed record_order_event ◌+ℤ◌ append_journal
fulfilled = refl

fulfil_twice_example :
    let t = (Market.fulfil bkash "pay-1" confirmed shop).1 in
    Market.fulfil bkash "pay-1" confirmed t ≡ (ok tt, t)
fulfil_twice_example = fulfil_twice bkash "pay-1" confirmed confirmed shop fulfilled

cancel_by_buyer-MayCancel_example : MayCancel 7 20 (cancel_by_buyer 7 20 shop).1 20 new_order
cancel_by_buyer-MayCancel_example = cancel_by_buyer-MayCancel 7 20 shop 20 new_order refl

abbrev settled_tx : OrderTransaction
settled_tx = record order_tx { status = BkashStatus.completed }

mark_terminal_keeps_example :
    lookup 30
      (Market.mark_terminal "pay-1" BkashStatus.cancelled "" ""
        (record shop { order_txs = (30, settled_tx) ∷ [] })).order_txs
    ≡ some settled_tx
mark_terminal_keeps_example =
    mark_terminal_keeps "pay-1" BkashStatus.cancelled "" "" 30 settled_tx
      (record shop { order_txs = (30, settled_tx) ∷ [] }) refl refl

shop-IsBooks : IsBooks shop
unfolding total_debit total_credit ◌+ℤ◌
shop-IsBooks = ground arith
