-- ===== src/Tests/Books.antt =====
-- The ledger, earnings and payouts of the sample shop.
use campusassistant_api.Base.{ℕ, pos, ◌≡◌, refl, ◌≤ℤ◌, true, false, none, List, [], ◌∷◌, arith}
use campusassistant_api.Base.Word.{wrap, bits_of, signed}
use campusassistant_api.Base.Int.{◌+ℤ◌, ◌-ℤ◌, ◌*ℤ◌}
use campusassistant_api.Domain.{
  Account, merchant_account, Kind, SourceType, Memo, PayoutStatus, MerchantPayout, Store, ok, err,
  payout_not_requested,
}
use campusassistant_api.Ledger.{
  sum_lines, journal_exists, new_journal, append_journal, to_entries, post_journal, entries_balance,
  balance_of, credit_balance, reverse_journals, debit_line, credit_line, Line,
}
use campusassistant_api.Ledger.Balanced.{total_debit, total_credit}
use campusassistant_api.Ledger.Books.{IsBooks, post_journal-IsBooks}
use campusassistant_api.Ledger.Posting.{Postable, post_journal_twice}
use campusassistant_api.Ledger.Reversal.{reverse_journals_balance}
use campusassistant_api.Billing.{
  insert_sorted, sort_shares, share_lines, all_share_lines, total_gross, release_lines,
}
use campusassistant_api.Billing.Delivery.{
  clamp_commission, commission_for, add_item, shares_from, shares_of, book_payment, release_order,
  on_order_delivered,
}
use campusassistant_api.Billing.Commission.{commission_for_bounds}
use campusassistant_api.Billing.Delivered.{on_order_delivered_twice}
use campusassistant_api.Payout.{
  new_payout, create_payout, request_lines, reserve_payout, request_payout, settled, settle_lines,
  settle_payout, mark_payout_paid, reject_payout,
}
use campusassistant_api.Payout.Balance.{HasFreshId, request_payout_balances}
use campusassistant_api.Payout.Settlement.{
  settle_payout_balances, settle_payout_once, request_then_reject,
}
use campusassistant_api.Tests.Samples.{shop, tenth}

abbrev gift : List Line
gift = debit_line Account.gateway_bkash (pos 40) ∷ credit_line (merchant_account 10) (pos 40) ∷ []

-- The shop after a posting that gives seller 10 a balance of 1000.
abbrev rich : Store
rich = record shop {
  journals =
      record {
        kind = Kind.order_release;
        source_type = SourceType.order;
        source_id = 9;
        memo = Memo.text "Order delivered";
        entries =
            record { account = Account.orders_escrow; debit = pos 1000; credit = pos 0 }
            ∷ record { account = merchant_account 10; debit = pos 0; credit = pos 1000 }
            ∷ [];
      }
      ∷ [];
}

shop-IsBooks : IsBooks shop
unfolding total_debit total_credit ◌+ℤ◌
shop-IsBooks = ground arith

gift-Postable : Postable gift
unfolding sum_lines wrap bits_of signed ◌+ℤ◌
gift-Postable = ((pos 40, pos 40), refl, refl)

post_journal-IsBooks_example :
    IsBooks (post_journal Kind.payout_request SourceType.payout 1 (Memo.text "x") gift shop).1
post_journal-IsBooks_example =
    post_journal-IsBooks Kind.payout_request SourceType.payout 1 (Memo.text "x") gift shop
      shop-IsBooks

gift_posted :
    (post_journal Kind.payout_request SourceType.payout 1 (Memo.text "x") gift shop).0 ≡ ok true
unfolding post_journal sum_lines wrap bits_of signed journal_exists ◌+ℤ◌
gift_posted = refl

post_journal_twice_example :
    let s' = (post_journal Kind.payout_request SourceType.payout 1 (Memo.text "x") gift shop).1 in
    post_journal Kind.payout_request SourceType.payout 1 (Memo.text "y") gift s' ≡ (ok false, s')
post_journal_twice_example =
    post_journal_twice Kind.payout_request SourceType.payout 1 (Memo.text "x") (Memo.text "y") gift
      gift shop gift_posted gift-Postable

reverse_journals_balance_example :
    let (r, s') = reverse_journals SourceType.order 21 (Kind.order_payment ∷ []) shop in
    (r ≡ ok tt) × (credit_balance Account.orders_escrow s' ≡ pos 660 -ℤ pos 660)
unfolding credit_balance balance_of entries_balance journal_exists ◌-ℤ◌ ◌+ℤ◌
reverse_journals_balance_example =
    reverse_journals_balance Account.orders_escrow SourceType.order 21 (Kind.order_payment ∷ [])
      shop shop-IsBooks (refl, tt)

commission_for_bounds_example :
    (pos 0 ≤ℤ commission_for tenth (pos 600) 0) × (commission_for tenth (pos 600) 0 ≤ℤ pos 600)
commission_for_bounds_example = commission_for_bounds tenth (pos 600) 0 (ground arith)

delivered : (on_order_delivered tenth 21 shop).0 ≡ ok tt
unfolding on_order_delivered release_order book_payment post_journal sum_lines wrap bits_of signed
    journal_exists release_lines all_share_lines share_lines total_gross shares_of shares_from
    add_item sort_shares insert_sorted commission_for clamp_commission ◌+ℤ◌ ◌-ℤ◌ ◌*ℤ◌
delivered = refl

on_order_delivered_twice_example :
    let t = (on_order_delivered tenth 21 shop).1 in on_order_delivered tenth 21 t ≡ (ok tt, t)
on_order_delivered_twice_example = on_order_delivered_twice tenth 21 shop delivered

order_journal_no_payout : (k : Kind) → journal_exists k SourceType.payout 100 rich ≡ false
unfolding journal_exists
order_journal_no_payout k = ground arith

rich-HasFreshId : HasFreshId rich
rich-HasFreshId = (refl, order_journal_no_payout)

requested_ok : (request_payout (pos 500) 10 7 (pos 600) rich).0 ≡ ok 100
unfolding request_payout reserve_payout create_payout request_lines new_payout post_journal
    sum_lines wrap bits_of signed journal_exists new_journal append_journal to_entries
    credit_balance balance_of entries_balance ◌+ℤ◌ ◌-ℤ◌
requested_ok = refl

request_payout_balances_example :
    let t = (request_payout (pos 500) 10 7 (pos 600) rich).1 in
    (credit_balance (merchant_account 10) t ≡ credit_balance (merchant_account 10) rich -ℤ pos 600)
    × (pos 0 ≤ℤ credit_balance (merchant_account 10) t)
    × (credit_balance Account.payouts_pending t
        ≡ credit_balance Account.payouts_pending rich +ℤ pos 600)
request_payout_balances_example =
    request_payout_balances (pos 500) 10 7 (pos 600) rich requested_ok rich-HasFreshId

request_then_reject_example :
    let t = (request_payout (pos 500) 10 7 (pos 600) rich).1 in
    credit_balance (merchant_account 10) (reject_payout 100 1 "no" t).1
    ≡ credit_balance (merchant_account 10) rich
request_then_reject_example =
    request_then_reject (pos 500) 10 7 1 "no" (pos 600) rich (merchant_account 10) requested_ok
      rich-HasFreshId

abbrev waiting : MerchantPayout
waiting = record {
  merchant_id = 10;
  amount = pos 600;
  status = PayoutStatus.requested;
  method = "bkash";
  account = "017";
  reference = "";
  note = "";
  requested_by = 7;
  processed_by = none;
  processed_at = none;
}

abbrev owing : Store
owing = record rich { payouts = (70, waiting) ∷ [] }

settle_payout_balances_example :
    let t = (mark_payout_paid 70 1 "ref" owing).1 in
    let u = (reject_payout 70 1 "no" owing).1 in
    (credit_balance Account.payouts_pending t
      ≡ credit_balance Account.payouts_pending owing -ℤ pos 600)
    × (credit_balance Account.cash_out t ≡ credit_balance Account.cash_out owing +ℤ pos 600)
    × ((m : ℕ) → credit_balance (merchant_account m) t ≡ credit_balance (merchant_account m) owing)
    × (credit_balance Account.payouts_pending u
        ≡ credit_balance Account.payouts_pending owing -ℤ pos 600)
    × (credit_balance (merchant_account 10) u
        ≡ credit_balance (merchant_account 10) owing +ℤ pos 600)
    × (credit_balance Account.cash_out u ≡ credit_balance Account.cash_out owing)
unfolding journal_exists
settle_payout_balances_example =
    settle_payout_balances 70 1 "ref" "no" waiting owing refl refl (ground arith) refl refl

settled_ok : (settle_payout 70 1 PayoutStatus.paid "ref" "" owing).0 ≡ ok tt
unfolding settle_payout settle_lines settled post_journal sum_lines wrap bits_of signed
    journal_exists ◌+ℤ◌
settled_ok = refl

settle_payout_once_example :
    let t = (settle_payout 70 1 PayoutStatus.paid "ref" "" owing).1 in
    settle_payout 70 2 PayoutStatus.rejected "" "late" t ≡ (err payout_not_requested, t)
settle_payout_once_example =
    settle_payout_once 70 1 2 PayoutStatus.paid PayoutStatus.rejected "ref" "" "" "late" owing refl
      settled_ok

-- The buyer paid 660, of which 60 for the delivery; these stay in escrow after the release.
escrow_left : credit_balance Account.orders_escrow (on_order_delivered tenth 21 shop).1 ≡ pos 60
unfolding on_order_delivered release_order book_payment post_journal sum_lines wrap bits_of signed
    journal_exists release_lines all_share_lines share_lines total_gross shares_of shares_from
    add_item sort_shares insert_sorted commission_for clamp_commission ◌+ℤ◌ ◌-ℤ◌ ◌*ℤ◌ credit_balance
    balance_of entries_balance append_journal new_journal to_entries
escrow_left = refl
