-- ===== src/Billing.antt =====
-- Invoices and the earnings of a delivered order: issueInvoice, recordSubscriptionPayment,
-- recordOrderPayment, issueOrderInvoice, commissionFor, OnOrderDelivered and
-- ReleaseDeliveredOrders of internal/service/billing_service.go, for a service that is not nil.
pub mod Delivery
pub mod Frame
pub mod Commission
pub mod Release
pub mod Delivered
use Prim.Native.String.{String}
use campusassistant_api.Base.{
  ℕ, suc, ℤ, pos, ◌+ℤ◌, ◌-ℤ◌, ◌*ℤ◌, wrap, eq_ℤ, ltb_ℤ, Bool, true, false, not, ◌&&◌, ◌==◌, ltb,
  if◌then◌else◌, Option, none, some, List, [], ◌∷◌, ◌++◌, map, find, select, take, is_some,
}
use campusassistant_api.Base.Table.{Table, lookup, modify, insert}
use campusassistant_api.Domain.{
  Float64, OrderStatus, same_status, is_bkash, OrderItem, Order, Merchant, OrderTransaction,
  is_completed, Account, merchant_account, Kind, SourceType, same_source, Memo, Invoice,
  InvoiceLine, BkashTransaction, Store, M, Result, ok, err, pure, fail, gets, or_fail, fail_if,
  update, when, Done, transaction, record_not_found, order_not_delivered, ◌>>=◌, ◌>>◌,
}
use campusassistant_api.Ledger.{Line, debit_line, credit_line, journal_exists, post_journal}

-- `invoiceSpec`
pub record InvoiceSpec : Type 0 where
  pub user_id : ℕ
  pub source_type : SourceType
  pub source_id : ℕ
  pub payment_method : String
  pub payment_ref : String
  pub subtotal : ℤ
  pub discount : ℤ
  pub total : ℤ
  pub lines : List InvoiceLine

-- The upsert on the year's counter.
unfoldable pub bump_counter : ℕ → Table ℕ → Table ℕ
bump_counter year t = if is_some (lookup year t) then modify year suc t else insert year 1 t

-- `nextInvoiceNumber`, the number within the year.
unfoldable pub next_invoice_number : M ℕ
unfolding bump_counter
next_invoice_number = do
  update (λ s. record s { invoice_counters = bump_counter s.year s.invoice_counters })
  counter ← gets (λ s. lookup s.year s.invoice_counters)
  or_fail counter record_not_found

abbrev pub is_invoice_of : SourceType → ℕ → Invoice → Bool
is_invoice_of t i inv = same_source inv.source_type t && inv.source_id == i

unfoldable pub new_invoice : InvoiceSpec → ℕ → ℕ → ℕ → Invoice
new_invoice spec year sequence now = record {
  year = year;
  sequence = sequence;
  user_id = spec.user_id;
  source_type = spec.source_type;
  source_id = spec.source_id;
  payment_method = spec.payment_method;
  payment_ref = spec.payment_ref;
  subtotal = spec.subtotal;
  discount = spec.discount;
  total = spec.total;
  issued_at = now;
  voided_at = none;
  lines = spec.lines;
}

-- The part of `issueInvoice` after no invoice was found: load the customer, number, create.
unfoldable pub create_invoice : InvoiceSpec → M Invoice
unfolding next_invoice_number new_invoice
create_invoice spec = do
  customer ← gets (λ s. lookup spec.user_id s.users)
  or_fail customer record_not_found
  sequence ← next_invoice_number
  inv ← gets (λ s. new_invoice spec s.year sequence s.now)
  update (λ s. record s { invoices = s.invoices ++ inv ∷ [] })
  pure inv

abbrev pub or_create : InvoiceSpec → Option Invoice → M Invoice
or_create spec (some inv) = pure inv
or_create spec none = create_invoice spec

unfoldable pub issue_invoice : InvoiceSpec → M Invoice
issue_invoice spec = do
  existing ← gets (λ s. find (is_invoice_of spec.source_type spec.source_id) s.invoices)
  or_create spec existing

-- The full price is never booked below the amount charged.
abbrev pub full_price : BkashTransaction → ℤ
full_price bt = if ltb_ℤ bt.original_amount bt.amount then bt.amount else bt.original_amount

unfoldable pub record_subscription_payment : ℕ → BkashTransaction → String → M Done
record_subscription_payment id bt plan_title = do
  post_journal Kind.subscription_payment SourceType.bkash_transaction id
      (Memo.subscription_of plan_title)
      (debit_line Account.gateway_bkash bt.amount ∷ credit_line Account.revenue_subs bt.amount ∷ [])
  issue_invoice (record {
    user_id = bt.user_id;
    source_type = SourceType.bkash_transaction;
    source_id = id;
    payment_method = "bkash";
    payment_ref = bt.trx_id;
    subtotal = full_price bt;
    discount = full_price bt -ℤ bt.amount;
    total = bt.amount;
    lines =
        record {
          description = plan_title;
          quantity = pos 1;
          unit_price = full_price bt;
          total = full_price bt;
        }
        ∷ [];
  })
  pure tt

-- `UnitPrice * Quantity`
abbrev pub gross_of : OrderItem → ℤ
gross_of it = wrap (it.unit_price *ℤ it.quantity)

-- GORM's Create writes the default of the column, 1, for a quantity that is zero.
abbrev pub invoice_line : OrderItem → InvoiceLine
invoice_line it = record {
  description = it.product_title;
  quantity = if eq_ℤ it.quantity (pos 0) then pos 1 else it.quantity;
  unit_price = it.unit_price;
  total = gross_of it;
}

unfoldable pub subtotal_of : List OrderItem → ℤ
subtotal_of [] = pos 0
subtotal_of (it ∷ its) = gross_of it +ℤ subtotal_of its

unfoldable pub issue_order_invoice : ℕ → Order → String → String → M Done
issue_order_invoice id order method ref =
    issue_invoice (record {
      user_id = order.buyer_id;
      source_type = SourceType.order;
      source_id = id;
      payment_method = method;
      payment_ref = ref;
      subtotal = wrap (subtotal_of order.items);
      discount = pos 0;
      total = wrap (subtotal_of order.items);
      lines = map invoice_line order.items;
    })
    >> pure tt

unfoldable pub payment_lines : Order → List Line
payment_lines order =
    debit_line Account.gateway_bkash order.total_amount
    ∷ credit_line Account.orders_escrow order.total_amount
    ∷ []

unfoldable pub record_order_payment : ℕ → Order → String → M Done
record_order_payment id order trx_id = do
  post_journal Kind.order_payment SourceType.order id (Memo.text "Order payment")
      (payment_lines order)
  issue_order_invoice id order "bkash" trx_id

-- What one merchant sold in an order, and the fee on it.
pub record Share : Type 0 where
  pub gross : ℤ
  pub commission : ℤ

-- `sort.Slice(merchantIDs, ...)`: the text of an id sorts as the number does.
unfoldable pub insert_sorted : ℕ × Share → Table Share → Table Share
insert_sorted e [] = e ∷ []
insert_sorted e (f ∷ t) =
    let rest = insert_sorted e t in if ltb e.0 f.0 then e ∷ f ∷ t else f ∷ rest

unfoldable pub sort_shares : Table Share → Table Share
unfolding insert_sorted
sort_shares [] = []
sort_shares (e ∷ t) = insert_sorted e (sort_shares t)

abbrev pub is_platform_merchant : Table Merchant → ℕ → Bool
is_platform_merchant ms id = elim (lookup id ms) [ none ↦ false | some m ↦ m.is_platform ]

-- `switch` on whose product it is and how it was paid.
unfoldable pub share_lines : Bool → Bool → ℕ → Share → List Line
share_lines platform by_bkash id sh =
    if platform
    then (if by_bkash then credit_line Account.revenue_platform sh.gross ∷ [] else [])
    else (if by_bkash
        then credit_line (merchant_account id) (sh.gross -ℤ sh.commission)
          ∷ credit_line Account.revenue_commission sh.commission
          ∷ []
        else debit_line (merchant_account id) sh.commission
          ∷ credit_line Account.revenue_commission sh.commission
          ∷ [])

unfoldable pub all_share_lines : Table Merchant → Bool → Table Share → List Line
all_share_lines ms by_bkash [] = []
all_share_lines ms by_bkash ((id, sh) ∷ t) =
    share_lines (is_platform_merchant ms id) by_bkash id sh ++ all_share_lines ms by_bkash t

unfoldable pub total_gross : Table Share → ℤ
total_gross [] = pos 0
total_gross ((id, sh) ∷ t) = sh.gross +ℤ total_gross t

unfoldable pub release_lines : Table Merchant → Bool → Table Share → List Line
release_lines ms by_bkash t =
    all_share_lines ms by_bkash t
    ++ (if by_bkash then debit_line Account.orders_escrow (total_gross t) ∷ [] else [])
