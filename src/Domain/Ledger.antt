-- ===== src/Domain/Ledger.antt =====
-- Rows of the ledger, invoices, refunds and payouts: internal/domain/billing.go, and the account
-- names and journal kinds of internal/service/billing_service.go.
use Prim.Native.String.{String}
use campusassistant_api.Base.{ℕ, ℤ, Bool, true, false, List, Option, ◌==◌}

pub data Account : Type 0 where
  gateway_bkash cash_out orders_escrow payouts_pending : Account
  revenue_subs revenue_commission revenue_platform : Account
  merchant : ℕ → Account

abbrev pub same_account : Account → Account → Bool
same_account Account.gateway_bkash Account.gateway_bkash = true
same_account Account.cash_out Account.cash_out = true
same_account Account.orders_escrow Account.orders_escrow = true
same_account Account.payouts_pending Account.payouts_pending = true
same_account Account.revenue_subs Account.revenue_subs = true
same_account Account.revenue_commission Account.revenue_commission = true
same_account Account.revenue_platform Account.revenue_platform = true
same_account (Account.merchant m) (Account.merchant n) = m == n
same_account _ _ = false

-- `MerchantAccount`
abbrev pub merchant_account : ℕ → Account
merchant_account id = Account.merchant id

-- `refund k` is the kind "refund:" + k.
pub data Kind : Type 0 where
  subscription_payment order_payment order_release : Kind
  payout_request payout_paid payout_rejected : Kind
  refund : Kind → Kind

abbrev pub same_kind : Kind → Kind → Bool
same_kind Kind.subscription_payment Kind.subscription_payment = true
same_kind Kind.order_payment Kind.order_payment = true
same_kind Kind.order_release Kind.order_release = true
same_kind Kind.payout_request Kind.payout_request = true
same_kind Kind.payout_paid Kind.payout_paid = true
same_kind Kind.payout_rejected Kind.payout_rejected = true
same_kind (Kind.refund k) (Kind.refund l) = same_kind k l
same_kind _ _ = false

-- The memo of a journal; `refund_of k` is the text "Refund of " + k, and
-- `subscription_of t` is "Subscription: " + t.
pub data Memo : Type 0 where
  text : String → Memo
  refund_of : Kind → Memo
  subscription_of : String → Memo

pub data SourceType : Type 0 where
  bkash_transaction order payout : SourceType

abbrev pub same_source : SourceType → SourceType → Bool
same_source SourceType.bkash_transaction SourceType.bkash_transaction = true
same_source SourceType.order SourceType.order = true
same_source SourceType.payout SourceType.payout = true
same_source _ _ = false

pub record LedgerEntry : Type 0 where
  pub account : Account
  pub debit : ℤ
  pub credit : ℤ

-- A journal with its ledger entries (the rows that carry its id).
pub record Journal : Type 0 where
  pub kind : Kind
  pub source_type : SourceType
  pub source_id : ℕ
  pub memo : Memo
  pub entries : List LedgerEntry

pub record InvoiceLine : Type 0 where
  pub description : String
  pub quantity : ℤ
  pub unit_price : ℤ
  pub total : ℤ

-- The number is "INV-<year>-<sequence>"; the customer's name, email and phone are copied text.
pub record Invoice : Type 0 where
  pub year : ℕ
  pub sequence : ℕ
  pub user_id : ℕ
  pub source_type : SourceType
  pub source_id : ℕ
  pub payment_method : String
  pub payment_ref : String
  pub subtotal : ℤ
  pub discount : ℤ
  pub total : ℤ
  pub issued_at : ℕ
  pub voided_at : Option ℕ
  pub lines : List InvoiceLine

pub record Refund : Type 0 where
  pub source_type : SourceType
  pub source_id : ℕ
  pub user_id : ℕ
  pub amount : ℤ
  pub reference : String
  pub reason : String
  pub refunded_by : ℕ

pub data PayoutStatus : Type 0 where
  requested paid rejected : PayoutStatus

abbrev pub is_requested : PayoutStatus → Bool
is_requested PayoutStatus.requested = true
is_requested _ = false

abbrev pub is_paid : PayoutStatus → Bool
is_paid PayoutStatus.paid = true
is_paid _ = false

pub record MerchantPayout : Type 0 where
  pub merchant_id : ℕ
  pub amount : ℤ
  pub status : PayoutStatus
  pub method : String
  pub account : String
  pub reference : String
  pub note : String
  pub requested_by : ℕ
  pub processed_by : Option ℕ
  pub processed_at : Option ℕ
