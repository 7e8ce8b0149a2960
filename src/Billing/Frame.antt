-- ===== src/Billing/Frame.antt =====
-- The billing hooks (internal/service/billing_service.go) and the properties of the store that do
-- not depend on what they write.
use Prim.Native.String.{String}
use campusassistant_api.Base.{
  Option-cases, Bool-cases, inl, inr, not, ℕ, ℤ, Option, none, some, List, ◌≡◌,
}
use campusassistant_api.Base.Table.{lookup, Table}
use campusassistant_api.Domain.{
  Journal, ◌>>=◌, ◌>>◌, OrderStatus, same_status, record_not_found, order_not_delivered, Float64,
  Order, is_bkash, BkashTransaction, Kind, SourceType, Memo, Invoice, Store, Keeps, bind-Keeps,
  then-Keeps, transaction-Keeps, when-Keeps, or_fail, fail_if, gets, pure, when,
}
use campusassistant_api.Ledger.{append_journal, Line, post_journal, journal_exists}
use campusassistant_api.Ledger.Posting.{post_journal_cases}
use campusassistant_api.Ledger.Books.{IsBooks, post_journal-IsBooks}
use campusassistant_api.Billing.{
  bump_counter, InvoiceSpec, issue_invoice, or_create, create_invoice, next_invoice_number,
  record_subscription_payment, record_order_payment, issue_order_invoice,
}
use campusassistant_api.Billing.Delivery.{book_payment, release_order, on_order_delivered}

module _ (P : Store → Type 0)
    (posts : (k : Kind) (t : SourceType) (i : ℕ) (memo : Memo) (ls : List Line)
      → Keeps P (post_journal k t i memo ls))
    (invoicing : (s : Store) (invs : List Invoice) (cs : Table ℕ)
      → P s
      → P (record s { invoices = invs; invoice_counters = cs })) where
  create_invoice-Keeps : (spec : InvoiceSpec) → Keeps P (create_invoice spec)
  unfolding create_invoice next_invoice_number
  create_invoice-Keeps spec s h = elim (Option-cases (lookup spec.user_id s.users)) [
    | inl e ↦ rw e h
    | inr (u, e) ↦ elim (Option-cases (lookup s.year (bump_counter s.year s.invoice_counters))) [
      | inl c ↦ rw (e, c) (invoicing s s.invoices (bump_counter s.year s.invoice_counters) h)
      | inr (n, c) ↦ rw (e, c) (invoicing s _ _ h)
    ]
  ]

  or_create-Keeps : (spec : InvoiceSpec) (o : Option Invoice) → Keeps P (or_create spec o)
  or_create-Keeps spec none s h = create_invoice-Keeps spec s h
  or_create-Keeps spec (some inv) s h = h

  issue_invoice-Keeps : (spec : InvoiceSpec) → Keeps P (issue_invoice spec)
  unfolding issue_invoice
  issue_invoice-Keeps spec s h = or_create-Keeps spec _ s h

  pub record_subscription_payment-Keeps :
      (id : ℕ) (bt : BkashTransaction) (title : String)
      → Keeps P (record_subscription_payment id bt title)
  unfolding record_subscription_payment
  record_subscription_payment-Keeps id bt title =
      bind-Keeps P (post_journal _ _ id _ _) _ (posts _ _ id _ _)
        (λ _. then-Keeps P (issue_invoice _) (pure tt) (issue_invoice-Keeps _) (λ s h. h))

  issue_order_invoice-Keeps :
      (id : ℕ) (order : Order) (method ref : String)
      → Keeps P (issue_order_invoice id order method ref)
  unfolding issue_order_invoice
  issue_order_invoice-Keeps id order method ref =
      then-Keeps P (issue_invoice _) (pure tt) (issue_invoice-Keeps _) (λ s h. h)

  pub record_order_payment-Keeps :
      (id : ℕ) (order : Order) (trx : String) → Keeps P (record_order_payment id order trx)
  unfolding record_order_payment
  record_order_payment-Keeps id order trx =
      then-Keeps P (post_journal _ _ id _ _) (issue_order_invoice id order _ _) (posts _ _ id _ _)
        (issue_order_invoice-Keeps id order _ _)

  pub book_payment-Keeps : (id : ℕ) (order : Order) → Keeps P (book_payment id order)
  unfolding book_payment
  book_payment-Keeps id order s h = elim (Bool-cases (is_bkash order.payment_method)) [
    | inl e ↦ rw e (
        when-Keeps P _ (record_order_payment id order _) (record_order_payment-Keeps id order _) s
          h)
    | inr e ↦ rw e (issue_order_invoice-Keeps id order _ _ s h)
  ]

  module _ (round_share : ℤ → Float64 → ℤ) where
    release_order-Keeps : (id : ℕ) (order : Order) → Keeps P (release_order round_share id order)
    unfolding release_order
    release_order-Keeps id order =
        then-Keeps P (book_payment id order) _ (book_payment-Keeps id order) (λ s h.
          then-Keeps P (post_journal _ _ id _ _) (pure tt) (posts _ _ id _ _) (λ t k. k) s h)

    deliver-Keeps :
        (id : ℕ) (o : Option Order)
        → Keeps P (do
          order ← or_fail o record_not_found
          fail_if (not (same_status order.status OrderStatus.delivered)) order_not_delivered
          released ← gets (journal_exists Kind.order_release SourceType.order id)
          when (not released) (release_order round_share id order))
    deliver-Keeps id none s h = h
    deliver-Keeps id (some o) s h = elim (Bool-cases (same_status o.status OrderStatus.delivered)) [
      | inl e ↦ rw e (
          when-Keeps P (not (journal_exists Kind.order_release SourceType.order id s))
            (release_order round_share id o) (release_order-Keeps id o) s h)
      | inr e ↦ rw e h
    ]

    pub on_order_delivered-Keeps : (id : ℕ) → Keeps P (on_order_delivered round_share id)
    unfolding on_order_delivered
    on_order_delivered-Keeps id =
        transaction-Keeps P _ (λ s. deliver-Keeps id (lookup id s.orders) s)

-- postJournal keeps every property that does not read the journals.
module _ (P : Store → Type 0)
    (ignores : (s : Store) (js : List Journal) → P s → P (record s { journals = js })) where
  pub post_journal-Keeps :
      (k : Kind) (t : SourceType) (i : ℕ) (memo : Memo) (ls : List Line)
      → Keeps P (post_journal k t i memo ls)
  post_journal-Keeps k t i memo ls s h = elim (post_journal_cases k t i memo ls s) [
    | inl (e, q) ↦ rw q h
    | inr (inl (q, x)) ↦ rw q h
    | inr (inr (q, x, ready)) ↦ rw q (unfold append_journal in ignores s _ h)
  ]

-- The orders are as they were.
abbrev pub SameOrders : Store → Store → Type 0
SameOrders s t = t.orders ≡ s.orders

module _ (round_share : ℤ → Float64 → ℤ) where
  -- Booking earnings keeps the books sound.
  pub on_order_delivered-IsBooks : (id : ℕ) → Keeps IsBooks (on_order_delivered round_share id)
  on_order_delivered-IsBooks =
      on_order_delivered-Keeps IsBooks post_journal-IsBooks (λ s invs cs h. h) round_share

  pub on_order_delivered-SameOrders :
      (s₀ : Store) (id : ℕ) → Keeps (SameOrders s₀) (on_order_delivered round_share id)
  on_order_delivered-SameOrders s₀ =
      on_order_delivered-Keeps (SameOrders s₀) (post_journal-Keeps (SameOrders s₀) (λ s js h. h))
        (λ s invs cs h. h) round_share
