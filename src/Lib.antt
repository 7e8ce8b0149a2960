-- ===== src/Lib.antt =====
-- The marketplace and the money side of the campus assistant API: the checkout, orders, the
-- double-entry ledger, sellers' fees and payouts, bKash payments, Pro subscriptions, coupons, refunds,
-- what a user is entitled to, and what a moderator may do.
--
-- The program is a set of Go services over one PostgreSQL database. Its state is the record `Store`
-- (Domain/Database), one field for each table the services write, with rows under their primary keys
-- in order of creation; a service is a function from a store to a result and a store (`M`), and
-- `transaction` gives the old store back when its body fails. Messages to people (notifications,
-- Telegram, the rerun of a seller's statistics) are effects in the field `outbox`.
--
-- Parts and files, with the code they model:
--   Base, Base/Tests, Base/Int, Base/Word, Base/Float, Base/Table, Base/Lists, Base/Reflect: numbers, Go's
--     64-bit int, tables, lists, and tests as predicates.
--   Domain, Domain/Market, Ledger, Subscription, Access, Database: the structs of
--     internal/domain, with the fields that the modelled code reads or writes, the store and the monad.
--   Domain/Invariants: properties of the store through the monad.
--   Ledger: postJournal, journalExists, creditBalance (internal/service/billing_service.go) and
--     reverseJournals (refund_service.go). Ledger/Posting, Balanced, Books, Reversal: the proofs.
--   Billing, Billing/Delivery: issueInvoice, the three recording hooks, commissionFor,
--     OnOrderDelivered, ReleaseDeliveredOrders (billing_service.go). Billing/Commission, Release,
--     Delivered, Frame: the proofs.
--   Payout: RequestPayout, settlePayout, MarkPayoutPaid, RejectPayout (billing_service.go).
--     Payout/Balance, Settlement: the proofs.
--   Order: internal/service/order_service.go. Order/Status, Transition, Stock, Placing,
--     Cancelling, Books: the proofs.
--   Gateway: internal/service/gateway.go, with bKash's answers as a parameter.
--   Market: internal/service/marketplace_payment_service.go. Market/Fulfilment,
--     Closing, Books: the proofs.
--   Coupon, Subscription, Payment: internal/service/payment_service.go and ComputeStatus of
--     internal/domain/subscription.go. Coupon/Discount, Coupon/Uses, Subscription/Expiry,
--     Subscription/Recomputed, Payment/Booking, Grants, Once: the proofs.
--   Refund: internal/service/refund_service.go. Refund/Once: the proofs.
--   Perks: internal/service/access_grant.go. Perks/Latest: the proofs.
--   Entitlement, Entitlement/Plans: internal/service/entitlement_service.go. Entitlement/Gate:
--     RequireEntitlement of internal/delivery/http/middleware/entitlement_middleware.go.
--     Entitlement/Counters, Usage, Resolving, Consuming, Remaining, Stored, Replacing: the proofs.
--   Authz: internal/authz/moderator.go and ActiveModerator of internal/domain/moderator.go.
--     Authz/Scopes, Answer: the proofs.
--   Commission: internal/service/commission_service.go. Commission/Fee: the proofs.
--   Checkout: Checkout and deliveryChargeFor of internal/delivery/http/handler/order_handler.go.
--     Checkout/Pricing, Placed: the proofs.
--   Seller: MerchantUpdateOrderStatus of the same file. Seller/Fulfilling: the proofs.
--   Service: requests to all of these, and runs of requests. Service/Orders, Payments, Grants,
--     Accounts, Refunds, Payouts, Runs: what a run preserves.
--   Tests: a sample shop, runs, and the theorems at concrete inputs.
--
-- How the parts meet: Order calls Billing when an order is delivered; Market marks orders paid
-- through Order and books the payment through Billing; Payment grants through Subscription, takes
-- uses from Coupon and books through Billing; Billing, Payout and Refund post through Ledger.
-- Checkout asks Commission for a seller's rate and places its order through Order; Entitlement finds
-- the plan through Subscription and adds the perks of Perks.
--
-- Conventions: Go's int is an integer with its wrap-around at 2^63 written out (`wrap`) where a
-- request's unchecked quantity reaches it first: the price of a line, the totals of a checkout and
-- of an invoice, and the two sums of postJournal. The other amounts (a seller's share in an order, a
-- balance, a stock, a use count) are sums of those without wrap-around, exact while they are below
-- 2^63 as the columns of the database are; what is said of the books holds for any lines, so it does
-- not rest on that. A row that is soft-deleted counts as absent, but for a product, which has
-- `is_deleted`, since the raw UPDATEs of the stock match it. An id is a number, with 0 for uuid.Nil,
-- and a time is a number of nanoseconds; AddDate adds whole days, as in a zone without clock
-- changes. A Float64 is its bit pattern: the code compares rates and passes them on, and the rounded
-- product of an amount and a rate is the parameter `round_share`, of which nothing is assumed. Nor
-- is anything of the other parameters: the number of days until an end (`days_left`), the month of a
-- time (`month_of`), the comparison of two cities (`same_city`), that of a stored coupon code with a
-- typed one (`same_code`), and whether gin binds a request (`is_bound`). The text of a period is the
-- date, the month or "all" that it names. Texts that come from the database and are none of the
-- known constants are `other n`. `trim` is strings.TrimSpace. All loops are over lists, so no fuel
-- is used. Statements of a healthy database succeed: a lost connection and a failed commit are not
-- modelled, nor are interleavings of two requests, which the code serialises by row locks and unique
-- indexes. The services have their optional collaborators (billing, notifier, Telegram).
--
-- Not modelled: the HTTP layer but for the checkout, the seller's update of an order and the
-- entitlement gate; the repositories' SQL; the reports, the notifications' texts, reviews, wishlists,
-- chat, the academic content and the schedulers.
pub mod Base
pub mod Domain
pub mod Ledger
pub mod Billing
pub mod Payout
pub mod Gateway
pub mod Order
pub mod Market
pub mod Coupon
pub mod Subscription
pub mod Payment
pub mod Refund
pub mod Perks
pub mod Entitlement
pub mod Authz
pub mod Commission
pub mod Checkout
pub mod Seller
pub mod Service
pub mod Tests
