-- ===== src/Payout.antt =====
-- Merchant payouts: RequestPayout, settlePayout, MarkPayoutPaid and RejectPayout of
-- internal/service/billing_service.go. `min_payout` is the service's MinPayout.
pub mod Balance
pub mod Settlement
use Prim.Native.String.{String}
use text.Mathlib.Text.{◌==◌ as str_eq}
use campusassistant_api.Base.{
  ℕ, suc, ℤ, pos, ltb_ℤ, leb_ℤ, Bool, not, ◌||◌, if◌then◌else◌, Option, none, some, List, [], ◌∷◌,
}
use campusassistant_api.Base.Table.{lookup, modify, insert}
use campusassistant_api.Domain.{
  Merchant, is_approved, Account, merchant_account, Kind, SourceType, Memo, MerchantPayout,
  PayoutStatus, is_requested, is_paid, Store, M, pure, fail, gets, or_fail, fail_if, update, Done,
  transaction, merchant_not_found, merchant_not_approved, no_payout_account, insufficient_balance,
  invalid_payout_amount, below_min_payout, payout_not_found, payout_not_requested, ◌>>=◌, ◌>>◌,
}
use campusassistant_api.Ledger.{Line, debit_line, credit_line, credit_balance, post_journal}

abbrev pub default_min_payout : ℤ
default_min_payout = pos 500

unfoldable pub new_payout : ℕ → ℕ → ℤ → Merchant → MerchantPayout
new_payout merchant_id requested_by amount m = record {
  merchant_id = merchant_id;
  amount = amount;
  status = PayoutStatus.requested;
  method = m.payout_method;
  account = m.payout_account;
  reference = "";
  note = "";
  requested_by = requested_by;
  processed_by = none;
  processed_at = none;
}

-- `tx.Create(p)`: the row gets a fresh id.
unfoldable pub create_payout : MerchantPayout → Store → Store
create_payout p s = record s { payouts = insert s.next_id p s.payouts; next_id = suc s.next_id }

unfoldable pub request_lines : ℕ → ℤ → List Line
request_lines merchant_id amount =
    debit_line (merchant_account merchant_id) amount
    ∷ credit_line Account.payouts_pending amount
    ∷ []

abbrev pub has_no_account : Merchant → Bool
has_no_account m = str_eq m.payout_method "" || str_eq m.payout_account ""

-- The body of the transaction, which answers with the payout's id.
unfoldable pub reserve_payout : ℕ → ℕ → ℤ → M ℕ
unfolding create_payout
reserve_payout merchant_id requested_by amount = do
  merchant ← gets (λ s. lookup merchant_id s.merchants)
  m ← or_fail merchant merchant_not_found
  fail_if (not (is_approved m.status) || m.is_platform) merchant_not_approved
  fail_if (has_no_account m) no_payout_account
  bal ← gets (credit_balance (merchant_account merchant_id))
  fail_if (ltb_ℤ bal amount) insufficient_balance
  id ← gets (λ s. s.next_id)
  update (create_payout (new_payout merchant_id requested_by amount m))
  post_journal Kind.payout_request SourceType.payout id (Memo.text "Payout requested")
      (request_lines merchant_id amount)
  pure id

unfoldable pub request_payout : ℤ → ℕ → ℕ → ℤ → M ℕ
request_payout min_payout merchant_id requested_by amount = do
  fail_if (leb_ℤ amount (pos 0)) invalid_payout_amount
  fail_if (ltb_ℤ amount min_payout) below_min_payout
  transaction (reserve_payout merchant_id requested_by amount)

-- The row that `tx.Save(&p)` writes.
unfoldable pub settled : PayoutStatus → String → String → ℕ → ℕ → MerchantPayout → MerchantPayout
settled to reference note admin_id now p = record p {
  status = to;
  reference = reference;
  note = if str_eq note "" then p.note else note;
  processed_by = some admin_id;
  processed_at = some now;
}

abbrev pub settle_kind : PayoutStatus → Kind
settle_kind to = if is_paid to then Kind.payout_paid else Kind.payout_rejected

abbrev pub settle_memo : PayoutStatus → Memo
settle_memo to =
    if is_paid to
    then Memo.text "Payout transferred"
    else Memo.text "Payout rejected, balance returned"

unfoldable pub settle_lines : PayoutStatus → MerchantPayout → List Line
settle_lines to p =
    debit_line Account.payouts_pending p.amount
    ∷ (if is_paid to
        then credit_line Account.cash_out p.amount
        else credit_line (merchant_account p.merchant_id) p.amount)
    ∷ []

unfoldable pub settle_payout : ℕ → ℕ → PayoutStatus → String → String → M Done
settle_payout payout_id admin_id to reference note = transaction (do
  payout ← gets (λ s. lookup payout_id s.payouts)
  p ← or_fail payout payout_not_found
  fail_if (not (is_requested p.status)) payout_not_requested
  update (λ s. record s {
    payouts = modify payout_id (settled to reference note admin_id s.now) s.payouts;
  })
  post_journal (settle_kind to) SourceType.payout payout_id (settle_memo to) (settle_lines to p)
  pure tt)

unfoldable pub mark_payout_paid : ℕ → ℕ → String → M Done
mark_payout_paid payout_id admin_id reference =
    settle_payout payout_id admin_id PayoutStatus.paid reference ""

unfoldable pub reject_payout : ℕ → ℕ → String → M Done
reject_payout payout_id admin_id note =
    settle_payout payout_id admin_id PayoutStatus.rejected "" note
