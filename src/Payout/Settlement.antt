-- ===== src/Payout/Settlement.antt =====
-- MarkPayoutPaid and RejectPayout of internal/service/billing_service.go.
use Prim.Native.String.{String}
use campusassistant_api.Base.{
  ℕ, ℤ, pos, ◌+ℤ◌, ◌-ℤ◌, ◌≤ℤ◌, int_laws, +ℤ_assoc, +ℤ_zero, ◌≡◌, refl, true, false, inl, inr,
  Bool-cases, Option-cases, some, ==_refl,
}
use campusassistant_api.Base.Table.{lookup, lookup-modify_self, lookup-insert, modify}
use campusassistant_api.Domain.{
  Merchant, Account, merchant_account, Kind, SourceType, MerchantPayout, PayoutStatus, is_requested,
  same_account, Store, ok, err, payout_not_requested,
}
use campusassistant_api.Ledger.{journal_exists, new_journal, append_journal, credit_balance}
use campusassistant_api.Ledger.Posting.{
  credit_balance-append_journal, entries_balance-to_entries, lines_balance, line_balance,
}
use campusassistant_api.Payout.{
  new_payout, create_payout, request_lines, request_payout, settled, settle_kind, settle_memo,
  settle_lines, settle_payout, mark_payout_paid, reject_payout,
}
use campusassistant_api.Ledger.Posting.{post_journal_cases, journal_exists-append_journal}
use campusassistant_api.Payout.Balance.{
  HasFreshId, request_journal, request_payout-granted, granted_balance, settle_payout_granted,
}

settled_balance :
    (a : Account) (id admin : ℕ) (to : PayoutStatus) (reference note : String) (p : MerchantPayout)
    (s : Store)
    → lookup id s.payouts ≡ some p
    → is_requested p.status ≡ true
    → pos 0 ≤ℤ p.amount
    → journal_exists (settle_kind to) SourceType.payout id s ≡ false
    → credit_balance a (settle_payout id admin to reference note s).1
      ≡ credit_balance a s +ℤ lines_balance a (settle_lines to p)
settled_balance a id admin to reference note p s found awaiting nonneg fresh =
    rw
      (
        settle_payout_granted id admin to reference note p s found awaiting nonneg fresh,
        credit_balance-append_journal,
      )
      (unfold new_journal in
        rw (entries_balance-to_entries a (settle_lines to p)) (unfold credit_balance in refl))

-- Marking a requested payout of an amount that is not negative as paid moves the amount from the
-- pending payouts to the money that left, and touches no merchant's balance; rejecting it gives
-- the amount back to the merchant. Neither settlement may be in the books yet.
pub settle_payout_balances :
    (id admin : ℕ) (reference note : String) (p : MerchantPayout) (s : Store)
    → lookup id s.payouts ≡ some p
    → is_requested p.status ≡ true
    → pos 0 ≤ℤ p.amount
    → journal_exists Kind.payout_paid SourceType.payout id s ≡ false
    → journal_exists Kind.payout_rejected SourceType.payout id s ≡ false
    → let t = (mark_payout_paid id admin reference s).1 in
      let u = (reject_payout id admin note s).1 in
      (credit_balance Account.payouts_pending t
        ≡ credit_balance Account.payouts_pending s -ℤ p.amount)
      × (credit_balance Account.cash_out t ≡ credit_balance Account.cash_out s +ℤ p.amount)
      × ((m : ℕ) → credit_balance (merchant_account m) t ≡ credit_balance (merchant_account m) s)
      × (credit_balance Account.payouts_pending u
          ≡ credit_balance Account.payouts_pending s -ℤ p.amount)
      × (credit_balance (merchant_account p.merchant_id) u
          ≡ credit_balance (merchant_account p.merchant_id) s +ℤ p.amount)
      × (credit_balance Account.cash_out u ≡ credit_balance Account.cash_out s)
unfolding mark_payout_paid reject_payout settle_lines lines_balance line_balance
settle_payout_balances id admin reference note p s found awaiting nonneg unpaid kept =
    let paid = λ (a : Account).
      settled_balance a id admin PayoutStatus.paid reference "" p s found awaiting nonneg unpaid in
    let back = λ (a : Account).
      settled_balance a id admin PayoutStatus.rejected "" note p s found awaiting nonneg kept in
    (
      rw (paid Account.payouts_pending) (omega int_laws),
      rw (paid Account.cash_out) (omega int_laws),
      (λ m. rw (paid (merchant_account m)) (omega int_laws)),
      rw (back Account.payouts_pending) (omega int_laws),
      rw (back (merchant_account p.merchant_id), ==_refl p.merchant_id) (omega int_laws),
      rw (back Account.cash_out) (omega int_laws),
    )

settled_refused :
    (id admin : ℕ) (to : PayoutStatus) (reference note : String) (p : MerchantPayout) (s : Store)
    → lookup id s.payouts ≡ some p
    → is_requested p.status ≡ false
    → settle_payout id admin to reference note s ≡ (err payout_not_requested, s)
unfolding settle_payout
settled_refused id admin to reference note p s found shut = rw (found, shut)

settled_row :
    (id admin : ℕ) (to : PayoutStatus) (reference note : String) (s : Store)
    → (settle_payout id admin to reference note s).0 ≡ ok tt
    → (p : MerchantPayout) × (lookup id s.payouts ≡ some p)
      × (lookup id (settle_payout id admin to reference note s).1.payouts
          ≡ some (settled to reference note admin s.now p))
unfolding settle_payout
settled_row id admin to reference note s h = elim (Option-cases (lookup id s.payouts)) [
  | inl e ↦ cc (rw e at h)
  | inr (p, e) ↦ elim (Bool-cases (is_requested p.status)) [
    | inr a ↦ cc (rw (e, a) at h)
    | inl a ↦
        let t = record s {
          payouts = modify id (settled to reference note admin s.now) s.payouts;
        } in
        elim (post_journal_cases (settle_kind to) SourceType.payout id (settle_memo to)
          (settle_lines to p) t) [
            | inl (d, q) ↦ cc (rw (e, a, q) at h)
            | inr (inl (q, x)) ↦ (
              p,
              e,
              rw (e, a, q)
                  (lookup-modify_self id (settled to reference note admin s.now) s.payouts e),
            )
            | inr (inr (q, x, ready)) ↦ (
              p,
              e,
              rw (e, a, q)
                  (unfold append_journal in
                    lookup-modify_self id (settled to reference note admin s.now) s.payouts e),
            )
          ]
  ]
]

-- A payout that was paid or rejected is settled: marking it paid and rejecting it are refused from
-- then on, and change nothing.
pub settle_payout_once :
    (id admin admin' : ℕ) (to to' : PayoutStatus) (reference note reference' note' : String)
    (s : Store)
    → is_requested to ≡ false
    → (settle_payout id admin to reference note s).0 ≡ ok tt
    → let t = (settle_payout id admin to reference note s).1 in
      settle_payout id admin' to' reference' note' t ≡ (err payout_not_requested, t)
settle_payout_once id admin admin' to to' reference note reference' note' s final h =
    let (p, _, row) = settled_row id admin to reference note s h in
    settled_refused id admin' to' reference' note' (settled to reference note admin s.now p)
      (settle_payout id admin to reference note s).1 row (unfold settled in final)

journal_exists-request :
    (m by : ℕ) (amount : ℤ) (mm : Merchant) (s : Store)
    → HasFreshId s
    → journal_exists Kind.payout_rejected SourceType.payout s.next_id
        (append_journal (request_journal m amount s) (create_payout (new_payout m by amount mm) s))
      ≡ false
unfolding request_journal new_journal create_payout
journal_exists-request m by amount mm s fresh =
    rw journal_exists-append_journal (unfold journal_exists in rw (fresh.1 Kind.payout_rejected))

requested_row :
    (m by : ℕ) (amount : ℤ) (mm : Merchant) (s : Store)
    → HasFreshId s
    → lookup s.next_id
        (append_journal
          (request_journal m amount s)
          (create_payout (new_payout m by amount mm) s)).payouts
      ≡ some (new_payout m by amount mm)
unfolding append_journal create_payout
requested_row m by amount mm s fresh = rw (
  lookup-insert s.next_id s.next_id (new_payout m by amount mm) s.payouts fresh.0,
  ==_refl s.next_id,
)

request_reject_change :
    (a : Account) (m by : ℕ) (amount : ℤ) (mm : Merchant)
    → lines_balance a (request_lines m amount)
        +ℤ lines_balance a (settle_lines PayoutStatus.rejected (new_payout m by amount mm))
      ≡ pos 0
unfolding new_payout request_lines settle_lines lines_balance line_balance
request_reject_change a m by amount mm = elim (Bool-cases (same_account (merchant_account m) a)) [
  | inl e ↦ elim (Bool-cases (same_account Account.payouts_pending a)) [
    | inl f ↦ rw (e, f) (omega int_laws)
    | inr f ↦ rw (e, f) (omega int_laws)
  ]
  | inr e ↦ elim (Bool-cases (same_account Account.payouts_pending a)) [
    | inl f ↦ rw (e, f) (omega int_laws)
    | inr f ↦ rw (e, f) (omega int_laws)
  ]
]

-- Requesting a payout, if that is granted, and rejecting it leaves every account's balance as it
-- was before, if the next id is free.
pub request_then_reject :
    (least : ℤ) (m by admin : ℕ) (note : String) (amount : ℤ) (s : Store) {id : ℕ} (a : Account)
    → (request_payout least m by amount s).0 ≡ ok id
    → HasFreshId s
    → let t = (request_payout least m by amount s).1 in
      credit_balance a (reject_payout s.next_id admin note t).1 ≡ credit_balance a s
unfolding reject_payout
request_then_reject least m by admin note amount s a h fresh =
    let (mm, may, nonneg, e) = request_payout-granted least m by amount s h fresh in
    let t =
      append_journal (request_journal m amount s) (create_payout (new_payout m by amount mm) s) in
    let p = new_payout m by amount mm in
    let found : lookup s.next_id t.payouts ≡ some p = requested_row m by amount mm s fresh in
    rw
      (
        e,
        settled_balance a s.next_id admin PayoutStatus.rejected "" note p t found
            (unfold new_payout in refl) (unfold new_payout in nonneg)
            (journal_exists-request m by amount mm s fresh),
        granted_balance a m by amount mm s,
      )
      (rw (+ℤ_assoc, request_reject_change a m by amount mm) (+ℤ_zero (credit_balance a s)))
