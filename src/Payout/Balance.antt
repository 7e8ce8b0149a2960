-- ===== src/Payout/Balance.antt =====
-- RequestPayout of internal/service/billing_service.go, and the balances.
use Prim.Native.String.{String}
use campusassistant_api.Base.{
  ℕ, ℤ, pos, ◌+ℤ◌, ◌-ℤ◌, ◌≤ℤ◌, ltb_ℤ, leb_ℤ, int_laws, arith, ◌≡◌, refl, true, false, not, ◌||◌,
  inl, inr, Bool-cases, Option-cases, none, some, ◌∙◌, ==_refl,
}
use campusassistant_api.Base.Table.{lookup, modify}
use campusassistant_api.Domain.{
  Merchant, is_approved, Account, merchant_account, Kind, SourceType, Memo, Journal, MerchantPayout,
  PayoutStatus, is_requested, Store, ok, transaction-ok,
}
use campusassistant_api.Ledger.{journal_exists, new_journal, append_journal, credit_balance}
use campusassistant_api.Ledger.Posting.{
  Postable, Postable-of_valid, post_journal_new, credit_balance-append_journal,
  entries_balance-to_entries, lines_balance, line_balance, debits_of, credits_of,
}
use campusassistant_api.Payout.{
  new_payout, create_payout, request_lines, has_no_account, reserve_payout, request_payout, settled,
  settle_kind, settle_memo, settle_lines, settle_payout,
}

request_lines-Postable : (m : ℕ) (amount : ℤ) → pos 0 ≤ℤ amount → Postable (request_lines m amount)
unfolding request_lines
request_lines-Postable m amount h =
    Postable-of_valid (request_lines m amount) (ground arith, (ground arith, tt))
      (unfold debits_of credits_of in omega int_laws)

settle_lines-Postable :
    (to : PayoutStatus) (p : MerchantPayout) → pos 0 ≤ℤ p.amount → Postable (settle_lines to p)
unfolding settle_lines
settle_lines-Postable to p h =
    Postable-of_valid (settle_lines to p) (ground arith, (ground arith, tt))
      (unfold debits_of credits_of in grind int_laws)

-- The next id is free: no payout row has it, and no payout journal is keyed by it.
abbrev pub HasFreshId : Store → Type 0
HasFreshId s =
    (lookup s.next_id s.payouts ≡ none)
    × ((k : Kind) → journal_exists k SourceType.payout s.next_id s ≡ false)

unfoldable pub request_journal : ℕ → ℤ → Store → Journal
request_journal m amount s =
    new_journal Kind.payout_request SourceType.payout s.next_id (Memo.text "Payout requested")
      (request_lines m amount)

-- What a merchant must have for a request of `amount` to be granted.
abbrev pub MayPayOut : ℕ → ℤ → Merchant → Store → Type 0
MayPayOut m amount mm s =
    (lookup m s.merchants ≡ some mm)
    × ((not (is_approved mm.status) || mm.is_platform) ≡ false)
    × (has_no_account mm ≡ false)
    × (ltb_ℤ (credit_balance (merchant_account m) s) amount ≡ false)

reserve_payout-granted :
    (m by : ℕ) (amount : ℤ) (mm : Merchant) (s : Store)
    → MayPayOut m amount mm s
    → HasFreshId s
    → pos 0 ≤ℤ amount
    → reserve_payout m by amount s ≡ (
      ok s.next_id,
      append_journal (request_journal m amount s) (create_payout (new_payout m by amount mm) s),
    )
unfolding reserve_payout request_journal
reserve_payout-granted m by amount mm s (found, a, b, c) fresh h =
    rw (found, a, b, c)
      (rw
        (post_journal_new Kind.payout_request SourceType.payout s.next_id
          (Memo.text "Payout requested") (request_lines m amount)
          (create_payout (new_payout m by amount mm) s) (request_lines-Postable m amount h)
          (unfold create_payout journal_exists in fresh.1 Kind.payout_request))
        refl)

reserve_payout-MayPayOut :
    (m by : ℕ) (amount : ℤ) (s : Store) {id : ℕ}
    → (reserve_payout m by amount s).0 ≡ ok id
    → (mm : Merchant) × MayPayOut m amount mm s
unfolding reserve_payout
reserve_payout-MayPayOut m by amount s h = elim (Option-cases (lookup m s.merchants)) [
  | inl e ↦ cc (rw e at h)
  | inr (mm, e) ↦ elim (Bool-cases (not (is_approved mm.status) || mm.is_platform)) [
    | inl a ↦ cc (rw (e, a) at h)
    | inr a ↦ elim (Bool-cases (has_no_account mm)) [
      | inl b ↦ cc (rw (e, a, b) at h)
      | inr b ↦ elim (Bool-cases (ltb_ℤ (credit_balance (merchant_account m) s) amount)) [
        | inl c ↦ cc (rw (e, a, b, c) at h)
        | inr c ↦ (mm, (e, a, b, c))
      ]
    ]
  ]
]

request_payout-reserve :
    (least : ℤ) (m by : ℕ) (amount : ℤ) (s : Store) {id : ℕ}
    → (request_payout least m by amount s).0 ≡ ok id
    → (pos 0 ≤ℤ amount)
      × ((reserve_payout m by amount s).0 ≡ ok id)
      × (request_payout least m by amount s ≡ reserve_payout m by amount s)
unfolding request_payout
request_payout-reserve least m by amount s h = elim (Bool-cases (leb_ℤ amount (pos 0))) [
  | inl a ↦ cc (rw a at h)
  | inr a ↦ elim (Bool-cases (ltb_ℤ amount least)) [
    | inl b ↦ cc (rw (a, b) at h)
    | inr b ↦
        let k = rw (a, b) at h in
        let e = transaction-ok (reserve_payout m by amount) s k in
        (ground arith, rw e at k, rw (a, b) e)
  ]
]

-- A granted request is the new row and the journal that moves the amount.
pub request_payout-granted :
    (least : ℤ) (m by : ℕ) (amount : ℤ) (s : Store) {id : ℕ}
    → (request_payout least m by amount s).0 ≡ ok id
    → HasFreshId s
    → (mm : Merchant) × MayPayOut m amount mm s
      × (pos 0 ≤ℤ amount)
      × (request_payout least m by amount s ≡ (
        ok s.next_id,
        append_journal (request_journal m amount s) (create_payout (new_payout m by amount mm) s),
      ))
request_payout-granted least m by amount s h fresh =
    let (nonneg, k, e) = request_payout-reserve least m by amount s h in
    let (mm, may) = reserve_payout-MayPayOut m by amount s k in
    (mm, may, nonneg, e ∙ reserve_payout-granted m by amount mm s may fresh nonneg)

pub granted_balance :
    (a : Account) (m by : ℕ) (amount : ℤ) (mm : Merchant) (s : Store)
    → credit_balance a
        (append_journal (request_journal m amount s) (create_payout (new_payout m by amount mm) s))
      ≡ credit_balance a s +ℤ lines_balance a (request_lines m amount)
unfolding request_journal new_journal
granted_balance a m by amount mm s = rw credit_balance-append_journal (
    rw (entries_balance-to_entries a (request_lines m amount))
      (unfold create_payout credit_balance in refl))

-- A granted payout request takes the amount from the merchant's balance, which stays at zero or
-- above, and adds it to the pending payouts, if the next id is free.
pub request_payout_balances :
    (least : ℤ) (m by : ℕ) (amount : ℤ) (s : Store) {id : ℕ}
    → (request_payout least m by amount s).0 ≡ ok id
    → HasFreshId s
    → let t = (request_payout least m by amount s).1 in
      (credit_balance (merchant_account m) t ≡ credit_balance (merchant_account m) s -ℤ amount)
      × (pos 0 ≤ℤ credit_balance (merchant_account m) t)
      × (credit_balance Account.payouts_pending t
          ≡ credit_balance Account.payouts_pending s +ℤ amount)
unfolding request_lines lines_balance line_balance
request_payout_balances least m by amount s h fresh =
    let (mm, (found, a, b, enough), nonneg, e) =
      request_payout-granted least m by amount s h fresh in
    let merchant = granted_balance (merchant_account m) m by amount mm s in
    rw (e, merchant, granted_balance Account.payouts_pending m by amount mm s, ==_refl m)
      (omega int_laws, grind int_laws, omega int_laws)

-- The row as it is after a settlement.
pub settle_payout_granted :
    (id admin : ℕ) (to : PayoutStatus) (reference note : String) (p : MerchantPayout) (s : Store)
    → lookup id s.payouts ≡ some p
    → is_requested p.status ≡ true
    → pos 0 ≤ℤ p.amount
    → journal_exists (settle_kind to) SourceType.payout id s ≡ false
    → settle_payout id admin to reference note s ≡ (
      ok tt,
      append_journal
          (new_journal (settle_kind to) SourceType.payout id (settle_memo to) (settle_lines to p))
          (record s { payouts = modify id (settled to reference note admin s.now) s.payouts }),
    )
unfolding settle_payout
settle_payout_granted id admin to reference note p s found awaiting nonneg fresh =
    rw (found, awaiting)
      (rw
        (post_journal_new (settle_kind to) SourceType.payout id (settle_memo to) (settle_lines to p)
          (record s { payouts = modify id (settled to reference note admin s.now) s.payouts })
          (settle_lines-Postable to p nonneg) (unfold journal_exists in fresh))
        refl)
