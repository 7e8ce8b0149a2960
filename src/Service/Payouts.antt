-- ===== src/Service/Payouts.antt =====
-- What the requests about payouts (internal/service/billing_service.go) preserve.
use Prim.Native.String.{String}
use campusassistant_api.Base.{
  ℕ, ℤ, pos, leb_ℤ, ltb_ℤ, refl, inl, inr, not, ◌||◌, Bool-cases, Option-cases,
}
use campusassistant_api.Base.Table.{lookup}
use campusassistant_api.Domain.{
  SourceType, Kind, Memo, PayoutStatus, is_requested, is_approved, Store, Keeps, then-Keeps,
  commit-keeps, merchant_account, transaction-Keeps, pure,
}
use campusassistant_api.Ledger.{post_journal, credit_balance}
use campusassistant_api.Payout.{
  reserve_payout, create_payout, request_payout, settle_payout, has_no_account, request_lines,
  settle_lines, settle_kind, settle_memo,
}
use campusassistant_api.Service.Orders.{IsPreserved}

module _ (P : Store → Type 0) (preserved : IsPreserved P) where
  reserve_payout-Keeps :
      (merchant_id user_id : ℕ) (amount : ℤ) → Keeps P (reserve_payout merchant_id user_id amount)
  unfolding reserve_payout create_payout
  reserve_payout-Keeps merchant_id user_id amount s h =
      elim (Option-cases (lookup merchant_id s.merchants)) [
        | inl e ↦ rw e h
        | inr (m, e) ↦ elim (Bool-cases (not (is_approved m.status) || m.is_platform)) [
          | inl a ↦ rw (e, a) h
          | inr a ↦ elim (Bool-cases (has_no_account m)) [
            | inl b ↦ rw (e, a, b) h
            | inr b ↦
                elim (Bool-cases (ltb_ℤ (credit_balance (merchant_account merchant_id) s) amount)) [
                  | inl c ↦ rw (e, a, b, c) h
                  | inr c ↦
                      rw (e, a, b, c)
                        (then-Keeps P
                          (post_journal Kind.payout_request SourceType.payout s.next_id
                            (Memo.text "Payout requested") (request_lines merchant_id amount))
                          (pure s.next_id)
                          (preserved.posts Kind.payout_request SourceType.payout s.next_id
                            (Memo.text "Payout requested") (request_lines merchant_id amount))
                          (λ t k. k) _ (preserved.frames s _ refl refl h))
                ]
          ]
        ]
      ]

  pub request_payout-Keeps :
      (min_payout : ℤ) (merchant_id user_id : ℕ) (amount : ℤ)
      → Keeps P (request_payout min_payout merchant_id user_id amount)
  unfolding request_payout
  request_payout-Keeps min_payout merchant_id user_id amount s h =
      elim (Bool-cases (leb_ℤ amount (pos 0))) [
        | inl e ↦ rw e h
        | inr e ↦ elim (Bool-cases (ltb_ℤ amount min_payout)) [
          | inl a ↦ rw (e, a) h
          | inr a ↦
              rw (e, a)
                (transaction-Keeps P (reserve_payout merchant_id user_id amount)
                  (reserve_payout-Keeps merchant_id user_id amount) s h)
        ]
      ]

  pub settle_payout-Keeps :
      (id admin : ℕ) (to : PayoutStatus) (reference note : String)
      → Keeps P (settle_payout id admin to reference note)
  unfolding settle_payout
  settle_payout-Keeps id admin to reference note s h = elim (Option-cases (lookup id s.payouts)) [
    | inl e ↦ rw e h
    | inr (p, e) ↦ elim (Bool-cases (is_requested p.status)) [
      | inr a ↦ rw (e, a) h
      | inl a ↦
          rw (e, a)
            (commit-keeps P s _ h (
              then-Keeps P
                (post_journal (settle_kind to) SourceType.payout id (settle_memo to)
                  (settle_lines to p))
                (pure tt)
                (preserved.posts (settle_kind to) SourceType.payout id (settle_memo to)
                  (settle_lines to p))
                (λ t k. k) _ (preserved.frames s _ refl refl h)))
    ]
  ]
