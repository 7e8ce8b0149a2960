-- ===== src/Refund/Once.antt =====
-- RefundSubscriptionPayment of internal/service/refund_service.go, called again.
use Prim.Native.String.{String}
use text.Mathlib.Text.{◌==◌ as str_eq}
use campusassistant_api.Base.{
  ℕ, ◌≡◌, refl, inl, inr, true, false, ◌||◌, exists, Bool-cases, Option-cases, Option, none, some,
  List, [], ◌∷◌,
}
use campusassistant_api.Base.Table.{lookup, lookup-modify_self}
use campusassistant_api.Domain.{
  BkashTransaction, BkashStatus, is_completed, is_needs_review, Kind, SourceType, Journal, Refund,
  Store, ok, err, Keeps, then-Keeps, transaction-ok, run_cases, already_refunded,
}
use campusassistant_api.Ledger.{reverse_each, reverse_journals, post_journal}
use campusassistant_api.Billing.Frame.{post_journal-Keeps}
use campusassistant_api.Coupon.{release_coupon}
use campusassistant_api.Subscription.{recompute_pro}
use campusassistant_api.Refund.{
  is_refunded, void_invoices, create_refund, is_refund_of, end_subscription, return_coupon,
  refund_found, refund_subscription_payment,
}

abbrev SameTxs : Store → Store → Type 0
SameTxs s t = t.bkash_txs ≡ s.bkash_txs

reverse_each-SameTxs :
    (s₀ : Store) (t : SourceType) (i : ℕ) (js : List Journal)
    → Keeps (SameTxs s₀) (reverse_each t i js)
unfolding reverse_each
reverse_each-SameTxs s₀ t i [] s h = h
reverse_each-SameTxs s₀ t i (j ∷ js) s h =
    then-Keeps (SameTxs s₀) (post_journal _ t i _ _) (reverse_each t i js)
      (post_journal-Keeps (SameTxs s₀) (λ u ks k. k) _ t i _ _) (reverse_each-SameTxs s₀ t i js) s h

reverse_journals-SameTxs :
    (t : SourceType) (i : ℕ) (ks : List Kind) (s : Store)
    → (reverse_journals t i ks s).1.bkash_txs ≡ s.bkash_txs
unfolding reverse_journals
reverse_journals-SameTxs t i ks s = reverse_each-SameTxs s t i _ s refl

end_subscription-SameTxs :
    (o : Option ℕ) (s : Store) → (end_subscription o s).bkash_txs ≡ s.bkash_txs
end_subscription-SameTxs none s = refl
end_subscription-SameTxs (some id) s = refl

return_coupon-SameTxs :
    (bt : BkashTransaction) (s : Store) → (return_coupon bt s).bkash_txs ≡ s.bkash_txs
unfolding release_coupon
return_coupon-SameTxs bt s = elim (Bool-cases (is_completed bt.status)) [
  | inr e ↦ rw e
  | inl e ↦ elim (Option-cases bt.coupon_code_id) [ inl f ↦ rw (e, f) | inr (id, f) ↦ rw (e, f) ]
]

create_refund-SameTxs : (r : Refund) (s : Store) → (create_refund r s).1.bkash_txs ≡ s.bkash_txs
unfolding create_refund
create_refund-SameTxs r s = elim (Bool-cases (exists (is_refund_of r) s.refunds)) [
  | inl e ↦ rw e
  | inr e ↦ rw e
]

-- The payment was refunded.
abbrev HasRefund : ℕ → Store → Type 0
HasRefund id s =
    (bt : BkashTransaction) × (lookup id s.bkash_txs ≡ some bt) × (is_refunded bt.status ≡ true)

refund_found-HasRefund :
    (admin_id id : ℕ) (bt : BkashTransaction) (reference reason : String) (s : Store)
    → lookup id s.bkash_txs ≡ some bt
    → (refund_found admin_id id bt reference reason s).0 ≡ ok tt
    → HasRefund id (refund_found admin_id id bt reference reason s).1
unfolding refund_found void_invoices recompute_pro
refund_found-HasRefund admin_id id bt reference reason s found h =
    elim (Bool-cases (is_refunded bt.status)) [
      | inl a ↦ cc (rw a at h)
      | inr a ↦ elim (Bool-cases (is_completed bt.status || is_needs_review bt.status)) [
        | inr b ↦ cc (rw (a, b) at h)
        | inl b ↦
            elim (run_cases
              (reverse_journals SourceType.bkash_transaction id (Kind.subscription_payment ∷ []))
              s) [
                | inr (e, q) ↦ cc (rw (a, b, q) at h)
                | inl (_, q) ↦ (
                  record bt { status = BkashStatus.refunded },
                  rw
                      (
                        a, b, q, create_refund-SameTxs, return_coupon-SameTxs,
                        end_subscription-SameTxs, reverse_journals-SameTxs,
                      )
                      (lookup-modify_self id (λ x. record x { status = BkashStatus.refunded })
                        s.bkash_txs found),
                  refl,
                )
              ]
      ]
    ]

module _ (trim : String → String) where
  refund_again :
      (admin_id id : ℕ) (reference reason : String) (s : Store)
      → str_eq (trim reference) "" ≡ false
      → HasRefund id s
      → refund_subscription_payment trim admin_id id reference reason s ≡ (err already_refunded, s)
  unfolding refund_subscription_payment refund_found
  refund_again admin_id id reference reason s given (bt, found, a) = rw (given, found, a)

  refund-HasRefund :
      (admin_id id : ℕ) (reference reason : String) (s : Store)
      → (refund_subscription_payment trim admin_id id reference reason s).0 ≡ ok tt
      → HasRefund id (refund_subscription_payment trim admin_id id reference reason s).1
  unfolding refund_subscription_payment
  refund-HasRefund admin_id id reference reason s h =
      elim (Bool-cases (str_eq (trim reference) "")) [
        | inl a ↦ cc (rw a at h)
        | inr a ↦ elim (Option-cases (lookup id s.bkash_txs)) [
          | inl e ↦ cc (rw (a, e) at h)
          | inr (bt, e) ↦
              let k = rw (a, e) at h in
              let c =
                transaction-ok (refund_found admin_id id bt (trim reference) (trim reason)) s k in
              rw (a, e, c)
                (refund_found-HasRefund admin_id id bt (trim reference) (trim reason) s e
                  (rw c at k))
        ]
      ]

  -- A subscription's payment is refunded once: after a refund went through, another with any
  -- reference that is not blank is refused and changes nothing.
  pub refund_subscription_payment_once :
      (admin_id admin_id' id : ℕ) (reference reason reference' reason' : String) (s : Store)
      → str_eq (trim reference') "" ≡ false
      → (refund_subscription_payment trim admin_id id reference reason s).0 ≡ ok tt
      → let t = (refund_subscription_payment trim admin_id id reference reason s).1 in
        refund_subscription_payment trim admin_id' id reference' reason' t
        ≡ (err already_refunded, t)
  refund_subscription_payment_once admin_id admin_id' id reference reason reference' reason' s given
        h =
      refund_again admin_id' id reference' reason'
        (refund_subscription_payment trim admin_id id reference reason s).1 given
        (refund-HasRefund admin_id id reference reason s h)
