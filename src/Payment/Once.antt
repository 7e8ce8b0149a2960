-- ===== src/Payment/Once.antt =====
-- fulfil of internal/service/payment_service.go, called again.
use Prim.Native.String.{String}
use campusassistant_api.Base.{ℕ, ◌≡◌, refl, inl, inr, true, Bool-cases, Option-cases, some, ◌∙◌, ap}
use campusassistant_api.Base.Table.{lookup, find-modify, lookup-insert-some}
use campusassistant_api.Domain.{
  BkashTransaction, UserSubscription, is_completed, Store, Result, ok, bind-ok, transaction-ok,
  transaction, pure, ◌>>=◌,
}
use campusassistant_api.Gateway.{Gateway, ExecuteResult, paid_amount}
use campusassistant_api.Market.{is_other_amount}
use campusassistant_api.Subscription.{latest_of, granted_end, new_subscription}
use campusassistant_api.Payment.{
  has_payment_id, find_payment, Outcome, subscription_for, completed, grant_of, fulfil_payment,
  report, settle_payment, fulfil,
}
use campusassistant_api.Payment.Booking.{
  SameGrants, existing-same, subscription_at-same, report-SameGrants, fulfil_payment_planless,
  fulfil_payment_userless, fulfil_payment-tables, fulfil_payment-fresh,
}

abbrev IsDone : String → ℕ → Store → Type 0
IsDone payment_id sub s =
    (row : ℕ × BkashTransaction) × (find_payment payment_id s ≡ some row)
    × (is_completed row.1.status ≡ true)
    × (subscription_for row.1 s ≡ (ok sub, s))

-- The subscription that an outcome names.
abbrev Names : Outcome → ℕ → Type 0
Names (Outcome.existing id) sub = id ≡ sub
Names (Outcome.fresh id amount) sub = id ≡ sub
Names Outcome.mismatch sub = ⊥

report-Names : (out : Outcome) (s : Store) (sub : ℕ) → (report out s).0 ≡ ok sub → Names out sub
report-Names (Outcome.existing id) s sub h = cc
report-Names Outcome.mismatch s sub h = cc
report-Names (Outcome.fresh id amount) s sub h = cc

Names-existing :
    (id : ℕ) (out : Outcome) (sub : ℕ)
    → Path (Result Outcome) (ok (Outcome.existing id)) (ok out)
    → Names out sub
    → id ≡ sub
Names-existing id (Outcome.existing i) sub h named = cc
Names-existing id Outcome.mismatch sub h named = cc
Names-existing id (Outcome.fresh i amount) sub h named = cc

mismatch-Names :
    (out : Outcome) (sub : ℕ)
    → Path (Result Outcome) (ok Outcome.mismatch) (ok out)
    → Names out sub
    → ⊥
mismatch-Names (Outcome.existing i) sub h named = cc
mismatch-Names Outcome.mismatch sub h named = named
mismatch-Names (Outcome.fresh i amount) sub h named = cc

pair_of :
    (res : Result ℕ × Store) (id : ℕ) (s : Store) → res.0 ≡ ok id → res.1 ≡ s → res ≡ (ok id, s)
pair_of (r, t) id s h k = cc

existing-Names :
    (tx : BkashTransaction) (s : Store) (out : Outcome) (sub : ℕ)
    → ((subscription_for tx >>= λ id. pure (Outcome.existing id)) s).0 ≡ ok out
    → Names out sub
    → subscription_for tx s ≡ (ok sub, s)
existing-Names tx s out sub h named =
    let (id, p, q) = bind-ok (subscription_for tx) (λ i. pure (Outcome.existing i)) s h in
    let same : id ≡ sub = Names-existing id out sub (rw q at h) named in
    pair_of (subscription_for tx s) sub s (rw same at p) (subscription_at-same tx s)

latest_of-same :
    (user_id : ℕ) (s t : Store)
    → t.subscriptions ≡ s.subscriptions
    → latest_of user_id t ≡ latest_of user_id s
unfolding latest_of
latest_of-same user_id s t same = rw same

moved_answer :
    (tx : BkashTransaction) (s t : Store) (sub : ℕ)
    → t.subscriptions ≡ s.subscriptions
    → subscription_for tx s ≡ (ok sub, s)
    → subscription_for tx t ≡ (ok sub, t)
unfolding subscription_for
moved_answer tx s t sub same h = elim (Option-cases tx.subscription_id) [
  | inr (id, e) ↦ elim (Option-cases (lookup id s.subscriptions)) [
    | inl f ↦ cc (rw (e, f) at h)
    | inr (w, f) ↦
        rw (e, ap (lookup id) same ∙ f)
          (ap (λ (res : Result ℕ × Store). (res.0, t)) (rw (e, f) at h))
  ]
  | inl e ↦ elim (Option-cases (latest_of tx.user_id s)) [
    | inl f ↦ cc (rw (e, f) at h)
    | inr (w, f) ↦
        rw (e, latest_of-same tx.user_id s t same ∙ f)
          (ap (λ (res : Result ℕ × Store). (res.0, t)) (rw (e, f) at h))
  ]
]

recorded_answer :
    (tx : BkashTransaction) (r : ExecuteResult) (id sub : ℕ) (s : Store) (w : UserSubscription)
    → id ≡ sub
    → lookup id s.subscriptions ≡ some w
    → subscription_for (completed r id tx) s ≡ (ok sub, s)
unfolding subscription_for
recorded_answer tx r id sub s w same found = rw found (rw same)

IsDone-same :
    (payment_id : String) (sub : ℕ) (s t : Store)
    → SameGrants s t
    → IsDone payment_id sub s
    → IsDone payment_id sub t
unfolding subscription_for latest_of
IsDone-same payment_id sub s t (a, b, c) (row, e, d, k) =
    (row, rw a e, d, moved_answer row.1 s t sub b k)

fulfilled-IsDone :
    (payment_id : String) (id : ℕ) (tx : BkashTransaction) (r : ExecuteResult) (s : Store)
    (out : Outcome) (sub : ℕ)
    → find_payment payment_id s ≡ some (id, tx)
    → (fulfil_payment id tx r s).0 ≡ ok out
    → Names out sub
    → IsDone payment_id sub (fulfil_payment id tx r s).1
fulfilled-IsDone payment_id id tx r s out sub e h named =
    elim (Option-cases (lookup tx.plan_id s.plans)) [
      | inl f ↦ cc (rw (fulfil_payment_planless id tx r s f) at h)
      | inr (plan, f) ↦ elim (Option-cases (lookup tx.user_id s.users)) [
        | inl u ↦ cc (rw (fulfil_payment_userless id tx r plan s f u) at h)
        | inr (user, u) ↦
            let (txs, subs, _) = fulfil_payment-tables id tx r plan user s f u in
            let same : s.next_id ≡ sub =
              rw (fulfil_payment-fresh id tx r plan user s f u out h) at named in
            let (w, found) =
              lookup-insert-some s.next_id
                (new_subscription (grant_of tx plan) (granted_end (grant_of tx plan) user s) s.now)
                s.subscriptions in
            (
              (id, completed r s.next_id tx),
              rw txs (
                  find-modify (has_payment_id payment_id) id (completed r s.next_id) s.bkash_txs
                    (λ i v. refl) e),
              refl,
              recorded_answer tx r s.next_id sub (fulfil_payment id tx r s).1 w same
                  (rw subs found),
            )
      ]
    ]

module _ (g : Gateway) where
  settle_payment-IsDone :
      (payment_id : String) (r : ExecuteResult) (s : Store) (out : Outcome) (sub : ℕ)
      → (settle_payment g payment_id r s).0 ≡ ok out
      → Names out sub
      → IsDone payment_id sub (settle_payment g payment_id r s).1
  unfolding settle_payment
  settle_payment-IsDone payment_id r s out sub h named =
      elim (Option-cases (find_payment payment_id s)) [
        | inl e ↦ cc (rw e at h)
        | inr ((id, tx), e) ↦ elim (Bool-cases (is_completed tx.status)) [
          | inl a ↦ (
            (id, tx),
            rw (e, a, existing-same tx s) e,
            a,
            rw (e, a, existing-same tx s) (existing-Names tx s out sub (rw (e, a) at h) named),
          )
          | inr a ↦ elim (Bool-cases (is_other_amount (paid_amount g r) tx.amount)) [
            | inl b ↦ absurd (mismatch-Names out sub (rw (e, a, b) at h) named)
            | inr b ↦
                rw (e, a, b)
                  (fulfilled-IsDone payment_id id tx r s out sub e (rw (e, a, b) at h) named)
          ]
        ]
      ]

  fulfil_done :
      (payment_id : String) (r : ExecuteResult) (s : Store) (sub : ℕ)
      → IsDone payment_id sub s
      → fulfil g payment_id r s ≡ (ok sub, s)
  unfolding fulfil settle_payment
  fulfil_done payment_id r s sub (row, e, a, d) = rw (e, a, d)

  -- A payment that was fulfilled is fulfilled once: fulfilling it again, whatever bKash answers,
  -- gives the same subscription and changes nothing.
  pub fulfil_again :
      (payment_id : String) (r r' : ExecuteResult) (s : Store) {sub : ℕ}
      → (fulfil g payment_id r s).0 ≡ ok sub
      → let t = (fulfil g payment_id r s).1 in fulfil g payment_id r' t ≡ (ok sub, t)
  unfolding fulfil
  fulfil_again payment_id r r' s {sub} h =
      let (out, p, q) = bind-ok (transaction (settle_payment g payment_id r)) report s h in
      let u = (transaction (settle_payment g payment_id r) s).1 in
      let c = transaction-ok (settle_payment g payment_id r) s p in
      let named = report-Names out u sub (rw q at h) in
      let done = settle_payment-IsDone payment_id r s out sub (rw c at p) named in
      fulfil_done payment_id r' (fulfil g payment_id r s).1 sub (
        rw q (
          IsDone-same payment_id sub u (report out u).1
            (report-SameGrants u out u (refl, refl, refl)) (rw c done)))
