-- ===== src/Market/Closing.antt =====
-- markTerminal of internal/service/marketplace_payment_service.go.
use Prim.Native.String.{String}
use text.Mathlib.Text.{◌==◌ as str_eq}
use campusassistant_api.Base.{ℕ, ◌≡◌, inl, inr, ◌==◌, false, Bool-cases, some, [], ◌∷◌, map}
use campusassistant_api.Base.Table.{Table, lookup}
use campusassistant_api.Domain.{BkashStatus, is_initiated, OrderTransaction, Store}
use campusassistant_api.Market.{closed, mark_terminal}

first_row : {v w : OrderTransaction} → some v ≡ some w → v ≡ w
first_row h = cc

lookup-closed :
    (payment_id : String) (status : BkashStatus) (trx_id raw : String) (k : ℕ)
    (ot : OrderTransaction) (t : Table OrderTransaction)
    → lookup k t ≡ some ot
    → is_initiated ot.status ≡ false
    → lookup k (map (closed payment_id status trx_id raw) t) ≡ some ot
lookup-closed payment_id status trx_id raw k ot [] h shut = cc
lookup-closed payment_id status trx_id raw k ot ((i, v) ∷ t) h shut = elim (Bool-cases (i == k)) [
  | inr e ↦ rw e (lookup-closed payment_id status trx_id raw k ot t (rw e at h) shut)
  | inl e ↦
      let same : v ≡ ot = first_row (rw e at h) in
      rw (e, same)
        (elim (Bool-cases (str_eq ot.payment_id payment_id)) [
          | inl f ↦ rw (f, shut)
          | inr f ↦ rw f
        ])
]

-- Closing a payment never touches one that is completed, flagged, refunded or closed already.
pub mark_terminal_keeps :
    (payment_id : String) (status : BkashStatus) (trx_id raw : String) (k : ℕ)
    (ot : OrderTransaction) (s : Store)
    → lookup k s.order_txs ≡ some ot
    → is_initiated ot.status ≡ false
    → lookup k (mark_terminal payment_id status trx_id raw s).order_txs ≡ some ot
unfolding mark_terminal
mark_terminal_keeps payment_id status trx_id raw k ot s h shut =
    lookup-closed payment_id status trx_id raw k ot s.order_txs h shut
