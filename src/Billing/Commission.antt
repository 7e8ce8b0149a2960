-- ===== src/Billing/Commission.antt =====
-- The shares of commissionFor and OnOrderDelivered (internal/service/billing_service.go): their
-- bounds, and the lines of a release.
use campusassistant_api.Base.{
  ℕ, ℤ, pos, ◌≤ℤ◌, int_laws, arith, ◌≡◌, false, inl, inr, Bool-cases, ◌==◌, List, [], ◌∷◌, All, ltb,
}
use campusassistant_api.Base.Table.{Table}
use campusassistant_api.Domain.{Float64, OrderItem}
use campusassistant_api.Ledger.{Line, is_invalid}
use campusassistant_api.Billing.{gross_of, Share, insert_sorted, sort_shares}
use campusassistant_api.Billing.Delivery.{commission_for, add_item, shares_from, shares_of}

-- The items of an order whose prices and quantities are not negative.
abbrev pub AreSales : List OrderItem → Type 0
AreSales = All (λ it. pos 0 ≤ℤ gross_of it)

-- The fee is between nothing and the whole.
abbrev pub IsShare : ℕ × Share → Type 0
IsShare (_, sh) = (pos 0 ≤ℤ sh.commission) × (sh.commission ≤ℤ sh.gross)

module _ (round_share : ℤ → Float64 → ℤ) where
  -- Whatever the rate is and however Go rounds, the commission on a gross that is not negative
  -- stays between zero and that gross.
  pub commission_for_bounds :
      (gross : ℤ) (rate : Float64)
      → pos 0 ≤ℤ gross
      → (pos 0 ≤ℤ commission_for round_share gross rate)
        × (commission_for round_share gross rate ≤ℤ gross)
  unfolding commission_for
  commission_for_bounds gross rate h = ground arith

  add_item-IsShare :
      (it : OrderItem) (t : Table Share)
      → pos 0 ≤ℤ gross_of it
      → All IsShare t
      → All IsShare (add_item round_share it t)
  unfolding add_item
  add_item-IsShare it [] p h =
      let (lo, hi) = commission_for_bounds (gross_of it) it.commission_rate_snapshot p in
      ((omega int_laws, omega int_laws), tt)
  add_item-IsShare it ((id, sh) ∷ t) p h = elim (Bool-cases (id == it.merchant_id)) [
    | inl e ↦
        let (lo, hi) = commission_for_bounds (gross_of it) it.commission_rate_snapshot p in
        rw e ((omega int_laws, omega int_laws), h.1)
    | inr e ↦ rw e (h.0, add_item-IsShare it t p h.1)
  ]

  shares_from-IsShare :
      (t : Table Share) (its : List OrderItem)
      → AreSales its
      → All IsShare t
      → All IsShare (shares_from round_share t its)
  unfolding shares_from
  shares_from-IsShare t [] p h = h
  shares_from-IsShare t (it ∷ its) p h =
      shares_from-IsShare (add_item round_share it t) its p.1 (add_item-IsShare it t p.0 h)

insert_sorted-IsShare :
    (e : ℕ × Share) (t : Table Share) → IsShare e → All IsShare t → All IsShare (insert_sorted e t)
unfolding insert_sorted
insert_sorted-IsShare e [] p h = (p, tt)
insert_sorted-IsShare e (f ∷ t) p h = elim (Bool-cases (ltb e.0 f.0)) [
  | inl q ↦ rw q (p, h)
  | inr q ↦ rw q (h.0, insert_sorted-IsShare e t p h.1)
]

sort_shares-IsShare : (t : Table Share) → All IsShare t → All IsShare (sort_shares t)
unfolding sort_shares
sort_shares-IsShare [] h = tt
sort_shares-IsShare (e ∷ t) h =
    insert_sorted-IsShare e (sort_shares t) h.0 (sort_shares-IsShare t h.1)

pub shares_of-IsShare :
    (round_share : ℤ → Float64 → ℤ) (its : List OrderItem)
    → AreSales its
    → All IsShare (shares_of round_share its)
unfolding shares_of
shares_of-IsShare round_share its p =
    sort_shares-IsShare (shares_from round_share [] its)
      (shares_from-IsShare round_share [] its p tt)

abbrev AreValid : List Line → Type 0
AreValid = All (λ l. is_invalid l ≡ false)
