-- ===== src/Billing/Release.antt =====
-- The sums of the lines that OnOrderDelivered (internal/service/billing_service.go) books.
use campusassistant_api.Base.{
  +ℤ_zero, zero_+ℤ, ◌⊎◌, ℕ, ℤ, pos, ◌+ℤ◌, ◌-ℤ◌, int_laws, ◌≡◌, refl, Bool, true, false, inl, inr,
  Bool-cases, ◌==◌, ==_iff, List, [], ◌∷◌, if◌then◌else◌, ◌∙◌, ap, sym,
}
use campusassistant_api.Base.Table.{Table}
use campusassistant_api.Domain.{Float64, OrderItem, Merchant, Account, merchant_account}
use campusassistant_api.Ledger.Posting.{lines_balance, line_balance, lines_balance-append}
use campusassistant_api.Billing.{
  gross_of, subtotal_of, Share, insert_sorted, sort_shares, share_lines, all_share_lines,
  is_platform_merchant, total_gross, release_lines,
}
use campusassistant_api.Billing.Delivery.{commission_for, add_item, shares_from, shares_of}

module _ (round_share : ℤ → Float64 → ℤ) where
  -- The sale of one item less the fee on it.
  abbrev pub net_of_item : OrderItem → ℤ
  net_of_item it =
      gross_of it -ℤ commission_for round_share (gross_of it) it.commission_rate_snapshot

  -- What a seller earns from the items of an order, item by item.
  unfoldable pub net_of : ℕ → List OrderItem → ℤ
  net_of m [] = pos 0
  net_of m (it ∷ its) =
      let rest = net_of m its in if it.merchant_id == m then net_of_item it +ℤ rest else rest

-- The same from a table of shares.
unfoldable pub earned : ℕ → Table Share → ℤ
earned m [] = pos 0
earned m ((id, sh) ∷ t) =
    let rest = earned m t in if id == m then (sh.gross -ℤ sh.commission) +ℤ rest else rest

earned-insert_sorted :
    (m : ℕ) (e : ℕ × Share) (t : Table Share) → earned m (insert_sorted e t) ≡ earned m (e ∷ t)
unfolding insert_sorted earned
earned-insert_sorted m e [] = refl
earned-insert_sorted m (i, e) ((j, f) ∷ t) = grind (int_laws, earned-insert_sorted m (i, e) t)

earned-cons :
    (m : ℕ) (e : ℕ × Share) (t u : Table Share)
    → earned m t ≡ earned m u
    → earned m (e ∷ t) ≡ earned m (e ∷ u)
unfolding earned
earned-cons m (i, e) t u h = rw h

earned-sort_shares : (m : ℕ) (t : Table Share) → earned m (sort_shares t) ≡ earned m t
unfolding sort_shares
earned-sort_shares m [] = refl
earned-sort_shares m (e ∷ t) =
    earned-insert_sorted m e (sort_shares t)
    ∙ earned-cons m e (sort_shares t) t (earned-sort_shares m t)

total_gross-insert_sorted :
    (e : ℕ × Share) (t : Table Share) → total_gross (insert_sorted e t) ≡ e.1.gross +ℤ total_gross t
unfolding insert_sorted total_gross
total_gross-insert_sorted e [] = refl
total_gross-insert_sorted (i, e) ((j, f) ∷ t) = grind (int_laws, total_gross-insert_sorted (i, e) t)

total_gross-sort_shares : (t : Table Share) → total_gross (sort_shares t) ≡ total_gross t
unfolding sort_shares total_gross
total_gross-sort_shares [] = refl
total_gross-sort_shares ((i, e) ∷ t) =
    total_gross-insert_sorted (i, e) (sort_shares t)
    ∙ ap (λ n. e.gross +ℤ n) (total_gross-sort_shares t)

module _ (round_share : ℤ → Float64 → ℤ) where
  earned-add_item :
      (m : ℕ) (it : OrderItem) (t : Table Share)
      → earned m (add_item round_share it t) ≡ earned m t +ℤ net_of round_share m (it ∷ [])
  unfolding earned add_item net_of
  earned-add_item m it [] = grind int_laws
  earned-add_item m it ((id, sh) ∷ t) = elim (Bool-cases (id == it.merchant_id)) [
    | inl e ↦ rw (e, (==_iff id it.merchant_id).0 e) (grind int_laws)
    | inr e ↦ rw e (grind (int_laws, earned-add_item m it t))
  ]

  total_gross-add_item :
      (it : OrderItem) (t : Table Share)
      → total_gross (add_item round_share it t) ≡ total_gross t +ℤ gross_of it
  unfolding total_gross add_item
  total_gross-add_item it [] = omega int_laws
  total_gross-add_item it ((id, sh) ∷ t) = grind (int_laws, total_gross-add_item it t)

  earned_step :
      (m : ℕ) (it : OrderItem) (its : List OrderItem) (t : Table Share)
      → earned m (add_item round_share it t) +ℤ net_of round_share m its
        ≡ earned m t +ℤ net_of round_share m (it ∷ its)
  unfolding net_of
  earned_step m it its t = rw (earned-add_item m it t) (grind int_laws)

  earned-shares_from :
      (m : ℕ) (t : Table Share) (its : List OrderItem)
      → earned m (shares_from round_share t its) ≡ earned m t +ℤ net_of round_share m its
  unfolding shares_from
  earned-shares_from m t [] = unfold net_of in sym (+ℤ_zero (earned m t))
  earned-shares_from m t (it ∷ its) =
      earned-shares_from m (add_item round_share it t) its ∙ earned_step m it its t

  total_gross-shares_from :
      (t : Table Share) (its : List OrderItem)
      → total_gross (shares_from round_share t its) ≡ total_gross t +ℤ subtotal_of its
  unfolding shares_from subtotal_of
  total_gross-shares_from t [] = sym (+ℤ_zero (total_gross t))
  total_gross-shares_from t (it ∷ its) =
      total_gross-shares_from (add_item round_share it t) its
      ∙ (rw (total_gross-add_item it t) (omega int_laws))

  -- Grouping the items by seller and sorting lose nothing of what each seller earns.
  pub earned-shares_of :
      (m : ℕ) (its : List OrderItem)
      → earned m (shares_of round_share its) ≡ net_of round_share m its
  unfolding shares_of
  earned-shares_of m its =
      earned-sort_shares m (shares_from round_share [] its)
      ∙ earned-shares_from m [] its
      ∙ (unfold earned in zero_+ℤ (net_of round_share m its))

  -- Nor of the order's gross.
  pub total_gross-shares_of :
      (its : List OrderItem) → total_gross (shares_of round_share its) ≡ subtotal_of its
  unfolding shares_of
  total_gross-shares_of its =
      total_gross-sort_shares (shares_from round_share [] its)
      ∙ total_gross-shares_from [] its
      ∙ (unfold total_gross in zero_+ℤ (subtotal_of its))

share_lines_of_merchant :
    (m : ℕ) (platform : Bool) (id : ℕ) (sh : Share)
    → (id == m) ≡ false ⊎ (platform ≡ false)
    → lines_balance (merchant_account m) (share_lines platform true id sh)
      ≡ (if id == m then sh.gross -ℤ sh.commission else pos 0)
unfolding share_lines lines_balance line_balance
share_lines_of_merchant m platform id sh h = grind int_laws

share_lines_of_escrow :
    (platform : Bool) (id : ℕ) (sh : Share)
    → lines_balance Account.orders_escrow (share_lines platform true id sh) ≡ pos 0
unfolding share_lines lines_balance line_balance
share_lines_of_escrow true id sh = omega int_laws
share_lines_of_escrow false id sh = omega int_laws

module _ (ms : Table Merchant) where
  not_both :
      (m id : ℕ)
      → is_platform_merchant ms m ≡ false
      → ((id == m) ≡ false) ⊎ (is_platform_merchant ms id ≡ false)
  not_both m id h = elim (Bool-cases (id == m)) [
    | inl e ↦ inr (rw ((==_iff id m).0 e) h)
    | inr e ↦ inl e
  ]

  earned_lines :
      (m : ℕ) (t : Table Share)
      → is_platform_merchant ms m ≡ false
      → lines_balance (merchant_account m) (all_share_lines ms true t) ≡ earned m t
  unfolding all_share_lines earned
  earned_lines m [] h = unfold lines_balance in refl
  earned_lines m ((id, sh) ∷ t) h =
      lines_balance-append (merchant_account m)
        (share_lines (is_platform_merchant ms id) true id sh) (all_share_lines ms true t)
      ∙ (rw
          (
            share_lines_of_merchant m (is_platform_merchant ms id) id sh (not_both m id h),
            earned_lines m t h,
          )
          (grind int_laws))

  escrow_lines :
      (t : Table Share) → lines_balance Account.orders_escrow (all_share_lines ms true t) ≡ pos 0
  unfolding all_share_lines
  escrow_lines [] = unfold lines_balance in refl
  escrow_lines ((id, sh) ∷ t) =
      lines_balance-append Account.orders_escrow
        (share_lines (is_platform_merchant ms id) true id sh) (all_share_lines ms true t)
      ∙ (rw (share_lines_of_escrow (is_platform_merchant ms id) id sh, escrow_lines t)
          (omega int_laws))

  pub release_lines_merchant :
      (m : ℕ) (t : Table Share)
      → is_platform_merchant ms m ≡ false
      → lines_balance (merchant_account m) (release_lines ms true t) ≡ earned m t
  unfolding release_lines
  release_lines_merchant m t h =
      lines_balance-append (merchant_account m) (all_share_lines ms true t) _
      ∙ (rw (earned_lines m t h) (unfold lines_balance line_balance in omega int_laws))

  pub release_lines_escrow :
      (t : Table Share)
      → lines_balance Account.orders_escrow (release_lines ms true t) ≡ pos 0 -ℤ total_gross t
  unfolding release_lines
  release_lines_escrow t =
      lines_balance-append Account.orders_escrow (all_share_lines ms true t) _
      ∙ (rw (escrow_lines t) (unfold lines_balance line_balance in omega int_laws))
