-- ===== src/Seller/Fulfilling.antt =====
-- Which orders MerchantUpdateOrderStatus (internal/delivery/http/handler/order_handler.go) moves.
use campusassistant_api.Base.{
  ℕ, ℤ, ◌≡◌, ◌≢◌, refl, ◌⊎◌, inl, inr, true, false, ◌==◌, ==_iff, Bool-cases, Option-cases, some,
  exists, Any, exists-Any, false_or,
}
use campusassistant_api.Base.Float.{Float64}
use campusassistant_api.Base.Table.{lookup}
use campusassistant_api.Domain.{OrderStatus, same_status, Order, Merchant, Store}
use campusassistant_api.Order.{can_transition, transition}
use campusassistant_api.Order.Transition.{transition-MayMove}
use campusassistant_api.Seller.{
  merchant_allowed, is_item_of, is_unpaid_or_cancelled, merchant_update_order_status,
}

-- What a seller must show of an order to move it.
abbrev pub MayFulfil : ℕ → ℕ → OrderStatus → Store → Order → Type 0
MayFulfil user_id merchant_id to s o =
    ((m : Merchant) × (lookup merchant_id s.merchants ≡ some m) × (m.user_id ≡ user_id))
    × ((to ≡ OrderStatus.shipped) ⊎ (to ≡ OrderStatus.delivered))
    × Any (λ it. it.merchant_id ≡ merchant_id) o.items
    × (o.status ≢ OrderStatus.pending_payment)

allowed_cases :
    (to : OrderStatus)
    → merchant_allowed to ≡ true
    → (to ≡ OrderStatus.shipped) ⊎ (to ≡ OrderStatus.delivered)
allowed_cases OrderStatus.shipped h = inl refl
allowed_cases OrderStatus.delivered h = inr refl
allowed_cases _ h = cc

paid_status :
    (st : OrderStatus)
    → same_status st OrderStatus.pending_payment ≡ false
    → st ≢ OrderStatus.pending_payment
paid_status st h e = cc (rw e at h)

module _ (round_share : ℤ → Float64 → ℤ) where
  -- The handler fails before it writes anything, or asks for a transition that the seller may make.
  pub update-cases :
      (user_id merchant_id id : ℕ) (to : OrderStatus) (s : Store)
      → ((merchant_update_order_status round_share user_id merchant_id id to s).1 ≡ s)
        ⊎ ((o : Order) × (lookup id s.orders ≡ some o)
            × MayFulfil user_id merchant_id to s o
            × (merchant_update_order_status round_share user_id merchant_id id to s
                ≡ transition round_share id to user_id s))
  unfolding merchant_update_order_status
  update-cases user_id merchant_id id to s = elim (Option-cases (lookup merchant_id s.merchants)) [
    | inl a ↦ inl (rw a refl)
    | inr (m, a) ↦ elim (Bool-cases (m.user_id == user_id)) [
      | inr b ↦ inl (rw (a, b) refl)
      | inl b ↦ elim (Bool-cases (merchant_allowed to)) [
        | inr c ↦ inl (rw (a, b, c) refl)
        | inl c ↦ elim (Option-cases (lookup id s.orders)) [
          | inl d ↦ inl (rw (a, b, c, d) refl)
          | inr (o, d) ↦ elim (Bool-cases (exists (is_item_of merchant_id) o.items)) [
            | inr e ↦ inl (rw (a, b, c, d, e) refl)
            | inl e ↦ elim (Bool-cases (is_unpaid_or_cancelled o)) [
              | inl f ↦ inl (rw (a, b, c, d, e, f) refl)
              | inr f ↦
                  let (unpaid, _) =
                    false_or (same_status o.status OrderStatus.pending_payment)
                      (same_status o.status OrderStatus.cancelled) f in
                  let (has, _) =
                    exists-Any (is_item_of merchant_id) (λ it. it.merchant_id ≡ merchant_id) o.items
                      (λ it. ==_iff it.merchant_id merchant_id) in
                  inr (
                    o,
                    d,
                    (
                      (m, a, (==_iff m.user_id user_id).0 b),
                      allowed_cases to c,
                      has e,
                      paid_status o.status unpaid,
                    ),
                    rw (a, b, c, d, e, f) refl,
                  )
            ]
          ]
        ]
      ]
    ]
  ]

  -- A seller's request leaves every order as it was, but that the order it names may make one move
  -- that the diagram allows, to shipped or delivered, if the seller's shop is theirs, the order has an
  -- item of that shop and does not await its payment.
  pub merchant_update_order_status-MayFulfil :
      (user_id merchant_id id : ℕ) (to : OrderStatus) (s : Store) (k : ℕ) (o : Order)
      → lookup k s.orders ≡ some o
      → let t = (merchant_update_order_status round_share user_id merchant_id id to s).1 in
        (lookup k t.orders ≡ some o)
        ⊎ ((k ≡ id)
            × (can_transition o.status to ≡ true)
            × (lookup k t.orders ≡ some (record o { status = to }))
            × MayFulfil user_id merchant_id to s o)
  merchant_update_order_status-MayFulfil user_id merchant_id id to s k o row =
      elim (update-cases user_id merchant_id id to s) [
        | inl same ↦ inl (rw same row)
        | inr (q, found, may, e) ↦ elim (transition-MayMove round_share id to user_id s k o row) [
          | inl same ↦ inl (rw e same)
          | inr (here, allowed, moved) ↦
              let there : lookup id s.orders ≡ some o = rw here at row in
              let one : q ≡ o = cc (rw there at found) in
              inr (here, allowed, rw e moved, rw one at may)
        ]
      ]
