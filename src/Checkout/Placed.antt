-- ===== src/Checkout/Placed.antt =====
-- The order that Checkout of internal/delivery/http/handler/order_handler.go places.
use Prim.Native.String.{String}
use campusassistant_api.Base.{
  wrap, wrap-add_wrap, wrap-add_wrap_right, Holds, wrap-Holds, zero_+ℤ, pos, ap, sym, ◌∙◌, List, ℕ,
  ℤ, ◌+ℤ◌, ◌≡◌, refl, ◌⊎◌, inl, inr, Bool, ◌==◌, ==_iff, Bool-cases, Option-cases, none, some,
}
use campusassistant_api.Base.Table.{Table, lookup}
use campusassistant_api.Domain.{
  OrderStatus, PaymentMethod, OrderItem, Order, Address, Store, ok, err, Err, invalid_request,
  address_not_found, forbidden,
}
use campusassistant_api.Order.{place_order}
use campusassistant_api.Order.Placing.{lookup-place_order, place_order_refused}
use campusassistant_api.Checkout.{
  CheckoutRequest, Cart, empty_cart, sum_charges, order_for, checkout,
}
use campusassistant_api.Checkout.Pricing.{
  DistinctKeys, sum_items, total_charges, sum_charges_lem, AreLines, Adds, charged, add_each-Adds,
}

-- Cash orders are processed at once; all others await a payment with bKash.
abbrev pub IsStarted : PaymentMethod → Order → Type 0
IsStarted PaymentMethod.cash_on_delivery o =
    (o.payment_method ≡ PaymentMethod.cash_on_delivery) × (o.status ≡ OrderStatus.processing)
IsStarted _ o = (o.payment_method ≡ PaymentMethod.bkash) × (o.status ≡ OrderStatus.pending_payment)

started :
    (user_id : ℕ) (m : PaymentMethod) (a : Address) (cart : Cart) (now : ℕ)
    → IsStarted m (order_for user_id m a cart now)
started user_id PaymentMethod.cash_on_delivery a cart now = (refl, refl)
started user_id PaymentMethod.bkash a cart now = (refl, refl)
started user_id (PaymentMethod.other n) a cart now = (refl, refl)

-- The address is copied into the order.
abbrev pub GoesTo : Address → Order → Type 0
GoesTo a o =
    (o.shipping_recipient_name ≡ a.recipient_name)
    × (o.shipping_phone ≡ a.phone)
    × (o.shipping_address_line ≡ a.address_line)
    × (o.shipping_city ≡ a.city)

-- The code's total is the one sum of the lines and the charges.
total_lem :
    (cart : Cart) (its : List OrderItem)
    → wrap cart.total_amount ≡ wrap (pos 0 +ℤ sum_items its)
    → wrap (cart.total_amount +ℤ sum_charges cart.merchant_delivery)
      ≡ wrap (sum_items its +ℤ total_charges cart.merchant_delivery)
total_lem cart its h =
    let ds = cart.merchant_delivery in
    ap (λ x. wrap (cart.total_amount +ℤ x)) (sum_charges_lem ds)
    ∙ wrap-add_wrap_right cart.total_amount (total_charges ds)
    ∙ sym (wrap-add_wrap cart.total_amount (total_charges ds))
    ∙ ap (λ x. wrap (x +ℤ total_charges ds)) (h ∙ ap wrap (zero_+ℤ (sum_items its)))
    ∙ wrap-add_wrap (sum_items its) (total_charges ds)

module _ (same_city : String → String → Bool) (days_left : ℤ → ℤ) where
  -- The order of a request: the lines are at the prices of the product table, and each seller in
  -- them charges for the delivery once.
  abbrev pub IsOrderOf : ℕ → CheckoutRequest → Store → Order → Type 0
  IsOrderOf user_id req s o =
      (a : Address) × (lookup req.address_id s.addresses ≡ some a)
      × (a.user_id ≡ user_id)
      × (o.buyer_id ≡ user_id)
      × GoesTo a o
      × AreLines same_city days_left a.city s req.items o.items
      × ((ds : Table ℤ) × DistinctKeys ds
          × ((id : ℕ) → lookup id ds ≡ charged same_city days_left a.city s o.items id)
          × Holds o.delivery_charge (total_charges ds)
          × Holds o.total_amount (sum_items o.items +ℤ total_charges ds))
      × IsStarted req.payment_method o

  order_for-IsOrderOf :
      (user_id : ℕ) (req : CheckoutRequest) (s : Store) (a : Address) (cart : Cart)
      → lookup req.address_id s.addresses ≡ some a
      → a.user_id ≡ user_id
      → Adds same_city days_left a.city s req.items empty_cart cart
      → IsOrderOf user_id req s (order_for user_id req.payment_method a cart s.now)
  order_for-IsOrderOf user_id req s a cart h k (its, lines, items, total, charges, keys) = (
    a,
    h,
    k,
    refl,
    (refl, refl, refl, refl),
    rw items lines,
    (
      cart.merchant_delivery,
      keys tt,
      rw items charges,
      wrap-Holds _ (total_charges cart.merchant_delivery) (sum_charges_lem cart.merchant_delivery),
      rw items (
          wrap-Holds _ (sum_items its +ℤ total_charges cart.merchant_delivery)
            (total_lem cart its total)),
    ),
    started user_id req.payment_method a cart s.now,
  )

  module _ (is_bound : CheckoutRequest → Bool) where
    -- Checkout fails before it writes anything, or places the order of a cart.
    pub checkout-cases :
        (user_id : ℕ) (req : CheckoutRequest) (s : Store)
        → ((e : Err) × (checkout same_city days_left is_bound user_id req s ≡ (err e, s)))
          ⊎ ((a : Address) × (cart : Cart) × (lookup req.address_id s.addresses ≡ some a)
              × (a.user_id ≡ user_id)
              × Adds same_city days_left a.city s req.items empty_cart cart
              × (checkout same_city days_left is_bound user_id req s
                  ≡ place_order (order_for user_id req.payment_method a cart s.now) s))
    unfolding checkout
    checkout-cases user_id req s = elim (Bool-cases (is_bound req)) [
      | inr e ↦ inl (invalid_request, rw e refl)
      | inl e ↦ elim (Option-cases (lookup req.address_id s.addresses)) [
        | inl f ↦ inl (address_not_found, rw (e, f) refl)
        | inr (a, f) ↦ elim (Bool-cases (a.user_id == user_id)) [
          | inr g ↦ inl (forbidden, rw (e, f, g) refl)
          | inl g ↦ elim (add_each-Adds same_city days_left a.city s req.items empty_cart) [
            | inr (x, k) ↦ inl (x, rw (e, f, g, k) refl)
            | inl (cart, k, adds) ↦
                inr (a, cart, f, (==_iff a.user_id user_id).0 g, adds, rw (e, f, g, k) refl)
          ]
        ]
      ]
    ]

    -- A checkout that answers with an order has stored it, if the next id is free: it belongs to the
    -- caller and copies the address that the request names, which is theirs; its lines are those of
    -- the request at the prices, titles and sellers of the product table and at the sellers' rates;
    -- its delivery charge is the sum of what each seller in it charges once, and its total is the
    -- lines and the delivery, each wrapped to a 64-bit int and exact if the sum is one. A cash order
    -- starts as processing and any other as a bKash order that awaits its payment.
    pub checkout-IsOrderOf :
        (user_id : ℕ) (req : CheckoutRequest) (s : Store) {id : ℕ}
        → (checkout same_city days_left is_bound user_id req s).0 ≡ ok id
        → lookup s.next_id s.orders ≡ none
        → (o : Order) × (lookup id (checkout same_city days_left is_bound user_id req s).1.orders
            ≡ some o)
          × IsOrderOf user_id req s o
    checkout-IsOrderOf user_id req s h fresh = elim (checkout-cases user_id req s) [
      | inl (e, k) ↦ cc (rw k at h)
      | inr (a, cart, found, own, adds, k) ↦
          let o = order_for user_id req.payment_method a cart s.now in
          rw k (
            o,
            lookup-place_order o s (rw k at h) fresh,
            order_for-IsOrderOf user_id req s a cart found own adds,
          )
    ]

    -- A checkout that fails changes nothing.
    pub checkout_refused :
        (user_id : ℕ) (req : CheckoutRequest) (s : Store) {e : Err}
        → (checkout same_city days_left is_bound user_id req s).0 ≡ err e
        → checkout same_city days_left is_bound user_id req s ≡ (err e, s)
    checkout_refused user_id req s h = elim (checkout-cases user_id req s) [
      | inl (e, k) ↦ let same : e ≡ _ = cc (rw k at h) in rw (k, same) refl
      | inr (a, cart, _, _, _, k) ↦
          rw k
            (place_order_refused (order_for user_id req.payment_method a cart s.now) s (rw k at h))
    ]
