-- ===== src/Checkout/Pricing.antt =====
-- What an order of Checkout (internal/delivery/http/handler/order_handler.go) costs.
use Prim.Native.String.{String}
use mathlib.Core.Option
use mathlib.Core.List.{append-nil, append_assoc}
use campusassistant_api.Base.{
  wrap, wrap_zero, wrap-add_wrap, wrap-add_wrap_right, +ℤ_zero, +ℤ_comm, +ℤ_assoc, ℕ, ℤ, pos, ◌+ℤ◌,
  ◌*ℤ◌, int_laws, arith, ◌≡◌, refl, ◌⊎◌, inl, inr, ap, ◌∙◌, sym, Bool, true, false, ◌==◌, ==_iff,
  if◌then◌else◌, Bool-cases, Option-cases, Option, none, some, List, [], ◌∷◌, ◌++◌, exists,
}
use campusassistant_api.Base.Float.{Float64, zero_float}
use campusassistant_api.Base.Table.{Table, lookup, insert, lookup-insert}
use campusassistant_api.Domain.{
  OrderItem, Product, Merchant, Store, Err, ok, err, product_not_found,
}
use campusassistant_api.Commission.Fee.{effective_rate_lem}
use campusassistant_api.Checkout.{
  CheckoutItem, Cart, unless, unless_deleted, find_product, find_seller, charge_once, order_line,
  delivery_charge_for, charge_seller, sum_charges, add_line, rate_of, add_each,
}

-- No key stands twice.
abbrev pub DistinctKeys : Table ℤ → Type 0
DistinctKeys [] = Unit
DistinctKeys ((k, v) ∷ t) = (lookup k t ≡ none) × DistinctKeys t

DistinctKeys-insert :
    (k : ℕ) (v : ℤ) (t : Table ℤ) → lookup k t ≡ none → DistinctKeys t → DistinctKeys (insert k v t)
DistinctKeys-insert k v [] h d = (refl, tt)
DistinctKeys-insert k v ((j, w) ∷ t) h (a, d) = elim (Bool-cases (j == k)) [
  | inl e ↦ cc (rw e at h)
  | inr e ↦
      let fresh : lookup k t ≡ none = rw e at h in
      let other : (k == j) ≡ false = ground arith in
      (rw (lookup-insert j k v t fresh, other) a, DistinctKeys-insert k v t fresh d)
]

DistinctKeys-charge_once :
    (k : ℕ) (v : ℤ) (t : Table ℤ) → DistinctKeys t → DistinctKeys (charge_once k v t)
DistinctKeys-charge_once k v t d = elim (Option-cases (lookup k t)) [
  | inl e ↦ rw e (DistinctKeys-insert k v t e d)
  | inr (w, e) ↦ rw e d
]

abbrev pub charge_or : Option ℤ → Option ℤ → Option ℤ
charge_or none b = b
charge_or (some a) b = some a

charge_or-none : (a : Option ℤ) → a ≡ charge_or a none
charge_or-none none = refl
charge_or-none (some v) = refl

charge_or_assoc : (a b c : Option ℤ) → charge_or (charge_or a b) c ≡ charge_or a (charge_or b c)
charge_or_assoc none b c = refl
charge_or_assoc (some v) b c = refl

charge_or_again :
    (a c : Option ℤ) (b : Bool) → charge_or (charge_or a c) (if b then c else none) ≡ charge_or a c
charge_or_again (some v) c b = refl
charge_or_again none (some v) b = refl
charge_or_again none none true = refl
charge_or_again none none false = refl

lookup-charge_once :
    (j k : ℕ) (v : ℤ) (t : Table ℤ)
    → lookup j (charge_once k v t) ≡ charge_or (lookup j t) (if k == j then some v else none)
lookup-charge_once j k v t = elim (Option-cases (lookup k t)) [
  | inl e ↦
      rw (e, lookup-insert j k v t e)
        (elim (Bool-cases (k == j)) [
          | inl h ↦
              let none_yet : lookup j t ≡ none = rw ((==_iff k j).0 h) at e in rw (h, none_yet) refl
          | inr h ↦ rw h (charge_or-none (lookup j t))
        ])
  | inr (w, e) ↦ rw e (elim (Bool-cases (k == j)) [
    | inl h ↦ let charged : lookup j t ≡ some w = rw ((==_iff k j).0 h) at e in rw charged refl
    | inr h ↦ rw h (charge_or-none (lookup j t))
  ])
]

-- The loop's sum wraps at each line, or all at once.
add_line_total : (a b c : ℤ) → wrap (wrap (a +ℤ wrap b) +ℤ c) ≡ wrap (a +ℤ (b +ℤ c))
add_line_total a b c =
    wrap-add_wrap (a +ℤ wrap b) c
    ∙ ap wrap (ap (λ x. x +ℤ c) (+ℤ_comm a (wrap b)) ∙ +ℤ_assoc (wrap b) a c)
    ∙ wrap-add_wrap b (a +ℤ c)
    ∙ ap wrap (omega int_laws)

unless-some :
    (b : Bool) (q : Product) {p : Product} → unless b q ≡ some p → (b ≡ false) × (some q ≡ some p)
unless-some true q h = cc
unless-some false q h = (refl, h)

unless_deleted-some :
    (o : Option Product) {p : Product}
    → unless_deleted o ≡ some p
    → (o ≡ some p) × (p.is_deleted ≡ false)
unless_deleted-some none h = cc
unless_deleted-some (some q) {p} h =
    let (live, same) = unless-some q.is_deleted q h in
    let equal : q ≡ p = cc in (same, ap (λ (r : Product). r.is_deleted) (sym equal) ∙ live)

-- What the lines of an order cost.
abbrev pub sum_items : List OrderItem → ℤ
sum_items [] = pos 0
sum_items (it ∷ its) = it.unit_price *ℤ it.quantity +ℤ sum_items its

-- What all sellers charge.
abbrev pub total_charges : Table ℤ → ℤ
total_charges [] = pos 0
total_charges ((id, charge) ∷ t) = charge +ℤ total_charges t

pub sum_charges_lem : (t : Table ℤ) → sum_charges t ≡ wrap (total_charges t)
sum_charges_lem [] = sym wrap_zero
sum_charges_lem ((id, charge) ∷ t) =
    rw (sum_charges_lem t) (wrap-add_wrap_right charge (total_charges t))

abbrev pub is_by : ℕ → OrderItem → Bool
is_by id it = it.merchant_id == id

module _ (same_city : String → String → Bool) (days_left : ℤ → ℤ) (city : String) (s : Store) where
  -- What a seller charges for the delivery of an order to the city.
  abbrev pub charge_of : ℕ → Option ℤ
  charge_of id = Option.map (λ m. delivery_charge_for same_city m city) (find_seller id s)

  -- The line of an item of the request: the product's own row gives the price and the seller.
  abbrev pub IsLine : CheckoutItem → OrderItem → Type 0
  IsLine ci it =
      (p : Product) × (lookup ci.product_id s.products ≡ some p)
      × (p.is_deleted ≡ false)
      × (it.product_id ≡ ci.product_id)
      × (it.quantity ≡ ci.quantity)
      × (it.product_title ≡ p.title)
      × (it.unit_price ≡ p.price)
      × (it.merchant_id ≡ p.merchant_id)
      × (rate_of days_left (find_seller p.merchant_id s) s ≡ (ok it.commission_rate_snapshot, s))

  abbrev pub AreLines : List CheckoutItem → List OrderItem → Type 0
  AreLines [] [] = Unit
  AreLines (ci ∷ cis) (it ∷ its) = IsLine ci it × AreLines cis its
  AreLines _ _ = ⊥

  -- The charge that the items make of a seller.
  abbrev pub charged : List OrderItem → ℕ → Option ℤ
  charged its id = if exists (is_by id) its then charge_of id else none

  -- What the loop adds to a cart.
  abbrev pub Adds : List CheckoutItem → Cart → Cart → Type 0
  Adds cis cart cart' =
      (its : List OrderItem) × AreLines cis its
      × (cart'.items ≡ cart.items ++ its)
      × (wrap cart'.total_amount ≡ wrap (cart.total_amount +ℤ sum_items its))
      × ((id : ℕ)
          → lookup id cart'.merchant_delivery
            ≡ charge_or (lookup id cart.merchant_delivery) (charged its id))
      × (DistinctKeys cart.merchant_delivery → DistinctKeys cart'.merchant_delivery)

  charge_seller-lookup :
      (id k : ℕ) (t : Table ℤ)
      → lookup id (charge_seller same_city city k (find_seller k s) t)
        ≡ charge_or (lookup id t) (if k == id then charge_of id else none)
  charge_seller-lookup id k t = elim (Option-cases (find_seller k s)) [
    | inl e ↦ elim (Bool-cases (k == id)) [
      | inl h ↦
          let nobody : find_seller id s ≡ none = rw ((==_iff k id).0 h) at e in
          rw (e, h, nobody) (charge_or-none (lookup id t))
      | inr h ↦ rw (e, h) (charge_or-none (lookup id t))
    ]
    | inr (m, e) ↦ elim (Bool-cases (k == id)) [
      | inl h ↦
          let found : find_seller id s ≡ some m = rw ((==_iff k id).0 h) at e in
          let c = lookup-charge_once id k (delivery_charge_for same_city m city) t in
          rw (e, h, found) (rw h at c)
      | inr h ↦
          let c = lookup-charge_once id k (delivery_charge_for same_city m city) t in
          rw (e, h) (rw h at c)
    ]
  ]

  charge_seller-DistinctKeys :
      (k : ℕ) (seller : Option Merchant) (t : Table ℤ)
      → DistinctKeys t
      → DistinctKeys (charge_seller same_city city k seller t)
  charge_seller-DistinctKeys k none t d = d
  charge_seller-DistinctKeys k (some m) t d =
      DistinctKeys-charge_once k (delivery_charge_for same_city m city) t d

  rate_of-reads :
      (seller : Option Merchant) → (r : Float64) × (rate_of days_left seller s ≡ (ok r, s))
  rate_of-reads none = (zero_float, refl)
  rate_of-reads (some m) = elim (effective_rate_lem days_left m s) [
    | inl (p, _, h) ↦ (p.promo_rate, h)
    | inr (_, h) ↦ (m.commission_rate, h)
  ]

  charged-cons :
      (it : OrderItem) (its : List OrderItem) (a : Option ℤ) (id : ℕ)
      → charge_or
          (charge_or a (if it.merchant_id == id then charge_of id else none))
          (charged its id)
        ≡ charge_or a (charged (it ∷ its) id)
  charged-cons it its a id = elim (Bool-cases (it.merchant_id == id)) [
    | inl h ↦ rw h (charge_or_again a (charge_of id) (exists (is_by id) its))
    | inr h ↦ rw (h, ← charge_or-none a) refl
  ]

  pub add_each-Adds :
      (cis : List CheckoutItem) (cart : Cart)
      → ((cart' : Cart) × (add_each same_city days_left city cis cart s ≡ (ok cart', s))
          × Adds cis cart cart')
        ⊎ ((e : Err) × (add_each same_city days_left city cis cart s ≡ (err e, s)))
  unfolding add_each
  add_each-Adds [] cart = inl (
    cart,
    refl,
    (
      [],
      tt,
      sym (append-nil cart.items),
      rw (+ℤ_zero cart.total_amount) refl,
      (λ id. charge_or-none (lookup id cart.merchant_delivery)),
      (λ d. d),
    ),
  )
  add_each-Adds (ci ∷ cis) cart = elim (Option-cases (find_product ci.product_id s)) [
    | inl e ↦ inr (product_not_found, rw e refl)
    | inr (p, e) ↦
        let seller = find_seller p.merchant_id s in
        let (rate, h) = rate_of-reads seller in
        let (found, live) = unless_deleted-some (lookup ci.product_id s.products) e in
        elim (add_each-Adds cis (add_line same_city city ci p seller rate cart)) [
          | inr (x, k) ↦ inr (x, rw (e, h) k)
          | inl (cart', k, (its, a, b, c, d, u)) ↦
              let it = order_line ci p rate in
              inl (
                cart',
                rw (e, h) k,
                (
                  it ∷ its,
                  ((p, found, live, refl, refl, refl, refl, refl, h), a),
                  b ∙ append_assoc cart.items (it ∷ []) its,
                  c ∙ add_line_total cart.total_amount (p.price *ℤ ci.quantity) (sum_items its),
                  (λ id.
                      d id
                      ∙ (ap (λ x. charge_or x (charged its id))
                            (charge_seller-lookup id p.merchant_id cart.merchant_delivery)
                          ∙ charged-cons it its (lookup id cart.merchant_delivery) id)),
                  (λ v.
                      u (charge_seller-DistinctKeys p.merchant_id seller cart.merchant_delivery v)),
                ),
              )
        ]
  ]
