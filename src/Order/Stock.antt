-- ===== src/Order/Stock.antt =====
-- Stock through the loops of PlaceOrder and restockOrder (internal/service/order_service.go).
use mathlib.Core.Option
use campusassistant_api.Base.{
  ℕ, ℤ, pos, ◌+ℤ◌, ◌-ℤ◌, ◌≤ℤ◌, leb_ℤ, int_laws, arith, ◌==◌, ==_iff, ◌≡◌, refl, ◌∙◌, ap, inl, inr,
  ◌&&◌, Bool-cases, Option-cases, Option, none, some, List, [], ◌∷◌, if◌then◌else◌,
}
use campusassistant_api.Base.Table.{Table, lookup, modify, lookup-modify}
use campusassistant_api.Domain.{bind-ok, OrderItem, Product, Store, ok}
use campusassistant_api.Order.{with_stock, take_stock, take_each, restock_each}

-- How many of a product a list of items asks for.
unfoldable pub ordered : ℕ → List OrderItem → ℤ
ordered k [] = pos 0
ordered k (it ∷ its) =
    let rest = ordered k its in if it.product_id == k then it.quantity +ℤ rest else rest

-- The stock of a product that is in the table.
abbrev pub stock_of : ℕ → Table Product → Option ℤ
stock_of k ps = Option.map (λ p. p.stock) (lookup k ps)

-- The table after every item was taken.
unfoldable pub taken : List OrderItem → Table Product → Table Product
taken [] ps = ps
taken (it ∷ its) ps =
    taken its (modify it.product_id (λ q. with_stock (q.stock -ℤ it.quantity) q) ps)

pub take_stock-ok :
    (it : OrderItem) (s : Store)
    → (take_stock it s).0 ≡ ok tt
    → (p : Product) × (lookup it.product_id s.products ≡ some p)
      × (it.quantity ≤ℤ p.stock)
      × (take_stock it s ≡ (
        ok tt,
        record s {
          products = modify it.product_id (λ q. with_stock (q.stock -ℤ it.quantity) q) s.products;
        },
      ))
unfolding take_stock
take_stock-ok it s h = elim (Option-cases (lookup it.product_id s.products)) [
  | inl e ↦ cc (rw (take_stock, e) at h)
  | inr (p, e) ↦ elim (Bool-cases (p.is_published && leb_ℤ it.quantity p.stock)) [
    | inl a ↦ (p, e, ground arith, rw (take_stock, e, a))
    | inr a ↦ cc (rw (take_stock, e, a) at h)
  ]
]

stock_of-modify :
    (k id : ℕ) (n : ℤ) (ps : Table Product)
    → stock_of k (modify id (λ q. with_stock (q.stock +ℤ n) q) ps)
      ≡ (if id == k then Option.map (λ m. m +ℤ n) (stock_of k ps) else stock_of k ps)
stock_of-modify k id n ps = elim (Bool-cases (id == k)) [
  | inl e ↦ elim (Option-cases (lookup k ps)) [
    | inl f ↦ rw (lookup-modify k id (λ q. with_stock (q.stock +ℤ n) q) ps, e, f)
    | inr (p, f) ↦ rw (lookup-modify k id (λ q. with_stock (q.stock +ℤ n) q) ps, e, f)
  ]
  | inr e ↦ rw (lookup-modify k id (λ q. with_stock (q.stock +ℤ n) q) ps, e)
]

-- Restocking gives back what the items ask for.
pub stock_of-restock_each :
    (k : ℕ) (its : List OrderItem) (ps : Table Product)
    → stock_of k (restock_each its ps) ≡ Option.map (λ m. m +ℤ ordered k its) (stock_of k ps)
unfolding restock_each ordered
stock_of-restock_each k [] ps = elim (Option-cases (lookup k ps)) [
  | inl e ↦ rw e
  | inr (p, e) ↦ rw e (ap some (omega int_laws))
]
stock_of-restock_each k (it ∷ its) ps =
    let after = modify it.product_id (λ q. with_stock (q.stock +ℤ it.quantity) q) ps in
    stock_of-restock_each k its after
    ∙ (rw (stock_of-modify k it.product_id it.quantity ps) (elim (Bool-cases (it.product_id == k)) [
      | inl a ↦ elim (Option-cases (lookup k ps)) [
        | inl e ↦ rw (a, e)
        | inr (p, e) ↦ rw (a, e) (ap some (omega int_laws))
      ]
      | inr a ↦ rw a
    ]))

stock_of-modify_less :
    (k id : ℕ) (n : ℤ) (ps : Table Product)
    → stock_of k (modify id (λ q. with_stock (q.stock -ℤ n) q) ps)
      ≡ (if id == k then Option.map (λ m. m -ℤ n) (stock_of k ps) else stock_of k ps)
stock_of-modify_less k id n ps = elim (Bool-cases (id == k)) [
  | inl e ↦ elim (Option-cases (lookup k ps)) [
    | inl f ↦ rw (lookup-modify k id (λ q. with_stock (q.stock -ℤ n) q) ps, e, f)
    | inr (p, f) ↦ rw (lookup-modify k id (λ q. with_stock (q.stock -ℤ n) q) ps, e, f)
  ]
  | inr e ↦ rw (lookup-modify k id (λ q. with_stock (q.stock -ℤ n) q) ps, e)
]

-- Taking the items leaves the rest of each product's stock.
pub stock_of-taken :
    (k : ℕ) (its : List OrderItem) (ps : Table Product)
    → stock_of k (taken its ps) ≡ Option.map (λ m. m -ℤ ordered k its) (stock_of k ps)
unfolding taken ordered
stock_of-taken k [] ps = elim (Option-cases (lookup k ps)) [
  | inl e ↦ rw e
  | inr (p, e) ↦ rw e (ap some (omega int_laws))
]
stock_of-taken k (it ∷ its) ps =
    let after = modify it.product_id (λ q. with_stock (q.stock -ℤ it.quantity) q) ps in
    stock_of-taken k its after
    ∙ (rw (stock_of-modify_less k it.product_id it.quantity ps)
        (elim (Bool-cases (it.product_id == k)) [
          | inl a ↦ elim (Option-cases (lookup k ps)) [
            | inl e ↦ rw (a, e)
            | inr (p, e) ↦ rw (a, e) (ap some (omega int_laws))
          ]
          | inr a ↦ rw a
        ]))

-- Every product has a stock of zero or more.
abbrev pub Stocked : Table Product → Type 0
Stocked ps = (k : ℕ) (p : Product) → lookup k ps ≡ some p → pos 0 ≤ℤ p.stock

abbrev stock_or_zero : Option Product → ℤ
stock_or_zero none = pos 0
stock_or_zero (some p) = p.stock

Stocked-take :
    (it : OrderItem) (ps : Table Product) (p : Product)
    → lookup it.product_id ps ≡ some p
    → it.quantity ≤ℤ p.stock
    → Stocked ps
    → Stocked (modify it.product_id (λ q. with_stock (q.stock -ℤ it.quantity) q) ps)
Stocked-take it ps p found enough stocked k q h = elim (Bool-cases (it.product_id == k)) [
  | inl e ↦
      let same : it.product_id ≡ k = (==_iff it.product_id k).0 e in
      let row : lookup k ps ≡ some p = rw same at found in
      let out =
        rw (lookup-modify k it.product_id (λ r. with_stock (r.stock -ℤ it.quantity) r) ps, e, row)
          at h in
      let val : p.stock -ℤ it.quantity ≡ q.stock = ap stock_or_zero out in
      rw (← val) (omega int_laws)
  | inr e ↦
      stocked k q
        (rw (lookup-modify k it.product_id (λ r. with_stock (r.stock -ℤ it.quantity) r) ps, e) at h)
]

-- A list of items that was taken: what became of the store.
pub take_each-ok :
    (its : List OrderItem) (s : Store)
    → (take_each its s).0 ≡ ok tt
    → (take_each its s ≡ (ok tt, record s { products = taken its s.products }))
      × (Stocked s.products → Stocked (taken its s.products))
unfolding take_each taken
take_each-ok [] s h = (refl, λ k. k)
take_each-ok (it ∷ its) s h =
    let (_, p, _) = bind-ok (take_stock it) (λ _. take_each its) s h in
    let (row, found, enough, q) = take_stock-ok it s p in
    let (e, k) = take_each-ok its _ (rw q at h) in
    (rw q e, λ stocked. k (Stocked-take it s.products row found enough stocked))
