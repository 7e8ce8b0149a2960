-- ===== src/Checkout.antt =====
-- The checkout: Checkout and deliveryChargeFor of internal/delivery/http/handler/order_handler.go.
-- `same_city` compares two cities as strings.EqualFold does after strings.TrimSpace, `days_left` is
-- the float64 computation of the commission service, and `is_bound` is gin's ShouldBindJSON.
pub mod Pricing
pub mod Placed
use Prim.Native.String.{String}
use text.Mathlib.Text.{◌==◌ as str_eq}
use campusassistant_api.Base.{
  ℕ, ℤ, pos, ◌+ℤ◌, ◌*ℤ◌, wrap, Bool, true, false, not, ◌&&◌, ◌==◌, if◌then◌else◌, Option, none,
  some, List, [], ◌∷◌, ◌++◌,
}
use campusassistant_api.Base.Float.{Float64, zero_float}
use campusassistant_api.Base.Table.{Table, lookup, insert}
use campusassistant_api.Domain.{
  OrderStatus, PaymentMethod, is_cash_on_delivery, OrderItem, Order, Address, Product, Merchant,
  Store, M, pure, gets, or_fail, fail_if, address_not_found, product_not_found, invalid_request,
  forbidden, ◌>>=◌, ◌>>◌,
}
use campusassistant_api.Commission.{effective_rate}
use campusassistant_api.Order.{place_order}

pub record CheckoutItem : Type 0 where
  pub product_id : ℕ
  pub quantity : ℤ

pub record CheckoutRequest : Type 0 where
  pub address_id : ℕ
  pub items : List CheckoutItem
  pub payment_method : PaymentMethod

-- The variables of the loop over the items.
pub record Cart : Type 0 where
  pub total_amount : ℤ
  pub items : List OrderItem
  pub merchant_delivery : Table ℤ

abbrev pub empty_cart : Cart
empty_cart = record { total_amount = pos 0; items = []; merchant_delivery = [] }

abbrev pub unless : Bool → Product → Option Product
unless true p = none
unless false p = some p

abbrev pub unless_deleted : Option Product → Option Product
unless_deleted none = none
unless_deleted (some p) = unless p.is_deleted p

-- `GetProductByID`
abbrev pub find_product : ℕ → Store → Option Product
find_product id s = unless_deleted (lookup id s.products)

-- The seller of a product, if the product names one that is found.
abbrev pub find_seller : ℕ → Store → Option Merchant
find_seller id s = if id == 0 then none else lookup id s.merchants

-- A seller that is charged already stays so.
abbrev pub charge_unless : Option ℤ → ℕ → ℤ → Table ℤ → Table ℤ
charge_unless none id charge t = insert id charge t
charge_unless (some _) id charge t = t

abbrev pub charge_once : ℕ → ℤ → Table ℤ → Table ℤ
charge_once id charge t = charge_unless (lookup id t) id charge t

abbrev pub order_line : CheckoutItem → Product → Float64 → OrderItem
order_line ci p rate = record {
  product_id = ci.product_id;
  product_title = p.title;
  merchant_id = p.merchant_id;
  quantity = ci.quantity;
  unit_price = p.price;
  commission_rate_snapshot = rate;
}

-- The loop that adds up `deliveryCharge`.
abbrev pub sum_charges : Table ℤ → ℤ
sum_charges [] = pos 0
sum_charges ((id, charge) ∷ t) = wrap (charge +ℤ sum_charges t)

abbrev pub order_method : PaymentMethod → PaymentMethod
order_method m = if is_cash_on_delivery m then m else PaymentMethod.bkash

abbrev pub first_status : PaymentMethod → OrderStatus
first_status m =
    if is_cash_on_delivery m then OrderStatus.processing else OrderStatus.pending_payment

abbrev pub order_for : ℕ → PaymentMethod → Address → Cart → ℕ → Order
order_for user_id method address cart now = record {
  created_at = now;
  buyer_id = user_id;
  shipping_recipient_name = address.recipient_name;
  shipping_phone = address.phone;
  shipping_address_line = address.address_line;
  shipping_city = address.city;
  delivery_charge = sum_charges cart.merchant_delivery;
  total_amount = wrap (cart.total_amount +ℤ sum_charges cart.merchant_delivery);
  status = first_status (order_method method);
  payment_method = order_method method;
  items = cart.items;
}

-- The rate for a line; a product without a seller pays none.
abbrev pub rate_of : (ℤ → ℤ) → Option Merchant → M Float64
rate_of days_left none = pure zero_float
rate_of days_left (some m) = effective_rate days_left m

module _ (same_city : String → String → Bool) where
  abbrev pub delivery_charge_for : Merchant → String → ℤ
  delivery_charge_for m city =
      if not (str_eq m.city "") && same_city m.city city
      then m.delivery_charge_inside
      else m.delivery_charge_outside

  abbrev pub charge_seller : String → ℕ → Option Merchant → Table ℤ → Table ℤ
  charge_seller city id none t = t
  charge_seller city id (some m) t = charge_once id (delivery_charge_for m city) t

  abbrev pub add_line : String → CheckoutItem → Product → Option Merchant → Float64 → Cart → Cart
  add_line city ci p seller rate cart = record {
    total_amount = wrap (cart.total_amount +ℤ wrap (p.price *ℤ ci.quantity));
    items = cart.items ++ order_line ci p rate ∷ [];
    merchant_delivery = charge_seller city p.merchant_id seller cart.merchant_delivery;
  }

  module _ (days_left : ℤ → ℤ) where
    unfoldable pub add_each : String → List CheckoutItem → Cart → M Cart
    add_each city [] cart = pure cart
    add_each city (ci ∷ cis) cart = do
      row ← gets (find_product ci.product_id)
      product ← or_fail row product_not_found
      seller ← gets (find_seller product.merchant_id)
      rate ← rate_of days_left seller
      add_each city cis (add_line city ci product seller rate cart)

    module _ (is_bound : CheckoutRequest → Bool) where
      unfoldable pub checkout : ℕ → CheckoutRequest → M ℕ
      checkout user_id req = do
        fail_if (not (is_bound req)) invalid_request
        row ← gets (λ s. lookup req.address_id s.addresses)
        address ← or_fail row address_not_found
        fail_if (not (address.user_id == user_id)) forbidden
        cart ← add_each address.city req.items empty_cart
        now ← gets (λ s. s.now)
        place_order (order_for user_id req.payment_method address cart now)
