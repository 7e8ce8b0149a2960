-- ===== src/Seller.antt =====
-- What a seller does to an order: MerchantUpdateOrderStatus of
-- internal/delivery/http/handler/order_handler.go, once the request is parsed.
pub mod Fulfilling
use campusassistant_api.Base.{ℕ, ℤ, Bool, true, false, not, ◌||◌, ◌==◌, List, exists}
use campusassistant_api.Base.Float.{Float64}
use campusassistant_api.Base.Table.{lookup}
use campusassistant_api.Domain.{
  OrderStatus, same_status, OrderItem, Order, M, Done, gets, or_fail, fail_if, merchant_not_found,
  order_not_found, forbidden, not_fulfillable, ◌>>=◌, ◌>>◌,
}
use campusassistant_api.Order.{transition}

-- `merchantAllowedStatuses`, a map.
abbrev pub merchant_allowed : OrderStatus → Bool
merchant_allowed OrderStatus.shipped = true
merchant_allowed OrderStatus.delivered = true
merchant_allowed _ = false

abbrev pub is_item_of : ℕ → OrderItem → Bool
is_item_of merchant_id it = it.merchant_id == merchant_id

abbrev pub is_unpaid_or_cancelled : Order → Bool
is_unpaid_or_cancelled o =
    same_status o.status OrderStatus.pending_payment || same_status o.status OrderStatus.cancelled

module _ (round_share : ℤ → Float64 → ℤ) where
  unfoldable pub merchant_update_order_status : ℕ → ℕ → ℕ → OrderStatus → M Done
  merchant_update_order_status user_id merchant_id order_id to = do
    found ← gets (λ s. lookup merchant_id s.merchants)
    merchant ← or_fail found merchant_not_found
    fail_if (not (merchant.user_id == user_id)) forbidden
    fail_if (not (merchant_allowed to)) forbidden
    row ← gets (λ s. lookup order_id s.orders)
    order ← or_fail row order_not_found
    fail_if (not (exists (is_item_of merchant_id) order.items)) forbidden
    fail_if (is_unpaid_or_cancelled order) not_fulfillable
    transition round_share order_id to user_id
