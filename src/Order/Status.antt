-- ===== src/Order/Status.antt =====
-- The status diagram of an order: CanTransition (internal/service/order_service.go) against an
-- independent description of its edges.
use campusassistant_api.Base.{[], ◌∷◌, length, List, ℕ, ◌+◌, ◌≤◌, ◌<◌, ◌≡◌, ◌≢◌, ◌↔◌, true, arith}
use campusassistant_api.Domain.{OrderStatus}
use campusassistant_api.Order.{can_transition}

-- Where a status stands on the way to delivery; cancelled comes after everything.
pub stage : OrderStatus → ℕ
stage OrderStatus.pending_payment = 0
stage OrderStatus.paid = 1
stage OrderStatus.processing = 2
stage OrderStatus.shipped = 3
stage OrderStatus.delivered = 4
stage OrderStatus.cancelled = 5
stage (OrderStatus.other n) = 4

abbrev pub IsKnown : OrderStatus → Type 0
IsKnown (OrderStatus.other n) = ⊥
IsKnown _ = Unit

-- Between the six statuses of the shop, a move is allowed exactly when it goes to a later stage
-- and does not start at delivered.
pub can_transition_iff :
    (from to : OrderStatus)
    → IsKnown from
    → IsKnown to
    → (can_transition from to ≡ true) ↔ ((stage from < stage to) × (from ≢ OrderStatus.delivered))
unfolding can_transition stage
can_transition_iff OrderStatus.pending_payment OrderStatus.pending_payment h k = ground arith
can_transition_iff _ _ h k = ground arith

-- Whatever the texts are, a move goes to a later stage.
pub can_transition-stage :
    (from to : OrderStatus) → can_transition from to ≡ true → stage from < stage to
unfolding can_transition stage
can_transition-stage OrderStatus.pending_payment OrderStatus.pending_payment h = ground arith
can_transition-stage _ _ h = ground arith

-- A history: each status was reached from the one before it by an allowed move.
abbrev pub IsHistory : OrderStatus → List OrderStatus → Type 0
IsHistory from [] = Unit
IsHistory from (to ∷ tos) = (can_transition from to ≡ true) × IsHistory to tos

stage_bound : (o : OrderStatus) → stage o ≤ 5
unfolding stage
stage_bound OrderStatus.pending_payment = omega arith
stage_bound _ = omega arith

-- Every history of allowed moves is short: from any status an order enters at most five more,
-- and fewer the later the stage it starts from.
pub IsHistory-length :
    (from : OrderStatus) (tos : List OrderStatus) → IsHistory from tos → stage from + length tos ≤ 5
IsHistory-length from [] h = omega (arith, stage_bound from)
IsHistory-length from (to ∷ tos) h =
    omega (arith, can_transition-stage from to h.0, IsHistory-length to tos h.1)
