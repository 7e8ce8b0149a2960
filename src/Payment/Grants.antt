-- ===== src/Payment/Grants.antt =====
-- fulfil of internal/service/payment_service.go, and who is Pro.
use Prim.Native.String.{String}
use campusassistant_api.Base.{ℕ, ◌≡◌, ◌⊎◌, false, some}
use campusassistant_api.Base.Table.{lookup, insert}
use campusassistant_api.Domain.{BkashTransaction, SubscriptionPlan, User, is_completed, Store}
use campusassistant_api.Gateway.{Gateway, ExecuteResult, paid_amount}
use campusassistant_api.Market.{is_other_amount}
use campusassistant_api.Subscription.{save_grant, granted_end, new_subscription}
use campusassistant_api.Payment.{find_payment, grant_of}

-- What the payment must be for Pro to be granted.
abbrev pub MayGrant :
    Gateway
    → String
    → ExecuteResult
    → Store
    → ℕ
    → BkashTransaction
    → SubscriptionPlan
    → User
    → Type 0
MayGrant g payment_id r s id tx plan user =
    (find_payment payment_id s ≡ some (id, tx))
    × (is_completed tx.status ≡ false)
    × (is_other_amount (paid_amount g r) tx.amount ≡ false)
    × (lookup tx.plan_id s.plans ≡ some plan)
    × (lookup tx.user_id s.users ≡ some user)

-- Nobody's Pro changed, or the payment's user got the one subscription that was paid for.
abbrev pub GrantsOne : Gateway → String → ExecuteResult → Store → Store → Type 0
GrantsOne g payment_id r s t =
    ((t.subscriptions ≡ s.subscriptions) × (t.users ≡ s.users))
    ⊎ ((id : ℕ) × (tx : BkashTransaction) × (plan : SubscriptionPlan) × (user : User) × MayGrant g
          payment_id r s id tx plan user
        × (t.subscriptions
            ≡ insert s.next_id
                (new_subscription (grant_of tx plan) (granted_end (grant_of tx plan) user s) s.now)
                s.subscriptions)
        × (t.users
            ≡ (save_grant (grant_of tx plan) (granted_end (grant_of tx plan) user s) s).users))
