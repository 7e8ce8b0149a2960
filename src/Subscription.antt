-- ===== src/Subscription.antt =====
-- Granting Pro: subscriptionEnd and grantSubscription of internal/service/payment_service.go,
-- ComputeStatus of internal/domain/subscription.go and recomputePro of refund_service.go.
pub mod Expiry
pub mod Recomputed
use Prim.Native.String.{String}
use campusassistant_api.Base.{
  ℕ, suc, ◌+◌, ◌*◌, ltb, ℤ, Bool, true, false, not, ◌&&◌, ◌||◌, ◌==◌, if◌then◌else◌, Option, none,
  some, List, [], ◌∷◌, is_some, select, exists,
}
use mathlib.Core.Option
use campusassistant_api.Base.Table.{Table, lookup, modify, insert}
use campusassistant_api.Domain.{
  day, grace_days, SubscriptionPlan, GrantReason, UserSubscription, User, Store, M, pure, gets,
  or_fail, update, Done, record_not_found, ◌>>=◌, ◌>>◌,
}

-- `t.AddDate(0, 0, n)` in a zone without clock changes.
abbrev pub add_days : ℕ → ℕ → ℕ
add_days t n = t + n * day

-- The end that a renewal adds to: the current one if it is still ahead.
unfoldable pub renewal_base : ℕ → Bool → Option ℕ → ℕ
renewal_base now is_pro none = now
renewal_base now is_pro (some t) = if is_pro && ltb now t then t else now

-- `none` is "never ends".
unfoldable pub subscription_end : ℕ → Bool → Option ℕ → SubscriptionPlan → Option ℕ
unfolding renewal_base
subscription_end now is_pro current plan =
    if plan.is_lifetime || (is_pro && not (is_some current))
    then none
    else some (add_days (renewal_base now is_pro current) plan.duration_days)

abbrev pub is_of_user : ℕ → ℕ × UserSubscription → Bool
is_of_user user_id (_, sub) = sub.user_id == user_id

-- `Order("created_at desc").First`: of the rows created last, the one stored last.
abbrev pub later_of :
    Option (ℕ × UserSubscription) → ℕ × UserSubscription → Option (ℕ × UserSubscription)
later_of none row = some row
later_of (some best) row = if ltb row.1.created_at best.1.created_at then some best else some row

unfoldable pub newest :
    Option (ℕ × UserSubscription) → List (ℕ × UserSubscription) → Option (ℕ × UserSubscription)
newest best [] = best
newest best (row ∷ rows) = newest (later_of best row) rows

unfoldable pub latest_of : ℕ → Store → Option (ℕ × UserSubscription)
unfolding newest
latest_of user_id s = newest none (select (is_of_user user_id) s.subscriptions)

-- The end date of the newest row, or the user's own expiry when there is none.
abbrev pub current_expiry : Option (ℕ × UserSubscription) → User → Option ℕ
current_expiry none user = user.pro_expiry
current_expiry (some (_, sub)) user = sub.end_date

abbrev pub grace_end : Option ℕ → Option ℕ
grace_end = Option.map (λ t. add_days t grace_days)

-- What a caller grants, and why.
pub record Grant : Type 0 where
  pub user_id : ℕ
  pub plan_id : ℕ
  pub plan : SubscriptionPlan
  pub price : ℤ
  pub reason : GrantReason
  pub granted_by : Option ℕ
  pub note : String

unfoldable pub new_subscription : Grant → Option ℕ → ℕ → UserSubscription
new_subscription gr end_date now = record {
  created_at = now;
  user_id = gr.user_id;
  plan_id = gr.plan_id;
  plan = gr.plan.title;
  price = gr.price;
  start_date = now;
  granted_by = gr.granted_by;
  grant_reason = gr.reason;
  note = gr.note;
  end_date = end_date;
  grace_ends_at = grace_end end_date;
  refunded_at = none;
}

abbrev pub set_pro : Bool → Option ℕ → User → User
set_pro is_pro expiry u = record u { is_pro = is_pro; pro_expiry = expiry }

unfoldable pub save_grant : Grant → Option ℕ → Store → Store
unfolding new_subscription
save_grant gr end_date s = record s {
  subscriptions = insert s.next_id (new_subscription gr end_date s.now) s.subscriptions;
  users = modify gr.user_id (set_pro true (grace_end end_date)) s.users;
  next_id = suc s.next_id;
}

-- The end date that a grant gives in a store, for a user's row.
unfoldable pub granted_end : Grant → User → Store → Option ℕ
granted_end gr user s =
    subscription_end s.now user.is_pro (current_expiry (latest_of gr.user_id s) user) gr.plan

-- The answer is the id of the new subscription.
unfoldable pub grant_subscription : Grant → M ℕ
unfolding granted_end
grant_subscription gr = do
  row ← gets (λ s. lookup gr.user_id s.users)
  user ← or_fail row record_not_found
  end_date ← gets (granted_end gr user)
  id ← gets (λ s. s.next_id)
  update (save_grant gr end_date)
  pure id

-- `ComputeStatus`
pub data SubscriptionStatus : Type 0 where
  refunded active grace expired : SubscriptionStatus

abbrev pub is_ahead : ℕ → Option ℕ → Bool
is_ahead now none = false
is_ahead now (some t) = ltb now t

unfoldable pub compute_status : UserSubscription → ℕ → SubscriptionStatus
compute_status sub now =
    if is_some sub.refunded_at
    then SubscriptionStatus.refunded
    else (if not (is_some sub.end_date)
        then SubscriptionStatus.active
        else (if is_ahead now sub.end_date
            then SubscriptionStatus.active
            else (if is_ahead now sub.grace_ends_at
                then SubscriptionStatus.grace
                else SubscriptionStatus.expired)))

-- Not refunded, and not over: the rows that count toward Pro.
abbrev pub is_running : ℕ → ℕ → ℕ × UserSubscription → Bool
is_running user_id now (_, sub) =
    sub.user_id == user_id
    && (not (is_some sub.refunded_at) && (not (is_some sub.end_date) || is_ahead now sub.end_date))

abbrev pub later_end : Option ℕ → Option ℕ → Option ℕ
later_end none b = b
later_end (some a) none = some a
later_end (some a) (some b) = if ltb a b then some b else some a

-- The loop of `recomputePro`: whether one is for life, and the latest end of the others.
unfoldable pub scan_ends : Bool → Option ℕ → List (ℕ × UserSubscription) → Bool × Option ℕ
scan_ends lifetime latest [] = (lifetime, latest)
scan_ends lifetime latest ((_, sub) ∷ subs) =
    scan_ends (lifetime || not (is_some sub.end_date)) (later_end latest sub.end_date) subs

abbrev pub is_nonempty : List (ℕ × UserSubscription) → Bool
is_nonempty [] = false
is_nonempty (_ ∷ _) = true

abbrev pub expiry_of : Bool × Option ℕ → Option ℕ
expiry_of (lifetime, latest) = if lifetime then none else latest

unfoldable pub recompute_pro : ℕ → Store → Store
recompute_pro user_id s =
    let subs = select (is_running user_id s.now) s.subscriptions in
    record s {
      users =
          modify user_id (set_pro (is_nonempty subs) (expiry_of (scan_ends false none subs)))
            s.users;
    }
