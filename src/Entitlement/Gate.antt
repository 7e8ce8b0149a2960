-- ===== src/Entitlement/Gate.antt =====
-- RequireEntitlement of internal/delivery/http/middleware/entitlement_middleware.go, with
-- EntitlementService as the checker that it asks.
use Prim.Native.String.{String}
use campusassistant_api.Base.{
  ℕ, ℤ, pos, ◌≤ℤ◌, ◌-ℤ◌, eq_ℤ, ltb_ℤ, arith, ◌≡◌, refl, ◌↔◌, ◌⊎◌, inl, inr, not, Bool-cases, Option,
  none, some, if◌then◌else◌, find,
}
use campusassistant_api.Domain.{
  PlanEntitlement, FeatureAccess, Store, Result, ok, err, limit_unlimited,
}
use campusassistant_api.Entitlement.{
  access_by, at_least_zero, check, consume, is_for, known_features, used_now,
}
use campusassistant_api.Entitlement.Counters.{UniqueCounters}
use campusassistant_api.Entitlement.Consuming.{Covers, consume_iff}
use campusassistant_api.Entitlement.Resolving.{grants_at, check-user, entry_of-map}

-- What the middleware does with a request: the next handler, or the status it aborts with.
pub data Gate : Type 0 where
  next unauthorized server_error forbidden too_many_requests : Gate

abbrev pub gate_for : FeatureAccess → Gate
gate_for a =
    if not a.allowed
    then Gate.forbidden
    else (if eq_ℤ a.remaining (pos 0) then Gate.too_many_requests else Gate.next)

abbrev pub gate_of : Result FeatureAccess → Gate
gate_of (err e) = Gate.server_error
gate_of (ok a) = gate_for a

-- `user_id` is what JWTMiddleware put into the context.
abbrev pub require_entitlement : (ℕ → ℕ) → Option ℕ → String → Store → Gate
require_entitlement month_of none f s = Gate.unauthorized
require_entitlement month_of (some user_id) f s = gate_of (check month_of user_id f s).0

-- A remaining number is never below zero, but for the mark of an uncapped feature.
abbrev HasRemaining : FeatureAccess → Type 0
HasRemaining a = (a.remaining ≡ limit_unlimited) ⊎ (pos 0 ≤ℤ a.remaining)

at_least_zero-nonneg : (n : ℤ) → pos 0 ≤ℤ at_least_zero n
at_least_zero-nonneg n = elim (Bool-cases (ltb_ℤ n (pos 0))) [
  | inl e ↦ rw e (omega arith)
  | inr e ↦ rw e (ground arith)
]

access_by-HasRemaining :
    (month_of : ℕ → ℕ) (user_id : ℕ) (f : String) (o : Option PlanEntitlement) (s : Store)
    → HasRemaining (access_by month_of user_id f o s)
access_by-HasRemaining month_of user_id f none s = inr (omega arith)
access_by-HasRemaining month_of user_id f (some g) s = elim (Bool-cases (eq_ℤ g.limit (pos 0))) [
  | inl e ↦ rw e (inr (omega arith))
  | inr e ↦ elim (Bool-cases (eq_ℤ g.limit limit_unlimited)) [
    | inl d ↦ rw (e, d) (inl refl)
    | inr d ↦
        rw (e, d) (inr (at_least_zero-nonneg (g.limit -ℤ used_now month_of user_id f g.period s)))
  ]
]

gate_for_iff : (a : FeatureAccess) → HasRemaining a → (gate_for a ≡ Gate.next) ↔ Covers a (pos 1)
gate_for_iff a h = elim (Bool-cases a.allowed) [
  | inr e ↦ rw e ((λ k. cc), (λ k. cc k.0))
  | inl e ↦ elim (Bool-cases (eq_ℤ a.remaining (pos 0))) [
    | inl d ↦
        rw (e, d)
          ((λ k. cc), (λ k. elim k.1 [ inl l ↦ cc (rw l at d) | inr l ↦ absurd (ground arith) ]))
    | inr d ↦
        rw (e, d)
          ((λ k. (refl, elim h [ inl l ↦ inl l | inr l ↦ inr (ground arith) ])), (λ k. refl))
  ]
]

-- RequireEntitlement lets a signed-in user whom Check answers about through exactly when a Consume of
-- one would succeed, in a store that has at most one usage counter for a user, a feature and a period.
pub require_entitlement_iff :
    (month_of : ℕ → ℕ) (user_id : ℕ) (f : String) (s : Store) {a : FeatureAccess}
    → (check month_of user_id f s).0 ≡ ok a
    → UniqueCounters s
    → (require_entitlement month_of (some user_id) f s ≡ Gate.next)
      ↔ ((consume month_of user_id f (pos 1) s).0 ≡ ok tt)
require_entitlement_iff month_of user_id f s {a} h unique =
    let (u, found, answer) = check-user month_of user_id f s h in
    let gs = grants_at u user_id s in
    let acc : String → FeatureAccess = λ k. access_by month_of user_id k (find (is_for k) gs) s in
    let left : HasRemaining a = elim (entry_of-map f (known_features gs)) [
      | inl e ↦
          rw (answer, e acc) (access_by-HasRemaining month_of user_id f (find (is_for f) gs) s)
      | inr e ↦ rw (answer, e acc) (inr (omega arith))
    ] in
    let (c, d) = consume_iff month_of user_id f (pos 1) s h (omega arith) unique in
    let (p, q) = gate_for_iff a left in rw h ((λ k. d (p k)), (λ k. q (c k)))
