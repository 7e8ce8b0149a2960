-- ===== src/Entitlement/Resolving.antt =====
-- What resolve, Check and Consume of internal/service/entitlement_service.go answer for a user
-- who is found.
use Prim.Native.String.{String}
use text.Mathlib.Text.{◌==◌ as str_eq}
use text.Mathlib.TextEquality.{eq_iff}
use campusassistant_api.Base.{
  ℕ, ℤ, pos, ◌<ℤ◌, leb_ℤ, arith, ◌≡◌, refl, ◌⊎◌, inl, inr, ap, Bool, true, false, Bool-cases,
  Option-cases, Option, none, some, List, [], ◌∷◌, find, map, select, if◌then◌else◌,
}
use campusassistant_api.Base.Table.{lookup}
use campusassistant_api.Domain.{
  User, FeatureAccess, GrantPerks, Store, Result, ok, err, feature_not_entitled,
}
use campusassistant_api.Subscription.{is_running, newest}
use campusassistant_api.Perks.{
  UserScope, scope_of, load_user_scope, is_student_of, merge_each, no_perks, to_perks, grants_of,
  resolve_grant_perks,
}
use campusassistant_api.Entitlement.{
  active_plan, is_active_pro, plan_of, Grants, plan_rows, put_each, with_perks, is_for, no_access,
  known_features, entry_of, access_by, resolve, check, row_or_zero, consume_by, consume,
}

-- What the queries of `resolve` find for a user whose row is `u`.
abbrev pub plan_at : User → ℕ → Store → Bool × Option ℕ
plan_at u user_id s =
    if is_active_pro s.now u
    then (true, plan_of (newest none (select (is_running user_id s.now) s.subscriptions)))
    else (false, none)

abbrev pub scope_at : User → ℕ → Store → UserScope
scope_at u user_id s = scope_of u (find (is_student_of user_id) s.students)

abbrev pub perks_at : User → ℕ → Store → GrantPerks
perks_at u user_id s = to_perks (
    merge_each (scope_at u user_id s).created_at s.now (grants_of user_id (scope_at u user_id s) s)
      no_perks)

abbrev pub grants_at : User → ℕ → Store → Grants
grants_at u user_id s =
    with_perks (perks_at u user_id s)
      (put_each (plan_rows (plan_at u user_id s) s.plan_entitlements) [])

active_plan-found :
    (user_id : ℕ) (u : User) (s : Store)
    → lookup user_id s.users ≡ some u
    → active_plan user_id s ≡ (ok (plan_at u user_id s), s)
unfolding active_plan
active_plan-found user_id u s h = rw h

resolve_grant_perks-found :
    (user_id : ℕ) (u : User) (s : Store)
    → lookup user_id s.users ≡ some u
    → resolve_grant_perks user_id s ≡ (ok (perks_at u user_id s), s)
unfolding resolve_grant_perks load_user_scope
resolve_grant_perks-found user_id u s h = rw h

access_value : {a b : FeatureAccess} → ◌≡◌ {A = Result FeatureAccess} (ok a) (ok b) → b ≡ a
access_value h = cc

module _ (month_of : ℕ → ℕ) where
  abbrev pub features_at : ℕ → Grants → Store → List (String × FeatureAccess)
  features_at user_id gs s =
      map (λ f. (f, access_by month_of user_id f (find (is_for f) gs) s)) (known_features gs)

  resolve-found :
      (user_id : ℕ) (u : User) (s : Store)
      → lookup user_id s.users ≡ some u
      → resolve month_of user_id s ≡ (
        ok (
          record {
            is_pro = (plan_at u user_id s).0;
            plan_id = (plan_at u user_id s).1;
            features = features_at user_id (grants_at u user_id s) s;
          },
          grants_at u user_id s,
        ),
        s,
      )
  unfolding resolve
  resolve-found user_id u s h =
      rw (active_plan-found user_id u s h, resolve_grant_perks-found user_id u s h)

  pub check-found :
      (user_id : ℕ) (f : String) (u : User) (s : Store)
      → lookup user_id s.users ≡ some u
      → check month_of user_id f s
        ≡ (ok (entry_of f (features_at user_id (grants_at u user_id s) s)), s)
  unfolding check
  check-found user_id f u s h = rw (resolve-found user_id u s h)

  pub check-user :
      (user_id : ℕ) (f : String) (s : Store) {a : FeatureAccess}
      → (check month_of user_id f s).0 ≡ ok a
      → (u : User) × (lookup user_id s.users ≡ some u)
        × (a ≡ entry_of f (features_at user_id (grants_at u user_id s) s))
  unfolding check resolve active_plan
  check-user user_id f s h = elim (Option-cases (lookup user_id s.users)) [
    | inl e ↦ cc (rw (check, resolve, active_plan, e) at h)
    | inr (u, e) ↦ (u, e, access_value (rw (check-found user_id f u s e) at h))
  ]

  pub consume-found :
      (user_id : ℕ) (f : String) (n : ℤ) (u : User) (s : Store)
      → lookup user_id s.users ≡ some u
      → pos 0 <ℤ n
      → let a = entry_of f (features_at user_id (grants_at u user_id s) s) in
        consume month_of user_id f n s ≡ (
          if a.allowed
          then consume_by month_of user_id f n
              (row_or_zero (find (is_for f) (grants_at u user_id s)))
              s
          else (err feature_not_entitled, s))
  unfolding consume
  consume-found user_id f n u s h positive =
      let below : leb_ℤ n (pos 0) ≡ false = ground arith in
      elim (Bool-cases (entry_of f (features_at user_id (grants_at u user_id s) s)).allowed) [
        | inl e ↦ rw (below, resolve-found user_id u s h, e)
        | inr e ↦ rw (below, resolve-found user_id u s h, e)
      ]

-- Whatever the features' answers are, the map holds the feature's own or has no such key.
pub entry_of-map :
    (f : String) (ks : List String)
    → ((acc : String → FeatureAccess) → entry_of f (map (λ k. (k, acc k)) ks) ≡ acc f)
      ⊎ ((acc : String → FeatureAccess) → entry_of f (map (λ k. (k, acc k)) ks) ≡ no_access)
entry_of-map f [] = inr (λ acc. refl)
entry_of-map f (k ∷ ks) = elim (Bool-cases (str_eq k f)) [
  | inl e ↦ inl (λ acc. rw e (ap acc ((eq_iff k f).0 e)))
  | inr e ↦ elim (entry_of-map f ks) [
    | inl h ↦ inl (λ acc. rw e (h acc))
    | inr h ↦ inr (λ acc. rw e (h acc))
  ]
]
