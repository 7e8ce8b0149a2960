-- ===== src/Entitlement/Consuming.antt =====
-- Check and Consume of internal/service/entitlement_service.go, one after the other.
use Prim.Native.String.{String}
use campusassistant_api.Base.{
  ℕ, ℤ, pos, ◌+ℤ◌, ◌-ℤ◌, ◌≤ℤ◌, ◌<ℤ◌, ltb_ℤ, leb_ℤ, eq_ℤ, int_laws, ◌≡◌, ◌≢◌, refl, ◌↔◌, ◌⊎◌, inl,
  inr, Bool, true, false, Bool-cases, Option, none, some, find, if◌then◌else◌,
}
use campusassistant_api.Domain.{
  PlanEntitlement, FeatureAccess, Store, Result, Done, ok, err, limit_unlimited,
  feature_limit_reached, feature_not_entitled,
}
use campusassistant_api.Entitlement.{
  is_for, used_now, at_least_zero, known_features, access_by, check, row_or_zero, consume_by,
  consume,
}
use campusassistant_api.Entitlement.Counters.{UniqueCounters}
use campusassistant_api.Entitlement.Usage.{consume_by-Spends}
use campusassistant_api.Entitlement.Resolving.{grants_at, check-user, consume-found, entry_of-map}

room_iff :
    (n used limit : ℤ)
    → pos 0 <ℤ n
    → (leb_ℤ (used +ℤ n) limit ≡ true) ↔ (n ≤ℤ at_least_zero (limit -ℤ used))
room_iff n used limit h = elim (Bool-cases (ltb_ℤ (limit -ℤ used) (pos 0))) [
  | inl e ↦ rw e ((λ k. grind int_laws), (λ k. grind int_laws))
  | inr e ↦ rw e ((λ k. grind int_laws), (λ k. grind int_laws))
]

pub at_least_zero-capped : (n : ℤ) → at_least_zero n ≢ limit_unlimited
at_least_zero-capped n h = elim (Bool-cases (ltb_ℤ n (pos 0))) [
  | inl e ↦ cc (rw e at h)
  | inr e ↦ let k : n ≡ limit_unlimited = rw e at h in cc (rw k at e)
]

-- A request that Check's answer covers: allowed, and uncapped or with enough remaining.
abbrev pub Covers : FeatureAccess → ℤ → Type 0
Covers a n = (a.allowed ≡ true) × ((a.remaining ≡ limit_unlimited) ⊎ (n ≤ℤ a.remaining))

capped_iff :
    (r : Result Done) (room : Bool) (n left : ℤ)
    → (room ≡ true → r ≡ ok tt)
    → (room ≡ false → r ≡ err feature_limit_reached)
    → (room ≡ true) ↔ (n ≤ℤ left)
    → left ≢ limit_unlimited
    → (r ≡ ok tt) ↔ ((true ≡ true) × ((left ≡ limit_unlimited) ⊎ (n ≤ℤ left)))
capped_iff r room n left a b c d = (
  (λ h. (refl, inr (elim (Bool-cases room) [ inl e ↦ c.0 e | inr e ↦ cc (b e) ]))),
  (λ h. elim h.1 [ inl e ↦ absurd (d e) | inr e ↦ a (c.1 e) ]),
)

module _ (month_of : ℕ → ℕ) where
  abbrev pub consume_if :
      ℕ → String → ℤ → Option PlanEntitlement → FeatureAccess → Store → Result Done × Store
  consume_if user_id f n o a s =
      if a.allowed
      then consume_by month_of user_id f n (row_or_zero o) s
      else (err feature_not_entitled, s)

  consume_by-uncapped :
      (user_id : ℕ) (f : String) (n : ℤ) (g : PlanEntitlement) (s : Store)
      → eq_ℤ g.limit limit_unlimited ≡ true
      → (consume_by month_of user_id f n g s).0 ≡ ok tt
  unfolding consume_by
  consume_by-uncapped user_id f n g s d = rw d

  consume_if-Covers :
      (user_id : ℕ) (f : String) (n : ℤ) (o : Option PlanEntitlement) (s : Store)
      → UniqueCounters s
      → pos 0 <ℤ n
      → let a = access_by month_of user_id f o s in
        ((consume_if user_id f n o a s).0 ≡ ok tt) ↔ Covers a n
  consume_if-Covers user_id f n none s unique positive = ((λ h. cc), (λ h. cc h.0))
  consume_if-Covers user_id f n (some g) s unique positive =
      elim (Bool-cases (eq_ℤ g.limit (pos 0))) [
        | inl e ↦ rw e ((λ h. cc), (λ h. cc h.0))
        | inr e ↦ elim (Bool-cases (eq_ℤ g.limit limit_unlimited)) [
          | inl d ↦
              rw (e, d) ((λ h. (refl, inl refl)), (λ h. consume_by-uncapped user_id f n g s d))
          | inr d ↦
              let (a, b, _, _) = consume_by-Spends month_of user_id f n g s unique d in
              let used = used_now month_of user_id f g.period s in
              let left = at_least_zero (g.limit -ℤ used) in
              rw (e, d)
                (capped_iff (consume_by month_of user_id f n g s).0 (leb_ℤ (used +ℤ n) g.limit) n
                  left (λ k. (a k).0) (λ k. (b k).0) (room_iff n used g.limit positive)
                  (at_least_zero-capped (g.limit -ℤ used)))
        ]
      ]

  -- Consume of a positive number by a user whom Check answers about succeeds exactly when the answer
  -- allows the feature and is uncapped or has at least that number remaining, in a store that has at
  -- most one usage counter for a user, a feature and a period.
  pub consume_iff :
      (user_id : ℕ) (f : String) (n : ℤ) (s : Store) {a : FeatureAccess}
      → (check month_of user_id f s).0 ≡ ok a
      → pos 0 <ℤ n
      → UniqueCounters s
      → ((consume month_of user_id f n s).0 ≡ ok tt) ↔ Covers a n
  consume_iff user_id f n s {a} h positive unique =
      let (u, found, answer) = check-user month_of user_id f s h in
      let gs = grants_at u user_id s in
      let acc : String → FeatureAccess = λ k. access_by month_of user_id k (find (is_for k) gs) s in
      rw (answer, consume-found month_of user_id f n u s found positive)
        (elim (entry_of-map f (known_features gs)) [
          | inl e ↦
              rw (e acc) (consume_if-Covers user_id f n (find (is_for f) gs) s unique positive)
          | inr e ↦ rw (e acc) ((λ k. cc), (λ k. cc k.0))
        ])
