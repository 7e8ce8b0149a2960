-- ===== src/Entitlement/Remaining.antt =====
-- What Check of internal/service/entitlement_service.go answers after a Consume.
use Prim.Native.String.{String}
use campusassistant_api.Base.{
  [], ◌∷◌, map, ◌&&◌, ◌++◌, ap, exists, ◌∙◌, List, ℕ, ℤ, pos, ◌+ℤ◌, ◌-ℤ◌, ◌≤ℤ◌, ◌<ℤ◌, ltb_ℤ, leb_ℤ,
  eq_ℤ, int_laws, ◌≡◌, ◌≢◌, refl, inl, inr, true, false, Bool-cases, Option, none, some, find,
}
use campusassistant_api.Domain.{
  User, PeriodKey, UsageCounter, PlanEntitlement, FeatureAccess, Store, ok, limit_unlimited,
}
use campusassistant_api.Entitlement.{
  lookup, spend_one, has_room, is_counter, ensure_counter, period_key, spend, is_for, used_now,
  at_least_zero, known_features, access_by, check, row_or_zero, consume_by, consume,
}
use campusassistant_api.Entitlement.Counters.{UniqueCounters}
use campusassistant_api.Entitlement.Usage.{new_counter, consume_by-Spends}
use campusassistant_api.Entitlement.Resolving.{grants_at, check-user, consume-found, entry_of-map}
use campusassistant_api.Entitlement.Consuming.{consume_if}
use campusassistant_api.Entitlement.Resolving.{
  grants_at, check-user, check-found, consume-found, entry_of-map,
}
use campusassistant_api.Entitlement.{check, consume, known_features, entry_of}

less_left :
    (n used limit : ℤ)
    → pos 0 <ℤ n
    → leb_ℤ (used +ℤ n) limit ≡ true
    → at_least_zero (limit -ℤ (used +ℤ n)) +ℤ n ≡ at_least_zero (limit -ℤ used)
less_left n used limit h k =
    let a : ltb_ℤ (limit -ℤ (used +ℤ n)) (pos 0) ≡ false = grind int_laws in
    let b : ltb_ℤ (limit -ℤ used) (pos 0) ≡ false = grind int_laws in rw (a, b) (omega int_laws)

-- What a later answer shows of a spending of `n` after the answer `a`.
abbrev pub IsLess : ℤ → FeatureAccess → FeatureAccess → Type 0
IsLess n a b =
    (b.allowed ≡ true)
    × (b.limit ≡ a.limit)
    × (b.used ≡ a.used +ℤ n)
    × (b.remaining +ℤ n ≡ a.remaining)
    × (b.used ≤ℤ b.limit)

spend-counters :
    (user_id : ℕ) (f : String) (key : PeriodKey) (n limit : ℤ) (s : Store)
    → (cs : List UsageCounter) × ((spend user_id f key n limit s).1
        ≡ record s { usage_counters = cs })
unfolding spend
spend-counters user_id f key n limit s =
    elim (Bool-cases
      (exists (λ c. is_counter user_id f key c && has_room n limit c) s.usage_counters)) [
        | inl e ↦ (map (spend_one user_id f key n limit) s.usage_counters, rw e refl)
        | inr e ↦ (s.usage_counters, rw e refl)
      ]

ensure_counter-counters :
    (user_id : ℕ) (f : String) (key : PeriodKey) (s : Store)
    → (cs : List UsageCounter) × (ensure_counter user_id f key s ≡ record s { usage_counters = cs })
unfolding ensure_counter
ensure_counter-counters user_id f key s =
    elim (Bool-cases (exists (is_counter user_id f key) s.usage_counters)) [
      | inl e ↦ (s.usage_counters, rw e refl)
      | inr e ↦ (s.usage_counters ++ new_counter user_id f key ∷ [], rw e refl)
    ]

module _ (month_of : ℕ → ℕ) where
  -- Only the counters change.
  pub consume_by-counters :
      (user_id : ℕ) (f : String) (n : ℤ) (g : PlanEntitlement) (s : Store)
      → (cs : List UsageCounter) × ((consume_by month_of user_id f n g s).1
          ≡ record s { usage_counters = cs })
  unfolding consume_by
  consume_by-counters user_id f n g s =
      let key = period_key month_of g.period s.now in
      elim (Bool-cases (eq_ℤ g.limit limit_unlimited)) [
        | inl e ↦ (s.usage_counters, rw e refl)
        | inr e ↦
            let (cs, h) = spend-counters user_id f key n g.limit (ensure_counter user_id f key s) in
            let (ds, k) = ensure_counter-counters user_id f key s in
            (cs, rw e (h ∙ ap {A = Store} (λ t. record t { usage_counters = cs }) k))
      ]

  access_by-IsLess :
      (user_id : ℕ) (f : String) (n : ℤ) (o : Option PlanEntitlement) (s : Store)
      → UniqueCounters s
      → pos 0 <ℤ n
      → let a = access_by month_of user_id f o s in
        let c = consume_if month_of user_id f n o a s in
        c.0 ≡ ok tt
        → a.remaining ≢ limit_unlimited
        → IsLess n a (access_by month_of user_id f o c.1) × UniqueCounters c.1
  access_by-IsLess user_id f n none s unique positive = λ h capped. cc
  access_by-IsLess user_id f n (some g) s unique positive =
      elim (Bool-cases (eq_ℤ g.limit (pos 0))) [
        | inl e ↦ rw e (λ h k. cc)
        | inr e ↦ elim (Bool-cases (eq_ℤ g.limit limit_unlimited)) [
          | inl d ↦ rw (e, d) (λ h k. absurd (k refl))
          | inr d ↦
              let (a, b, u, now) = consume_by-Spends month_of user_id f n g s unique d in
              let used = used_now month_of user_id f g.period s in
              rw (e, d)
                (λ h k. elim (Bool-cases (leb_ℤ (used +ℤ n) g.limit)) [
                  | inl r ↦
                      let t = (consume_by month_of user_id f n g s).1 in
                      let after : used_now month_of user_id f g.period t ≡ used +ℤ n =
                        rw now ((a r).1) in
                      rw after
                        ((refl, refl, refl, less_left n used g.limit positive r, grind int_laws), u)
                  | inr r ↦ cc (b r).0
                ])
        ]
      ]

  check-counters :
      (user_id : ℕ) (f : String) (u : User) (s t : Store) (cs : List UsageCounter)
      → lookup user_id s.users ≡ some u
      → t ≡ record s { usage_counters = cs }
      → let gs = grants_at u user_id s in
        ((acc : String → FeatureAccess)
          → entry_of f (map (λ k. (k, acc k)) (known_features gs)) ≡ acc f)
        → (check month_of user_id f t).0 ≡ ok (access_by month_of user_id f (find (is_for f) gs) t)
  unfolding campusassistant_api.Perks.grants_of
  check-counters user_id f u s t cs found same e =
      let t' : Store = record s { usage_counters = cs } in
      let acc : String → FeatureAccess =
        λ k. access_by month_of user_id k (find (is_for k) (grants_at u user_id s)) t' in
      rw (same, check-found month_of user_id f u t' found) (ap ok (e acc))

  -- After a Consume of a positive number that succeeds on a feature that Check answered about with a
  -- cap, Check answers again: the feature is allowed with the same limit, the use has grown and the
  -- remaining number has fallen by what was consumed, and the use is within the limit. The counters
  -- stay unique, as they were.
  pub check-consume :
      (user_id : ℕ) (f : String) (n : ℤ) (s : Store) {a : FeatureAccess}
      → (check month_of user_id f s).0 ≡ ok a
      → pos 0 <ℤ n
      → UniqueCounters s
      → (consume month_of user_id f n s).0 ≡ ok tt
      → a.remaining ≢ limit_unlimited
      → let t = (consume month_of user_id f n s).1 in
        ((b : FeatureAccess) × ((check month_of user_id f t).0 ≡ ok b) × IsLess n a b)
        × UniqueCounters t
  check-consume user_id f n s {a} h positive unique =
      let (u, found, answer) = check-user month_of user_id f s h in
      let gs = grants_at u user_id s in
      let g = find (is_for f) gs in
      let acc : String → FeatureAccess = λ k. access_by month_of user_id k (find (is_for k) gs) s in
      rw (answer, consume-found month_of user_id f n u s found positive)
        (elim (entry_of-map f (known_features gs)) [
          | inl e ↦ rw (e acc) (λ done capped. elim (Bool-cases (acc f).allowed) [
            | inl allowed ↦
                let (cs, same) = consume_by-counters user_id f n (row_or_zero g) s in
                let (less, u') = access_by-IsLess user_id f n g s unique positive done capped in
                let after =
                  check-counters user_id f u s (consume_by month_of user_id f n (row_or_zero g) s).1
                    cs found same e in
                rw allowed (
                  (
                    access_by month_of user_id f g
                        (consume_by month_of user_id f n (row_or_zero g) s).1,
                    after,
                    rw allowed at less,
                  ),
                  rw allowed at u',
                )
            | inr b ↦ cc (rw b at done)
          ])
          | inr e ↦ rw (e acc) (λ done capped. cc)
        ])
