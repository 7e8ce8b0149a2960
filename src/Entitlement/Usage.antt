-- ===== src/Entitlement/Usage.antt =====
-- What Consume of internal/service/entitlement_service.go spends from a capped feature.
use Prim.Native.String.{String}
use text.Mathlib.Text.{◌==◌ as str_eq}
use text.Mathlib.TextEquality.{eq_iff}
use campusassistant_api.Base.{
  ℕ, ℤ, pos, ◌+ℤ◌, leb_ℤ, eq_ℤ, arith, ◌≡◌, refl, inl, inr, ◌∙◌, Bool, true, false, ◌&&◌, ◌==◌,
  ==_refl, ==_iff, Bool-cases, some, find, exists,
}
use campusassistant_api.Domain.{
  PlanEntitlement, PeriodKey, UsageCounter, Store, Done, Result, ok, err, limit_unlimited,
  feature_limit_reached,
}
use campusassistant_api.Entitlement.{
  same_key, is_counter, used_of, used_now, period_key, has_room, spend_one, spend, ensure_counter,
  consume_by,
}
use campusassistant_api.Entitlement.Counters.{
  UniqueCounters, exists_both, find-none, find-some, find-append_none, AtMostOne-append,
  AtMostOne-map, find-map, find_passes,
}

same_key_refl : (k : PeriodKey) → same_key k k ≡ true
same_key_refl (PeriodKey.date n) = ==_refl n
same_key_refl (PeriodKey.month n) = ==_refl n
same_key_refl PeriodKey.all = refl

str_eq_refl : (t : String) → str_eq t t ≡ true
str_eq_refl t = (eq_iff t t).1 refl

abbrev pub new_counter : ℕ → String → PeriodKey → UsageCounter
new_counter user_id f key = record {
  user_id = user_id;
  feature = f;
  period_key = key;
  used = pos 0;
}

is_counter-new_counter :
    (user_id : ℕ) (f : String) (key : PeriodKey)
    → is_counter user_id f key (new_counter user_id f key) ≡ true
is_counter-new_counter user_id f key = rw (==_refl user_id, str_eq_refl f, same_key_refl key)

is_counter-spend_one :
    (user_id user_id' : ℕ) (f f' : String) (key key' : PeriodKey) (n limit : ℤ) (c : UsageCounter)
    → is_counter user_id f key (spend_one user_id' f' key' n limit c) ≡ is_counter user_id f key c
is_counter-spend_one user_id user_id' f f' key key' n limit c =
    elim (Bool-cases (is_counter user_id' f' key' c && has_room n limit c)) [
      | inl e ↦ rw e
      | inr e ↦ rw e
    ]

module _ (user_id : ℕ) (f : String) (key : PeriodKey) (s : Store) where
  -- After the insert there is a counter, with what was used so far.
  ensure_counter-find :
      (c : UsageCounter) × (find
          (is_counter user_id f key)
          (ensure_counter user_id f key s).usage_counters
        ≡ some c)
      × (c.used ≡ used_of (find (is_counter user_id f key) s.usage_counters))
  unfolding ensure_counter
  ensure_counter-find = elim (Bool-cases (exists (is_counter user_id f key) s.usage_counters)) [
    | inl e ↦
        let (c, h) = find-some (is_counter user_id f key) s.usage_counters e in (c, rw (e, h), rw h)
    | inr e ↦ (
      new_counter user_id f key,
      rw e (
          find-append_none (is_counter user_id f key) s.usage_counters (new_counter user_id f key) e
            (is_counter-new_counter user_id f key)),
      rw (find-none (is_counter user_id f key) s.usage_counters e),
    )
  ]

same_key_eq : (k l : PeriodKey) → same_key k l ≡ true → k ≡ l
same_key_eq (PeriodKey.date m) (PeriodKey.date n) h = rw ((==_iff m n).0 h)
same_key_eq (PeriodKey.month m) (PeriodKey.month n) h = rw ((==_iff m n).0 h)
same_key_eq PeriodKey.all PeriodKey.all h = refl
same_key_eq _ _ h = cc

three_true : (a b c : Bool) → (a && (b && c)) ≡ true → (a ≡ true) × (b ≡ true) × (c ≡ true)
three_true a b c h = ground arith

same_counter :
    (user_id user_id' : ℕ) (f f' : String) (key key' : PeriodKey) (s : Store)
    → is_counter user_id' f' key' (new_counter user_id f key) ≡ true
    → exists (is_counter user_id f key) s.usage_counters ≡ false
    → exists (is_counter user_id' f' key') s.usage_counters ≡ false
same_counter user_id user_id' f f' key key' s h k =
    let (a, b, c) = three_true (user_id == user_id') (str_eq f f') (same_key key key') h in
    rw (← (==_iff user_id user_id').0 a, ← (eq_iff f f').0 b, ← same_key_eq key key' c) k

ensure_counter-UniqueCounters :
    (user_id : ℕ) (f : String) (key : PeriodKey) (s : Store)
    → UniqueCounters s
    → UniqueCounters (ensure_counter user_id f key s)
unfolding ensure_counter
ensure_counter-UniqueCounters user_id f key s h user_id' f' key' =
    elim (Bool-cases (exists (is_counter user_id f key) s.usage_counters)) [
      | inl e ↦ rw e (h user_id' f' key')
      | inr e ↦ rw e (
          AtMostOne-append (is_counter user_id' f' key') s.usage_counters
            (new_counter user_id f key) (h user_id' f' key')
            (λ k. same_counter user_id user_id' f f' key key' s k e))
    ]

-- What a spending leaves, if the counter of the key shows `used` before it.
abbrev pub Spends : ℕ → String → PeriodKey → ℤ → ℤ → ℤ → Store → Result Done × Store → Type 0
Spends user_id f key n limit used s (r, t) =
    (leb_ℤ (used +ℤ n) limit ≡ true
      → (r ≡ ok tt) × (used_of (find (is_counter user_id f key) t.usage_counters) ≡ used +ℤ n))
    × (leb_ℤ (used +ℤ n) limit ≡ false
        → (r ≡ err feature_limit_reached)
          × (used_of (find (is_counter user_id f key) t.usage_counters) ≡ used))
    × UniqueCounters t
    × (t.now ≡ s.now)

spend-Spends :
    (user_id : ℕ) (f : String) (key : PeriodKey) (n limit : ℤ) (s : Store) (c : UsageCounter)
    → UniqueCounters s
    → find (is_counter user_id f key) s.usage_counters ≡ some c
    → Spends user_id f key n limit c.used s (spend user_id f key n limit s)
unfolding spend
spend-Spends user_id f key n limit s c unique found =
    let p = is_counter user_id f key in
    let here : exists (λ d. p d && has_room n limit d) s.usage_counters ≡ has_room n limit c =
      rw (exists_both p (has_room n limit) s.usage_counters (unique user_id f key), found) in
    elim (Bool-cases (has_room n limit c)) [
      | inl e ↦
          let after =
            find-map p (spend_one user_id f key n limit) s.usage_counters
              (is_counter-spend_one user_id user_id f f key key n limit) found in
          let spent : spend_one user_id f key n limit c ≡ record c { used = c.used +ℤ n } =
            rw (find_passes p s.usage_counters found, e) in
          rw (here, e)
            (
              (λ k. (refl, rw (after, spent))),
              (λ k. cc),
              (λ user_id' f' key'.
                  AtMostOne-map (is_counter user_id' f' key') (spend_one user_id f key n limit)
                    s.usage_counters (is_counter-spend_one user_id' user_id f' f key' key n limit)
                    (unique user_id' f' key')),
              refl,
            )
      | inr e ↦ rw (here, e) ((λ k. cc), (λ k. (refl, rw found)), unique, refl)
    ]

ensure_counter-now :
    (user_id : ℕ) (f : String) (key : PeriodKey) (s : Store)
    → (ensure_counter user_id f key s).now ≡ s.now
unfolding ensure_counter
ensure_counter-now user_id f key s =
    elim (Bool-cases (exists (is_counter user_id f key) s.usage_counters)) [
      | inl e ↦ rw e
      | inr e ↦ rw e
    ]

module _ (month_of : ℕ → ℕ) where
  pub consume_by-Spends :
      (user_id : ℕ) (f : String) (n : ℤ) (g : PlanEntitlement) (s : Store)
      → UniqueCounters s
      → eq_ℤ g.limit limit_unlimited ≡ false
      → Spends user_id f
          (period_key month_of g.period s.now)
          n
          g.limit
          (used_now month_of user_id f g.period s)
          s
          (consume_by month_of user_id f n g s)
  unfolding consume_by
  consume_by-Spends user_id f n g s unique capped =
      let key = period_key month_of g.period s.now in
      let t = ensure_counter user_id f key s in
      let (c, found, used) = ensure_counter-find user_id f key s in
      let (a, b, d, e) =
        spend-Spends user_id f key n g.limit t c
          (ensure_counter-UniqueCounters user_id f key s unique) found in
      rw (capped, ← used) (a, b, d, e ∙ ensure_counter-now user_id f key s)
