-- ===== src/Entitlement/Stored.antt =====
-- The rows that SetPlanEntitlements of internal/service/entitlement_service.go stores for its items.
use Prim.Native.String.{String, len}
use text.Mathlib.Text.{◌==◌ as str_eq}
use text.Mathlib.TextEquality.{eq_iff}
use campusassistant_api.Base.{
  eq_of_parts, pos, sym, true, false_or, ℕ, ℤ, ◌≤◌, ◌≤ℤ◌, ltb_ℤ, eq_ℤ, ltb, arith, ◌≡◌, ◌≢◌, refl,
  ◌⊎◌, inl, inr, false, ◌||◌, Bool-cases, none, some, List, [], ◌∷◌, exists, All, if◌then◌else◌,
}
use campusassistant_api.Domain.{
  PlanEntitlement, Result, ok, err, limit_unlimited, period_none, period_daily, period_month,
  invalid_entitlement,
}
use campusassistant_api.Entitlement.Plans.{
  period_of, is_bad_feature, created_limit, row_for, cons_ok, checked_items,
}

abbrev pub IsPeriod : String → Type 0
IsPeriod p = (p ≡ period_none) ⊎ ((p ≡ period_daily) ⊎ (p ≡ period_month))

-- A row that the table may hold.
abbrev pub IsRow : ℕ → PlanEntitlement → Type 0
IsRow plan_id r =
    (r.plan_id ≡ plan_id)
    × (r.feature ≢ "")
    × (len r.feature ≤ 60)
    × (limit_unlimited ≤ℤ r.limit)
    × (r.limit ≢ pos 0)
    × IsPeriod r.period

-- The row that is left of an item: a limit of zero becomes no limit at all, every other is kept.
abbrev pub IsStored : PlanEntitlement → PlanEntitlement → Type 0
IsStored it r =
    (r.feature ≡ it.feature)
    × (it.limit ≡ pos 0 → r.limit ≡ limit_unlimited)
    × (it.limit ≢ pos 0 → r.limit ≡ it.limit)
    × (it.limit ≡ limit_unlimited → r.period ≡ period_none)
    × (it.limit ≢ limit_unlimited → it.period ≡ "" → r.period ≡ period_none)
    × (it.limit ≢ limit_unlimited → it.period ≢ "" → r.period ≡ it.period)

abbrev pub AreStored : List PlanEntitlement → List PlanEntitlement → Type 0
AreStored [] [] = Unit
AreStored (it ∷ its) (r ∷ rs) = IsStored it r × AreStored its rs
AreStored _ _ = ⊥

-- No feature twice, nor one of those seen.
abbrev pub Distinct : List String → List PlanEntitlement → Type 0
Distinct seen [] = Unit
Distinct seen (r ∷ rs) = (exists (str_eq r.feature) seen ≡ false) × Distinct (r.feature ∷ seen) rs

-- The period that stands for the one that was sent.
abbrev IsSent : String → String → Type 0
IsSent p q = (p ≡ "" → q ≡ period_none) × (p ≢ "" → q ≡ p)

no_period : (p : String) → str_eq p "" ≡ true → IsSent p period_none
no_period p h = ((λ k. refl), (λ k. absurd (k ((eq_iff p "").0 h))))

same_period : (p q : String) → str_eq p "" ≡ false → str_eq p q ≡ true → IsSent p q
same_period p q h k = ((λ l. cc ((eq_iff p "").1 l)), (λ l. sym ((eq_iff p q).0 k)))

period_of_cases :
    (p : String)
    → (period_of p ≡ none) ⊎ ((q : String) × (period_of p ≡ some q) × IsPeriod q × IsSent p q)
period_of_cases p = elim (Bool-cases (str_eq p "")) [
  | inl e ↦ inr (period_none, rw e refl, inl refl, no_period p e)
  | inr e ↦ elim (Bool-cases (str_eq p period_none)) [
    | inl f ↦ inr (period_none, rw (e, f) refl, inl refl, same_period p period_none e f)
    | inr f ↦ elim (Bool-cases (str_eq p period_daily)) [
      | inl g ↦
          inr (period_daily, rw (e, f, g) refl, inr (inl refl), same_period p period_daily e g)
      | inr g ↦ elim (Bool-cases (str_eq p period_month)) [
        | inl h ↦
            inr (period_month, rw (e, f, g, h) refl, inr (inr refl), same_period p period_month e h)
        | inr h ↦ inl (rw (e, f, g, h) refl)
      ]
    ]
  ]
]

-- What the loop's result holds of the items.
abbrev pub IsChecked :
    ℕ → List String → List PlanEntitlement → Result (List PlanEntitlement) → Type 0
IsChecked plan_id seen items (err e) = e ≡ invalid_entitlement
IsChecked plan_id seen items (ok rows) =
    All (IsRow plan_id) rows × Distinct seen rows × AreStored items rows

IsChecked-cons_ok :
    (plan_id : ℕ) (seen : List String) (r it : PlanEntitlement) (its : List PlanEntitlement)
    (rest : Result (List PlanEntitlement))
    → IsRow plan_id r
    → exists (str_eq r.feature) seen ≡ false
    → IsStored it r
    → IsChecked plan_id (r.feature ∷ seen) its rest
    → IsChecked plan_id seen (it ∷ its) (cons_ok r rest)
IsChecked-cons_ok plan_id seen r it its (err e) a b c h = h
IsChecked-cons_ok plan_id seen r it its (ok rows) a b c (h, k, l) = ((a, h), (b, k), (c, l))

good_feature :
    (seen : List String) (f : String)
    → is_bad_feature seen f ≡ false
    → (f ≢ "") × (len f ≤ 60) × (exists (str_eq f) seen ≡ false)
good_feature seen f h =
    let (a, bc) = false_or (str_eq f "") (ltb 60 (len f) || exists (str_eq f) seen) h in
    let (b, c) = false_or (ltb 60 (len f)) (exists (str_eq f) seen) bc in
    ((λ k. cc ((eq_iff f "").1 k)), ground arith, c)

created_limit_low : (n : ℤ) → ltb_ℤ n limit_unlimited ≡ false → limit_unlimited ≤ℤ created_limit n
created_limit_low n h = ground arith

created_limit_nonzero : (n : ℤ) → created_limit n ≢ pos 0
created_limit_nonzero n h = elim (Bool-cases (eq_ℤ n (pos 0))) [
  | inl e ↦ cc (rw e at h)
  | inr e ↦ cc (rw (rw e at h) at e)
]

capped-IsPeriod :
    (n : ℤ) (period : String)
    → IsPeriod period
    → IsPeriod (if eq_ℤ n limit_unlimited then period_none else period)
capped-IsPeriod n period h = elim (Bool-cases (eq_ℤ n limit_unlimited)) [
  | inl e ↦ rw e (inl refl)
  | inr e ↦ rw e h
]

not_unlimited : (n : ℤ) → n ≢ limit_unlimited → eq_ℤ n limit_unlimited ≡ false
not_unlimited n h = elim (Bool-cases (eq_ℤ n limit_unlimited)) [
  | inl e ↦ absurd (h (eq_of_parts n limit_unlimited (ground arith)))
  | inr e ↦ e
]

row_for-IsRow :
    (plan_id : ℕ) (it : PlanEntitlement) (period : String)
    → (it.feature ≢ "") × (len it.feature ≤ 60)
    → ltb_ℤ it.limit limit_unlimited ≡ false
    → IsPeriod period
    → IsRow plan_id (row_for plan_id it period)
row_for-IsRow plan_id it period (a, b) c d = (
  refl,
  a,
  b,
  created_limit_low it.limit c,
  created_limit_nonzero it.limit,
  capped-IsPeriod it.limit period d,
)

row_for-IsStored :
    (plan_id : ℕ) (it : PlanEntitlement) (period : String)
    → IsSent it.period period
    → IsStored it (row_for plan_id it period)
row_for-IsStored plan_id it period (a, b) = (
  refl,
  (λ h. rw h refl),
  (λ h. elim (Bool-cases (eq_ℤ it.limit (pos 0))) [
    | inl e ↦ absurd (h (eq_of_parts it.limit (pos 0) (ground arith)))
    | inr e ↦ rw e refl
  ]),
  (λ h. rw h refl),
  (λ h k. rw (not_unlimited it.limit h) (a k)),
  (λ h k. rw (not_unlimited it.limit h) (b k)),
)

pub checked_items-IsChecked :
    (plan_id : ℕ) (seen : List String) (items : List PlanEntitlement)
    → IsChecked plan_id seen items (checked_items plan_id seen items)
unfolding checked_items
checked_items-IsChecked plan_id seen [] = (tt, tt, tt)
checked_items-IsChecked plan_id seen (it ∷ its) =
    let rest = checked_items plan_id (it.feature ∷ seen) its in
    elim (Bool-cases (is_bad_feature seen it.feature || ltb_ℤ it.limit limit_unlimited)) [
      | inl e ↦ rw e refl
      | inr e ↦
          let (a, b) =
            false_or (is_bad_feature seen it.feature) (ltb_ℤ it.limit limit_unlimited) e in
          let (c, d, f) = good_feature seen it.feature a in
          elim (period_of_cases it.period) [
            | inl k ↦ rw (e, k) refl
            | inr (q, k, l, m) ↦
                rw (e, k)
                  (IsChecked-cons_ok plan_id seen (row_for plan_id it q) it its rest
                    (row_for-IsRow plan_id it q (c, d) b l) f (row_for-IsStored plan_id it q m)
                    (checked_items-IsChecked plan_id (it.feature ∷ seen) its))
          ]
    ]
