-- ===== src/Subscription/Recomputed.antt =====
-- What recomputePro of internal/service/refund_service.go leaves of a user's Pro.
use campusassistant_api.Base.{
  Any, ◌↔◌, and_iff, ==_iff, ◌<◌, ℕ, ◌≤◌, ltb, arith, ◌≡◌, refl, ◌∙◌, ◌≢◌, ◌⊎◌, inl, inr, Bool,
  true, false, not, ◌==◌, ◌||◌, Bool-cases, Option-cases, is_some, Option, none, some, List, [],
  ◌∷◌, All, select,
}
use campusassistant_api.Base.Table.{lookup, lookup-modify_self, lookup-modify_ne}
use campusassistant_api.Domain.{UserSubscription, User, Store}
use campusassistant_api.Subscription.{
  is_running, is_ahead, later_end, scan_ends, is_nonempty, expiry_of, recompute_pro, set_pro,
}

-- A pair of the loop of recomputePro accounts for a row's end: a row that never ends sets the flag,
-- and any other ends no later than the latest end.
abbrev pub Covers : Bool × Option ℕ → Option ℕ → Type 0
Covers res none = res.0 ≡ true
Covers res (some e) = (x : ℕ) × (res.1 ≡ some x) × (e ≤ x)

Covers-step :
    (l : Bool) (m end_date e : Option ℕ)
    → Covers (l, m) e ⊎ (e ≡ end_date)
    → Covers (l || not (is_some end_date), later_end m end_date) e
Covers-step l m none none h = ground arith
Covers-step l none none (some e) (inl k) = k
Covers-step l none none (some e) (inr h) = cc
Covers-step l (some n) none (some e) (inl k) = k
Covers-step l (some n) none (some e) (inr h) = cc
Covers-step l m (some d) none (inl k) = ground arith
Covers-step l m (some d) none (inr h) = cc
Covers-step l none (some d) (some e) (inl (x, p, q)) = cc
Covers-step l none (some d) (some e) (inr h) =
    let same : e ≡ d = cc in (d, refl, rw same (omega arith))
Covers-step l (some n) (some d) (some e) (inl (x, p, q)) =
    let same : n ≡ x = cc in
    elim (Bool-cases (ltb n d)) [
      | inl b ↦ rw b (d, refl, ground arith)
      | inr b ↦ rw b (n, refl, ground arith)
    ]
Covers-step l (some n) (some d) (some e) (inr h) =
    let same : e ≡ d = cc in
    elim (Bool-cases (ltb n d)) [
      | inl b ↦ rw b (d, refl, ground arith)
      | inr b ↦ rw b (n, refl, ground arith)
    ]

scan_ends-Covers :
    (l : Bool) (m e : Option ℕ) (subs : List (ℕ × UserSubscription))
    → Covers (l, m) e
    → Covers (scan_ends l m subs) e
unfolding scan_ends
scan_ends-Covers l m e [] h = h
scan_ends-Covers l m e ((k, sub) ∷ subs) h =
    scan_ends-Covers (l || not (is_some sub.end_date)) (later_end m sub.end_date) e subs
      (Covers-step l m sub.end_date e (inl h))

scan_ends-All :
    (l : Bool) (m : Option ℕ) (subs : List (ℕ × UserSubscription))
    → All (λ row. Covers (scan_ends l m subs) row.1.end_date) subs
unfolding scan_ends
scan_ends-All l m [] = tt
scan_ends-All l m ((k, sub) ∷ subs) = (
  scan_ends-Covers (l || not (is_some sub.end_date)) (later_end m sub.end_date) sub.end_date subs
      (Covers-step l m sub.end_date sub.end_date (inr refl)),
  scan_ends-All (l || not (is_some sub.end_date)) (later_end m sub.end_date) subs,
)

-- The user's expiry reaches a row's end: it is not set, or it is no earlier.
abbrev pub Reaches : Option ℕ → Option ℕ → Type 0
Reaches none e = Unit
Reaches (some x) none = ⊥
Reaches (some x) (some e) = e ≤ x

Reaches-expiry_of :
    (res : Bool × Option ℕ) (e : Option ℕ) → Covers res e → Reaches (expiry_of res) e
Reaches-expiry_of (true, m) e h = tt
Reaches-expiry_of (false, none) none h = cc
Reaches-expiry_of (false, none) (some e) h = tt
Reaches-expiry_of (false, some x) none h = cc
Reaches-expiry_of (false, some x) (some e) (y, p, q) = let same : x ≡ y = cc in omega arith

All-Reaches :
    (res : Bool × Option ℕ) (subs : List (ℕ × UserSubscription))
    → All (λ row. Covers res row.1.end_date) subs
    → All (λ row. Reaches (expiry_of res) row.1.end_date) subs
All-Reaches res [] h = tt
All-Reaches res (row ∷ rows) (c, h) =
    (Reaches-expiry_of res row.1.end_date c, All-Reaches res rows h)

flag_source : (l : Bool) (e : Option ℕ) → (l || not (is_some e)) ≡ true → (l ≡ true) ⊎ (e ≡ none)
flag_source true e h = inl refl
flag_source false none h = inr refl
flag_source false (some e) h = cc

later_end_source : (m e : Option ℕ) (x : ℕ) → later_end m e ≡ some x → (m ≡ some x) ⊎ (e ≡ some x)
later_end_source none e x h = inr h
later_end_source (some a) none x h = inl h
later_end_source (some a) (some b) x h = elim (Bool-cases (ltb a b)) [
  | inl c ↦ inr (rw c at h)
  | inr c ↦ inl (rw c at h)
]

-- Where a flag or a latest end comes from.
scan_ends-source :
    (l : Bool) (m : Option ℕ) (subs : List (ℕ × UserSubscription))
    → ((scan_ends l m subs).0 ≡ true → (l ≡ true) ⊎ Any (λ row. row.1.end_date ≡ none) subs)
      × ((x : ℕ)
          → (scan_ends l m subs).1 ≡ some x
          → (m ≡ some x) ⊎ Any (λ row. row.1.end_date ≡ some x) subs)
unfolding scan_ends
scan_ends-source l m [] = ((λ h. inl h), (λ x h. inl h))
scan_ends-source l m ((k, sub) ∷ subs) =
    let (a, b) =
      scan_ends-source (l || not (is_some sub.end_date)) (later_end m sub.end_date) subs in
    (
      (λ h. elim (a h) [
        | inl p ↦ elim (flag_source l sub.end_date p) [ inl q ↦ inl q | inr q ↦ inr (inl q) ]
        | inr q ↦ inr (inr q)
      ]),
      (λ x h. elim (b x h) [
        | inl p ↦ elim (later_end_source m sub.end_date x p) [ inl q ↦ inl q | inr q ↦ inr (inl q) ]
        | inr q ↦ inr (inr q)
      ]),
    )

expiry_of_lifetime : (res : Bool × Option ℕ) → res.0 ≡ true → expiry_of res ≡ none
expiry_of_lifetime (true, m) h = refl
expiry_of_lifetime (false, m) h = cc

expiry_of_latest : (res : Bool × Option ℕ) → res.0 ≡ false → expiry_of res ≡ res.1
expiry_of_latest (true, m) h = cc
expiry_of_latest (false, m) h = refl

not_covered :
    {res : Bool × Option ℕ} (e : Option ℕ) → res.0 ≡ false → res.1 ≡ none → Covers res e → ⊥
not_covered none h k c = cc
not_covered (some e) h k (x, p, q) = cc

ends_at :
    (rows : List (ℕ × UserSubscription)) {o x : Option ℕ}
    → o ≡ x
    → Any (λ row. row.1.end_date ≡ x) rows
    → Any (λ row. row.1.end_date ≡ o) rows
ends_at rows h p = rw h p

-- The expiry is the end of one of the rows, if there is one.
expiry_of-attained :
    (rows : List (ℕ × UserSubscription))
    → is_nonempty rows ≡ true
    → Any (λ row. row.1.end_date ≡ expiry_of (scan_ends false none rows)) rows
expiry_of-attained [] h = cc
expiry_of-attained (row ∷ rows) h =
    let all = row ∷ rows in
    let (a, b) = scan_ends-source false none all in
    elim (Bool-cases (scan_ends false none all).0) [
      | inl e ↦ elim (a e) [
        | inl p ↦ cc
        | inr p ↦ ends_at all (expiry_of_lifetime (scan_ends false none all) e) p
      ]
      | inr e ↦ elim (Option-cases (scan_ends false none all).1) [
        | inl g ↦ absurd (not_covered row.1.end_date e g (scan_ends-All false none all).0)
        | inr (x, g) ↦ elim (b x g) [
          | inl p ↦ cc
          | inr p ↦ ends_at all (expiry_of_latest (scan_ends false none all) e ∙ g) p
        ]
      ]
    ]

-- A subscription that counts toward Pro: the user's, not refunded, and not over.
abbrev EndsAfter : ℕ → Option ℕ → Type 0
EndsAfter now none = Unit
EndsAfter now (some e) = now < e

abbrev pub Counts : ℕ → ℕ → ℕ × UserSubscription → Type 0
Counts user_id now (_, sub) =
    (sub.user_id ≡ user_id) × (sub.refunded_at ≡ none) × EndsAfter now sub.end_date

is_none_iff : {A : Type 0} (o : Option A) → (not (is_some o) ≡ true) ↔ (o ≡ none)
is_none_iff none = ((λ h. refl), (λ h. refl))
is_none_iff (some a) = ((λ h. cc), (λ h. cc))

still_ahead_iff :
    (now : ℕ) (e : Option ℕ) → ((not (is_some e) || is_ahead now e) ≡ true) ↔ EndsAfter now e
still_ahead_iff now none = ((λ h. tt), (λ h. refl))
still_ahead_iff now (some e) = ground arith

is_running_iff :
    (user_id now : ℕ) (row : ℕ × UserSubscription)
    → (is_running user_id now row ≡ true) ↔ Counts user_id now row
is_running_iff user_id now (k, sub) =
    let (f, g) = and_iff (sub.user_id == user_id) _ (==_iff sub.user_id user_id) (
      and_iff (not (is_some sub.refunded_at)) _ (is_none_iff sub.refunded_at)
        (still_ahead_iff now sub.end_date)) in
    ((λ h. let (a, b) = f h in (a, b.0, b.1)), (λ h. g (h.0, (h.1, h.2))))

-- From the rows that were found to the whole table.
module _ {A : Type 0} (p : A → Bool) (P : A → Type 0) (iff : (x : A) → (p x ≡ true) ↔ P x) where
  select-All_back : (Q : A → Type 0) (xs : List A) → All Q (select p xs) → All (λ x. P x → Q x) xs
  select-All_back Q [] h = tt
  select-All_back Q (x ∷ xs) h = elim (Bool-cases (p x)) [
    | inl e ↦ let k : All Q (x ∷ select p xs) = rw e at h in ((λ _. k.0), select-All_back Q xs k.1)
    | inr e ↦ ((λ l. cc ((iff x).1 l)), select-All_back Q xs (rw e at h))
  ]

  select-Any_back : (Q : A → Type 0) (xs : List A) → Any Q (select p xs) → Any (λ x. P x × Q x) xs
  select-Any_back Q [] h = absurd h
  select-Any_back Q (x ∷ xs) h = elim (Bool-cases (p x)) [
    | inl e ↦
        let k : Any Q (x ∷ select p xs) = rw e at h in
        elim k [ inl l ↦ inl ((iff x).0 e, l) | inr l ↦ inr (select-Any_back Q xs l) ]
    | inr e ↦ inr (select-Any_back Q xs (rw e at h))
  ]

is_nonempty-select :
    (p : ℕ × UserSubscription → Bool) (P : ℕ × UserSubscription → Type 0)
    (rows : List (ℕ × UserSubscription))
    → ((x : ℕ × UserSubscription) → (p x ≡ true) ↔ P x)
    → (is_nonempty (select p rows) ≡ true) ↔ Any P rows
is_nonempty-select p P [] iff = ((λ h. cc), (λ h. absurd h))
is_nonempty-select p P (x ∷ xs) iff = elim (Bool-cases (p x)) [
  | inl e ↦ ((λ h. inl ((iff x).0 e)), (λ h. rw e refl))
  | inr e ↦
      let (a, b) = is_nonempty-select p P xs iff in
      ((λ h. inr (a (rw e at h))), (λ h. elim h [ inl k ↦ cc ((iff x).1 k) | inr k ↦ rw e (b k) ]))
]

empty_expiry :
    (rows : List (ℕ × UserSubscription))
    → is_nonempty rows ≡ false
    → expiry_of (scan_ends false none rows) ≡ none
unfolding scan_ends
empty_expiry [] h = refl
empty_expiry (row ∷ rows) h = cc

-- A user is Pro if a subscription of theirs counts, until the latest end of those that do.
abbrev pub IsProUntil : ℕ → ℕ → List (ℕ × UserSubscription) → Bool × Option ℕ → Type 0
IsProUntil user_id now subs (is_pro, expiry) =
    ((is_pro ≡ true) ↔ Any (Counts user_id now) subs)
    × All (λ row. Counts user_id now row → Reaches expiry row.1.end_date) subs
    × (is_pro ≡ true → Any (λ row. Counts user_id now row × (row.1.end_date ≡ expiry)) subs)
    × (is_pro ≡ false → expiry ≡ none)

running-IsProUntil :
    (user_id now : ℕ) (subs : List (ℕ × UserSubscription))
    → let rows = select (is_running user_id now) subs in
      IsProUntil user_id now subs (is_nonempty rows, expiry_of (scan_ends false none rows))
running-IsProUntil user_id now subs =
    let rows = select (is_running user_id now) subs in
    let res = scan_ends false none rows in
    let iff = is_running_iff user_id now in
    (
      is_nonempty-select (is_running user_id now) (Counts user_id now) subs iff,
      select-All_back (is_running user_id now) (Counts user_id now) iff
          (λ row. Reaches (expiry_of res) row.1.end_date) subs
          (All-Reaches res rows (scan_ends-All false none rows)),
      (λ h.
          select-Any_back (is_running user_id now) (Counts user_id now) iff
            (λ row. row.1.end_date ≡ expiry_of res) subs (expiry_of-attained rows h)),
      empty_expiry rows,
    )

-- recomputePro makes a known user Pro exactly if a subscription of theirs counts: one that is not
-- refunded and that never ends or ends after now. It sets the expiry to the latest end of those,
-- to none if one never ends or if there is none, and it changes
-- nothing else of the user and nothing of the others.
pub recompute_pro-IsProUntil :
    (user_id : ℕ) (s : Store) (u : User)
    → lookup user_id s.users ≡ some u
    → (is_pro : Bool) × (expiry : Option ℕ) × (lookup user_id (recompute_pro user_id s).users
        ≡ some (record u { is_pro = is_pro; pro_expiry = expiry }))
      × IsProUntil user_id s.now s.subscriptions (is_pro, expiry)
      × ((other : ℕ)
          → other ≢ user_id
          → lookup other (recompute_pro user_id s).users ≡ lookup other s.users)
unfolding recompute_pro
recompute_pro-IsProUntil user_id s u found =
    let rows = select (is_running user_id s.now) s.subscriptions in
    let expiry = expiry_of (scan_ends false none rows) in
    (
      is_nonempty rows,
      expiry,
      lookup-modify_self user_id (set_pro (is_nonempty rows) expiry) s.users found,
      running-IsProUntil user_id s.now s.subscriptions,
      (λ other h. lookup-modify_ne other user_id (set_pro (is_nonempty rows) expiry) s.users h),
    )
