-- ===== src/Perks/Latest.antt =====
-- ResolveGrantPerks of internal/service/access_grant.go against the list of the ends that apply.
use campusassistant_api.Base.{
  Any, ℕ, ◌≤◌, arith, ◌≡◌, refl, sym, ap, ◌∙◌, ◌⊎◌, inl, inr, Bool, true, false, ◌||◌, Bool-cases,
  Option-cases, Option, none, some, List, [], ◌∷◌, All, if◌then◌else◌,
}
use campusassistant_api.Domain.{AccessGrant, GrantPerks, Store, Result, ok}
use campusassistant_api.Perks.{
  grant_until, later, extend, extend_if, Merging, merge, merge_until, merge_each, no_perks,
  to_perks, UserScope, load_user_scope, grants_of, resolve_grant_perks,
}

-- An end that is not after another; `none` never ends.
abbrev pub Within : Option ℕ → Option ℕ → Type 0
Within a none = Unit
Within none (some b) = ⊥
Within (some a) (some b) = a ≤ b

-- The ends of the grants that apply and switch a perk on.
unfoldable pub ends_of : (AccessGrant → Bool) → ℕ → ℕ → List AccessGrant → List (Option ℕ)
ends_of gives created now [] = []
ends_of gives created now (g ∷ gs) =
    let rest = ends_of gives created now gs in
    elim (grant_until g created now) [
      | none ↦ rest
      | some until ↦ if gives g then until ∷ rest else rest
    ]

abbrev pub is_nonempty_ends : List (Option ℕ) → Bool
is_nonempty_ends [] = false
is_nonempty_ends (_ ∷ _) = true

-- A perk is on if some grant switches it on, until the latest of their ends.
abbrev pub IsLatest : List (Option ℕ) → Bool × Option ℕ → Type 0
IsLatest ends (on, until) =
    (on ≡ is_nonempty_ends ends)
    × All (λ e. Within e until) ends
    × (on ≡ true → Any (λ e. e ≡ until) ends)

latest : List (Option ℕ) → Bool × Option ℕ → Bool × Option ℕ
latest [] p = p
latest (e ∷ es) p = latest es (extend e p)

Within-refl : (a : Option ℕ) → Within a a
Within-refl none = tt
Within-refl (some a) = omega arith

Within-trans : (a b c : Option ℕ) → Within a b → Within b c → Within a c
Within-trans a b none h k = tt
Within-trans a none (some c) h k = absurd k
Within-trans none (some b) (some c) h k = absurd h
Within-trans (some a) (some b) (some c) h k = omega arith

later-Within : (a b : Option ℕ) → later a b ≡ true → Within b a
unfolding later
later-Within none b h = tt
later-Within (some a) none h = cc
later-Within (some a) (some b) h = ground arith

not_later-Within : (a b : Option ℕ) → later a b ≡ false → Within a b
unfolding later
not_later-Within a none h = tt
not_later-Within none (some b) h = cc
not_later-Within (some a) (some b) h = ground arith

-- What a run of `latest` from a perk leaves.
abbrev Extends : Bool × Option ℕ → List (Option ℕ) → Bool × Option ℕ → Type 0
Extends p ends q =
    (q.0 ≡ (p.0 || is_nonempty_ends ends))
    × (p.0 ≡ true → Within p.1 q.1)
    × All (λ e. Within e q.1) ends
    × (q.0 ≡ true → ((p.0 ≡ true) × (p.1 ≡ q.1)) ⊎ Any (λ e. e ≡ q.1) ends)

Extends-step :
    (e : Option ℕ) (es : List (Option ℕ)) (p r : Bool × Option ℕ)
    → Extends (extend e p) es r
    → Extends p (e ∷ es) r
Extends-step e es (true, u) r x = elim (Bool-cases (later e u)) [
  | inl h ↦
      let (a, b, c, d) = rw h at x in
      (
        a,
        (λ k. Within-trans u e r.1 (later-Within e u h) (b refl)),
        (b refl, c),
        (λ k. elim (d k) [ inl p ↦ inr (inl p.1) | inr q ↦ inr (inr q) ]),
      )
  | inr h ↦
      let (a, b, c, d) = rw h at x in
      (
        a,
        b,
        (Within-trans e u r.1 (not_later-Within e u h) (b refl), c),
        (λ k. elim (d k) [ inl p ↦ inl p | inr q ↦ inr (inr q) ]),
      )
]
Extends-step e es (false, u) r (a, b, c, d) =
    (a, (λ k. cc), (b refl, c), (λ k. elim (d k) [ inl p ↦ inr (inl p.1) | inr q ↦ inr (inr q) ]))

latest-Extends : (ends : List (Option ℕ)) (p : Bool × Option ℕ) → Extends p ends (latest ends p)
unfolding latest
latest-Extends [] (on, u) = (ground arith, (λ h. Within-refl u), tt, (λ h. inl (h, refl)))
latest-Extends (e ∷ es) p =
    Extends-step e es p (latest es (extend e p)) (latest-Extends es (extend e p))

latest-IsLatest : (ends : List (Option ℕ)) (u : Option ℕ) → IsLatest ends (latest ends (false, u))
latest-IsLatest ends u =
    let (a, b, c, d) = latest-Extends ends (false, u) in
    (a, c, (λ k. elim (d k) [ inl p ↦ cc p.0 | inr q ↦ q ]))

abbrev perk_step : Bool → Option (Option ℕ) → Bool × Option ℕ → Bool × Option ℕ
perk_step gives none p = p
perk_step gives (some u) p = extend_if gives u p

latest_no_ends :
    (gives : AccessGrant → Bool) (created now : ℕ) (p : Bool × Option ℕ)
    → latest (ends_of gives created now []) p ≡ p
unfolding ends_of latest
latest_no_ends gives created now p = refl

latest-ends_of :
    (gives : AccessGrant → Bool) (created now : ℕ) (g : AccessGrant) (gs : List AccessGrant)
    (p : Bool × Option ℕ)
    → latest (ends_of gives created now (g ∷ gs)) p
      ≡ latest (ends_of gives created now gs) (perk_step (gives g) (grant_until g created now) p)
unfolding ends_of latest
latest-ends_of gives created now g gs p = elim (Option-cases (grant_until g created now)) [
  | inl e ↦ rw (ends_of, e)
  | inr (u, e) ↦ elim (Bool-cases (gives g)) [
    | inl a ↦ rw (ends_of, e, a)
    | inr a ↦ rw (ends_of, e, a)
  ]
]

merge_until-ad_free :
    (g : AccessGrant) (o : Option (Option ℕ)) (m : Merging)
    → (merge_until g o m).ad_free ≡ perk_step g.ad_free o m.ad_free
unfolding merge
merge_until-ad_free g none m = refl
merge_until-ad_free g (some u) m = elim (Bool-cases g.ad_free) [
  | inl a ↦ rw a
  | inr a ↦ elim (Bool-cases g.coin_free) [ inl b ↦ rw (a, b) | inr b ↦ rw (a, b) ]
]

merge_each-ad_free :
    (created now : ℕ) (gs : List AccessGrant) (m : Merging)
    → (merge_each created now gs m).ad_free
      ≡ latest (ends_of (λ g. g.ad_free) created now gs) m.ad_free
unfolding merge_each
merge_each-ad_free created now [] m = sym (latest_no_ends (λ g. g.ad_free) created now m.ad_free)
merge_each-ad_free created now (g ∷ gs) m =
    merge_each-ad_free created now gs (merge_until g (grant_until g created now) m)
    ∙ ap (latest (ends_of (λ h. h.ad_free) created now gs))
        (merge_until-ad_free g (grant_until g created now) m)
    ∙ sym (latest-ends_of (λ h. h.ad_free) created now g gs m.ad_free)

merge_until-coin_free :
    (g : AccessGrant) (o : Option (Option ℕ)) (m : Merging)
    → (merge_until g o m).coin_free ≡ perk_step g.coin_free o m.coin_free
unfolding merge
merge_until-coin_free g none m = refl
merge_until-coin_free g (some u) m = elim (Bool-cases g.ad_free) [
  | inl a ↦ rw a
  | inr a ↦ elim (Bool-cases g.coin_free) [ inl b ↦ rw (a, b) | inr b ↦ rw (a, b) ]
]

merge_each-coin_free :
    (created now : ℕ) (gs : List AccessGrant) (m : Merging)
    → (merge_each created now gs m).coin_free
      ≡ latest (ends_of (λ g. g.coin_free) created now gs) m.coin_free
unfolding merge_each
merge_each-coin_free created now [] m =
    sym (latest_no_ends (λ g. g.coin_free) created now m.coin_free)
merge_each-coin_free created now (g ∷ gs) m =
    merge_each-coin_free created now gs (merge_until g (grant_until g created now) m)
    ∙ ap (latest (ends_of (λ h. h.coin_free) created now gs))
        (merge_until-coin_free g (grant_until g created now) m)
    ∙ sym (latest-ends_of (λ h. h.coin_free) created now g gs m.coin_free)

result_value : {p q : GrantPerks} → ◌≡◌ {A = Result GrantPerks} (ok p) (ok q) → p ≡ q
result_value h = cc

-- What ResolveGrantPerks answers for a user: each perk is on exactly if a grant that covers the user
-- and still applies switches it on, and then until the latest of the ends of those grants.
pub resolve_grant_perks-IsLatest :
    (user_id : ℕ) (sc : UserScope) (p : GrantPerks) (s : Store)
    → load_user_scope user_id s ≡ (ok sc, s)
    → (resolve_grant_perks user_id s).0 ≡ ok p
    → let gs = grants_of user_id sc s in
      IsLatest (ends_of (λ g. g.ad_free) sc.created_at s.now gs) (p.ad_free, p.ad_free_until)
      × IsLatest
          (ends_of (λ g. g.coin_free) sc.created_at s.now gs)
          (p.coin_free, p.coin_free_until)
unfolding resolve_grant_perks
resolve_grant_perks-IsLatest user_id sc p s loaded h =
    let gs = grants_of user_id sc s in
    let same : to_perks (merge_each sc.created_at s.now gs no_perks) ≡ p =
      result_value (rw loaded at h) in
    rw
      (
        ← same,
        merge_each-ad_free sc.created_at s.now gs no_perks,
        merge_each-coin_free sc.created_at s.now gs no_perks,
      )
      (
        latest-IsLatest (ends_of (λ g. g.ad_free) sc.created_at s.now gs) none,
        latest-IsLatest (ends_of (λ g. g.coin_free) sc.created_at s.now gs) none,
      )
