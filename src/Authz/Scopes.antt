-- ===== src/Authz/Scopes.antt =====
-- What the tests of Can (internal/authz/moderator.go) say of a row.
use campusassistant_api.Base.{
  ==_refl, and_iff, or_iff, exists-append, ℕ, ◌≤◌, ◌<◌, arith, ◌≡◌, ◌≢◌, refl, ◌↔◌, ◌⊎◌, inl, inr,
  Bool, true, ◌&&◌, ◌||◌, ◌==◌, ==_iff, Bool-cases, Option, none, some, [], ◌∷◌, ◌++◌, exists,
}
use campusassistant_api.Domain.{ModeratorScope, Moderator}
use campusassistant_api.Authz.{
  Permission, Target, eq_permission, eq_scope, everywhere, permissions, active_moderator,
  has_started, has_not_ended, condition_on, scope_conditions, meets, permits,
}

-- Only moderators of a department or a university review resources.
abbrev pub Allows : Permission → ModeratorScope → Type 0
Allows p scope =
    (p ≢ Permission.resources_review)
    ⊎ ((scope ≡ ModeratorScope.department) ⊎ (scope ≡ ModeratorScope.university))

abbrev pub From : Option ℕ → ℕ → Type 0
From none now = Unit
From (some t) now = t ≤ now

abbrev pub Until : Option ℕ → ℕ → Type 0
Until none now = Unit
Until (some t) now = now < t

abbrev pub HasTerm : ℕ → Moderator → Type 0
HasTerm now m = (m.is_active ≡ true) × (From m.term_start now × Until m.term_end now)

abbrev pub IsAt : ModeratorScope → ℕ → Moderator → Type 0
IsAt scope id m = (id ≢ 0) × ((m.scope_type ≡ scope) × (m.scope_id ≡ id))

-- The target is the moderator's batch, or lies in its department or university.
abbrev pub Moderates : Target → Moderator → Type 0
Moderates t m =
    IsAt ModeratorScope.batch t.batch_id m
    ⊎ (IsAt ModeratorScope.department t.department_id m
        ⊎ IsAt ModeratorScope.university t.university_id m)

eq_scope-eq : (a b : ModeratorScope) → eq_scope a b ≡ true → a ≡ b
eq_scope-eq ModeratorScope.batch ModeratorScope.batch h = refl
eq_scope-eq ModeratorScope.department ModeratorScope.department h = refl
eq_scope-eq ModeratorScope.university ModeratorScope.university h = refl
eq_scope-eq (ModeratorScope.other m) (ModeratorScope.other n) h = rw ((==_iff m n).0 h) refl
eq_scope-eq _ _ h = cc

eq_scope_refl : (a : ModeratorScope) → eq_scope a a ≡ true
eq_scope_refl ModeratorScope.batch = refl
eq_scope_refl ModeratorScope.department = refl
eq_scope_refl ModeratorScope.university = refl
eq_scope_refl (ModeratorScope.other n) = ==_refl n

eq_scope_iff : (a b : ModeratorScope) → (eq_scope a b ≡ true) ↔ (a ≡ b)
eq_scope_iff a b = (eq_scope-eq a b, (λ e. rw e (eq_scope_refl b)))

permits_widely :
    (p : Permission) (scope : ModeratorScope)
    → exists (λ q. eq_permission q p) everywhere ≡ true
    → exists (λ q. eq_permission q p) (permissions scope) ≡ true
permits_widely p scope h =
    elim (Bool-cases
      (eq_scope scope ModeratorScope.department || eq_scope scope ModeratorScope.university)) [
        | inl e ↦
            rw
              (
                e,
                exists-append (λ q. eq_permission q p) everywhere
                    (Permission.resources_review ∷ []),
                h,
              )
              refl
        | inr e ↦ rw (e, h) refl
      ]

reviews_iff :
    (scope : ModeratorScope)
    → (exists (λ q. eq_permission q Permission.resources_review) (permissions scope) ≡ true)
      ↔ ((scope ≡ ModeratorScope.department) ⊎ (scope ≡ ModeratorScope.university))
reviews_iff scope =
    let (a, b) =
      or_iff (eq_scope scope ModeratorScope.department) (eq_scope scope ModeratorScope.university)
        (eq_scope_iff scope ModeratorScope.department)
        (eq_scope_iff scope ModeratorScope.university) in
    elim (Bool-cases
      (eq_scope scope ModeratorScope.department || eq_scope scope ModeratorScope.university)) [
        | inl e ↦ rw e ((λ h. a e), (λ h. refl))
        | inr e ↦ rw e ((λ h. cc), (λ h. cc (b h)))
      ]

abbrev is_review : Permission → Bool
is_review p = eq_permission p Permission.resources_review

permission_cases :
    (p : Permission)
    → (p ≡ Permission.resources_review)
      ⊎ ((p ≢ Permission.resources_review) × (exists (λ q. eq_permission q p) everywhere ≡ true))
permission_cases Permission.codes_view = inr ((λ h. cc), refl)
permission_cases Permission.codes_regenerate = inr ((λ h. cc), refl)
permission_cases Permission.verifications_review = inr ((λ h. cc), refl)
permission_cases Permission.class_notices_manage = inr ((λ h. cc), refl)
permission_cases Permission.class_slots_manage = inr ((λ h. cc), refl)
permission_cases Permission.resources_review = inl refl
permission_cases Permission.resources_edit = inr ((λ h. cc), refl)

pub permits_iff : (p : Permission) (m : Moderator) → (permits p m ≡ true) ↔ Allows p m.scope_type
permits_iff p m = elim (permission_cases p) [
  | inl e ↦ rw e (
    (λ h. inr ((reviews_iff m.scope_type).0 h)),
    (λ h. elim h [ inl k ↦ absurd (k refl) | inr k ↦ (reviews_iff m.scope_type).1 k ]),
  )
  | inr (e, k) ↦ ((λ h. inl e), (λ h. permits_widely p m.scope_type k))
]

From-iff : (now : ℕ) (t : Option ℕ) → (has_started now t ≡ true) ↔ From t now
From-iff now none = ((λ h. tt), (λ h. refl))
From-iff now (some t) = ((λ h. ground arith), (λ h. ground arith))

Until-iff : (now : ℕ) (t : Option ℕ) → (has_not_ended now t ≡ true) ↔ Until t now
Until-iff now none = ((λ h. tt), (λ h. refl))
Until-iff now (some t) = ((λ h. ground arith), (λ h. ground arith))

pub HasTerm-iff : (now : ℕ) (m : Moderator) → (active_moderator now m ≡ true) ↔ HasTerm now m
HasTerm-iff now m =
    and_iff m.is_active (has_started now m.term_start && has_not_ended now m.term_end)
      ((λ h. h), (λ h. h))
      (and_iff (has_started now m.term_start) (has_not_ended now m.term_end)
        (From-iff now m.term_start) (Until-iff now m.term_end))

IsAt-iff :
    (scope : ModeratorScope) (id : ℕ) (m : Moderator)
    → (exists (meets m) (condition_on scope id) ≡ true) ↔ IsAt scope id m
IsAt-iff scope id m =
    let (a, b) =
      and_iff (eq_scope m.scope_type scope) (m.scope_id == id) (eq_scope_iff m.scope_type scope)
        (==_iff m.scope_id id) in
    elim (Bool-cases (id == 0)) [
      | inl e ↦ rw e ((λ h. cc), (λ h. absurd (h.0 ((==_iff id 0).0 e))))
      | inr e ↦ rw e (
        (λ h. elim (Bool-cases (meets m (scope, id))) [
          | inl k ↦ ((λ l. cc ((==_iff id 0).1 l)), a k)
          | inr k ↦ cc (rw k at h)
        ]),
        (λ h. rw (b h.1) refl),
      )
    ]

pub meets_iff :
    (t : Target) (m : Moderator) → (exists (meets m) (scope_conditions t) ≡ true) ↔ Moderates t m
meets_iff t m =
    let b = condition_on ModeratorScope.batch t.batch_id in
    let d = condition_on ModeratorScope.department t.department_id in
    let u = condition_on ModeratorScope.university t.university_id in
    rw (exists-append (meets m) b (d ++ u), exists-append (meets m) d u)
      (or_iff (exists (meets m) b) (exists (meets m) d || exists (meets m) u)
        (IsAt-iff ModeratorScope.batch t.batch_id m)
        (or_iff (exists (meets m) d) (exists (meets m) u)
          (IsAt-iff ModeratorScope.department t.department_id m)
          (IsAt-iff ModeratorScope.university t.university_id m)))
