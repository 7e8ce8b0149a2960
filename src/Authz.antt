-- ===== src/Authz.antt =====
-- Moderator permissions: permissions and Can of internal/authz/moderator.go, and
-- ActiveModerator of internal/domain/moderator.go. An id of 0 is the nil UUID.
pub mod Scopes
pub mod Answer
use campusassistant_api.Base.{
  ℕ, leb, ltb, Bool, true, false, ◌&&◌, ◌||◌, ◌==◌, if◌then◌else◌, Option, none, some, List, [],
  ◌∷◌, ◌++◌, select, exists,
}
use campusassistant_api.Domain.{ModeratorScope, Moderator, M, pure, gets, ◌>>=◌}

pub data Permission : Type 0 where
  codes_view codes_regenerate verifications_review : Permission
  class_notices_manage class_slots_manage resources_review resources_edit : Permission

pub record Target : Type 0 where
  pub university_id : ℕ
  pub department_id : ℕ
  pub batch_id : ℕ

pub record Actor : Type 0 where
  pub user_id : ℕ
  pub is_admin : Bool

abbrev pub eq_permission : Permission → Permission → Bool
eq_permission Permission.codes_view Permission.codes_view = true
eq_permission Permission.codes_regenerate Permission.codes_regenerate = true
eq_permission Permission.verifications_review Permission.verifications_review = true
eq_permission Permission.class_notices_manage Permission.class_notices_manage = true
eq_permission Permission.class_slots_manage Permission.class_slots_manage = true
eq_permission Permission.resources_review Permission.resources_review = true
eq_permission Permission.resources_edit Permission.resources_edit = true
eq_permission _ _ = false

abbrev pub eq_scope : ModeratorScope → ModeratorScope → Bool
eq_scope ModeratorScope.batch ModeratorScope.batch = true
eq_scope ModeratorScope.department ModeratorScope.department = true
eq_scope ModeratorScope.university ModeratorScope.university = true
eq_scope (ModeratorScope.other m) (ModeratorScope.other n) = m == n
eq_scope _ _ = false

abbrev pub everywhere : List Permission
everywhere =
    Permission.codes_view ∷ Permission.codes_regenerate ∷ Permission.verifications_review
    ∷ Permission.class_notices_manage ∷ Permission.class_slots_manage ∷ Permission.resources_edit
    ∷ []

abbrev pub permissions : ModeratorScope → List Permission
permissions scope =
    if eq_scope scope ModeratorScope.department || eq_scope scope ModeratorScope.university
    then everywhere ++ Permission.resources_review ∷ []
    else everywhere

-- The condition of ActiveModerator.
abbrev pub has_started : ℕ → Option ℕ → Bool
has_started now none = true
has_started now (some t) = leb t now

abbrev pub has_not_ended : ℕ → Option ℕ → Bool
has_not_ended now none = true
has_not_ended now (some t) = ltb now t

abbrev pub active_moderator : ℕ → Moderator → Bool
active_moderator now m =
    m.is_active && (has_started now m.term_start && has_not_ended now m.term_end)

-- A condition on scope_type and scope_id.
abbrev pub Condition : Type 0
Condition = ModeratorScope × ℕ

abbrev pub condition_on : ModeratorScope → ℕ → List Condition
condition_on scope id = if id == 0 then [] else (scope, id) ∷ []

abbrev pub scope_conditions : Target → List Condition
scope_conditions t =
    condition_on ModeratorScope.batch t.batch_id
    ++ (condition_on ModeratorScope.department t.department_id
        ++ condition_on ModeratorScope.university t.university_id)

abbrev pub meets : Moderator → Condition → Bool
meets m (scope, id) = eq_scope m.scope_type scope && m.scope_id == id

-- The rows of the query of Can.
abbrev pub assignment_of : ℕ → ℕ → Moderator → Bool
assignment_of now user_id m = active_moderator now m && m.user_id == user_id

abbrev pub is_found : ℕ → ℕ → List Condition → Moderator → Bool
is_found now user_id conditions m = assignment_of now user_id m && exists (meets m) conditions

abbrev pub permits : Permission → Moderator → Bool
permits p m = exists (λ q. eq_permission q p) (permissions m.scope_type)

abbrev pub can_by : Actor → Permission → List Condition → M Bool
can_by actor p [] = pure false
can_by actor p (c ∷ cs) = do
  rows ← gets (λ s. select (is_found s.now actor.user_id (c ∷ cs)) s.moderators)
  pure (exists (permits p) rows)

unfoldable pub can : Actor → Permission → Target → M Bool
can actor p target =
    if actor.is_admin
    then pure true
    else (if actor.user_id == 0 then pure false else can_by actor p (scope_conditions target))
