-- ===== src/Perks.antt =====
-- Access grants: loadUserScope, grantUntil, later and ResolveGrantPerks of
-- internal/service/access_grant.go.
pub mod Latest
use Prim.Native.String.{String}
use text.Mathlib.Text.{◌==◌ as str_eq}
use campusassistant_api.Base.{
  ℕ, ◌+◌, ◌*◌, pos, pos_part, ltb_ℤ, ltb, leb, Bool, true, false, not, ◌&&◌, ◌||◌, ◌==◌,
  if◌then◌else◌, Option, none, some, List, [], ◌∷◌, find, select,
}
use campusassistant_api.Base.Table.{lookup}
use campusassistant_api.Domain.{
  day, User, Student, GrantScope, AccessGrant, GrantPerks, Store, Result, M, pure, gets, or_fail,
  record_not_found, ◌>>=◌,
}

-- `userScope`
pub record UserScope : Type 0 where
  pub created_at : ℕ
  pub university_id : Option ℕ
  pub department_id : Option ℕ
  pub batch_id : Option ℕ

abbrev pub same_id : Option ℕ → ℕ → Bool
same_id none n = false
same_id (some m) n = m == n

abbrev pub is_student_of : ℕ → Student → Bool
is_student_of user_id st = same_id st.user_id user_id

-- The user's own column, or the student's where that is nil.
abbrev pub or_else : Option ℕ → ℕ → Option ℕ
or_else none n = some n
or_else (some m) n = some m

unfoldable pub scope_of : User → Option Student → UserScope
scope_of u none = record {
  created_at = u.created_at;
  university_id = u.university_id;
  department_id = u.department_id;
  batch_id = none;
}
scope_of u (some st) = record {
  created_at = u.created_at;
  university_id = or_else u.university_id st.university_id;
  department_id = or_else u.department_id st.department_id;
  batch_id = some st.batch_id;
}

unfoldable pub load_user_scope : ℕ → M UserScope
load_user_scope user_id = do
  row ← gets (λ s. lookup user_id s.users)
  user ← or_fail row record_not_found
  student ← gets (λ s. find (is_student_of user_id) s.students)
  pure (scope_of user student)

abbrev pub is_over : ℕ → Option ℕ → Bool
is_over now none = false
is_over now (some t) = not (ltb now t)

abbrev pub earlier_cutoff : ℕ → Option ℕ → Option ℕ
earlier_cutoff cutoff none = some cutoff
earlier_cutoff cutoff (some t) = if ltb cutoff t then some cutoff else some t

-- The end for a user created at `created`, capped by the new-user window.
unfoldable pub grant_end : AccessGrant → ℕ → Option ℕ
grant_end g created =
    if ltb_ℤ (pos 0) g.new_user_days
    then earlier_cutoff (created + pos_part g.new_user_days * day) g.ends_at
    else g.ends_at

-- `none` when the grant no longer applies; `some none` when it never ends.
unfoldable pub grant_until : AccessGrant → ℕ → ℕ → Option (Option ℕ)
unfolding grant_end
grant_until g created now =
    if is_over now (grant_end g created) then none else some (grant_end g created)

unfoldable pub later : Option ℕ → Option ℕ → Bool
later none none = false
later none (some b) = true
later (some a) none = false
later (some a) (some b) = ltb b a

-- The WHERE clause on the dates.
abbrev pub is_current : ℕ → AccessGrant → Bool
is_current now g = leb g.starts_at now && not (is_over now g.ends_at)

abbrev pub is_scope : Option ℕ → Option ℕ → Bool
is_scope scope_id none = false
is_scope scope_id (some n) = same_id scope_id n

-- The WHERE clause on the scope.
abbrev pub covers_user : ℕ → UserScope → AccessGrant → Bool
covers_user user_id sc g = elim g.scope_type [
  | GrantScope.all ↦ true
  | GrantScope.user ↦ same_id g.scope_id user_id
  | GrantScope.university ↦ is_scope g.scope_id sc.university_id
  | GrantScope.department ↦ is_scope g.scope_id sc.department_id
  | GrantScope.batch ↦ is_scope g.scope_id sc.batch_id
  | GrantScope.other n ↦ false
]

-- One perk after a grant that switches it on until `until`.
abbrev pub extend : Option ℕ → Bool × Option ℕ → Bool × Option ℕ
extend until (on, end_at) = if not on || later until end_at then (true, until) else (on, end_at)

abbrev pub extend_if : Bool → Option ℕ → Bool × Option ℕ → Bool × Option ℕ
extend_if gives until p = if gives then extend until p else p

-- The variables of the loop: the perks, and the end of the grant whose label they carry.
pub record Merging : Type 0 where
  pub ad_free : Bool × Option ℕ
  pub coin_free : Bool × Option ℕ
  pub label : String
  pub label_until : Option ℕ

abbrev pub relabels : Option ℕ → Merging → Bool
relabels until m = str_eq m.label "" || later until m.label_until

-- One turn of the loop, for a grant that applies until `until`.
unfoldable pub merge : AccessGrant → Option ℕ → Merging → Merging
merge g until m = if not g.ad_free && not g.coin_free then m else record {
  ad_free = extend_if g.ad_free until m.ad_free;
  coin_free = extend_if g.coin_free until m.coin_free;
  label = if relabels until m then g.label else m.label;
  label_until = if relabels until m then until else m.label_until;
}

abbrev pub merge_until : AccessGrant → Option (Option ℕ) → Merging → Merging
merge_until g none m = m
merge_until g (some until) m = merge g until m

unfoldable pub merge_each : ℕ → ℕ → List AccessGrant → Merging → Merging
merge_each created now [] m = m
merge_each created now (g ∷ gs) m =
    merge_each created now gs (merge_until g (grant_until g created now) m)

abbrev pub no_perks : Merging
no_perks = record {
  ad_free = (false, none);
  coin_free = (false, none);
  label = "";
  label_until = none;
}

abbrev pub to_perks : Merging → GrantPerks
to_perks m = record {
  ad_free = m.ad_free.0;
  ad_free_until = m.ad_free.1;
  coin_free = m.coin_free.0;
  coin_free_until = m.coin_free.1;
  label = m.label;
}

-- The grants that the query finds for a user.
unfoldable pub grants_of : ℕ → UserScope → Store → List AccessGrant
grants_of user_id sc s =
    select (λ g. is_current s.now g && covers_user user_id sc g) s.access_grants

unfoldable pub resolve_grant_perks : ℕ → M GrantPerks
resolve_grant_perks user_id = do
  sc ← load_user_scope user_id
  m ← gets (λ s. merge_each sc.created_at s.now (grants_of user_id sc s) no_perks)
  pure (to_perks m)
