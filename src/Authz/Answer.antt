-- ===== src/Authz/Answer.antt =====
-- Whom Can of internal/authz/moderator.go lets do what.
use campusassistant_api.Base.{ℕ, ◌≡◌}
use campusassistant_api.Domain.{Moderator}
use campusassistant_api.Authz.{Permission, Target, Actor}
use campusassistant_api.Authz.Scopes.{Allows, HasTerm, Moderates}

-- What a row must be for the permission.
abbrev pub Permits : Actor → Permission → Target → ℕ → Moderator → Type 0
Permits actor p t now m =
    ((HasTerm now m × (m.user_id ≡ actor.user_id)) × Moderates t m) × Allows p m.scope_type
