-- ===== src/Entitlement/Replacing.antt =====
-- What SetPlanEntitlements of internal/service/entitlement_service.go leaves in the table.
use campusassistant_api.Base.{ℕ, ◌≡◌, ◌⊎◌, false, ◌==◌, none, List, [], select, All}
use campusassistant_api.Base.Table.{lookup}
use campusassistant_api.Domain.{
  PlanEntitlement, Store, Result, ok, err, plan_not_found, invalid_entitlement,
}
use campusassistant_api.Entitlement.{is_row_of}
use campusassistant_api.Entitlement.Stored.{IsRow, Distinct, AreStored}

-- The table after the rows of a plan were replaced, and the plan exists.
abbrev pub IsReplaced :
    ℕ → List PlanEntitlement → Store → Result (List PlanEntitlement) × Store → Type 0
IsReplaced plan_id items s (ok rows, t) =
    (select (is_row_of plan_id) t.plan_entitlements ≡ rows)
    × ((other : ℕ)
        → (other == plan_id) ≡ false
        → select (is_row_of other) t.plan_entitlements
          ≡ select (is_row_of other) s.plan_entitlements)
    × All (IsRow plan_id) rows
    × Distinct [] rows
    × AreStored items rows
IsReplaced plan_id items s (err e, t) =
    (t ≡ s) × ((e ≡ invalid_entitlement) ⊎ ((e ≡ plan_not_found) × (lookup plan_id s.plans ≡ none)))
