-- ===== src/Base/Reflect.antt =====
-- Boolean tests and the predicates that they decide.
use mathlib.Core.Path.{◌≡◌, refl}
use mathlib.Core.Logic.{◌↔◌, ◌⊎◌, inl, inr}
use mathlib.Core.Bool.{Bool, true, false, ◌&&◌, ◌||◌}
use mathlib.Core.List.{List, [], ◌∷◌, ◌++◌}
use campusassistant_api.Base.Tests.{Bool-cases}
use campusassistant_api.Base.Lists.{exists}

pub and_iff :
    {P Q : Type 0} (a b : Bool) → (a ≡ true) ↔ P → (b ≡ true) ↔ Q → ((a && b) ≡ true) ↔ (P × Q)
and_iff true true h k = ((λ l. (h.0 refl, k.0 refl)), (λ l. refl))
and_iff true false h k = ((λ l. cc), (λ l. k.1 l.1))
and_iff false b h k = ((λ l. cc), (λ l. h.1 l.0))

pub or_iff :
    {P Q : Type 0} (a b : Bool) → (a ≡ true) ↔ P → (b ≡ true) ↔ Q → ((a || b) ≡ true) ↔ (P ⊎ Q)
or_iff true b h k = ((λ l. inl (h.0 refl)), (λ l. refl))
or_iff false true h k = ((λ l. inr (k.0 refl)), (λ l. refl))
or_iff false false h k = ((λ l. cc), (λ l. elim l [ inl m ↦ h.1 m | inr m ↦ k.1 m ]))

pub exists-append {ℓ} :
    {A : Type ℓ} (p : A → Bool) (xs ys : List A)
    → exists p (xs ++ ys) ≡ (exists p xs || exists p ys)
exists-append p [] ys = refl
exists-append p (x ∷ xs) ys = elim (Bool-cases (p x)) [
  | inl e ↦ rw e refl
  | inr e ↦ rw e (exists-append p xs ys)
]

pub false_or : (a b : Bool) → (a || b) ≡ false → (a ≡ false) × (b ≡ false)
false_or false b h = (refl, h)
false_or true b h = cc
