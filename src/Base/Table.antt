-- ===== src/Base/Table.antt =====
-- A database table: rows under their primary keys, oldest first. A key that stands twice never
-- arises (`create` takes a fresh key); `lookup` reads the first row, `modify` writes every match.
use Prim.Native.Nat.{ℕ}
use mathlib.Core.Path.{◌≡◌, refl}
use mathlib.Core.Logic.{◌≢◌, inl, inr}
use mathlib.Core.Option.{Option, none, some}
use mathlib.Core.Option
use mathlib.Core.List.{List, [], ◌∷◌, ◌++◌}
use native.Mathlib.Omega.{arith}
use campusassistant_api.Base.Tests.{◌==◌, ==_refl, Bool-cases, if◌then◌else◌}
use campusassistant_api.Base.Lists.{find}
use mathlib.Core.Bool.{Bool}

abbrev pub Table {ℓ} : Type ℓ → Type ℓ
Table A = List (ℕ × A)

module _ {ℓ} {A : Type ℓ} where
  -- `First(&row, "id = ?", k)`
  abbrev pub lookup : ℕ → Table A → Option A
  lookup k [] = none
  lookup k ((j, v) ∷ t) = if j == k then some v else lookup k t

  -- `Model().Where("id = ?", k).Updates(...)`
  abbrev pub modify : ℕ → (A → A) → Table A → Table A
  modify k f [] = []
  modify k f ((j, v) ∷ t) = (j, if j == k then f v else v) ∷ modify k f t

  -- `Create(&row)`
  abbrev pub insert : ℕ → A → Table A → Table A
  insert k v t = t ++ (k, v) ∷ []

  pub lookup-modify :
      (j k : ℕ) (f : A → A) (t : Table A)
      → lookup j (modify k f t) ≡ (if k == j then Option.map f (lookup j t) else lookup j t)
  lookup-modify j k f [] = ground arith
  lookup-modify j k f ((i, v) ∷ t) = ground (arith, lookup-modify j k f t)

  pub lookup-modify_self :
      (k : ℕ) (f : A → A) (t : Table A) {v : A}
      → lookup k t ≡ some v
      → lookup k (modify k f t) ≡ some (f v)
  lookup-modify_self k f t h = ground (arith, lookup-modify k k f t)

  pub lookup-modify_ne :
      (j k : ℕ) (f : A → A) (t : Table A) → j ≢ k → lookup j (modify k f t) ≡ lookup j t
  lookup-modify_ne j k f t h = ground (arith, lookup-modify j k f t)

  pub lookup-insert :
      (j k : ℕ) (v : A) (t : Table A)
      → lookup k t ≡ none
      → lookup j (insert k v t) ≡ (if k == j then some v else lookup j t)
  lookup-insert j k v [] h = refl
  lookup-insert j k v ((i, w) ∷ t) h = ground (arith, lookup-insert j k v t)

  pub lookup-insert_other :
      (j k : ℕ) (v w : A) (t : Table A) → lookup j t ≡ some w → lookup j (insert k v t) ≡ some w
  lookup-insert_other j k v w [] h = ground arith
  lookup-insert_other j k v w ((i, u) ∷ t) h = ground (arith, lookup-insert_other j k v w t)

  found_key : {i k : ℕ} {v w : A} → ◌≡◌ {A = Option (ℕ × A)} (some (i, w)) (some (k, v)) → i ≡ k
  found_key h = cc

  found_row :
      (f : A → A) {i k : ℕ} {v w : A}
      → ◌≡◌ {A = Option (ℕ × A)} (some (i, w)) (some (k, v))
      → ◌≡◌ {A = Option (ℕ × A)} (some (i, f w)) (some (k, f v))
  found_row f h = cc

  -- Writing to the first row that a search finds, so that the search finds the row still.
  pub find-modify :
      (p : ℕ × A → Bool) (k : ℕ) (f : A → A) (t : Table A) {v : A}
      → ((i : ℕ) (w : A) → p (i, f w) ≡ p (i, w))
      → find p t ≡ some (k, v)
      → find p (modify k f t) ≡ some (k, f v)
  find-modify p k f [] keeps h = cc
  find-modify p k f ((i, w) ∷ t) keeps h = elim (Bool-cases (p (i, w))) [
    | inl e ↦ elim (Bool-cases (i == k)) [
      | inl q ↦ rw (q, keeps i w, e) (found_row f (rw e at h))
      | inr q ↦ cc (==_refl k, found_key (rw e at h))
    ]
    | inr e ↦ elim (Bool-cases (i == k)) [
      | inl q ↦ rw (q, keeps i w, e) (find-modify p k f t keeps (rw e at h))
      | inr q ↦ rw (q, e) (find-modify p k f t keeps (rw e at h))
    ]
  ]

  -- A row that was inserted is found, or an older one under its key.
  pub lookup-insert-some :
      (k : ℕ) (v : A) (t : Table A) → (w : A) × (lookup k (insert k v t) ≡ some w)
  lookup-insert-some k v [] = (v, (rw (==_refl k)))
  lookup-insert-some k v ((i, w) ∷ t) = elim (Bool-cases (i == k)) [
    | inl e ↦ (w, rw e)
    | inr e ↦ let (u, h) = lookup-insert-some k v t in (u, rw e h)
  ]
