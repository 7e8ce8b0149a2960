-- ===== src/Base/Lists.antt =====
-- Lists: length, a universal predicate, and filters by a Boolean test.
use Prim.Native.Nat.{ℕ, zero, suc, ◌≤◌}
use mathlib.Core.Path.{◌≡◌, refl}
use mathlib.Core.Logic.{◌⊎◌, inl, inr, ◌↔◌}
use mathlib.Core.Bool.{◌&&◌, Bool, true, false, ◌||◌}
use mathlib.Core.List.{List, [], ◌∷◌, ◌++◌}
use mathlib.Core.Option.{Option, none, some}
use native.Mathlib.Omega.{arith}
use campusassistant_api.Base.Tests.{if◌then◌else◌, Bool-cases}

-- Every element satisfies `P`.
abbrev pub All {ℓ κ} : {A : Type ℓ} → (A → Type κ) → List A → Type κ
All P [] = Unit
All P (x ∷ xs) = P x × All P xs

-- Some element satisfies `P`.
abbrev pub Any {ℓ} : {A : Type ℓ} → (A → Type 0) → List A → Type 0
Any P [] = ⊥
Any P (x ∷ xs) = P x ⊎ Any P xs

module _ {ℓ} {A : Type ℓ} where
  abbrev pub length : List A → ℕ
  length [] = 0
  length (x ∷ xs) = suc (length xs)

  -- `Where(...)`: the rows that pass, in order.
  abbrev pub select : (A → Bool) → List A → List A
  select p [] = []
  select p (x ∷ xs) = let rest = select p xs in if p x then x ∷ rest else rest

  -- `First(...)`: the first row that passes.
  abbrev pub find : (A → Bool) → List A → Option A
  find p [] = none
  find p (x ∷ xs) = if p x then some x else find p xs

  -- Some element passes.
  abbrev pub exists : (A → Bool) → List A → Bool
  exists p [] = false
  exists p (x ∷ xs) = p x || exists p xs

  abbrev pub take : ℕ → List A → List A
  take zero xs = []
  take (suc n) [] = []
  take (suc n) (x ∷ xs) = x ∷ take n xs

pub All-append {ℓ κ} :
    {A : Type ℓ} (P : A → Type κ) (xs ys : List A) → All P xs → All P ys → All P (xs ++ ys)
All-append P [] ys hx hy = hy
All-append P (x ∷ xs) ys hx hy = (hx.0, All-append P xs ys hx.1 hy)

pub length-select-le {ℓ} :
    {A : Type ℓ} (p : A → Bool) (xs : List A) → length (select p xs) ≤ length xs
length-select-le p [] = omega arith
length-select-le p (x ∷ xs) = ground (arith, length-select-le p xs)

module _ {ℓ} {A : Type ℓ} where
  pub select-append :
      (p : A → Bool) (xs ys : List A) → select p (xs ++ ys) ≡ select p xs ++ select p ys
  select-append p [] ys = refl
  select-append p (x ∷ xs) ys = elim (Bool-cases (p x)) [
    | inl e ↦ rw (e, select-append p xs ys) refl
    | inr e ↦ rw (e, select-append p xs ys) refl
  ]

  -- Selecting twice, where the second test allows more.
  pub select-select :
      (p q : A → Bool) (xs : List A)
      → ((x : A) → p x ≡ true → q x ≡ true)
      → select p (select q xs) ≡ select p xs
  select-select p q [] h = refl
  select-select p q (x ∷ xs) h = elim (Bool-cases (p x)) [
    | inl e ↦ rw (e, h x e, e, select-select p q xs h) refl
    | inr e ↦ elim (Bool-cases (q x)) [
      | inl f ↦ rw (e, f, e, select-select p q xs h) refl
      | inr f ↦ rw (e, f, select-select p q xs h) refl
    ]
  ]

  -- Selecting twice, where the tests exclude each other.
  pub select-select_none :
      (p q : A → Bool) (xs : List A)
      → ((x : A) → q x ≡ true → p x ≡ false)
      → select p (select q xs) ≡ []
  select-select_none p q [] h = refl
  select-select_none p q (x ∷ xs) h = elim (Bool-cases (q x)) [
    | inl e ↦ rw (e, h x e, select-select_none p q xs h) refl
    | inr e ↦ rw (e, select-select_none p q xs h) refl
  ]

pub select-All {ℓ κ} :
    {A : Type ℓ} (P : A → Type κ) (p : A → Bool) (xs : List A)
    → ((x : A) → P x → p x ≡ true)
    → All P xs
    → select p xs ≡ xs
select-All P p [] h k = refl
select-All P p (x ∷ xs) h k = rw (h x k.0, select-All P p xs h k.1) refl

pub select-All_none {ℓ κ} :
    {A : Type ℓ} (P : A → Type κ) (p : A → Bool) (xs : List A)
    → ((x : A) → P x → p x ≡ false)
    → All P xs
    → select p xs ≡ []
select-All_none P p [] h k = refl
select-All_none P p (x ∷ xs) h k = rw (h x k.0, select-All_none P p xs h k.1) refl

-- A test of some row that a `Where` finds.
pub exists-select {ℓ} :
    {A : Type ℓ} (p q : A → Bool) (xs : List A)
    → exists q (select p xs) ≡ exists (λ x. p x && q x) xs
exists-select p q [] = refl
exists-select p q (x ∷ xs) = elim (Bool-cases (p x)) [
  | inl e ↦ rw (e, exists-select p q xs) refl
  | inr e ↦ rw (e, exists-select p q xs) refl
]

pub exists-Any {ℓ} :
    {A : Type ℓ} (p : A → Bool) (P : A → Type 0) (xs : List A)
    → ((x : A) → (p x ≡ true) ↔ P x)
    → (exists p xs ≡ true) ↔ Any P xs
exists-Any p P [] h = ((λ k. cc), (λ k. absurd k))
exists-Any p P (x ∷ xs) h =
    let (a, b) = exists-Any p P xs h in
    elim (Bool-cases (p x)) [
      | inl e ↦ rw e ((λ k. inl ((h x).0 e)), (λ k. refl))
      | inr e ↦ rw e ((λ k. inr (a k)), (λ k. elim k [ inl l ↦ cc ((h x).1 l) | inr l ↦ b l ]))
    ]
