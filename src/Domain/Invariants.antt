-- ===== src/Domain/Invariants.antt =====
-- Invariants of the store through the combinators of the monad.
use campusassistant_api.Base.{◌≡◌, refl, ◌⊎◌, inl, inr, Bool, true, false, Option, none, some}
use campusassistant_api.Domain.Database.{
  Store, Err, Result, ok, err, M, or_fail, fail_if, transaction, commit, after, ◌>>=◌, ◌>>◌, when,
  Done,
}

-- Whatever `m` returns, it leaves a store that satisfies `P` if it was given one.
abbrev pub Keeps : {A : Type 0} → (Store → Type 0) → M A → Type 0
Keeps P m = (s : Store) → P s → P (m s).1

module _ (P : Store → Type 0) where
  pub after-keeps :
      {A B : Type 0} (f : A → M B) (r : Result A × Store)
      → ((a : A) → Keeps P (f a))
      → P r.1
      → P (after f r).1
  after-keeps f (ok a, s) k h = k a s h
  after-keeps f (err e, s) k h = h

  pub bind-Keeps :
      {A B : Type 0} (m : M A) (f : A → M B)
      → Keeps P m
      → ((a : A) → Keeps P (f a))
      → Keeps P (m >>= f)
  bind-Keeps m f km kf s h = after-keeps f (m s) kf (km s h)

  pub then-Keeps : {A B : Type 0} (m : M A) (n : M B) → Keeps P m → Keeps P n → Keeps P (m >> n)
  then-Keeps m n km kn = bind-Keeps m (λ _. n) km (λ _. kn)

  pub commit-keeps :
      {A : Type 0} (s : Store) (r : Result A × Store) → P s → P r.1 → P (commit s r).1
  commit-keeps s (ok a, t) h k = k
  commit-keeps s (err e, t) h k = h

  pub transaction-Keeps : {A : Type 0} (m : M A) → Keeps P m → Keeps P (transaction m)
  transaction-Keeps m k s h = commit-keeps s (m s) h (k s h)

  pub or_fail-Keeps : {A : Type 0} (o : Option A) (e : Err) → Keeps P (or_fail o e)
  or_fail-Keeps none e s h = h
  or_fail-Keeps (some a) e s h = h

  pub fail_if-Keeps : (b : Bool) (e : Err) → Keeps P (fail_if b e)
  fail_if-Keeps true e s h = h
  fail_if-Keeps false e s h = h

  pub when-Keeps : (b : Bool) (m : M Done) → Keeps P m → Keeps P (when b m)
  when-Keeps true m k s h = k s h
  when-Keeps false m k s h = h

-- A transaction that returns an error has changed nothing.
commit-err :
    {A : Type 0} (s : Store) (r : Result A × Store) {e : Err}
    → (commit s r).0 ≡ err e
    → commit s r ≡ (err e, s)
commit-err s (ok a, t) h = cc
commit-err s (err d, t) h = cc

pub transaction-err :
    {A : Type 0} (m : M A) (s : Store) {e : Err}
    → (transaction m s).0 ≡ err e
    → transaction m s ≡ (err e, s)
transaction-err m s h = commit-err s (m s) h

-- A chain that succeeds goes on from where its first step ended.
after-ok :
    {A B : Type 0} (f : A → M B) (r : Result A × Store) {b : B}
    → (after f r).0 ≡ ok b
    → (a : A) × (r.0 ≡ ok a) × (after f r ≡ f a r.1)
after-ok f (ok a, s) h = (a, refl, refl)
after-ok f (err e, s) h = cc

pub bind-ok :
    {A B : Type 0} (m : M A) (f : A → M B) (s : Store) {b : B}
    → ((m >>= f) s).0 ≡ ok b
    → (a : A) × ((m s).0 ≡ ok a) × ((m >>= f) s ≡ f a (m s).1)
bind-ok m f s h = after-ok f (m s) h

-- A chain that fails failed in its first step, or in what follows.
after-err :
    {A B : Type 0} (f : A → M B) (r : Result A × Store) {e : Err}
    → (after f r).0 ≡ err e
    → ((r.0 ≡ err e) × (after f r ≡ (err e, r.1)))
      ⊎ ((a : A) × (r.0 ≡ ok a) × ((f a r.1).0 ≡ err e))
after-err f (ok a, s) h = inr (a, refl, h)
after-err f (err d, s) h = inl (cc, cc)

pub bind-err :
    {A B : Type 0} (m : M A) (f : A → M B) (s : Store) {e : Err}
    → ((m >>= f) s).0 ≡ err e
    → (((m s).0 ≡ err e) × ((m >>= f) s ≡ (err e, (m s).1)))
      ⊎ ((a : A) × ((m s).0 ≡ ok a) × ((f a (m s).1).0 ≡ err e))
bind-err m f s h = after-err f (m s) h

commit-ok :
    {A : Type 0} (s : Store) (r : Result A × Store) {a : A} → (commit s r).0 ≡ ok a → commit s r ≡ r
commit-ok s (ok a, t) h = refl
commit-ok s (err e, t) h = cc

-- A transaction that succeeds is its body.
pub transaction-ok :
    {A : Type 0} (m : M A) (s : Store) {a : A} → (transaction m s).0 ≡ ok a → transaction m s ≡ m s
transaction-ok m s h = commit-ok s (m s) h

-- How a step ended.
pub result_cases :
    {A : Type 0} (r : Result A × Store)
    → ((a : A) × (r ≡ (ok a, r.1))) ⊎ ((e : Err) × (r ≡ (err e, r.1)))
result_cases (ok a, s) = inl (a, refl)
result_cases (err e, s) = inr (e, refl)

pub run_cases :
    {A : Type 0} (m : M A) (s : Store)
    → ((a : A) × (m s ≡ (ok a, (m s).1))) ⊎ ((e : Err) × (m s ≡ (err e, (m s).1)))
run_cases m s = result_cases (m s)
