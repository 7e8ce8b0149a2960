-- ===== src/Entitlement/Counters.antt =====
-- The usage counters of internal/service/entitlement_service.go under their unique index.
use Prim.Native.String.{String}
use campusassistant_api.Base.{
  ℕ, arith, ◌≡◌, refl, inl, inr, Bool, true, false, ◌&&◌, ◌||◌, Bool-cases, Option, none, some,
  List, [], ◌∷◌, ◌++◌, find, exists, map,
}
use campusassistant_api.Domain.{PeriodKey, UsageCounter, Store}
use campusassistant_api.Entitlement.{is_counter}

-- At most one element passes a test.
abbrev pub AtMostOne : (UsageCounter → Bool) → List UsageCounter → Type 0
AtMostOne p [] = Unit
AtMostOne p (c ∷ cs) = (p c ≡ true → exists p cs ≡ false) × AtMostOne p cs

-- The unique index on (user_id, feature, period_key).
abbrev pub UniqueCounters : Store → Type 0
UniqueCounters s =
    (user_id : ℕ) (f : String) (key : PeriodKey)
    → AtMostOne (is_counter user_id f key) s.usage_counters

-- The test of the one row that passes.
abbrev pub one_passes : (UsageCounter → Bool) → Option UsageCounter → Bool
one_passes q none = false
one_passes q (some c) = q c

exists_both-false :
    (p q : UsageCounter → Bool) (cs : List UsageCounter)
    → exists p cs ≡ false
    → exists (λ c. p c && q c) cs ≡ false
exists_both-false p q [] h = refl
exists_both-false p q (c ∷ cs) h = ground (arith, exists_both-false p q cs)

pub exists_both :
    (p q : UsageCounter → Bool) (cs : List UsageCounter)
    → AtMostOne p cs
    → exists (λ c. p c && q c) cs ≡ one_passes q (find p cs)
exists_both p q [] h = refl
exists_both p q (c ∷ cs) (one, h) = elim (Bool-cases (p c)) [
  | inl e ↦ rw (e, exists_both-false p q cs (one e)) (ground arith)
  | inr e ↦ rw e (exists_both p q cs h)
]

pub find-none :
    (p : UsageCounter → Bool) (cs : List UsageCounter) → exists p cs ≡ false → find p cs ≡ none
find-none p [] h = refl
find-none p (c ∷ cs) h = elim (Bool-cases (p c)) [
  | inl e ↦ cc (rw e at h)
  | inr e ↦ rw e (find-none p cs (rw e at h))
]

pub find-some :
    (p : UsageCounter → Bool) (cs : List UsageCounter)
    → exists p cs ≡ true
    → (c : UsageCounter) × (find p cs ≡ some c)
find-some p [] h = cc
find-some p (c ∷ cs) h = elim (Bool-cases (p c)) [
  | inl e ↦ (c, rw e)
  | inr e ↦ let (d, k) = find-some p cs (rw e at h) in (d, rw e k)
]

pub find-append_none :
    (p : UsageCounter → Bool) (cs : List UsageCounter) (d : UsageCounter)
    → exists p cs ≡ false
    → p d ≡ true
    → find p (cs ++ d ∷ []) ≡ some d
find-append_none p [] d h k = rw k
find-append_none p (c ∷ cs) d h k = elim (Bool-cases (p c)) [
  | inl e ↦ cc (rw e at h)
  | inr e ↦ rw e (find-append_none p cs d (rw e at h) k)
]

exists-append_one :
    (p : UsageCounter → Bool) (cs : List UsageCounter) (d : UsageCounter)
    → exists p (cs ++ d ∷ []) ≡ (exists p cs || p d)
exists-append_one p [] d = ground arith
exists-append_one p (c ∷ cs) d = ground (arith, exists-append_one p cs d)

pub AtMostOne-append :
    (p : UsageCounter → Bool) (cs : List UsageCounter) (d : UsageCounter)
    → AtMostOne p cs
    → (p d ≡ true → exists p cs ≡ false)
    → AtMostOne p (cs ++ d ∷ [])
AtMostOne-append p [] d h k = ((λ e. refl), tt)
AtMostOne-append p (c ∷ cs) d (one, h) k = (
  (λ e. rw (exists-append_one p cs d, one e) (ground (arith, k))),
  AtMostOne-append p cs d h (λ e. ground (arith, k e)),
)

-- A write that changes no key.
exists-map :
    (p : UsageCounter → Bool) (f : UsageCounter → UsageCounter) (cs : List UsageCounter)
    → ((c : UsageCounter) → p (f c) ≡ p c)
    → exists p (map f cs) ≡ exists p cs
exists-map p f [] k = refl
exists-map p f (c ∷ cs) k = rw (k c, exists-map p f cs k)

pub AtMostOne-map :
    (p : UsageCounter → Bool) (f : UsageCounter → UsageCounter) (cs : List UsageCounter)
    → ((c : UsageCounter) → p (f c) ≡ p c)
    → AtMostOne p cs
    → AtMostOne p (map f cs)
AtMostOne-map p f [] k h = tt
AtMostOne-map p f (c ∷ cs) k (one, h) =
    (rw (k c, exists-map p f cs k) one, AtMostOne-map p f cs k h)

first_found :
    (f : UsageCounter → UsageCounter) {c d : UsageCounter}
    → some c ≡ some d
    → some (f c) ≡ some (f d)
first_found f h = cc

pub find-map :
    (p : UsageCounter → Bool) (f : UsageCounter → UsageCounter) (cs : List UsageCounter)
    {c : UsageCounter}
    → ((d : UsageCounter) → p (f d) ≡ p d)
    → find p cs ≡ some c
    → find p (map f cs) ≡ some (f c)
find-map p f [] k h = cc
find-map p f (d ∷ cs) k h = elim (Bool-cases (p d)) [
  | inl e ↦ rw (k d, e) (first_found f (rw e at h))
  | inr e ↦ rw (k d, e) (find-map p f cs k (rw e at h))
]

pub find_passes :
    (p : UsageCounter → Bool) (cs : List UsageCounter) {c : UsageCounter}
    → find p cs ≡ some c
    → p c ≡ true
find_passes p [] h = cc
find_passes p (d ∷ cs) h = elim (Bool-cases (p d)) [
  | inl e ↦ cc (rw e at h)
  | inr e ↦ find_passes p cs (rw e at h)
]
