-- ===== src/Ledger/Posting.antt =====
-- What one call of postJournal does to the journals and to the balances.
use campusassistant_api.Base.{
  wrap, wrap-add_wrap, wrap-wrap, wrap_zero, +ℤ_zero, +ℤ_assoc, All, ◌-ℤ◌, ap, ◌∙◌, if◌then◌else◌,
  ℕ, ℤ, pos, ◌+ℤ◌, eq_ℤ, int_laws, arith, ◌≡◌, refl, Bool, true, false, ◌⊎◌, inl, inr, Bool-cases,
  some, Option-cases, List, [], ◌∷◌, ◌++◌, ◌||◌, exists,
}
use campusassistant_api.Domain.{
  same_account, Account, Kind, same_kind, SourceType, same_source, Memo, Journal, Store, ok, err,
  Err, invalid_line, ledger_unbalanced,
}
use campusassistant_api.Ledger.{
  is_invalid, to_entries, Line, is_keyed, sum_lines, post_journal, journal_exists, new_journal,
  append_journal, entries_balance, balance_of, credit_balance,
}

-- The lines pass the checks of `post_journal`: all valid, and the two sides equal.
abbrev pub Postable : List Line → Type 0
Postable ls = (r : ℤ × ℤ) × (sum_lines (pos 0) (pos 0) ls ≡ some r) × (eq_ℤ r.0 r.1 ≡ true)

pub post_journal_new :
    (k : Kind) (t : SourceType) (i : ℕ) (memo : Memo) (ls : List Line) (s : Store)
    → Postable ls
    → journal_exists k t i s ≡ false
    → post_journal k t i memo ls s ≡ (ok true, append_journal (new_journal k t i memo ls) s)
unfolding post_journal
post_journal_new k t i memo ls s (r, e, q) x = rw (e, q, x)

pub post_journal_posted :
    (k : Kind) (t : SourceType) (i : ℕ) (memo : Memo) (ls : List Line) (s : Store)
    → Postable ls
    → journal_exists k t i s ≡ true
    → post_journal k t i memo ls s ≡ (ok false, s)
unfolding post_journal
post_journal_posted k t i memo ls s (r, e, q) x = rw (e, q, x)

exists-append {ℓ} :
    {A : Type ℓ} (p : A → Bool) (xs : List A) (x : A)
    → exists p (xs ++ x ∷ []) ≡ (exists p xs || p x)
exists-append p [] x = ground arith
exists-append p (y ∷ xs) x = ground (arith, exists-append p xs x)

pub journal_exists-append_journal :
    (k : Kind) (t : SourceType) (i : ℕ) (j : Journal) (s : Store)
    → journal_exists k t i (append_journal j s) ≡ (journal_exists k t i s || is_keyed k t i j)
unfolding journal_exists append_journal
journal_exists-append_journal k t i j s = exists-append (is_keyed k t i) s.journals j

balance_of-append :
    (a : Account) (js : List Journal) (j : Journal)
    → balance_of a (js ++ j ∷ []) ≡ balance_of a js +ℤ entries_balance a j.entries
unfolding balance_of
balance_of-append a [] j = omega int_laws
balance_of-append a (k ∷ js) j = rw (balance_of-append a js j) (omega int_laws)

pub credit_balance-append_journal :
    (a : Account) (j : Journal) (s : Store)
    → credit_balance a (append_journal j s) ≡ credit_balance a s +ℤ entries_balance a j.entries
unfolding credit_balance append_journal
credit_balance-append_journal a j s = balance_of-append a s.journals j

pub same_kind_refl : (k : Kind) → same_kind k k ≡ true
same_kind_refl Kind.subscription_payment = refl
same_kind_refl Kind.order_payment = refl
same_kind_refl Kind.order_release = refl
same_kind_refl Kind.payout_request = refl
same_kind_refl Kind.payout_paid = refl
same_kind_refl Kind.payout_rejected = refl
same_kind_refl (Kind.refund k) = same_kind_refl k

pub same_source_refl : (t : SourceType) → same_source t t ≡ true
same_source_refl SourceType.bkash_transaction = refl
same_source_refl SourceType.order = refl
same_source_refl SourceType.payout = refl

pub is_keyed-new_journal :
    (k : Kind) (t : SourceType) (i : ℕ) (memo : Memo) (ls : List Line)
    → is_keyed k t i (new_journal k t i memo ls) ≡ true
unfolding new_journal
is_keyed-new_journal k t i memo ls = rw (same_kind_refl k, same_source_refl t) (ground arith)

abbrev pub PostCases : Kind → SourceType → ℕ → Memo → List Line → Store → Type 0
PostCases k t i memo ls s =
    ((e : Err) × (post_journal k t i memo ls s ≡ (err e, s)))
    ⊎ ((post_journal k t i memo ls s ≡ (ok false, s)) × (journal_exists k t i s ≡ true))
    ⊎ ((post_journal k t i memo ls s ≡ (ok true, append_journal (new_journal k t i memo ls) s))
        × (journal_exists k t i s ≡ false)
        × Postable ls)

-- A post is refused, finds its key taken, or appends its journal.
pub post_journal_cases :
    (k : Kind) (t : SourceType) (i : ℕ) (memo : Memo) (ls : List Line) (s : Store)
    → PostCases k t i memo ls s
unfolding post_journal
post_journal_cases k t i memo ls s = elim (Option-cases (sum_lines (pos 0) (pos 0) ls)) [
  | inl e ↦ inl (invalid_line, rw e)
  | inr (r, e) ↦ elim (Bool-cases (eq_ℤ r.0 r.1)) [
    | inr q ↦ inl (ledger_unbalanced, rw (e, q))
    | inl q ↦ elim (Bool-cases (journal_exists k t i s)) [
      | inl x ↦ inr (inl (rw (e, q, x), x))
      | inr x ↦ inr (inr (rw (e, q, x), x, (r, e, q)))
    ]
  ]
]

-- A successful post leaves its key taken.
pub post_journal-journal_exists :
    (k : Kind) (t : SourceType) (i : ℕ) (memo : Memo) (ls : List Line) (s : Store) {b : Bool}
    → (post_journal k t i memo ls s).0 ≡ ok b
    → journal_exists k t i (post_journal k t i memo ls s).1 ≡ true
post_journal-journal_exists k t i memo ls s h = elim (post_journal_cases k t i memo ls s) [
  | inl (e, q) ↦ cc
  | inr (inl (q, x)) ↦ rw q x
  | inr (inr (q, x, ready)) ↦
      rw q (rw (journal_exists-append_journal, x) (is_keyed-new_journal k t i memo ls))
]

-- Two posts under one key: the second writes nothing, whatever its memo and its lines are, if they
-- pass the checks.
pub post_journal_twice :
    (k : Kind) (t : SourceType) (i : ℕ) (memo memo' : Memo) (ls ls' : List Line) (s : Store)
    {b : Bool}
    → (post_journal k t i memo ls s).0 ≡ ok b
    → Postable ls'
    → let s' = (post_journal k t i memo ls s).1 in post_journal k t i memo' ls' s' ≡ (ok false, s')
post_journal_twice k t i memo memo' ls ls' s h ready =
    post_journal_posted k t i memo' ls' (post_journal k t i memo ls s).1 ready
      (post_journal-journal_exists k t i memo ls s h)

-- The change that one line makes to the balance of an account, and that of a list of lines.
unfoldable pub line_balance : Account → Line → ℤ
line_balance a l = if same_account l.account a then l.credit -ℤ l.debit else pos 0

unfoldable pub lines_balance : Account → List Line → ℤ
lines_balance a [] = pos 0
lines_balance a (l ∷ ls) = line_balance a l +ℤ lines_balance a ls

entries_balance-to_entries_cons :
    (a : Account) (l : Line) (ls : List Line)
    → entries_balance a (to_entries (l ∷ ls))
      ≡ line_balance a l +ℤ entries_balance a (to_entries ls)
unfolding entries_balance to_entries line_balance
entries_balance-to_entries_cons a l ls = elim (Bool-cases (same_account l.account a)) [
  | inl h ↦ rw h (grind (int_laws, h))
  | inr h ↦ rw h (grind (int_laws, h))
]

-- Leaving out the zero lines changes no balance.
pub entries_balance-to_entries :
    (a : Account) (ls : List Line) → entries_balance a (to_entries ls) ≡ lines_balance a ls
unfolding lines_balance
entries_balance-to_entries a [] = unfold entries_balance to_entries in refl
entries_balance-to_entries a (l ∷ ls) =
    entries_balance-to_entries_cons a l ls
    ∙ ap (λ t. line_balance a l +ℤ t) (entries_balance-to_entries a ls)

-- The two sides of a list of lines.
unfoldable pub debits_of : List Line → ℤ
debits_of [] = pos 0
debits_of (l ∷ ls) = l.debit +ℤ debits_of ls

unfoldable pub credits_of : List Line → ℤ
credits_of [] = pos 0
credits_of (l ∷ ls) = l.credit +ℤ credits_of ls

sum_lines-valid :
    (d c : ℤ) (ls : List Line)
    → All (λ l. is_invalid l ≡ false) ls
    → wrap d ≡ d
    → wrap c ≡ c
    → sum_lines d c ls ≡ some (wrap (d +ℤ debits_of ls), wrap (c +ℤ credits_of ls))
unfolding sum_lines debits_of credits_of
sum_lines-valid d c [] h u v = rw (+ℤ_zero d, +ℤ_zero c, u, v) refl
sum_lines-valid d c (l ∷ ls) (p, h) u v =
    rw
      (
        p,
        sum_lines-valid (wrap (d +ℤ l.debit)) (wrap (c +ℤ l.credit)) ls h (wrap-wrap (d +ℤ l.debit))
            (wrap-wrap (c +ℤ l.credit)),
        wrap-add_wrap (d +ℤ l.debit),
        wrap-add_wrap (c +ℤ l.credit),
        +ℤ_assoc d,
        +ℤ_assoc c,
      )
      refl

-- Valid lines with equal sides pass the checks.
pub Postable-of_valid :
    (ls : List Line)
    → All (λ l. is_invalid l ≡ false) ls
    → debits_of ls ≡ credits_of ls
    → Postable ls
Postable-of_valid ls valid equal = (
  (wrap (pos 0 +ℤ debits_of ls), wrap (pos 0 +ℤ credits_of ls)),
  sum_lines-valid (pos 0) (pos 0) ls valid wrap_zero wrap_zero,
  rw equal (ground arith),
)

pub debits_of-append : (ls ms : List Line) → debits_of (ls ++ ms) ≡ debits_of ls +ℤ debits_of ms
unfolding debits_of
debits_of-append [] ms = omega int_laws
debits_of-append (l ∷ ls) ms = rw (debits_of-append ls ms) (omega int_laws)

pub credits_of-append : (ls ms : List Line) → credits_of (ls ++ ms) ≡ credits_of ls +ℤ credits_of ms
unfolding credits_of
credits_of-append [] ms = omega int_laws
credits_of-append (l ∷ ls) ms = rw (credits_of-append ls ms) (omega int_laws)

pub lines_balance-append :
    (a : Account) (ls ms : List Line)
    → lines_balance a (ls ++ ms) ≡ lines_balance a ls +ℤ lines_balance a ms
unfolding lines_balance
lines_balance-append a [] ms = omega int_laws
lines_balance-append a (l ∷ ls) ms = rw (lines_balance-append a ls ms) (omega int_laws)
