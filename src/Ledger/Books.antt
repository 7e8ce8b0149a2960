-- ===== src/Ledger/Books.antt =====
-- The invariant of the books through postJournal and reverseJournals.
use campusassistant_api.Base.{
  sym, ◌∙◌, wrap, wrap_zero, wrap_exact, Fits, zero_+ℤ, eq_of_parts, ◌+ℤ◌, ap, ℕ, ℤ, pos, eq_ℤ,
  arith, ◌≡◌, true, false, inl, inr, Bool-cases, some, List, [], ◌∷◌, ◌++◌, ◌&&◌, All, All-append,
  exists, select, map, ==_iff,
}
use campusassistant_api.Domain.{
  Kind, same_kind, SourceType, same_source, Memo, LedgerEntry, Journal, Store, Keeps, then-Keeps,
}
use campusassistant_api.Ledger.{
  Line, is_keyed, is_invalid, sum_lines, to_entries, post_journal, journal_exists, new_journal,
  append_journal, swapped, reverse_each, reverse_journals, is_source_of,
}
use campusassistant_api.Ledger.Balanced.{total_debit, total_credit, sum_lines-to_entries}
use campusassistant_api.Ledger.Posting.{
  post_journal_cases, Postable, same_kind_refl, same_source_refl,
}

-- An entry as `postJournal` writes it: one side is zero, the other is not negative.
abbrev pub IsEntry : LedgerEntry → Type 0
IsEntry e = is_invalid (record { account = e.account; debit = e.debit; credit = e.credit }) ≡ false

-- Debits equal credits in Go's `int`, and so they do as numbers if both sums fit one.
abbrev pub Balances : List LedgerEntry → Type 0
Balances es =
    (wrap (total_debit es) ≡ wrap (total_credit es))
    × (Fits (total_debit es) → Fits (total_credit es) → total_debit es ≡ total_credit es)

-- All entries are proper, and debits equal credits.
abbrev pub IsSound : Journal → Type 0
IsSound j = All IsEntry j.entries × Balances j.entries

-- The unique index on (kind, source_type, source_id).
abbrev pub UniqueKeys : List Journal → Type 0
UniqueKeys [] = Unit
UniqueKeys (j ∷ js) =
    All (λ j'. is_keyed j.kind j.source_type j.source_id j' ≡ false) js × UniqueKeys js

abbrev pub IsBooks : Store → Type 0
IsBooks s = All IsSound s.journals × UniqueKeys s.journals

pub same_source→≡ : (a b : SourceType) → same_source a b ≡ true → a ≡ b
same_source→≡ a b h = ground arith

pub same_kind→≡ : (k l : Kind) → same_kind k l ≡ true → k ≡ l
same_kind→≡ (Kind.refund k) (Kind.refund l) h = ap Kind.refund (same_kind→≡ k l h)
same_kind→≡ _ _ h = ground arith

is_keyed→≡ :
    (k : Kind) (t : SourceType) (i : ℕ) (j : Journal)
    → is_keyed k t i j ≡ true
    → (j.kind ≡ k) × (j.source_type ≡ t) × (j.source_id ≡ i)
is_keyed→≡ k t i j h =
    ground (arith, same_kind→≡ j.kind k, same_source→≡ j.source_type t, ==_iff j.source_id i)

pub is_keyed_self : (j : Journal) → is_keyed j.kind j.source_type j.source_id j ≡ true
is_keyed_self j = rw (same_kind_refl j.kind, same_source_refl j.source_type) (ground arith)

-- Having another's key is symmetric.
is_keyed_flip :
    (j n : Journal)
    → is_keyed n.kind n.source_type n.source_id j ≡ false
    → is_keyed j.kind j.source_type j.source_id n ≡ false
is_keyed_flip j n h = elim (Bool-cases (is_keyed j.kind j.source_type j.source_id n)) [
  | inr e ↦ e
  | inl e ↦
      let (p, q, r) = is_keyed→≡ j.kind j.source_type j.source_id n e in
      let self : is_keyed n.kind n.source_type n.source_id j ≡ true =
        rw (p, q, r) (is_keyed_self j) in
      cc
]

-- One valid line gives at most one proper entry.
to_entries-All :
    (l : Line) (ls : List Line)
    → is_invalid l ≡ false
    → All IsEntry (to_entries ls)
    → All IsEntry (to_entries (l ∷ ls))
unfolding to_entries
to_entries-All l ls p h = elim (Bool-cases (eq_ℤ l.debit (pos 0) && eq_ℤ l.credit (pos 0))) [
  | inl e ↦ rw e h
  | inr e ↦ rw e (p, h)
]

sum_lines-All :
    (d c : ℤ) (ls : List Line) {r : ℤ × ℤ} → sum_lines d c ls ≡ some r → All IsEntry (to_entries ls)
unfolding sum_lines
sum_lines-All d c [] h = unfold to_entries in tt
sum_lines-All d c (l ∷ ls) h = elim (Bool-cases (is_invalid l)) [
  | inl e ↦ cc (rw e at h)
  | inr e ↦
      to_entries-All l ls e
        (sum_lines-All (wrap (d +ℤ l.debit)) (wrap (c +ℤ l.credit)) ls (rw e at h))
]

Balances-of_wrap :
    (es : List LedgerEntry) → wrap (total_debit es) ≡ wrap (total_credit es) → Balances es
Balances-of_wrap es h =
    (h, (λ p q. sym (wrap_exact (total_debit es) p) ∙ h ∙ wrap_exact (total_credit es) q))

wrapped_sums :
    (ls : List Line)
    → Postable ls
    → wrap (total_debit (to_entries ls)) ≡ wrap (total_credit (to_entries ls))
wrapped_sums ls (r, h, e) =
    let (p, q) = sum_lines-to_entries (pos 0) (pos 0) ls wrap_zero wrap_zero h in
    let same : r.0 ≡ r.1 = eq_of_parts r.0 r.1 (ground arith) in
    let debit = total_debit (to_entries ls) in
    let credit = total_credit (to_entries ls) in
    ap wrap (sym (zero_+ℤ debit)) ∙ sym p ∙ same ∙ q ∙ ap wrap (zero_+ℤ credit)

new_journal-IsSound :
    (k : Kind) (t : SourceType) (i : ℕ) (memo : Memo) (ls : List Line)
    → Postable ls
    → IsSound (new_journal k t i memo ls)
unfolding new_journal
new_journal-IsSound k t i memo ls (r, h, e) = (
  sum_lines-All (pos 0) (pos 0) ls h,
  Balances-of_wrap (to_entries ls) (wrapped_sums ls (r, h, e)),
)

UniqueKeys-append :
    (js : List Journal) (n : Journal)
    → UniqueKeys js
    → exists (is_keyed n.kind n.source_type n.source_id) js ≡ false
    → UniqueKeys (js ++ n ∷ [])
UniqueKeys-append [] n h e = (tt, tt)
UniqueKeys-append (j ∷ js) n h e =
    let here : is_keyed n.kind n.source_type n.source_id j ≡ false = ground arith in
    let there : exists (is_keyed n.kind n.source_type n.source_id) js ≡ false = ground arith in
    (
      All-append (λ j'. is_keyed j.kind j.source_type j.source_id j' ≡ false) js (n ∷ []) h.0
          (is_keyed_flip j n here, tt),
      UniqueKeys-append js n h.1 there,
    )

append_journal-IsBooks :
    (n : Journal) (s : Store)
    → IsSound n
    → journal_exists n.kind n.source_type n.source_id s ≡ false
    → IsBooks s
    → IsBooks (append_journal n s)
unfolding append_journal journal_exists
append_journal-IsBooks n s sound fresh h = (
  All-append IsSound s.journals (n ∷ []) h.0 (sound, tt),
  UniqueKeys-append s.journals n h.1 fresh,
)

-- Whatever a caller passes, postJournal keeps the books sound and their keys unique. In sound books
-- the debits and the credits of each journal are equal as 64-bit ints, so they are equal as numbers
-- if both sums fit one.
pub post_journal-IsBooks :
    (k : Kind) (t : SourceType) (i : ℕ) (memo : Memo) (ls : List Line)
    → Keeps IsBooks (post_journal k t i memo ls)
post_journal-IsBooks k t i memo ls s h = elim (post_journal_cases k t i memo ls s) [
  | inl (e, q) ↦ rw q h
  | inr (inl (q, x)) ↦ rw q h
  | inr (inr (q, x, ready)) ↦ rw q (
      append_journal-IsBooks (new_journal k t i memo ls) s (new_journal-IsSound k t i memo ls ready)
        (unfold new_journal in x) h)
]

reverse_each-IsBooks :
    (t : SourceType) (i : ℕ) (js : List Journal) → Keeps IsBooks (reverse_each t i js)
unfolding reverse_each
reverse_each-IsBooks t i [] s h = h
reverse_each-IsBooks t i (j ∷ js) s h =
    then-Keeps IsBooks (post_journal _ t i _ _) (reverse_each t i js)
      (post_journal-IsBooks (Kind.refund j.kind) t i (Memo.refund_of j.kind)
        (map swapped j.entries))
      (reverse_each-IsBooks t i js) s h

-- So does reverseJournals.
pub reverse_journals-IsBooks :
    (t : SourceType) (i : ℕ) (ks : List Kind) → Keeps IsBooks (reverse_journals t i ks)
unfolding reverse_journals
reverse_journals-IsBooks t i ks s h =
    reverse_each-IsBooks t i (select (is_source_of t i ks) s.journals) s h
