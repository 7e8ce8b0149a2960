-- ===== src/Ledger/Reversal.antt =====
-- reverseJournals (internal/service/refund_service.go) and the balances.
use campusassistant_api.Base.{
  wrap, wrap_zero, wrap-wrap, wrap-add_wrap, zero_+ℤ, ==_iff, ◌∙◌, +ℤ_zero, +ℤ_assoc, ℕ, ℤ, pos,
  ◌+ℤ◌, ◌-ℤ◌, int_laws, arith, ◌≡◌, refl, Bool, true, false, inl, inr, Bool-cases, some, List, [],
  ◌∷◌, All, select, map,
}
use campusassistant_api.Domain.{
  same_account, Account, Kind, same_kind, SourceType, Memo, LedgerEntry, Journal, Store, ok,
}
use campusassistant_api.Ledger.{
  is_invalid, is_keyed, sum_lines, post_journal, journal_exists, new_journal, append_journal,
  entries_balance, balance_of, credit_balance, swapped, reverse_each, reverse_journals,
  is_source_of,
}
use campusassistant_api.Ledger.Balanced.{total_debit, total_credit}
use campusassistant_api.Ledger.Books.{
  same_kind→≡, IsEntry, IsSound, UniqueKeys, IsBooks, same_source→≡,
}
use campusassistant_api.Ledger.Posting.{
  same_source_refl, entries_balance-to_entries, same_kind_refl, lines_balance, line_balance,
  Postable, post_journal_new, journal_exists-append_journal, credit_balance-append_journal,
}

sum_lines-swapped :
    (d c : ℤ) (es : List LedgerEntry)
    → All IsEntry es
    → wrap d ≡ d
    → wrap c ≡ c
    → sum_lines d c (map swapped es)
      ≡ some (wrap (d +ℤ total_credit es), wrap (c +ℤ total_debit es))
unfolding sum_lines total_debit total_credit
sum_lines-swapped d c [] h u v = rw (+ℤ_zero d, +ℤ_zero c, u, v) refl
sum_lines-swapped d c (e ∷ es) (p, h) u v =
    let valid : is_invalid (swapped e) ≡ false = ground arith in
    rw
      (
        valid,
        sum_lines-swapped (wrap (d +ℤ e.credit)) (wrap (c +ℤ e.debit)) es h
            (wrap-wrap (d +ℤ e.credit)) (wrap-wrap (c +ℤ e.debit)),
        wrap-add_wrap (d +ℤ e.credit),
        wrap-add_wrap (c +ℤ e.debit),
        +ℤ_assoc d,
        +ℤ_assoc c,
      )
      refl

lines_balance-swapped :
    (a : Account) (es : List LedgerEntry)
    → lines_balance a (map swapped es) ≡ pos 0 -ℤ entries_balance a es
unfolding entries_balance lines_balance line_balance
lines_balance-swapped a [] = omega int_laws
lines_balance-swapped a (e ∷ es) = elim (Bool-cases (same_account e.account a)) [
  | inl h ↦ rw (h, lines_balance-swapped a es) (omega int_laws)
  | inr h ↦ rw (h, lines_balance-swapped a es) (omega int_laws)
]

reversal-Postable : (j : Journal) → IsSound j → Postable (map swapped j.entries)
reversal-Postable j (valid, balanced) = (
  (wrap (pos 0 +ℤ total_credit j.entries), wrap (pos 0 +ℤ total_debit j.entries)),
  sum_lines-swapped (pos 0) (pos 0) j.entries valid wrap_zero wrap_zero,
  rw (zero_+ℤ, zero_+ℤ, balanced.0) (ground arith),
)

-- No two of the journals have the same kind.
abbrev DistinctKinds : List Journal → Type 0
DistinctKinds [] = Unit
DistinctKinds (j ∷ js) = All (λ j'. same_kind j'.kind j.kind ≡ false) js × DistinctKinds js

-- None of them has been reversed yet.
abbrev NotReversed : SourceType → ℕ → List Journal → Store → Type 0
NotReversed t i js s = All (λ j. journal_exists (Kind.refund j.kind) t i s ≡ false) js

-- The reversal of one kind does not count as that of another.
reversed_other :
    (t : SourceType) (i : ℕ) (j n x : Journal)
    → n.kind ≡ Kind.refund j.kind
    → same_kind x.kind j.kind ≡ false
    → is_keyed (Kind.refund x.kind) t i n ≡ false
reversed_other t i j n x e d = elim (Bool-cases (same_kind j.kind x.kind)) [
  | inr p ↦ rw (e, p)
  | inl p ↦
      let same : same_kind x.kind j.kind ≡ true =
        rw (same_kind→≡ j.kind x.kind p) (same_kind_refl x.kind) in
      cc
]

NotReversed-append_journal :
    (t : SourceType) (i : ℕ) (j n : Journal) (js : List Journal) (s : Store)
    → n.kind ≡ Kind.refund j.kind
    → All (λ j'. same_kind j'.kind j.kind ≡ false) js
    → NotReversed t i js s
    → NotReversed t i js (append_journal n s)
NotReversed-append_journal t i j n [] s e d h = tt
NotReversed-append_journal t i j n (x ∷ js) s e d h = (
  rw (journal_exists-append_journal, h.0) (reversed_other t i j n x e d.0),
  NotReversed-append_journal t i j n js s e d.1 h.1,
)

-- One reversal takes the balance of its journal out.
reversal-credit_balance :
    (a : Account) (t : SourceType) (i : ℕ) (j : Journal) (js : List Journal) (s : Store)
    → credit_balance a (
          append_journal
            (new_journal (Kind.refund j.kind) t i (Memo.refund_of j.kind) (map swapped j.entries))
            s)
        -ℤ balance_of a js
      ≡ credit_balance a s -ℤ (entries_balance a j.entries +ℤ balance_of a js)
unfolding new_journal
reversal-credit_balance a t i j js s =
    rw (credit_balance-append_journal, entries_balance-to_entries, lines_balance-swapped)
      (omega int_laws)

reverse_each_balance :
    (a : Account) (t : SourceType) (i : ℕ) (js : List Journal) (s : Store)
    → All IsSound js
    → DistinctKinds js
    → NotReversed t i js s
    → (reverse_each t i js s).0 ≡ ok tt
      × (credit_balance a (reverse_each t i js s).1 ≡ credit_balance a s -ℤ balance_of a js)
unfolding reverse_each balance_of
reverse_each_balance a t i [] s v d h = (refl, omega int_laws)
reverse_each_balance a t i (j ∷ js) s v d h =
    let n = new_journal (Kind.refund j.kind) t i (Memo.refund_of j.kind) (map swapped j.entries) in
    let posted : post_journal (Kind.refund j.kind) t i (Memo.refund_of j.kind)
          (map swapped j.entries) s
        ≡ (ok true, append_journal n s) =
      post_journal_new (Kind.refund j.kind) t i (Memo.refund_of j.kind) (map swapped j.entries) s
        (reversal-Postable j v.0) h.0 in
    let (done, rest) =
      reverse_each_balance a t i js (append_journal n s) v.1 d.1
        (NotReversed-append_journal t i j n js s (unfold new_journal in refl) d.0 h.1) in
    rw posted (done, rest ∙ reversal-credit_balance a t i j js s)

All-select {ℓ κ} :
    {A : Type ℓ} (P : A → Type κ) (p : A → Bool) (xs : List A) → All P xs → All P (select p xs)
All-select P p [] h = tt
All-select P p (x ∷ xs) h = elim (Bool-cases (p x)) [
  | inl e ↦ rw e (h.0, All-select P p xs h.1)
  | inr e ↦ rw e (All-select P p xs h.1)
]

other_kind :
    (t : SourceType) (i : ℕ) (ks : List Kind) (j x : Journal)
    → is_source_of t i ks j ≡ true
    → is_source_of t i ks x ≡ true
    → is_keyed j.kind j.source_type j.source_id x ≡ false
    → same_kind x.kind j.kind ≡ false
other_kind t i ks j x e q h = ground (
  arith,
  same_source→≡ j.source_type t,
  same_source→≡ x.source_type t,
  same_source_refl t,
  ==_iff j.source_id i,
  ==_iff x.source_id i,
)

-- Journals of one source under different keys have different kinds.
other_kinds :
    (t : SourceType) (i : ℕ) (ks : List Kind) (j : Journal) (js : List Journal)
    → is_source_of t i ks j ≡ true
    → All (λ j'. is_keyed j.kind j.source_type j.source_id j' ≡ false) js
    → All (λ j'. same_kind j'.kind j.kind ≡ false) (select (is_source_of t i ks) js)
other_kinds t i ks j [] e h = tt
other_kinds t i ks j (x ∷ js) e h = elim (Bool-cases (is_source_of t i ks x)) [
  | inr q ↦ rw q (other_kinds t i ks j js e h.1)
  | inl q ↦ rw q (other_kind t i ks j x e q h.0, other_kinds t i ks j js e h.1)
]

select-DistinctKinds :
    (t : SourceType) (i : ℕ) (ks : List Kind) (js : List Journal)
    → UniqueKeys js
    → DistinctKinds (select (is_source_of t i ks) js)
select-DistinctKinds t i ks [] h = tt
select-DistinctKinds t i ks (j ∷ js) h = elim (Bool-cases (is_source_of t i ks j)) [
  | inl e ↦ rw e (other_kinds t i ks j js e h.0, select-DistinctKinds t i ks js h.1)
  | inr e ↦ rw e (select-DistinctKinds t i ks js h.1)
]

-- On sound books, where none of the journals of these kinds has been reversed, the reversal goes
-- through, and every account is left without what those journals booked to it.
pub reverse_journals_balance :
    (a : Account) (t : SourceType) (i : ℕ) (ks : List Kind) (s : Store)
    → IsBooks s
    → NotReversed t i (select (is_source_of t i ks) s.journals) s
    → let (r, s') = reverse_journals t i ks s in
      (r ≡ ok tt)
      × (credit_balance a s'
          ≡ credit_balance a s -ℤ balance_of a (select (is_source_of t i ks) s.journals))
unfolding reverse_journals
reverse_journals_balance a t i ks s h fresh =
    reverse_each_balance a t i (select (is_source_of t i ks) s.journals) s
      (All-select IsSound (is_source_of t i ks) s.journals h.0)
      (select-DistinctKinds t i ks s.journals h.1) fresh
