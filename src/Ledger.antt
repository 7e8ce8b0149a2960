-- ===== src/Ledger.antt =====
-- The double-entry ledger: postJournal, journalExists, creditBalance
-- (internal/service/billing_service.go) and reverseJournals (refund_service.go).
pub mod Balanced
pub mod Books
pub mod Posting
pub mod Reversal
use campusassistant_api.Base.{
  ℕ, ℤ, pos, ◌+ℤ◌, ◌-ℤ◌, wrap, ltb_ℤ, eq_ℤ, Bool, true, false, not, ◌&&◌, ◌||◌, ◌==◌, if◌then◌else◌,
  Option, none, some, List, [], ◌∷◌, ◌++◌, map, exists, select,
}
use campusassistant_api.Domain.{
  Account, same_account, Kind, same_kind, SourceType, same_source, Memo, LedgerEntry, Journal,
  Store, M, pure, gets, or_fail, fail_if, update, Done, invalid_line, ledger_unbalanced, ◌>>=◌,
  ◌>>◌,
}

-- `journalLine`
pub record Line : Type 0 where
  pub account : Account
  pub debit : ℤ
  pub credit : ℤ

abbrev pub debit_line : Account → ℤ → Line
debit_line a n = record { account = a; debit = n; credit = pos 0 }

abbrev pub credit_line : Account → ℤ → Line
credit_line a n = record { account = a; debit = pos 0; credit = n }

abbrev pub is_invalid : Line → Bool
is_invalid l =
    ltb_ℤ l.debit (pos 0)
    || ltb_ℤ l.credit (pos 0)
    || (ltb_ℤ (pos 0) l.debit && ltb_ℤ (pos 0) l.credit)

-- The loop that sums the two sides in Go's `int`; `none` at the first invalid line.
unfoldable pub sum_lines : ℤ → ℤ → List Line → Option (ℤ × ℤ)
sum_lines d c [] = some (d, c)
sum_lines d c (l ∷ ls) =
    let rest = sum_lines (wrap (d +ℤ l.debit)) (wrap (c +ℤ l.credit)) ls in
    if is_invalid l then none else rest

-- The rows that are written: a line with two zeros is skipped.
unfoldable pub to_entries : List Line → List LedgerEntry
to_entries [] = []
to_entries (l ∷ ls) =
    let rest = to_entries ls in
    if eq_ℤ l.debit (pos 0) && eq_ℤ l.credit (pos 0)
    then rest
    else record { account = l.account; debit = l.debit; credit = l.credit } ∷ rest

abbrev pub is_keyed : Kind → SourceType → ℕ → Journal → Bool
is_keyed k t i j = same_kind j.kind k && (same_source j.source_type t && j.source_id == i)

unfoldable pub journal_exists : Kind → SourceType → ℕ → Store → Bool
journal_exists k t i s = exists (is_keyed k t i) s.journals

unfoldable pub new_journal : Kind → SourceType → ℕ → Memo → List Line → Journal
new_journal k t i memo lines = record {
  kind = k;
  source_type = t;
  source_id = i;
  memo = memo;
  entries = to_entries lines;
}

unfoldable pub append_journal : Journal → Store → Store
append_journal j s = record s { journals = s.journals ++ j ∷ [] }

abbrev pub unless_posted : Bool → Journal → M Bool
unless_posted true j = pure false
unless_posted false j = update (append_journal j) >> pure true

-- Writes one balanced journal, once for each key; the answer says whether this call wrote it.
unfoldable pub post_journal : Kind → SourceType → ℕ → Memo → List Line → M Bool
post_journal k t i memo lines = do
  sums ← or_fail (sum_lines (pos 0) (pos 0) lines) invalid_line
  fail_if (not (eq_ℤ sums.0 sums.1)) ledger_unbalanced
  existing ← gets (journal_exists k t i)
  unless_posted existing (new_journal k t i memo lines)

-- credit - debit of one account over a list of entries, and over all journals.
unfoldable pub entries_balance : Account → List LedgerEntry → ℤ
entries_balance a [] = pos 0
entries_balance a (e ∷ es) =
    let rest = entries_balance a es in
    if same_account e.account a then (e.credit -ℤ e.debit) +ℤ rest else rest

unfoldable pub balance_of : Account → List Journal → ℤ
balance_of a [] = pos 0
balance_of a (j ∷ js) = entries_balance a j.entries +ℤ balance_of a js

-- `creditBalance`
unfoldable pub credit_balance : Account → Store → ℤ
credit_balance a s = balance_of a s.journals

abbrev pub swapped : LedgerEntry → Line
swapped e = record { account = e.account; debit = e.credit; credit = e.debit }

-- The loop of `reverseJournals` over the journals that were found.
unfoldable pub reverse_each : SourceType → ℕ → List Journal → M Done
reverse_each t i [] = pure tt
reverse_each t i (j ∷ js) =
    post_journal (Kind.refund j.kind) t i (Memo.refund_of j.kind) (map swapped j.entries)
    >> reverse_each t i js

abbrev pub is_one_of : List Kind → Kind → Bool
is_one_of ks k = exists (λ l. same_kind k l) ks

abbrev pub is_source_of : SourceType → ℕ → List Kind → Journal → Bool
is_source_of t i ks j = same_source j.source_type t && (j.source_id == i && is_one_of ks j.kind)

unfoldable pub reverse_journals : SourceType → ℕ → List Kind → M Done
reverse_journals t i ks = do
  js ← gets (λ s. select (is_source_of t i ks) s.journals)
  reverse_each t i js
