-- ===== src/Ledger/Balanced.antt =====
-- The two sums that postJournal compares (internal/service/billing_service.go), over its lines and
-- over its entries.
use campusassistant_api.Base.{
  ℤ, pos, ◌+ℤ◌, eq_ℤ, ◌&&◌, wrap, wrap-add_wrap, wrap-wrap, +ℤ_zero, +ℤ_assoc, int_laws, ◌≡◌, refl,
  inl, inr, Bool-cases, some, List, [], ◌∷◌,
}
use campusassistant_api.Domain.{LedgerEntry}
use campusassistant_api.Ledger.{Line, is_invalid, sum_lines, to_entries}

unfoldable pub total_debit : List LedgerEntry → ℤ
total_debit [] = pos 0
total_debit (e ∷ es) = e.debit +ℤ total_debit es

unfoldable pub total_credit : List LedgerEntry → ℤ
total_credit [] = pos 0
total_credit (e ∷ es) = e.credit +ℤ total_credit es

-- A line with two zeros adds nothing, so leaving it out changes neither sum.
to_entries-totals :
    (l : Line) (ls : List Line)
    → (total_debit (to_entries (l ∷ ls)) ≡ l.debit +ℤ total_debit (to_entries ls))
      × (total_credit (to_entries (l ∷ ls)) ≡ l.credit +ℤ total_credit (to_entries ls))
unfolding to_entries total_debit total_credit
to_entries-totals l ls = elim (Bool-cases (eq_ℤ l.debit (pos 0) && eq_ℤ l.credit (pos 0))) [
  | inl e ↦ rw e (grind int_laws)
  | inr e ↦ rw e (refl, refl)
]

pub sum_lines-to_entries :
    (d c : ℤ) (ls : List Line) {r : ℤ × ℤ}
    → wrap d ≡ d
    → wrap c ≡ c
    → sum_lines d c ls ≡ some r
    → (r.0 ≡ wrap (d +ℤ total_debit (to_entries ls)))
      × (r.1 ≡ wrap (c +ℤ total_credit (to_entries ls)))
unfolding sum_lines
sum_lines-to_entries d c [] p q h =
    unfold to_entries total_debit total_credit in rw (+ℤ_zero d, +ℤ_zero c, p, q) (cc, cc)
sum_lines-to_entries d c (l ∷ ls) p q h = elim (Bool-cases (is_invalid l)) [
  | inl e ↦ cc (rw e at h)
  | inr e ↦
      let (x, y) =
        sum_lines-to_entries (wrap (d +ℤ l.debit)) (wrap (c +ℤ l.credit)) ls
          (wrap-wrap (d +ℤ l.debit)) (wrap-wrap (c +ℤ l.credit)) (rw e at h) in
      let (u, v) = to_entries-totals l ls in
      (
        rw (u, ← +ℤ_assoc d, ← wrap-add_wrap (d +ℤ l.debit)) x,
        rw (v, ← +ℤ_assoc c, ← wrap-add_wrap (c +ℤ l.credit)) y,
      )
]
