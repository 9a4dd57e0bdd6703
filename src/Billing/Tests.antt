-- ===== src/Billing/Tests.antt =====
-- The settlement theorem, on whole amounts, at a cancelled invoice of organization 1, paid by organization 2.
use flow_ai.Common.{ℕ, ◌+◌, ◌-◌, ◌==◌, refl, Option, none, some, List, [], ◌∷◌}
use flow_ai.Database.Rows.{rows}
use flow_ai.Billing.{Numbers, Invoice, Payment, cancelled}
use flow_ai.Billing.Settlement.{Instalment, Balanced, add_up, pay_all, payments_settle}

abbrev whole : Numbers
whole = record { Number = ℕ; zero = 0; plus = ◌+◌; minus = ◌-◌; at_most_zero = λ d. d == 0 }

abbrev invoice : Invoice ℕ
invoice = record {
  organization_id = 1;
  client_id = 0;
  status = cancelled;
  total = 100;
  amount_paid = 20;
  amount_due = 80;
  due_date = none;
  sent_at = none;
  viewed_at = none;
  paid_at = none;
  terms = none;
  notes = none;
}

abbrev part : ℕ → ℕ → Instalment ℕ
part amount now = record { organization_id = 2; client_id = none; amount = amount; now = now }

abbrev invoices : List (Option (Invoice ℕ))
invoices = some invoice ∷ []

payments_settle_example :
    Balanced whole
      (rows (Invoice ℕ))
      (rows (Payment ℕ))
      0
      1
      100
      (add_up whole 20 (part 50 5 ∷ part 30 6 ∷ []))
      (pay_all whole
        (rows (Invoice ℕ))
        (rows (Payment ℕ))
        0
        (part 50 5 ∷ part 30 6 ∷ [])
        invoices
        []).0
payments_settle_example =
    payments_settle whole (rows (Invoice ℕ)) (rows (Payment ℕ)) 0 (part 50 5) (part 30 6 ∷ [])
      invoices [] invoice refl
