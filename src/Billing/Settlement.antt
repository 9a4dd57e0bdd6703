-- ===== src/Billing/Settlement.antt =====
-- What payments make of an invoice.
use flow_ai.Common.{ℕ, ◌≡◌, refl, Option, some, List, [], ◌∷◌, arith, if◌then◌else◌, subst, ==_refl}
use flow_ai.Database.{Table}
use flow_ai.Billing.{
  Numbers, Invoice, paid, partial, Payment, CreatePaymentDto, not_negative, credited, credit,
  create_payment,
}

-- A payment towards an invoice: who makes it, from what client, how much and when.
pub record Instalment (A : Type 0) : Type 0 where
  pub organization_id : ℕ
  pub client_id : Option ℕ
  pub amount : A
  pub now : ℕ

-- The amounts added up in the order of the payments, as the numbers round.
pub add_up : (n : Numbers) → n.Number → List (Instalment n.Number) → n.Number
add_up n start [] = start
add_up n start (x ∷ xs) = add_up n (n.plus start x.amount) xs

module _ (n : Numbers) (invoices : Table (Invoice n.Number)) (payments : Table (Payment n.Number))
    (id : ℕ) where
  pub pay_all :
      List (Instalment n.Number) → invoices.State → payments.State → invoices.State × payments.State
  pay_all [] s p = (s, p)
  pay_all (x ∷ xs) s p =
      let dto : CreatePaymentDto n.Number = record {
        invoice_id = some id;
        client_id = x.client_id;
        amount = x.amount;
      } in
      let (made, s', p') = create_payment n invoices payments x.organization_id dto x.now s p in
      pay_all xs s' p'

  -- The books of the invoice agree: what was paid, what is due and whether it is settled.
  pub record Balanced (org : ℕ) (total paid_in : n.Number) (s : invoices.State) : Type 0 where
    pub invoice : Invoice n.Number
    pub stored : invoices.find s id ≡ some invoice
    pub owner : invoice.organization_id ≡ org
    pub billed : invoice.total ≡ total
    pub received : invoice.amount_paid ≡ paid_in
    pub open_amount : invoice.amount_due ≡ not_negative n (n.minus total paid_in)
    pub verdict :
        invoice.status ≡ (if n.at_most_zero (n.minus total paid_in) then paid else partial)

  credit-Balanced :
      (amount : n.Number) (now : ℕ) (s : invoices.State) (invoice : Invoice n.Number)
      → invoices.find s id ≡ some invoice
      → Balanced invoice.organization_id invoice.total
          (n.plus invoice.amount_paid amount)
          (credit n invoices payments (some id) amount now s)
  unfolding credit
  credit-Balanced amount now s invoice e =
      let f = credited n amount now invoice in
      rw (e, credit)
        (record {
          invoice = f invoice;
          stored = ground (arith, invoices.find-update s id f id, ==_refl id, e);
          owner = refl;
          billed = refl;
          received = refl;
          open_amount = refl;
          verdict = refl;
        })

  -- One more payment to an invoice whose books agree.
  next-Balanced :
      (org : ℕ) (total paid_in amount : n.Number) (now : ℕ) (s : invoices.State)
      → Balanced org total paid_in s
      → Balanced org total
          (n.plus paid_in amount)
          (credit n invoices payments (some id) amount now s)
  next-Balanced org total paid_in amount now s b =
      let s' = credit n invoices payments (some id) amount now s in
      let one = credit-Balanced amount now s b.invoice b.stored in
      subst (λ o. Balanced o total (n.plus paid_in amount) s') b.owner
        (subst (λ t. Balanced b.invoice.organization_id t (n.plus paid_in amount) s') b.billed
          (subst (λ q. Balanced b.invoice.organization_id b.invoice.total (n.plus q amount) s')
            b.received one))

  pay_all-Balanced :
      (xs : List (Instalment n.Number)) (org : ℕ) (total paid_in : n.Number) (s : invoices.State)
      (p : payments.State)
      → Balanced org total paid_in s
      → Balanced org total (add_up n paid_in xs) (pay_all xs s p).0
  unfolding pay_all create_payment add_up
  pay_all-Balanced [] org total paid_in s p b = b
  pay_all-Balanced (x ∷ xs) org total paid_in s p b =
      pay_all-Balanced xs org total (n.plus paid_in x.amount)
        (credit n invoices payments (some id) x.amount x.now s) _
        (next-Balanced org total paid_in x.amount x.now s b)

  -- Payments made towards an invoice, one after the other and at least one, leave it with what was
  -- paid before and in them, added up in their order by JavaScript's addition, as the amount paid;
  -- with the total less that, or 0 if that is not positive, as the amount due; and settled exactly if
  -- that difference is at most 0. The organizations that make the payments may be any, and the
  -- status of the invoice before them too.
  pub payments_settle :
      (x : Instalment n.Number) (xs : List (Instalment n.Number)) (s : invoices.State)
      (p : payments.State) (invoice : Invoice n.Number)
      → invoices.find s id ≡ some invoice
      → Balanced invoice.organization_id invoice.total
          (add_up n invoice.amount_paid (x ∷ xs))
          (pay_all (x ∷ xs) s p).0
  unfolding pay_all create_payment add_up
  payments_settle x xs s p invoice e =
      pay_all-Balanced xs invoice.organization_id invoice.total
        (n.plus invoice.amount_paid x.amount)
        (credit n invoices payments (some id) x.amount x.now s) _
        (credit-Balanced x.amount x.now s invoice e)
