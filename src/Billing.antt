-- ===== src/Billing.antt =====
-- src/modules/payments/payments.module.ts, and of src/modules/invoices/invoices.service.ts what
-- changes an invoice after it was made. Amounts are JavaScript's numbers, of which only the
-- operations that the code calls are named: nothing is said of how they round.
pub mod Settlement
pub mod Tests
use flow_ai.Common.{
  ℕ, ◌+◌, ◌-◌, Bool, true, false, ◌&&◌, Option, none, some, or_default, or_else, leb, ◌==◌,
  if◌then◌else◌, Result, ok, failed, not_found,
}
use flow_ai.Database.{Table}

pub data InvoiceStatus : Type 0 where
  draft sent viewed partial paid overdue cancelled : InvoiceStatus

pub data PaymentStatus : Type 0 where
  pending settled payment_failed refunded : PaymentStatus

-- JavaScript's +, - and <= 0 on numbers.
pub record Numbers : Type 1 where
  pub Number : Type 0
  pub zero : Number
  pub plus : Number → Number → Number
  pub minus : Number → Number → Number
  pub at_most_zero : Number → Bool

pub record Invoice (A : Type 0) : Type 0 where
  pub organization_id : ℕ
  pub client_id : ℕ
  pub status : InvoiceStatus
  pub total : A
  pub amount_paid : A
  pub amount_due : A
  pub due_date : Option ℕ
  pub sent_at : Option ℕ
  pub viewed_at : Option ℕ
  pub paid_at : Option ℕ
  pub terms : Option ℕ
  pub notes : Option ℕ

pub record Payment (A : Type 0) : Type 0 where
  pub organization_id : ℕ
  pub invoice_id : Option ℕ
  pub client_id : Option ℕ
  pub amount : A
  pub status : PaymentStatus
  pub paid_at : Option ℕ
  pub refunded_at : Option ℕ

pub record UpdateInvoiceDto : Type 0 where
  pub status : Option InvoiceStatus
  pub due_date : Option ℕ
  pub terms : Option ℕ
  pub notes : Option ℕ

abbrev pub stamped : {A : Type 0} → Option InvoiceStatus → ℕ → Invoice A → Invoice A
stamped none now r = r
stamped (some sent) now r = record r { status = sent; sent_at = some now }
stamped (some viewed) now r = record r { status = viewed; viewed_at = some now }
stamped (some paid) now r = record r { status = paid; paid_at = some now }
stamped (some status) now r = record r { status = status }

module _ {A : Type 0} (invoices : Table (Invoice A)) where
  pub find_invoice : ℕ → ℕ → invoices.State → Result (ℕ × Invoice A)
  find_invoice org id s =
      elim (invoices.find_first s (λ i r. i == id && r.organization_id == org)) [
        | none ↦ failed not_found
        | some x ↦ ok x
      ]

  changed_invoice :
      ℕ
      → ℕ
      → (Invoice A → Invoice A)
      → invoices.State
      → Result (Option (Invoice A)) × invoices.State
  changed_invoice org id f s =
      let (row, s') = invoices.update s id f in
      elim (find_invoice org id s) [ failed e ↦ (failed e, s) | ok _ ↦ (ok row, s') ]

  pub update_invoice :
      ℕ → ℕ → UpdateInvoiceDto → ℕ → invoices.State → Result (Option (Invoice A)) × invoices.State
  update_invoice org id dto now s =
      changed_invoice org id
        (λ r. record (stamped dto.status now r) {
          due_date = or_else dto.due_date r.due_date;
          terms = or_else dto.terms r.terms;
          notes = or_else dto.notes r.notes;
        })
        s

  pub delete_invoice : ℕ → ℕ → invoices.State → Result (Option (Invoice A)) × invoices.State
  delete_invoice org id s = changed_invoice org id (λ r. record r { status = cancelled }) s

  pub mark_as_sent : ℕ → ℕ → ℕ → invoices.State → Result (Option (Invoice A)) × invoices.State
  mark_as_sent org id now s =
      changed_invoice org id (λ r. record r { status = sent; sent_at = some now }) s

-- Math.max(0, d)
abbrev pub not_negative : (n : Numbers) → n.Number → n.Number
not_negative n d = if n.at_most_zero d then n.zero else d

-- What a payment writes to its invoice, from the row that was read.
abbrev pub credited :
    (n : Numbers) (amount : n.Number) → ℕ → Invoice n.Number → Invoice n.Number → Invoice n.Number
credited n amount now read r =
    let new_amount_paid = n.plus read.amount_paid amount in
    let new_amount_due = n.minus read.total new_amount_paid in
    let covered = n.at_most_zero new_amount_due in
    record r {
      amount_paid = new_amount_paid;
      amount_due = not_negative n new_amount_due;
      status = if covered then paid else partial;
      paid_at = if covered then some now else r.paid_at;
    }

pub record CreatePaymentDto (A : Type 0) : Type 0 where
  pub invoice_id : Option ℕ
  pub client_id : Option ℕ
  pub amount : A

abbrev pub restated : {A : Type 0} → PaymentStatus → ℕ → Payment A → Payment A
restated refunded now r = record r { status = refunded; refunded_at = some now }
restated status now r = record r { status = status }

module _ (n : Numbers) (invoices : Table (Invoice n.Number))
    (payments : Table (Payment n.Number)) where
  -- The second half of create: the invoice, if the payment names one that is stored.
  credit : Option ℕ → n.Number → ℕ → invoices.State → invoices.State
  credit none amount now s = s
  credit (some id) amount now s = elim (invoices.find s id) [
    | none ↦ s
    | some invoice ↦ (invoices.update s id (credited n amount now invoice)).1
  ]

  pub create_payment :
      ℕ
      → CreatePaymentDto n.Number
      → ℕ
      → invoices.State
      → payments.State
      → ℕ × invoices.State × payments.State
  create_payment org dto now s p =
      let (id, p') = payments.create p (record {
        organization_id = org;
        invoice_id = dto.invoice_id;
        client_id = dto.client_id;
        amount = dto.amount;
        status = settled;
        paid_at = some now;
        refunded_at = none;
      }) in
      (id, credit dto.invoice_id dto.amount now s, p')

  pub update_payment_status :
      ℕ
      → ℕ
      → PaymentStatus
      → ℕ
      → payments.State
      → Result (Option (Payment n.Number)) × payments.State
  update_payment_status org id status now p =
      let (row, p') = payments.update p id (restated status now) in
      elim (payments.find_first p (λ i r. i == id && r.organization_id == org)) [
        | none ↦ (failed not_found, p)
        | some _ ↦ (ok row, p')
      ]
