-- ===== src/Billing/Requests.antt =====
-- Requests for payments, and their being sent again.
use vision_park_ai.Prelude.{
  ℕ, ◌≡◌, ◌⊎◌, refl, ap, ◌∙◌, true, false, ◌&&◌, Option, none, some, inl, inr, ◌∷◌, arith, ◌==◌,
  any, Bool-cases, Option-cases,
}
use mathlib.Core.Path.{subst}
use vision_park_ai.Tables.{find, find_test, find-update_other}
use vision_park_ai.Errors.{ok, ok_injective}
use vision_park_ai.Ledger.{
  Invoice, Payment, Ledger, AuditAction, PaymentMethod, InvoiceStatus, has_key, invoice_key,
  invoice_in, method_eq, set_invoice_status, log_action, invoice_is_paid, is_active, is_cash,
}
use vision_park_ai.Billing.{
  PaymentCreate, new_payment, store_payment, replay_payment, create_payment, pay_invoice,
}
use vision_park_ai.Billing.Payments.{
  Backed, IsBacked, IsBacked-set_invoice_status, DistinctIds, find-invoice_in,
}

module _ (db : Ledger) (request : PaymentCreate) (key : ℕ) (i : Invoice) (new : Payment)
    (refused : Option Ledger) where
  -- What a payment that returns has done.
  abbrev pub Paid : Payment → Ledger → Type 0
  Paid q after =
      ((find (has_key i.id key) db.payments ≡ some q)
        × (method_eq q.method request.method ≡ true)
        × (after ≡ db))
      ⊎ ((invoice_is_paid i.status ≡ false)
          × (store_payment db request key i new refused ≡ ok (q, after)))

  pub pay_invoice-Paid :
      (q : Payment) (after : Ledger)
      → pay_invoice db request key i new refused ≡ ok (q, after)
      → Paid q after
  unfolding pay_invoice
  pay_invoice-Paid q after h = elim (Option-cases (find (has_key i.id key) db.payments)) [
    | inr (p, f) ↦ elim (Bool-cases (method_eq p.method request.method)) [
      | inl m ↦
          let r = rw (pay_invoice, f, m) at h in
          let same : p ≡ q = cc r in
          let there : find (has_key i.id key) db.payments ≡ some q = f ∙ ap some same in
          let method : method_eq q.method request.method ≡ true = rw same at m in
          inl (there, method, cc r)
      | inr m ↦ cc (rw (pay_invoice, f, m) at h)
    ]
    | inl f ↦ elim (Bool-cases (invoice_is_paid i.status)) [
      | inl g ↦ cc (rw (pay_invoice, f, g) at h)
      | inr g ↦
          elim (Bool-cases
            (any (λ (p : Payment). p.invoice_id == i.id && is_active p.status) db.payments)) [
              | inl a ↦ cc (rw (pay_invoice, f, g, a) at h)
              | inr a ↦ inr (g, rw (pay_invoice, f, g, a) at h)
            ]
    ]
  ]

IsBacked-store_payment :
    (db : Ledger) (request : PaymentCreate) (key : ℕ) (i : Invoice) (new q : Payment)
    (after : Ledger)
    → IsBacked db
    → Backed db.invoices new
    → store_payment db request key i new none ≡ ok (q, after)
    → IsBacked after
unfolding store_payment
IsBacked-store_payment db request key i new q after h k e =
    let stored = record db { payments = new ∷ db.payments } in
    elim (Bool-cases (is_cash request.method)) [
      | inl c ↦
          let all : after
              ≡ log_action (AuditAction.payment_created new.id)
                  (set_invoice_status i.id InvoiceStatus.paid stored) =
            cc (rw c at e) in
          rw all (IsBacked-set_invoice_status i.id InvoiceStatus.paid stored (k, h))
      | inr c ↦
          let all : after ≡ log_action (AuditAction.payment_created new.id) stored =
            cc (rw c at e) in
          rw all (k, h)
    ]

module _ (db : Ledger) (b : ℕ) (request : PaymentCreate) (key id ref : ℕ) (refused : Option Ledger)
    (q : Payment) (after : Ledger)
    (e : create_payment db b request key id ref refused ≡ ok (q, after)) where
  pub create_payment_found :
      (i : Invoice) × (find (invoice_in request.invoice_id b) db.invoices ≡ some i)
      × (pay_invoice db request key i (new_payment id ref b i request.method key) refused
          ≡ ok (q, after))
  unfolding create_payment
  create_payment_found = elim (Option-cases (find (invoice_in request.invoice_id b) db.invoices)) [
    | inl f ↦ cc (rw f at e)
    | inr (i, f) ↦ (i, f, rw f at e)
  ]

-- A new payment keeps every payment backed by its invoice, where the ids of invoices are distinct
-- and the database does not refuse the rows.
pub create_payment-IsBacked :
    (db : Ledger) (b : ℕ) (request : PaymentCreate) (key id ref : ℕ) (q : Payment) (after : Ledger)
    → create_payment db b request key id ref none ≡ ok (q, after)
    → DistinctIds db.invoices
    → IsBacked db
    → IsBacked after
create_payment-IsBacked db b request key id ref q after e d h =
    let (i, f, g) = create_payment_found db b request key id ref none q after e in
    let new = new_payment id ref b i request.method key in
    elim (pay_invoice-Paid db request key i new none q after g) [
      | inl (_, _, same) ↦ rw same h
      | inr (_, stored) ↦
          IsBacked-store_payment db request key i new q after h
            (i, find-invoice_in request.invoice_id b db.invoices i d f, refl) stored
    ]

method_eq_refl : (m : PaymentMethod) → method_eq m m ≡ true
method_eq_refl PaymentMethod.cash = refl
method_eq_refl PaymentMethod.vietqr_mock = refl

module _ (b : ℕ) (request : PaymentCreate) (key id ref : ℕ) (refusal : Option Ledger) where
  pay_invoice_again :
      (db : Ledger) (i : Invoice) (new p : Payment)
      → find (has_key i.id key) db.payments ≡ some p
      → method_eq p.method request.method ≡ true
      → pay_invoice db request key i new refusal ≡ ok (p, db)
  unfolding pay_invoice
  pay_invoice_again db i new p f m = rw (pay_invoice, f, m)

  -- A payment with the key and the method is returned again.
  create_payment_again :
      (db : Ledger) (i : Invoice) (p : Payment)
      → find (invoice_in request.invoice_id b) db.invoices ≡ some i
      → find (has_key i.id key) db.payments ≡ some p
      → method_eq p.method request.method ≡ true
      → create_payment db b request key id ref refusal ≡ ok (p, db)
  unfolding create_payment
  create_payment_again db i p e f m =
      rw e (pay_invoice_again db i (new_payment id ref b i request.method key) p f m)

  create_payment_stored :
      (db : Ledger) (i : Invoice) (new q : Payment) (after : Ledger)
      → find (invoice_in request.invoice_id b) db.invoices ≡ some i
      → store_payment db request key i new none ≡ ok (q, after)
      → new.invoice_id ≡ i.id
      → new.idempotency_key ≡ key
      → new.method ≡ request.method
      → create_payment after b request key id ref refusal ≡ ok (q, after)
  unfolding store_payment find
  create_payment_stored db i new q after e s u v w =
      let method : method_eq new.method request.method ≡ true =
        rw w (method_eq_refl request.method) in
      let there : (new.invoice_id == i.id && new.idempotency_key == key) ≡ true = ground arith in
      let stored = record db { payments = new ∷ db.payments } in
      elim (Bool-cases (is_cash request.method)) [
        | inr c ↦
            let same : q ≡ new = cc (rw c at s) in
            let all : after ≡ log_action (AuditAction.payment_created new.id) stored =
              cc (rw c at s) in
            rw (same, all)
              (create_payment_again (log_action (AuditAction.payment_created new.id) stored) i new e
                (rw there) method)
        | inl c ↦
            let same : q ≡ new = cc (rw c at s) in
            let done =
              log_action (AuditAction.payment_created new.id)
                (set_invoice_status i.id InvoiceStatus.paid stored) in
            let all : after ≡ done = cc (rw c at s) in
            let (j, f, either) =
              find-update_other (invoice_in request.invoice_id b) (invoice_key i.id)
                (λ (x : Invoice). record x { status = InvoiceStatus.paid }) (λ x. refl) db.invoices
                i e in
            let id : i.id ≡ j.id = elim either [ inl a ↦ rw a | inr a ↦ rw a ] in
            rw (same, all) (create_payment_again done j new f (rw (rw id at there)) method)
      ]

  -- What the database has under the key after a refusal is returned again, if the invoice is there.
  replay_payment_again :
      (db : Ledger) (j : Invoice) (q : Payment) (after : Ledger)
      → find (invoice_in request.invoice_id b) db.invoices ≡ some j
      → replay_payment db request key ≡ ok (q, after)
      → create_payment after b request key id ref refusal ≡ ok (q, after)
  unfolding replay_payment
  replay_payment_again db j q after e h =
      elim (Option-cases (find (has_key request.invoice_id key) db.payments)) [
        | inl a ↦ cc (rw (replay_payment, a) at h)
        | inr (p, a) ↦ elim (Bool-cases (method_eq p.method request.method)) [
          | inr m ↦ cc (rw (replay_payment, a, m) at h)
          | inl m ↦
              let own : invoice_in request.invoice_id b j ≡ true =
                find_test (invoice_in request.invoice_id b) db.invoices e in
              let same : request.invoice_id ≡ j.id = ground (arith, own) in
              let there : find (has_key j.id key) db.payments ≡ some p =
                subst (λ (k : ℕ). find (has_key k key) db.payments ≡ some p) same a in
              subst
                (λ (r : Payment × Ledger). create_payment r.1 b request key id ref refusal ≡ ok r)
                (ok_injective {a = (p, db)} {b = (q, after)} (rw (replay_payment, a, m) at h))
                (create_payment_again db j p e there m)
        ]
      ]

-- A request for a payment that has returned returns the same payment when it is sent again with
-- its key, and changes nothing, also if the database refuses rows the first time, and has the
-- invoice still, or that time.
pub create_payment_twice :
    (db : Ledger) (b : ℕ) (request : PaymentCreate) (key id ref id' ref' : ℕ)
    (refused refusal : Option Ledger) (q : Payment) (after : Ledger)
    → ((l : Ledger)
        → refused ≡ some l
        → (j : Invoice) × (find (invoice_in request.invoice_id b) l.invoices ≡ some j))
    → create_payment db b request key id ref refused ≡ ok (q, after)
    → create_payment after b request key id' ref' refusal ≡ ok (q, after)
unfolding store_payment
create_payment_twice db b request key id ref id' ref' refused refusal q after kept e =
    let (i, f, g) = create_payment_found db b request key id ref refused q after e in
    let new = new_payment id ref b i request.method key in
    let Stored : Option Ledger → Type 0 =
      λ o. store_payment db request key i new o ≡ ok (q, after) in
    elim (pay_invoice-Paid db request key i new refused q after g) [
      | inl (there, method, same) ↦
          rw same (create_payment_again b request key id' ref' refusal db i q f there method)
      | inr (_, stored) ↦ elim (Option-cases refused) [
        | inl r ↦
            create_payment_stored b request key id' ref' refusal db i new q after f
              (subst Stored r stored) refl refl refl
        | inr (l, r) ↦
            let (j, there) = kept l r in
            replay_payment_again b request key id' ref' refusal l j q after there
              (subst Stored r stored)
      ]
    ]
