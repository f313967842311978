-- ===== src/Billing/Doubles.antt =====
-- An invoice that is paid twice.
use vision_park_ai.Prelude.{
  ℕ, suc, ◌+◌, ◌≡◌, refl, sym, ap, ◌∙◌, true, false, ◌&&◌, none, some, inl, inr, List, [], ◌∷◌,
  arith, ◌==◌, length, select, Bool-cases,
}
use mathlib.Core.Path.{subst}
use vision_park_ai.Tables.{find, find_test, update_first, find-update_other}
use vision_park_ai.Errors.{ok, ok_injective}
use vision_park_ai.Ledger.{
  Invoice, Payment, Ledger, AuditAction, PaymentMethod, PaymentStatus, InvoiceStatus,
  ProviderStatus, has_ref, has_key, invoice_key, invoice_in, vietqr_mock, set_invoice_status,
  is_paid, log_action,
}
use vision_park_ai.Billing.{
  CallbackPayload, PaymentCreate, note_provider, set_status, is_repeat, new_payment, store_payment,
  create_payment, apply_callback,
}
use vision_park_ai.Billing.Callbacks.{AmountAgrees}
use vision_park_ai.Billing.Deliveries.{late_callback_pays}
use vision_park_ai.Billing.Requests.{pay_invoice-Paid, create_payment_found}

-- How many of the payments of an invoice are paid.
abbrev pub paid_count : ℕ → List Payment → ℕ
paid_count k ps = length (select (λ (p : Payment). p.invoice_id == k && is_paid p.status) ps)

-- The payment of a reference that is not paid is one more once it is.
paid_count-update_first :
    (c : CallbackPayload) (k : ℕ) (p : Payment) (ps : List Payment)
    → find (has_ref c.provider_ref) ps ≡ some p
    → p.invoice_id ≡ k
    → is_paid p.status ≡ false
    → paid_count k (
        update_first
          (has_ref c.provider_ref)
          (λ (x : Payment). set_status PaymentStatus.paid (note_provider c x))
          ps)
      ≡ suc (paid_count k ps)
unfolding find update_first
paid_count-update_first c k p [] h e u = cc
paid_count-update_first c k p (x ∷ ps) h e u = elim (Bool-cases (has_ref c.provider_ref x)) [
  | inl a ↦
      let same : x ≡ p = cc (rw a at h) in
      let own : (x.invoice_id == k) ≡ true = rw same (ground (arith, e)) in
      let open_yet : is_paid x.status ≡ false = rw same u in rw (a, own, open_yet) refl
  | inr a ↦
      let rest = paid_count-update_first c k p ps (rw a at h) e u in
      elim (Bool-cases (x.invoice_id == k && is_paid x.status)) [
        | inl b ↦ rw (a, b) (ap suc rest)
        | inr b ↦ rw (a, b) rest
      ]
]

abbrev pub cash_for : ℕ → PaymentCreate
cash_for invoice_id = record { invoice_id = invoice_id; method = PaymentMethod.cash }

-- A payment in cash under a new key is stored, and its invoice paid.
cash_stored :
    (db : Ledger) (b k key id ref : ℕ) (q : Payment) (mid : Ledger)
    → find (has_key k key) db.payments ≡ none
    → create_payment db b (cash_for k) key id ref none ≡ ok (q, mid)
    → (i : Invoice) × (i.id ≡ k)
      × (log_action (AuditAction.payment_created id) (
            set_invoice_status i.id InvoiceStatus.paid (record db {
              payments = new_payment id ref b i PaymentMethod.cash key ∷ db.payments;
            }))
          ≡ mid)
unfolding store_payment
cash_stored db b k key id ref q mid fresh e =
    let (i, f, g) = create_payment_found db b (cash_for k) key id ref none q mid e in
    let found : invoice_in k b i ≡ true = find_test (invoice_in k b) db.invoices f in
    let same : i.id ≡ k = ground (arith, found) in
    let new = new_payment id ref b i PaymentMethod.cash key in
    elim (pay_invoice-Paid db (cash_for k) key i new none q mid g) [
      | inl (there, _, _) ↦
          let there' : find (has_key k key) db.payments ≡ some q =
            subst (λ (n : ℕ). find (has_key n key) db.payments ≡ some q) same there in
          cc (fresh, there')
      | inr (_, stored) ↦
          (i, same, ap (λ (r : Payment × Ledger). r.1) (ok_injective {A = Payment × Ledger} stored))
    ]

-- A transfer fails; its invoice is paid in cash, under a new key; then the provider reports the
-- transfer as PAID by the right amount, which it had not done: the callback returns, and the invoice
-- has two paid payments more.
pub late_callback_double :
    (db : Ledger) (b key id ref : ℕ) (c : CallbackPayload) (p q : Payment) (mid : Ledger)
    → find (has_ref c.provider_ref) db.payments ≡ some p
    → p.method ≡ vietqr_mock
    → p.status ≡ PaymentStatus.failed
    → is_repeat c p ≡ false
    → c.status ≡ ProviderStatus.paid
    → AmountAgrees db c p
    → find (has_key p.invoice_id key) db.payments ≡ none
    → create_payment db b (cash_for p.invoice_id) key id ref none ≡ ok (q, mid)
    → (r : Payment) × (after : Ledger) × (apply_callback mid c ≡ ok (r, after))
      × (paid_count p.invoice_id after.payments ≡ paid_count p.invoice_id db.payments + 2)
unfolding find
late_callback_double db b key id ref c p q mid e m s r t (own, (j, f, total)) fresh made =
    let k = p.invoice_id in
    let (i, same, all) = cash_stored db b k key id ref q mid fresh made in
    let new = new_payment id ref b i PaymentMethod.cash key in
    let payments : mid.payments ≡ new ∷ db.payments = sym (ap (λ (l : Ledger). l.payments) all) in
    let there : find (has_ref c.provider_ref) mid.payments ≡ some p = rw payments e in
    let (y, g, either) =
      find-update_other (invoice_key k) (invoice_key i.id)
        (λ (x : Invoice). record x { status = InvoiceStatus.paid }) (λ x. refl) db.invoices j f in
    let billed : find (invoice_key k) mid.invoices ≡ some y =
      subst (λ (l : Ledger). find (invoice_key k) l.invoices ≡ some y) all g in
    let total' : c.amount_vnd ≡ y.total_vnd = elim either [
      | inl a ↦ rw a total
      | inr a ↦ rw a total
    ] in
    let (r', after, returned, paid) =
      late_callback_pays mid c p there m s r t (own, (y, billed, total')) in
    let open_yet : is_paid p.status ≡ false = rw s in
    let mine : (i.id == k) ≡ true = ground (arith, same) in
    let first : paid_count k mid.payments ≡ suc (paid_count k db.payments) =
      rw (payments, mine) refl in
    let second : paid_count k after.payments ≡ suc (paid_count k mid.payments) =
      ap (paid_count k) paid ∙ paid_count-update_first c k p mid.payments there refl open_yet in
    (r', after, returned, omega (arith, first, second))
