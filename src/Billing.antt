-- ===== src/Billing.antt =====
-- Payments of backend/app/modules/pricing/billing.py: `create_payment`, `apply_callback` and
-- `reconcile_payments`. The rows of a query are locked, so a call is one step from a database to
-- the next; what it wrote before a raise is rolled back.
pub mod Invoices
pub mod Callbacks
pub mod Deliveries
pub mod Doubles
pub mod Payments
pub mod Requests
pub mod Reconcile
mod Tests
use vision_park_ai.Prelude.{
  ℕ, Bool, true, false, not, ◌&&◌, ◌||◌, Option, none, some, List, [], ◌∷◌, ◌++◌, ◌==◌,
  if◌then◌else◌, any,
}
use vision_park_ai.Tables.{find, update_first}
use vision_park_ai.Ledger.{
  PaymentMethod, ProviderStatus, PaymentStatus, InvoiceStatus, Invoice, Payment, AuditAction,
  Ledger, log_action, method_eq, is_cash, option_eq, provider_status_eq, is_paid, is_final,
  is_active, invoice_is_paid, status_of, invoice_key, invoice_in, has_ref, has_key,
  set_invoice_status, cash, vietqr_mock,
}
use vision_park_ai.Errors.{
  Result, ok, raise, app_error, attribute_error, raise_if, or_raise, ◌>>=◌, ◌>>◌, invoice_not_found,
  idempotency_conflict, invoice_paid, payment_pending, payment_conflict, payment_not_found,
  invalid_payment_method, refund_amount_mismatch, payment_final,
}

pub record PaymentCreate : Type 0 where
  pub invoice_id : ℕ
  pub method : PaymentMethod

abbrev pub new_payment : ℕ → ℕ → ℕ → Invoice → PaymentMethod → ℕ → Payment
new_payment id ref building_id invoice method key = record {
  id = id;
  building_id = building_id;
  invoice_id = invoice.id;
  provider_ref = if is_cash method then none else some ref;
  idempotency_key = key;
  method = method;
  status = if is_cash method then PaymentStatus.paid else PaymentStatus.pending;
  amount_vnd = invoice.total_vnd;
  provider_status = none;
  provider_amount_vnd = none;
}

-- After an IntegrityError: the payment with this key in the database as it is then.
unfoldable pub replay_payment : Ledger → PaymentCreate → ℕ → Result (Payment × Ledger)
replay_payment db request key = elim (find (has_key request.invoice_id key) db.payments) [
  | none ↦ raise (app_error 409 payment_conflict)
  | some p ↦
      if method_eq p.method request.method
      then ok (p, db)
      else raise (app_error 409 payment_conflict)
]

-- The part of `create_payment` that writes. `refused` is `some db'` when the flush meets an
-- IntegrityError and the database is found as `db'` after the rollback.
unfoldable pub store_payment :
    Ledger → PaymentCreate → ℕ → Invoice → Payment → Option Ledger → Result (Payment × Ledger)
store_payment db request key invoice p (some db') = replay_payment db' request key
store_payment db request key invoice p none =
    let stored = record db { payments = p ∷ db.payments } in
    ok (
      p,
      log_action (AuditAction.payment_created p.id) (
          if is_cash request.method
          then set_invoice_status invoice.id InvoiceStatus.paid stored
          else stored),
    )

-- `create_payment` once the invoice is found; `p` is the payment it would store.
unfoldable pub pay_invoice :
    Ledger → PaymentCreate → ℕ → Invoice → Payment → Option Ledger → Result (Payment × Ledger)
pay_invoice db request key invoice new refused = elim (find (has_key invoice.id key) db.payments) [
  | some p ↦
      if method_eq p.method request.method
      then ok (p, db)
      else raise (app_error 409 idempotency_conflict)
  | none ↦
      raise_if (invoice_is_paid invoice.status) (app_error 409 invoice_paid)
      >> (raise_if
            (any (λ (p : Payment). p.invoice_id == invoice.id && is_active p.status) db.payments)
            (app_error 409 payment_pending)
          >> store_payment db request key invoice new refused)
]

unfoldable pub create_payment :
    Ledger → ℕ → PaymentCreate → ℕ → ℕ → ℕ → Option Ledger → Result (Payment × Ledger)
create_payment db building_id request key id ref refused = do
  invoice ←
      or_raise (find (invoice_in request.invoice_id building_id) db.invoices)
        (app_error 404 invoice_not_found)
  pay_invoice db request key invoice (new_payment id ref building_id invoice request.method key)
      refused

pub record CallbackPayload : Type 0 where
  pub provider_ref : ℕ
  pub amount_vnd : ℕ
  pub status : ProviderStatus

-- The payment with what the provider said.
abbrev pub note_provider : CallbackPayload → Payment → Payment
note_provider c p = record p {
  provider_status = some c.status;
  provider_amount_vnd = some c.amount_vnd;
}

abbrev pub set_status : PaymentStatus → Payment → Payment
set_status status p = record p { status = status }

-- The payment's row is written, and its new value is returned with the database.
abbrev pub write_payment :
    CallbackPayload → PaymentStatus → Payment → Ledger → AuditAction → Payment × Ledger
write_payment c status p db action = (
  set_status status (note_provider c p),
  log_action action (record db {
    payments =
        update_first (has_ref c.provider_ref)
          (λ (q : Payment). set_status status (note_provider c q)) db.payments;
  }),
)

unfoldable pub refund : Ledger → CallbackPayload → Payment → Result (Payment × Ledger)
refund db c p = do
  raise_if (not (c.amount_vnd == p.amount_vnd)) (app_error 409 refund_amount_mismatch)
  invoice ← or_raise (find (invoice_key p.invoice_id) db.invoices) attribute_error
  ok (
      write_payment c PaymentStatus.refunded p
        (set_invoice_status p.invoice_id InvoiceStatus.refunded db)
        (AuditAction.payment_refunded p.id))

-- The last part of `apply_callback`: the invoice is read only if the amount is the payment's.
unfoldable pub settle : Ledger → CallbackPayload → Payment → Result (Payment × Ledger)
settle db c p =
    let action = AuditAction.payment_callback p.id in
    if not (c.amount_vnd == p.amount_vnd)
    then ok (write_payment c PaymentStatus.failed p db action)
    else or_raise (find (invoice_key p.invoice_id) db.invoices) attribute_error >>= λ invoice.
        if not (c.amount_vnd == invoice.total_vnd)
        then ok (write_payment c PaymentStatus.failed p db action)
        else ok (
            write_payment c (status_of c.status) p
              (if is_paid (status_of c.status)
                then set_invoice_status p.invoice_id InvoiceStatus.paid db
                else db)
              action)

abbrev pub is_refund : ProviderStatus → Bool
is_refund ProviderStatus.refunded = true
is_refund _ = false

abbrev pub is_repeat : CallbackPayload → Payment → Bool
is_repeat c p =
    provider_status_eq p.provider_status c.status
    && option_eq p.provider_amount_vnd (some c.amount_vnd)

unfoldable pub apply_to : Ledger → CallbackPayload → Payment → Result (Payment × Ledger)
apply_to db c p = do
  raise_if (not (method_eq p.method vietqr_mock)) (app_error 409 invalid_payment_method)
  (if is_repeat c p
      then ok (p, db)
      else if is_paid p.status && is_refund c.status
      then refund db c p
      else (raise_if (is_final p.status) (app_error 409 payment_final) >> settle db c p))

unfoldable pub apply_callback : Ledger → CallbackPayload → Result (Payment × Ledger)
apply_callback db c = do
  p ← or_raise (find (has_ref c.provider_ref) db.payments) (app_error 404 payment_not_found)
  apply_to db c p

pub data Mismatch : Type 0 where
  amount_mismatch status_mismatch invoice_status_mismatch : Mismatch

abbrev pub reason : Bool → Mismatch → List Mismatch
reason b m = if b then m ∷ [] else []

abbrev pub amount_differs : Payment → Invoice → Bool
amount_differs p i = elim p.provider_amount_vnd [ none ↦ false | some a ↦ not (a == i.total_vnd) ]

-- The reasons that `reconcile_payments` gives for one payment and its invoice.
unfoldable pub mismatches : Payment → Invoice → List Mismatch
mismatches p i =
    reason (amount_differs p i) amount_mismatch
    ++ (reason (provider_status_eq p.provider_status ProviderStatus.paid && not (is_paid p.status))
          status_mismatch
        ++ reason (is_paid p.status && not (invoice_is_paid i.status)) invoice_status_mismatch)

abbrev pub report :
    Payment → Invoice → List Mismatch → List (ℕ × ℕ × List Mismatch) → List (ℕ × ℕ × List Mismatch)
report p i [] rest = rest
report p i (m ∷ ms) rest = (p.id, i.id, m ∷ ms) ∷ rest

-- The join drops a payment whose invoice is not there.
abbrev pub report_row :
    ℕ → Payment → Option Invoice → List (ℕ × ℕ × List Mismatch) → List (ℕ × ℕ × List Mismatch)
report_row building_id p none rest = rest
report_row building_id p (some i) rest =
    if p.building_id == building_id && method_eq p.method vietqr_mock
    then report p i (mismatches p i) rest
    else rest

-- `reconcile_payments` on the payments of the query.
unfoldable pub reconcile_rows : ℕ → Ledger → List Payment → List (ℕ × ℕ × List Mismatch)
reconcile_rows building_id db [] = []
reconcile_rows building_id db (p ∷ ps) =
    report_row building_id p (find (invoice_key p.invoice_id) db.invoices)
      (reconcile_rows building_id db ps)

unfoldable pub reconcile_payments : ℕ → Ledger → List (ℕ × ℕ × List Mismatch)
unfolding reconcile_rows
reconcile_payments building_id db = reconcile_rows building_id db db.payments
