-- ===== src/Billing/Tests.antt =====
-- A ledger with an open transfer and one that has failed, and the theorems of billing at it.
use vision_park_ai.Prelude.{◌+◌, ◌↔◌, Each, ◌≡◌, refl, false, none, some, [], ◌∷◌}
use mathlib.Core.Path.{subst}
use vision_park_ai.Errors.{ok}
use vision_park_ai.Clock.{utc}
use vision_park_ai.Tables.{find, update_first}
use vision_park_ai.Ledger.{
  Invoice, Payment, Ledger, AuditAction, PaymentMethod, PaymentStatus, InvoiceStatus,
  ProviderStatus, has_ref, invoice_in,
}
use vision_park_ai.Billing.{
  CallbackPayload, PaymentCreate, new_payment, write_payment, apply_callback, apply_to, settle,
  create_payment, pay_invoice, store_payment, replay_payment, reconcile_payments,
}
use vision_park_ai.Billing.Callbacks.{Effect, apply_callback-Effect}
use vision_park_ai.Billing.Deliveries.{apply_callback_twice}
use vision_park_ai.Billing.Doubles.{paid_count, late_callback_double}
use vision_park_ai.Billing.Payments.{IsBacked, apply_callback-IsBacked}
use vision_park_ai.Billing.Reconcile.{InOrder, reconcile_payments_nothing}
use vision_park_ai.Billing.Requests.{create_payment-IsBacked, create_payment_twice}

abbrev car_invoice : Invoice
car_invoice = record {
  id = 1;
  building_id = 5;
  transaction_id = 9;
  price_version_id = 7;
  status = InvoiceStatus.unpaid;
  check_out_time = utc 100;
  lost_ticket = false;
  overtime = false;
  extra_free_minutes = 0;
  guest_invite_id = none;
  total_vnd = 9000;
  lines = [];
}

abbrev transfer : PaymentStatus → Payment
transfer status = record {
  id = 20;
  building_id = 5;
  invoice_id = 1;
  provider_ref = some 77;
  idempotency_key = 3;
  method = PaymentMethod.vietqr_mock;
  status = status;
  amount_vnd = 9000;
  provider_status = none;
  provider_amount_vnd = none;
}

abbrev books : PaymentStatus → Ledger
books status = record { invoices = car_invoice ∷ []; payments = transfer status ∷ []; audit = [] }

abbrev paid_call : CallbackPayload
paid_call = record { provider_ref = 77; amount_vnd = 9000; status = ProviderStatus.paid }

abbrev settled : Payment × Ledger
settled =
    write_payment paid_call PaymentStatus.paid (transfer PaymentStatus.pending)
      (record {
        invoices = record car_invoice { status = InvoiceStatus.paid } ∷ [];
        payments = transfer PaymentStatus.pending ∷ [];
        audit = [];
      })
      (AuditAction.payment_callback 20)

callback_settles : apply_callback (books PaymentStatus.pending) paid_call ≡ ok settled
unfolding apply_callback apply_to settle find update_first
callback_settles = refl

apply_callback-Effect_example :
    (p : Payment) × (find (has_ref 77) (books PaymentStatus.pending).payments ≡ some p)
    × Effect (books PaymentStatus.pending) paid_call p settled.0 settled.1
apply_callback-Effect_example =
    apply_callback-Effect (books PaymentStatus.pending) paid_call settled.0 settled.1
      callback_settles

apply_callback_twice_example : apply_callback settled.1 paid_call ≡ ok settled
apply_callback_twice_example =
    apply_callback_twice (books PaymentStatus.pending) paid_call settled.0 settled.1
      callback_settles

books-IsBacked : IsBacked (books PaymentStatus.pending)
unfolding find
books-IsBacked = ((car_invoice, refl, refl), tt)

apply_callback-IsBacked_example : IsBacked settled.1
apply_callback-IsBacked_example =
    apply_callback-IsBacked (books PaymentStatus.pending) paid_call settled.0 settled.1
      books-IsBacked callback_settles

abbrev cash_request : PaymentCreate
cash_request = record { invoice_id = 1; method = PaymentMethod.cash }

abbrev paid_cash : Payment
paid_cash = new_payment 21 78 5 car_invoice PaymentMethod.cash 4

abbrev after_cash : Ledger
after_cash = record {
  invoices = record car_invoice { status = InvoiceStatus.paid } ∷ [];
  payments = paid_cash ∷ transfer PaymentStatus.failed ∷ [];
  audit = AuditAction.payment_created 21 ∷ [];
}

cash_pays :
    create_payment (books PaymentStatus.failed) 5 cash_request 4 21 78 none
    ≡ ok (paid_cash, after_cash)
unfolding create_payment pay_invoice store_payment find update_first
cash_pays = refl

-- The transfer that failed is reported as paid after the cash.
late_callback_double_example :
    (r : Payment) × (after : Ledger) × (apply_callback after_cash paid_call ≡ ok (r, after))
    × (paid_count 1 after.payments ≡ paid_count 1 (books PaymentStatus.failed).payments + 2)
unfolding find
late_callback_double_example =
    late_callback_double (books PaymentStatus.failed) 5 4 21 78 paid_call
      (transfer PaymentStatus.failed) paid_cash after_cash refl refl refl refl refl
      (refl, (car_invoice, refl, refl)) refl cash_pays

create_payment-IsBacked_example : IsBacked after_cash
unfolding find
create_payment-IsBacked_example =
    create_payment-IsBacked (books PaymentStatus.failed) 5 cash_request 4 21 78 paid_cash after_cash
      cash_pays (tt, tt) ((car_invoice, refl, refl), tt)

-- The same request, whose rows are refused since the one above came first.
cash_refused :
    create_payment (books PaymentStatus.failed) 5 cash_request 4 22 79 (some after_cash)
    ≡ ok (paid_cash, after_cash)
unfolding create_payment pay_invoice store_payment replay_payment find
cash_refused = refl

invoice_kept :
    (l : Ledger)
    → some after_cash ≡ some l
    → (j : Invoice) × (find (invoice_in 1 5) l.invoices ≡ some j)
unfolding find
invoice_kept l e =
    let same : after_cash ≡ l = cc e in
    subst (λ (x : Ledger). (j : Invoice) × (find (invoice_in 1 5) x.invoices ≡ some j)) same
      (record car_invoice { status = InvoiceStatus.paid }, refl)

create_payment_twice_example :
    create_payment after_cash 5 cash_request 4 23 80 none ≡ ok (paid_cash, after_cash)
create_payment_twice_example =
    create_payment_twice (books PaymentStatus.failed) 5 cash_request 4 22 79 23 80 (some after_cash)
      none paid_cash after_cash invoice_kept cash_refused

reconcile_payments_nothing_example :
    (reconcile_payments 5 settled.1 ≡ []) ↔ Each (InOrder 5 settled.1) settled.1.payments
reconcile_payments_nothing_example = reconcile_payments_nothing 5 settled.1
