-- ===== src/Billing/Deliveries.antt =====
-- Callbacks that arrive twice or late.
use vision_park_ai.Prelude.{◌≡◌, refl, ap, true, false, some, inl, inr, arith, ◌==◌, Bool-cases}
use vision_park_ai.Tables.{find, find_test, update_first, find-update_first}
use vision_park_ai.Errors.{ok}
use vision_park_ai.Ledger.{
  Payment, Ledger, AuditAction, PaymentStatus, InvoiceStatus, ProviderStatus, has_ref, method_eq,
  vietqr_mock, set_invoice_status, is_final, is_paid, status_of,
}
use vision_park_ai.Billing.{
  CallbackPayload, note_provider, set_status, write_payment, settle, is_repeat, apply_to,
  apply_callback,
}
use vision_park_ai.Billing.Callbacks.{
  Effect, repeated, refunded, refused, paid, moved, Wrote, AmountAgrees, apply_callback-Effect,
}

module _ (c : CallbackPayload) (p : Payment) where
  -- A written payment repeats the callback.
  note-is_repeat : (st : PaymentStatus) → is_repeat c (set_status st (note_provider c p)) ≡ true
  note-is_repeat st = ground arith

  -- The payment that is written is the one that its reference finds from then on.
  find-write_payment :
      (st : PaymentStatus) (db : Ledger) (a : AuditAction)
      → find (has_ref c.provider_ref) db.payments ≡ some p
      → find (has_ref c.provider_ref) (write_payment c st p db a).1.payments
        ≡ some (write_payment c st p db a).0
  find-write_payment st db a h =
      find-update_first (has_ref c.provider_ref)
        (λ (q : Payment). set_status st (note_provider c q)) db.payments p h
        (find_test (has_ref c.provider_ref) db.payments h)

-- What a payment's callbacks leave alone.
Effect-method :
    (db : Ledger) (c : CallbackPayload) (p q : Payment) (after : Ledger)
    → Effect db c p q after
    → q.method ≡ p.method
Effect-method db c p q after (repeated r e f) = rw e
Effect-method db c p q after (refunded w t o (a, e, f)) = rw e
Effect-method db c p q after (refused w d (a, e, f)) = rw e
Effect-method db c p q after (paid w d t (a, e, f)) = rw e
Effect-method db c p q after (moved w d t (a, e, f)) = rw e

Wrote-is_repeat :
    (db : Ledger) (c : CallbackPayload) (p q : Payment) (after : Ledger) (st : PaymentStatus)
    (d : Ledger)
    → d.payments ≡ db.payments
    → find (has_ref c.provider_ref) db.payments ≡ some p
    → Wrote c st p d q after
    → (is_repeat c q ≡ true) × (find (has_ref c.provider_ref) after.payments ≡ some q)
Wrote-is_repeat db c p q after st d same h (a, e, f) =
    let r : is_repeat c q ≡ true = rw e (note-is_repeat c p st) in
    let g : find (has_ref c.provider_ref) after.payments ≡ some q =
      rw (e, f) (find-write_payment c p st d a (rw same h)) in
    (r, g)

Effect-is_repeat :
    (db : Ledger) (c : CallbackPayload) (p q : Payment) (after : Ledger)
    → find (has_ref c.provider_ref) db.payments ≡ some p
    → Effect db c p q after
    → (is_repeat c q ≡ true) × (find (has_ref c.provider_ref) after.payments ≡ some q)
Effect-is_repeat db c p q after h (repeated r e f) = (rw e r, rw (e, f) h)
Effect-is_repeat db c p q after h (refunded w t o x) = Wrote-is_repeat db c p q after _ _ refl h x
Effect-is_repeat db c p q after h (refused w d x) = Wrote-is_repeat db c p q after _ _ refl h x
Effect-is_repeat db c p q after h (paid w d t x) = Wrote-is_repeat db c p q after _ _ refl h x
Effect-is_repeat db c p q after h (moved w d t x) = Wrote-is_repeat db c p q after _ _ refl h x

apply_to_method :
    (db : Ledger) (c : CallbackPayload) (p q : Payment) (after : Ledger)
    → apply_to db c p ≡ ok (q, after)
    → method_eq p.method vietqr_mock ≡ true
unfolding apply_to
apply_to_method db c p q after h = elim (Bool-cases (method_eq p.method vietqr_mock)) [
  | inl m ↦ m
  | inr m ↦ cc (rw m at h)
]

-- A callback that is delivered twice has the effect and the answer of the first delivery.
pub apply_callback_twice :
    (db : Ledger) (c : CallbackPayload) (q : Payment) (after : Ledger)
    → apply_callback db c ≡ ok (q, after)
    → apply_callback after c ≡ ok (q, after)
unfolding apply_callback apply_to
apply_callback_twice db c q after h =
    let (p, e, f) = apply_callback-Effect db c q after h in
    let m = apply_to_method db c p q after (rw e at h) in
    let (r, g) = Effect-is_repeat db c p q after e f in
    let n : method_eq q.method vietqr_mock ≡ true = rw (Effect-method db c p q after f) m in
    rw (g, n, r)

-- A callback that reports PAID with the right amount pays a payment that has failed, whatever the
-- state of its invoice is.
pub late_callback_pays :
    (db : Ledger) (c : CallbackPayload) (p : Payment)
    → find (has_ref c.provider_ref) db.payments ≡ some p
    → p.method ≡ vietqr_mock
    → p.status ≡ PaymentStatus.failed
    → is_repeat c p ≡ false
    → c.status ≡ ProviderStatus.paid
    → AmountAgrees db c p
    → (q : Payment) × (after : Ledger) × (apply_callback db c ≡ ok (q, after))
      × (after.payments
          ≡ update_first
              (has_ref c.provider_ref)
              (λ (x : Payment). set_status PaymentStatus.paid (note_provider c x))
              db.payments)
unfolding apply_callback apply_to settle
late_callback_pays db c p e m s r t (own, (i, f, total)) =
    let own' : (c.amount_vnd == p.amount_vnd) ≡ true = ground arith in
    let total' : (c.amount_vnd == i.total_vnd) ≡ true = ground arith in
    let written =
      write_payment c (status_of c.status) p (set_invoice_status p.invoice_id InvoiceStatus.paid db)
        (AuditAction.payment_callback p.id) in
    let m' : method_eq p.method vietqr_mock ≡ true = rw m in
    let s' : is_final p.status ≡ false = rw s in
    let u : is_paid p.status ≡ false = rw s in
    let k : is_paid (status_of c.status) ≡ true = rw t in
    let paid_now : status_of c.status ≡ PaymentStatus.paid = rw t in
    (
      written.0,
      written.1,
      rw (e, m', r, u, s', own', f, total', k),
      ap
          (λ (st : PaymentStatus).
            update_first (has_ref c.provider_ref)
              (λ (x : Payment). set_status st (note_provider c x)) db.payments)
          paid_now,
    )
