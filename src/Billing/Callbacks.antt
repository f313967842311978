-- ===== src/Billing/Callbacks.antt =====
-- What a provider's callback does to a payment and its invoice.
use vision_park_ai.Prelude.{
  ◌≡◌, ◌≢◌, ◌⊎◌, true, false, ◌&&◌, some, inl, inr, arith, ◌==◌, Bool-cases, Option-cases,
}
use vision_park_ai.Tables.{find}
use vision_park_ai.Errors.{Result, ok}
use vision_park_ai.Ledger.{
  Invoice, Payment, Ledger, AuditAction, PaymentStatus, InvoiceStatus, ProviderStatus, has_ref,
  invoice_key, method_eq, vietqr_mock, set_invoice_status, is_final, is_paid, status_of,
}
use vision_park_ai.Billing.{
  CallbackPayload, write_payment, refund, settle, is_repeat, is_refund, apply_to, apply_callback,
}

-- The payment and the database after a write.
abbrev pub Wrote : CallbackPayload → PaymentStatus → Payment → Ledger → Payment → Ledger → Type 0
Wrote c st p db q after =
    (a : AuditAction) × (q ≡ (write_payment c st p db a).0)
    × (after ≡ (write_payment c st p db a).1)

-- Whether the callback's amount is the payment's and its invoice's.
abbrev pub AmountAgrees : Ledger → CallbackPayload → Payment → Type 0
AmountAgrees db c p =
    (c.amount_vnd ≡ p.amount_vnd)
    × ((i : Invoice) × (find (invoice_key p.invoice_id) db.invoices ≡ some i)
        × (c.amount_vnd ≡ i.total_vnd))

abbrev pub AmountDiffers : Ledger → CallbackPayload → Payment → Type 0
AmountDiffers db c p =
    (c.amount_vnd ≢ p.amount_vnd)
    ⊎ ((i : Invoice) × (find (invoice_key p.invoice_id) db.invoices ≡ some i)
        × (c.amount_vnd ≢ i.total_vnd))

-- What a callback on the payment `p` that returns has done.
pub data Effect (db : Ledger) (c : CallbackPayload) (p q : Payment) (after : Ledger) : Type 0 where
  repeated : is_repeat c p ≡ true → q ≡ p → after ≡ db → Effect db c p q after
  refunded :
      p.status ≡ PaymentStatus.paid
      → c.status ≡ ProviderStatus.refunded
      → c.amount_vnd ≡ p.amount_vnd
      → Wrote c PaymentStatus.refunded p
          (set_invoice_status p.invoice_id InvoiceStatus.refunded db)
          q
          after
      → Effect db c p q after
  refused :
      is_final p.status ≡ false
      → AmountDiffers db c p
      → Wrote c PaymentStatus.failed p db q after
      → Effect db c p q after
  paid :
      is_final p.status ≡ false
      → AmountAgrees db c p
      → c.status ≡ ProviderStatus.paid
      → Wrote c
          (status_of c.status)
          p
          (set_invoice_status p.invoice_id InvoiceStatus.paid db)
          q
          after
      → Effect db c p q after
  moved :
      is_final p.status ≡ false
      → AmountAgrees db c p
      → c.status ≢ ProviderStatus.paid
      → Wrote c (status_of c.status) p db q after
      → Effect db c p q after

module _ (db : Ledger) (c : CallbackPayload) (p q : Payment) (after : Ledger) where
  abbrev noted : AuditAction
  noted = AuditAction.payment_callback p.id

  ok_Wrote :
      (st : PaymentStatus) (d : Ledger) (a : AuditAction)
      → Result.ok (write_payment c st p d a) ≡ ok (q, after)
      → Wrote c st p d q after
  ok_Wrote st d a h = (a, cc h, cc h)

  settle-agreed :
      (i : Invoice)
      → is_final p.status ≡ false
      → (c.amount_vnd == p.amount_vnd) ≡ true
      → find (invoice_key p.invoice_id) db.invoices ≡ some i
      → (c.amount_vnd == i.total_vnd) ≡ true
      → settle db c p ≡ ok (q, after)
      → Effect db c p q after
  unfolding settle
  settle-agreed i unfinal own e total h =
      let agrees : AmountAgrees db c p = (ground arith, (i, e, ground arith)) in
      elim (Bool-cases (is_paid (status_of c.status))) [
        | inl k ↦
            let s : c.status ≡ ProviderStatus.paid = ground arith in
            paid unfinal agrees s (
              ok_Wrote (status_of c.status) (set_invoice_status p.invoice_id InvoiceStatus.paid db)
                noted (rw (own, e, total, k) at h))
        | inr k ↦
            moved unfinal agrees (λ s. cc (s, k))
              (ok_Wrote (status_of c.status) db noted (rw (own, e, total, k) at h))
      ]

  settle-Effect : is_final p.status ≡ false → settle db c p ≡ ok (q, after) → Effect db c p q after
  unfolding settle
  settle-Effect unfinal h = elim (Bool-cases (c.amount_vnd == p.amount_vnd)) [
    | inr other ↦
        refused unfinal (inl (ground arith))
          (ok_Wrote PaymentStatus.failed db noted (rw other at h))
    | inl own ↦ elim (Option-cases (find (invoice_key p.invoice_id) db.invoices)) [
      | inl e ↦ cc (rw (own, e) at h)
      | inr (i, e) ↦ elim (Bool-cases (c.amount_vnd == i.total_vnd)) [
        | inl total ↦ settle-agreed i unfinal own e total h
        | inr other ↦
            refused unfinal (inr (i, e, ground arith))
              (ok_Wrote PaymentStatus.failed db noted (rw (own, e, other) at h))
      ]
    ]
  ]

  refund-Effect :
      p.status ≡ PaymentStatus.paid
      → c.status ≡ ProviderStatus.refunded
      → refund db c p ≡ ok (q, after)
      → Effect db c p q after
  unfolding refund
  refund-Effect was to h = elim (Bool-cases (c.amount_vnd == p.amount_vnd)) [
    | inr other ↦ cc (rw other at h)
    | inl own ↦ elim (Option-cases (find (invoice_key p.invoice_id) db.invoices)) [
      | inl e ↦ cc (rw (own, e) at h)
      | inr (i, e) ↦ refunded was to (ground arith) (
          ok_Wrote PaymentStatus.refunded
            (set_invoice_status p.invoice_id InvoiceStatus.refunded db)
            (AuditAction.payment_refunded p.id) (rw (own, e) at h))
    ]
  ]

  apply_to-Effect : apply_to db c p ≡ ok (q, after) → Effect db c p q after
  unfolding apply_to
  apply_to-Effect h = elim (Bool-cases (method_eq p.method vietqr_mock)) [
    | inr m ↦ cc (rw m at h)
    | inl m ↦ elim (Bool-cases (is_repeat c p)) [
      | inl r ↦ let same = rw (m, r) at h in repeated r (cc same) (cc same)
      | inr r ↦ elim (Bool-cases (is_paid p.status && is_refund c.status)) [
        | inl b ↦ refund-Effect (ground arith) (ground arith) (rw (m, r, b) at h)
        | inr b ↦ elim (Bool-cases (is_final p.status)) [
          | inl f ↦ cc (rw (m, r, b, f) at h)
          | inr f ↦ settle-Effect f (rw (m, r, b, f) at h)
        ]
      ]
    ]
  ]

-- A callback that returns has found the payment of its reference and done one of five things: on
-- a repeat nothing; a refund of a paid payment by its own amount marks payment and invoice
-- refunded; on an open payment, an amount that differs from the payment's or the invoice's marks
-- the payment failed and leaves the invoice, a PAID of the right amount marks both paid, and any
-- other status of the right amount goes to the payment alone.
pub apply_callback-Effect :
    (db : Ledger) (c : CallbackPayload) (q : Payment) (after : Ledger)
    → apply_callback db c ≡ ok (q, after)
    → (p : Payment) × (find (has_ref c.provider_ref) db.payments ≡ some p) × Effect db c p q after
unfolding apply_callback
apply_callback-Effect db c q after h =
    elim (Option-cases (find (has_ref c.provider_ref) db.payments)) [
      | inl e ↦ cc (rw e at h)
      | inr (p, e) ↦ (p, e, apply_to-Effect db c p q after (rw e at h))
    ]
