-- ===== src/Billing/Payments.antt =====
-- Payments against their invoices.
use vision_park_ai.Prelude.{
  ℕ, ◌≡◌, ◌≢◌, refl, true, false, some, inl, inr, List, [], ◌∷◌, arith, ◌==◌, ==_refl, Bool-cases,
  Each, Each-map,
}
use vision_park_ai.Tables.{find, find-Each, find-update_other, update_first-Each}
use vision_park_ai.Errors.{ok}
use vision_park_ai.Ledger.{
  Invoice, Payment, Ledger, PaymentStatus, InvoiceStatus, has_ref, invoice_key, invoice_in,
  set_invoice_status,
}
use vision_park_ai.Billing.{CallbackPayload, note_provider, set_status, apply_callback}
use vision_park_ai.Billing.Callbacks.{
  Effect, repeated, refunded, refused, paid, moved, Wrote, apply_callback-Effect,
}

-- The payment's invoice is there, and the payment is of its total.
abbrev pub Backed : List Invoice → Payment → Type 0
Backed is p =
    (i : Invoice) × (find (invoice_key p.invoice_id) is ≡ some i) × (i.total_vnd ≡ p.amount_vnd)

abbrev pub IsBacked : Ledger → Type 0
IsBacked db = Each (Backed db.invoices) db.payments

-- A new status of an invoice backs the payments that it backed.
Backed-set_invoice_status :
    (k : ℕ) (st : InvoiceStatus) (db : Ledger) (p : Payment)
    → Backed db.invoices p
    → Backed (set_invoice_status k st db).invoices p
Backed-set_invoice_status k st db p (i, e, t) =
    let (j, f, s) =
      find-update_other (invoice_key p.invoice_id) (invoice_key k)
        (λ (i : Invoice). record i { status = st }) (λ x. refl) db.invoices i e in
    (j, f, elim s [ inl a ↦ rw a t | inr a ↦ rw a t ])

pub IsBacked-set_invoice_status :
    (k : ℕ) (st : InvoiceStatus) (db : Ledger) → IsBacked db → IsBacked (set_invoice_status k st db)
IsBacked-set_invoice_status k st db h =
    Each-map (Backed db.invoices) (Backed (set_invoice_status k st db).invoices)
      (Backed-set_invoice_status k st db) db.payments h

Wrote-IsBacked :
    (c : CallbackPayload) (st : PaymentStatus) (p : Payment) (db : Ledger) (q : Payment)
    (after : Ledger)
    → IsBacked db
    → Wrote c st p db q after
    → IsBacked after
Wrote-IsBacked c st p db q after h (a, e, f) = rw f (
    update_first-Each (Backed db.invoices) (has_ref c.provider_ref)
      (λ (x : Payment). set_status st (note_provider c x)) db.payments h (λ x b r. b))

Effect-IsBacked :
    (db : Ledger) (c : CallbackPayload) (p q : Payment) (after : Ledger)
    → IsBacked db
    → Effect db c p q after
    → IsBacked after
Effect-IsBacked db c p q after h (repeated r e f) = rw f h
Effect-IsBacked db c p q after h (refunded w t o x) =
    Wrote-IsBacked c _ p _ q after (IsBacked-set_invoice_status p.invoice_id _ db h) x
Effect-IsBacked db c p q after h (refused w d x) = Wrote-IsBacked c _ p _ q after h x
Effect-IsBacked db c p q after h (paid w d t x) =
    Wrote-IsBacked c _ p _ q after (IsBacked-set_invoice_status p.invoice_id _ db h) x
Effect-IsBacked db c p q after h (moved w d t x) = Wrote-IsBacked c _ p _ q after h x

-- Callbacks keep every payment backed by its invoice.
pub apply_callback-IsBacked :
    (db : Ledger) (c : CallbackPayload) (q : Payment) (after : Ledger)
    → IsBacked db
    → apply_callback db c ≡ ok (q, after)
    → IsBacked after
apply_callback-IsBacked db c q after h e =
    let (p, _, f) = apply_callback-Effect db c q after e in Effect-IsBacked db c p q after h f

-- The primary key of `invoices`.
abbrev pub DistinctIds : List Invoice → Type 0
DistinctIds [] = Unit
DistinctIds (i ∷ is) = Each (λ (j : Invoice). j.id ≢ i.id) is × DistinctIds is

-- An invoice that is found with its building is the one that its key finds.
pub find-invoice_in :
    (k b : ℕ) (is : List Invoice) (i : Invoice)
    → DistinctIds is
    → find (invoice_in k b) is ≡ some i
    → find (invoice_key i.id) is ≡ some i
unfolding find
find-invoice_in k b [] i h e = cc
find-invoice_in k b (j ∷ is) i h e = elim (Bool-cases (invoice_in k b j)) [
  | inl m ↦
      let same : j ≡ i = cc (rw m at e) in
      let t : (j.id == i.id) ≡ true = rw same (==_refl i.id) in rw (t, same)
  | inr m ↦
      let rest = rw m at e in
      let other : i.id ≢ j.id =
        find-Each (λ (x : Invoice). x.id ≢ j.id) (invoice_in k b) is h.0 rest in
      let t : (j.id == i.id) ≡ false = ground (arith, other) in
      rw t (find-invoice_in k b is i h.1 rest)
]
