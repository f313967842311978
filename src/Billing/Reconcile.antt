-- ===== src/Billing/Reconcile.antt =====
-- What `reconcile_payments` reports.
use vision_park_ai.Prelude.{
  ℕ, ◌≡◌, ◌↔◌, refl, Bool, true, false, not, ◌&&◌, Option, some, inl, inr, List, [], ◌∷◌, ◌++◌,
  arith, ◌==◌, Bool-cases, Option-cases, Each,
}
use vision_park_ai.Tables.{find}
use vision_park_ai.Ledger.{
  Invoice, Payment, Ledger, PaymentStatus, ProviderStatus, InvoiceStatus, PaymentMethod,
  invoice_key, method_eq, vietqr_mock, is_paid, invoice_is_paid, provider_status_eq,
}
use vision_park_ai.Billing.{
  reconcile_payments, reconcile_rows, mismatches, report, report_row, reason, amount_differs,
  Mismatch,
}

-- The provider named no other amount than the invoice's, a payment that it reports paid is paid,
-- and a paid payment's invoice is paid.
abbrev pub Agrees : Payment → Invoice → Type 0
Agrees p i =
    (amount_differs p i ≡ false)
    × (p.provider_status ≡ some ProviderStatus.paid → p.status ≡ PaymentStatus.paid)
    × (p.status ≡ PaymentStatus.paid → i.status ≡ InvoiceStatus.paid)

-- A transfer of the building agrees with its invoice, where it has one.
abbrev pub InOrder : ℕ → Ledger → Payment → Type 0
InOrder building_id db p =
    p.building_id ≡ building_id
    → p.method ≡ vietqr_mock
    → (i : Invoice) → find (invoice_key p.invoice_id) db.invoices ≡ some i
    → Agrees p i

no_reasons :
    (a b c : Bool)
    → reason a Mismatch.amount_mismatch
        ++ (reason b Mismatch.status_mismatch ++ reason c Mismatch.invoice_status_mismatch)
      ≡ []
    → (a ≡ false) × (b ≡ false) × (c ≡ false)
no_reasons true b c h = cc
no_reasons false true c h = cc
no_reasons false false true h = cc
no_reasons false false false h = (refl, refl, refl)

paid_of : (s : PaymentStatus) → is_paid s ≡ true → s ≡ PaymentStatus.paid
paid_of s h = ground arith

invoice_paid_of : (s : InvoiceStatus) → invoice_is_paid s ≡ true → s ≡ InvoiceStatus.paid
invoice_paid_of s h = ground arith

and_not : (a b : Bool) → (a && not b) ≡ false → a ≡ true → b ≡ true
and_not true true h k = refl
and_not true false h k = cc
and_not false b h k = cc

not_and : (a b : Bool) → (a ≡ true → b ≡ true) → (a && not b) ≡ false
not_and true b h = rw (h refl)
not_and false b h = refl

provider_paid_of :
    (s : Option ProviderStatus)
    → provider_status_eq s ProviderStatus.paid ≡ true
    → s ≡ some ProviderStatus.paid
provider_paid_of s h = ground arith

module _ (p : Payment) (i : Invoice) where
  mismatches-Agrees : mismatches p i ≡ [] → Agrees p i
  unfolding mismatches
  mismatches-Agrees h =
      let (a, b, c) =
        no_reasons (amount_differs p i)
          (provider_status_eq p.provider_status ProviderStatus.paid && not (is_paid p.status))
          (is_paid p.status && not (invoice_is_paid i.status)) h in
      (
        a,
        λ s. paid_of p.status (and_not _ _ b (rw s)),
        λ s. invoice_paid_of i.status (and_not _ _ c (rw s)),
      )

  Agrees-mismatches : Agrees p i → mismatches p i ≡ []
  unfolding mismatches
  Agrees-mismatches (a, b, c) =
      let b' : (provider_status_eq p.provider_status ProviderStatus.paid && not (is_paid p.status))
          ≡ false =
        not_and _ _ (λ s. rw (b (provider_paid_of p.provider_status s))) in
      let c' : (is_paid p.status && not (invoice_is_paid i.status)) ≡ false =
        not_and _ _ (λ s. rw (c (paid_of p.status s))) in
      rw (a, b', c')

method_of : (a b : PaymentMethod) → method_eq a b ≡ true → a ≡ b
method_of a b h = ground arith

report_nothing :
    (p : Payment) (i : Invoice) (ms : List Mismatch) (rest : List (ℕ × ℕ × List Mismatch))
    → report p i ms rest ≡ []
    → (ms ≡ []) × (rest ≡ [])
report_nothing p i [] rest h = (refl, h)
report_nothing p i (m ∷ ms) rest h = cc

module _ (b : ℕ) (db : Ledger) where
  -- A row that reports nothing is in order.
  row_nothing :
      (p : Payment) (rest : List (ℕ × ℕ × List Mismatch))
      → report_row b p (find (invoice_key p.invoice_id) db.invoices) rest ≡ []
      → InOrder b db p × (rest ≡ [])
  row_nothing p rest h = elim (Option-cases (find (invoice_key p.invoice_id) db.invoices)) [
    | inl e ↦ ((λ x y i f. cc (e, f)), rw e at h)
    | inr (i, e) ↦ elim (Bool-cases (p.building_id == b && method_eq p.method vietqr_mock)) [
      | inr c ↦ (
        (λ x y j f.
            let m : method_eq p.method vietqr_mock ≡ true = rw y in
            absurd (ground (arith, c, x, m))),
        rw (e, c) at h,
      )
      | inl c ↦
          let (none_here, r) = report_nothing p i (mismatches p i) rest (rw (e, c) at h) in
          (
            (λ x y j f.
                let same : i ≡ j = cc (e, f) in rw same at (mismatches-Agrees p i none_here)),
            r,
          )
    ]
  ]

  nothing_row :
      (p : Payment) (rest : List (ℕ × ℕ × List Mismatch))
      → InOrder b db p
      → rest ≡ []
      → report_row b p (find (invoice_key p.invoice_id) db.invoices) rest ≡ []
  nothing_row p rest k r = elim (Option-cases (find (invoice_key p.invoice_id) db.invoices)) [
    | inl e ↦ rw e r
    | inr (i, e) ↦ elim (Bool-cases (p.building_id == b && method_eq p.method vietqr_mock)) [
      | inr c ↦ rw (e, c) r
      | inl c ↦
          let m : method_eq p.method vietqr_mock ≡ true = ground arith in
          let x : p.building_id ≡ b = ground arith in
          rw (e, c, Agrees-mismatches p i (k x (method_of _ _ m) i e)) r
    ]
  ]

  reconcile_rows_nothing :
      (ps : List Payment) → reconcile_rows b db ps ≡ [] → Each (InOrder b db) ps
  unfolding reconcile_rows
  reconcile_rows_nothing [] h = tt
  reconcile_rows_nothing (p ∷ ps) h =
      let (k, r) = row_nothing p (reconcile_rows b db ps) h in (k, reconcile_rows_nothing ps r)

  InOrder-reconcile_rows :
      (ps : List Payment) → Each (InOrder b db) ps → reconcile_rows b db ps ≡ []
  unfolding reconcile_rows
  InOrder-reconcile_rows [] h = refl
  InOrder-reconcile_rows (p ∷ ps) h =
      nothing_row p (reconcile_rows b db ps) h.0 (InOrder-reconcile_rows ps h.1)

  -- Nothing is reported exactly when every transfer of the building agrees with its invoice, where
  -- it has one: the provider named no other amount, what it reports paid is paid, and a paid
  -- payment's invoice is paid.
  pub reconcile_payments_nothing : (reconcile_payments b db ≡ []) ↔ Each (InOrder b db) db.payments
  unfolding reconcile_payments
  reconcile_payments_nothing =
      (reconcile_rows_nothing db.payments, InOrder-reconcile_rows db.payments)
