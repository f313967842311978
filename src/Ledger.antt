-- ===== src/Ledger.antt =====
-- The rows that billing works on: `Invoice` and `Payment` of
-- backend/app/modules/pricing/models.py, the enumerations of
-- backend/app/modules/pricing/billing.py, and the tests on them. Keys and references are only
-- compared, and so are numbers; times of confirmation are left out.
use vision_park_ai.Prelude.{ℕ, Bool, true, false, ◌&&◌, Option, none, some, List, ◌∷◌, ◌==◌}
use vision_park_ai.Tables.{update_first}
use vision_park_ai.Fee.{FeeLine}
use vision_park_ai.Clock.{DateTime}

pub data PaymentMethod : Type 0 where
  cash vietqr_mock : PaymentMethod

-- `ProviderStatus`
pub data ProviderStatus : Type 0 where
  paid failed processing refunded : ProviderStatus

-- `payments.status`
pub data PaymentStatus : Type 0 where
  pending processing paid failed refunded : PaymentStatus

-- `invoices.status`
pub data InvoiceStatus : Type 0 where
  unpaid paid refunded : InvoiceStatus

pub record Invoice : Type 0 where
  pub id : ℕ
  pub building_id : ℕ
  pub transaction_id : ℕ
  pub price_version_id : ℕ
  pub status : InvoiceStatus
  pub check_out_time : DateTime
  pub lost_ticket : Bool
  pub overtime : Bool
  pub extra_free_minutes : ℕ
  pub guest_invite_id : Option ℕ
  pub total_vnd : ℕ
  pub lines : List FeeLine

pub record Payment : Type 0 where
  pub id : ℕ
  pub building_id : ℕ
  pub invoice_id : ℕ
  pub provider_ref : Option ℕ
  pub idempotency_key : ℕ
  pub method : PaymentMethod
  pub status : PaymentStatus
  pub amount_vnd : ℕ
  pub provider_status : Option ProviderStatus
  pub provider_amount_vnd : Option ℕ

-- The actions that the audit log records here, each with the row it is about.
pub data AuditAction : Type 0 where
  invoice_created payment_created payment_refunded payment_callback : ℕ → AuditAction

pub record Ledger : Type 0 where
  pub invoices : List Invoice
  pub payments : List Payment
  pub audit : List AuditAction

abbrev pub log_action : AuditAction → Ledger → Ledger
log_action a db = record db { audit = a ∷ db.audit }

abbrev pub method_eq : PaymentMethod → PaymentMethod → Bool
method_eq cash cash = true
method_eq vietqr_mock vietqr_mock = true
method_eq _ _ = false

abbrev pub is_cash : PaymentMethod → Bool
is_cash m = method_eq m cash

abbrev pub option_eq : Option ℕ → Option ℕ → Bool
option_eq none none = true
option_eq (some a) (some b) = a == b
option_eq _ _ = false

abbrev pub provider_status_eq : Option ProviderStatus → ProviderStatus → Bool
provider_status_eq (some ProviderStatus.paid) ProviderStatus.paid = true
provider_status_eq (some ProviderStatus.failed) ProviderStatus.failed = true
provider_status_eq (some ProviderStatus.processing) ProviderStatus.processing = true
provider_status_eq (some ProviderStatus.refunded) ProviderStatus.refunded = true
provider_status_eq _ _ = false

abbrev pub is_paid : PaymentStatus → Bool
is_paid PaymentStatus.paid = true
is_paid _ = false

-- `status in {"PAID", "REFUNDED"}`
abbrev pub is_final : PaymentStatus → Bool
is_final PaymentStatus.paid = true
is_final PaymentStatus.refunded = true
is_final _ = false

-- `status in ("PENDING", "PROCESSING")`
abbrev pub is_active : PaymentStatus → Bool
is_active PaymentStatus.pending = true
is_active PaymentStatus.processing = true
is_active _ = false

abbrev pub invoice_is_paid : InvoiceStatus → Bool
invoice_is_paid InvoiceStatus.paid = true
invoice_is_paid _ = false

-- `Payment.status = payload.status.value`
abbrev pub status_of : ProviderStatus → PaymentStatus
status_of ProviderStatus.paid = PaymentStatus.paid
status_of ProviderStatus.failed = PaymentStatus.failed
status_of ProviderStatus.processing = PaymentStatus.processing
status_of ProviderStatus.refunded = PaymentStatus.refunded

abbrev pub invoice_key : ℕ → Invoice → Bool
invoice_key k i = i.id == k

abbrev pub invoice_in : ℕ → ℕ → Invoice → Bool
invoice_in k building_id i = i.id == k && i.building_id == building_id

abbrev pub has_ref : ℕ → Payment → Bool
has_ref r p = option_eq p.provider_ref (some r)

abbrev pub has_key : ℕ → ℕ → Payment → Bool
has_key invoice key p = p.invoice_id == invoice && p.idempotency_key == key

abbrev pub set_invoice_status : ℕ → InvoiceStatus → Ledger → Ledger
set_invoice_status k status db = record db {
  invoices =
      update_first (invoice_key k) (λ (i : Invoice). record i { status = status }) db.invoices;
}
