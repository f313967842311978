-- ===== src/Billing/Invoices.antt =====
-- `create_invoice` of backend/app/modules/pricing/billing.py, with `InvoiceCreate` and, of
-- backend/app/modules/pricing/models.py, `GuestInvite`. The transaction's row and the invite's are
-- locked while the call runs.
pub mod Billed
pub mod Repeat
pub mod Invites
mod Tests
use vision_park_ai.Prelude.{
  ℕ, ◌+◌, Bool, true, false, not, ◌&&◌, ◌||◌, Option, none, some, List, ◌∷◌, ltb, leb, ◌==◌,
  if◌then◌else◌,
}
use vision_park_ai.Prelude.Int.{pos, pos_part}
use vision_park_ai.Prelude.Text.{Text, text_eq, filled}
use vision_park_ai.Errors.{
  Result, ok, raise, app_error, value_error, raise_if, or_raise, ◌>>=◌, ◌>>◌, transaction_not_found,
  invoice_exists, not_parked, price_missing, invite_unavailable, invite_expired, invalid_checkout,
}
use vision_park_ai.Clock.{DateTime, assume_utc, is_naive, utc}
use vision_park_ai.Tables.{find, update_first}
use vision_park_ai.Fee.Snapshot.{PriceSnapshot, check_rule}
use vision_park_ai.Fee.{FeeResult, calculate_fee}
use vision_park_ai.Ledger.{
  Invoice, InvoiceStatus, Ledger, AuditAction, option_eq, log_action, invoice_created,
}
use vision_park_ai.Sessions.{Session, StoredPrice, TransactionStatus, parked, full, legacy, missing}

pub record GuestInvite : Type 0 where
  pub id : ℕ
  pub building_id : ℕ
  pub code : Text
  pub free_minutes : ℕ
  pub valid_from : DateTime
  pub valid_until : DateTime
  pub redeemed_at : Option DateTime

pub record InvoiceCreate : Type 0 where
  pub transaction_id : ℕ
  pub check_out : DateTime
  pub lost_ticket : Bool
  pub overtime : Bool
  pub extra_free_minutes : ℕ
  pub guest_invite_code : Option Text

pub record InvoiceStore : Type 0 where
  pub ledger : Ledger
  pub sessions : List Session
  pub invites : List GuestInvite

abbrev pub session_in : ℕ → ℕ → Session → Bool
session_in k b s = s.id == k && option_eq s.building_id (some b)

abbrev pub invoice_of : ℕ → Invoice → Bool
invoice_of k i = i.transaction_id == k

abbrev pub invite_key : ℕ → GuestInvite → Bool
invite_key k v = v.id == k

abbrev pub invite_in : ℕ → Text → GuestInvite → Bool
invite_in b code v = v.building_id == b && text_eq v.code code

-- `db.get(GuestInvite, id) if id else None`
abbrev pub invite_of : List GuestInvite → Option ℕ → Option GuestInvite
invite_of invites none = none
invite_of invites (some k) = find (invite_key k) invites

-- `invite.free_minutes if invite else 0`
abbrev pub invite_minutes : Option GuestInvite → ℕ
invite_minutes none = 0
invite_minutes (some v) = v.free_minutes

abbrev pub invite_code : Option GuestInvite → Option Text
invite_code none = none
invite_code (some v) = some v.code

abbrev pub invite_id : Option GuestInvite → Option ℕ
invite_id none = none
invite_id (some v) = some v.id

abbrev pub bool_eq : Bool → Bool → Bool
bool_eq true b = b
bool_eq false b = not b

abbrev pub code_eq : Option Text → Option Text → Bool
code_eq none none = true
code_eq none (some t) = false
code_eq (some s) none = false
code_eq (some s) (some t) = text_eq s t

-- The request is the one that the invoice was made by.
abbrev pub is_same_request : Invoice → Option GuestInvite → InvoiceCreate → Bool
is_same_request i v request =
    (i.check_out_time.instant == request.check_out.instant)
    && (bool_eq i.lost_ticket request.lost_ticket
        && (bool_eq i.overtime request.overtime
            && ((i.extra_free_minutes == request.extra_free_minutes + invite_minutes v)
                && code_eq (invite_code v) request.guest_invite_code)))

abbrev pub is_parked : TransactionStatus → Bool
is_parked parked = true
is_parked _ = false

-- `PriceSnapshot.model_validate`, of a stored price that may not be a whole one. A dictionary that
-- is empty counts as none.
unfoldable pub whole_snapshot : StoredPrice → Result PriceSnapshot
whole_snapshot missing = raise (app_error 409 price_missing)
whole_snapshot (legacy free_minutes rate lost_fee) = raise value_error
whole_snapshot (full p) = check_rule p

abbrev pub is_redeemed : GuestInvite → Bool
is_redeemed v = elim v.redeemed_at [ none ↦ false | some _ ↦ true ]

abbrev pub is_valid_at : GuestInvite → DateTime → Bool
is_valid_at v at =
    leb (assume_utc v.valid_from).instant at.instant
    && leb at.instant (assume_utc v.valid_until).instant

unfoldable pub check_invite : DateTime → Option GuestInvite → Result (Option GuestInvite)
check_invite at none = raise (app_error 409 invite_unavailable)
check_invite at (some v) =
    raise_if (is_redeemed v) (app_error 409 invite_unavailable)
    >> (raise_if (not (is_valid_at v at)) (app_error 409 invite_expired) >> ok (some v))

-- The invite that a request names, if it names one.
unfoldable pub find_invite :
    List GuestInvite → ℕ → DateTime → Option Text → Result (Option GuestInvite)
unfolding check_invite
find_invite invites b at none = ok none
find_invite invites b at (some code) = check_invite at (find (invite_in b code) invites)

abbrev pub redeem : ℕ → Option GuestInvite → List GuestInvite → List GuestInvite
redeem now none invites = invites
redeem now (some v) invites =
    update_first (invite_key v.id) (λ (w : GuestInvite). record w { redeemed_at = some (utc now) })
      invites

abbrev pub new_invoice :
    ℕ → ℕ → Session → PriceSnapshot → Option GuestInvite → InvoiceCreate → FeeResult → Invoice
new_invoice id b s snapshot v request fee = record {
  id = id;
  building_id = b;
  transaction_id = s.id;
  price_version_id = snapshot.version_id;
  status = InvoiceStatus.unpaid;
  check_out_time = request.check_out;
  lost_ticket = request.lost_ticket;
  overtime = request.overtime;
  extra_free_minutes = request.extra_free_minutes + invite_minutes v;
  guest_invite_id = invite_id v;
  total_vnd = pos_part fee.total;
  lines = fee.lines;
}

-- The rows with a new invoice, whose invite is redeemed.
abbrev pub store_invoice : ℕ → Invoice → Option GuestInvite → InvoiceStore → InvoiceStore
store_invoice now i v db = record db {
  ledger =
      log_action (invoice_created i.id) (record db.ledger { invoices = i ∷ db.ledger.invoices });
  invites = redeem now v db.invites;
}

-- The new invoice, and the rows with it.
unfoldable pub issue :
    ℕ
    → ℕ
    → InvoiceStore
    → ℕ
    → InvoiceCreate
    → Session
    → PriceSnapshot
    → Option GuestInvite
    → FeeResult
    → Invoice × InvoiceStore
issue now id db b request s snapshot v fee =
    let i = new_invoice id b s snapshot v request fee in (i, store_invoice now i v db)

-- The fee of an invoice.
unfoldable pub invoice_fee :
    InvoiceCreate → Session → PriceSnapshot → Option GuestInvite → Result FeeResult
invoice_fee request s snapshot v =
    calculate_fee snapshot (assume_utc s.check_in_time) request.check_out request.lost_ticket
      request.overtime (pos (request.extra_free_minutes + invite_minutes v))

-- What follows the price and the invite.
unfoldable pub bill_with :
    ℕ
    → ℕ
    → InvoiceStore
    → ℕ
    → InvoiceCreate
    → Session
    → PriceSnapshot
    → Option GuestInvite
    → Result (Invoice × InvoiceStore)
bill_with now id db b request s snapshot v =
    raise_if (leb request.check_out.instant (assume_utc s.check_in_time).instant)
      (app_error 422 invalid_checkout)
    >> (invoice_fee request s snapshot v >>= λ fee. ok (issue now id db b request s snapshot v fee))

-- An invoice of a transaction that has none.
unfoldable pub bill_session :
    ℕ → ℕ → InvoiceStore → ℕ → InvoiceCreate → Session → Result (Invoice × InvoiceStore)
bill_session now id db b request s = do
  raise_if (not (is_parked s.status)) (app_error 409 not_parked)
  snapshot ← whole_snapshot s.price_snapshot
  v ← find_invite db.invites b request.check_out (filled request.guest_invite_code)
  bill_with now id db b request s snapshot v

-- An invoice that is there is the answer to the request that it was made by.
abbrev pub answer_or_bill :
    ℕ
    → ℕ
    → InvoiceStore
    → ℕ
    → InvoiceCreate
    → Session
    → Option Invoice
    → Result (Invoice × InvoiceStore)
answer_or_bill now id db b request s none = bill_session now id db b request s
answer_or_bill now id db b request s (some i) =
    if is_same_request i (invite_of db.invites i.guest_invite_id) request
    then ok (i, db)
    else raise (app_error 409 invoice_exists)

-- `now` is the clock and `id` the key of a new invoice. The model of the request refuses a naive
-- time.
unfoldable pub create_invoice :
    ℕ → ℕ → InvoiceStore → ℕ → InvoiceCreate → Result (Invoice × InvoiceStore)
create_invoice now id db b request = do
  raise_if (is_naive request.check_out) value_error
  s ←
      or_raise (find (session_in request.transaction_id b) db.sessions)
        (app_error 404 transaction_not_found)
  answer_or_bill now id db b request s (find (invoice_of s.id) db.ledger.invoices)
