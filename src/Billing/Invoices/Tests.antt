-- ===== src/Billing/Invoices/Tests.antt =====
-- An invoice with an invite for a car that has a whole price, asked for twice.
use vision_park_ai.Prelude.{ℕ, ◌≡◌, refl, false, none, some, [], ◌∷◌, ◌*◌}
use mathlib.Core.Path.{subst}
use vision_park_ai.Prelude.Int.{pos, ◌+ℤ◌, ◌-ℤ◌}
use vision_park_ai.Prelude.Text.{codes}
use vision_park_ai.Errors.{ok}
use vision_park_ai.Clock.{utc, minute, ceil_div}
use vision_park_ai.Tables.{find}
use vision_park_ai.Ticket.{TicketKind}
use vision_park_ai.Fee.Snapshot.{PriceSnapshot, check_rule}
use vision_park_ai.Fee.{
  FeeResult, LineCode, charge, calculate_fee, chunk_fee, eligible_sum, sum_amounts,
}
use vision_park_ai.Ledger.{Invoice}
use vision_park_ai.Sessions.{Session, StoredPrice, TransactionStatus}
use vision_park_ai.Billing.Invoices.{
  GuestInvite, InvoiceCreate, InvoiceStore, create_invoice, whole_snapshot, find_invite,
  bill_session, invoice_of, bill_with, invoice_fee, issue,
}
use vision_park_ai.Billing.Invoices.Billed.{AreKeyed}
use vision_park_ai.Billing.Invoices.Repeat.{create_invoice_twice}
use vision_park_ai.Billing.Invoices.Invites.{IsFresh, create_invoice_one_invite}

abbrev rule : PriceSnapshot
rule = record {
  version_id = 7;
  rule_id = 1;
  vehicle_type = codes "CAR";
  ticket_kind = TicketKind.hourly;
  customer_class = codes "VISITOR";
  discount_percent = 0;
  free_minutes = 15;
  initial_minutes = 60;
  initial_fee = 10000;
  block_minutes = 60;
  block_fee = 5000;
  daily_cap = some 50000;
  overnight_fee = 0;
  lost_ticket_fee = 100000;
  overtime_fee = 0;
  day_pass_fee = 0;
  month_pass_fee = 0;
  windows = [];
  entitlement_valid_until = none;
}

abbrev guest : ℕ → Session
guest id = record {
  id = id;
  building_id = some 5;
  license_plate = some (codes "30A12345");
  normalized_plate = some (codes "30A12345");
  ticket_code = none;
  vehicle_type = codes "CAR";
  status = TransactionStatus.parked;
  lane_id = some 1;
  exit_lane_id = none;
  check_in_time = utc 0;
  exit_time = none;
  fee = none;
  price_snapshot = StoredPrice.full rule;
  notes = none;
  idempotency_key = codes "in-30";
}

abbrev invite : GuestInvite
invite = record {
  id = 2;
  building_id = 5;
  code = codes "GUEST";
  free_minutes = 30;
  valid_from = utc 0;
  valid_until = utc (600 * minute);
  redeemed_at = none;
}

abbrev books : InvoiceStore
books = record {
  ledger = record { invoices = []; payments = []; audit = [] };
  sessions = guest 30 ∷ guest 31 ∷ [];
  invites = invite ∷ [];
}

-- Two hours, of which 45 minutes are free.
abbrev two_hours : ℕ → InvoiceCreate
two_hours id = record {
  transaction_id = id;
  check_out = utc (120 * minute);
  lost_ticket = false;
  overtime = false;
  extra_free_minutes = 0;
  guest_invite_code = some (codes "GUEST");
}

abbrev bill : FeeResult
bill = record {
  total = pos 15000;
  price_version_id = 7;
  lines = charge LineCode.parking_day 15000 1 ∷ [];
}

abbrev issued : Invoice × InvoiceStore
issued = issue (120 * minute) 9 books 5 (two_hours 30) (guest 30) rule (some invite) bill

invoice_issued : create_invoice (120 * minute) 9 books 5 (two_hours 30) ≡ ok (issued.0, issued.1)
unfolding create_invoice find bill_session whole_snapshot check_rule find_invite bill_with
    invoice_fee calculate_fee ceil_div chunk_fee eligible_sum sum_amounts ◌+ℤ◌ ◌-ℤ◌
invoice_issued = refl

keyed : AreKeyed books.invites
unfolding find
keyed = (refl, tt)

create_invoice_twice_example :
    create_invoice (125 * minute) 10 issued.1 5 (two_hours 30) ≡ ok (issued.0, issued.1)
create_invoice_twice_example =
    create_invoice_twice (120 * minute) 9 books 5 (two_hours 30) issued.0 issued.1 keyed refl
      invoice_issued (125 * minute) 10

no_invoice : IsFresh books 5 30
unfolding find
no_invoice s h = refl

no_invoice_other : IsFresh issued.1 5 31
unfolding find issue
no_invoice_other s h =
    let same : guest 31 ≡ s = cc h in
    subst (λ (x : Session). find (invoice_of x.id) issued.1.ledger.invoices ≡ none) same refl

create_invoice_one_invite_example :
    ¬ (create_invoice (130 * minute) 10 issued.1 5 (two_hours 31) ≡ ok (issued.0, issued.1))
create_invoice_one_invite_example =
    create_invoice_one_invite (120 * minute) 9 books 5 (two_hours 30) issued.0 issued.1
      (codes "GUEST") keyed no_invoice refl invoice_issued (130 * minute) 10 (two_hours 31) issued.0
      issued.1 no_invoice_other refl
