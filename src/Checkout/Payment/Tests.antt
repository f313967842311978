-- ===== src/Checkout/Payment/Tests.antt =====
-- A car that leaves: the fee is due, it is paid, and the call is made again.
use vision_park_ai.Prelude.{
  ◌≡◌, refl, ap, inl, inr, Bool-cases, Bool, true, false, Option, none, some, [], ◌∷◌, ◌*◌, ◌++◌,
  arith,
}
use vision_park_ai.Prelude.Int.{pos, ◌+ℤ◌}
use vision_park_ai.Prelude.Text.{Text, codes, ascii}
use vision_park_ai.Errors.{ok}
use vision_park_ai.Clock.{utc, minute, ceil_div}
use vision_park_ai.Tables.{find}
use vision_park_ai.Fee.Snapshot.{check_rule}
use vision_park_ai.Fee.{
  FeeResult, LineCode, charge, calculate_fee, chunk_fee, eligible_sum, sum_amounts,
}
use vision_park_ai.Sessions.{
  TransactionStatus, StoredPrice, Session, session_key, get_by_idempotency_key_checkout,
}
use vision_park_ai.Sessions.Notes.{contains, starts_with}
use vision_park_ai.Sessions.Rows.{IsKeyed}
use vision_park_ai.Gates.{User, RoleName, Lane, LaneDirection}
use vision_park_ai.Charging.{calculate_parking_fee, verify_ticket_entitlement_for_checkout}
use vision_park_ai.Checkout.{
  CheckOutRequest, CheckoutStore, CheckOutResponse, Setting, validate_idempotency_key,
  find_single_session, sessions_of, check_exit_lane, checkout_completed, fee_or_zero,
}
use vision_park_ai.Checkout.Closing.{
  completed_session, complete_session, log_action, leave_counter, exit_gates,
}
use vision_park_ai.Checkout.Process.{
  process_checkout, leave, note_payment, hold_session, done_response,
}
use vision_park_ai.Checkout.Process.Outcome.{Outcome, process_checkout-Outcome}
use vision_park_ai.Checkout.Process.Status.{Moved, process_checkout-Moved}
use vision_park_ai.Checkout.Process.Replay.{process_checkout_twice, FindsParts}
use vision_park_ai.Checkout.Payment.{record_payment}
use vision_park_ai.Checkout.Payment.Settled.{Settled, process_checkout-record_payment}
use vision_park_ai.Checkout.Payment.Amount.{settled}

abbrev car : Session
car = record {
  id = 30;
  building_id = some 5;
  license_plate = some (codes "30A-123.45");
  normalized_plate = some (codes "30A12345");
  ticket_code = none;
  vehicle_type = codes "CAR";
  status = TransactionStatus.parked;
  lane_id = some 1;
  exit_lane_id = none;
  check_in_time = utc 0;
  exit_time = none;
  fee = some (pos 0);
  price_snapshot = StoredPrice.missing;
  notes = none;
  idempotency_key = codes "in-30";
}

abbrev guard : User
guard = record { id = 11; building_id = some 5; role = RoleName.operator }

abbrev way_out : Lane
way_out = record {
  id = 2;
  building_id = some 5;
  barrier_id = some 6;
  is_active = true;
  direction = LaneDirection.outward;
}

abbrev lot : CheckoutStore
lot = record {
  gates = record {
    lanes = way_out ∷ [];
    sessions = car ∷ [];
    lifecycle = [];
    events = [];
    overrides = [];
  };
  counters = record {
    counters =
        record { id = 3; building_id = some 5; vehicle_type = codes "CAR"; occupied = pos 1 } ∷ [];
    events = [];
  };
  tickets = record { vehicles = []; subscriptions = []; products = [] };
  audit = [];
}

-- The characters of a pattern between its two signs, which a text has to hold.
abbrev inner : Text → Text
inner [] = []
inner (c ∷ []) = []
inner (c ∷ d ∷ t) = c ∷ inner (d ∷ t)

abbrev like_inner : Text → Text → Bool
like_inner [] t = false
like_inner (c ∷ p) t = contains (inner p) t

-- The clock stands two hours after the car came.
abbrev setting : Setting
setting = record {
  unicode = ascii;
  like = like_inner;
  refreshes = false;
  counter_id = 9;
  now = 120 * minute;
  closing = 120 * minute;
}

abbrev by_id : Option Text → CheckOutRequest
by_id method = record {
  session_id = some 30;
  license_plate = none;
  ticket_code = none;
  exit_lane_id = 2;
  exit_image_url = none;
  vehicle_type_out = none;
  payment_method = method;
  expected_fee = none;
  override_reason = none;
  is_lost_ticket = false;
  idempotency_key = none;
}

abbrev bill : FeeResult
bill = record {
  total = pos 10000;
  price_version_id = 5;
  lines = charge LineCode.parking_day 10000 1 ∷ [];
}

abbrev first : CheckOutResponse × CheckoutStore
first = hold_session setting lot car (by_id none) guard bill (codes "k1")

first_call :
    process_checkout setting lot (by_id none) guard (some (codes "k1")) ≡ ok (first.0, first.1)
unfolding process_checkout validate_idempotency_key get_by_idempotency_key_checkout find
    find_single_session sessions_of leave check_exit_lane calculate_parking_fee hold_session
    check_rule verify_ticket_entitlement_for_checkout calculate_fee ceil_div chunk_fee eligible_sum
    ◌+ℤ◌ sum_amounts
first_call = refl

process_checkout-Outcome_example :
    (key : Text) × (validate_idempotency_key ascii (some (codes "k1")) ≡ ok key)
    × Outcome setting lot (by_id none) guard key first.0 first.1
process_checkout-Outcome_example =
    process_checkout-Outcome setting lot (by_id none) guard (some (codes "k1")) first.0 first.1
      first_call

keyed : IsKeyed lot.gates.sessions
unfolding find
keyed = (refl, tt)

process_checkout-Moved_example :
    (next : Session) × (find (session_key 30) first.1.gates.sessions ≡ some next) × Moved car next
unfolding find
process_checkout-Moved_example =
    process_checkout-Moved setting lot (by_id none) guard (some (codes "k1")) first.0 first.1 keyed
      first_call 30 car refl

process_checkout-record_payment_example :
    (first.1.gates.events ≡ lot.gates.events)
    × (r' : CheckOutResponse) × (after' : CheckoutStore) × (record_payment setting first.1 30 guard
          (codes "CASH")
          (pos 1)
          none
        ≡ ok (r', after'))
    × Settled first.0 first.1 r' after'
unfolding hold_session
process_checkout-record_payment_example =
    process_checkout-record_payment setting lot (by_id none) guard (some (codes "k1")) first.0
      first.1 keyed first_call refl setting guard (codes "CASH") (pos 1) none refl

abbrev one_dong : CheckoutStore
one_dong = settled setting first.1 guard (codes "CASH") none first.0.transaction 2 (pos 1)

-- The same car pays at the gate.
abbrev cash : CheckOutRequest
cash = by_id (some (codes "cash"))

abbrev closed_row : Session
closed_row = completed_session setting car cash (pos 10000) (some (codes "k1"))

abbrev closed_answer : CheckOutResponse
closed_answer = record {
  transaction = closed_row;
  fee = pos 10000;
  fee_lines = bill.lines;
  barrier_opened = true;
  vehicle_type_mismatch = false;
}

abbrev closed_lot : CheckoutStore
closed_lot = log_action checkout_completed guard car (pos 10000) (
    leave_counter setting car (
      exit_gates setting car cash guard (pos 10000) (some (codes "k1"))
        (note_payment setting lot car cash guard (pos 10000))))

cash_call :
    process_checkout setting lot cash guard (some (codes "k1")) ≡ ok (closed_answer, closed_lot)
unfolding process_checkout validate_idempotency_key get_by_idempotency_key_checkout find
    find_single_session sessions_of leave check_exit_lane calculate_parking_fee complete_session
    check_rule verify_ticket_entitlement_for_checkout calculate_fee ceil_div chunk_fee eligible_sum
    ◌+ℤ◌ sum_amounts
cash_call = refl

inner-append : (part : Text) → inner (part ++ codes "%") ≡ part
inner-append [] = refl
inner-append (c ∷ []) = refl
inner-append (c ∷ d ∷ t) = ap (λ (l : Text). c ∷ l) (inner-append (d ∷ t))

starts_with-append : (part after : Text) → starts_with part (part ++ after) ≡ true
unfolding starts_with
starts_with-append [] after = refl
starts_with-append (c ∷ t) after = ground (arith, starts_with-append t after)

contains-append : (part before after : Text) → contains part (before ++ (part ++ after)) ≡ true
unfolding contains
contains-append [] [] [] = refl
contains-append [] [] (c ∷ after) = rw (starts_with-append [] (c ∷ after)) refl
contains-append (c ∷ t) [] after = rw (starts_with-append (c ∷ t) after) refl
contains-append part (d ∷ before) after =
    elim (Bool-cases (starts_with part (d ∷ (before ++ (part ++ after))))) [
      | inl a ↦ rw a refl
      | inr a ↦ rw a (contains-append part before after)
    ]

like_inner-FindsParts : FindsParts like_inner
like_inner-FindsParts part before after plain =
    rw (inner-append part) (contains-append part before after)

-- The call is made again ten minutes later, for another car.
process_checkout_twice_example :
    (process_checkout
        (record setting { now = 130 * minute; closing = 130 * minute })
        closed_lot
        (record (by_id none) { session_id = some 31 })
        guard
        (some (codes "k1"))
      ≡ ok (done_response closed_row, closed_lot))
    × (fee_or_zero closed_row.fee ≡ pos 10000)
process_checkout_twice_example =
    process_checkout_twice setting lot cash guard (some (codes "k1")) closed_answer closed_lot
      like_inner-FindsParts keyed cash_call refl (codes "k1") refl refl
      (record (by_id none) { session_id = some 31 }) guard (some (codes "k1")) (130 * minute)
      (130 * minute) refl
