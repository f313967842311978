-- ===== src/Checkout/Payment.antt =====
-- `record_payment` and `preview` of backend/app/modules/checkout/service.py, with the validators of
-- `CheckOutRequest` of schemas.py that a payment's request meets. A call that raises is rolled back,
-- so it returns no rows.
pub mod Settled
pub mod Amount
mod Tests
use vision_park_ai.Prelude.{
  ℕ, ◌-◌, ◌/◌, Bool, true, false, not, ◌&&◌, ◌||◌, Option, none, some, List, [], length, ltb, leb,
  if◌then◌else◌,
}
use vision_park_ai.Prelude.Int.{ℤ, pos, ltb_ℤ}
use vision_park_ai.Prelude.Text.{Text, filled, is_filled, Unicode, upper, strip}
use vision_park_ai.Errors.{
  Result, ok, raise, app_error, value_error, raise_if, or_raise, ◌>>=◌, ◌>>◌, session_not_found,
  invalid_session_status, exit_lane_missing,
}
use vision_park_ai.Clock.{utc, assume_utc, minute}
use vision_park_ai.Tables.{find}
use vision_park_ai.Fee.{FeeLine, FeeResult, is_zero}
use vision_park_ai.Sessions.{
  TransactionStatus, Session, session_key, is_done, is_paid, get_by_idempotency_key_checkout, paid,
  payment_pending,
}
use vision_park_ai.Sessions.Notes.{pending_notes}
use vision_park_ai.Gates.{User, fee_calculated}
use vision_park_ai.Charging.{build_price_snapshot_from_tx, calculate_parking_fee}
use vision_park_ai.Checkout.{
  CheckOutRequest, CheckoutAction, CheckoutStore, CheckOutResponse, Setting,
  validate_idempotency_key, find_single_session, check_exit_lane, check_mismatch, check_expected,
  is_mismatch, method_of, fee_or_zero, checkout_fee_calculated,
}
use vision_park_ai.Checkout.Closing.{log_action, save, note_paid, complete_session}

-- Whether a text, if it is there, has a length between bounds once it is stripped.
abbrev pub length_fits : Unicode → ℕ → ℕ → Option Text → Bool
length_fits u least most none = true
length_fits u least most (some t) = leb least (length (strip u t)) && leb (length (strip u t)) most

abbrev pub stripped : Unicode → Option Text → Option Text
stripped u none = none
stripped u (some t) = some (strip u t)

-- Whether the texts that a payment puts in a request are in the bounds of `CheckOutRequest`.
abbrev pub texts_fit : Unicode → Session → Option Text → Bool
texts_fit u s override_reason =
    length_fits u 1 50 s.license_plate
    && (length_fits u 3 64 s.ticket_code && length_fits u 0 500 override_reason)

-- The request that a payment makes, whose texts the class strips.
abbrev pub dummy_request : Unicode → Session → ℕ → Option Text → Text → CheckOutRequest
dummy_request u s exit_lane_id override_reason payment_method = record {
  session_id = some s.id;
  license_plate = stripped u s.license_plate;
  ticket_code = stripped u s.ticket_code;
  exit_lane_id = exit_lane_id;
  exit_image_url = none;
  vehicle_type_out = none;
  payment_method = some (strip u payment_method);
  expected_fee = none;
  override_reason = stripped u override_reason;
  is_lost_ticket = false;
  idempotency_key = none;
}

-- `{PAYMENT_PENDING, PAID}`
abbrev pub is_payable : TransactionStatus → Bool
is_payable payment_pending = true
is_payable paid = true
is_payable _ = false

abbrev pub paid_session : Session → Session
paid_session s = record s { status = paid }

-- The rows once the payment of a session is noted; `amount` is what the caller says was paid.
abbrev pub pay : CheckoutStore → Session → User → ℤ → CheckoutStore
pay db s user amount =
    log_action CheckoutAction.payment_received user s amount
      (note_paid amount s user none (save (paid_session s) db))

-- The close of a session that is paid for, at the exit lane that it has.
abbrev pub pay_at :
    Setting
    → CheckoutStore
    → Session
    → User
    → Text
    → ℤ
    → Option Text
    → Option ℕ
    → Result (CheckOutResponse × CheckoutStore)
pay_at e db s user payment_method amount override_reason none =
    raise (app_error 422 exit_lane_missing)
pay_at e db s user payment_method amount override_reason (some exit_lane_id) =
    raise_if (not (texts_fit e.unicode s override_reason)) value_error
    >> complete_session e (pay db s user amount) (paid_session s)
        (dummy_request e.unicode s exit_lane_id override_reason payment_method) user
        (fee_or_zero s.fee) none []

unfoldable pub record_payment :
    Setting
    → CheckoutStore
    → ℕ
    → User
    → Text
    → ℤ
    → Option Text
    → Result (CheckOutResponse × CheckoutStore)
record_payment e db session_id user payment_method amount override_reason = do
  s ← or_raise (find (session_key session_id) db.gates.sessions) (app_error 404 session_not_found)
  raise_if (not (is_payable s.status)) (app_error 409 invalid_session_status)
  pay_at e db s user payment_method amount override_reason s.exit_lane_id

-- What a preview shows. It commits nothing, so that it leaves no rows behind.
pub record CheckOutPreview : Type 0 where
  pub transaction : Session
  pub fee : ℤ
  pub fee_lines : List FeeLine
  pub duration_minutes : ℕ
  pub vehicle_type_mismatch : Bool

abbrev pub preview_fee :
    Setting → CheckoutStore → CheckOutRequest → Session → Result (ℤ × List FeeLine)
preview_fee e db request s =
    if is_paid s.status
    then ok (fee_or_zero s.fee, [])
    else (calculate_parking_fee e.unicode db.tickets s (utc e.now) request.is_lost_ticket >>= λ r.
        ok (r.total, r.lines))

-- A lost ticket has the stored price read once more.
abbrev pub check_lost : CheckOutRequest → Session → Result (Unit {0})
check_lost request s =
    if request.is_lost_ticket then (build_price_snapshot_from_tx s >>= λ p. ok tt) else ok tt

unfoldable pub preview : Setting → CheckoutStore → CheckOutRequest → User → Result CheckOutPreview
preview e db request user = do
  s ← find_single_session e.unicode db.gates.sessions request user
  priced ← preview_fee e db request s
  check_lost request s
  ok (record {
    transaction = s;
    fee = priced.0;
    fee_lines = priced.1;
    duration_minutes = (e.now - (assume_utc s.check_in_time).instant) / minute;
    vehicle_type_mismatch = is_mismatch e.unicode s request;
  })
