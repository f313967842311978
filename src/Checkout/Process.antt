-- ===== src/Checkout/Process.antt =====
-- `process_checkout` of backend/app/modules/checkout/service.py. A call that raises is rolled back, so it returns no rows.
pub mod Checks
pub mod Found
pub mod Outcome
pub mod Replay
pub mod Status
use vision_park_ai.Prelude.{
  ℕ, ◌-◌, ◌/◌, Bool, true, false, not, ◌&&◌, ◌||◌, Option, none, some, List, [], length, ltb, leb,
  if◌then◌else◌,
}
use vision_park_ai.Prelude.Int.{ℤ, pos, ltb_ℤ}
use vision_park_ai.Prelude.Text.{Text, filled, is_filled, Unicode, upper, strip}
use vision_park_ai.Errors.{
  Result, ok, raise, app_error, value_error, raise_if, or_raise, ◌>>=◌, ◌>>◌, session_not_found,
  invalid_session_status, exit_lane_missing,
}
use vision_park_ai.Clock.{utc, assume_utc, minute}
use vision_park_ai.Tables.{find}
use vision_park_ai.Fee.{FeeLine, FeeResult, is_zero}
use vision_park_ai.Sessions.{
  TransactionStatus, Session, session_key, is_done, is_paid, get_by_idempotency_key_checkout, paid,
  payment_pending,
}
use vision_park_ai.Sessions.Notes.{pending_notes}
use vision_park_ai.Gates.{User, fee_calculated}
use vision_park_ai.Charging.{build_price_snapshot_from_tx, calculate_parking_fee}
use vision_park_ai.Checkout.{
  CheckOutRequest, CheckoutAction, CheckoutStore, CheckOutResponse, Setting,
  validate_idempotency_key, find_single_session, check_exit_lane, check_mismatch, check_expected,
  is_mismatch, method_of, fee_or_zero, checkout_fee_calculated,
}
use vision_park_ai.Checkout.Closing.{log_action, save, note, note_paid, complete_session}

-- The row of a session that waits for its payment.
unfoldable pub pending_session : Setting → Session → CheckOutRequest → ℤ → Text → Session
unfolding pending_notes
pending_session e s request fee key = record s {
  status = payment_pending;
  fee = some fee;
  exit_lane_id = some request.exit_lane_id;
  exit_time = some (utc e.now);
  notes = pending_notes e.unicode s.notes key;
}

-- The fee is due: the session waits, and the barrier stays shut.
unfoldable pub hold_session :
    Setting
    → CheckoutStore
    → Session
    → CheckOutRequest
    → User
    → FeeResult
    → Text
    → CheckOutResponse × CheckoutStore
unfolding pending_session
hold_session e db s request user r key =
    let held = pending_session e s request r.total key in
    (
      record {
        transaction = held;
        fee = r.total;
        fee_lines = r.lines;
        barrier_opened = false;
        vehicle_type_mismatch = is_mismatch e.unicode s request;
      },
      log_action checkout_fee_calculated user s r.total
          (note fee_calculated s user (some request.exit_lane_id) (save held db)),
    )

-- A payment that is made at the gate is noted before the session is closed.
abbrev pub note_payment :
    Setting → CheckoutStore → Session → CheckOutRequest → User → ℤ → CheckoutStore
note_payment e db s request user fee =
    if is_filled (method_of e.unicode request.payment_method) && ltb_ℤ (pos 0) fee
    then log_action CheckoutAction.payment_received user s fee
        (note_paid fee s user (some request.exit_lane_id) db)
    else db

-- Nothing to pay, or a way to pay: the session is closed; else it waits.
unfoldable pub settle :
    Setting
    → CheckoutStore
    → Session
    → CheckOutRequest
    → User
    → Text
    → FeeResult
    → Result (CheckOutResponse × CheckoutStore)
settle e db s request user key r =
    if is_zero r.total || is_filled (method_of e.unicode request.payment_method)
    then complete_session e (note_payment e db s request user r.total) s request user r.total
        (some key) r.lines
    else ok (hold_session e db s request user r key)

-- A session that is paid is closed at once, by the fee that it has; any other is checked first.
unfoldable pub leave :
    Setting
    → CheckoutStore
    → CheckOutRequest
    → User
    → Text
    → Session
    → Result (CheckOutResponse × CheckoutStore)
unfolding settle
leave e db request user key s =
    let priced = calculate_parking_fee e.unicode db.tickets s (utc e.now) request.is_lost_ticket in
    if is_paid s.status
    then (priced >>= λ r.
        complete_session e db s request user (fee_or_zero s.fee) (some key) r.lines)
    else (check_exit_lane db.gates.lanes s request
        >> (check_mismatch e.unicode s request
            >> (priced >>= λ r.
                check_expected request r.total >> settle e db s request user key r)))

-- The answer about a session that was closed under the same key before.
abbrev pub done_response : Session → CheckOutResponse
done_response s = record {
  transaction = s;
  fee = fee_or_zero s.fee;
  fee_lines = [];
  barrier_opened = true;
  vehicle_type_mismatch = false;
}

-- What follows the lookup of the key.
abbrev pub after_lookup :
    Setting
    → CheckoutStore
    → CheckOutRequest
    → User
    → Text
    → Option Session
    → Result (CheckOutResponse × CheckoutStore)
after_lookup e db request user key (some s) =
    if is_done s.status
    then ok (done_response s, db)
    else (find_single_session e.unicode db.gates.sessions request user
        >>= leave e db request user key)
after_lookup e db request user key none =
    find_single_session e.unicode db.gates.sessions request user >>= leave e db request user key

-- The key of the header, or else that of the request.
abbrev pub raw_key : Option Text → CheckOutRequest → Option Text
raw_key none request = request.idempotency_key
raw_key (some key) request = some key

unfoldable pub process_checkout :
    Setting
    → CheckoutStore
    → CheckOutRequest
    → User
    → Option Text
    → Result (CheckOutResponse × CheckoutStore)
process_checkout e db request user idempotency_key =
    validate_idempotency_key e.unicode (raw_key idempotency_key request) >>= λ key.
    after_lookup e db request user key
      (get_by_idempotency_key_checkout e.like db.gates.sessions key)
