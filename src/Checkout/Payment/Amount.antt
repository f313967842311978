-- ===== src/Checkout/Payment/Amount.antt =====
-- What the amount of a payment does.
use vision_park_ai.Prelude.{ℕ, ◌≡◌, true, Option, none, []}
use vision_park_ai.Prelude.Int.{ℤ}
use vision_park_ai.Prelude.Text.{Text}
use vision_park_ai.Errors.{ok}
use vision_park_ai.Sessions.{Session}
use vision_park_ai.Gates.{User}
use vision_park_ai.Checkout.{
  CheckoutStore, CheckOutRequest, CheckOutResponse, Setting, checkout_completed, fee_or_zero,
  is_mismatch,
}
use vision_park_ai.Checkout.Closing.{
  log_action, leave_counter, exit_gates, complete_session, completed_session,
}
use vision_park_ai.Checkout.Payment.{record_payment, dummy_request, pay, paid_session}
use vision_park_ai.Checkout.Payment.Settled.{CanPay, record_payment_lem}

module _ (e : Setting) (db : CheckoutStore) (user : User) (method : Text) (override : Option Text)
    (s : Session) (lane_id : ℕ) where
  abbrev pub request : CheckOutRequest
  request = dummy_request e.unicode s lane_id override method

  abbrev pub answer : CheckOutResponse
  answer = record {
    transaction = completed_session e (paid_session s) request (fee_or_zero s.fee) none;
    fee = fee_or_zero s.fee;
    fee_lines = [];
    barrier_opened = true;
    vehicle_type_mismatch = is_mismatch e.unicode (paid_session s) request;
  }

  -- The rows after a payment.
  pub settled : ℤ → CheckoutStore
  settled amount = log_action checkout_completed user (paid_session s) (fee_or_zero s.fee) (
      leave_counter e (paid_session s) (
        exit_gates e (paid_session s) request user (fee_or_zero s.fee) none (pay db s user amount)))

  pub record_payment-settled :
      (session_id : ℕ) (amount : ℤ)
      → CanPay e db session_id override s lane_id
      → record_payment e db session_id user method amount override ≡ ok (answer, settled amount)
  unfolding complete_session settled
  record_payment-settled session_id amount c =
      record_payment_lem e db session_id user method amount override s lane_id c
