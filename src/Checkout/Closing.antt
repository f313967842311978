-- ===== src/Checkout/Closing.antt =====
-- `_complete_session` of backend/app/modules/checkout/service.py: a session is closed, the barrier
-- opens and the counter falls.
pub mod Closed
use vision_park_ai.Prelude.{ℕ, true, ◌&&◌, ◌||◌, Option, none, some, List, ◌∷◌, if◌then◌else◌}
use vision_park_ai.Prelude.Int.{ℤ, pos, ltb_ℤ}
use vision_park_ai.Prelude.Text.{Text, codes, text_is, is_filled, Unicode}
use vision_park_ai.Errors.{Result, ok, ◌>>=◌}
use vision_park_ai.Clock.{utc}
use vision_park_ai.Tables.{find}
use vision_park_ai.Counters.{decrement_atomic}
use vision_park_ai.Fee.{FeeLine}
use vision_park_ai.Sessions.{TransactionStatus, Session, is_paid, write_session, exited, completed}
use vision_park_ai.Sessions.Notes.{completed_notes}
use vision_park_ai.Gates.{
  User, Lane, LifecycleEventType, BarrierEvent, GateStore, lane_key, record_lifecycle_event,
  record_barrier_event, open_it, opened, exit_confirmed, barrier_opened_out, payment_received,
}
use vision_park_ai.Charging.{vehicle_or_car, build_price_snapshot_from_tx}
use vision_park_ai.Checkout.{
  CheckOutRequest, CheckoutAction, CheckoutStore, CheckOutResponse, Setting, is_mismatch, method_of,
  checkout_completed, lost_ticket_processed,
}

abbrev pub log_action : CheckoutAction → User → Session → ℤ → CheckoutStore → CheckoutStore
log_action action user s amount db = record db {
  audit =
      record { action = action; user_id = user.id; session_id = s.id; amount = amount } ∷ db.audit;
}

abbrev pub on_gates : (GateStore → GateStore) → CheckoutStore → CheckoutStore
on_gates f db = record db { gates = f db.gates }

abbrev pub save : Session → CheckoutStore → CheckoutStore
save s = on_gates (λ g. record g { sessions = write_session s g.sessions })

-- An event of a session, at a lane or at none.
abbrev pub note : LifecycleEventType → Session → User → Option ℕ → CheckoutStore → CheckoutStore
note event_type s user lane_id = on_gates (
    record_lifecycle_event (record {
      session_id = s.id;
      event_type = event_type;
      actor_id = user.id;
      lane_id = lane_id;
      building_id = s.building_id;
      paid = none;
    }))

-- The event of a payment, with its amount.
abbrev pub note_paid : ℤ → Session → User → Option ℕ → CheckoutStore → CheckoutStore
note_paid amount s user lane_id = on_gates (
    record_lifecycle_event (record {
      session_id = s.id;
      event_type = payment_received;
      actor_id = user.id;
      lane_id = lane_id;
      building_id = s.building_id;
      paid = some amount;
    }))

-- The row of a session that has left.
unfoldable pub exited_session : Setting → Session → CheckOutRequest → ℤ → Option Text → Session
unfolding completed_notes
exited_session e s request fee key = record s {
  status = exited;
  exit_time = some (utc e.closing);
  exit_lane_id = some request.exit_lane_id;
  fee = some fee;
  notes = completed_notes s.notes key request.exit_image_url;
}

abbrev pub completed_session : Setting → Session → CheckOutRequest → ℤ → Option Text → Session
completed_session e s request fee key = record (exited_session e s request fee key) {
  status = completed;
}

-- Why the barrier opens; `status` is that of the session at that point.
unfoldable pub trigger_reason : Unicode → TransactionStatus → CheckOutRequest → ℤ → Text
trigger_reason u status request fee =
    let method = method_of u request.payment_method in
    if is_filled request.override_reason
    then codes "OVERRIDE"
    else if text_is method (codes "CASH")
        || (is_paid status || (is_filled method && ltb_ℤ (pos 0) fee))
    then codes "PAYMENT_RECEIVED"
    else codes "NORMAL"

abbrev pub barrier_of : Option Lane → Option ℕ
barrier_of none = none
barrier_of (some lane) = lane.barrier_id

unfoldable pub exit_event :
    Setting → List Lane → Session → CheckOutRequest → User → ℤ → BarrierEvent
unfolding trigger_reason
exit_event e lanes s request user fee = record {
  building_id = s.building_id;
  lane_id = request.exit_lane_id;
  barrier_id = barrier_of (find (lane_key request.exit_lane_id) lanes);
  action = open_it;
  trigger_reason = trigger_reason e.unicode exited request fee;
  operator_id = user.id;
  session_id = some s.id;
  status = opened;
  timeout_seconds = 15;
}

-- The gates after the exit of a session, whose row is written completed.
unfoldable pub exit_gates :
    Setting → Session → CheckOutRequest → User → ℤ → Option Text → CheckoutStore → CheckoutStore
exit_gates e s request user fee key db =
    let lane = some request.exit_lane_id in
    note LifecycleEventType.completed s user lane (
      save (completed_session e s request fee key) (
        note barrier_opened_out s user lane (
          on_gates
            (λ g. (record_barrier_event g (exit_event e db.gates.lanes s request user fee)).1)
            (note exit_confirmed s user lane (save (exited_session e s request fee key) db)))))

-- The counter of the session's building and type falls.
unfoldable pub leave_counter : Setting → Session → CheckoutStore → CheckoutStore
leave_counter e s db = record db {
  counters =
      (decrement_atomic e.unicode e.refreshes e.counter_id db.counters s.building_id
        (vehicle_or_car s.vehicle_type) s.id (codes "CHECK_OUT")).1;
}

-- The row about a lost ticket, for which the stored price is read again.
abbrev pub log_lost : CheckOutRequest → User → Session → ℤ → CheckoutStore → Result CheckoutStore
log_lost request user s fee db =
    if request.is_lost_ticket
    then (build_price_snapshot_from_tx s >>= λ p.
        ok (log_action lost_ticket_processed user s fee db))
    else ok db

unfoldable pub complete_session :
    Setting
    → CheckoutStore
    → Session
    → CheckOutRequest
    → User
    → ℤ
    → Option Text
    → List FeeLine
    → Result (CheckOutResponse × CheckoutStore)
unfolding exit_gates leave_counter
complete_session e db s request user fee key fee_lines =
    let left = leave_counter e s (exit_gates e s request user fee key db) in
    log_lost request user s fee (log_action checkout_completed user s fee left) >>= λ after. ok (
      record {
        transaction = completed_session e s request fee key;
        fee = fee;
        fee_lines = fee_lines;
        barrier_opened = true;
        vehicle_type_mismatch = is_mismatch e.unicode s request;
      },
      after,
    )
