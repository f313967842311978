-- ===== src/Barriers.antt =====
-- Barriers: backend/app/modules/barriers/service.py, with `has_permission` of
-- backend/app/modules/users/permissions.py and `record_lifecycle_event` of
-- backend/app/modules/checkin/lifecycle_service.py. Free texts of the events are left out.
pub mod Rights
pub mod Orders
pub mod Runs
mod Tests
use vision_park_ai.Prelude.{
  ℕ, Bool, true, false, not, ◌&&◌, ◌||◌, Option, none, some, List, [], ◌∷◌, ◌==◌, take, drop,
  select, if◌then◌else◌,
}
use vision_park_ai.Prelude.Text.{Text, codes, text_eq, is_empty, Unicode, strip}
use vision_park_ai.Errors.{
  Result, ok, raise, app_error, raise_if, or_raise, ◌>>=◌, ◌>>◌, lane_not_found, lane_inactive,
  invalid_trigger_reason, forbidden, override_reason_required, session_not_found,
}
use vision_park_ai.Tables.{find}
use vision_park_ai.Sessions.{
  TransactionStatus, Session, session_key, created, entered, parked, payment_pending, paid, exited,
  completed, cancelled, exception,
}
use vision_park_ai.Gates.{
  RoleName, may_override, is_accountant, User, LaneDirection, Lane, BarrierAction, BarrierStatus,
  LifecycleEventType, LifecycleEvent, BarrierEvent, GateStore, lane_key, record_lifecycle_event,
  is_override, record_barrier_event, barrier_event, opened_type, lifecycle_event, system_admin,
  building_admin, operator, accountant, inward, outward, open_it, close_it, opened, closed,
  closed_timeout, failed, barrier_opened_in, barrier_opened_out, barrier_timeout_closed,
  exit_confirmed,
}
use vision_park_ai.Ledger.{option_eq}

pub record BarrierOpenRequest : Type 0 where
  pub trigger_reason : Text
  pub override_reason : Option Text
  pub session_id : Option ℕ
  pub timeout_seconds : ℕ

-- `VALID_OPEN_REASONS`
abbrev pub is_valid_open_reason : Text → Bool
is_valid_open_reason r =
    text_eq r (codes "NORMAL")
    || (text_eq r (codes "OVERRIDE")
        || (text_eq r (codes "EMERGENCY") || text_eq r (codes "PAYMENT_RECEIVED")))

-- `not override_reason or not override_reason.strip()`
abbrev pub is_blank : Unicode → Option Text → Bool
is_blank u none = true
is_blank u (some s) = is_empty (strip u s)

-- The checks of an override.
abbrev pub check_override : Unicode → BarrierOpenRequest → User → Result (Unit {0})
check_override u request user =
    if is_override request.trigger_reason
    then (raise_if (not (may_override user.role)) (app_error 403 forbidden)
        >> raise_if (is_blank u request.override_reason) (app_error 422 override_reason_required))
    else ok tt

-- The session that a request names is noted as let through; it must be there.
abbrev pub note_opened : GateStore → Lane → User → Option ℕ → Result GateStore
note_opened db lane user none = ok db
note_opened db lane user (some k) =
    or_raise (find (session_key k) db.sessions) (app_error 404 session_not_found) >>= λ s.
    ok (record_lifecycle_event (lifecycle_event s (opened_type lane) user lane lane.building_id) db)

abbrev pub check_open : Unicode → Lane → BarrierOpenRequest → User → Result (Unit {0})
check_open u lane request user =
    raise_if (not lane.is_active) (app_error 400 lane_inactive)
    >> (raise_if (not (is_valid_open_reason request.trigger_reason))
          (app_error 422 invalid_trigger_reason)
        >> (raise_if (is_accountant user.role) (app_error 403 forbidden)
            >> check_override u request user))

unfoldable pub open_barrier :
    Unicode → GateStore → ℕ → BarrierOpenRequest → User → Result (BarrierEvent × GateStore)
open_barrier u db lane_id request user = do
  lane ← or_raise (find (lane_key lane_id) db.lanes) (app_error 404 lane_not_found)
  _ ← check_open u lane request user
  noted ← note_opened db lane user request.session_id
  ok (
      record_barrier_event noted (
        barrier_event lane open_it request.trigger_reason user request.session_id opened
          request.timeout_seconds))

pub record BarrierEmergencyOpenRequest : Type 0 where
  pub session_id : Option ℕ
  pub timeout_seconds : ℕ

-- `BarrierEmergencyOpenRequest()`
abbrev pub default_emergency : BarrierEmergencyOpenRequest
default_emergency = record { session_id = none; timeout_seconds = 60 }

abbrev pub is_in_lot : TransactionStatus → Bool
is_in_lot entered = true
is_in_lot parked = true
is_in_lot payment_pending = true
is_in_lot _ = false

-- The condition of the query for the session at a lane.
abbrev pub at_lane : Lane → Session → Bool
at_lane lane s =
    (option_eq s.lane_id (some lane.id) || option_eq s.exit_lane_id (some lane.id))
    && is_in_lot s.status

-- The session that an emergency is about: the one named, or the latest that is at the lane.
abbrev pub session_at : GateStore → Lane → Option ℕ → Option ℕ
session_at db lane (some k) = some k
session_at db lane none = elim (find (at_lane lane) db.sessions) [
  | none ↦ none
  | some s ↦ some s.id
]

abbrev pub building_or : Option ℕ → Option ℕ → Option ℕ
building_or none b = b
building_or (some a) b = some a

-- The session is noted as let through, if it is there.
abbrev pub note_emergency : GateStore → Lane → User → Option ℕ → GateStore
note_emergency db lane user none = db
note_emergency db lane user (some k) = elim (find (session_key k) db.sessions) [
  | none ↦ db
  | some s ↦
      record_lifecycle_event
        (lifecycle_event s (opened_type lane) user lane
          (building_or lane.building_id s.building_id))
        db
]

abbrev pub check_emergency : Lane → User → Result (Unit {0})
check_emergency lane user =
    raise_if (not lane.is_active) (app_error 400 lane_inactive)
    >> raise_if (is_accountant user.role) (app_error 403 forbidden)

abbrev pub request_or_default : Option BarrierEmergencyOpenRequest → BarrierEmergencyOpenRequest
request_or_default none = default_emergency
request_or_default (some r) = r

-- The rows of `sessions` are in the order of the query, the latest check-in first.
unfoldable pub emergency_open_barrier :
    GateStore → ℕ → User → Option BarrierEmergencyOpenRequest → Result (BarrierEvent × GateStore)
emergency_open_barrier db lane_id user request = do
  lane ← or_raise (find (lane_key lane_id) db.lanes) (app_error 404 lane_not_found)
  _ ← check_emergency lane user
  (let req = request_or_default request in
      let session_id = session_at db lane req.session_id in
      ok (
        record_barrier_event (note_emergency db lane user session_id) (
          barrier_event lane open_it (codes "EMERGENCY") user session_id opened
            req.timeout_seconds)))

pub record BarrierCloseRequest : Type 0 where
  pub reason : Text
  pub session_id : Option ℕ

abbrev pub is_timeout : Text → Bool
is_timeout r =
    text_eq r (codes "TIMEOUT_AUTO_CLOSE")
    || (text_eq r (codes "TIMEOUT_EXPIRED") || text_eq r (codes "TIMEOUT"))

abbrev pub is_outward : LaneDirection → Bool
is_outward outward = true
is_outward inward = false

-- What a closing notes of the session that it names, if that is there.
abbrev pub note_session : GateStore → Lane → User → LifecycleEventType → Bool → Option ℕ → GateStore
note_session db lane user event_type wanted none = db
note_session db lane user event_type wanted (some k) = elim (find (session_key k) db.sessions) [
  | none ↦ db
  | some s ↦
      if wanted
      then record_lifecycle_event (lifecycle_event s event_type user lane lane.building_id) db
      else db
]

abbrev pub note_closed : GateStore → Lane → User → BarrierCloseRequest → GateStore
note_closed db lane user request =
    if is_timeout request.reason
    then note_session db lane user barrier_timeout_closed true request.session_id
    else note_session db lane user exit_confirmed
        (text_eq request.reason (codes "VEHICLE_PASSED") && is_outward lane.direction)
        request.session_id

-- The event has the default of 15 seconds.
abbrev pub close_event : Lane → User → BarrierCloseRequest → BarrierEvent
close_event lane user request =
    if is_timeout request.reason
    then barrier_event lane close_it (codes "TIMEOUT_AUTO_CLOSE") user request.session_id
        closed_timeout 15
    else barrier_event lane close_it request.reason user request.session_id closed 15

unfoldable pub close_barrier :
    GateStore → ℕ → BarrierCloseRequest → User → Result (BarrierEvent × GateStore)
close_barrier db lane_id request user = do
  lane ← or_raise (find (lane_key lane_id) db.lanes) (app_error 404 lane_not_found)
  _ ← raise_if (is_accountant user.role) (app_error 403 forbidden)
  ok (record_barrier_event (note_closed db lane user request) (close_event lane user request))

-- `list_events`, the newest event first.
abbrev pub matches : Option ℕ → Option ℕ → Option Text → Option ℕ → BarrierEvent → Bool
matches lane_id building_id reason session_id e =
    elim lane_id [ none ↦ true | some k ↦ e.lane_id == k ]
    && (elim building_id [ none ↦ true | some k ↦ option_eq e.building_id (some k) ]
        && (elim reason [ none ↦ true | some r ↦ text_eq e.trigger_reason r ]
            && elim session_id [ none ↦ true | some k ↦ option_eq e.session_id (some k) ]))

unfoldable pub list_events :
    GateStore → Option ℕ → Option ℕ → Option Text → Option ℕ → ℕ → ℕ → List BarrierEvent
list_events db lane_id building_id reason session_id limit offset =
    take limit (drop offset (select (matches lane_id building_id reason session_id) db.events))
