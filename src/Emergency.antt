-- ===== src/Emergency.antt =====
-- Emergency exits: `open_emergency_exit` of backend/app/modules/operations/emergency_service.py over
-- EmergencyExitRequest of emergency_schemas.py beside it. The clock, the tables of Unicode, what an
-- UPDATE refreshes and the key of a new counter are `Setting`; free texts of events are left out, and
-- the mark of a manual override, which nothing here reads.
pub mod Exits
mod Tests
use vision_park_ai.Prelude.{
  ℕ, Bool, true, false, not, ◌&&◌, Option, none, some, List, [], ◌∷◌, ◌++◌, if◌then◌else◌,
}
use vision_park_ai.Prelude.Int.{pos}
use vision_park_ai.Prelude.Text.{Text, codes, text_is, filled, is_filled, Unicode}
use vision_park_ai.Errors.{
  Result, ok, app_error, raise_if, or_raise, ◌>>=◌, ◌>>◌, forbidden, lane_not_found, lane_inactive,
}
use vision_park_ai.Clock.{utc}
use vision_park_ai.Tables.{find}
use vision_park_ai.Ledger.{option_eq}
use vision_park_ai.Plate.{normalize_plate}
use vision_park_ai.Counters.{CounterStore, decrement_atomic}
use vision_park_ai.Sessions.{
  TransactionStatus, Session, session_key, write_session, entered, parked, payment_pending, paid,
  completed,
}
use vision_park_ai.Gates.{
  User, Lane, LifecycleEventType, GateStore, is_accountant, lane_key, record_lifecycle_event,
  record_barrier_event, barrier_event, lifecycle_event, open_it, opened, barrier_opened_out,
}
use vision_park_ai.Checkout.{Setting}

pub record EmergencyExitRequest : Type 0 where
  pub session_id : Option ℕ
  pub license_plate : Option Text
  pub ticket_code : Option Text
  pub reason : Text

-- A row of the audit log about an emergency opening.
pub record EmergencyOpened : Type 0 where
  pub user_id : ℕ
  pub lane_id : ℕ
  pub session_id : Option ℕ
  pub license_plate : Option Text

pub record EmergencyStore : Type 0 where
  pub gates : GateStore
  pub counters : CounterStore
  pub audit : List EmergencyOpened

-- `status` of the answer is COMPLETED where a session was closed, and OPENED else; the fee is nought.
pub record EmergencyExitResponse : Type 0 where
  pub lane_id : ℕ
  pub session_id : Option ℕ
  pub license_plate : Option Text
  pub is_completed : Bool

-- `ACTIVE_SESSION_STATUSES`
abbrev pub is_active_session : TransactionStatus → Bool
is_active_session parked = true
is_active_session entered = true
is_active_session payment_pending = true
is_active_session paid = true
is_active_session _ = false

-- `if lane.building_id: …`
abbrev pub in_building : Option ℕ → Session → Bool
in_building none s = true
in_building (some b) s = option_eq s.building_id (some b)

-- The session that a request means: by its id, in whatever state; else an active one of the lane's
-- building by its plate, else by its code.
unfoldable pub exit_session : Unicode → List Session → Lane → EmergencyExitRequest → Option Session
exit_session u sessions lane request = elim request.session_id [
  | some k ↦ find (session_key k) sessions
  | none ↦ elim (filled request.license_plate) [
    | some plate ↦
        find
          (λ (s : Session).
            text_is s.normalized_plate (normalize_plate u true plate)
            && (is_active_session s.status && in_building lane.building_id s))
          sessions
    | none ↦ elim (filled request.ticket_code) [
      | some code ↦
          find
            (λ (s : Session).
              text_is s.ticket_code code
              && (is_active_session s.status && in_building lane.building_id s))
            sessions
      | none ↦ none
    ]
  ]
]

abbrev pub evacuation_note : Text → Text
evacuation_note reason = codes "[EMERGENCY_EVACUATION: " ++ (reason ++ codes "]")

abbrev pub evacuation_notes : Option Text → Text → Text
evacuation_notes none reason = evacuation_note reason
evacuation_notes (some notes) reason =
    if is_filled (some notes)
    then notes ++ (codes " | " ++ evacuation_note reason)
    else evacuation_note reason

unfoldable pub evacuated_session : Setting → Lane → EmergencyExitRequest → Session → Session
evacuated_session e lane request s = record s {
  status = completed;
  exit_lane_id = some lane.id;
  exit_time = some (utc e.now);
  fee = some (pos 0);
  notes = some (evacuation_notes s.notes request.reason);
}

-- `lane.building_id or tx.building_id`
abbrev pub building_or : Option ℕ → Option ℕ → Option ℕ
building_or none b = b
building_or (some a) b = some a

-- The gates after the session is closed, with its two events.
unfoldable pub evacuated_gates :
    Setting → Lane → EmergencyExitRequest → User → Session → GateStore → GateStore
evacuated_gates e lane request user s db =
    let building_id = building_or lane.building_id s.building_id in
    record_lifecycle_event (lifecycle_event s LifecycleEventType.completed user lane building_id) (
      record_lifecycle_event (lifecycle_event s barrier_opened_out user lane building_id)
        (record db { sessions = write_session (evacuated_session e lane request s) db.sessions }))

-- The session is closed without a fee, and its counter falls.
unfoldable pub evacuate :
    Setting → Lane → EmergencyExitRequest → User → Session → EmergencyStore → EmergencyStore
evacuate e lane request user s db = record db {
  gates = evacuated_gates e lane request user s db.gates;
  counters =
      (decrement_atomic e.unicode e.refreshes e.counter_id db.counters s.building_id s.vehicle_type
        s.id (codes "EMERGENCY_EVACUATION")).1;
}

-- The barrier opens; `session_id` and `license_plate` are of the session that was closed, if any.
unfoldable pub open_lane : Lane → User → Option ℕ → Option Text → EmergencyStore → EmergencyStore
open_lane lane user session_id license_plate db = record db {
  gates =
      (record_barrier_event db.gates
        (barrier_event lane open_it (codes "EMERGENCY") user session_id opened 15)).1;
  audit =
      record {
        user_id = user.id;
        lane_id = lane.id;
        session_id = session_id;
        license_plate = license_plate;
      }
      ∷ db.audit;
}

abbrev pub exit_response : Lane → Option ℕ → Option Text → Bool → EmergencyExitResponse
exit_response lane session_id license_plate is_completed = record {
  lane_id = lane.id;
  session_id = session_id;
  license_plate = license_plate;
  is_completed = is_completed;
}

unfoldable pub leave_only :
    Lane → EmergencyExitRequest → User → EmergencyStore → EmergencyExitResponse × EmergencyStore
leave_only lane request user db = (
  exit_response lane none request.license_plate false,
  open_lane lane user none request.license_plate db,
)

unfoldable pub leave_with :
    Setting
    → Lane
    → EmergencyExitRequest
    → User
    → EmergencyStore
    → Option Session
    → EmergencyExitResponse × EmergencyStore
leave_with e lane request user db none = leave_only lane request user db
leave_with e lane request user db (some s) =
    if is_active_session s.status
    then (
      exit_response lane (some s.id) s.license_plate true,
      open_lane lane user (some s.id) s.license_plate (evacuate e lane request user s db),
    )
    else leave_only lane request user db

unfoldable pub open_emergency_exit :
    Setting
    → EmergencyStore
    → ℕ
    → EmergencyExitRequest
    → User
    → Result (EmergencyExitResponse × EmergencyStore)
open_emergency_exit e db lane_id request user = do
  raise_if (is_accountant user.role) (app_error 403 forbidden)
  lane ← or_raise (find (lane_key lane_id) db.gates.lanes) (app_error 404 lane_not_found)
  raise_if (not lane.is_active) (app_error 400 lane_inactive)
  ok (leave_with e lane request user db (exit_session e.unicode db.gates.sessions lane request))
