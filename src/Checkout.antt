-- ===== src/Checkout.antt =====
-- Check-out: the request, the rows that it works on, the session that it is about and its checks,
-- from backend/app/modules/checkout/service.py and schemas.py, with `validate_idempotency_key` of
-- backend/app/database/idempotency.py. Messages, details of events and images are left out.
pub mod Closing
pub mod Process
pub mod Payment
use vision_park_ai.Prelude.{
  ℕ, Bool, true, false, not, ◌&&◌, ◌||◌, Option, none, some, List, [], ◌∷◌, ◌==◌, length, ltb,
  if◌then◌else◌,
}
use vision_park_ai.Prelude.Int.{ℤ, pos, eqb_ℤ}
use vision_park_ai.Prelude.Text.{Text, text_eq, is_empty, filled, is_filled, Unicode, upper, strip}
use vision_park_ai.Errors.{
  Result, ok, raise, app_error, value_error, raise_if, or_raise, ◌>>=◌, ◌>>◌, session_not_found,
  lane_not_found, lane_inactive, invalid_lane_type, building_mismatch, vehicle_type_mismatch,
  idempotency_key_required, invalid_idempotency_key, duplicate_active_sessions,
  invalid_session_status, fee_changed,
}
use vision_park_ai.Tables.{find}
use vision_park_ai.Ledger.{option_eq}
use vision_park_ai.Plate.{normalize_plate}
use vision_park_ai.Counters.{CounterStore}
use vision_park_ai.Access.{TicketRows}
use vision_park_ai.Fee.{FeeLine}
use vision_park_ai.Sessions.{
  Session, session_key, is_checkout_eligible, get_checkout_eligible_by_plate,
  get_checkout_eligible_by_ticket,
}
use vision_park_ai.Gates.{User, Lane, LaneDirection, GateStore, lane_key, inward, outward}
use vision_park_ai.Charging.{vehicle_or_car}

pub record CheckOutRequest : Type 0 where
  pub session_id : Option ℕ
  pub license_plate : Option Text
  pub ticket_code : Option Text
  pub exit_lane_id : ℕ
  pub exit_image_url : Option Text
  pub vehicle_type_out : Option Text
  pub payment_method : Option Text
  pub expected_fee : Option ℕ
  pub override_reason : Option Text
  pub is_lost_ticket : Bool
  pub idempotency_key : Option Text

-- The actions that the audit log records here.
pub data CheckoutAction : Type 0 where
  payment_received checkout_fee_calculated checkout_completed lost_ticket_processed : CheckoutAction

-- A row of the audit log, with the amount that it names.
pub record CheckoutAudit : Type 0 where
  pub action : CheckoutAction
  pub user_id : ℕ
  pub session_id : ℕ
  pub amount : ℤ

pub record CheckoutStore : Type 0 where
  pub gates : GateStore
  pub counters : CounterStore
  pub tickets : TicketRows
  pub audit : List CheckoutAudit

-- `status` is the status of the session, and `transaction` its row.
pub record CheckOutResponse : Type 0 where
  pub transaction : Session
  pub fee : ℤ
  pub fee_lines : List FeeLine
  pub barrier_opened : Bool
  pub vehicle_type_mismatch : Bool

-- What a call takes from outside: the character tables, the database's `LIKE`, what its session
-- does on an UPDATE, the key of a new counter row, and the two instants at which the clock is read,
-- for the fee and at the close.
pub record Setting : Type 0 where
  pub unicode : Unicode
  pub like : Text → Text → Bool
  pub refreshes : Bool
  pub counter_id : ℕ
  pub now : ℕ
  pub closing : ℕ

unfoldable pub validate_idempotency_key : Unicode → Option Text → Result Text
validate_idempotency_key u none = raise (app_error 422 idempotency_key_required)
validate_idempotency_key u (some key) =
    raise_if (is_empty (strip u key)) (app_error 422 idempotency_key_required)
    >> (raise_if (ltb 255 (length key)) (app_error 422 invalid_idempotency_key) >> ok key)

-- `getattr(operator, "building_id", None)` against the building of a session.
abbrev pub in_reach : Option ℕ → Session → Bool
in_reach none s = true
in_reach (some b) s = option_eq s.building_id (some b)

abbrev pub named_session : List Session → ℕ → User → List Session
named_session sessions k user = elim (find (session_key k) sessions) [
  | none ↦ []
  | some s ↦ if in_reach user.building_id s then s ∷ [] else []
]

abbrev pub session_by_text :
    Unicode → List Session → Option Text → Option Text → User → List Session
session_by_text u sessions (some code) plate user =
    get_checkout_eligible_by_ticket sessions (upper u (strip u code)) user.building_id
session_by_text u sessions none (some plate) user =
    get_checkout_eligible_by_plate sessions (normalize_plate u true plate) user.building_id
session_by_text u sessions none none user = []

-- The sessions that a request may mean: by its id, else by its code, else by its plate.
unfoldable pub sessions_of : Unicode → List Session → CheckOutRequest → User → List Session
sessions_of u sessions request user = elim request.session_id [
  | some k ↦ named_session sessions k user
  | none ↦
      session_by_text u sessions (filled request.ticket_code) (filled request.license_plate) user
]

-- Just one session, in a state that may leave. The alert on several is rolled back with the call.
abbrev pub single : List Session → Result Session
single [] = raise (app_error 404 session_not_found)
single (s ∷ []) =
    raise_if (not (is_checkout_eligible s.status)) (app_error 409 invalid_session_status) >> ok s
single (s ∷ t ∷ ts) = raise (app_error 409 duplicate_active_sessions)

unfoldable pub find_single_session :
    Unicode → List Session → CheckOutRequest → User → Result Session
find_single_session u sessions request user = single (sessions_of u sessions request user)

abbrev pub is_out : LaneDirection → Bool
is_out outward = true
is_out inward = false

-- Both buildings are there and differ.
abbrev pub buildings_differ : Option ℕ → Option ℕ → Bool
buildings_differ none c = false
buildings_differ (some b) none = false
buildings_differ (some b) (some c) = not (b == c)

abbrev pub check_lane : Session → Lane → Result (Unit {0})
check_lane s lane =
    raise_if (not lane.is_active) (app_error 400 lane_inactive)
    >> (raise_if (not (is_out lane.direction)) (app_error 400 invalid_lane_type)
        >> raise_if (buildings_differ lane.building_id s.building_id)
            (app_error 400 building_mismatch))

unfoldable pub check_exit_lane : List Lane → Session → CheckOutRequest → Result (Unit {0})
check_exit_lane lanes s request =
    or_raise (find (lane_key request.exit_lane_id) lanes) (app_error 404 lane_not_found)
    >>= check_lane s

-- `bool(vtype_out and vtype_out.upper() != vtype_in.upper())`
abbrev pub type_differs : Unicode → Text → Option Text → Bool
type_differs u vtype_in none = false
type_differs u vtype_in (some vtype_out) = not (text_eq (upper u vtype_out) (upper u vtype_in))

abbrev pub is_mismatch : Unicode → Session → CheckOutRequest → Bool
is_mismatch u s request =
    type_differs u (vehicle_or_car s.vehicle_type) (filled request.vehicle_type_out)

abbrev pub check_mismatch : Unicode → Session → CheckOutRequest → Result (Unit {0})
check_mismatch u s request =
    raise_if (is_mismatch u s request && not (is_filled request.override_reason))
      (app_error 409 vehicle_type_mismatch)

abbrev pub expects_other : Option ℕ → ℤ → Bool
expects_other none fee = false
expects_other (some e) fee = not (eqb_ℤ (pos e) fee)

abbrev pub check_expected : CheckOutRequest → ℤ → Result (Unit {0})
check_expected request fee =
    raise_if (expects_other request.expected_fee fee) (app_error 409 fee_changed)

-- `str(method).strip().upper() if method else None`, where an empty outcome counts as none.
abbrev pub method_of : Unicode → Option Text → Option Text
method_of u none = none
method_of u (some m) = filled (some (upper u (strip u m)))

-- `float(transaction.fee or 0.0)`
abbrev pub fee_or_zero : Option ℤ → ℤ
fee_or_zero none = pos 0
fee_or_zero (some n) = n
