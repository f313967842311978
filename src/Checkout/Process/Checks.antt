-- ===== src/Checkout/Process/Checks.antt =====
-- The checks on a session that leaves, as facts.
use vision_park_ai.Prelude.{
  ◌≡◌, ◌⊎◌, refl, true, false, some, inl, inr, List, Bool-cases, Option-cases,
}
use vision_park_ai.Prelude.Text.{is_filled}
use vision_park_ai.Errors.{ok}
use vision_park_ai.Clock.{utc}
use vision_park_ai.Tables.{find}
use vision_park_ai.Fee.{FeeResult}
use vision_park_ai.Sessions.{Session, is_paid}
use vision_park_ai.Gates.{Lane, LaneDirection, lane_key, inward, outward}
use vision_park_ai.Charging.{calculate_parking_fee}
use vision_park_ai.Checkout.{
  CheckOutRequest, CheckoutStore, Setting, check_exit_lane, check_lane, check_mismatch,
  check_expected, is_mismatch, buildings_differ, is_out, expects_other,
}

-- The exit lane is there, is active, leads out, and is not in another building.
abbrev pub LaneFits : List Lane → Session → CheckOutRequest → Type 0
LaneFits lanes s request =
    (lane : Lane) × (find (lane_key request.exit_lane_id) lanes ≡ some lane)
    × (lane.is_active ≡ true)
    × (lane.direction ≡ outward)
    × (buildings_differ lane.building_id s.building_id ≡ false)

-- What is checked of a session that is not paid: its lane, its type unless an override says why,
-- its fee, and the fee that the operator saw.
pub record Checked (e : Setting) (db : CheckoutStore) (request : CheckOutRequest) (s : Session)
    (bill : FeeResult) : Type 0 where
  pub unpaid : is_paid s.status ≡ false
  pub lane : LaneFits db.gates.lanes s request
  pub type_or_reason :
      (is_mismatch e.unicode s request ≡ false) ⊎ (is_filled request.override_reason ≡ true)
  pub price :
      calculate_parking_fee e.unicode db.tickets s (utc e.now) request.is_lost_ticket ≡ ok bill
  pub expected : expects_other request.expected_fee bill.total ≡ false

direction_out : (d : LaneDirection) → is_out d ≡ true → d ≡ outward
direction_out outward h = refl
direction_out inward h = cc

check_lane-ok :
    (s : Session) (lane : Lane)
    → check_lane s lane ≡ ok tt
    → (lane.is_active ≡ true)
      × (lane.direction ≡ outward)
      × (buildings_differ lane.building_id s.building_id ≡ false)
check_lane-ok s lane h = elim (Bool-cases lane.is_active) [
  | inr a ↦ cc (rw a at h)
  | inl a ↦ elim (Bool-cases (is_out lane.direction)) [
    | inr b ↦ cc (rw (a, b) at h)
    | inl b ↦ elim (Bool-cases (buildings_differ lane.building_id s.building_id)) [
      | inl c ↦ cc (rw (a, b, c) at h)
      | inr c ↦ (a, direction_out lane.direction b, c)
    ]
  ]
]

pub check_exit_lane-LaneFits :
    (lanes : List Lane) (s : Session) (request : CheckOutRequest)
    → check_exit_lane lanes s request ≡ ok tt
    → LaneFits lanes s request
unfolding check_exit_lane
check_exit_lane-LaneFits lanes s request h =
    elim (Option-cases (find (lane_key request.exit_lane_id) lanes)) [
      | inl a ↦ cc (rw a at h)
      | inr (lane, a) ↦ let (x, y, z) = check_lane-ok s lane (rw a at h) in (lane, a, x, y, z)
    ]

pub check_mismatch-ok :
    (u : Setting) (s : Session) (request : CheckOutRequest)
    → check_mismatch u.unicode s request ≡ ok tt
    → (is_mismatch u.unicode s request ≡ false) ⊎ (is_filled request.override_reason ≡ true)
check_mismatch-ok u s request h = elim (Bool-cases (is_mismatch u.unicode s request)) [
  | inr a ↦ inl a
  | inl a ↦ elim (Bool-cases (is_filled request.override_reason)) [
    | inl b ↦ inr b
    | inr b ↦ cc (rw (a, b) at h)
  ]
]

pub check_expected-ok :
    (request : CheckOutRequest) (bill : FeeResult)
    → check_expected request bill.total ≡ ok tt
    → expects_other request.expected_fee bill.total ≡ false
check_expected-ok request bill h =
    elim (Bool-cases (expects_other request.expected_fee bill.total)) [
      | inl a ↦ cc (rw a at h)
      | inr a ↦ a
    ]
