-- ===== src/Emergency/Tests.antt =====
-- A car that leaves in an emergency, and the call again.
use vision_park_ai.Prelude.{true, false, none, some, [], ◌∷◌}
use vision_park_ai.Prelude.Int.{pos}
use vision_park_ai.Prelude.Text.{codes, ascii}
use vision_park_ai.Clock.{utc}
use vision_park_ai.Sessions.{TransactionStatus, StoredPrice, Session}
use vision_park_ai.Gates.{User, RoleName, Lane, LaneDirection}
use vision_park_ai.Checkout.{Setting}
use vision_park_ai.Emergency.{
  EmergencyExitRequest, EmergencyStore, EmergencyExitResponse, leave_only, leave_with,
}

abbrev car : Session
car = record {
  id = 30;
  building_id = some 5;
  license_plate = some (codes "30A-123.45");
  normalized_plate = some (codes "30A12345");
  ticket_code = none;
  vehicle_type = codes "CAR";
  status = TransactionStatus.parked;
  lane_id = some 1;
  exit_lane_id = none;
  check_in_time = utc 0;
  exit_time = none;
  fee = none;
  price_snapshot = StoredPrice.missing;
  notes = none;
  idempotency_key = codes "in-30";
}

abbrev guard : User
guard = record { id = 11; building_id = some 5; role = RoleName.operator }

abbrev way_out : Lane
way_out = record {
  id = 2;
  building_id = some 5;
  barrier_id = some 6;
  is_active = true;
  direction = LaneDirection.outward;
}

abbrev lot : EmergencyStore
lot = record {
  gates = record {
    lanes = way_out ∷ [];
    sessions = car ∷ [];
    lifecycle = [];
    events = [];
    overrides = [];
  };
  counters = record {
    counters =
        record { id = 3; building_id = some 5; vehicle_type = codes "CAR"; occupied = pos 1 } ∷ [];
    events = [];
  };
  audit = [];
}

abbrev setting : Setting
setting = record {
  unicode = ascii;
  like = λ p t. false;
  refreshes = false;
  counter_id = 9;
  now = 500;
  closing = 500;
}

abbrev request : EmergencyExitRequest
request = record {
  session_id = some 30;
  license_plate = none;
  ticket_code = none;
  reason = codes "FIRE";
}

abbrev evacuated : EmergencyExitResponse × EmergencyStore
evacuated = leave_with setting way_out request guard lot (some car)

abbrev again : EmergencyExitResponse × EmergencyStore
again = leave_only way_out request guard evacuated.1
