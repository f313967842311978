-- ===== src/Detections/Tests.antt =====
-- Runs of confirmations, and their theorem at one.
use vision_park_ai.Prelude.{◌≡◌, refl, true, false, none, some, inr, [], ◌∷◌}
use vision_park_ai.Prelude.Text.{codes, ascii}
use vision_park_ai.Errors.{ok}
use vision_park_ai.Tables.{find, update_first}
use vision_park_ai.Plate.{normalize_plate, correct_vietnamese_plate}
use vision_park_ai.Detections.{
  Detection, DetectionConfirmRequest, DetectionStore, store_confirmed, save_hard_sample, confirm_as,
  confirm_without_check_in, confirm_by_id,
}
use vision_park_ai.Detections.Confirmed.{confirm_by_id_twice}

abbrev seen : Detection
seen = record {
  id = 5;
  lane_id = 2;
  raw_plate = some (codes "AB125");
  vehicle_type = some (codes "UNKNOWN");
  requires_confirmation = true;
  is_confirmed = false;
  confirmed_plate = none;
  confirmed_by_id = none;
}

abbrev settled : Detection
settled = record {
  id = 5;
  lane_id = 2;
  raw_plate = some (codes "AB125");
  vehicle_type = some (codes "CAR");
  requires_confirmation = false;
  is_confirmed = true;
  confirmed_plate = some (codes "AB126");
  confirmed_by_id = some 3;
}

abbrev before : DetectionStore
before = record { detections = seen ∷ []; checked_in = []; samples = []; audit = [] }

abbrev after : DetectionStore
after = record {
  detections = settled ∷ [];
  checked_in = [];
  samples =
      record {
        detection_id = 5;
        raw_plate = some (codes "AB125");
        vehicle_type = some (codes "CAR");
        confirmed_plate = codes "AB126";
        confirmed_vehicle_type = some (codes "CAR");
        operator_id = 3;
        override_reason = none;
      }
      ∷ [];
  audit =
      record {
        user_id = 3;
        detection_id = 5;
        old_plate = some (codes "AB125");
        old_vehicle_type = some (codes "UNKNOWN");
        plate = codes "AB126";
        vehicle_type = some (codes "CAR");
      }
      ∷ [];
}

abbrev correction : DetectionConfirmRequest
correction = record {
  confirmed_plate = codes "ab-12 6";
  confirmed_vehicle_type = some (codes "CAR");
  override_reason = none;
}

-- The sample has the corrected vehicle type as the predicted one.
confirm_run : confirm_by_id ascii 5 correction 3 before ≡ ok (settled, after)
unfolding confirm_by_id confirm_without_check_in confirm_as store_confirmed save_hard_sample find
    update_first normalize_plate correct_vietnamese_plate
confirm_run = refl

abbrev as_bus : DetectionConfirmRequest
as_bus = record {
  confirmed_plate = codes "AB126";
  confirmed_vehicle_type = some (codes "BUS");
  override_reason = none;
}

-- The vehicle type of the second is lost.
confirm_by_id_twice_example : confirm_by_id ascii 5 as_bus 4 after ≡ ok (settled, after)
confirm_by_id_twice_example =
    confirm_by_id_twice ascii 5 correction as_bus 3 4 before after settled confirm_run (inr refl)
