-- ===== src/Detections.antt =====
-- The confirmation of a detected plate by an operator: `confirm_detection` of
-- backend/app/modules/alpr/confirmation.py where the request does not ask for a check-in, over
-- `Detection` of backend/app/modules/alpr/models.py, and the endpoint of
-- backend/app/api/v1/endpoints/alpr.py that looks the detection up; that the user has one of its
-- roles is taken for granted. Hard samples are files that are written as well as can be; what is to
-- be written is a list.
pub mod Confirmed
mod Tests
use vision_park_ai.Prelude.{
  ℕ, Bool, true, false, not, ◌&&◌, ◌||◌, Option, none, some, List, [], ◌∷◌, ◌==◌, leb, any, length,
  if◌then◌else◌,
}
use vision_park_ai.Prelude.Text.{Text, text_is, filled, is_filled, Unicode}
use vision_park_ai.Errors.{
  Result, ok, app_error, raise_if, or_raise, ◌>>=◌, ◌>>◌, not_found, detection_already_checked_in,
  invalid_plate,
}
use vision_park_ai.Tables.{find, update_first}
use vision_park_ai.Plate.{normalize_plate}

pub record Detection : Type 0 where
  pub id : ℕ
  pub lane_id : ℕ
  pub raw_plate : Option Text
  pub vehicle_type : Option Text
  pub requires_confirmation : Bool
  pub is_confirmed : Bool
  pub confirmed_plate : Option Text
  pub confirmed_by_id : Option ℕ

pub record DetectionConfirmRequest : Type 0 where
  pub confirmed_plate : Text
  pub confirmed_vehicle_type : Option Text
  pub override_reason : Option Text

-- What the metadata of a hard sample says: of the original prediction its plate and vehicle type,
-- and the correction.
pub record HardSample : Type 0 where
  pub detection_id : ℕ
  pub raw_plate : Option Text
  pub vehicle_type : Option Text
  pub confirmed_plate : Text
  pub confirmed_vehicle_type : Option Text
  pub operator_id : ℕ
  pub override_reason : Option Text

pub record PlateConfirmed : Type 0 where
  pub user_id : ℕ
  pub detection_id : ℕ
  pub old_plate : Option Text
  pub old_vehicle_type : Option Text
  pub plate : Text
  pub vehicle_type : Option Text

-- `checked_in` has the detection of each transaction that names one.
pub record DetectionStore : Type 0 where
  pub detections : List Detection
  pub checked_in : List ℕ
  pub samples : List HardSample
  pub audit : List PlateConfirmed

abbrev pub detection_key : ℕ → Detection → Bool
detection_key k d = d.id == k

-- `a or b`
abbrev pub text_or : Option Text → Option Text → Option Text
text_or a b = if is_filled a then a else b

-- A vehicle type is named and it is another than before.
abbrev pub type_differs : Option Text → Option Text → Bool
type_differs none old = false
type_differs (some t) old = is_filled (some t) && not (text_is old t)

abbrev pub is_corrected : Text → Detection → DetectionConfirmRequest → Bool
is_corrected plate d payload =
    not (text_is (text_or d.confirmed_plate d.raw_plate) plate)
    || type_differs payload.confirmed_vehicle_type d.vehicle_type

unfoldable pub save_hard_sample :
    Detection → Text → DetectionConfirmRequest → ℕ → List HardSample → List HardSample
save_hard_sample d plate payload operator_id samples =
    record {
      detection_id = d.id;
      raw_plate = d.raw_plate;
      vehicle_type = d.vehicle_type;
      confirmed_plate = plate;
      confirmed_vehicle_type = text_or payload.confirmed_vehicle_type d.vehicle_type;
      operator_id = operator_id;
      override_reason = payload.override_reason;
    }
    ∷ samples

abbrev pub confirmed : Text → Detection → DetectionConfirmRequest → ℕ → Detection
confirmed plate d payload operator_id = record d {
  is_confirmed = true;
  requires_confirmation = false;
  confirmed_plate = some plate;
  vehicle_type = text_or payload.confirmed_vehicle_type d.vehicle_type;
  confirmed_by_id = some operator_id;
}

abbrev pub confirm_entry : Text → Detection → DetectionConfirmRequest → ℕ → PlateConfirmed
confirm_entry plate d payload operator_id = record {
  user_id = operator_id;
  detection_id = d.id;
  old_plate = text_or d.confirmed_plate d.raw_plate;
  old_vehicle_type = d.vehicle_type;
  plate = plate;
  vehicle_type = text_or payload.confirmed_vehicle_type d.vehicle_type;
}

unfoldable pub store_confirmed :
    Text → Detection → DetectionConfirmRequest → ℕ → DetectionStore → DetectionStore
store_confirmed plate d payload operator_id db =
    let new = confirmed plate d payload operator_id in
    record db {
      detections = update_first (detection_key d.id) (λ (x : Detection). new) db.detections;
      samples =
          if is_corrected plate d payload
          then save_hard_sample new plate payload operator_id db.samples
          else db.samples;
      audit = confirm_entry plate d payload operator_id ∷ db.audit;
    }

-- The detection has this plate already.
abbrev pub is_settled : Text → Detection → Bool
is_settled plate d = d.is_confirmed && text_is d.confirmed_plate plate

unfoldable pub confirm_as :
    Text
    → Detection
    → DetectionConfirmRequest
    → ℕ
    → DetectionStore
    → Result (Detection × DetectionStore)
confirm_as plate d payload operator_id db =
    if is_settled plate d
    then ok (d, db)
    else (raise_if (any (λ k. k == d.id) db.checked_in) (app_error 409 detection_already_checked_in)
        >> ok
            (confirmed plate d payload operator_id, store_confirmed plate d payload operator_id db))

abbrev pub is_short_or_long : Text → Bool
is_short_or_long plate = not (leb 3 (length plate) && leb (length plate) 50)

-- `confirm_detection`, without its branch for a check-in.
unfoldable pub confirm_without_check_in :
    Unicode
    → Detection
    → DetectionConfirmRequest
    → ℕ
    → DetectionStore
    → Result (Detection × DetectionStore)
confirm_without_check_in u d payload operator_id db =
    let plate = normalize_plate u true payload.confirmed_plate in
    raise_if (is_short_or_long plate) (app_error 422 invalid_plate)
    >> confirm_as plate d payload operator_id db

unfoldable pub confirm_by_id :
    Unicode → ℕ → DetectionConfirmRequest → ℕ → DetectionStore → Result (Detection × DetectionStore)
confirm_by_id u id payload operator_id db = do
  d ← or_raise (find (detection_key id) db.detections) (app_error 404 not_found)
  confirm_without_check_in u d payload operator_id db
