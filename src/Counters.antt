-- ===== src/Counters.antt =====
-- Occupancy counters: backend/app/modules/checkin/counter_service.py. The counter's row is locked
-- while a call runs, so a call is one step. Times and notes are left out.
pub mod Slots
pub mod Balance
pub mod Counts
pub mod Reconcile
mod Tests
use vision_park_ai.Prelude.{
  ℕ, ◌*◌, Bool, true, false, ◌&&◌, Option, none, some, List, [], ◌∷◌, if◌then◌else◌,
}
use vision_park_ai.Prelude.Int.{ℤ, pos, negsuc, ◌+ℤ◌, ◌-ℤ◌, ltb_ℤ, leb_ℤ, eqb_ℤ, pos_part}
use vision_park_ai.Prelude.Text.{Text, codes, text_eq, Unicode, upper}
use vision_park_ai.Errors.{
  Result, ok, raise, app_error, raise_if, ◌>>◌, capacity_full, invalid_delta, negative_occupied,
}
use vision_park_ai.Tables.{find, update_first}
use vision_park_ai.Ledger.{option_eq}
use vision_park_ai.Capacity.{CapacityQuotaConfig, calculate_effective_capacity_limit, max_ℤ}

pub record ParkingCounter : Type 0 where
  pub id : ℕ
  pub building_id : Option ℕ
  pub vehicle_type : Text
  pub occupied : ℤ

pub record CounterEvent : Type 0 where
  pub building_id : Option ℕ
  pub counter_id : ℕ
  pub vehicle_type : Text
  pub delta : ℤ
  pub session_id : Option ℕ
  pub reason : Text

pub record CounterStore : Type 0 where
  pub counters : List ParkingCounter
  pub events : List CounterEvent

-- The condition of the query: one building, or none, and one type.
abbrev pub slot : Option ℕ → Text → ParkingCounter → Bool
slot building_id vtype c = option_eq c.building_id building_id && text_eq c.vehicle_type vtype

abbrev pub new_counter : ℕ → Option ℕ → Text → ParkingCounter
new_counter id building_id vtype = record {
  id = id;
  building_id = building_id;
  vehicle_type = vtype;
  occupied = pos 0;
}

-- What the query found, or a new row.
abbrev pub counter_or_new :
    ℕ → CounterStore → Option ℕ → Text → Option ParkingCounter → ParkingCounter × CounterStore
counter_or_new id db building_id vtype (some c) = (c, db)
counter_or_new id db building_id vtype none =
    let c = new_counter id building_id vtype in (c, record db { counters = c ∷ db.counters })

-- The counter of a slot; `id` is the key of a new row.
unfoldable pub get_or_create_counter :
    Unicode → ℕ → CounterStore → Option ℕ → Text → ParkingCounter × CounterStore
get_or_create_counter u id db building_id vehicle_type =
    let vtype = upper u vehicle_type in
    counter_or_new id db building_id vtype (find (slot building_id vtype) db.counters)

-- The row of a slot is written with a new count.
unfoldable pub write_occupied : Option ℕ → Text → ℤ → CounterStore → CounterStore
write_occupied building_id vtype n db = record db {
  counters =
      update_first (slot building_id vtype) (λ (c : ParkingCounter). record c { occupied = n })
        db.counters;
}

abbrev pub add_event : CounterEvent → CounterStore → CounterStore
add_event e db = record db { events = e ∷ db.events }

abbrev pub with_occupied : ParkingCounter → ℤ → ParkingCounter
with_occupied c n = record c { occupied = n }

-- The end of a change: the counter, the row and the event.
abbrev pub post :
    Option ℕ
    → Text
    → ParkingCounter
    → ℤ
    → ℤ
    → Option ℕ
    → Text
    → CounterStore
    → ParkingCounter × CounterStore
post building_id vtype counter written delta session_id reason db = (
  with_occupied counter written,
  add_event
      (record {
        building_id = building_id;
        counter_id = counter.id;
        vehicle_type = vtype;
        delta = delta;
        session_id = session_id;
        reason = reason;
      })
      (write_occupied building_id vtype written db),
)

-- `refreshes`: whether the UPDATE writes its new value to the object that the session holds
-- (`synchronize_session`), as it does by default. The object's value is what the flush writes.
unfoldable pub increment_atomic :
    Unicode
    → Bool
    → CapacityQuotaConfig
    → ℕ
    → CounterStore
    → Option ℕ
    → Text
    → ℕ
    → Text
    → Text
    → Result (ParkingCounter × CounterStore)
increment_atomic u refreshes cfg id db building_id vehicle_type session_id customer_class reason =
    let vtype = upper u vehicle_type in
    let (counter, found) = get_or_create_counter u id db building_id vtype in
    let limit = calculate_effective_capacity_limit u cfg customer_class in
    let held = if refreshes then counter.occupied +ℤ pos 1 else counter.occupied in
    let written = held +ℤ pos 1 in
    raise_if (leb_ℤ limit counter.occupied) (app_error 403 capacity_full)
    >> ok (post building_id vtype counter written (pos 1) (some session_id) reason found)

-- The value of the row after a guarded `occupied - 1`.
abbrev pub decremented : ℤ → ℤ
decremented n = if ltb_ℤ (pos 0) n then n -ℤ pos 1 else n

unfoldable pub decrement_atomic :
    Unicode → Bool → ℕ → CounterStore → Option ℕ → Text → ℕ → Text → ParkingCounter × CounterStore
decrement_atomic u refreshes id db building_id vehicle_type session_id reason =
    let vtype = upper u vehicle_type in
    let (counter, found) = get_or_create_counter u id db building_id vtype in
    let held = if refreshes then decremented counter.occupied else counter.occupied in
    let written = if ltb_ℤ (pos 0) held then held -ℤ pos 1 else decremented counter.occupied in
    post building_id vtype counter written (negsuc 0) (some session_id) reason found

unfoldable pub adjust_counter :
    Unicode → ℕ → CounterStore → Option ℕ → Text → ℤ → Text → Result (ParkingCounter × CounterStore)
adjust_counter u id db building_id vehicle_type delta reason =
    let vtype = upper u vehicle_type in
    let (counter, found) = get_or_create_counter u id db building_id vtype in
    let new_val = counter.occupied +ℤ delta in
    raise_if (eqb_ℤ delta (pos 0)) (app_error 422 invalid_delta)
    >> (raise_if (ltb_ℤ new_val (pos 0)) (app_error 422 negative_occupied)
        >> ok (post building_id vtype counter new_val delta none reason found))
