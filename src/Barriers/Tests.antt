-- ===== src/Barriers/Tests.antt =====
-- An exit lane with a session at it, and the theorems of barriers at it.
use vision_park_ai.Prelude.{◌≡◌, ◌↔◌, refl, true, none, some, List, [], ◌∷◌, ℕ}
use vision_park_ai.Prelude.Text.{ascii, codes}
use vision_park_ai.Clock.{utc}
use vision_park_ai.Errors.{ok}
use vision_park_ai.Tables.{find}
use vision_park_ai.Sessions.{StoredPrice, Session, TransactionStatus}
use vision_park_ai.Gates.{
  User, Lane, BarrierEvent, GateStore, RoleName, LaneDirection, BarrierStatus, BarrierAction,
  LifecycleEvent, LifecycleEventType, lane_key, record_barrier_event, barrier_event,
}
use vision_park_ai.Barriers.{
  BarrierOpenRequest, BarrierCloseRequest, open_barrier, emergency_open_barrier, close_barrier,
}
use vision_park_ai.Barriers.Rights.{open_barrier_ok, MayOpen, IsThere}
use vision_park_ai.Barriers.Runs.{Obeyed, start, order, opening, closing, Logged, Obeyed-Logged}

abbrev exit_lane : Lane
exit_lane = record {
  id = 2;
  building_id = some 5;
  barrier_id = some 6;
  is_active = true;
  direction = LaneDirection.outward;
}

abbrev guard : User
guard = record { id = 11; building_id = some 5; role = RoleName.operator }

abbrev parked_car : Session
parked_car = record {
  id = 30;
  building_id = some 5;
  license_plate = some (codes "30A12345");
  normalized_plate = some (codes "30A12345");
  ticket_code = none;
  vehicle_type = codes "CAR";
  status = TransactionStatus.parked;
  lane_id = some 1;
  exit_lane_id = some 2;
  check_in_time = utc 0;
  exit_time = none;
  fee = none;
  price_snapshot = StoredPrice.missing;
  notes = none;
  idempotency_key = codes "in-30";
}

abbrev noted : LifecycleEventType → LifecycleEvent
noted t = record {
  session_id = 30;
  event_type = t;
  actor_id = 11;
  lane_id = some 2;
  building_id = some 5;
  paid = none;
}

abbrev gates : List LifecycleEvent → List BarrierEvent → List ℕ → GateStore
gates lifecycle events overrides = record {
  lanes = exit_lane ∷ [];
  sessions = parked_car ∷ [];
  lifecycle = lifecycle;
  events = events;
  overrides = overrides;
}

abbrev override_request : BarrierOpenRequest
override_request = record {
  trigger_reason = codes "OVERRIDE";
  override_reason = some (codes "ticket machine broken");
  session_id = some 30;
  timeout_seconds = 15;
}

abbrev override_event : BarrierEvent
override_event =
    barrier_event exit_lane BarrierAction.open_it (codes "OVERRIDE") guard (some 30)
      BarrierStatus.opened 15

open_barrier_ok_example :
    ((r : BarrierEvent × GateStore) × (open_barrier ascii (gates [] [] []) 2 override_request guard
        ≡ ok r))
    ↔ ((lane : Lane) × (find (lane_key 2) (gates [] [] []).lanes ≡ some lane)
        × MayOpen ascii override_request guard lane
        × IsThere (gates [] [] []) (some 30))
open_barrier_ok_example = open_barrier_ok ascii (gates [] [] []) 2 override_request guard

override_opens :
    open_barrier ascii (gates [] [] []) 2 override_request guard
    ≡ ok (
      override_event,
      gates (noted LifecycleEventType.barrier_opened_out ∷ []) (override_event ∷ []) (11 ∷ []),
    )
unfolding open_barrier record_barrier_event find
override_opens = refl

abbrev emergency_event : BarrierEvent
emergency_event =
    barrier_event exit_lane BarrierAction.open_it (codes "EMERGENCY") guard (some 30)
      BarrierStatus.opened 60

emergency_opens :
    emergency_open_barrier (gates [] [] []) 2 guard none
    ≡ ok (
      emergency_event,
      gates (noted LifecycleEventType.barrier_opened_out ∷ []) (emergency_event ∷ []) [],
    )
unfolding emergency_open_barrier record_barrier_event find
emergency_opens = refl

abbrev timeout_request : BarrierCloseRequest
timeout_request = record { reason = codes "TIMEOUT"; session_id = some 30 }

abbrev timeout_event : BarrierEvent
timeout_event =
    barrier_event exit_lane BarrierAction.close_it (codes "TIMEOUT_AUTO_CLOSE") guard (some 30)
      BarrierStatus.closed_timeout 15

timeout_closes :
    close_barrier (gates [] [] []) 2 timeout_request guard
    ≡ ok (
      timeout_event,
      gates (noted LifecycleEventType.barrier_timeout_closed ∷ []) (timeout_event ∷ []) [],
    )
unfolding close_barrier record_barrier_event find
timeout_closes = refl

abbrev opened_gates : GateStore
opened_gates =
    gates (noted LifecycleEventType.barrier_opened_out ∷ []) (override_event ∷ []) (11 ∷ [])

abbrev closed_gates : GateStore
closed_gates =
    gates
      (noted LifecycleEventType.barrier_timeout_closed
        ∷ noted LifecycleEventType.barrier_opened_out
        ∷ [])
      (timeout_event ∷ override_event ∷ []) (11 ∷ [])

then_closes : close_barrier opened_gates 2 timeout_request guard ≡ ok (timeout_event, closed_gates)
unfolding close_barrier record_barrier_event find
then_closes = refl

two_orders : Obeyed ascii (gates [] [] []) (timeout_event ∷ override_event ∷ []) closed_gates
two_orders =
    order 2 guard (closing timeout_request) timeout_event
      (order 2 guard (opening override_request) override_event start override_opens) then_closes

Obeyed-Logged_example : Logged (gates [] [] []) (timeout_event ∷ override_event ∷ []) closed_gates
Obeyed-Logged_example = Obeyed-Logged ascii (gates [] [] []) two_orders
