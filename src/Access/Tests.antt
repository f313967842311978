-- ===== src/Access/Tests.antt =====
-- A car with a monthly ticket that comes to a lane for cars.
use vision_park_ai.Prelude.{◌*◌, ◌≡◌, refl, true, false, none, some, [], ◌∷◌}
use vision_park_ai.Prelude.Int.{pos}
use vision_park_ai.Prelude.Text.{is_filled, codes, text_eq, ascii}
use vision_park_ai.Errors.{ok}
use vision_park_ai.Clock.{utc, day}
use vision_park_ai.Tables.{find}
use vision_park_ai.Ticket.{TicketKind, allow, check_ticket_access, check_match, check_validity}
use vision_park_ai.Capacity.{
  default_config, check_capacity_and_quota_stub, calculate_effective_capacity_limit,
}
use vision_park_ai.Counters.{CounterStore, get_or_create_counter}
use vision_park_ai.Access.{
  TicketRows, Arrival, check_blacklist_stub, lane_differs, verify_ticket_entitlement_for_checkin,
  check_access_control, evaluate_access_control,
}
use vision_park_ai.Access.Allowed.{HasRight, evaluate_access_control_allow}

abbrev ticket_rows : TicketRows
ticket_rows = record {
  vehicles =
      record { id = 1; building_id = 5; normalized_plate = none; ticket_code = some (codes "T1") }
      ∷ [];
  subscriptions =
      record {
        building_id = 5;
        vehicle_id = 1;
        product_id = 2;
        zone_id = none;
        valid_from = utc 0;
        valid_until = utc (30 * day);
        grace_days = 3;
      }
      ∷ [];
  products =
      record { id = 2; kind = TicketKind.monthly; vehicle_type = codes "CAR"; active = true } ∷ [];
}

abbrev arrival : Arrival
arrival = record {
  license_plate = none;
  vehicle_type = codes "CAR";
  ticket_code = some (codes " t1");
  zone_id = none;
  at = utc day;
}

abbrev one_car_in : CounterStore
one_car_in = record {
  counters =
      record { id = 3; building_id = some 5; vehicle_type = codes "CAR"; occupied = pos 1 } ∷ [];
  events = [];
}

ticket_holder_enters :
    evaluate_access_control ascii ticket_rows
      (default_config (codes "CAR"))
      9
      one_car_in
      (some (codes "CAR"))
      (some 5)
      arrival
      (codes "STAFF")
      none
    ≡ ok (allow, one_car_in)
unfolding evaluate_access_control check_access_control verify_ticket_entitlement_for_checkin
    check_ticket_access check_match check_validity check_blacklist_stub find get_or_create_counter
    check_capacity_and_quota_stub calculate_effective_capacity_limit
ticket_holder_enters = refl

evaluate_access_control_allow_example :
    (lane_differs (some (codes "CAR")) (codes "CAR") ≡ false)
    × (text_eq (codes "CAR") (codes "BICYCLE") ≡ true → is_filled (some (codes " t1")) ≡ true)
    × (check_blacklist_stub ascii none ≡ false)
    × HasRight ascii ticket_rows
        (default_config (codes "CAR"))
        9
        one_car_in
        (some (codes "CAR"))
        (some 5)
        arrival
        (codes "STAFF")
        none
evaluate_access_control_allow_example =
    evaluate_access_control_allow ascii ticket_rows (default_config (codes "CAR")) 9 one_car_in
      (some (codes "CAR")) (some 5) arrival (codes "STAFF") none one_car_in ticket_holder_enters
