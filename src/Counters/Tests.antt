-- ===== src/Counters/Tests.antt =====
-- A lot with two cars, and the theorems of the counters at it.
use vision_park_ai.Prelude.{
  ℕ, ◌≡◌, ◌↔◌, refl, true, false, Option, none, some, List, [], ◌∷◌, Bool-cases, inl, inr, Each,
}
use vision_park_ai.Prelude.Int.{ℤ, pos, ◌+ℤ◌, ◌-ℤ◌, ◌≤ℤ◌}
use vision_park_ai.Prelude.Text.{Text, ascii, codes}
use vision_park_ai.Errors.{ok, raise, app_error, capacity_full}
use vision_park_ai.Tables.{find}
use vision_park_ai.Capacity.{default_config, calculate_effective_capacity_limit}
use vision_park_ai.Counters.{
  ParkingCounter, CounterEvent, CounterStore, get_or_create_counter, post, increment_atomic,
  decrement_atomic,
}
use vision_park_ai.Counters.Slots.{occupancy, same_slot}
use vision_park_ai.Counters.Balance.{IsBalanced}
use vision_park_ai.Counters.Counts.{
  increment_atomic_lem, increment_atomic_balance, decrement_atomic_lem, decrement_atomic_empty,
}
use vision_park_ai.Counters.Reconcile.{
  reconcile_and_adjust, Reconciled, count_of, get_active_session_counts, vehicle_types,
}
use vision_park_ai.Counters.Reconcile.Exact.{reconcile_and_adjust_lem}

abbrev lot : ℤ → List CounterEvent → CounterStore
lot n events = record {
  counters = record { id = 1; building_id = some 5; vehicle_type = codes "CAR"; occupied = n } ∷ [];
  events = events;
}

abbrev event : ℤ → Option ℕ → CounterEvent
event delta session_id = record {
  building_id = some 5;
  counter_id = 1;
  vehicle_type = codes "CAR";
  delta = delta;
  session_id = session_id;
  reason = codes "TEST";
}

abbrev two_cars : CounterStore
two_cars = lot (pos 2) (event (pos 2) none ∷ [])

abbrev empty_lot : CounterStore
empty_lot = record { counters = []; events = [] }

empty_lot-IsBalanced : IsBalanced empty_lot
unfolding find
empty_lot-IsBalanced b v = refl

two_cars-IsBalanced : IsBalanced two_cars
unfolding find ◌+ℤ◌
two_cars-IsBalanced b v = elim (Bool-cases (same_slot (some 5) (codes "CAR") b v)) [
  | inl e ↦ rw e
  | inr e ↦ rw e
]

abbrev four_cars : ParkingCounter × CounterStore
four_cars =
    post (some 5) (codes "CAR")
      (record { id = 1; building_id = some 5; vehicle_type = codes "CAR"; occupied = pos 2 })
      (pos 4) (pos 1) (some 8) (codes "CHECK_IN") two_cars

one_more :
    increment_atomic ascii true
      (default_config (codes "CAR"))
      9
      two_cars
      (some 5)
      (codes "CAR")
      8
      (codes "VISITOR")
      (codes "CHECK_IN")
    ≡ ok four_cars
unfolding increment_atomic get_or_create_counter find calculate_effective_capacity_limit ◌+ℤ◌ ◌-ℤ◌
one_more = refl

increment_atomic_balance_example : IsBalanced four_cars.1 ↔ (true ≡ false)
increment_atomic_balance_example =
    increment_atomic_balance ascii 9 two_cars (some 5) (codes "CAR") refl true
      (default_config (codes "CAR")) 8 (codes "VISITOR") (codes "CHECK_IN") four_cars.0 four_cars.1
      two_cars-IsBalanced one_more

increment_atomic_lem_example :
    (calculate_effective_capacity_limit ascii (default_config (codes "CAR")) (codes "VISITOR")
        ≤ℤ occupancy (some 5) (codes "CAR") two_cars
      → increment_atomic ascii true
          (default_config (codes "CAR"))
          9
          two_cars
          (some 5)
          (codes "CAR")
          8
          (codes "VISITOR")
          (codes "CHECK_IN")
        ≡ raise (app_error 403 capacity_full))
    × (occupancy (some 5) (codes "CAR") two_cars +ℤ pos 1
          ≤ℤ calculate_effective_capacity_limit ascii
              (default_config (codes "CAR"))
              (codes "VISITOR")
        → (c : ParkingCounter) × (after : CounterStore) × (increment_atomic ascii true
              (default_config (codes "CAR"))
              9
              two_cars
              (some 5)
              (codes "CAR")
              8
              (codes "VISITOR")
              (codes "CHECK_IN")
            ≡ ok (c, after))
          × (occupancy (some 5) (codes "CAR") after
              ≡ occupancy (some 5) (codes "CAR") two_cars +ℤ pos 2))
increment_atomic_lem_example =
    increment_atomic_lem ascii 9 two_cars (some 5) (codes "CAR") refl true
      (default_config (codes "CAR")) 8 (codes "VISITOR") (codes "CHECK_IN")

decrement_atomic_lem_example :
    occupancy
      (some 5)
      (codes "CAR")
      (decrement_atomic ascii true 9 two_cars (some 5) (codes "CAR") 8 (codes "CHECK_OUT")).1
    ≡ pos 0
unfolding find
decrement_atomic_lem_example =
    decrement_atomic_lem ascii 9 two_cars (some 5) (codes "CAR") refl true 8 2 (codes "CHECK_OUT")
      refl

decrement_atomic_empty_example :
    ¬ IsBalanced
      (decrement_atomic ascii false 9 empty_lot (some 5) (codes "CAR") 8 (codes "CHECK_OUT")).1
unfolding find
decrement_atomic_empty_example =
    decrement_atomic_empty ascii 9 empty_lot (some 5) (codes "CAR") refl false 8 (codes "CHECK_OUT")
      empty_lot-IsBalanced refl

reconcile_and_adjust_lem_example :
    (r : Reconciled) × (reconcile_and_adjust ascii 9 two_cars
        (some 5)
        ((some (codes "CAR"), 4) ∷ [])
        true
        (codes "PERIODIC_RECONCILIATION")
        (some 3)
      ≡ ok r)
    × Each
        (λ (t : Text).
          occupancy (some 5) t r.store
          ≡ pos (count_of (get_active_session_counts ascii ((some (codes "CAR"), 4) ∷ [])) t))
        vehicle_types
reconcile_and_adjust_lem_example =
    reconcile_and_adjust_lem ascii 9 two_cars (some 5) ((some (codes "CAR"), 4) ∷ [])
      (codes "PERIODIC_RECONCILIATION") (some 3)
