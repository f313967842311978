-- ===== src/Capacity/Tests.antt =====
-- Limits of a car park with the default capacities.
use vision_park_ai.Prelude.{◌≡◌, ◌↔◌, arith, refl, true, false, some, none}
use vision_park_ai.Prelude.Int.{pos, ◌+ℤ◌, ◌≤ℤ◌}
use vision_park_ai.Prelude.Text.{ascii, codes}
use vision_park_ai.Capacity.{
  CapacityEntry, LotSettings, number, default_config, get_capacity_settings_stub,
  calculate_effective_capacity_limit, check_capacity_and_quota_stub,
}
use vision_park_ai.Capacity.Limits.{check_capacity_and_quota_stub_visitor}

check_capacity_and_quota_stub_visitor_example :
    (check_capacity_and_quota_stub ascii (default_config (codes "CAR")) (pos 69) (codes "visitor")
      ≡ true)
    ↔ (pos 69 +ℤ (pos 20 +ℤ pos 10) +ℤ pos 1 ≤ℤ pos 100)
check_capacity_and_quota_stub_visitor_example =
    check_capacity_and_quota_stub_visitor ascii (default_config (codes "CAR")) (codes "visitor")
      (pos 69) refl (omega arith)

-- Half a place for cars.
abbrev half : CapacityEntry
half = record {
  safe_capacity = some (some (number 40));
  physical_capacity = some (some (record { below = false; whole = 0; fraction = true }));
  nearly_full_threshold = none;
  full_threshold = none;
  other_keys = false;
}

abbrev half_lot : LotSettings
half_lot = record { capacities = λ t. some half; quotas = λ t. none }

half_lot_limit :
    calculate_effective_capacity_limit ascii
      (get_capacity_settings_stub ascii (λ s. s) (some half_lot) (codes "CAR"))
      (codes "STAFF")
    ≡ pos 0
unfolding calculate_effective_capacity_limit get_capacity_settings_stub
half_lot_limit = refl
