-- ===== src/Fee/Tests.antt =====
-- Runs of `calculate_fee`, and its theorems at them.
use vision_park_ai.Prelude.{arith, ◌*◌, ◌-◌, ◌≡◌, ◌↔◌, refl, false, none, some, [], ◌∷◌}
use vision_park_ai.Prelude.Int.{pos, negsuc, ◌+ℤ◌, ◌-ℤ◌, ◌≤ℤ◌}
use vision_park_ai.Prelude.Text.{codes}
use vision_park_ai.Errors.{ok, raise, value_error}
use vision_park_ai.Clock.{utc, minute, ceil_div}
use vision_park_ai.Ticket.{TicketKind}
use vision_park_ai.Fee.Snapshot.{PriceSnapshot}
use vision_park_ai.Fee.Formula.{gross_fee, discount_fee}
use vision_park_ai.Fee.Days.{day_lines_enough}
use vision_park_ai.Fee.Total.{calculate_fee_lem}
use vision_park_ai.Fee.Monotone.{calculate_fee_mono}
use vision_park_ai.Fee.Refused.{IsWrong, calculate_fee_refused}
use vision_park_ai.Fee.{
  FeeResult, day_lines, calculate_fee, charge, chunk_fee, eligible_sum, sum_amounts, LineCode,
}

abbrev pub hourly_rule : PriceSnapshot
hourly_rule = record {
  version_id = 7;
  rule_id = 1;
  vehicle_type = codes "CAR";
  ticket_kind = TicketKind.hourly;
  customer_class = codes "VISITOR";
  discount_percent = 10;
  free_minutes = 15;
  initial_minutes = 60;
  initial_fee = 10000;
  block_minutes = 60;
  block_fee = 5000;
  daily_cap = some 50000;
  overnight_fee = 20000;
  lost_ticket_fee = 100000;
  overtime_fee = 30000;
  day_pass_fee = 40000;
  month_pass_fee = 900000;
  windows = [];
  entitlement_valid_until = none;
}

-- 26 hours from noon: a capped day, two hours, one night, a tenth off the parking.
stay_over :
    calculate_fee hourly_rule (utc (720 * minute)) (utc (2280 * minute)) false false (pos 0)
    ≡ ok (record {
      total = pos 78500;
      price_version_id = 7;
      lines =
          charge LineCode.parking_day 50000 1
          ∷ charge LineCode.parking_day 15000 2
          ∷ charge LineCode.overnight 20000 1
          ∷ record { code = LineCode.discount; amount = negsuc 6499; quantity = 1 }
          ∷ [];
    })
unfolding calculate_fee ceil_div ◌+ℤ◌ ◌-ℤ◌ chunk_fee sum_amounts eligible_sum
stay_over = refl

calculate_fee_lem_example :
    (r : FeeResult) × (calculate_fee hourly_rule
        (utc (720 * minute))
        (utc (2280 * minute))
        false
        false
        (pos 0)
      ≡ ok r)
    × (r.total
        ≡ pos (
            gross_fee hourly_rule (utc (720 * minute)) (utc (2280 * minute)) false false 0
            - discount_fee hourly_rule (utc (720 * minute)) (utc (2280 * minute)) 0))
calculate_fee_lem_example =
    calculate_fee_lem hourly_rule (omega arith) tt (utc (720 * minute)) (utc (2280 * minute)) false
      false 0 (omega arith) refl refl (omega arith)

abbrev short_stay : FeeResult
short_stay = record {
  total = pos 9000;
  price_version_id = 7;
  lines =
      charge LineCode.parking_day 10000 1
      ∷ record { code = LineCode.discount; amount = negsuc 999; quantity = 1 }
      ∷ [];
}

abbrev long_stay : FeeResult
long_stay = record {
  total = pos 13500;
  price_version_id = 7;
  lines =
      charge LineCode.parking_day 15000 1
      ∷ record { code = LineCode.discount; amount = negsuc 1499; quantity = 1 }
      ∷ [];
}

calculate_fee_mono_example : pos 9000 ≤ℤ pos 13500
unfolding calculate_fee ceil_div ◌+ℤ◌ ◌-ℤ◌ chunk_fee sum_amounts eligible_sum
calculate_fee_mono_example =
    calculate_fee_mono hourly_rule (utc 0) (utc (75 * minute)) (utc (80 * minute)) false false 0
      short_stay long_stay (omega arith) (omega arith) tt refl refl refl (omega arith) (omega arith)
      refl refl

calculate_fee_refused_example :
    (calculate_fee hourly_rule (utc 60) (utc 20) false false (pos 0) ≡ raise value_error)
    ↔ IsWrong (utc 60) (utc 20) (pos 0)
calculate_fee_refused_example =
    calculate_fee_refused hourly_rule (utc 60) (utc 20) false false (pos 0) (omega arith)
      (omega arith) tt

-- Two days and an hour, with fuel for each minute and with more.
day_lines_enough_example :
    day_lines LineCode.parking_day hourly_rule 2940 2940 0
    ≡ day_lines LineCode.parking_day hourly_rule 9999 2940 0
day_lines_enough_example =
    day_lines_enough hourly_rule LineCode.parking_day 2940 9999 2940 0 (omega arith) (omega arith)
