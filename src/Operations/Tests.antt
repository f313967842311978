-- ===== src/Operations/Tests.antt =====
-- Runs of error reports, and their theorem at two of them.
use vision_park_ai.Prelude.{◌≤◌, ◌≡◌, refl, none, some, [], ◌∷◌, arith}
use vision_park_ai.Prelude.Text.{codes}
use vision_park_ai.Errors.{ok}
use vision_park_ai.Tables.{find}
use vision_park_ai.Operations.{
  ErrorReport, OperationsStore, find_report, count_recent, new_event, store_event, add_event,
  report_error,
}
use vision_park_ai.Operations.Limit.{Reported, Reported-IsLimited}

abbrev values : ErrorReport
values = record {
  code = codes "FAILED";
  status = 500;
  source = codes "frontend";
  correlation_id = some (codes "a-1");
}

abbrev others : ErrorReport
others = record {
  code = codes "FAILED";
  status = 500;
  source = codes "frontend";
  correlation_id = none;
}

abbrev empty : OperationsStore
empty = record { events = []; notifications = [] }

abbrev one : OperationsStore
one = record {
  events = new_event 1 50 7 values ∷ [];
  notifications = record { user_id = 7; code = codes "FAILED" } ∷ [];
}

abbrev two : OperationsStore
two = record {
  events = new_event 2 90 7 others ∷ new_event 1 50 7 values ∷ [];
  notifications =
      record { user_id = 7; code = codes "FAILED" }
      ∷ record { user_id = 7; code = codes "FAILED" }
      ∷ [];
}

first : report_error 1 50 7 values empty ≡ ok (new_event 1 50 7 values, one)
unfolding report_error find_report add_event store_event count_recent find
first = refl

-- The same report again is answered by the first.
repeated : report_error 2 80 7 values one ≡ ok (new_event 1 50 7 values, one)
unfolding report_error find_report find
repeated = refl

second : report_error 2 90 7 others one ≡ ok (new_event 2 90 7 others, two)
unfolding report_error find_report add_event store_event count_recent find
second = refl

abbrev run : Reported 90 two
run =
    let begun : Reported 50 empty = Reported.start in
    Reported.report 2 7 others (new_event 2 90 7 others)
      (Reported.report 1 7 values (new_event 1 50 7 values) begun (omega arith) first) (omega arith)
      second

Reported-IsLimited_example : count_recent 7 100 two.events ≤ 10
Reported-IsLimited_example = Reported-IsLimited run 100 (omega arith) 7
