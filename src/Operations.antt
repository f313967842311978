-- ===== src/Operations.antt =====
-- Error reports of clients: `report_error` of backend/app/modules/operations/service.py, over
-- `ErrorEvent` and `Notification` of backend/app/modules/operations/models.py. The row of the user is
-- locked, so the reports of a user come one after the other. `now` is the clock of the service and
-- of the database, in microseconds; the fixed texts of messages are left out.
pub mod Limit
mod Tests
use vision_park_ai.Prelude.{
  ℕ, ◌+◌, ◌*◌, Bool, ◌&&◌, not, Option, none, some, List, [], ◌∷◌, ◌==◌, leb, ltb, length, select,
}
use vision_park_ai.Prelude.Text.{Text, text_eq, text_is, filled}
use vision_park_ai.Errors.{Result, ok, app_error, raise_if, ◌>>◌, rate_limit}
use vision_park_ai.Clock.{minute}
use vision_park_ai.Tables.{find}

pub record ErrorEvent : Type 0 where
  pub id : ℕ
  pub user_id : ℕ
  pub code : Text
  pub status : ℕ
  pub source : Text
  pub correlation_id : Option Text
  pub created_at : ℕ

-- What the report's values have.
pub record ErrorReport : Type 0 where
  pub code : Text
  pub status : ℕ
  pub source : Text
  pub correlation_id : Option Text

pub record ErrorNotice : Type 0 where
  pub user_id : ℕ
  pub code : Text

pub record OperationsStore : Type 0 where
  pub events : List ErrorEvent
  pub notifications : List ErrorNotice

-- The report of the user that came before under the same correlation.
abbrev pub same_report : ℕ → Text → ErrorReport → ErrorEvent → Bool
same_report user_id correlation values e =
    (e.user_id == user_id)
    && (text_is e.correlation_id correlation
        && (text_eq e.code values.code && text_eq e.source values.source))

-- No correlation, or an empty one, finds nothing.
unfoldable pub find_report : ℕ → Option Text → ErrorReport → List ErrorEvent → Option ErrorEvent
find_report user_id none values events = none
find_report user_id (some correlation) values events =
    find (same_report user_id correlation values) events

-- `created_at >= cutoff`, where the cutoff is a minute ago.
abbrev pub is_recent : ℕ → ℕ → ErrorEvent → Bool
is_recent user_id now e = (e.user_id == user_id) && leb now (e.created_at + minute)

unfoldable pub count_recent : ℕ → ℕ → List ErrorEvent → ℕ
count_recent user_id now events = length (select (is_recent user_id now) events)

abbrev pub new_event : ℕ → ℕ → ℕ → ErrorReport → ErrorEvent
new_event id now user_id values = record {
  id = id;
  user_id = user_id;
  code = values.code;
  status = values.status;
  source = values.source;
  correlation_id = values.correlation_id;
  created_at = now;
}

unfoldable pub store_event : ErrorEvent → OperationsStore → OperationsStore
store_event e db = record db {
  events = e ∷ db.events;
  notifications = record { user_id = e.user_id; code = e.code } ∷ db.notifications;
}

unfoldable pub add_event :
    ℕ → ℕ → ℕ → ErrorReport → OperationsStore → Result (ErrorEvent × OperationsStore)
add_event id now user_id values db =
    raise_if (leb 10 (count_recent user_id now db.events)) (app_error 429 rate_limit)
    >> ok (new_event id now user_id values, store_event (new_event id now user_id values) db)

abbrev pub answer_or_add :
    ℕ
    → ℕ
    → ℕ
    → ErrorReport
    → OperationsStore
    → Option ErrorEvent
    → Result (ErrorEvent × OperationsStore)
answer_or_add id now user_id values db none = add_event id now user_id values db
answer_or_add id now user_id values db (some e) = ok (e, db)

unfoldable pub report_error :
    ℕ → ℕ → ℕ → ErrorReport → OperationsStore → Result (ErrorEvent × OperationsStore)
report_error id now user_id values db =
    answer_or_add id now user_id values db
      (find_report user_id (filled values.correlation_id) values db.events)
