-- ===== src/Sessions.antt =====
-- Parking sessions: `ParkingTransaction` and `TransactionStatus` of
-- backend/app/modules/checkin/models.py, with the lookups of
-- backend/app/modules/checkin/repository.py for a checkout. Columns that no modelled code reads are
-- left out. Fees are whole amounts.
pub mod Rows
pub mod Notes
pub mod Marked
use vision_park_ai.Prelude.{
  ℕ, Bool, true, false, ◌&&◌, ◌||◌, Option, none, some, List, [], ◌∷◌, ◌++◌, ◌==◌, select,
  if◌then◌else◌,
}
use vision_park_ai.Prelude.Int.{ℤ}
use vision_park_ai.Prelude.Text.{Text, codes, text_eq, text_is}
use vision_park_ai.Clock.{DateTime}
use vision_park_ai.Tables.{find, update_first}
use vision_park_ai.Ledger.{option_eq}
use vision_park_ai.Fee.Snapshot.{PriceSnapshot}

pub data TransactionStatus : Type 0 where
  created entered parked payment_pending paid exited completed cancelled exception :
      TransactionStatus

-- The JSON of a stored price: one with a version and an initial fee, an older one with the values
-- that it has, or none.
pub data StoredPrice : Type 0 where
  full : PriceSnapshot → StoredPrice
  legacy : Option ℕ → Option ℕ → Option ℕ → StoredPrice
  missing : StoredPrice

pub record Session : Type 0 where
  pub id : ℕ
  pub building_id : Option ℕ
  pub license_plate : Option Text
  pub normalized_plate : Option Text
  pub ticket_code : Option Text
  pub vehicle_type : Text
  pub status : TransactionStatus
  pub lane_id : Option ℕ
  pub exit_lane_id : Option ℕ
  pub check_in_time : DateTime
  pub exit_time : Option DateTime
  pub fee : Option ℤ
  pub price_snapshot : StoredPrice
  pub notes : Option Text
  pub idempotency_key : Text

abbrev pub session_key : ℕ → Session → Bool
session_key k s = s.id == k

-- The row of a session is written.
unfoldable pub write_session : Session → List Session → List Session
write_session t = update_first (session_key t.id) (λ (s : Session). t)

-- `_CHECKOUT_ELIGIBLE`
abbrev pub is_checkout_eligible : TransactionStatus → Bool
is_checkout_eligible parked = true
is_checkout_eligible payment_pending = true
is_checkout_eligible paid = true
is_checkout_eligible _ = false

-- `COMPLETED` or `EXITED`
abbrev pub is_done : TransactionStatus → Bool
is_done completed = true
is_done exited = true
is_done _ = false

abbrev pub is_paid : TransactionStatus → Bool
is_paid paid = true
is_paid _ = false

-- The rows come in the order of the table; the query sorts them by the time of check-in.
unfoldable pub get_checkout_eligible_by_plate : List Session → Text → Option ℕ → List Session
get_checkout_eligible_by_plate sessions normalized_plate building_id =
    select
      (λ (s : Session).
        text_is s.normalized_plate normalized_plate
        && (is_checkout_eligible s.status && option_eq s.building_id building_id))
      sessions

unfoldable pub get_checkout_eligible_by_ticket : List Session → Text → Option ℕ → List Session
get_checkout_eligible_by_ticket sessions ticket_code building_id =
    select
      (λ (s : Session).
        text_is s.ticket_code ticket_code
        && (is_checkout_eligible s.status && option_eq s.building_id building_id))
      sessions

-- `[CHECKOUT_KEY:key]`
abbrev pub key_marker : Text → Text
key_marker key = codes "[CHECKOUT_KEY:" ++ (key ++ codes "]")

-- `[EXIT_IMAGE:url]`
abbrev pub image_marker : Text → Text
image_marker url = codes "[EXIT_IMAGE:" ++ (url ++ codes "]")

-- `LIKE` on a column that may be NULL.
abbrev pub like_column : (Text → Text → Bool) → Text → Option Text → Bool
like_column like pattern_text none = false
like_column like pattern_text (some t) = like pattern_text t

-- The condition of the query for a checkout that is done under a key. `like` is the database's
-- `LIKE`: the pattern first, then the text.
abbrev pub done_under : (Text → Text → Bool) → Text → Session → Bool
done_under like key s =
    (like_column like (codes "%" ++ (key_marker key ++ codes "%")) s.notes
      || text_eq s.idempotency_key key)
    && is_done s.status

unfoldable pub get_by_idempotency_key_checkout :
    (Text → Text → Bool) → List Session → Text → Option Session
get_by_idempotency_key_checkout like sessions key = find (done_under like key) sessions
