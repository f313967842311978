-- ===== src/Charging.antt =====
-- The price of a session that leaves: `_build_price_snapshot_from_tx`,
-- `verify_ticket_entitlement_for_checkout` and `calculate_parking_fee` of
-- backend/app/modules/checkout/service.py. Amounts of stored prices are whole; the breakdown and
-- the formula of a fee, which are texts, are left out.
use vision_park_ai.Prelude.{ℕ, Bool, true, false, ◌&&◌, Option, none, some, [], ◌==◌, if◌then◌else◌}
use vision_park_ai.Prelude.Int.{pos}
use vision_park_ai.Prelude.Text.{Text, codes, is_empty, filled, Unicode, upper, strip}
use vision_park_ai.Errors.{Result, ok, ◌>>=◌}
use vision_park_ai.Clock.{DateTime, assume_utc}
use vision_park_ai.Tables.{find}
use vision_park_ai.Ticket.{
  TicketKind, AccessDecision, AccessResult, check_ticket_access, allow, deny, review,
}
use vision_park_ai.Plate.{normalize_plate}
use vision_park_ai.Access.{
  Vehicle, Subscription, TicketProduct, TicketRows, find_vehicle, entitlement,
}
use vision_park_ai.Fee.Snapshot.{PriceSnapshot, check_rule}
use vision_park_ai.Fee.{FeeResult, calculate_fee}
use vision_park_ai.Sessions.{Session, StoredPrice, full, legacy, missing}

-- `DEFAULT_BUILDING_UUID`
abbrev pub default_building : ℕ
default_building = 1

-- `getattr(transaction, "vehicle_type", "CAR") or "CAR"`
abbrev pub vehicle_or_car : Text → Text
vehicle_or_car v = if is_empty v then codes "CAR" else v

-- `raw.get(key, default)`
abbrev pub get_or : Option ℕ → ℕ → ℕ
get_or none d = d
get_or (some n) d = n

-- The snapshot of a session that has no whole one: hours at one rate.
abbrev pub fallback_snapshot : Session → ℕ → ℕ → ℕ → PriceSnapshot
fallback_snapshot s free_mins rate lost_fee = record {
  version_id = get_or s.building_id default_building;
  rule_id = default_building;
  vehicle_type = vehicle_or_car s.vehicle_type;
  ticket_kind = TicketKind.hourly;
  customer_class = codes "STANDARD";
  discount_percent = 0;
  free_minutes = free_mins;
  initial_minutes = 60;
  initial_fee = rate;
  block_minutes = 60;
  block_fee = rate;
  daily_cap = none;
  overnight_fee = 0;
  lost_ticket_fee = lost_fee;
  overtime_fee = 0;
  day_pass_fee = 0;
  month_pass_fee = 0;
  windows = [];
  entitlement_valid_until = none;
}

abbrev pub snapshot_of : Session → StoredPrice → PriceSnapshot
snapshot_of s (full p) = p
snapshot_of s (legacy free_mins rate lost_fee) =
    fallback_snapshot s (get_or free_mins 15) (get_or rate 5000) (get_or lost_fee 50000)
snapshot_of s missing = fallback_snapshot s 15 5000 50000

unfoldable pub build_price_snapshot_from_tx : Session → Result PriceSnapshot
build_price_snapshot_from_tx s = check_rule (snapshot_of s s.price_snapshot)

-- `transaction.normalized_plate or transaction.license_plate`
abbrev pub plate_of : Session → Option Text
plate_of s = elim (filled s.normalized_plate) [ none ↦ s.license_plate | some p ↦ some p ]

-- The code that the vehicle is looked up by.
abbrev pub lookup_code : Unicode → Session → Option Text
lookup_code u s = elim (filled s.ticket_code) [ none ↦ none | some c ↦ some (upper u (strip u c)) ]

abbrev pub lookup_plate : Unicode → Session → Option Text
lookup_plate u s = elim (filled (plate_of s)) [
  | none ↦ none
  | some p ↦ some (normalize_plate u true p)
]

-- The ticket of a vehicle, as far as it is found.
abbrev pub check_exit_product :
    Unicode
    → Session
    → DateTime
    → Vehicle
    → Subscription
    → Option TicketProduct
    → Result (Option (AccessResult × DateTime))
check_exit_product u s exit_time v sub none = ok none
check_exit_product u s exit_time v sub (some p) =
    if p.active
    then (check_ticket_access u (some (entitlement v sub p)) (assume_utc exit_time) (plate_of s)
          s.ticket_code sub.zone_id
        >>= λ r. ok (some (r, assume_utc sub.valid_until)))
    else ok none

abbrev pub check_exit_subscription :
    Unicode
    → TicketRows
    → Session
    → DateTime
    → Vehicle
    → Option Subscription
    → Result (Option (AccessResult × DateTime))
check_exit_subscription u rows s exit_time v none = ok none
check_exit_subscription u rows s exit_time v (some sub) =
    check_exit_product u s exit_time v sub
      (find (λ (p : TicketProduct). p.id == sub.product_id) rows.products)

abbrev pub check_exit_vehicle :
    Unicode
    → TicketRows
    → Session
    → ℕ
    → DateTime
    → Option Vehicle
    → Result (Option (AccessResult × DateTime))
check_exit_vehicle u rows s b exit_time none = ok none
check_exit_vehicle u rows s b exit_time (some v) = check_exit_subscription u rows s exit_time v (
    find (λ (sub : Subscription). sub.building_id == b && sub.vehicle_id == v.id)
      rows.subscriptions)

abbrev pub verify_in :
    Unicode → TicketRows → Session → DateTime → Option ℕ → Result (Option (AccessResult × DateTime))
verify_in u rows s exit_time none = ok none
verify_in u rows s exit_time (some b) =
    check_exit_vehicle u rows s b exit_time
      (find_vehicle rows b (lookup_code u s) (lookup_plate u s))

-- What the ticket of a session says when it leaves, with the end of the ticket.
unfoldable pub verify_ticket_entitlement_for_checkout :
    Unicode → TicketRows → Session → DateTime → Result (Option (AccessResult × DateTime))
verify_ticket_entitlement_for_checkout u rows s exit_time =
    verify_in u rows s exit_time s.building_id

abbrev pub is_hourly_or_monthly : TicketKind → Bool
is_hourly_or_monthly TicketKind.hourly = true
is_hourly_or_monthly TicketKind.monthly = true
is_hourly_or_monthly _ = false

-- A ticket that is good makes the session a monthly one, a ticket that is not an hourly one.
abbrev pub with_decision : AccessDecision → DateTime → PriceSnapshot → PriceSnapshot
with_decision allow valid_until s = record s {
  ticket_kind = TicketKind.monthly;
  entitlement_valid_until = some valid_until;
}
with_decision deny valid_until s = record s {
  ticket_kind = TicketKind.hourly;
  entitlement_valid_until = none;
}
with_decision review valid_until s = s

abbrev pub with_ticket : Option (AccessResult × DateTime) → PriceSnapshot → PriceSnapshot
with_ticket none s = s
with_ticket (some (r, valid_until)) s = with_decision r.decision valid_until s

-- The snapshot by which the session pays.
unfoldable pub exit_snapshot :
    Unicode → TicketRows → Session → DateTime → PriceSnapshot → Result PriceSnapshot
exit_snapshot u rows s exit_time snapshot =
    if is_hourly_or_monthly snapshot.ticket_kind
    then (verify_ticket_entitlement_for_checkout u rows s exit_time >>= λ t.
        ok (with_ticket t snapshot))
    else ok snapshot

unfoldable pub calculate_parking_fee :
    Unicode → TicketRows → Session → DateTime → Bool → Result FeeResult
unfolding build_price_snapshot_from_tx exit_snapshot
calculate_parking_fee u rows s exit_time is_lost_ticket = do
  snapshot ← build_price_snapshot_from_tx s
  priced ← exit_snapshot u rows s (assume_utc exit_time) snapshot
  calculate_fee priced (assume_utc s.check_in_time) (assume_utc exit_time) is_lost_ticket false
      (pos 0)
