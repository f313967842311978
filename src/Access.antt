-- ===== src/Access.antt =====
-- Access control at check-in: backend/app/modules/checkin/access_control.py. Messages are left out,
-- so a decision is ALLOW, DENY or REVIEW alone, and so are the guards against mock objects.
pub mod Allowed
mod Tests
use vision_park_ai.Prelude.{
  ℕ, Bool, true, false, not, ◌&&◌, ◌||◌, Option, none, some, List, [], ◌∷◌, ◌==◌, if◌then◌else◌,
}
use vision_park_ai.Prelude.Int.{ℤ}
use vision_park_ai.Prelude.Text.{
  Text, codes, text_eq, text_is, filled, is_filled, is_empty, Unicode, upper, strip,
}
use vision_park_ai.Errors.{Result, ok, raise, ◌>>=◌}
use vision_park_ai.Clock.{DateTime, assume_utc}
use vision_park_ai.Tables.{find}
use vision_park_ai.Ledger.{option_eq}
use vision_park_ai.Ticket.{
  TicketKind, AccessDecision, Reason, AccessResult, TicketEntitlement, check_ticket_access, allow,
  deny, review, expired, not_yet_valid,
}
use vision_park_ai.Plate.{normalize_plate}
use vision_park_ai.Capacity.{CapacityQuotaConfig, check_capacity_and_quota_stub}
use vision_park_ai.Counters.{ParkingCounter, CounterStore, get_or_create_counter}

pub record Vehicle : Type 0 where
  pub id : ℕ
  pub building_id : ℕ
  pub normalized_plate : Option Text
  pub ticket_code : Option Text

pub record Subscription : Type 0 where
  pub building_id : ℕ
  pub vehicle_id : ℕ
  pub product_id : ℕ
  pub zone_id : Option ℕ
  pub valid_from : DateTime
  pub valid_until : DateTime
  pub grace_days : ℕ

pub record TicketProduct : Type 0 where
  pub id : ℕ
  pub kind : TicketKind
  pub vehicle_type : Text
  pub active : Bool

-- Subscriptions are in the order of the query, the latest end first.
pub record TicketRows : Type 0 where
  pub vehicles : List Vehicle
  pub subscriptions : List Subscription
  pub products : List TicketProduct

-- What a car shows at the lane.
pub record Arrival : Type 0 where
  pub license_plate : Option Text
  pub vehicle_type : Text
  pub ticket_code : Option Text
  pub zone_id : Option ℕ
  pub at : DateTime

abbrev pub blacklist : List Text
blacklist = codes "29A99999" ∷ codes "BLACKLIST123" ∷ []

abbrev pub is_member : Text → List Text → Bool
is_member t [] = false
is_member t (s ∷ ss) = if text_eq t s then true else is_member t ss

unfoldable pub check_blacklist_stub : Unicode → Option Text → Bool
check_blacklist_stub u license_plate = elim (filled license_plate) [
  | none ↦ false
  | some p ↦ is_member (normalize_plate u true p) blacklist
]

abbrev pub shown_plate : Unicode → Arrival → Option Text
shown_plate u a = elim (filled a.license_plate) [
  | none ↦ none
  | some p ↦ some (normalize_plate u true p)
]

abbrev pub shown_code : Unicode → Arrival → Option Text
shown_code u a = elim (filled a.ticket_code) [ none ↦ none | some c ↦ some (upper u (strip u c)) ]

-- The vehicle of the code, or else of the plate.
abbrev pub find_vehicle : TicketRows → ℕ → Option Text → Option Text → Option Vehicle
find_vehicle rows b (some c) plate =
    find (λ (v : Vehicle). v.building_id == b && text_is v.ticket_code c) rows.vehicles
find_vehicle rows b none (some p) =
    find (λ (v : Vehicle). v.building_id == b && text_is v.normalized_plate p) rows.vehicles
find_vehicle rows b none none = none

abbrev pub entitlement : Vehicle → Subscription → TicketProduct → TicketEntitlement
entitlement v s p = record {
  kind = p.kind;
  plate = v.normalized_plate;
  ticket_code = v.ticket_code;
  zone_id = s.zone_id;
  valid_from = assume_utc s.valid_from;
  valid_until = assume_utc s.valid_until;
  grace_days = s.grace_days;
  invite_free_minutes = 0;
}

-- A ticket out of its time is no reason to refuse: the car comes in as a visitor.
abbrev pub decision_of : AccessResult → AccessDecision
decision_of r = elim r.decision [
  | allow ↦ allow
  | review ↦ review
  | deny ↦ elim r.reason [ expired ↦ allow | not_yet_valid ↦ allow | _ ↦ deny ]
]

abbrev pub zone_or : Option ℕ → Option ℕ → Option ℕ
zone_or none z = z
zone_or (some a) z = some a

-- The ticket of a vehicle whose product is found.
abbrev pub check_product :
    Unicode → Arrival → Vehicle → Subscription → TicketProduct → Result AccessDecision
check_product u a v s p =
    if not p.active
    then ok review
    else if not (text_eq p.vehicle_type a.vehicle_type)
    then ok deny
    else (check_ticket_access u (some (entitlement v s p)) (assume_utc a.at) (shown_plate u a)
          (shown_code u a) (zone_or a.zone_id s.zone_id)
        >>= λ r. ok (decision_of r))

abbrev pub check_subscription :
    Unicode → TicketRows → Arrival → Vehicle → Option Subscription → Result AccessDecision
check_subscription u rows a v none = ok allow
check_subscription u rows a v (some s) =
    elim (find (λ (p : TicketProduct). p.id == s.product_id) rows.products) [
      | none ↦ ok review
      | some p ↦ check_product u a v s p
    ]

abbrev pub check_vehicle :
    Unicode → TicketRows → ℕ → Arrival → Option Vehicle → Result AccessDecision
check_vehicle u rows b a none = ok allow
check_vehicle u rows b a (some v) =
    check_subscription u rows a v
      (find (λ (s : Subscription). s.building_id == b && s.vehicle_id == v.id) rows.subscriptions)

unfoldable pub verify_ticket_entitlement_for_checkin :
    Unicode → TicketRows → Option ℕ → Arrival → Result AccessDecision
verify_ticket_entitlement_for_checkin u rows none a = ok allow
verify_ticket_entitlement_for_checkin u rows (some b) a =
    check_vehicle u rows b a
      (find_vehicle rows b (filled (shown_code u a)) (filled (shown_plate u a)))

unfoldable pub check_access_control :
    Unicode → TicketRows → Option ℕ → Arrival → Result AccessDecision
check_access_control u rows b a =
    if check_blacklist_stub u a.license_plate
    then ok deny
    else verify_ticket_entitlement_for_checkin u rows b a

-- The lane's type: `none` for ALL.
abbrev pub lane_differs : Option Text → Text → Bool
lane_differs none t = false
lane_differs (some s) t = not (text_eq s t)

-- The last step: the counter of the type, which is made if there is none, and its limit.
abbrev pub check_space :
    Unicode
    → CapacityQuotaConfig
    → ℕ
    → CounterStore
    → Option ℕ
    → Text
    → Text
    → AccessDecision × CounterStore
check_space u cfg id db b vehicle_type customer_class =
    let (counter, found) = get_or_create_counter u id db b vehicle_type in
    (
      if check_capacity_and_quota_stub u cfg counter.occupied customer_class then allow else deny,
      found,
    )

-- What follows a decision on blacklist and ticket; `override` is the reason of an override, if any.
abbrev pub after_ticket :
    AccessDecision
    → Option Text
    → AccessDecision × CounterStore
    → CounterStore
    → AccessDecision × CounterStore
after_ticket allow override space db = space
after_ticket deny override space db = (deny, db)
after_ticket review override space db = (if is_filled override then allow else review, db)

unfoldable pub evaluate_access_control :
    Unicode
    → TicketRows
    → CapacityQuotaConfig
    → ℕ
    → CounterStore
    → Option Text
    → Option ℕ
    → Arrival
    → Text
    → Option Text
    → Result (AccessDecision × CounterStore)
evaluate_access_control u rows cfg id db lane_type b a customer_class override =
    if lane_differs lane_type a.vehicle_type
    then ok (deny, db)
    else if text_eq a.vehicle_type (codes "BICYCLE") && not (is_filled a.ticket_code)
    then ok (deny, db)
    else (check_access_control u rows b a >>= λ d.
        ok (after_ticket d override (check_space u cfg id db b a.vehicle_type customer_class) db))
