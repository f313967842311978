-- ===== src/Ticket.antt =====
-- `TicketEntitlement` and `check_ticket_access` of backend/app/modules/pricing/domain.py.
pub mod Decisions
mod Tests
use vision_park_ai.Prelude.{
  ℕ, ◌+◌, ◌*◌, Bool, true, false, not, ◌&&◌, ◌||◌, Option, none, some, ltb, leb, ◌==◌,
  if◌then◌else◌,
}
use vision_park_ai.Prelude.Text.{Text, text_eq, is_empty, Unicode, upper}
use vision_park_ai.Errors.{Result, ok, value_error, raise_if, ◌>>◌}
use vision_park_ai.Clock.{DateTime, is_naive, day}
use mathlib.Core.List.{[]}

pub data TicketKind : Type 0 where
  hourly daily monthly night : TicketKind

pub data AccessDecision : Type 0 where
  allow deny review : AccessDecision

pub data Reason : Type 0 where
  no_ticket wrong_zone plate_mismatch ticket_code_mismatch : Reason
  not_yet_valid valid grace_period expired : Reason

pub record TicketEntitlement : Type 0 where
  pub kind : TicketKind
  pub plate : Option Text
  pub ticket_code : Option Text
  pub zone_id : Option ℕ
  pub valid_from : DateTime
  pub valid_until : DateTime
  pub grace_days : ℕ
  pub invite_free_minutes : ℕ

pub record AccessResult : Type 0 where
  pub decision : AccessDecision
  pub reason : Reason
  pub free_minutes : ℕ

-- `AccessResult(decision=…, reason=…)`, with the default of no free minutes.
abbrev pub decide_as : AccessDecision → Reason → AccessResult
decide_as d r = record { decision = d; reason = r; free_minutes = 0 }

-- `plate or ""`
abbrev pub or_blank : Option Text → Text
or_blank none = []
or_blank (some s) = s

-- `ticket.zone_id is not None and ticket.zone_id != zone_id`
abbrev pub zone_differs : Option ℕ → Option ℕ → Bool
zone_differs none z = false
zone_differs (some a) none = true
zone_differs (some a) (some b) = not (a == b)

-- `ticket.plate and (plate or "").upper() != ticket.plate.upper()`
abbrev pub plate_differs : Unicode → Option Text → Option Text → Bool
plate_differs u none plate = false
plate_differs u (some p) plate =
    if is_empty p then false else not (text_eq (upper u (or_blank plate)) (upper u p))

-- `ticket.ticket_code and ticket.ticket_code != ticket_code`
abbrev pub code_differs : Option Text → Option Text → Bool
code_differs none code = false
code_differs (some c) none = not (is_empty c)
code_differs (some c) (some d) = if is_empty c then false else not (text_eq c d)

abbrev pub is_monthly : TicketKind → Bool
is_monthly TicketKind.monthly = true
is_monthly _ = false

-- The tests on time, once the ticket belongs to this car.
unfoldable pub check_validity : TicketEntitlement → ℕ → AccessResult
check_validity t at =
    if ltb at t.valid_from.instant
    then decide_as deny not_yet_valid
    else if leb at t.valid_until.instant
    then record { decision = allow; reason = valid; free_minutes = t.invite_free_minutes }
    else if is_monthly t.kind && leb at (t.valid_until.instant + t.grace_days * day)
    then decide_as allow grace_period
    else decide_as deny expired

-- The tests on a ticket whose times are in order.
unfoldable pub check_match :
    Unicode → TicketEntitlement → ℕ → Option Text → Option Text → Option ℕ → AccessResult
check_match u t at plate code zone_id =
    if zone_differs t.zone_id zone_id
    then decide_as deny wrong_zone
    else if plate_differs u t.plate plate
    then decide_as review plate_mismatch
    else if code_differs t.ticket_code code
    then decide_as review ticket_code_mismatch
    else check_validity t at

unfoldable pub check_ticket_access :
    Unicode
    → Option TicketEntitlement
    → DateTime
    → Option Text
    → Option Text
    → Option ℕ
    → Result AccessResult
check_ticket_access u none at plate code zone_id = ok (decide_as review no_ticket)
check_ticket_access u (some t) at plate code zone_id = do
  raise_if (is_naive at || is_naive t.valid_from || is_naive t.valid_until) value_error
  raise_if (ltb t.valid_until.instant t.valid_from.instant) value_error
  ok (check_match u t at.instant plate code zone_id)
