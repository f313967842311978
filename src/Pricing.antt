-- ===== src/Pricing.antt =====
-- Price versions: backend/app/modules/pricing/service.py, over `CustomerClass`, `PricingVersion` and
-- `PricingRule` of backend/app/modules/pricing/models.py. The building's row is locked while a
-- version is made. Requests are those that their models accept.
pub mod Newest
pub mod Stable
pub mod Current
mod Tests
use vision_park_ai.Prelude.{
  ℕ, ◌+◌, max, Bool, true, false, not, ◌&&◌, ◌||◌, Option, none, some, List, [], ◌∷◌, ◌++◌, ◌==◌,
  ltb, leb, any, select, if◌then◌else◌,
}
use vision_park_ai.Prelude.Int.{pos}
use vision_park_ai.Prelude.Text.{Text, text_eq}
use vision_park_ai.Errors.{
  Result, ok, raise, app_error, value_error, raise_if, or_raise, ◌>>=◌, ◌>>◌, building_not_found,
  invalid_customer_class, price_unavailable, pricing_version_conflict,
}
use vision_park_ai.Clock.{DateTime, is_naive}
use vision_park_ai.Tables.{find}
use vision_park_ai.Ticket.{TicketKind, hourly, daily, monthly, night}
use vision_park_ai.Fee.Snapshot.{PriceSnapshot, check_rule}
use vision_park_ai.Fee.{FeeResult, calculate_fee}

pub record CustomerClass : Type 0 where
  pub id : ℕ
  pub building_id : ℕ
  pub code : Text
  pub discount_percent : ℕ
  pub active : Bool

pub record PricingVersion : Type 0 where
  pub id : ℕ
  pub building_id : ℕ
  pub version_number : ℕ
  pub active_from : DateTime
  pub created_by_id : ℕ

-- `rule_data` has the other fields of a snapshot; those that name the rule are put in when it is
-- read.
pub record PricingRule : Type 0 where
  pub id : ℕ
  pub version_id : ℕ
  pub vehicle_type : Text
  pub ticket_kind : TicketKind
  pub customer_class_id : ℕ
  pub rule_data : PriceSnapshot

-- `audit` are the versions whose creation the audit log has, with who made them.
pub record PriceStore : Type 0 where
  pub buildings : List ℕ
  pub classes : List CustomerClass
  pub versions : List PricingVersion
  pub rules : List PricingRule
  pub audit : List (ℕ × ℕ)

-- `values` has the fields of the rule; of the others a snapshot has, none is read.
pub record PricingRuleInput : Type 0 where
  pub vehicle_type : Text
  pub ticket_kind : TicketKind
  pub customer_class_id : ℕ
  pub values : PriceSnapshot

pub record PricingVersionCreate : Type 0 where
  pub active_from : DateTime
  pub rules : List PricingRuleInput

-- The condition of the query for the versions in force.
abbrev pub in_force : ℕ → DateTime → PricingVersion → Bool
in_force b at v = v.building_id == b && leb v.active_from.instant at.instant

unfoldable pub has_effective_pricing : PriceStore → ℕ → DateTime → Bool
has_effective_pricing db b at = any (in_force b at) db.versions

-- Whether a version comes before another in the order of the query: later start, then higher
-- number.
abbrev pub is_newer : PricingVersion → PricingVersion → Bool
is_newer v w =
    ltb w.active_from.instant v.active_from.instant
    || ((v.active_from.instant == w.active_from.instant) && ltb w.version_number v.version_number)

-- The first of the sorted versions.
abbrev pub newer : PricingVersion → Option PricingVersion → PricingVersion
newer v none = v
newer v (some w) = if is_newer w v then w else v

unfoldable pub newest : List PricingVersion → Option PricingVersion
newest [] = none
newest (v ∷ vs) = some (newer v (newest vs))

abbrev pub kind_eq : TicketKind → TicketKind → Bool
kind_eq hourly hourly = true
kind_eq daily daily = true
kind_eq monthly monthly = true
kind_eq night night = true
kind_eq _ _ = false

abbrev pub class_in : ℕ → ℕ → CustomerClass → Bool
class_in k b c = (c.id == k) && ((c.building_id == b) && c.active)

abbrev pub rule_for : ℕ → Text → TicketKind → ℕ → PricingRule → Bool
rule_for version_id vehicle_type ticket_kind class_id r =
    (r.version_id == version_id)
    && (text_eq r.vehicle_type vehicle_type
        && (kind_eq r.ticket_kind ticket_kind && (r.customer_class_id == class_id)))

abbrev pub snapshot_of :
    Text → TicketKind → PricingVersion → CustomerClass → PricingRule → PriceSnapshot
snapshot_of vehicle_type ticket_kind v c r = record r.rule_data {
  version_id = v.id;
  rule_id = r.id;
  vehicle_type = vehicle_type;
  ticket_kind = ticket_kind;
  customer_class = c.code;
}

unfoldable pub select_price_snapshot :
    PriceStore → ℕ → Text → TicketKind → ℕ → DateTime → Result PriceSnapshot
select_price_snapshot db b vehicle_type ticket_kind class_id at = do
  raise_if (is_naive at) value_error
  v ← or_raise (newest (select (in_force b at) db.versions)) (app_error 409 price_unavailable)
  c ← or_raise (find (class_in class_id b) db.classes) (app_error 422 invalid_customer_class)
  r ←
      or_raise (find (rule_for v.id vehicle_type ticket_kind class_id) db.rules)
        (app_error 409 price_unavailable)
  check_rule (snapshot_of vehicle_type ticket_kind v c r)

-- `func.max(version_number) or 0`, of the versions of a building.
unfoldable pub last_number : ℕ → List PricingVersion → ℕ
last_number b [] = 0
last_number b (v ∷ vs) =
    if v.building_id == b then max v.version_number (last_number b vs) else last_number b vs

abbrev pub class_of : ℕ → ℕ → CustomerClass → Bool
class_of k b c = (c.id == k) && (c.building_id == b)

-- The rows of the rules, with the discounts of their classes; `id` is the key of the first. A class
-- that is not of the building is refused.
unfoldable pub rule_rows :
    ℕ → ℕ → List CustomerClass → ℕ → List PricingRuleInput → Result (List PricingRule)
rule_rows b version_id classes id [] = ok []
rule_rows b version_id classes id (r ∷ rs) = do
  c ←
      or_raise (find (class_of r.customer_class_id b) classes)
        (app_error 422 invalid_customer_class)
  rows ← rule_rows b version_id classes (id + 1) rs
  ok (
      record {
        id = id;
        version_id = version_id;
        vehicle_type = r.vehicle_type;
        ticket_kind = r.ticket_kind;
        customer_class_id = r.customer_class_id;
        rule_data = record r.values {
          discount_percent = c.discount_percent;
          entitlement_valid_until = none;
        };
      }
      ∷ rows)

abbrev pub new_version : ℕ → PriceStore → ℕ → ℕ → PricingVersionCreate → PricingVersion
new_version id db b actor_id payload = record {
  id = id;
  building_id = b;
  version_number = last_number b db.versions + 1;
  active_from = payload.active_from;
  created_by_id = actor_id;
}

-- `id` and `rule_id` are the keys of the new rows, and `conflict` says that the commit met an
-- IntegrityError.
unfoldable pub create_pricing_version :
    ℕ → ℕ → Bool → PriceStore → ℕ → ℕ → PricingVersionCreate → Result (PricingVersion × PriceStore)
create_pricing_version id rule_id conflict db b actor_id payload = do
  raise_if (not (any (λ k. k == b) db.buildings)) (app_error 404 building_not_found)
  rows ← rule_rows b id db.classes rule_id payload.rules
  raise_if conflict (app_error 409 pricing_version_conflict)
  let v = new_version id db b actor_id payload
  ok (
    v,
    record db {
      versions = v ∷ db.versions;
      rules = rows ++ db.rules;
      audit = (actor_id, id) ∷ db.audit;
    },
  )

pub record PricingPreviewRequest : Type 0 where
  pub vehicle_type : Text
  pub ticket_kind : TicketKind
  pub customer_class_id : ℕ
  pub check_in : DateTime
  pub check_out : DateTime
  pub lost_ticket : Bool
  pub overtime : Bool
  pub extra_free_minutes : ℕ

unfoldable pub preview_fee : PriceStore → ℕ → PricingPreviewRequest → Result FeeResult
preview_fee db b request = do
  snapshot ←
      select_price_snapshot db b request.vehicle_type request.ticket_kind request.customer_class_id
        request.check_in
  calculate_fee snapshot request.check_in request.check_out request.lost_ticket request.overtime
      (pos request.extra_free_minutes)
