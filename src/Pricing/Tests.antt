-- ===== src/Pricing/Tests.antt =====
-- Runs of the price versions, and their theorems at them.
use vision_park_ai.Prelude.{arith, ◌≡◌, refl, true, false, inl, [], ◌∷◌}
use vision_park_ai.Prelude.Text.{codes}
use vision_park_ai.Errors.{ok}
use vision_park_ai.Clock.{utc}
use vision_park_ai.Tables.{find}
use vision_park_ai.Ticket.{TicketKind}
use vision_park_ai.Fee.Snapshot.{PriceSnapshot, check_rule}
use vision_park_ai.Fee.Tests.{hourly_rule}
use vision_park_ai.Pricing.{
  CustomerClass, PricingVersion, PricingRule, PriceStore, PricingRuleInput, PricingVersionCreate,
  newest, last_number, rule_rows, select_price_snapshot, create_pricing_version,
}
use vision_park_ai.Pricing.Stable.{create_pricing_version-select_price_snapshot}
use vision_park_ai.Pricing.Current.{create_pricing_version-version_id}

abbrev visitor : CustomerClass
visitor = record {
  id = 4;
  building_id = 1;
  code = codes "VISITOR";
  discount_percent = 10;
  active = true;
}

abbrev rule_input : PricingRuleInput
rule_input = record {
  vehicle_type = codes "CAR";
  ticket_kind = TicketKind.hourly;
  customer_class_id = 4;
  values = hourly_rule;
}

abbrev old_rule : PricingRule
old_rule = record {
  id = 1;
  version_id = 7;
  vehicle_type = codes "CAR";
  ticket_kind = TicketKind.hourly;
  customer_class_id = 4;
  rule_data = hourly_rule;
}

abbrev new_rule : PricingRule
new_rule = record {
  id = 2;
  version_id = 8;
  vehicle_type = codes "CAR";
  ticket_kind = TicketKind.hourly;
  customer_class_id = 4;
  rule_data = hourly_rule;
}

abbrev old_version : PricingVersion
old_version = record {
  id = 7;
  building_id = 1;
  version_number = 1;
  active_from = utc 100;
  created_by_id = 3;
}

abbrev made_version : PricingVersion
made_version = record {
  id = 8;
  building_id = 1;
  version_number = 2;
  active_from = utc 500;
  created_by_id = 3;
}

abbrev before : PriceStore
before = record {
  buildings = 1 ∷ [];
  classes = visitor ∷ [];
  versions = old_version ∷ [];
  rules = old_rule ∷ [];
  audit = [];
}

abbrev after : PriceStore
after = record {
  buildings = 1 ∷ [];
  classes = visitor ∷ [];
  versions = made_version ∷ old_version ∷ [];
  rules = new_rule ∷ old_rule ∷ [];
  audit = (3, 8) ∷ [];
}

abbrev request : PricingVersionCreate
request = record { active_from = utc 500; rules = rule_input ∷ [] }

made : create_pricing_version 8 2 false before 1 3 request ≡ ok (made_version, after)
unfolding create_pricing_version rule_rows last_number find
made = refl

-- The old version's price, and after the start of the new one its own.
price_before :
    select_price_snapshot after 1 (codes "CAR") TicketKind.hourly 4 (utc 499) ≡ ok hourly_rule
unfolding select_price_snapshot newest find check_rule
price_before = refl

abbrev new_price : PriceSnapshot
new_price = record hourly_rule { version_id = 8; rule_id = 2 }

price_after :
    select_price_snapshot after 1 (codes "CAR") TicketKind.hourly 4 (utc 500) ≡ ok new_price
unfolding select_price_snapshot newest find check_rule
price_after = refl

create_pricing_version-select_price_snapshot_example :
    select_price_snapshot after 1 (codes "CAR") TicketKind.hourly 4 (utc 499)
    ≡ select_price_snapshot before 1 (codes "CAR") TicketKind.hourly 4 (utc 499)
create_pricing_version-select_price_snapshot_example =
    create_pricing_version-select_price_snapshot 8 2 false before 1 3 request made_version after
      ((ground arith), tt) made 1 (utc 499) (inl (omega arith)) (codes "CAR") TicketKind.hourly 4

create_pricing_version-version_id_example : new_price.version_id ≡ 8
create_pricing_version-version_id_example =
    create_pricing_version-version_id 8 2 false before 1 3 request made_version after made (utc 500)
      (omega arith) ((λ _. omega arith), tt) (codes "CAR") TicketKind.hourly 4 new_price price_after
