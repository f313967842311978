-- ===== src/Capacity.antt =====
-- Capacity and quota of backend/app/modules/checkin/capacity_quota_stub.py. Ratios are kept as
-- percentages, in whole numbers; a setting that is no finite number is `null`.
pub mod Limits
mod Tests
use vision_park_ai.Prelude.{
  ℕ, Bool, true, false, not, ◌&&◌, ◌||◌, Option, none, some, List, [], ◌∷◌, ltb, if◌then◌else◌,
}
use vision_park_ai.Prelude.Int.{ℤ, pos, ◌+ℤ◌, ◌-ℤ◌, leb_ℤ, ltb_ℤ, eqb_ℤ}
use vision_park_ai.Prelude.Text.{Text, codes, text_eq, is_empty, Unicode, upper}

abbrev pub min_ℤ : ℤ → ℤ → ℤ
min_ℤ a b = if ltb_ℤ b a then b else a

abbrev pub max_ℤ : ℤ → ℤ → ℤ
max_ℤ a b = if ltb_ℤ a b then b else a

pub record CapacityQuotaConfig : Type 0 where
  pub vehicle_type : Text
  pub physical_capacity : ℤ
  pub safe_capacity : ℤ
  pub resident_quota : ℤ
  pub staff_quota : ℤ
  pub nearly_full_percent : ℕ
  pub full_percent : ℕ

abbrev pub config : Text → ℕ → ℕ → ℕ → ℕ → CapacityQuotaConfig
config vehicle_type physical safe residents staff = record {
  vehicle_type = vehicle_type;
  physical_capacity = pos physical;
  safe_capacity = pos safe;
  resident_quota = pos residents;
  staff_quota = pos staff;
  nearly_full_percent = 80;
  full_percent = 95;
}

-- `DEFAULT_CAPACITY_CONFIGS`, with the configuration of any other type.
abbrev pub default_config : Text → CapacityQuotaConfig
default_config vtype =
    if text_eq vtype (codes "CAR")
    then config vtype 120 100 20 10
    else if text_eq vtype (codes "MOTORBIKE")
    then config vtype 250 200 50 20
    else if text_eq vtype (codes "BICYCLE")
    then config vtype 60 50 0 0
    else config vtype 100 80 10 5

-- A number of the settings, which need not be whole: whether it is below nought, its whole part, and
-- whether it has a fraction.
pub record Number : Type 0 where
  pub below : Bool
  pub whole : ℕ
  pub fraction : Bool

abbrev pub number : ℕ → Number
number n = record { below = false; whole = n; fraction = false }

-- `int(x)`, which drops the fraction.
abbrev pub int_of : Number → ℤ
int_of x = if x.below then pos 0 -ℤ pos x.whole else pos x.whole

-- `x > 0`
abbrev pub is_above_zero : Number → Bool
is_above_zero x = not x.below && (ltb 0 x.whole || x.fraction)

-- The entries of one vehicle type under `capacities`, and under `quotas`: a missing key is `none`,
-- a null is `some none`. `other_keys` says that the object has keys that are not read.
pub record CapacityEntry : Type 0 where
  pub safe_capacity : Option (Option Number)
  pub physical_capacity : Option (Option Number)
  pub nearly_full_threshold : Option (Option ℕ)
  pub full_threshold : Option (Option ℕ)
  pub other_keys : Bool

pub record QuotaEntry : Type 0 where
  pub residents : Option (Option Number)
  pub employees : Option (Option Number)
  pub other_keys : Bool

-- `ParkingLot.settings`, as far as it is read here.
pub record LotSettings : Type 0 where
  pub capacities : Text → Option CapacityEntry
  pub quotas : Text → Option QuotaEntry

abbrev pub is_present {ℓ} : {A : Type ℓ} → Option A → Bool
is_present none = false
is_present (some _) = true

-- An empty object is false in a condition.
abbrev pub filled_capacity : Option CapacityEntry → Option CapacityEntry
filled_capacity none = none
filled_capacity (some e) =
    if is_present e.safe_capacity
      || is_present e.physical_capacity
      || is_present e.nearly_full_threshold
      || is_present e.full_threshold
      || e.other_keys
    then some e
    else none

abbrev pub filled_quota : Option QuotaEntry → Option QuotaEntry
filled_quota none = none
filled_quota (some e) =
    if is_present e.residents || is_present e.employees || e.other_keys then some e else none

-- `a or b`
abbrev pub or_else {ℓ} : {A : Type ℓ} → Option A → Option A → Option A
or_else none b = b
or_else (some a) b = some a

abbrev pub no_capacity : CapacityEntry
no_capacity = record {
  safe_capacity = none;
  physical_capacity = none;
  nearly_full_threshold = none;
  full_threshold = none;
  other_keys = false;
}

abbrev pub no_quota : QuotaEntry
no_quota = record { residents = none; employees = none; other_keys = false }

abbrev pub get_or {ℓ} : {A : Type ℓ} → A → Option A → A
get_or default none = default
get_or default (some a) = a

-- The quotas that apply: those of the default where none are set and the safe capacity is above
-- their sum.
abbrev pub quotas_for : CapacityQuotaConfig → ℤ → ℤ → ℤ → ℤ × ℤ
quotas_for default safe residents staff =
    if eqb_ℤ residents (pos 0)
      && eqb_ℤ staff (pos 0)
      && ltb_ℤ (default.resident_quota +ℤ default.staff_quota) safe
    then (default.resident_quota, default.staff_quota)
    else (residents, staff)

-- What the settings give, the capacities being numbers and every other number in place.
abbrev pub configured : CapacityQuotaConfig → Text → ℤ → ℤ → ℕ → ℕ → ℤ → ℤ → CapacityQuotaConfig
configured default vtype safe physical nearly full residents staff = record {
  vehicle_type = vtype;
  physical_capacity = physical;
  safe_capacity = safe;
  resident_quota = (quotas_for default safe residents staff).0;
  staff_quota = (quotas_for default safe residents staff).1;
  nearly_full_percent = nearly;
  full_percent = full;
}

-- The conversions of a null raise, and `except Exception` falls back to the default.
abbrev pub from_numbers :
    CapacityQuotaConfig
    → Text
    → Number
    → Number
    → Option ℕ
    → Option ℕ
    → Option Number
    → Option Number
    → CapacityQuotaConfig
from_numbers default vtype safe physical (some nearly) (some full) (some residents) (some staff) =
    configured default vtype (int_of safe) (int_of physical) nearly full (int_of residents)
      (int_of staff)
from_numbers default vtype safe physical _ _ _ _ = default

abbrev pub from_entries :
    CapacityQuotaConfig → Text → CapacityEntry → QuotaEntry → CapacityQuotaConfig
from_entries default vtype cap quota = elim (get_or none cap.safe_capacity) [
  | none ↦ default
  | some safe ↦ elim (get_or none cap.physical_capacity) [
    | none ↦ default
    | some physical ↦
        if is_above_zero physical
        then from_numbers default vtype safe physical (get_or (some 80) cap.nearly_full_threshold)
            (get_or (some 95) cap.full_threshold) (get_or (some (number 0)) quota.residents)
            (get_or (some (number 0)) quota.employees)
        else default
  ]
]

-- `caps.get(vtype) or caps.get(vtype.lower()) or {}`, and the same of the quotas.
abbrev pub capacity_entry : (Text → Text) → LotSettings → Text → CapacityEntry
capacity_entry lower s vtype =
    get_or no_capacity (
      or_else (filled_capacity (s.capacities vtype)) (filled_capacity (s.capacities (lower vtype))))

abbrev pub quota_entry : (Text → Text) → LotSettings → Text → QuotaEntry
quota_entry lower s vtype =
    get_or no_quota
      (or_else (filled_quota (s.quotas vtype)) (filled_quota (s.quotas (lower vtype))))

-- `get_capacity_settings_stub` with the settings of the building's lot, `none` where there is no
-- building or no lot. `lower` is `str.lower`.
unfoldable pub get_capacity_settings_stub :
    Unicode → (Text → Text) → Option LotSettings → Text → CapacityQuotaConfig
get_capacity_settings_stub u lower none vehicle_type = default_config (upper u vehicle_type)
get_capacity_settings_stub u lower (some s) vehicle_type =
    let vtype = upper u vehicle_type in
    from_entries (default_config vtype) vtype (capacity_entry lower s vtype)
      (quota_entry lower s vtype)

-- `(customer_class or "VISITOR").upper() in ("RESIDENT", "STAFF")`
abbrev pub is_privileged : Unicode → Text → Bool
is_privileged u customer_class =
    let cls = upper u (if is_empty customer_class then codes "VISITOR" else customer_class) in
    text_eq cls (codes "RESIDENT") || text_eq cls (codes "STAFF")

unfoldable pub calculate_effective_capacity_limit : Unicode → CapacityQuotaConfig → Text → ℤ
calculate_effective_capacity_limit u cfg customer_class =
    if is_privileged u customer_class
    then cfg.physical_capacity
    else max_ℤ (pos 0)
        (cfg.safe_capacity -ℤ min_ℤ cfg.safe_capacity (cfg.resident_quota +ℤ cfg.staff_quota))

-- Whether `check_capacity_and_quota_stub` lets a vehicle in; its message is left out.
unfoldable pub check_capacity_and_quota_stub : Unicode → CapacityQuotaConfig → ℤ → Text → Bool
check_capacity_and_quota_stub u cfg current_occupied customer_class =
    ltb_ℤ current_occupied (calculate_effective_capacity_limit u cfg customer_class)
