-- ===== src/Fee/Formula.antt =====
-- The fee of a stay as a plain formula, beside the lines of `calculate_fee`.
use vision_park_ai.Prelude.{ℕ, ◌+◌, ◌-◌, ◌*◌, ◌/◌, max, ◌≡◌, Bool, false, none, some, if◌then◌else◌}
use vision_park_ai.Clock.{DateTime, is_naive, local_day}
use vision_park_ai.Ticket.{TicketKind}
use vision_park_ai.Fee.Snapshot.{PriceSnapshot}
use vision_park_ai.Fee.{units, minutes_between, is_pass}
use vision_park_ai.Fee.Days.{day_total}

-- The fee for the time parked, by the kind of ticket.
abbrev pub duration_fee : PriceSnapshot → TicketKind → ℕ → ℕ
duration_fee s TicketKind.daily billable = units billable 1440 * s.day_pass_fee
duration_fee s TicketKind.monthly billable = units billable 43200 * s.month_pass_fee
duration_fee s _ billable = day_total s billable

-- The same with a running pass: only the minutes after its end count.
abbrev pub parking_fee : PriceSnapshot → ℕ → ℕ → ℕ → ℕ
parking_fee s check_in check_out free =
    let plain = duration_fee s s.ticket_kind (minutes_between check_in check_out - free) in
    elim s.entitlement_valid_until [
      | none ↦ plain
      | some until ↦
          if is_pass s.ticket_kind
          then day_total s (minutes_between (max check_in until.instant) check_out - free)
          else plain
    ]

abbrev pub surcharge_fee : PriceSnapshot → ℕ → Bool → Bool → ℕ
surcharge_fee s nights lost over =
    nights * s.overnight_fee
    + ((if lost then s.lost_ticket_fee else 0) + (if over then s.overtime_fee else 0))

-- From when nights count.
abbrev pub night_start : PriceSnapshot → ℕ → ℕ
night_start s check_in = elim s.entitlement_valid_until [
  | none ↦ check_in
  | some until ↦ max check_in until.instant
]

abbrev pub nights_between : PriceSnapshot → DateTime → DateTime → ℕ
nights_between s i o = local_day o.instant i.zone - local_day (night_start s i.instant) i.zone

abbrev pub PassIsAware : PriceSnapshot → Type 0
PassIsAware s = elim s.entitlement_valid_until [ none ↦ Unit | some until ↦ is_naive until ≡ false ]

-- The fee before the discount.
abbrev pub gross_fee : PriceSnapshot → DateTime → DateTime → Bool → Bool → ℕ → ℕ
gross_fee s i o lost over extra =
    parking_fee s i.instant o.instant (s.free_minutes + extra)
    + surcharge_fee s (nights_between s i o) lost over

-- The discount, on the fee for the time parked alone.
abbrev pub discount_fee : PriceSnapshot → DateTime → DateTime → ℕ → ℕ
discount_fee s i o extra =
    parking_fee s i.instant o.instant (s.free_minutes + extra) * s.discount_percent / 100
