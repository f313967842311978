-- ===== src/Fee.antt =====
-- `FeeLine`, `FeeResult` and `calculate_fee` of backend/app/modules/pricing/domain.py.
pub mod Snapshot
pub mod Days
pub mod Formula
pub mod Lines
pub mod Total
pub mod Monotone
pub mod Refused
pub mod Tests
use vision_park_ai.Prelude.{
  ℕ, zero, suc, ◌+◌, ◌-◌, ◌*◌, ◌/◌, min, max, Bool, true, false, ◌&&◌, ◌||◌, Option, none, some,
  List, [], ◌∷◌, ◌++◌, ltb, leb, ◌==◌, if◌then◌else◌,
}
use vision_park_ai.Prelude.Int.{ℤ, pos, negsuc, pos_part, sub_ℕ, ltb_ℤ, ◌+ℤ◌, ◌-ℤ◌}
use vision_park_ai.Errors.{Result, ok, raise, value_error, type_error, raise_if, ◌>>=◌, ◌>>◌}
use vision_park_ai.Clock.{DateTime, is_naive, minute, local_day, ceil_div}
use vision_park_ai.Ticket.{TicketKind}
use Snapshot.{PriceSnapshot}

pub data LineCode : Type 0 where
  pass_overage day_pass month_pass parking_day : LineCode
  overnight lost_ticket overtime discount : LineCode

pub record FeeLine : Type 0 where
  pub code : LineCode
  pub amount : ℤ
  pub quantity : ℕ

pub record FeeResult : Type 0 where
  pub total : ℤ
  pub price_version_id : ℕ
  pub lines : List FeeLine

-- A line whose amount is not negative.
abbrev pub charge : LineCode → ℕ → ℕ → FeeLine
charge c a q = record { code = c; amount = pos a; quantity = q }

abbrev pub is_discount : LineCode → Bool
is_discount LineCode.discount = true
is_discount _ = false

-- `check_amount`: whether a line passes its validator.
abbrev pub check_amount : FeeLine → Bool
check_amount l = if ltb_ℤ l.amount (pos 0) then is_discount l.code else true

abbrev pub check_amounts : List FeeLine → Bool
check_amounts [] = true
check_amounts (l ∷ ls) = if check_amount l then check_amounts ls else false

abbrev pub apply_cap : Option ℕ → ℕ → ℕ
apply_cap none amount = amount
apply_cap (some cap) amount = min amount cap

-- The fee of one stretch of at most a day.
unfoldable pub chunk_fee : PriceSnapshot → ℕ → ℕ
chunk_fee s chunk =
    let blocks = ceil_div (chunk - s.initial_minutes) s.block_minutes in
    apply_cap s.daily_cap ((if chunk == 0 then 0 else s.initial_fee) + blocks * s.block_fee)

-- The loop `while remaining`: each round takes a chunk of at most 1440 minutes.
unfoldable pub day_lines : LineCode → PriceSnapshot → ℕ → ℕ → ℕ → List FeeLine
day_lines code s zero remaining day_index = []
day_lines code s (suc fuel) remaining day_index =
    let chunk = min remaining 1440 in
    let rest = day_lines code s fuel (remaining - chunk) (day_index + 1) in
    if remaining == 0 then [] else charge code (chunk_fee s chunk) (day_index + 1) ∷ rest

-- `max(1, ceil(billable / unit)) if billable else 0`
abbrev pub units : ℕ → ℕ → ℕ
units billable unit = if billable == 0 then 0 else max 1 (ceil_div billable unit)

-- Minutes begun between two instants, none if they are in the other order.
abbrev pub minutes_between : ℕ → ℕ → ℕ
minutes_between start stop = ceil_div (stop - start) minute

unfoldable pub duration_lines : PriceSnapshot → TicketKind → ℕ → List FeeLine
duration_lines s TicketKind.daily billable =
    charge LineCode.day_pass (units billable 1440 * s.day_pass_fee) (units billable 1440) ∷ []
duration_lines s TicketKind.monthly billable =
    charge LineCode.month_pass (units billable 43200 * s.month_pass_fee) (units billable 43200) ∷ []
duration_lines s _ billable = day_lines LineCode.parking_day s billable billable 0

abbrev pub is_pass : TicketKind → Bool
is_pass TicketKind.daily = true
is_pass TicketKind.monthly = true
is_pass _ = false

-- The lines for the time parked; `free` is the snapshot's and the extra free minutes together.
unfoldable pub base_lines : PriceSnapshot → ℕ → ℕ → ℕ → Result (List FeeLine)
unfolding duration_lines day_lines
base_lines s check_in check_out free =
    let plain = duration_lines s s.ticket_kind (minutes_between check_in check_out - free) in
    elim s.entitlement_valid_until [
      | none ↦ ok plain
      | some until ↦
          if is_pass s.ticket_kind
          then raise_if (is_naive until) value_error
            >> (let over = minutes_between (max check_in until.instant) check_out - free in
                ok (day_lines LineCode.pass_overage s over over 0))
          else ok plain
    ]

-- From when nights are charged; to compare with a naive pass end is a TypeError.
unfoldable pub overnight_start : PriceSnapshot → ℕ → Result ℕ
overnight_start s check_in = elim s.entitlement_valid_until [
  | none ↦ ok check_in
  | some until ↦ if is_naive until then raise type_error else ok (max check_in until.instant)
]

-- One line if it is due and its fee is not zero.
abbrev pub surcharge : Bool → LineCode → ℕ → ℕ → List FeeLine
surcharge due code fee quantity =
    if due && ltb 0 fee then charge code (quantity * fee) quantity ∷ [] else []

unfoldable pub surcharges : PriceSnapshot → ℕ → Bool → Bool → List FeeLine
surcharges s nights lost over =
    surcharge (ltb 0 nights) LineCode.overnight s.overnight_fee nights
    ++ (surcharge lost LineCode.lost_ticket s.lost_ticket_fee 1
        ++ surcharge over LineCode.overtime s.overtime_fee 1)

-- `sum(line.amount for line in lines)`
unfoldable pub sum_amounts : List FeeLine → ℤ
sum_amounts [] = pos 0
sum_amounts (l ∷ ls) = l.amount +ℤ sum_amounts ls

abbrev pub is_eligible : LineCode → Bool
is_eligible LineCode.parking_day = true
is_eligible LineCode.day_pass = true
is_eligible LineCode.month_pass = true
is_eligible LineCode.pass_overage = true
is_eligible _ = false

unfoldable pub eligible_sum : List FeeLine → ℤ
eligible_sum [] = pos 0
eligible_sum (l ∷ ls) = if is_eligible l.code then l.amount +ℤ eligible_sum ls else eligible_sum ls

-- `amount * percent // 100`, rounded down as Python does.
abbrev pub percent_of : ℤ → ℕ → ℤ
percent_of (pos n) p = pos (n * p / 100)
percent_of (negsuc n) p = sub_ℕ 0 (ceil_div (suc n * p) 100)

abbrev pub is_zero : ℤ → Bool
is_zero (pos n) = n == 0
is_zero (negsuc n) = false

abbrev pub discount_lines : ℤ → List FeeLine
discount_lines d =
    if is_zero d
    then []
    else record { code = LineCode.discount; amount = pos 0 -ℤ d; quantity = 1 } ∷ []

unfoldable pub with_discount : PriceSnapshot → List FeeLine → List FeeLine
with_discount s lines = lines ++ discount_lines (percent_of (eligible_sum lines) s.discount_percent)

-- `FeeResult(…)`, with the validators of the lines and of the total.
unfoldable pub fee_result : PriceSnapshot → List FeeLine → Result FeeResult
fee_result s lines = do
  raise_if (if check_amounts lines then false else true) value_error
  raise_if (ltb_ℤ (sum_amounts lines) (pos 0)) value_error
  ok (record { total = sum_amounts lines; price_version_id = s.version_id; lines = lines })

-- The lines before the discount.
unfoldable pub charge_lines :
    PriceSnapshot → DateTime → DateTime → Bool → Bool → ℕ → Result (List FeeLine)
unfolding base_lines overnight_start surcharges
charge_lines s check_in check_out lost over extra = do
  base ← base_lines s check_in.instant check_out.instant (s.free_minutes + extra)
  start ← overnight_start s check_in.instant
  let nights = local_day check_out.instant check_in.zone - local_day start check_in.zone
  ok (base ++ surcharges s nights lost over)

unfoldable pub calculate_fee :
    PriceSnapshot → DateTime → DateTime → Bool → Bool → ℤ → Result FeeResult
unfolding charge_lines with_discount fee_result
calculate_fee s check_in check_out lost over extra = do
  raise_if (is_naive check_in || is_naive check_out) value_error
  raise_if (ltb check_out.instant check_in.instant) value_error
  raise_if (ltb_ℤ extra (pos 0)) value_error
  lines ← charge_lines s check_in check_out lost over (pos_part extra)
  fee_result s (with_discount s lines)
