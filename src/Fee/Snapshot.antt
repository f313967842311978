-- ===== src/Fee/Snapshot.antt =====
-- `PriceWindow`, `PriceSnapshot` and `check_rule` of backend/app/modules/pricing/domain.py.
use vision_park_ai.Prelude.{
  ℕ, Bool, true, false, ◌&&◌, Option, none, some, List, [], ◌∷◌, ltb, leb, if◌then◌else◌,
}
use vision_park_ai.Prelude.Text.{Text, is_empty}
use vision_park_ai.Errors.{Result, ok, value_error, raise_if, ◌>>◌}
use vision_park_ai.Clock.{DateTime}
use vision_park_ai.Ticket.{TicketKind}
use mathlib.Core.Bool.{not}

pub record PriceWindow : Type 0 where
  pub start_minute : ℕ
  pub end_minute : ℕ

pub record PriceSnapshot : Type 0 where
  pub version_id : ℕ
  pub rule_id : ℕ
  pub vehicle_type : Text
  pub ticket_kind : TicketKind
  pub customer_class : Text
  pub discount_percent : ℕ
  pub free_minutes : ℕ
  pub initial_minutes : ℕ
  pub initial_fee : ℕ
  pub block_minutes : ℕ
  pub block_fee : ℕ
  pub daily_cap : Option ℕ
  pub overnight_fee : ℕ
  pub lost_ticket_fee : ℕ
  pub overtime_fee : ℕ
  pub day_pass_fee : ℕ
  pub month_pass_fee : ℕ
  pub windows : List PriceWindow
  pub entitlement_valid_until : Option DateTime

-- The bounds of the fields of a window, and its `check_order`.
abbrev pub window_fits : PriceWindow → Bool
window_fits w = ltb w.start_minute 1440 && leb w.end_minute 1440 && ltb w.start_minute w.end_minute

-- `sorted(…, key=start_minute)`, which is stable.
unfoldable pub insert_window : PriceWindow → List PriceWindow → List PriceWindow
insert_window w [] = w ∷ []
insert_window w (v ∷ vs) =
    if leb w.start_minute v.start_minute then w ∷ v ∷ vs else v ∷ insert_window w vs

unfoldable pub sort_windows : List PriceWindow → List PriceWindow
unfolding insert_window
sort_windows [] = []
sort_windows (w ∷ ws) = insert_window w (sort_windows ws)

-- No window ends after the next one starts.
unfoldable pub overlap_free : List PriceWindow → Bool
overlap_free [] = true
overlap_free (w ∷ []) = true
overlap_free (w ∷ v ∷ vs) = if ltb v.start_minute w.end_minute then false else overlap_free (v ∷ vs)

abbrev pub all_fit : List PriceWindow → Bool
all_fit [] = true
all_fit (w ∷ ws) = if window_fits w then all_fit ws else false

abbrev pub cap_fits : PriceSnapshot → Bool
cap_fits s = elim s.daily_cap [ none ↦ true | some cap ↦ leb s.initial_fee cap ]

-- The bounds of the fields of a snapshot that a natural number does not give for nothing.
abbrev pub fields_fit : PriceSnapshot → Bool
fields_fit s =
    not (is_empty s.vehicle_type)
    && not (is_empty s.customer_class)
    && leb s.discount_percent 100
    && ltb 0 s.initial_minutes
    && ltb 0 s.block_minutes
    && all_fit s.windows

-- `PriceSnapshot.model_validate`
unfoldable pub check_rule : PriceSnapshot → Result PriceSnapshot
unfolding sort_windows overlap_free
check_rule s = do
  raise_if (not (fields_fit s)) value_error
  raise_if (not (cap_fits s)) value_error
  raise_if (not (overlap_free (sort_windows s.windows))) value_error
  ok s
