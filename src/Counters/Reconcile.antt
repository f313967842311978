-- ===== src/Counters/Reconcile.antt =====
-- Reconciliation of the counters with the open sessions:
-- backend/app/modules/checkin/counter_reconciliation.py. The rows of the grouped query are an
-- argument.
pub mod Exact
use vision_park_ai.Prelude.{
  ℕ, suc, Bool, true, false, Option, none, some, List, [], ◌∷◌, if◌then◌else◌, ◌&&◌,
}
use vision_park_ai.Prelude.Int.{ℤ, pos, ◌-ℤ◌, eqb_ℤ}
use vision_park_ai.Prelude.Text.{Text, codes, text_eq, is_empty, Unicode, upper}
use vision_park_ai.Errors.{Result, ok, raise, ◌>>=◌}
use vision_park_ai.Counters.{ParkingCounter, CounterStore, get_or_create_counter, adjust_counter}

-- The dict of `get_active_session_counts`: rows without a type are dropped, and of two rows whose
-- types have the same upper case the later stays.
abbrev pub put : Text → ℕ → List (Text × ℕ) → List (Text × ℕ)
put k n [] = (k, n) ∷ []
put k n ((key, m) ∷ d) = if text_eq key k then (k, n) ∷ d else (key, m) ∷ put k n d

abbrev pub put_rows : Unicode → List (Option Text × ℕ) → List (Text × ℕ) → List (Text × ℕ)
put_rows u [] d = d
put_rows u ((none, n) ∷ rows) d = put_rows u rows d
put_rows u ((some v, n) ∷ rows) d =
    if is_empty v then put_rows u rows d else put_rows u rows (put (upper u v) n d)

unfoldable pub get_active_session_counts : Unicode → List (Option Text × ℕ) → List (Text × ℕ)
get_active_session_counts u rows = put_rows u rows []

-- `active_counts.get(vtype, 0)`
abbrev pub count_of : List (Text × ℕ) → Text → ℕ
count_of [] k = 0
count_of ((key, n) ∷ d) k = if text_eq key k then n else count_of d k

pub record DiscrepancyDetail : Type 0 where
  pub vehicle_type : Text
  pub counter_occupied : ℤ
  pub active_sessions : ℕ
  pub drift : ℤ

abbrev pub detail : Text → ℤ → ℕ → DiscrepancyDetail
detail vtype occupied active = record {
  vehicle_type = vtype;
  counter_occupied = occupied;
  active_sessions = active;
  drift = pos active -ℤ occupied;
}

-- A detail is listed if it drifts.
abbrev pub list_drift : DiscrepancyDetail → List DiscrepancyDetail → List DiscrepancyDetail
list_drift item rest = if eqb_ℤ item.drift (pos 0) then rest else item ∷ rest

-- The loop of `check_discrepancies`; keys of new rows are taken from `id` on.
unfoldable pub check_types :
    Unicode
    → ℕ
    → CounterStore
    → Option ℕ
    → (Text → ℕ)
    → List Text
    → List DiscrepancyDetail × CounterStore
check_types u id db b active [] = ([], db)
check_types u id db b active (vtype ∷ types) =
    let (counter, found) = get_or_create_counter u id db b vtype in
    let rest = check_types u (suc id) found b active types in
    (list_drift (detail vtype counter.occupied (active vtype)) rest.0, rest.1)

abbrev pub vehicle_types : List Text
vehicle_types = codes "CAR" ∷ codes "MOTORBIKE" ∷ codes "BICYCLE" ∷ []

abbrev pub check_discrepancies :
    Unicode
    → ℕ
    → CounterStore
    → Option ℕ
    → List (Option Text × ℕ)
    → List DiscrepancyDetail × CounterStore
check_discrepancies u id db b rows =
    check_types u id db b (count_of (get_active_session_counts u rows)) vehicle_types

-- A row of the audit log: who, which counter, its old and its new count.
pub record ReconcileLog : Type 0 where
  pub user_id : ℕ
  pub counter_id : ℕ
  pub old_occupied : ℤ
  pub new_occupied : ℤ

abbrev pub log_for :
    Option ℕ → ParkingCounter → DiscrepancyDetail → List ReconcileLog → List ReconcileLog
log_for none c item log = log
log_for (some actor) c item log =
    record {
      user_id = actor;
      counter_id = c.id;
      old_occupied = item.counter_occupied;
      new_occupied = c.occupied;
    }
    ∷ log

-- The loop of `reconcile_and_adjust`, with the log rows so far.
unfoldable pub adjust_all :
    Unicode
    → ℕ
    → CounterStore
    → Option ℕ
    → Text
    → Option ℕ
    → List ReconcileLog
    → List DiscrepancyDetail
    → Result (List ReconcileLog × CounterStore)
adjust_all u id db b reason actor log [] = ok (log, db)
adjust_all u id db b reason actor log (item ∷ items) =
    adjust_counter u id db b item.vehicle_type item.drift reason >>= λ changed.
    adjust_all u (suc id) changed.1 b reason actor (log_for actor changed.0 item log) items

pub record Reconciled : Type 0 where
  pub discrepancies : List DiscrepancyDetail
  pub corrected : Bool
  pub log : List ReconcileLog
  pub store : CounterStore

abbrev pub has_items : List DiscrepancyDetail → Bool
has_items [] = false
has_items (i ∷ is) = true

unfoldable pub reconcile_and_adjust :
    Unicode
    → ℕ
    → CounterStore
    → Option ℕ
    → List (Option Text × ℕ)
    → Bool
    → Text
    → Option ℕ
    → Result Reconciled
reconcile_and_adjust u id db b rows auto_correct reason actor =
    let found = check_discrepancies u id db b rows in
    if has_items found.0 && auto_correct
    then (adjust_all u id found.1 b reason actor [] found.0 >>= λ done.
        ok (record { discrepancies = found.0; corrected = true; log = done.0; store = done.1 }))
    else ok (record { discrepancies = found.0; corrected = false; log = []; store = found.1 })

pub record CompensateLog : Type 0 where
  pub user_id : ℕ
  pub counter_id : ℕ
  pub delta : ℤ
  pub new_occupied : ℤ

-- `compensate_offline_session` counts a vehicle that came in unseen, and logs who says so.
unfoldable pub compensate_offline_session :
    Unicode
    → ℕ
    → CounterStore
    → Option ℕ
    → Text
    → ℕ
    → Text
    → Result (ParkingCounter × CounterStore × CompensateLog)
compensate_offline_session u id db b vehicle_type actor reason =
    adjust_counter u id db b vehicle_type (pos 1) reason >>= λ changed. ok (
      changed.0,
      changed.1,
      record {
        user_id = actor;
        counter_id = changed.0.id;
        delta = pos 1;
        new_occupied = changed.0.occupied;
      },
    )
