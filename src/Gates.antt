-- ===== src/Gates.antt =====
-- The rows that barriers and check-out work on, and the events they leave: the enumerations and
-- `record_barrier_event` of backend/app/modules/barriers, `ROLE_PERMISSIONS` of
-- backend/app/modules/users/permissions.py and `record_lifecycle_event` of
-- backend/app/modules/checkin/lifecycle_service.py. Of the details of events
-- only the amount of a payment is kept.
use vision_park_ai.Prelude.{
  ℕ, Bool, true, false, Option, List, none, some, ◌∷◌, ◌==◌, if◌then◌else◌,
}
use vision_park_ai.Prelude.Int.{ℤ}
use vision_park_ai.Prelude.Text.{Text, codes, text_eq}
use vision_park_ai.Sessions.{Session}

pub data RoleName : Type 0 where
  system_admin building_admin operator accountant : RoleName

-- The permission `override_barrier` of `ROLE_PERMISSIONS`.
abbrev pub may_override : RoleName → Bool
may_override building_admin = true
may_override operator = true
may_override _ = false

abbrev pub is_accountant : RoleName → Bool
is_accountant accountant = true
is_accountant _ = false

pub record User : Type 0 where
  pub id : ℕ
  pub building_id : Option ℕ
  pub role : RoleName

pub data LaneDirection : Type 0 where
  inward outward : LaneDirection

pub record Lane : Type 0 where
  pub id : ℕ
  pub building_id : Option ℕ
  pub barrier_id : Option ℕ
  pub is_active : Bool
  pub direction : LaneDirection

pub data BarrierAction : Type 0 where
  open_it close_it : BarrierAction

pub data BarrierStatus : Type 0 where
  opened closed closed_timeout failed : BarrierStatus

pub data LifecycleEventType : Type 0 where
  barrier_opened_in barrier_opened_out barrier_timeout_closed exit_confirmed : LifecycleEventType
  fee_calculated payment_received completed : LifecycleEventType

-- `paid` is the amount in the details of an event about a payment.
pub record LifecycleEvent : Type 0 where
  pub session_id : ℕ
  pub event_type : LifecycleEventType
  pub actor_id : ℕ
  pub lane_id : Option ℕ
  pub building_id : Option ℕ
  pub paid : Option ℤ

pub record BarrierEvent : Type 0 where
  pub building_id : Option ℕ
  pub lane_id : ℕ
  pub barrier_id : Option ℕ
  pub action : BarrierAction
  pub trigger_reason : Text
  pub operator_id : ℕ
  pub session_id : Option ℕ
  pub status : BarrierStatus
  pub timeout_seconds : ℕ

-- `overrides` are the rows of the audit log that overrides leave, by who made them.
pub record GateStore : Type 0 where
  pub lanes : List Lane
  pub sessions : List Session
  pub lifecycle : List LifecycleEvent
  pub events : List BarrierEvent
  pub overrides : List ℕ

abbrev pub lane_key : ℕ → Lane → Bool
lane_key k l = l.id == k

abbrev pub record_lifecycle_event : LifecycleEvent → GateStore → GateStore
record_lifecycle_event e db = record db { lifecycle = e ∷ db.lifecycle }

abbrev pub is_override : Text → Bool
is_override reason = text_eq reason (codes "OVERRIDE")

unfoldable pub record_barrier_event : GateStore → BarrierEvent → BarrierEvent × GateStore
record_barrier_event db e =
    let added = record db { events = e ∷ db.events } in
    (
      e,
      if is_override e.trigger_reason
          then record added { overrides = e.operator_id ∷ db.overrides }
          else added,
    )

abbrev pub barrier_event :
    Lane → BarrierAction → Text → User → Option ℕ → BarrierStatus → ℕ → BarrierEvent
barrier_event lane action trigger_reason user session_id status timeout_seconds = record {
  building_id = lane.building_id;
  lane_id = lane.id;
  barrier_id = lane.barrier_id;
  action = action;
  trigger_reason = trigger_reason;
  operator_id = user.id;
  session_id = session_id;
  status = status;
  timeout_seconds = timeout_seconds;
}

abbrev pub opened_type : Lane → LifecycleEventType
opened_type lane = elim lane.direction [ inward ↦ barrier_opened_in | outward ↦ barrier_opened_out ]

abbrev pub lifecycle_event : Session → LifecycleEventType → User → Lane → Option ℕ → LifecycleEvent
lifecycle_event s event_type user lane building_id = record {
  session_id = s.id;
  event_type = event_type;
  actor_id = user.id;
  lane_id = some lane.id;
  building_id = building_id;
  paid = none;
}
