-- ===== src/Barriers/Runs.antt =====
-- Orders to barriers one after the other.
use vision_park_ai.Prelude.{
  ℕ, ◌≡◌, refl, ap, ◌∙◌, Option, inl, inr, List, [], ◌∷◌, ◌++◌, if◌then◌else◌, Bool-cases,
}
use vision_park_ai.Prelude.Text.{Unicode}
use vision_park_ai.Errors.{Result, ok}
use vision_park_ai.Gates.{User, BarrierEvent, GateStore, is_override}
use vision_park_ai.Barriers.{
  BarrierOpenRequest, BarrierEmergencyOpenRequest, BarrierCloseRequest, open_barrier,
  emergency_open_barrier, close_barrier,
}
use vision_park_ai.Barriers.Orders.{
  Ordered, open_barrier-Ordered, emergency_open_barrier-Ordered, close_barrier-Ordered,
}

-- A call of the service.
pub data Order : Type 0 where
  opening : BarrierOpenRequest → Order
  emergency : Option BarrierEmergencyOpenRequest → Order
  closing : BarrierCloseRequest → Order

abbrev pub obey : Unicode → GateStore → ℕ → User → Order → Result (BarrierEvent × GateStore)
obey u db lane_id user (opening request) = open_barrier u db lane_id request user
obey u db lane_id user (emergency request) = emergency_open_barrier db lane_id user request
obey u db lane_id user (closing request) = close_barrier db lane_id request user

-- Orders that returned, with the events that they answered, the latest first.
pub data Obeyed (u : Unicode) (db : GateStore) : List BarrierEvent → GateStore → Type 0 where
  start : Obeyed u db [] db
  order :
      {es : List BarrierEvent} {now after : GateStore} (lane_id : ℕ) (user : User) (o : Order)
      (e : BarrierEvent)
      → Obeyed u db es now
      → obey u now lane_id user o ≡ ok (e, after)
      → Obeyed u db (e ∷ es) after

-- Who gave the overrides among events.
abbrev pub override_ids : List BarrierEvent → List ℕ
override_ids [] = []
override_ids (e ∷ es) =
    if is_override e.trigger_reason then e.operator_id ∷ override_ids es else override_ids es

-- What orders leave: the log of barriers is what they answered, the audit log names who gave each
-- override and nobody else, and sessions and lanes are as they were.
pub record Logged (db : GateStore) (es : List BarrierEvent) (after : GateStore) : Type 0 where
  pub events : after.events ≡ es ++ db.events
  pub overrides : after.overrides ≡ override_ids es ++ db.overrides
  pub sessions : after.sessions ≡ db.sessions
  pub lanes : after.lanes ≡ db.lanes

obey-Ordered :
    (u : Unicode) (db : GateStore) (lane_id : ℕ) (user : User) (o : Order) (e : BarrierEvent)
    (after : GateStore)
    → obey u db lane_id user o ≡ ok (e, after)
    → Ordered db user e after
obey-Ordered u db lane_id user (opening request) e after h =
    open_barrier-Ordered u db lane_id request user e after h
obey-Ordered u db lane_id user (emergency request) e after h =
    emergency_open_barrier-Ordered db lane_id user request e after h
obey-Ordered u db lane_id user (closing request) e after h =
    close_barrier-Ordered db lane_id request user e after h

-- One more order is logged.
Ordered-Logged :
    (db now after : GateStore) (es : List BarrierEvent) (user : User) (e : BarrierEvent)
    → Logged db es now
    → Ordered now user e after
    → Logged db (e ∷ es) after
Ordered-Logged db now after es user e l (sessions, lanes, events, overrides, operator_id) = record {
  events = events ∙ ap (λ (x : List BarrierEvent). e ∷ x) l.events;
  overrides = elim (Bool-cases (is_override e.trigger_reason)) [
    | inl a ↦ rw (a, operator_id) (rw (a, l.overrides) at overrides)
    | inr a ↦ rw a (rw (a, l.overrides) at overrides)
  ];
  sessions = sessions ∙ l.sessions;
  lanes = lanes ∙ l.lanes;
}

-- Openings, emergency openings and closings that return, one after the other, by whomever and at
-- whatever barriers, leave a log of barriers that has the events they answered, the latest first,
-- before those that were there, an audit log that names the user of each of them whose reason is
-- OVERRIDE and nobody else, and sessions and lanes as they were.
pub Obeyed-Logged :
    (u : Unicode) (db : GateStore) {es : List BarrierEvent} {after : GateStore}
    → Obeyed u db es after
    → Logged db es after
Obeyed-Logged u db start = record { events = refl; overrides = refl; sessions = refl; lanes = refl }
Obeyed-Logged u db (order {es} {now} {after} lane_id user o e before h) =
    Ordered-Logged db now after es user e (Obeyed-Logged u db before)
      (obey-Ordered u now lane_id user o e after h)
