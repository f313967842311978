-- ===== src/Barriers/Orders.antt =====
-- What the orders to barriers leave behind.
use vision_park_ai.Prelude.{
  ℕ, ◌≡◌, refl, sym, ap, Bool, true, ◌&&◌, Option, none, some, inl, inr, ◌∷◌, if◌then◌else◌,
  Bool-cases, Option-cases,
}
use mathlib.Core.Path.{subst}
use vision_park_ai.Prelude.Text.{Unicode, codes, text_eq}
use vision_park_ai.Tables.{find}
use vision_park_ai.Errors.{ok, Result-cases}
use vision_park_ai.Sessions.{session_key}
use vision_park_ai.Gates.{
  User, Lane, BarrierEvent, GateStore, lane_key, is_override, is_accountant, record_barrier_event,
  record_lifecycle_event, lifecycle_event, opened_type, LifecycleEventType, barrier_timeout_closed,
  exit_confirmed,
}
use vision_park_ai.Barriers.{
  BarrierOpenRequest, check_open, note_opened, open_barrier, emergency_open_barrier, close_barrier,
  BarrierEmergencyOpenRequest, BarrierCloseRequest, check_emergency, note_emergency, note_closed,
  note_session, request_or_default, session_at, is_timeout, close_event, is_outward,
}

-- What an order keeps and what it adds: one event of its user, and a row of the audit
-- log if it is an override.
abbrev pub Ordered : GateStore → User → BarrierEvent → GateStore → Type 0
Ordered db user e after =
    (after.sessions ≡ db.sessions)
    × (after.lanes ≡ db.lanes)
    × (after.events ≡ e ∷ db.events)
    × (after.overrides
        ≡ (if is_override e.trigger_reason then user.id ∷ db.overrides else db.overrides))
    × (e.operator_id ≡ user.id)

-- What noting a session keeps.
abbrev pub Noted : GateStore → GateStore → Type 0
Noted db noted =
    (noted.sessions ≡ db.sessions)
    × (noted.lanes ≡ db.lanes)
    × (noted.events ≡ db.events)
    × (noted.overrides ≡ db.overrides)

note_opened-Noted :
    (db noted : GateStore) (lane : Lane) (user : User) (named : Option ℕ)
    → note_opened db lane user named ≡ ok noted
    → Noted db noted
note_opened-Noted db noted lane user none h =
    let same : db ≡ noted = cc h in rw (sym same) (refl, refl, refl, refl)
note_opened-Noted db noted lane user (some k) h =
    elim (Option-cases (find (session_key k) db.sessions)) [
      | inl e ↦ cc (rw e at h)
      | inr (s, e) ↦
          let same : record_lifecycle_event
                (lifecycle_event s (opened_type lane) user lane lane.building_id) db
              ≡ noted =
            cc (rw e at h) in
          rw (sym same) (refl, refl, refl, refl)
    ]

event-Ordered :
    (db noted : GateStore) (user : User) (e : BarrierEvent)
    → Noted db noted
    → e.operator_id ≡ user.id
    → Ordered db user (record_barrier_event noted e).0 (record_barrier_event noted e).1
unfolding record_barrier_event
event-Ordered db noted user e (a, b, c, d) h = elim (Bool-cases (is_override e.trigger_reason)) [
  | inl o ↦ rw o (a, b, ap (λ l. e ∷ l) c, rw (h, d), h)
  | inr o ↦ rw o (a, b, ap (λ l. e ∷ l) c, d, h)
]

record_barrier_event-Ordered :
    (db noted after : GateStore) (user : User) (e q : BarrierEvent)
    → Noted db noted
    → e.operator_id ≡ user.id
    → ok (record_barrier_event noted e) ≡ ok (q, after)
    → Ordered db user q after
record_barrier_event-Ordered db noted after user e q n h k =
    let same : record_barrier_event noted e ≡ (q, after) = cc k in
    subst (λ (r : BarrierEvent × GateStore). Ordered db user r.0 r.1) same
      (event-Ordered db noted user e n h)

note_session-Noted :
    (db : GateStore) (lane : Lane) (user : User) (t : LifecycleEventType) (wanted : Bool)
    (named : Option ℕ)
    → Noted db (note_session db lane user t wanted named)
note_session-Noted db lane user t wanted none = (refl, refl, refl, refl)
note_session-Noted db lane user t wanted (some k) =
    elim (Option-cases (find (session_key k) db.sessions)) [
      | inl e ↦ rw (note_session, e) (refl, refl, refl, refl)
      | inr (s, e) ↦ elim (Bool-cases wanted) [
        | inl w ↦ rw (note_session, e, w) (refl, refl, refl, refl)
        | inr w ↦ rw (note_session, e, w) (refl, refl, refl, refl)
      ]
    ]

note_closed-Noted :
    (db : GateStore) (lane : Lane) (user : User) (request : BarrierCloseRequest)
    → Noted db (note_closed db lane user request)
note_closed-Noted db lane user request = elim (Bool-cases (is_timeout request.reason)) [
  | inl e ↦ rw e (note_session-Noted db lane user barrier_timeout_closed true request.session_id)
  | inr e ↦ rw e (
      note_session-Noted db lane user exit_confirmed
        (text_eq request.reason (codes "VEHICLE_PASSED") && is_outward lane.direction)
        request.session_id)
]

note_emergency-Noted :
    (db : GateStore) (lane : Lane) (user : User) (named : Option ℕ)
    → Noted db (note_emergency db lane user named)
note_emergency-Noted db lane user none = (refl, refl, refl, refl)
note_emergency-Noted db lane user (some k) =
    elim (Option-cases (find (session_key k) db.sessions)) [
      | inl e ↦ rw (note_emergency, e) (refl, refl, refl, refl)
      | inr (s, e) ↦ rw (note_emergency, e) (refl, refl, refl, refl)
    ]

-- An opening that returns has added its event and no other, has added a row of the audit log with
-- its user if its reason is OVERRIDE and none else, and has left sessions and lanes as they were.
pub open_barrier-Ordered :
    (u : Unicode) (db : GateStore) (lane_id : ℕ) (request : BarrierOpenRequest) (user : User)
    (e : BarrierEvent) (after : GateStore)
    → open_barrier u db lane_id request user ≡ ok (e, after)
    → Ordered db user e after
unfolding open_barrier
open_barrier-Ordered u db lane_id request user e after h =
    elim (Option-cases (find (lane_key lane_id) db.lanes)) [
      | inl a ↦ cc (rw a at h)
      | inr (lane, a) ↦ elim (Result-cases (check_open u lane request user)) [
        | inr (x, b) ↦ cc (rw (a, b) at h)
        | inl (t, b) ↦ elim (Result-cases (note_opened db lane user request.session_id)) [
          | inr (x, c) ↦ cc (rw (a, b, c) at h)
          | inl (noted, c) ↦
              record_barrier_event-Ordered db noted after user _ e
                (note_opened-Noted db noted lane user request.session_id c) refl (rw (a, b, c) at h)
        ]
      ]
    ]

-- An emergency opening that returns has added its event and no other, has added a row of the audit
-- log with its user if its reason is OVERRIDE and none else, and has left sessions and lanes as they
-- were.
pub emergency_open_barrier-Ordered :
    (db : GateStore) (lane_id : ℕ) (user : User) (request : Option BarrierEmergencyOpenRequest)
    (e : BarrierEvent) (after : GateStore)
    → emergency_open_barrier db lane_id user request ≡ ok (e, after)
    → Ordered db user e after
unfolding emergency_open_barrier
emergency_open_barrier-Ordered db lane_id user request e after h =
    elim (Option-cases (find (lane_key lane_id) db.lanes)) [
      | inl a ↦ cc (rw a at h)
      | inr (lane, a) ↦ elim (Result-cases (check_emergency lane user)) [
        | inr (x, b) ↦ cc (rw (a, b) at h)
        | inl (t, b) ↦
            let named = session_at db lane (request_or_default request).session_id in
            record_barrier_event-Ordered db (note_emergency db lane user named) after user _ e
              (note_emergency-Noted db lane user named) refl (rw (a, b) at h)
      ]
    ]

close_event-operator :
    (lane : Lane) (user : User) (request : BarrierCloseRequest)
    → (close_event lane user request).operator_id ≡ user.id
close_event-operator lane user request = elim (Bool-cases (is_timeout request.reason)) [
  | inl e ↦ rw e
  | inr e ↦ rw e
]

-- A closing that returns, on a timeout too, has added its event and no other, has added a row of
-- the audit log with its user if its reason is OVERRIDE and none else, and has left sessions and
-- lanes as they were.
pub close_barrier-Ordered :
    (db : GateStore) (lane_id : ℕ) (request : BarrierCloseRequest) (user : User) (e : BarrierEvent)
    (after : GateStore)
    → close_barrier db lane_id request user ≡ ok (e, after)
    → Ordered db user e after
unfolding close_barrier
close_barrier-Ordered db lane_id request user e after h =
    elim (Option-cases (find (lane_key lane_id) db.lanes)) [
      | inl a ↦ cc (rw a at h)
      | inr (lane, a) ↦ elim (Bool-cases (is_accountant user.role)) [
        | inl b ↦ cc (rw (a, b) at h)
        | inr b ↦
            record_barrier_event-Ordered db (note_closed db lane user request) after user
              (close_event lane user request) e (note_closed-Noted db lane user request)
              (close_event-operator lane user request) (rw (a, b) at h)
      ]
    ]
