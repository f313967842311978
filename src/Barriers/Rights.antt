-- ===== src/Barriers/Rights.antt =====
-- Which requests open a barrier.
use vision_park_ai.Prelude.{
  ℕ, ◌≡◌, ◌↔◌, refl, true, false, Option, none, some, inl, inr, Bool-cases, Option-cases,
}
use vision_park_ai.Prelude.Text.{Unicode}
use vision_park_ai.Tables.{find}
use vision_park_ai.Errors.{ok, Result-cases}
use vision_park_ai.Sessions.{Session, session_key}
use vision_park_ai.Gates.{
  User, Lane, BarrierEvent, GateStore, lane_key, is_override, may_override, is_accountant,
  record_barrier_event, record_lifecycle_event, lifecycle_event, opened_type, barrier_event,
  open_it, opened,
}
use vision_park_ai.Barriers.{
  BarrierOpenRequest, is_valid_open_reason, is_blank, check_override, check_open, note_opened,
  open_barrier,
}

module _ (u : Unicode) (request : BarrierOpenRequest) (user : User) where
  -- An override wants its permission and a reason that is not blank.
  abbrev pub MayOverride : Type 0
  MayOverride =
      is_override request.trigger_reason ≡ true
      → (may_override user.role ≡ true) × (is_blank u request.override_reason ≡ false)

  abbrev pub MayOpen : Lane → Type 0
  MayOpen lane =
      (lane.is_active ≡ true)
      × (is_valid_open_reason request.trigger_reason ≡ true)
      × (is_accountant user.role ≡ false)
      × MayOverride

  check_override-MayOverride : (check_override u request user ≡ ok tt) ↔ MayOverride
  check_override-MayOverride = elim (Bool-cases (is_override request.trigger_reason)) [
    | inr e ↦ (λ _ x. cc (e, x), λ _. rw e)
    | inl e ↦ elim (Bool-cases (may_override user.role)) [
      | inr f ↦ (λ x. cc (rw (e, f) at x), λ k. cc (f, (k e).0))
      | inl f ↦ elim (Bool-cases (is_blank u request.override_reason)) [
        | inr g ↦ (λ _ _. (f, g), λ _. rw (e, f, g))
        | inl g ↦ (λ x. cc (rw (e, f, g) at x), λ k. cc (g, (k e).1))
      ]
    ]
  ]

  check_open-MayOpen : (lane : Lane) → (check_open u lane request user ≡ ok tt) ↔ MayOpen lane
  check_open-MayOpen lane = elim (Bool-cases lane.is_active) [
    | inr e ↦ (λ x. cc (rw e at x), λ k. cc (e, k.0))
    | inl e ↦ elim (Bool-cases (is_valid_open_reason request.trigger_reason)) [
      | inr f ↦ (λ x. cc (rw (e, f) at x), λ k. cc (f, k.1))
      | inl f ↦ elim (Bool-cases (is_accountant user.role)) [
        | inl g ↦ (λ x. cc (rw (e, f, g) at x), λ k. cc (g, k.2))
        | inr g ↦ (
          λ x. (e, f, g, check_override-MayOverride.0 (rw (e, f, g) at x)),
          λ k. rw (e, f, g) (check_override-MayOverride.1 k.3),
        )
      ]
    ]
  ]

-- A session that is named is there.
abbrev pub IsThere : GateStore → Option ℕ → Type 0
IsThere db none = Unit
IsThere db (some k) = (s : Session) × (find (session_key k) db.sessions ≡ some s)

note_opened-IsThere :
    (db : GateStore) (lane : Lane) (user : User) (named : Option ℕ)
    → ((noted : GateStore) × (note_opened db lane user named ≡ ok noted)) ↔ IsThere db named
note_opened-IsThere db lane user none = (λ _. tt, λ _. (db, refl))
note_opened-IsThere db lane user (some k) = elim (Option-cases (find (session_key k) db.sessions)) [
  | inl e ↦ (λ x. cc (rw e at x.1), λ s. cc (e, s.1))
  | inr (s, e) ↦ (
    λ _. (s, e),
    λ _. (
      record_lifecycle_event (lifecycle_event s (opened_type lane) user lane lane.building_id) db,
      rw e,
    ),
  )
]

-- A barrier opens on request exactly when its lane is there and active, the reason is one of the
-- four for opening, the user is no accountant, an override has its permission and a reason that is
-- not blank, and a session that is named is there.
pub open_barrier_ok :
    (u : Unicode) (db : GateStore) (lane_id : ℕ) (request : BarrierOpenRequest) (user : User)
    → ((r : BarrierEvent × GateStore) × (open_barrier u db lane_id request user ≡ ok r)) ↔ (
        (lane : Lane) × (find (lane_key lane_id) db.lanes ≡ some lane)
        × MayOpen u request user lane
        × IsThere db request.session_id)
unfolding open_barrier
open_barrier_ok u db lane_id request user = (
  λ x. elim (Option-cases (find (lane_key lane_id) db.lanes)) [
    | inl e ↦ cc (rw e at x.1)
    | inr (lane, e) ↦ elim (Result-cases (check_open u lane request user)) [
      | inr (a, f) ↦ cc (rw (e, f) at x.1)
      | inl (t, f) ↦ elim (Result-cases (note_opened db lane user request.session_id)) [
        | inr (a, g) ↦ cc (rw (e, f, g) at x.1)
        | inl noted ↦ (
          lane,
          e,
          (check_open-MayOpen u request user lane).0 f,
          (note_opened-IsThere db lane user request.session_id).0 noted,
        )
      ]
    ]
  ],
  λ (lane, e, may, there).
      let (noted, g) = (note_opened-IsThere db lane user request.session_id).1 there in
      let f = (check_open-MayOpen u request user lane).1 may in
      (
        record_barrier_event noted (
            barrier_event lane open_it request.trigger_reason user request.session_id opened
              request.timeout_seconds),
        rw (e, f, g),
      ),
)
