-- ===== src/Checkout/Closing/Closed.antt =====
-- What the close of a session leaves behind.
use vision_park_ai.Prelude.{
  ◌≡◌, refl, sym, ap, ◌∙◌, true, false, Option, some, inl, inr, List, ◌∷◌, Bool-cases,
}
use mathlib.Core.Path.{subst}
use vision_park_ai.Prelude.Int.{ℤ}
use vision_park_ai.Prelude.Text.{Text}
use vision_park_ai.Errors.{ok, Result-cases}
use vision_park_ai.Fee.{FeeLine}
use vision_park_ai.Sessions.{Session, write_session}
use vision_park_ai.Sessions.Rows.{write_session_twice}
use vision_park_ai.Gates.{
  User, GateStore, BarrierEvent, record_barrier_event, is_override, exit_confirmed,
}
use vision_park_ai.Charging.{build_price_snapshot_from_tx}
use vision_park_ai.Checkout.{
  CheckOutRequest, CheckoutStore, CheckOutResponse, Setting, is_mismatch, checkout_completed,
  lost_ticket_processed,
}
use vision_park_ai.Checkout.Closing.{
  exited_session, completed_session, exit_event, exit_gates, leave_counter, complete_session,
  log_lost, log_action, note, save,
}

-- A session that is closed: its row is written completed and no other row of a session, the barrier
-- gets one opening, the counter falls, and lanes and tickets are as they were.
pub record Closed (e : Setting) (db : CheckoutStore) (s : Session) (request : CheckOutRequest)
    (user : User) (fee : ℤ) (key : Option Text) (r : CheckOutResponse) (after : CheckoutStore)
    : Type 0 where
  pub row : r.transaction ≡ completed_session e s request fee key
  pub price : r.fee ≡ fee
  pub barrier : r.barrier_opened ≡ true
  pub sessions :
      after.gates.sessions ≡ write_session (completed_session e s request fee key) db.gates.sessions
  pub events : after.gates.events ≡ exit_event e db.gates.lanes s request user fee ∷ db.gates.events
  pub lanes : after.gates.lanes ≡ db.gates.lanes
  pub tickets : after.tickets ≡ db.tickets
  pub counters : after.counters ≡ (leave_counter e s db).counters

-- An event is put before the others; sessions and lanes stay.
record_barrier_event_lem :
    (g : GateStore) (b : BarrierEvent)
    → ((record_barrier_event g b).1.sessions ≡ g.sessions)
      × ((record_barrier_event g b).1.lanes ≡ g.lanes)
      × ((record_barrier_event g b).1.events ≡ b ∷ g.events)
unfolding record_barrier_event
record_barrier_event_lem g b = elim (Bool-cases (is_override b.trigger_reason)) [
  | inl o ↦ rw o (refl, refl, refl)
  | inr o ↦ rw o (refl, refl, refl)
]

module _ (e : Setting) (db : CheckoutStore) (s : Session) (request : CheckOutRequest) (user : User)
    (fee : ℤ) where
  exit_gates_lem :
      (key : Option Text)
      → ((exit_gates e s request user fee key db).gates.sessions
          ≡ write_session (completed_session e s request fee key) db.gates.sessions)
        × ((exit_gates e s request user fee key db).gates.lanes ≡ db.gates.lanes)
        × ((exit_gates e s request user fee key db).gates.events
            ≡ exit_event e db.gates.lanes s request user fee ∷ db.gates.events)
  unfolding exit_gates exited_session
  exit_gates_lem key =
      let row = exited_session e s request fee key in
      let noted = (note exit_confirmed s user (some request.exit_lane_id) (save row db)).gates in
      let (a, b, c) =
        record_barrier_event_lem noted (exit_event e db.gates.lanes s request user fee) in
      (
        ap (write_session (completed_session e s request fee key)) a
            ∙ write_session_twice row (completed_session e s request fee key) db.gates.sessions
                refl,
        b,
        c,
      )

  -- The row about a lost ticket changes the audit log alone.
  log_lost-Kept :
      (after : CheckoutStore)
      → log_lost request user s fee db ≡ ok after
      → (after.gates ≡ db.gates) × (after.counters ≡ db.counters) × (after.tickets ≡ db.tickets)
  log_lost-Kept after h = elim (Bool-cases request.is_lost_ticket) [
    | inr n ↦ let same : db ≡ after = cc (rw n at h) in rw (sym same) (refl, refl, refl)
    | inl l ↦ elim (Result-cases (build_price_snapshot_from_tx s)) [
      | inr (x, b) ↦ cc (rw (l, b) at h)
      | inl (p, b) ↦
          let same : log_action lost_ticket_processed user s fee db ≡ after = cc (rw (l, b) at h) in
          rw (sym same) (refl, refl, refl)
    ]
  ]

module _ (e : Setting) (db : CheckoutStore) (s : Session) (request : CheckOutRequest) (user : User)
    (fee : ℤ) (key : Option Text) (lines : List FeeLine) where
  abbrev left : CheckoutStore
  left =
      log_action checkout_completed user s fee
        (leave_counter e s (exit_gates e s request user fee key db))

  abbrev answer : CheckOutResponse
  answer = record {
    transaction = completed_session e s request fee key;
    fee = fee;
    fee_lines = lines;
    barrier_opened = true;
    vehicle_type_mismatch = is_mismatch e.unicode s request;
  }

  -- A close that returns leaves what it should.
  pub complete_session-Closed :
      (r : CheckOutResponse) (after : CheckoutStore)
      → complete_session e db s request user fee key lines ≡ ok (r, after)
      → Closed e db s request user fee key r after
  unfolding complete_session leave_counter exit_gates
  complete_session-Closed r after h = elim (Result-cases (log_lost request user s fee left)) [
    | inr (x, b) ↦ cc (rw b at h)
    | inl (kept, b) ↦
        let (g, c, t) = log_lost-Kept e left s request user fee kept b in
        let (x, y, z) = exit_gates_lem e db s request user fee key in
        let done : (answer, kept) ≡ (r, after) = cc (rw b at h) in
        subst (λ (q : CheckOutResponse × CheckoutStore). Closed e db s request user fee key q.0 q.1)
          done
          (record {
            row = refl;
            price = refl;
            barrier = refl;
            sessions = ap (λ (d : GateStore). d.sessions) g ∙ x;
            events = ap (λ (d : GateStore). d.events) g ∙ z;
            lanes = ap (λ (d : GateStore). d.lanes) g ∙ y;
            tickets = t;
            counters = c;
          })
  ]

  -- A close where no ticket is lost returns.
  pub complete_session_ok :
      request.is_lost_ticket ≡ false
      → (r : CheckOutResponse) × (after : CheckoutStore) × (complete_session e db s request user fee
            key lines
          ≡ ok (r, after))
  unfolding complete_session
  complete_session_ok n = (answer, left, rw n refl)
