-- ===== src/Checkout/Process/Outcome.antt =====
-- What a check-out that returns has done.
use vision_park_ai.Prelude.{
  ◌≡◌, refl, true, false, ◌&&◌, ◌||◌, Option, some, inl, inr, Bool-cases, Option-cases,
}
use mathlib.Core.Path.{subst}
use vision_park_ai.Prelude.Int.{ltb_ℤ, pos}
use vision_park_ai.Prelude.Text.{Text, is_filled}
use vision_park_ai.Errors.{ok, Result-cases, ◌>>=◌}
use vision_park_ai.Clock.{utc}
use vision_park_ai.Fee.{FeeResult, is_zero}
use vision_park_ai.Sessions.{Session, is_paid, is_done, get_by_idempotency_key_checkout}
use vision_park_ai.Gates.{User}
use vision_park_ai.Charging.{calculate_parking_fee}
use vision_park_ai.Checkout.{
  CheckOutRequest, CheckoutAction, CheckoutStore, CheckOutResponse, Setting,
  validate_idempotency_key, find_single_session, check_exit_lane, check_mismatch, check_expected,
  method_of, fee_or_zero,
}
use vision_park_ai.Checkout.Closing.{leave_counter, log_action, note_paid}
use vision_park_ai.Checkout.Closing.Closed.{Closed, complete_session-Closed}
use vision_park_ai.Checkout.Process.{
  hold_session, note_payment, settle, leave, done_response, after_lookup, raw_key, process_checkout,
}
use vision_park_ai.Checkout.Process.Checks.{
  Checked, check_exit_lane-LaneFits, check_mismatch-ok, check_expected-ok,
}

-- What a check-out under a key has done.
pub data Outcome (e : Setting) (db : CheckoutStore) (request : CheckOutRequest) (user : User)
    (key : Text) (r : CheckOutResponse) (after : CheckoutStore) : Type 0 where
  replayed :
      (s : Session)
      → get_by_idempotency_key_checkout e.like db.gates.sessions key ≡ some s
      → is_done s.status ≡ true
      → (r ≡ done_response s) × (after ≡ db)
      → Outcome e db request user key r after
  closed_paid :
      (s : Session)
      → find_single_session e.unicode db.gates.sessions request user ≡ ok s
      → is_paid s.status ≡ true
      → Closed e db s request user (fee_or_zero s.fee) (some key) r after
      → Outcome e db request user key r after
  closed_now :
      (s : Session) (bill : FeeResult)
      → find_single_session e.unicode db.gates.sessions request user ≡ ok s
      → Checked e db request s bill
      → (is_zero bill.total || is_filled (method_of e.unicode request.payment_method)) ≡ true
      → Closed e db s request user bill.total (some key) r after
      → Outcome e db request user key r after
  held :
      (s : Session) (bill : FeeResult)
      → find_single_session e.unicode db.gates.sessions request user ≡ ok s
      → Checked e db request s bill
      → (is_zero bill.total || is_filled (method_of e.unicode request.payment_method)) ≡ false
      → hold_session e db s request user bill key ≡ (r, after)
      → Outcome e db request user key r after

module _ (e : Setting) (db : CheckoutStore) (request : CheckOutRequest) (user : User) where
  -- A payment that is noted changes no session, barrier, lane, ticket or counter.
  note_payment-Closed :
      (s : Session) (key : Option Text) (bill : FeeResult) (r : CheckOutResponse)
      (after : CheckoutStore)
      → Closed e (note_payment e db s request user bill.total) s request user bill.total key r after
      → Closed e db s request user bill.total key r after
  unfolding leave_counter
  note_payment-Closed s key bill r after c =
      elim (Bool-cases
        (is_filled (method_of e.unicode request.payment_method) && ltb_ℤ (pos 0) bill.total)) [
          | inr m ↦
              subst (λ (d : CheckoutStore). Closed e d s request user bill.total key r after)
                (let same : note_payment e db s request user bill.total ≡ db = rw m refl in same) c
          | inl m ↦
              let noted : CheckoutStore =
                log_action CheckoutAction.payment_received user s bill.total
                  (note_paid bill.total s user (some request.exit_lane_id) db) in
              let c' : Closed e noted s request user bill.total key r after = rw m at c in
              record {
                row = c'.row;
                price = c'.price;
                barrier = c'.barrier;
                sessions = c'.sessions;
                events = c'.events;
                lanes = c'.lanes;
                tickets = c'.tickets;
                counters = c'.counters;
              }
        ]

module _ (e : Setting) (db : CheckoutStore) (request : CheckOutRequest) (user : User) (key : Text)
    (r : CheckOutResponse) (after : CheckoutStore) where
  settle-Outcome :
      (s : Session) (bill : FeeResult)
      → find_single_session e.unicode db.gates.sessions request user ≡ ok s
      → Checked e db request s bill
      → settle e db s request user key bill ≡ ok (r, after)
      → Outcome e db request user key r after
  unfolding settle
  settle-Outcome s bill f c h =
      elim (Bool-cases
        (is_zero bill.total || is_filled (method_of e.unicode request.payment_method))) [
          | inr m ↦ held s bill f c m (cc (rw m at h))
          | inl m ↦ closed_now s bill f c m (
              note_payment-Closed e db request user s (some key) bill r after (
                complete_session-Closed e (note_payment e db s request user bill.total) s request
                  user bill.total (some key) bill.lines r after (rw m at h)))
        ]

  unpaid-Outcome :
      (s : Session)
      → find_single_session e.unicode db.gates.sessions request user ≡ ok s
      → is_paid s.status ≡ false
      → leave e db request user key s ≡ ok (r, after)
      → Outcome e db request user key r after
  unfolding leave
  unpaid-Outcome s f p h = elim (Result-cases (check_exit_lane db.gates.lanes s request)) [
    | inr (x, a) ↦ cc (rw (p, a) at h)
    | inl (t, a) ↦ elim (Result-cases (check_mismatch e.unicode s request)) [
      | inr (x, b) ↦ cc (rw (p, a, b) at h)
      | inl (t', b) ↦
          elim (Result-cases
            (calculate_parking_fee e.unicode db.tickets s (utc e.now) request.is_lost_ticket)) [
              | inr (x, c) ↦ cc (rw (p, a, b, c) at h)
              | inl (bill, c) ↦ elim (Result-cases (check_expected request bill.total)) [
                | inr (x, d) ↦ cc (rw (p, a, b, c, d) at h)
                | inl (t'', d) ↦
                    settle-Outcome s bill f
                      (record {
                        unpaid = p;
                        lane = check_exit_lane-LaneFits db.gates.lanes s request a;
                        type_or_reason = check_mismatch-ok e s request b;
                        price = c;
                        expected = check_expected-ok request bill d;
                      })
                      (rw (p, a, b, c, d) at h)
              ]
            ]
    ]
  ]

  leave-Outcome :
      (s : Session)
      → find_single_session e.unicode db.gates.sessions request user ≡ ok s
      → leave e db request user key s ≡ ok (r, after)
      → Outcome e db request user key r after
  unfolding leave
  leave-Outcome s f h = elim (Bool-cases (is_paid s.status)) [
    | inr p ↦ unpaid-Outcome s f p h
    | inl p ↦
        elim (Result-cases
          (calculate_parking_fee e.unicode db.tickets s (utc e.now) request.is_lost_ticket)) [
            | inr (x, c) ↦ cc (rw (p, c) at h)
            | inl (bill, c) ↦ closed_paid s f p (
                complete_session-Closed e db s request user (fee_or_zero s.fee) (some key)
                  bill.lines r after (rw (p, c) at h))
          ]
  ]

  found-Outcome :
      find_single_session e.unicode db.gates.sessions request user >>= leave e db request user key
        ≡ ok (r, after)
      → Outcome e db request user key r after
  found-Outcome h =
      elim (Result-cases (find_single_session e.unicode db.gates.sessions request user)) [
        | inr (x, f) ↦ cc (rw f at h)
        | inl (s, f) ↦ leave-Outcome s f (rw f at h)
      ]

  after_lookup-Outcome :
      after_lookup e db request user key
          (get_by_idempotency_key_checkout e.like db.gates.sessions key)
        ≡ ok (r, after)
      → Outcome e db request user key r after
  after_lookup-Outcome h =
      elim (Option-cases (get_by_idempotency_key_checkout e.like db.gates.sessions key)) [
        | inl a ↦ found-Outcome (rw a at h)
        | inr (s, a) ↦ elim (Bool-cases (is_done s.status)) [
          | inl d ↦ replayed s a d (cc (rw (a, d) at h), cc (rw (a, d) at h))
          | inr d ↦ found-Outcome (rw (a, d) at h)
        ]
      ]

-- A check-out that returns has a key that is valid, and has either given the answer about a session
-- that was closed under it before and changed nothing; or closed a session that is paid; or checked
-- lane, type, fee and expected fee of a session that is not, and then closed it if there is nothing
-- to pay or a way to pay, and else left it waiting with the barrier shut.
pub process_checkout-Outcome :
    (e : Setting) (db : CheckoutStore) (request : CheckOutRequest) (user : User)
    (header : Option Text) (r : CheckOutResponse) (after : CheckoutStore)
    → process_checkout e db request user header ≡ ok (r, after)
    → (key : Text) × (validate_idempotency_key e.unicode (raw_key header request) ≡ ok key)
      × Outcome e db request user key r after
unfolding process_checkout
process_checkout-Outcome e db request user header r after h =
    elim (Result-cases (validate_idempotency_key e.unicode (raw_key header request))) [
      | inr (x, a) ↦ cc (rw a at h)
      | inl (key, a) ↦ (key, a, after_lookup-Outcome e db request user key r after (rw a at h))
    ]
