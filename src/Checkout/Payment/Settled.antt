-- ===== src/Checkout/Payment/Settled.antt =====
-- What the payment of a session leads to.
use vision_park_ai.Prelude.{
  ℕ, ◌≡◌, refl, sym, ap, ◌∙◌, true, false, Option, none, some, inl, inr, [], Bool-cases,
  Option-cases, ◌∷◌,
}
use mathlib.Core.Path.{subst}
use vision_park_ai.Prelude.Int.{ℤ}
use vision_park_ai.Prelude.Text.{Text}
use vision_park_ai.Errors.{ok}
use vision_park_ai.Tables.{find}
use vision_park_ai.Sessions.{Session, session_key, write_session, completed}
use vision_park_ai.Sessions.Rows.{IsKeyed, find-write_session}
use vision_park_ai.Fee.{FeeResult}
use vision_park_ai.Gates.{User, BarrierEvent}
use vision_park_ai.Checkout.{
  CheckOutRequest, CheckoutStore, CheckOutResponse, Setting, find_single_session, fee_or_zero,
}
use vision_park_ai.Checkout.Closing.{complete_session, completed_session, exited_session}
use vision_park_ai.Checkout.Closing.Closed.{Closed, complete_session-Closed, complete_session_ok}
use vision_park_ai.Checkout.Process.{process_checkout, hold_session, pending_session}
use vision_park_ai.Checkout.Process.Outcome.{Outcome, process_checkout-Outcome}
use vision_park_ai.Checkout.Process.Found.{find_single_session-IsFound}
use vision_park_ai.Checkout.Payment.{
  record_payment, texts_fit, dummy_request, is_payable, pay, paid_session, pay_at,
}

-- What a payment needs: the session is there and waits or is paid, has an exit lane, and has texts
-- in the bounds of a request.
pub record CanPay (e : Setting) (db : CheckoutStore) (session_id : ℕ) (override : Option Text)
    (s : Session) (lane_id : ℕ) : Type 0 where
  pub there : find (session_key session_id) db.gates.sessions ≡ some s
  pub payable : is_payable s.status ≡ true
  pub lane : s.exit_lane_id ≡ some lane_id
  pub texts : texts_fit e.unicode s override ≡ true

module _ (e : Setting) (db : CheckoutStore) (session_id : ℕ) (user : User) (method : Text)
    (amount : ℤ) (override : Option Text) where
  -- A payment of a session that can be paid is a close of that session.
  pub record_payment_lem :
      (s : Session) (lane_id : ℕ)
      → CanPay e db session_id override s lane_id
      → record_payment e db session_id user method amount override
        ≡ complete_session e
            (pay db s user amount)
            (paid_session s)
            (dummy_request e.unicode s lane_id override method)
            user
            (fee_or_zero s.fee)
            none
            []
  unfolding record_payment
  record_payment_lem s lane_id c =
      rw (c.there, c.payable)
        (subst
          (λ (x : Option ℕ).
            pay_at e db s user method amount override x
            ≡ complete_session e (pay db s user amount) (paid_session s)
                (dummy_request e.unicode s lane_id override method) user (fee_or_zero s.fee) none
                [])
          (sym c.lane) (rw c.texts refl))

  -- A payment of a session that can be paid returns, and closes the session by its own fee.
  pub record_payment-Closed :
      (s : Session) (lane_id : ℕ)
      → CanPay e db session_id override s lane_id
      → (r : CheckOutResponse) × (after : CheckoutStore) × (record_payment e db session_id user
            method amount override
          ≡ ok (r, after))
        × Closed e
            (pay db s user amount)
            (paid_session s)
            (dummy_request e.unicode s lane_id override method)
            user
            (fee_or_zero s.fee)
            none
            r
            after
  record_payment-Closed s lane_id c =
      let request = dummy_request e.unicode s lane_id override method in
      let (r, after, done) =
        complete_session_ok e (pay db s user amount) (paid_session s) request user
          (fee_or_zero s.fee) none [] refl in
      (
        r,
        after,
        record_payment_lem s lane_id c ∙ done,
        complete_session-Closed e (pay db s user amount) (paid_session s) request user
            (fee_or_zero s.fee) none [] r after done,
      )

  -- A payment that returns is of a session that can be paid.
  pub record_payment-CanPay :
      (r : CheckOutResponse) (after : CheckoutStore)
      → record_payment e db session_id user method amount override ≡ ok (r, after)
      → (s : Session) × (lane_id : ℕ) × CanPay e db session_id override s lane_id
  unfolding record_payment
  record_payment-CanPay r after h =
      elim (Option-cases (find (session_key session_id) db.gates.sessions)) [
        | inl a ↦ cc (rw a at h)
        | inr (s, a) ↦ elim (Bool-cases (is_payable s.status)) [
          | inr b ↦ cc (rw (a, b) at h)
          | inl b ↦ elim (Option-cases s.exit_lane_id) [
            | inl c ↦ cc (rw (a, b, c) at h)
            | inr (lane_id, c) ↦ elim (Bool-cases (texts_fit e.unicode s override)) [
              | inr d ↦ cc (rw (a, b, c, d) at h)
              | inl d ↦ (s, lane_id, record { there = a; payable = b; lane = c; texts = d })
            ]
          ]
        ]
      ]

module _ (e : Setting) (db : CheckoutStore) (request : CheckOutRequest) (user : User)
    (r : CheckOutResponse) (after : CheckoutStore) (keyed : IsKeyed db.gates.sessions) where
  -- A session that was left waiting is there, waits for the fee that was answered, and can be paid.
  abbrev Waits : Type 0
  Waits =
      (find (session_key r.transaction.id) after.gates.sessions ≡ some r.transaction)
      × (is_payable r.transaction.status ≡ true)
      × (r.transaction.exit_lane_id ≡ some request.exit_lane_id)
      × (fee_or_zero r.transaction.fee ≡ r.fee)
      × (after.gates.events ≡ db.gates.events)

  hold_session-Waits :
      (s : Session) (bill : FeeResult) (key : Text)
      → find_single_session e.unicode db.gates.sessions request user ≡ ok s
      → hold_session e db s request user bill key ≡ (r, after)
      → Waits
  unfolding hold_session pending_session
  hold_session-Waits s bill key f same =
      let there =
        (find_single_session-IsFound e.unicode db.gates.sessions user keyed request s f).0 in
      subst
        (λ (q : CheckOutResponse × CheckoutStore).
          (find (session_key q.0.transaction.id) q.1.gates.sessions ≡ some q.0.transaction)
          × (is_payable q.0.transaction.status ≡ true)
          × (q.0.transaction.exit_lane_id ≡ some request.exit_lane_id)
          × (fee_or_zero q.0.transaction.fee ≡ q.0.fee)
          × (q.1.gates.events ≡ db.gates.events))
        same
        (
          find-write_session (pending_session e s request bill.total key) s db.gates.sessions there,
          refl,
          refl,
          refl,
          refl,
        )

  Outcome-Waits :
      (key : Text) → Outcome e db request user key r after → r.barrier_opened ≡ false → Waits
  Outcome-Waits key (Outcome.replayed s a d (x, _)) b =
      let open_ : r.barrier_opened ≡ true = ap (λ (q : CheckOutResponse). q.barrier_opened) x in cc
  Outcome-Waits key (Outcome.closed_paid s f p c) b = let o = c.barrier in cc
  Outcome-Waits key (Outcome.closed_now s bill f c m d) b = let o = d.barrier in cc
  Outcome-Waits key (Outcome.held s bill f c m same) b = hold_session-Waits s bill key f same

-- What a payment does for a session that waits: it closes it by the fee that was answered, and
-- opens the barrier once.
pub record Settled (r : CheckOutResponse) (after : CheckoutStore) (r' : CheckOutResponse)
    (after' : CheckoutStore) : Type 0 where
  pub done : r'.transaction.status ≡ completed
  pub row : find (session_key r.transaction.id) after'.gates.sessions ≡ some r'.transaction
  pub price : r'.fee ≡ r.fee
  pub opened : r'.barrier_opened ≡ true
  pub event : (b : BarrierEvent) × (after'.gates.events ≡ b ∷ after.gates.events)

Closed-Settled :
    (e : Setting) (user : User) (amount : ℤ) (request : CheckOutRequest) (r : CheckOutResponse)
    (after : CheckoutStore) (r' : CheckOutResponse) (after' : CheckoutStore)
    → find (session_key r.transaction.id) after.gates.sessions ≡ some r.transaction
    → fee_or_zero r.transaction.fee ≡ r.fee
    → Closed e
        (pay after r.transaction user amount)
        (paid_session r.transaction)
        request
        user
        (fee_or_zero r.transaction.fee)
        none
        r'
        after'
    → Settled r after r' after'
unfolding exited_session
Closed-Settled e user amount request r after r' after' there fee c =
    let s = paid_session r.transaction in
    let t = completed_session e s request (fee_or_zero r.transaction.fee) none in
    record {
      done = ap (λ (q : Session). q.status) c.row;
      row =
          ap (find (session_key r.transaction.id)) c.sessions
          ∙ find-write_session t s (write_session s after.gates.sessions)
              (find-write_session s r.transaction after.gates.sessions there)
          ∙ ap (λ (q : Session). some q) (sym c.row);
      price = c.price ∙ fee;
      opened = c.barrier;
      event = (_, c.events);
    }

-- Where the key of sessions is primary, a check-out that leaves the barrier shut leaves a session
-- that one payment settles, by whomever, whenever, in whatever way and of whatever amount, if the
-- texts of the session are in the bounds of a request: the payment returns, the row is COMPLETED,
-- the fee is the one that the check-out answered, and the barrier opens, for the first time.
pub process_checkout-record_payment :
    (e : Setting) (db : CheckoutStore) (request : CheckOutRequest) (user : User)
    (header : Option Text) (r : CheckOutResponse) (after : CheckoutStore)
    → IsKeyed db.gates.sessions
    → process_checkout e db request user header ≡ ok (r, after)
    → r.barrier_opened ≡ false
    → (later : Setting) (cashier : User) (method : Text) (amount : ℤ) (override : Option Text)
    → texts_fit later.unicode r.transaction override ≡ true
    → (after.gates.events ≡ db.gates.events)
      × (r' : CheckOutResponse) × (after' : CheckoutStore) × (record_payment later after
            r.transaction.id cashier method amount override
          ≡ ok (r', after'))
      × Settled r after r' after'
process_checkout-record_payment e db request user header r after keyed h b later cashier method
      amount override fits =
    let (key, _, o) = process_checkout-Outcome e db request user header r after h in
    let (there, payable, lane, fee, events) =
      Outcome-Waits e db request user r after keyed key o b in
    let (r', after', done, c) =
      record_payment-Closed later after r.transaction.id cashier method amount override
        r.transaction request.exit_lane_id
        (record { there = there; payable = payable; lane = lane; texts = fits }) in
    (
      events,
      r',
      after',
      done,
      Closed-Settled later cashier amount
          (dummy_request later.unicode r.transaction request.exit_lane_id override method) r after
          r' after' there fee c,
    )
