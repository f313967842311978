-- ===== src/Checkout/Process/Status.antt =====
-- How the state of a session moves at a check-out.
use vision_park_ai.Prelude.{
  ℕ, ◌≡◌, ◌⊎◌, refl, sym, ap, ◌∙◌, true, false, Option, some, inl, inr, List,
}
use mathlib.Core.Path.{subst}
use native.Mathlib.Decide.{ℕ_discrete}
use vision_park_ai.Prelude.Text.{Text}
use vision_park_ai.Errors.{ok}
use vision_park_ai.Tables.{find}
use vision_park_ai.Sessions.{
  TransactionStatus, Session, session_key, is_paid, is_checkout_eligible, write_session, created,
  entered, parked, payment_pending, paid, exited, completed, cancelled, exception,
}
use vision_park_ai.Sessions.Rows.{IsKeyed, find-write_session, find-write_session_other}
use vision_park_ai.Gates.{User}
use vision_park_ai.Checkout.{
  CheckOutRequest, CheckoutStore, CheckOutResponse, Setting, fee_or_zero, find_single_session,
}
use vision_park_ai.Checkout.Closing.{completed_session, exited_session}
use vision_park_ai.Checkout.Process.{process_checkout, hold_session, pending_session}
use vision_park_ai.Checkout.Process.Outcome.{Outcome, process_checkout-Outcome}
use vision_park_ai.Checkout.Process.Found.{find_single_session-IsFound}

infix 40 ◌⟶◌
-- The edges that a check-out may follow.
pub data ◌⟶◌ : TransactionStatus → TransactionStatus → Type 0 where
  hold : parked ⟶ payment_pending
  hold_again : payment_pending ⟶ payment_pending
  close : parked ⟶ completed
  close_pending : payment_pending ⟶ completed
  close_paid : paid ⟶ completed

-- A row after the call is the row before it, or one of the same key along an edge.
abbrev pub Moved : Session → Session → Type 0
Moved s t = (t ≡ s) ⊎ ((t.id ≡ s.id) × (s.status ⟶ t.status))

eligible-completed : (s : TransactionStatus) → is_checkout_eligible s ≡ true → s ⟶ completed
eligible-completed parked h = close
eligible-completed payment_pending h = close_pending
eligible-completed paid h = close_paid
eligible-completed created h = cc
eligible-completed entered h = cc
eligible-completed exited h = cc
eligible-completed completed h = cc
eligible-completed cancelled h = cc
eligible-completed exception h = cc

eligible-pending :
    (s : TransactionStatus)
    → is_checkout_eligible s ≡ true
    → is_paid s ≡ false
    → s ⟶ payment_pending
eligible-pending parked h k = hold
eligible-pending payment_pending h k = hold_again
eligible-pending paid h k = cc
eligible-pending created h k = cc
eligible-pending entered h k = cc
eligible-pending exited h k = cc
eligible-pending completed h k = cc
eligible-pending cancelled h k = cc
eligible-pending exception h k = cc

module _ (sessions : List Session) (s t : Session)
    (there : find (session_key s.id) sessions ≡ some s) (same : t.id ≡ s.id)
    (edge : s.status ⟶ t.status) (k : ℕ) (row : Session)
    (found : find (session_key k) sessions ≡ some row) where
  -- One write along an edge moves that row and no other.
  written-Moved :
      (next : Session) × (find (session_key k) (write_session t sessions) ≡ some next)
      × Moved row next
  written-Moved = elim (ℕ_discrete k t.id) [
    | no other ↦ (row, find-write_session_other k t sessions other ∙ found, inl refl)
    | yes own ↦
        let there' : find (session_key t.id) sessions ≡ some s =
          subst (λ n. find (session_key n) sessions ≡ some s) (sym same) there in
        let found' : find (session_key t.id) sessions ≡ some row =
          subst (λ n. find (session_key n) sessions ≡ some row) own found in
        let row_is : s ≡ row = cc in
        (
          t,
          subst (λ n. find (session_key n) (write_session t sessions) ≡ some t) (sym own)
              (find-write_session t s sessions there'),
          subst (λ (x : Session). Moved x t) row_is (inr (same, edge)),
        )
  ]

module _ (e : Setting) (db : CheckoutStore) (request : CheckOutRequest) (user : User)
    (r : CheckOutResponse) (after : CheckoutStore) (keyed : IsKeyed db.gates.sessions) (k : ℕ)
    (row : Session) (found : find (session_key k) db.gates.sessions ≡ some row) where
  abbrev Next : List Session → Type 0
  Next rows = (next : Session) × (find (session_key k) rows ≡ some next) × Moved row next

  -- The session that is found is written along an edge.
  write-Next :
      (t s : Session)
      → find_single_session e.unicode db.gates.sessions request user ≡ ok s
      → t.id ≡ s.id
      → s.status ⟶ t.status
      → after.gates.sessions ≡ write_session t db.gates.sessions
      → Next after.gates.sessions
  write-Next t s f i edge w =
      let there =
        (find_single_session-IsFound e.unicode db.gates.sessions user keyed request s f).0 in
      subst Next (sym w) (written-Moved db.gates.sessions s t there i edge k row found)

  may_leave :
      (s : Session)
      → find_single_session e.unicode db.gates.sessions request user ≡ ok s
      → is_checkout_eligible s.status ≡ true
  may_leave s f = (find_single_session-IsFound e.unicode db.gates.sessions user keyed request s f).1

  Outcome-Next : (key : Text) → Outcome e db request user key r after → Next after.gates.sessions
  unfolding exited_session pending_session hold_session
  Outcome-Next key (Outcome.replayed s a d (_, same)) = (row, rw same found, inl refl)
  Outcome-Next key (Outcome.closed_paid s f p c) =
      write-Next (completed_session e s request (fee_or_zero s.fee) (some key)) s f refl
        (eligible-completed s.status (may_leave s f)) c.sessions
  Outcome-Next key (Outcome.closed_now s bill f c m d) =
      write-Next (completed_session e s request bill.total (some key)) s f refl
        (eligible-completed s.status (may_leave s f)) d.sessions
  Outcome-Next key (Outcome.held s bill f c m same) =
      write-Next (pending_session e s request bill.total key) s f refl
        (eligible-pending s.status (may_leave s f) c.unpaid)
        (ap (λ (q : CheckOutResponse × CheckoutStore). q.1.gates.sessions) (sym same))

-- Where the key of sessions is primary, a check-out that returns leaves each session as it was or
-- moves it along an edge: a parked session to PAYMENT_PENDING or COMPLETED, a waiting one to the
-- same two, a paid one to COMPLETED. No other state is left, and no session is lost.
pub process_checkout-Moved :
    (e : Setting) (db : CheckoutStore) (request : CheckOutRequest) (user : User)
    (header : Option Text) (r : CheckOutResponse) (after : CheckoutStore)
    → IsKeyed db.gates.sessions
    → process_checkout e db request user header ≡ ok (r, after)
    → (k : ℕ) (row : Session) → find (session_key k) db.gates.sessions ≡ some row
    → (next : Session) × (find (session_key k) after.gates.sessions ≡ some next) × Moved row next
process_checkout-Moved e db request user header r after keyed h k row found =
    let (key, _, o) = process_checkout-Outcome e db request user header r after h in
    Outcome-Next e db request user r after keyed k row found key o
