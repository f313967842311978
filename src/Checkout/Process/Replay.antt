-- ===== src/Checkout/Process/Replay.antt =====
-- A check-out that is sent again under its key.
use vision_park_ai.Prelude.{
  ◌≡◌, refl, sym, ap, ◌∙◌, Bool, true, false, ◌&&◌, Option, none, some, inl, inr, List, [], ◌∷◌,
  ◌++◌, ◌==◌, if◌then◌else◌, length, ltb, Bool-cases, Option-cases, ℕ,
}
use mathlib.Core.Path.{subst}
use vision_park_ai.Prelude.Int.{ℤ}
use vision_park_ai.Prelude.Text.{Text, codes, is_empty, Unicode, strip}
use vision_park_ai.Errors.{ok, ok_injective}
use vision_park_ai.Tables.{find, find_test, find-update_new}
use vision_park_ai.Sessions.{
  Session, session_key, key_marker, done_under, is_done, write_session,
  get_by_idempotency_key_checkout,
}
use vision_park_ai.Sessions.Rows.{IsKeyed}
use vision_park_ai.Sessions.Marked.{completed_notes-Holds}
use vision_park_ai.Gates.{User}
use vision_park_ai.Checkout.{
  CheckOutRequest, CheckoutStore, CheckOutResponse, Setting, validate_idempotency_key,
  find_single_session, fee_or_zero,
}
use vision_park_ai.Checkout.Closing.{completed_session, exited_session}
use vision_park_ai.Checkout.Closing.Closed.{Closed}
use vision_park_ai.Checkout.Process.{raw_key, done_response, process_checkout, hold_session}
use vision_park_ai.Checkout.Process.Outcome.{Outcome, process_checkout-Outcome}
use vision_park_ai.Checkout.Process.Found.{find_single_session-IsFound}

-- No character of the text is the escape of a pattern.
abbrev pub no_backslash : Text → Bool
no_backslash [] = true
no_backslash (c ∷ t) = if c == 92 then false else no_backslash t

-- The database's `LIKE`: a pattern of a text without an escape, between two signs for any rest, fits
-- each text that has it; a sign for one character, of which the text may have some, fits itself.
abbrev pub FindsParts : (Text → Text → Bool) → Type 0
FindsParts like =
    (part before after : Text)
    → no_backslash part ≡ true
    → like (codes "%" ++ (part ++ codes "%")) (before ++ (part ++ after)) ≡ true

closed-no_backslash :
    (key : Text) → no_backslash key ≡ true → no_backslash (key ++ codes "]") ≡ true
closed-no_backslash [] h = refl
closed-no_backslash (c ∷ t) h = elim (Bool-cases (c == 92)) [
  | inl a ↦ cc (rw a at h)
  | inr a ↦ rw a (closed-no_backslash t (rw a at h))
]

validate_idempotency_key-filled :
    (u : Unicode) (raw : Option Text) (key : Text)
    → validate_idempotency_key u raw ≡ ok key
    → (raw ≡ some key) × (is_empty key ≡ false)
unfolding validate_idempotency_key
validate_idempotency_key-filled u none key h = cc
validate_idempotency_key-filled u (some []) key h = cc
validate_idempotency_key-filled u (some (c ∷ t)) key h =
    elim (Bool-cases (is_empty (strip u (c ∷ t)))) [
      | inl a ↦ cc (rw a at h)
      | inr a ↦ elim (Bool-cases (ltb 255 (length (c ∷ t)))) [
        | inl b ↦ cc (rw (a, b) at h)
        | inr b ↦ let same : c ∷ t ≡ key = cc (rw (a, b) at h) in rw (sym same) (refl, refl)
      ]
    ]

and_right : (a b : Bool) → a && b ≡ true → b ≡ true
and_right true b h = h
and_right false b h = cc

-- A session that is completed under a key is found by the key.
completed_session-done_under :
    (e : Setting) (s : Session) (request : CheckOutRequest) (fee : ℤ) (key : Text)
    → FindsParts e.like
    → no_backslash key ≡ true
    → is_empty key ≡ false
    → done_under e.like key (completed_session e s request fee (some key)) ≡ true
unfolding exited_session
completed_session-done_under e s request fee key finds plain full =
    let (t, noted, (before, after, split)) =
      completed_notes-Holds s.notes key request.exit_image_url full in
    let seen : e.like (codes "%" ++ (key_marker key ++ codes "%")) t ≡ true =
      rw split (finds (key_marker key) before after (closed-no_backslash key plain)) in
    rw (noted, seen) refl

module _ (e : Setting) (db : CheckoutStore) (request : CheckOutRequest) (user : User) (key : Text)
    (r : CheckOutResponse) (after : CheckoutStore) (finds : FindsParts e.like)
    (plain : no_backslash key ≡ true) (full : is_empty key ≡ false)
    (keyed : IsKeyed db.gates.sessions) where
  abbrev Again : Type 0
  Again =
      (t : Session) × (get_by_idempotency_key_checkout e.like after.gates.sessions key ≡ some t)
      × (is_done t.status ≡ true)
      × (r.transaction ≡ t)
      × (r.fee ≡ fee_or_zero t.fee)

  -- After a close the lookup finds the session that is closed.
  Closed-Again :
      (s : Session) (fee : ℤ)
      → get_by_idempotency_key_checkout e.like db.gates.sessions key ≡ none
      → find_single_session e.unicode db.gates.sessions request user ≡ ok s
      → Closed e db s request user fee (some key) r after
      → Again
  unfolding get_by_idempotency_key_checkout write_session exited_session
  Closed-Again s fee none_yet f c =
      let t = completed_session e s request fee (some key) in
      let there =
        (find_single_session-IsFound e.unicode db.gates.sessions user keyed request s f).0 in
      let found : find (done_under e.like key) (write_session t db.gates.sessions) ≡ some t =
        find-update_new (session_key t.id) (done_under e.like key) t
          (completed_session-done_under e s request fee key finds plain full) db.gates.sessions
          none_yet there in
      (
        t,
        subst (λ (l : List Session). find (done_under e.like key) l ≡ some t) (sym c.sessions)
            found,
        refl,
        c.row,
        c.price,
      )

  Outcome-Again :
      get_by_idempotency_key_checkout e.like db.gates.sessions key ≡ none
      → Outcome e db request user key r after
      → r.barrier_opened ≡ true
      → Again
  unfolding hold_session
  Outcome-Again none_yet (Outcome.replayed s a d same) b = cc
  Outcome-Again none_yet (Outcome.closed_paid s f p c) b =
      Closed-Again s (fee_or_zero s.fee) none_yet f c
  Outcome-Again none_yet (Outcome.closed_now s bill f c m d) b =
      Closed-Again s bill.total none_yet f d
  Outcome-Again none_yet (Outcome.held s bill f c m same) b =
      let shut : r.barrier_opened ≡ false =
        ap (λ (q : CheckOutResponse × CheckoutStore). q.0.barrier_opened) (sym same) in
      cc

  lookup-Again :
      (header : Option Text)
      → validate_idempotency_key e.unicode (raw_key header request) ≡ ok key
      → process_checkout e db request user header ≡ ok (r, after)
      → Outcome e db request user key r after
      → r.barrier_opened ≡ true
      → Again
  unfolding process_checkout get_by_idempotency_key_checkout
  lookup-Again header v h o b =
      elim (Option-cases (find (done_under e.like key) db.gates.sessions)) [
        | inl a ↦ Outcome-Again a o b
        | inr (s, a) ↦
            let d : is_done s.status ≡ true =
              and_right _ _ (find_test (done_under e.like key) db.gates.sessions a) in
            let same : ◌≡◌ {A = CheckOutResponse × CheckoutStore} (done_response s, db) (r, after) =
              ok_injective (rw (v, a, d) at h) in
            (
              s,
              subst
                  (λ (q : CheckOutResponse × CheckoutStore).
                    find (done_under e.like key) q.1.gates.sessions ≡ some s)
                  same a,
              d,
              ap (λ (q : CheckOutResponse × CheckoutStore). q.0.transaction) (sym same),
              ap (λ (q : CheckOutResponse × CheckoutStore). q.0.fee) (sym same),
            )
      ]

-- Where the key has no backslash, LIKE is as documented, and the key of sessions is primary, a
-- check-out that has opened the barrier may be sent again under its key, at any time, by anyone and
-- with any other content: it answers with the same session and the same fee, and changes nothing.
pub process_checkout_twice :
    (e : Setting) (db : CheckoutStore) (request : CheckOutRequest) (user : User)
    (header : Option Text) (r : CheckOutResponse) (after : CheckoutStore)
    → FindsParts e.like
    → IsKeyed db.gates.sessions
    → process_checkout e db request user header ≡ ok (r, after)
    → r.barrier_opened ≡ true
    → (key : Text) → raw_key header request ≡ some key
    → no_backslash key ≡ true
    → (later : CheckOutRequest) (other : User) (header' : Option Text) (t t' : ℕ)
    → raw_key header' later ≡ some key
    → process_checkout (record e { now = t; closing = t' }) after later other header'
        ≡ ok (done_response r.transaction, after)
      × (fee_or_zero r.transaction.fee ≡ r.fee)
unfolding process_checkout
process_checkout_twice e db request user header r after finds keyed h b key k plain later other
      header' t t' k' =
    let (key', v, o) = process_checkout-Outcome e db request user header r after h in
    let (raw, full) = validate_idempotency_key-filled e.unicode (raw_key header request) key' v in
    let same : key' ≡ key = cc in
    let (s, a, d, x, y) =
      lookup-Again e db request user key r after finds plain (rw same at full) keyed header
        (rw same at v) h (rw same at o) b in
    let valid : validate_idempotency_key e.unicode (some key) ≡ ok key = rw (k, same) at v in
    (
      rw (k', valid, a, d) (ap (λ (q : Session). ok (done_response q, after)) (sym x)),
      ap (λ (q : Session). fee_or_zero q.fee) x ∙ sym y,
    )
