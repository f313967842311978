-- ===== src/Billing/Invoices/Repeat.antt =====
-- An invoice that is asked for again, and an invite that is used again.
use vision_park_ai.Prelude.{
  ℕ, ◌+◌, ◌≡◌, refl, sym, ap, Bool, true, false, ◌&&◌, Option, none, some, inl, inr, List, ◌==◌,
  ==_refl, Bool-cases, Option-cases,
}
use mathlib.Core.Path.{subst}
use vision_park_ai.Prelude.Text.{Text, text_eq_refl, text_eq_sound, filled}
use vision_park_ai.Errors.{ok, ok_injective}
use vision_park_ai.Clock.{DateTime, is_naive, utc}
use vision_park_ai.Tables.{find, find_test, find-Each, find-update_first}
use vision_park_ai.Fee.Snapshot.{PriceSnapshot}
use vision_park_ai.Fee.{FeeResult}
use vision_park_ai.Ledger.{Invoice}
use vision_park_ai.Sessions.{Session}
use vision_park_ai.Billing.Invoices.Billed.{AreKeyed, Usable, Billed, bill_session-Billed}
use vision_park_ai.Billing.Invoices.{
  GuestInvite, InvoiceCreate, InvoiceStore, session_in, invoice_of, invite_key, invite_in,
  invite_of, invite_minutes, is_same_request, redeem, new_invoice, answer_or_bill, create_invoice,
  issue, code_eq, bool_eq, invite_code, invite_id,
}

pub and_right : (a b : Bool) → a && b ≡ true → b ≡ true
and_right true b h = h
and_right false b h = cc

bool_eq_refl : (b : Bool) → bool_eq b b ≡ true
bool_eq_refl true = refl
bool_eq_refl false = refl

code_eq_refl : (c : Option Text) → code_eq c c ≡ true
code_eq_refl none = refl
code_eq_refl (some t) = text_eq_refl t

-- The invoice that a request made is told by the request.
new_invoice-is_same_request :
    (id b : ℕ) (s : Session) (price : PriceSnapshot) (v w : Option GuestInvite)
    (request : InvoiceCreate) (fee : FeeResult)
    → invite_minutes w ≡ invite_minutes v
    → invite_code w ≡ request.guest_invite_code
    → is_same_request (new_invoice id b s price v request fee) w request ≡ true
new_invoice-is_same_request id b s price v w request fee m c =
    rw
      (
        c,
        m,
        ==_refl request.check_out.instant,
        bool_eq_refl request.lost_ticket,
        bool_eq_refl request.overtime,
        ==_refl (request.extra_free_minutes + invite_minutes v),
      )
      (code_eq_refl request.guest_invite_code)

-- An invite that was used is the row of its key, with its minutes and its code.
invite_of-redeem :
    (invites : List GuestInvite) (b now : ℕ) (at : DateTime) (code : Option Text)
    (v : Option GuestInvite)
    → AreKeyed invites
    → Usable invites b at code v
    → (invite_minutes (invite_of (redeem now v invites) (invite_id v)) ≡ invite_minutes v)
      × (invite_code (invite_of (redeem now v invites) (invite_id v)) ≡ code)
invite_of-redeem invites b now at none none k h = (refl, refl)
invite_of-redeem invites b now at none (some v) k h = absurd h
invite_of-redeem invites b now at (some code) none k h = absurd h
invite_of-redeem invites b now at (some code) (some v) k (found, _, _) =
    let keyed : find (invite_key v.id) invites ≡ some v =
      find-Each (λ (x : GuestInvite). find (invite_key x.id) invites ≡ some x) (invite_in b code)
        invites k found in
    let seen : find (invite_key v.id) (redeem now (some v) invites)
        ≡ some (record v { redeemed_at = some (utc now) }) =
      find-update_first (invite_key v.id)
        (λ (w : GuestInvite). record w { redeemed_at = some (utc now) }) invites v keyed
        (==_refl v.id) in
    let same : v.code ≡ code =
      text_eq_sound v.code code
        (and_right (v.building_id == b) _ (find_test (invite_in b code) invites found)) in
    rw seen (refl, ap (λ (t : Text). some t) same)

module _ (now id : ℕ) (db : InvoiceStore) (b : ℕ) (request : InvoiceCreate) (i : Invoice)
    (after : InvoiceStore) (keyed : AreKeyed db.invites)
    (named : filled request.guest_invite_code ≡ request.guest_invite_code) where
  -- What the second request finds.
  Billed-found :
      (s : Session)
      → Billed now id db b request s i after
      → (after.sessions ≡ db.sessions)
        × (find (invoice_of s.id) after.ledger.invoices ≡ some i)
        × (is_same_request i (invite_of after.invites i.guest_invite_id) request ≡ true)
  unfolding issue find
  Billed-found s d =
      let usable =
        subst (λ (c : Option Text). Usable db.invites b request.check_out c d.invite) named
          d.usable in
      let (m, c) =
        invite_of-redeem db.invites b now request.check_out request.guest_invite_code d.invite keyed
          usable in
      subst
        (λ (q : Invoice × InvoiceStore).
          (q.1.sessions ≡ db.sessions)
          × (find (invoice_of s.id) q.1.ledger.invoices ≡ some q.0)
          × (is_same_request q.0 (invite_of q.1.invites q.0.guest_invite_id) request ≡ true))
        d.made
        (
          refl,
          rw (==_refl s.id) refl,
          new_invoice-is_same_request id b s d.price d.invite
              (invite_of (redeem now d.invite db.invites) (invite_id d.invite)) request d.fee m c,
        )

-- What a request that returns has found.
pub create_invoice_found :
    (now id : ℕ) (db : InvoiceStore) (b : ℕ) (request : InvoiceCreate) (q : Invoice × InvoiceStore)
    → create_invoice now id db b request ≡ ok q
    → (is_naive request.check_out ≡ false)
      × (s : Session) × (find (session_in request.transaction_id b) db.sessions ≡ some s)
      × (answer_or_bill now id db b request s (find (invoice_of s.id) db.ledger.invoices) ≡ ok q)
unfolding create_invoice
create_invoice_found now id db b request q h = elim (Bool-cases (is_naive request.check_out)) [
  | inl a ↦ cc (rw a at h)
  | inr a ↦ elim (Option-cases (find (session_in request.transaction_id b) db.sessions)) [
    | inl f ↦ cc (rw (a, f) at h)
    | inr (s, f) ↦ (a, s, f, rw (a, f) at h)
  ]
]

create_invoice_step :
    (now id : ℕ) (db : InvoiceStore) (b : ℕ) (request : InvoiceCreate) (s : Session) (i : Invoice)
    → is_naive request.check_out ≡ false
    → find (session_in request.transaction_id b) db.sessions ≡ some s
    → find (invoice_of s.id) db.ledger.invoices ≡ some i
    → is_same_request i (invite_of db.invites i.guest_invite_id) request ≡ true
    → create_invoice now id db b request ≡ ok (i, db)
unfolding create_invoice
create_invoice_step now id db b request s i a f g k = rw (a, f, g, k) refl

-- Where the key of invites is primary, a request for an invoice that has returned returns the same
-- invoice when it is sent again, at any time, and changes nothing, unless it has named an invite by
-- the empty code.
pub create_invoice_twice :
    (now id : ℕ) (db : InvoiceStore) (b : ℕ) (request : InvoiceCreate) (i : Invoice)
    (after : InvoiceStore)
    → AreKeyed db.invites
    → filled request.guest_invite_code ≡ request.guest_invite_code
    → create_invoice now id db b request ≡ ok (i, after)
    → (now' id' : ℕ) → create_invoice now' id' after b request ≡ ok (i, after)
create_invoice_twice now id db b request i after keyed named h now' id' =
    let (a, s, f, rest) = create_invoice_found now id db b request (i, after) h in
    elim (Option-cases (find (invoice_of s.id) db.ledger.invoices)) [
      | inr (j, g) ↦
          elim (Bool-cases (is_same_request j (invite_of db.invites j.guest_invite_id) request)) [
            | inr k ↦ cc (rw (g, answer_or_bill, k) at rest)
            | inl k ↦
                subst (λ (q : Invoice × InvoiceStore). create_invoice now' id' q.1 b request ≡ ok q)
                  (ok_injective (rw (g, answer_or_bill, k) at rest))
                  (create_invoice_step now' id' db b request s j a f g k)
          ]
      | inl g ↦
          let d = bill_session-Billed now id db b request s i after g (rw g at rest) in
          let (x, y, z) = Billed-found now id db b request i after keyed named s d in
          let there =
            subst (λ (l : List Session). find (session_in request.transaction_id b) l ≡ some s)
              (sym x) f in
          create_invoice_step now' id' after b request s i a there y z
    ]
