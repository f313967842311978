-- ===== src/Billing/Invoices/Invites.antt =====
-- An invite that is used once.
use vision_park_ai.Prelude.{ℕ, ◌≡◌, refl, sym, ap, ◌∙◌, true, Option, none, some, List}
use mathlib.Core.Path.{subst}
use vision_park_ai.Prelude.Text.{Text, filled}
use vision_park_ai.Errors.{ok}
use vision_park_ai.Clock.{DateTime, utc}
use vision_park_ai.Tables.{find, find_test, find-Each, find-update_same}
use vision_park_ai.Ledger.{Invoice}
use vision_park_ai.Sessions.{Session}
use vision_park_ai.Billing.Invoices.{
  GuestInvite, InvoiceCreate, InvoiceStore, session_in, invoice_of, invite_key, invite_in,
  is_redeemed, redeem, issue, create_invoice,
}
use vision_park_ai.Billing.Invoices.Billed.{AreKeyed, Usable, Billed, bill_session-Billed}
use vision_park_ai.Billing.Invoices.Repeat.{create_invoice_found}

-- A request that returns for a transaction with no invoice has billed it.
create_invoice-Billed :
    (now id : ℕ) (db : InvoiceStore) (b : ℕ) (request : InvoiceCreate) (i : Invoice)
    (after : InvoiceStore)
    → create_invoice now id db b request ≡ ok (i, after)
    → ((s : Session)
        → find (session_in request.transaction_id b) db.sessions ≡ some s
        → find (invoice_of s.id) db.ledger.invoices ≡ none)
    → (s : Session) × Billed now id db b request s i after
create_invoice-Billed now id db b request i after h fresh =
    let (a, s, f, rest) = create_invoice_found now id db b request (i, after) h in
    let g = fresh s f in (s, bill_session-Billed now id db b request s i after g (rw g at rest))

-- Once used, the invite of a code is redeemed.
Usable-redeemed :
    (invites : List GuestInvite) (b now : ℕ) (at : DateTime) (code : Text) (v : Option GuestInvite)
    → AreKeyed invites
    → Usable invites b at (some code) v
    → (w : GuestInvite) × (find (invite_in b code) (redeem now v invites) ≡ some w)
      × (is_redeemed w ≡ true)
Usable-redeemed invites b now at code none keyed u = absurd u
Usable-redeemed invites b now at code (some v) keyed (found, _, _) =
    let key : find (invite_key v.id) invites ≡ some v =
      find-Each (λ (x : GuestInvite). find (invite_key x.id) invites ≡ some x) (invite_in b code)
        invites keyed found in
    (
      record v { redeemed_at = some (utc now) },
      find-update_same (invite_key v.id) (invite_in b code)
          (λ (w : GuestInvite). record w { redeemed_at = some (utc now) }) invites v key found
          (find_test (invite_in b code) invites found),
      refl,
    )

redeemed-ne-Usable :
    (invites : List GuestInvite) (b : ℕ) (at : DateTime) (code : Text) (v : Option GuestInvite)
    (w : GuestInvite)
    → find (invite_in b code) invites ≡ some w
    → is_redeemed w ≡ true
    → ¬ Usable invites b at (some code) v
redeemed-ne-Usable invites b at code none w f r u = u
redeemed-ne-Usable invites b at code (some v) w f r (found, unused, _) =
    let same : some w ≡ some v = sym f ∙ found in
    let is : w ≡ v = cc in
    let now_used : is_redeemed v ≡ true = subst (λ (x : GuestInvite). is_redeemed x ≡ true) is r in
    cc

Billed-invites :
    (now id : ℕ) (db : InvoiceStore) (b : ℕ) (request : InvoiceCreate) (s : Session) (i : Invoice)
    (after : InvoiceStore) (d : Billed now id db b request s i after)
    → redeem now d.invite db.invites ≡ after.invites
unfolding issue
Billed-invites now id db b request s i after d =
    ap (λ (q : Invoice × InvoiceStore). q.1.invites) d.made

-- The transaction, if it is there, has no invoice yet.
abbrev pub IsFresh : InvoiceStore → ℕ → ℕ → Type 0
IsFresh db b transaction_id =
    (s : Session)
    → find (session_in transaction_id b) db.sessions ≡ some s
    → find (invoice_of s.id) db.ledger.invoices ≡ none

-- Where the key of invites is primary, an invite serves one invoice: once a request has named it
-- for a transaction with no invoice and returned, no request for another transaction with no
-- invoice that names it in the same building returns, whenever it comes.
pub create_invoice_one_invite :
    (now id : ℕ) (db : InvoiceStore) (b : ℕ) (request : InvoiceCreate) (i : Invoice)
    (after : InvoiceStore) (code : Text)
    → AreKeyed db.invites
    → IsFresh db b request.transaction_id
    → filled request.guest_invite_code ≡ some code
    → create_invoice now id db b request ≡ ok (i, after)
    → (now' id' : ℕ) (other : InvoiceCreate) (j : Invoice) (last : InvoiceStore)
    → IsFresh after b other.transaction_id
    → filled other.guest_invite_code ≡ some code
    → ¬ (create_invoice now' id' after b other ≡ ok (j, last))
create_invoice_one_invite now id db b request i after code keyed fresh named h now' id' other j last
      fresh' named' h' =
    let (s, d) = create_invoice-Billed now id db b request i after h fresh in
    let (t, d') = create_invoice-Billed now' id' after b other j last h' fresh' in
    let used =
      subst (λ (c : Option Text). Usable db.invites b request.check_out c d.invite) named
        d.usable in
    let again =
      subst (λ (c : Option Text). Usable after.invites b other.check_out c d'.invite) named'
        d'.usable in
    let (w, f, r) = Usable-redeemed db.invites b now request.check_out code d.invite keyed used in
    redeemed-ne-Usable after.invites b other.check_out code d'.invite w
      (subst (λ (l : List GuestInvite). find (invite_in b code) l ≡ some w)
        (Billed-invites now id db b request s i after d) f)
      r again
