-- ===== src/Billing/Invoices/Billed.antt =====
-- What a new invoice is made by.
use vision_park_ai.Prelude.{
  ℕ, ◌≡◌, refl, Bool, true, false, not, Option, none, some, inl, inr, List, leb, Bool-cases,
  Option-cases, Each,
}
use mathlib.Core.Path.{subst}
use vision_park_ai.Prelude.Text.{Text, filled}
use vision_park_ai.Errors.{
  ok, Result-cases, ok_injective, guarded-ok, two_calls-ok, app_error, not_parked, ◌>>=◌,
}
use vision_park_ai.Clock.{DateTime, assume_utc}
use vision_park_ai.Tables.{find}
use vision_park_ai.Fee.Snapshot.{PriceSnapshot}
use vision_park_ai.Fee.{FeeResult}
use vision_park_ai.Ledger.{Invoice}
use vision_park_ai.Sessions.{Session}
use vision_park_ai.Billing.Invoices.{
  GuestInvite, InvoiceCreate, InvoiceStore, invoice_of, invite_key, invite_in, is_parked,
  whole_snapshot, is_redeemed, is_valid_at, check_invite, find_invite, bill_session, issue,
  invoice_fee, bill_with,
}

-- Each invite is the one that its key finds.
abbrev pub AreKeyed : List GuestInvite → Type 0
AreKeyed invites = Each (λ (v : GuestInvite). find (invite_key v.id) invites ≡ some v) invites

-- An invite that a request may use: the first of its code, not redeemed, and valid then.
abbrev pub Usable : List GuestInvite → ℕ → DateTime → Option Text → Option GuestInvite → Type 0
Usable invites b at none none = Unit {0}
Usable invites b at none (some v) = ⊥
Usable invites b at (some code) none = ⊥
Usable invites b at (some code) (some v) =
    (find (invite_in b code) invites ≡ some v) × (is_redeemed v ≡ false) × (is_valid_at v at ≡ true)

-- What a transaction is billed by.
pub record Billed (now id : ℕ) (db : InvoiceStore) (b : ℕ) (request : InvoiceCreate) (s : Session)
    (i : Invoice) (after : InvoiceStore) : Type 0 where
  pub price : PriceSnapshot
  pub invite : Option GuestInvite
  pub fee : FeeResult
  pub fresh : find (invoice_of s.id) db.ledger.invoices ≡ none
  pub is_in : is_parked s.status ≡ true
  pub snapshot : whole_snapshot s.price_snapshot ≡ ok price
  pub usable : Usable db.invites b request.check_out (filled request.guest_invite_code) invite
  pub bill : invoice_fee request s price invite ≡ ok fee
  pub made : issue now id db b request s price invite fee ≡ (i, after)

find_invite-Usable :
    (invites : List GuestInvite) (b : ℕ) (at : DateTime) (code : Option Text)
    (v : Option GuestInvite)
    → find_invite invites b at code ≡ ok v
    → Usable invites b at code v
unfolding find_invite
find_invite-Usable invites b at none none h = tt
find_invite-Usable invites b at none (some v) h = cc
find_invite-Usable invites b at (some code) v h =
    elim (Option-cases (find (invite_in b code) invites)) [
      | inl a ↦ cc (rw a at h)
      | inr (w, a) ↦ elim (Bool-cases (is_redeemed w)) [
        | inl c ↦ cc (rw (a, check_invite, c) at h)
        | inr c ↦ elim (Bool-cases (is_valid_at w at)) [
          | inr d ↦ cc (rw (a, check_invite, c, d) at h)
          | inl d ↦
              let same : some w ≡ v = ok_injective (rw (a, check_invite, c, d) at h) in
              subst (Usable invites b at (some code)) same (a, c, d)
        ]
      ]
    ]

denied : (b : Bool) → not b ≡ false → b ≡ true
denied true h = refl
denied false h = cc

module _ (now id : ℕ) (db : InvoiceStore) (b : ℕ) (request : InvoiceCreate) (s : Session)
    (i : Invoice) (after : InvoiceStore) where
  bill_with-fee :
      (price : PriceSnapshot) (v : Option GuestInvite)
      → bill_with now id db b request s price v ≡ ok (i, after)
      → (fee : FeeResult) × (invoice_fee request s price v ≡ ok fee)
        × (issue now id db b request s price v fee ≡ (i, after))
  unfolding bill_with
  bill_with-fee price v h =
      elim (Bool-cases (leb request.check_out.instant (assume_utc s.check_in_time).instant)) [
        | inl f ↦ cc (rw f at h)
        | inr f ↦ elim (Result-cases (invoice_fee request s price v)) [
          | inr (x, g) ↦ cc (rw (f, g) at h)
          | inl (fee, g) ↦ (fee, g, ok_injective (rw (f, g) at h))
        ]
      ]

  pub bill_session-Billed :
      find (invoice_of s.id) db.ledger.invoices ≡ none
      → bill_session now id db b request s ≡ ok (i, after)
      → Billed now id db b request s i after
  unfolding bill_session
  bill_session-Billed fresh h =
      let invited = find_invite db.invites b request.check_out (filled request.guest_invite_code) in
      let (a, rest) =
        guarded-ok (not (is_parked s.status)) (app_error 409 not_parked)
          (whole_snapshot s.price_snapshot >>= λ p. invited >>= bill_with now id db b request s p)
          h in
      let (price, v, c, d, last) =
        two_calls-ok (whole_snapshot s.price_snapshot) invited (bill_with now id db b request s)
          rest in
      let (fee, g, made) = bill_with-fee price v last in
      record {
        price = price;
        invite = v;
        fee = fee;
        fresh = fresh;
        is_in = denied (is_parked s.status) a;
        snapshot = c;
        usable =
            find_invite-Usable db.invites b request.check_out (filled request.guest_invite_code) v
              d;
        bill = g;
        made = made;
      }
