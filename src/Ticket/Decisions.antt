-- ===== src/Ticket/Decisions.antt =====
-- When `check_ticket_access` lets a car in.
use vision_park_ai.Prelude.{
  ℕ, ◌+◌, ◌*◌, ◌≤◌, ◌≡◌, ◌≢◌, ◌⊎◌, ◌↔◌, true, false, Option, some, arith, ltb,
}
use vision_park_ai.Prelude.Text.{Text, Unicode}
use vision_park_ai.Errors.{Result, ok, raise}
use vision_park_ai.Clock.{DateTime, is_naive, day}
use vision_park_ai.Ticket.{
  TicketKind, allow, review, TicketEntitlement, AccessResult, zone_differs, plate_differs,
  code_differs, is_monthly, check_validity, check_match, check_ticket_access,
}

-- The instants at which a ticket opens the gate: its own span, and for a monthly ticket the days
-- of grace after it.
abbrev pub InForce : TicketEntitlement → ℕ → Type 0
InForce t at =
    (t.valid_from.instant ≤ at)
    × ((at ≤ t.valid_until.instant)
        ⊎ ((t.kind ≡ TicketKind.monthly) × (at ≤ t.valid_until.instant + t.grace_days * day)))

-- The ticket is for this zone, this plate and this code.
abbrev pub Fits : Unicode → TicketEntitlement → Option Text → Option Text → Option ℕ → Type 0
Fits u t plate code zone_id =
    (zone_differs t.zone_id zone_id ≡ false)
    × (plate_differs u t.plate plate ≡ false)
    × (code_differs t.ticket_code code ≡ false)

abbrev pub AllowsEntry : Result AccessResult → Type 0
AllowsEntry (ok r) = r.decision ≡ allow
AllowsEntry (raise e) = ⊥

is_monthly_sound : (k : TicketKind) → is_monthly k ≡ true → k ≡ TicketKind.monthly
is_monthly_sound k h = ground arith

is_monthly_complete : (k : TicketKind) → k ≡ TicketKind.monthly → is_monthly k ≡ true
is_monthly_complete k h = rw h

module _ (t : TicketEntitlement) (at : ℕ) where
  check_validity_sound : (check_validity t at).decision ≡ allow → InForce t at
  unfolding check_validity
  check_validity_sound h = ground (arith, is_monthly_sound t.kind)

  check_validity_complete : InForce t at → (check_validity t at).decision ≡ allow
  unfolding check_validity
  check_validity_complete h = ground (arith, is_monthly_complete t.kind)

  check_validity-ne-review : (check_validity t at).decision ≢ review
  unfolding check_validity
  check_validity-ne-review h = ground arith

module _ (u : Unicode) (t : TicketEntitlement) (at : DateTime) (plate code : Option Text)
    (zone_id : Option ℕ) (now_aware : is_naive at ≡ false)
    (from_aware : is_naive t.valid_from ≡ false) (until_aware : is_naive t.valid_until ≡ false)
    (order : t.valid_from.instant ≤ t.valid_until.instant) where
  returns_match :
      check_ticket_access u (some t) at plate code zone_id
      ≡ ok (check_match u t at.instant plate code zone_id)
  unfolding check_ticket_access
  returns_match =
      let o : ltb t.valid_until.instant t.valid_from.instant ≡ false = ground arith in
      rw (now_aware, from_aware, until_aware, o)

  check_match_allow :
      ((check_match u t at.instant plate code zone_id).decision ≡ allow)
      ↔ (Fits u t plate code zone_id × InForce t at.instant)
  unfolding check_match
  check_match_allow = (
    λ h. ground (arith, check_validity_sound t at.instant),
    λ h. ground (arith, check_validity_complete t at.instant h.1),
  )

  -- For a ticket whose times are aware and in order, the answer is ALLOW exactly when the ticket is
  -- for this zone, plate and code and the time lies in its span or, for a monthly ticket, in the
  -- days of grace after it.
  pub check_ticket_access_allow :
      AllowsEntry (check_ticket_access u (some t) at plate code zone_id)
      ↔ (Fits u t plate code zone_id × InForce t at.instant)
  check_ticket_access_allow = rw returns_match check_match_allow

  -- For such a ticket the answer is REVIEW exactly when the zone is right and the plate or the code
  -- is not; the time is not looked at.
  pub check_ticket_access_review :
      ((r : AccessResult) × (check_ticket_access u (some t) at plate code zone_id ≡ ok r)
        × (r.decision ≡ review))
      ↔ ((zone_differs t.zone_id zone_id ≡ false)
          × ((plate_differs u t.plate plate ≡ true) ⊎ (code_differs t.ticket_code code ≡ true)))
  unfolding check_match
  check_ticket_access_review = (
    λ (r, e, d). ground (arith, returns_match, check_validity-ne-review t at.instant),
    λ (z, w). (check_match u t at.instant plate code zone_id, returns_match, ground arith),
  )
