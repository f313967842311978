-- ===== src/Ticket/Tests.antt =====
-- The theorems on tickets at a monthly ticket in its days of grace.
use vision_park_ai.Prelude.{◌*◌, ◌≡◌, ◌⊎◌, ◌↔◌, refl, true, false, none, some, arith}
use vision_park_ai.Prelude.Text.{codes, ascii}
use vision_park_ai.Errors.{ok}
use vision_park_ai.Clock.{utc, day}
use vision_park_ai.Ticket.{
  TicketKind, TicketEntitlement, AccessResult, review, zone_differs, plate_differs, code_differs,
  check_ticket_access,
}
use vision_park_ai.Ticket.Decisions.{
  Fits, InForce, AllowsEntry, check_ticket_access_allow, check_ticket_access_review,
}

abbrev pass : TicketEntitlement
pass = record {
  kind = TicketKind.monthly;
  plate = some (codes "51B12345");
  ticket_code = none;
  zone_id = some 3;
  valid_from = utc 0;
  valid_until = utc (30 * day);
  grace_days = 3;
  invite_free_minutes = 0;
}

check_ticket_access_allow_example :
    AllowsEntry (
      check_ticket_access ascii
        (some pass)
        (utc (32 * day))
        (some (codes "51b12345"))
        none
        (some 3))
    ↔ (Fits ascii pass (some (codes "51b12345")) none (some 3) × InForce pass (32 * day))
check_ticket_access_allow_example =
    check_ticket_access_allow ascii pass (utc (32 * day)) (some (codes "51b12345")) none (some 3)
      refl refl refl (omega arith)

check_ticket_access_review_example :
    ((r : AccessResult) × (check_ticket_access ascii
          (some pass)
          (utc day)
          (some (codes "51B99999"))
          none
          (some 3)
        ≡ ok r)
      × (r.decision ≡ review))
    ↔ ((zone_differs (some 3) (some 3) ≡ false)
        × ((plate_differs ascii (some (codes "51B12345")) (some (codes "51B99999")) ≡ true)
            ⊎ (code_differs none none ≡ true)))
check_ticket_access_review_example =
    check_ticket_access_review ascii pass (utc day) (some (codes "51B99999")) none (some 3) refl
      refl refl (omega arith)
