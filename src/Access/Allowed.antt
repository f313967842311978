-- ===== src/Access/Allowed.antt =====
-- What a car that is let in has shown.
use vision_park_ai.Prelude.{
  ℕ, ◌≡◌, ◌⊎◌, refl, Bool, true, false, not, ◌&&◌, Option, inl, inr, Bool-cases,
}
use vision_park_ai.Prelude.Text.{is_filled, Text, codes, text_eq, Unicode}
use vision_park_ai.Errors.{ok, Result-cases}
use vision_park_ai.Ticket.{AccessDecision, allow, review}
use vision_park_ai.Capacity.{CapacityQuotaConfig, check_capacity_and_quota_stub}
use vision_park_ai.Counters.{CounterStore, get_or_create_counter}
use vision_park_ai.Access.{
  Arrival, TicketRows, check_blacklist_stub, verify_ticket_entitlement_for_checkin,
  check_access_control, lane_differs, check_space, after_ticket, evaluate_access_control,
}

has_code : (x y : Bool) → (x && not y) ≡ false → x ≡ true → y ≡ true
has_code true true h k = refl
has_code true false h k = cc
has_code false y h k = cc

module _ (u : Unicode) (rows : TicketRows) (cfg : CapacityQuotaConfig) (id : ℕ) (db : CounterStore)
    (lane_type : Option Text) (b : Option ℕ) (a : Arrival) (customer_class : Text)
    (override : Option Text) where
  -- The ticket is right and there is room, or a reviewed ticket is overridden with a reason.
  abbrev pub HasRight : Type 0
  HasRight =
      ((verify_ticket_entitlement_for_checkin u rows b a ≡ ok allow)
        × (check_capacity_and_quota_stub u cfg
              (get_or_create_counter u id db b a.vehicle_type).0.occupied customer_class
            ≡ true))
      ⊎ ((verify_ticket_entitlement_for_checkin u rows b a ≡ ok review)
          × (is_filled override ≡ true))

  after_ticket_allow :
      (d : AccessDecision) (after : CounterStore)
      → after_ticket d override (check_space u cfg id db b a.vehicle_type customer_class) db
        ≡ (allow, after)
      → ((d ≡ allow)
          × (check_capacity_and_quota_stub u cfg
                (get_or_create_counter u id db b a.vehicle_type).0.occupied
                customer_class
              ≡ true))
        ⊎ ((d ≡ review) × (is_filled override ≡ true))
  after_ticket_allow AccessDecision.deny after h = cc
  after_ticket_allow AccessDecision.allow after h =
      elim (Bool-cases (
        check_capacity_and_quota_stub u cfg
          (get_or_create_counter u id db b a.vehicle_type).0.occupied customer_class)) [
            | inl e ↦ inl (refl, e)
            | inr e ↦ cc (rw e at h)
          ]
  after_ticket_allow AccessDecision.review after h = elim (Bool-cases (is_filled override)) [
    | inl e ↦ inr (refl, e)
    | inr e ↦ cc (rw e at h)
  ]

  -- Whoever is let in drives a type that the lane takes, shows a ticket code if it is a bicycle, is
  -- not on the blacklist, and either has a ticket decision of ALLOW and finds room within the limit
  -- of the class, or has one of REVIEW and is let in by an override with a reason.
  pub evaluate_access_control_allow :
      (after : CounterStore)
      → evaluate_access_control u rows cfg id db lane_type b a customer_class override
        ≡ ok (allow, after)
      → (lane_differs lane_type a.vehicle_type ≡ false)
        × (text_eq a.vehicle_type (codes "BICYCLE") ≡ true → is_filled a.ticket_code ≡ true)
        × (check_blacklist_stub u a.license_plate ≡ false)
        × HasRight
  unfolding evaluate_access_control check_access_control
  evaluate_access_control_allow after h =
      elim (Bool-cases (lane_differs lane_type a.vehicle_type)) [
        | inl e ↦ cc (rw e at h)
        | inr e ↦
            elim (Bool-cases
              (text_eq a.vehicle_type (codes "BICYCLE") && not (is_filled a.ticket_code))) [
                | inl f ↦ cc (rw (e, f) at h)
                | inr f ↦ elim (Bool-cases (check_blacklist_stub u a.license_plate)) [
                  | inl g ↦ cc (rw (e, f, g) at h)
                  | inr g ↦ elim (Result-cases (verify_ticket_entitlement_for_checkin u rows b a)) [
                    | inr (x, v) ↦ cc (rw (e, f, g, v) at h)
                    | inl (d, v) ↦
                        let right = after_ticket_allow d after (cc (rw (e, f, g, v) at h)) in
                        (
                          e,
                          λ bike. has_code _ _ f bike,
                          g,
                          elim right [
                            | inl (same, room) ↦ inl (rw same at v, room)
                            | inr (same, reason) ↦ inr (rw same at v, reason)
                          ],
                        )
                  ]
                ]
              ]
      ]
