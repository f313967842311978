-- ===== src/Capacity/Limits.antt =====
-- The limits that a configuration gives.
use vision_park_ai.Prelude.{◌↔◌, ◌≡◌, ◌⊎◌, true, false, Option, none, some}
use vision_park_ai.Prelude.Int.{ℤ, pos, ◌+ℤ◌, ◌-ℤ◌, ◌≤ℤ◌, int_laws}
use vision_park_ai.Prelude.Text.{Text, Unicode, upper}
use vision_park_ai.Capacity.{
  Number, capacity_entry, get_or, LotSettings, CapacityQuotaConfig,
  calculate_effective_capacity_limit, check_capacity_and_quota_stub, is_privileged, max_ℤ, min_ℤ,
}

module _ (u : Unicode) (cfg : CapacityQuotaConfig) (cls : Text) where
  -- With a count that is not negative, a visitor is let in exactly when the safe capacity has room
  -- for the vehicles counted, those of both quotas and the visitor's own.
  pub check_capacity_and_quota_stub_visitor :
      (occupied : ℤ)
      → is_privileged u cls ≡ false
      → pos 0 ≤ℤ occupied
      → (check_capacity_and_quota_stub u cfg occupied cls ≡ true)
        ↔ (occupied +ℤ (cfg.resident_quota +ℤ cfg.staff_quota) +ℤ pos 1 ≤ℤ cfg.safe_capacity)
  unfolding check_capacity_and_quota_stub calculate_effective_capacity_limit
  check_capacity_and_quota_stub_visitor occupied v h =
      let e : calculate_effective_capacity_limit u cfg cls
          ≡ max_ℤ (pos 0) (
              cfg.safe_capacity
              -ℤ min_ℤ cfg.safe_capacity (cfg.resident_quota +ℤ cfg.staff_quota)) =
        rw v in
      grind int_laws

-- A number between nought and one.
abbrev pub IsPart : Option Number → Type 0
IsPart none = ⊥
IsPart (some x) = (x.below ≡ false) × (x.whole ≡ 0) × (x.fraction ≡ true)

-- The physical capacity is a place at least, or nought where it is set to a fraction of one.
abbrev Physical : CapacityQuotaConfig → Option Number → Type 0
Physical cfg o = (pos 1 ≤ℤ cfg.physical_capacity) ⊎ ((cfg.physical_capacity ≡ pos 0) × IsPart o)

-- The physical capacity that the settings of a type have.
abbrev pub set_physical : Unicode → (Text → Text) → Option LotSettings → Text → Option Number
set_physical u lower none v = none
set_physical u lower (some s) v = get_or none (capacity_entry lower s (upper u v)).physical_capacity

-- What a limit may be: not negative, and for residents and staff a place at least or, where the
-- physical capacity is set to a fraction of one, nought.
abbrev pub Limit : Unicode → Text → ℤ → Option Number → Type 0
Limit u cls limit o =
    (pos 0 ≤ℤ limit)
    × ((is_privileged u cls ≡ false) ⊎ (pos 1 ≤ℤ limit) ⊎ ((limit ≡ pos 0) × IsPart o))
