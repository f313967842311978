-- ===== src/Pricing/Stable.antt =====
-- The prices that a new version leaves alone.
use vision_park_ai.Prelude.{
  ℕ, ◌+◌, ◌<◌, ◌≡◌, ◌≢◌, ◌⊎◌, refl, Bool, false, some, inl, inr, List, ◌∷◌, ◌++◌, ◌==◌, leb, any,
  select, arith, Bool-cases, Option-cases, Each, Each-map,
}
use mathlib.Core.Path.{subst}
use vision_park_ai.Prelude.Text.{Text}
use vision_park_ai.Errors.{ok, Result-cases, ok_injective}
use vision_park_ai.Clock.{DateTime, is_naive}
use vision_park_ai.Tables.{find}
use vision_park_ai.Ticket.{TicketKind}
use vision_park_ai.Pricing.{
  PricingVersion, PricingRule, PricingVersionCreate, PriceStore, in_force, newest, rule_for,
  select_price_snapshot, last_number, rule_rows, new_version, create_pricing_version,
}
use vision_park_ai.Pricing.Newest.{
  newest-Each, select-Each, find-append_unseen, rule_rows-version_id,
}

-- What a version that is made adds: itself, and rules that name it.
abbrev pub Added : ℕ → PriceStore → ℕ → PricingVersionCreate → PriceStore → Type 0
Added id db b payload after =
    (v : PricingVersion) × (rows : List PricingRule) × (v.id ≡ id)
    × (v.building_id ≡ b)
    × (v.version_number ≡ last_number b db.versions + 1)
    × (v.active_from ≡ payload.active_from)
    × (Each (λ (r : PricingRule). r.version_id ≡ id) rows)
    × (after.versions ≡ v ∷ db.versions)
    × (after.rules ≡ rows ++ db.rules)
    × (after.classes ≡ db.classes)

module _ (id rule_id : ℕ) (conflict : Bool) (db : PriceStore) (b actor_id : ℕ)
    (payload : PricingVersionCreate) (made : PricingVersion) (after : PriceStore) where
  pub create_pricing_version-Added :
      create_pricing_version id rule_id conflict db b actor_id payload ≡ ok (made, after)
      → Added id db b payload after
  unfolding create_pricing_version
  create_pricing_version-Added h = elim (Bool-cases (any (λ (k : ℕ). k == b) db.buildings)) [
    | inr a ↦ cc (rw a at h)
    | inl a ↦ elim (Result-cases (rule_rows b id db.classes rule_id payload.rules)) [
      | inr (x, c) ↦ cc (rw (a, c) at h)
      | inl (rows, c) ↦ elim (Bool-cases conflict) [
        | inl d ↦ cc (rw (a, c, d) at h)
        | inr d ↦
            subst (λ (q : PricingVersion × PriceStore). Added id db b payload q.1)
              (ok_injective (rw (a, c, d) at h))
              (
                new_version id db b actor_id payload,
                rows,
                refl,
                refl,
                refl,
                refl,
                rule_rows-version_id b id db.classes rule_id payload.rules rows c,
                refl,
                refl,
                refl,
              )
      ]
    ]
  ]

-- A version that is not in force is not looked at.
select-unseen :
    (b : ℕ) (at : DateTime) (v : PricingVersion) (vs : List PricingVersion)
    → in_force b at v ≡ false
    → select (in_force b at) (v ∷ vs) ≡ select (in_force b at) vs
select-unseen b at v vs h = rw h refl

-- The rules of a new version are not those of another.
rule_for-other :
    (id k : ℕ) (vehicle_type : Text) (kind : TicketKind) (class_id : ℕ) (rows : List PricingRule)
    → k ≢ id
    → Each (λ (r : PricingRule). r.version_id ≡ id) rows
    → Each (λ (r : PricingRule). rule_for k vehicle_type kind class_id r ≡ false) rows
rule_for-other id k vehicle_type kind class_id rows h e =
    Each-map (λ (r : PricingRule). r.version_id ≡ id)
      (λ (r : PricingRule). rule_for k vehicle_type kind class_id r ≡ false)
      (λ r f. let apart : (r.version_id == k) ≡ false = rw f (ground arith) in rw apart refl) rows e

not_in_force :
    (b b' : ℕ) (at start : DateTime) (v : PricingVersion)
    → v.building_id ≡ b
    → v.active_from ≡ start
    → (at.instant < start.instant) ⊎ (b' ≢ b)
    → in_force b' at v ≡ false
not_in_force b b' at start v e f (inr other) =
    let apart : (v.building_id == b') ≡ false = ground (arith, e) in rw apart refl
not_in_force b b' at start v e f (inl early) =
    let late : leb v.active_from.instant at.instant ≡ false = rw f (ground arith) in
    rw late (elim (Bool-cases (v.building_id == b')) [ inl a ↦ rw a refl | inr a ↦ rw a refl ])

module _ (db after : PriceStore) (b' : ℕ) (at : DateTime) (vehicle_type : Text) (kind : TicketKind)
    (class_id : ℕ)
    (versions : newest (select (in_force b' at) after.versions)
      ≡ newest (select (in_force b' at) db.versions))
    (classes : after.classes ≡ db.classes)
    (rules : (w : PricingVersion)
      → newest (select (in_force b' at) db.versions) ≡ some w
      → find (rule_for w.id vehicle_type kind class_id) after.rules
        ≡ find (rule_for w.id vehicle_type kind class_id) db.rules) where
  -- The same version, classes and rules give the same price.
  select_price_snapshot-same :
      select_price_snapshot after b' vehicle_type kind class_id at
      ≡ select_price_snapshot db b' vehicle_type kind class_id at
  unfolding select_price_snapshot
  select_price_snapshot-same = elim (Bool-cases (is_naive at)) [
    | inl n ↦ rw n refl
    | inr n ↦ elim (Option-cases (newest (select (in_force b' at) db.versions))) [
      | inl v ↦ rw (n, versions, v) refl
      | inr (w, v) ↦ rw (n, versions, v, classes, rules w v) refl
    ]
  ]

-- A new version, whose key is new, leaves each price as it was: those of other buildings, and those
-- of its own for each time before it starts, of whatever vehicle type, ticket kind and class, also
-- where there is none.
pub create_pricing_version-select_price_snapshot :
    (id rule_id : ℕ) (conflict : Bool) (db : PriceStore) (b actor_id : ℕ)
    (payload : PricingVersionCreate) (made : PricingVersion) (after : PriceStore)
    → Each (λ (w : PricingVersion). w.id ≢ id) db.versions
    → create_pricing_version id rule_id conflict db b actor_id payload ≡ ok (made, after)
    → (b' : ℕ) (at : DateTime) → (at.instant < payload.active_from.instant) ⊎ (b' ≢ b)
    → (vehicle_type : Text) (kind : TicketKind) (class_id : ℕ)
    → select_price_snapshot after b' vehicle_type kind class_id at
      ≡ select_price_snapshot db b' vehicle_type kind class_id at
create_pricing_version-select_price_snapshot id rule_id conflict db b actor_id payload made after
      fresh h b' at away vehicle_type kind class_id =
    let (v, rows, _, e, _, f, own, versions, rules, classes) =
      create_pricing_version-Added id rule_id conflict db b actor_id payload made after h in
    let out = not_in_force b b' at payload.active_from v e f away in
    select_price_snapshot-same db after b' at vehicle_type kind class_id (rw (versions, out) refl)
      classes
      (λ w k.
        let other : w.id ≢ id =
          newest-Each (λ (x : PricingVersion). x.id ≢ id) (select (in_force b' at) db.versions) w
            (select-Each (λ (x : PricingVersion). x.id ≢ id) (in_force b' at) db.versions fresh)
            k in
        rw rules (
          find-append_unseen (rule_for w.id vehicle_type kind class_id) rows db.rules
            (rule_for-other id w.id vehicle_type kind class_id rows other own)))
