-- ===== src/Pricing/Current.antt =====
-- The prices that a new version sets.
use vision_park_ai.Prelude.{
  ℕ, ◌<◌, ◌≤◌, ◌≡◌, refl, sym, ap, ◌∙◌, max, Bool, true, false, not, some, inl, inr, List, [], ◌∷◌,
  ◌==◌, select, arith, Bool-cases, Option-cases, Each, Each-map, Each-both,
}
use mathlib.Core.Path.{subst}
use vision_park_ai.Prelude.Text.{Text}
use vision_park_ai.Errors.{Result, ok, ok_injective, guarded-ok, raise_if, ◌>>◌, value_error}
use vision_park_ai.Clock.{DateTime, is_naive}
use vision_park_ai.Tables.{find}
use vision_park_ai.Ticket.{TicketKind}
use vision_park_ai.Fee.Snapshot.{
  PriceSnapshot, check_rule, fields_fit, cap_fits, overlap_free, sort_windows,
}
use vision_park_ai.Pricing.{
  PricingVersion, PricingVersionCreate, PriceStore, in_force, is_newer, newer, newest, class_in,
  rule_for, snapshot_of, select_price_snapshot, last_number, create_pricing_version,
}
use vision_park_ai.Pricing.Newest.{newest-Each}
use vision_park_ai.Pricing.Stable.{create_pricing_version-Added}

check_rule-ok : (s t : PriceSnapshot) → check_rule s ≡ ok t → s ≡ t
unfolding check_rule
check_rule-ok s t h =
    let ends : Result PriceSnapshot =
      raise_if (not (overlap_free (sort_windows s.windows))) value_error >> ok s in
    let (_, h') =
      guarded-ok (not (fields_fit s)) value_error (raise_if (not (cap_fits s)) value_error >> ends)
        h in
    let (_, h'') = guarded-ok (not (cap_fits s)) value_error ends h' in
    let (_, last) =
      guarded-ok (not (overlap_free (sort_windows s.windows))) value_error (ok s) h'' in
    ok_injective last

abbrev Below : ℕ → List PricingVersion → ℕ → Type 0
Below b vs n = Each (λ (w : PricingVersion). w.building_id ≡ b → w.version_number ≤ n) vs

-- No version of a building has a higher number than the last.
last_number_bounds : (b : ℕ) (vs : List PricingVersion) → Below b vs (last_number b vs)
unfolding last_number
last_number_bounds b [] = tt
last_number_bounds b (v ∷ vs) = elim (Bool-cases (v.building_id == b)) [
  | inl a ↦
      let step : last_number b (v ∷ vs) ≡ max v.version_number (last_number b vs) = rw a refl in
      subst (Below b (v ∷ vs)) (sym step) (
        λ e. omega arith,
        Each-map (λ (w : PricingVersion). w.building_id ≡ b → w.version_number ≤ last_number b vs)
            (λ (w : PricingVersion).
              w.building_id ≡ b → w.version_number ≤ max v.version_number (last_number b vs))
            (λ w h e. omega (arith, h e)) vs (last_number_bounds b vs),
      )
  | inr a ↦
      let step : last_number b (v ∷ vs) ≡ last_number b vs = rw a refl in
      subst (Below b (v ∷ vs)) (sym step)
        (λ e. absurd (ground (arith, e, a)), last_number_bounds b vs)
]

-- Of the rows that pass a test, what the test gives.
select-Each_if :
    (P : PricingVersion → Type 0) (p : PricingVersion → Bool) (xs : List PricingVersion)
    → Each (λ (x : PricingVersion). p x ≡ true → P x) xs
    → Each P (select p xs)
select-Each_if P p [] h = tt
select-Each_if P p (x ∷ xs) h = elim (Bool-cases (p x)) [
  | inl a ↦ rw a (h.0 a, select-Each_if P p xs h.1)
  | inr a ↦ rw a (select-Each_if P p xs h.1)
]

newer-first :
    (v : PricingVersion) (vs : List PricingVersion)
    → Each (λ (w : PricingVersion). is_newer w v ≡ false) vs
    → newer v (newest vs) ≡ v
newer-first v vs h = elim (Option-cases (newest vs)) [
  | inl a ↦ rw a refl
  | inr (w, a) ↦
      let older : is_newer w v ≡ false =
        newest-Each (λ (x : PricingVersion). is_newer x v ≡ false) vs w h a in
      rw (a, older) refl
]

newest-first :
    (v : PricingVersion) (vs : List PricingVersion)
    → newer v (newest vs) ≡ v
    → newest (v ∷ vs) ≡ some v
unfolding newest
newest-first v vs h = ap (λ (x : PricingVersion). some x) h

in_force-building :
    (b : ℕ) (at : DateTime) (w : PricingVersion) → in_force b at w ≡ true → w.building_id ≡ b
in_force-building b at w h = ground arith

-- A version that starts no earlier and has a higher number is not behind another.
older :
    (w v : PricingVersion)
    → w.active_from.instant ≤ v.active_from.instant
    → w.version_number < v.version_number
    → is_newer w v ≡ false
older w v h k = ground arith

module _ (db : PriceStore) (b : ℕ) (vehicle_type : Text) (kind : TicketKind) (class_id : ℕ)
    (at : DateTime) (v : PricingVersion) (snapshot : PriceSnapshot)
    (current : newest (select (in_force b at) db.versions) ≡ some v) where
  -- A price that is found is of the newest version.
  select_price_snapshot-version_id :
      select_price_snapshot db b vehicle_type kind class_id at ≡ ok snapshot
      → snapshot.version_id ≡ v.id
  unfolding select_price_snapshot
  select_price_snapshot-version_id h = elim (Bool-cases (is_naive at)) [
    | inl n ↦ cc (rw n at h)
    | inr n ↦ elim (Option-cases (find (class_in class_id b) db.classes)) [
      | inl c ↦ cc (rw (n, current, c) at h)
      | inr (c, e) ↦
          elim (Option-cases (find (rule_for v.id vehicle_type kind class_id) db.rules)) [
            | inl r ↦ cc (rw (n, current, e, r) at h)
            | inr (r, f) ↦
                let same : snapshot_of vehicle_type kind v c r ≡ snapshot =
                  check_rule-ok (snapshot_of vehicle_type kind v c r) snapshot
                    (rw (n, current, e, f) at h) in
                ap (λ (x : PriceSnapshot). x.version_id) (sym same)
          ]
    ]
  ]

-- From its start on, and as long as no version of its building that starts later is in force, a
-- price of the building that is found is of the new version.
pub create_pricing_version-version_id :
    (id rule_id : ℕ) (conflict : Bool) (db : PriceStore) (b actor_id : ℕ)
    (payload : PricingVersionCreate) (made : PricingVersion) (after : PriceStore)
    → create_pricing_version id rule_id conflict db b actor_id payload ≡ ok (made, after)
    → (at : DateTime) → payload.active_from.instant ≤ at.instant
    → Each
        (λ (w : PricingVersion).
          in_force b at w ≡ true → w.active_from.instant ≤ payload.active_from.instant)
        db.versions
    → (vehicle_type : Text) (kind : TicketKind) (class_id : ℕ) (snapshot : PriceSnapshot)
    → select_price_snapshot after b vehicle_type kind class_id at ≡ ok snapshot
    → snapshot.version_id ≡ id
create_pricing_version-version_id id rule_id conflict db b actor_id payload made after h at started
      others vehicle_type kind class_id snapshot k =
    let (v, _, key, home, number, start, _, versions, _, _) =
      create_pricing_version-Added id rule_id conflict db b actor_id payload made after h in
    let behind : Each (λ (w : PricingVersion). in_force b at w ≡ true → is_newer w v ≡ false)
        db.versions =
      Each-map
        (λ (w : PricingVersion).
          (in_force b at w ≡ true → w.active_from.instant ≤ payload.active_from.instant)
          × (w.building_id ≡ b → w.version_number ≤ last_number b db.versions))
        (λ (w : PricingVersion). in_force b at w ≡ true → is_newer w v ≡ false)
        (λ w (early, low) on.
          older w v (rw start (early on))
            (rw number (omega (arith, low (in_force-building b at w on)))))
        db.versions (Each-both _ _ db.versions others (last_number_bounds b db.versions)) in
    let on : in_force b at v ≡ true = rw (home, start) (ground arith) in
    let first = newer-first v (select (in_force b at) db.versions) (
      select-Each_if (λ (w : PricingVersion). is_newer w v ≡ false) (in_force b at) db.versions
        behind) in
    let current : newest (select (in_force b at) after.versions) ≡ some v =
      ap (λ (ws : List PricingVersion). newest (select (in_force b at) ws)) versions
      ∙ rw on (newest-first v (select (in_force b at) db.versions) first) in
    select_price_snapshot-version_id after b vehicle_type kind class_id at v snapshot current k
    ∙ key
