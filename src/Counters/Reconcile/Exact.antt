-- ===== src/Counters/Reconcile/Exact.antt =====
-- After a reconciliation the counters are what the sessions say.
use vision_park_ai.Prelude.{
  ℕ, suc, ◌≡◌, refl, ◌∙◌, true, false, ◌||◌, Option, none, inl, inr, List, [], ◌∷◌, arith,
  Bool-cases, Each, Each-map, Each-both, Each-all,
}
use vision_park_ai.Prelude.Int.{ℤ, pos, ◌+ℤ◌, ◌-ℤ◌, ltb_ℤ, eqb_ℤ, int_laws}
use vision_park_ai.Prelude.Text.{Text, Unicode, upper, text_eq, is_letter, is_digit, codes}
use vision_park_ai.Errors.{ok}
use vision_park_ai.Counters.{
  ParkingCounter, CounterStore, get_or_create_counter, post, adjust_counter,
}
use vision_park_ai.Counters.Slots.{
  occupancy, same_slot_apart, occupancy-write_occupied, get_or_create_counter-Got,
}
use vision_park_ai.Counters.Counts.{occupancy-post}
use vision_park_ai.Counters.Reconcile.{
  DiscrepancyDetail, detail, list_drift, check_types, adjust_all, ReconcileLog, log_for,
  reconcile_and_adjust, Reconciled, count_of, get_active_session_counts, vehicle_types, has_items,
}

-- The details by the counts alone.
abbrev pub drifts : (Text → ℤ) → (Text → ℕ) → List Text → List DiscrepancyDetail
drifts occupied active [] = []
drifts occupied active (t ∷ ts) =
    list_drift (detail t (occupied t) (active t)) (drifts occupied active ts)

abbrev pub AllUpper : Unicode → List Text → Type 0
AllUpper u ts = Each (λ (t : Text). upper u t ≡ t) ts

drifts_ext :
    (f g : Text → ℤ) (active : Text → ℕ) (ts : List Text)
    → ((t : Text) → f t ≡ g t)
    → drifts f active ts ≡ drifts g active ts
drifts_ext f g active [] h = refl
drifts_ext f g active (t ∷ ts) h = rw (h t, drifts_ext f g active ts h)

-- The check lists the drifts and changes no count.
check_types_lem :
    (u : Unicode) (id : ℕ) (db : CounterStore) (b : Option ℕ) (active : Text → ℕ) (ts : List Text)
    → AllUpper u ts
    → ((check_types u id db b active ts).0 ≡ drifts (λ t. occupancy b t db) active ts)
      × ((b' : Option ℕ) (v : Text)
          → occupancy b' v (check_types u id db b active ts).1 ≡ occupancy b' v db)
unfolding check_types
check_types_lem u id db b active [] h = (refl, λ _ _. refl)
check_types_lem u id db b active (t ∷ ts) (h, hs) =
    let (there, count, others, events) = get_or_create_counter-Got u id db b t h in
    let (items, kept) =
      check_types_lem u (suc id) (get_or_create_counter u id db b t).1 b active ts hs in
    let same =
      drifts_ext (λ v. occupancy b v (get_or_create_counter u id db b t).1) (λ v. occupancy b v db)
        active ts (others b) in
    (rw (items, same, count), λ b' v. kept b' v ∙ others b' v)

-- An adjustment to a count of ℕ is made, and no other slot changes.
adjust_counter-to :
    (u : Unicode) (id : ℕ) (db : CounterStore) (b : Option ℕ) (t : Text) (n : ℕ) (d : ℤ)
    (reason : Text)
    → upper u t ≡ t
    → eqb_ℤ d (pos 0) ≡ false
    → occupancy b t db +ℤ d ≡ pos n
    → (c : ParkingCounter) × (after : CounterStore) × (adjust_counter u id db b t d reason
        ≡ ok (c, after))
      × (occupancy b t after ≡ pos n)
      × ((v : Text) → text_eq t v ≡ false → occupancy b v after ≡ occupancy b v db)
unfolding adjust_counter
adjust_counter-to u id db b t n d reason h f e =
    let got = get_or_create_counter u id db b t in
    let (there, count, others, events) = get_or_create_counter-Got u id db b t h in
    let new_val : got.0.occupied +ℤ d ≡ pos n = rw count e in
    let g : ltb_ℤ (got.0.occupied +ℤ d) (pos 0) ≡ false = rw new_val (ground arith) in
    let done = post b t got.0 (got.0.occupied +ℤ d) d none reason got.1 in
    (
      done.0,
      done.1,
      rw (h, f, g),
      occupancy-post u id db b t h (got.0.occupied +ℤ d) d none reason ∙ new_val,
      λ v x.
          rw (same_slot_apart b t v x) at
            (occupancy-write_occupied b b t v (got.0.occupied +ℤ d) got.1 got.0 there)
          ∙ others b v,
    )

abbrev pub ApartFrom : Text → Text → Type 0
ApartFrom t s = (text_eq t s ≡ false) × (text_eq s t ≡ false)

abbrev pub Apart : List Text → Type 0
Apart [] = Unit
Apart (t ∷ ts) = Each (ApartFrom t) ts × Apart ts

heard :
    (t : Text) (ts : List Text)
    → Each (ApartFrom t) ts
    → Each (λ (s : Text). text_eq s t ≡ false) ts
heard t ts a = Each-map (ApartFrom t) _ (λ s y. y.1) ts a

drift_to : (occupied : ℤ) (n : ℕ) → occupied +ℤ (pos n -ℤ occupied) ≡ pos n
drift_to occupied n = grind int_laws

no_drift : (occupied : ℤ) (n : ℕ) → eqb_ℤ (pos n -ℤ occupied) (pos 0) ≡ true → occupied ≡ pos n
unfolding ◌-ℤ◌
no_drift occupied n h = ground arith

-- What the loop has done for a list of types.
abbrev pub Corrected : Option ℕ → (Text → ℕ) → List Text → CounterStore → CounterStore → Type 0
Corrected b active ts db after =
    Each (λ (t : Text). occupancy b t after ≡ pos (active t)) ts
    × ((v : Text)
        → Each (λ (t : Text). text_eq t v ≡ false) ts
        → occupancy b v after ≡ occupancy b v db)

module _ (u : Unicode) (b : Option ℕ) (active : Text → ℕ) (reason : Text) (actor : Option ℕ) where
  adjust_all_lem :
      (id : ℕ) (db : CounterStore) (occupied : Text → ℤ) (log : List ReconcileLog) (ts : List Text)
      → AllUpper u ts
      → Apart ts
      → Each (λ (t : Text). occupancy b t db ≡ occupied t) ts
      → (done : List ReconcileLog × CounterStore) × (adjust_all u id db b reason actor log
            (drifts occupied active ts)
          ≡ ok done)
        × Corrected b active ts db done.1
  unfolding adjust_all
  adjust_all_lem id db occupied log [] h a k = ((log, db), refl, (tt, λ v _. refl))
  adjust_all_lem id db occupied log (t ∷ ts) (h, hs) (a, apart) (k, ks) =
      elim (Bool-cases (eqb_ℤ (pos (active t) -ℤ occupied t) (pos 0))) [
        | inl f ↦
            let (done, e, (here, others)) = adjust_all_lem id db occupied log ts hs apart ks in
            (
              done,
              rw f e,
              ((others t (heard t ts a) ∙ k ∙ no_drift _ _ f, here), λ v x. others v x.1),
            )
        | inr f ↦
            let (c, after, e, now, rest) =
              adjust_counter-to u id db b t (active t) (pos (active t) -ℤ occupied t) reason h f
                (rw k (drift_to (occupied t) (active t))) in
            let still =
              Each-map _ (λ (s : Text). occupancy b s after ≡ occupied s)
                (λ s y. rest s y.0.0 ∙ y.1) ts
                (Each-both (ApartFrom t) (λ (s : Text). occupancy b s db ≡ occupied s) ts a ks) in
            let (done, g, (here, others)) =
              adjust_all_lem (suc id) after occupied
                (log_for actor c (detail t (occupied t) (active t)) log) ts hs apart still in
            (
              done,
              rw (f, adjust_all, e) g,
              ((others t (heard t ts a) ∙ now, here), λ v x. others v x.1 ∙ rest v x.0),
            )
      ]

vehicle_types-Apart : Apart vehicle_types
vehicle_types-Apart = (((refl, refl), ((refl, refl), tt)), (((refl, refl), tt), (tt, tt)))

fixed :
    (u : Unicode) (c : ℕ) (t : Text)
    → (is_letter c || is_digit c) ≡ true
    → upper u t ≡ t
    → upper u (c ∷ t) ≡ c ∷ t
fixed u c t h k = rw (u.upper_fixed c h, k)

-- A text of letters A-Z is in upper case.
letters :
    (u : Unicode) (t : Text)
    → Each (λ (c : ℕ). (is_letter c || is_digit c) ≡ true) t
    → upper u t ≡ t
letters u [] h = refl
letters u (c ∷ t) (h, hs) = fixed u c t h (letters u t hs)

vehicle_types-AllUpper : (u : Unicode) → AllUpper u vehicle_types
vehicle_types-AllUpper u = (
  letters u (codes "CAR") (refl, (refl, (refl, tt))),
  (
    letters u (codes "MOTORBIKE")
        (refl, (refl, (refl, (refl, (refl, (refl, (refl, (refl, (refl, tt))))))))),
    (letters u (codes "BICYCLE") (refl, (refl, (refl, (refl, (refl, (refl, (refl, tt))))))), tt),
  ),
)

drifts_nothing :
    (occupied : Text → ℤ) (active : Text → ℕ) (ts : List Text)
    → has_items (drifts occupied active ts) ≡ false
    → Each (λ (t : Text). occupied t ≡ pos (active t)) ts
drifts_nothing occupied active [] h = tt
drifts_nothing occupied active (t ∷ ts) h =
    elim (Bool-cases (eqb_ℤ (pos (active t) -ℤ occupied t) (pos 0))) [
      | inl f ↦ (no_drift _ _ f, drifts_nothing occupied active ts (rw f at h))
      | inr f ↦ cc (rw f at h)
    ]

-- Reconciling with correction returns, and from then on the counter of each of the three vehicle
-- types is the number of sessions that the query counted for it.
pub reconcile_and_adjust_lem :
    (u : Unicode) (id : ℕ) (db : CounterStore) (b : Option ℕ) (rows : List (Option Text × ℕ))
    (reason : Text) (actor : Option ℕ)
    → (r : Reconciled) × (reconcile_and_adjust u id db b rows true reason actor ≡ ok r)
      × Each
          (λ (t : Text).
            occupancy b t r.store ≡ pos (count_of (get_active_session_counts u rows) t))
          vehicle_types
unfolding reconcile_and_adjust
reconcile_and_adjust_lem u id db b rows reason actor =
    let active = count_of (get_active_session_counts u rows) in
    let found = check_types u id db b active vehicle_types in
    let (items, kept) = check_types_lem u id db b active vehicle_types (vehicle_types-AllUpper u) in
    elim (Bool-cases (has_items found.0)) [
      | inr f ↦
          let same =
            Each-map (λ (t : Text). occupancy b t db ≡ pos (active t))
              (λ (t : Text). occupancy b t found.1 ≡ pos (active t)) (λ t e. kept b t ∙ e)
              vehicle_types
              (drifts_nothing (λ t. occupancy b t db) active vehicle_types (rw items at f)) in
          (
            record { discrepancies = found.0; corrected = false; log = []; store = found.1 },
            rw f,
            same,
          )
      | inl f ↦
          let (done, e, (here, others)) =
            adjust_all_lem u b active reason actor id found.1 (λ t. occupancy b t db) []
              vehicle_types (vehicle_types-AllUpper u) vehicle_types-Apart
              (Each-all (λ t. kept b t) vehicle_types) in
          let run : adjust_all u id found.1 b reason actor [] found.0 ≡ ok done = rw items e in
          (
            record { discrepancies = found.0; corrected = true; log = done.0; store = done.1 },
            rw (f, run),
            here,
          )
    ]
