-- ===== src/Detections/Confirmed.antt =====
-- Confirmations that are sent again.
use vision_park_ai.Prelude.{
  ℕ, ◌≡◌, ◌⊎◌, refl, sym, ap, ◌∙◌, true, false, Option, none, some, inl, inr, ◌==◌, any, arith,
  Bool-cases, Option-cases,
}
use mathlib.Core.Path.{subst}
use vision_park_ai.Prelude.Text.{Text, text_is, text_eq_refl, text_eq_sound, Unicode}
use vision_park_ai.Errors.{
  ok, ok_injective, guarded-ok, app_error, detection_already_checked_in, invalid_plate,
}
use vision_park_ai.Tables.{find, find_test, update_first, find-update_first}
use vision_park_ai.Plate.{normalize_plate}
use vision_park_ai.Plate.Rules.{normalize_plate-normalize_plate}
use vision_park_ai.Detections.{
  Detection, DetectionConfirmRequest, DetectionStore, detection_key, is_settled, is_short_or_long,
  confirmed, store_confirmed, confirm_as, confirm_without_check_in, confirm_by_id,
}

text_is-some : (o : Option Text) (t : Text) → text_is o t ≡ true → o ≡ some t
text_is-some none t h = cc
text_is-some (some s) t h = ap (λ (x : Text). some x) (text_eq_sound s t h)

-- The detection is found as it is, and has the plate.
abbrev Kept : ℕ → Text → Detection × DetectionStore → Type 0
Kept id plate (d, db) =
    (find (detection_key id) db.detections ≡ some d)
    × (is_settled plate d ≡ true)
    × (d.confirmed_plate ≡ some plate)

is_settled-plate :
    (plate : Text) (d : Detection) → is_settled plate d ≡ true → d.confirmed_plate ≡ some plate
is_settled-plate plate d h = elim (Bool-cases d.is_confirmed) [
  | inl a ↦ text_is-some d.confirmed_plate plate (rw a at h)
  | inr a ↦ cc (rw a at h)
]

module _ (id operator_id : ℕ) (plate : Text) (d : Detection) (payload : DetectionConfirmRequest)
    (db : DetectionStore) (row : find (detection_key id) db.detections ≡ some d) where
  store_confirmed-Kept :
      Kept id plate
        (confirmed plate d payload operator_id, store_confirmed plate d payload operator_id db)
  unfolding store_confirmed
  store_confirmed-Kept =
      let new = confirmed plate d payload operator_id in
      let own : (d.id == id) ≡ true = find_test (detection_key id) db.detections row in
      let same : d.id ≡ id = ground (arith, own) in
      (
        subst
            (λ (k : ℕ).
              find (detection_key id)
                (update_first (detection_key k) (λ (x : Detection). new) db.detections)
              ≡ some new)
            (sym same)
            (find-update_first (detection_key id) (λ (x : Detection). new) db.detections d row own),
        text_eq_refl plate,
        refl,
      )

  confirm_as-Kept :
      (d' : Detection) (after : DetectionStore)
      → confirm_as plate d payload operator_id db ≡ ok (d', after)
      → Kept id plate (d', after)
  unfolding confirm_as
  confirm_as-Kept d' after h = elim (Bool-cases (is_settled plate d)) [
    | inl a ↦
        subst (Kept id plate) (ok_injective {a = (d, db)} {b = (d', after)} (rw a at h))
          (row, a, is_settled-plate plate d a)
    | inr a ↦
        let (_, last) =
          guarded-ok (any (λ (k : ℕ). k == d.id) db.checked_in)
            (app_error 409 detection_already_checked_in)
            (ok (
              confirmed plate d payload operator_id,
              store_confirmed plate d payload operator_id db,
            ))
            (rw a at h) in
        subst (Kept id plate)
          (ok_injective
            {a = (
              confirmed plate d payload operator_id,
              store_confirmed plate d payload operator_id db,
            )}
            {b = (d', after)} last)
          store_confirmed-Kept
  ]

-- A detection that has the plate is returned as it is.
confirm_as-settled :
    (plate : Text) (d : Detection) (payload : DetectionConfirmRequest) (operator_id : ℕ)
    (db : DetectionStore)
    → is_settled plate d ≡ true
    → confirm_as plate d payload operator_id db ≡ ok (d, db)
unfolding confirm_as
confirm_as-settled plate d payload operator_id db h = rw h refl

module _ (u : Unicode) (id : ℕ) where
  -- The answer is of a row that has the plate of the request, which is neither short nor long.
  confirm_by_id-Kept :
      (payload : DetectionConfirmRequest) (operator_id : ℕ) (db : DetectionStore) (d' : Detection)
      (after : DetectionStore)
      → confirm_by_id u id payload operator_id db ≡ ok (d', after)
      → (is_short_or_long (normalize_plate u true payload.confirmed_plate) ≡ false)
        × Kept id (normalize_plate u true payload.confirmed_plate) (d', after)
  unfolding confirm_by_id confirm_without_check_in
  confirm_by_id-Kept payload operator_id db d' after h =
      let plate = normalize_plate u true payload.confirmed_plate in
      elim (Option-cases (find (detection_key id) db.detections)) [
        | inl a ↦ cc (rw a at h)
        | inr (d, row) ↦
            let (fits, last) =
              guarded-ok (is_short_or_long plate) (app_error 422 invalid_plate)
                (confirm_as plate d payload operator_id db) (rw row at h) in
            (fits, confirm_as-Kept id operator_id plate d payload db row d' after last)
      ]

  confirm_by_id-again :
      (plate : Text) (payload : DetectionConfirmRequest) (operator_id : ℕ) (d : Detection)
      (db : DetectionStore)
      → normalize_plate u true payload.confirmed_plate ≡ plate
      → is_short_or_long plate ≡ false
      → Kept id plate (d, db)
      → confirm_by_id u id payload operator_id db ≡ ok (d, db)
  unfolding confirm_by_id confirm_without_check_in
  confirm_by_id-again plate payload operator_id d db e fits (row, settled, _) =
      rw (row, e, fits) (confirm_as-settled plate d payload operator_id db settled)

  -- A confirmation that has returned may be sent again, with the text that it had or with the plate
  -- that it has set, by any operator: the answer is the same detection and nothing changes, whatever
  -- vehicle type the second names.
  pub confirm_by_id_twice :
      (payload payload' : DetectionConfirmRequest) (operator_id operator_id' : ℕ)
      (db after : DetectionStore) (d : Detection)
      → confirm_by_id u id payload operator_id db ≡ ok (d, after)
      → (payload'.confirmed_plate ≡ payload.confirmed_plate)
        ⊎ (d.confirmed_plate ≡ some payload'.confirmed_plate)
      → confirm_by_id u id payload' operator_id' after ≡ ok (d, after)
  confirm_by_id_twice payload payload' operator_id operator_id' db after d h same =
      let (fits, kept) = confirm_by_id-Kept payload operator_id db d after h in
      let plate = normalize_plate u true payload.confirmed_plate in
      let alike : normalize_plate u true payload'.confirmed_plate ≡ plate = elim same [
        | inl e ↦ ap (normalize_plate u true) e
        | inr e ↦
            let set : plate ≡ payload'.confirmed_plate = cc (e, kept.2) in
            ap (normalize_plate u true) (sym set)
            ∙ normalize_plate-normalize_plate u true payload.confirmed_plate
      ] in
      confirm_by_id-again plate payload' operator_id' d after alike fits kept
