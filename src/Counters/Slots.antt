-- ===== src/Counters/Slots.antt =====
-- Slots of the counters, a building and a type, and what the store has for one.
use vision_park_ai.Prelude.{
  ℕ, ◌≡◌, refl, sym, Bool, true, false, ◌&&◌, Option, none, some, inl, inr, List, [], ◌∷◌, arith,
  if◌then◌else◌, Bool-cases, Option-cases,
}
use mathlib.Core.Path.{subst}
use vision_park_ai.Prelude.Int.{ℤ, pos}
use vision_park_ai.Prelude.Text.{Text, text_eq, text_eq_sound, text_eq_refl, Unicode, upper}
use vision_park_ai.Tables.{find, update_first}
use vision_park_ai.Ledger.{option_eq}
use vision_park_ai.Counters.{
  ParkingCounter, CounterStore, slot, new_counter, counter_or_new, get_or_create_counter,
  write_occupied,
}

abbrev pub occupied_of : Option ParkingCounter → ℤ
occupied_of none = pos 0
occupied_of (some c) = c.occupied

-- The count of a slot, nothing being counted where there is no counter.
abbrev pub occupancy : Option ℕ → Text → CounterStore → ℤ
occupancy b v db = occupied_of (find (slot b v) db.counters)

abbrev pub same_slot : Option ℕ → Text → Option ℕ → Text → Bool
same_slot b v b' v' = option_eq b b' && text_eq v v'

option_eq_sound : (a b : Option ℕ) → option_eq a b ≡ true → a ≡ b
option_eq_sound none none h = refl
option_eq_sound none (some b) h = cc
option_eq_sound (some a) none h = cc
option_eq_sound (some a) (some b) h = ground arith

option_eq_refl : (a : Option ℕ) → option_eq a a ≡ true
option_eq_refl none = refl
option_eq_refl (some a) = ground arith

pub same_slot_refl : (b : Option ℕ) (v : Text) → same_slot b v b v ≡ true
same_slot_refl b v = rw (option_eq_refl b, text_eq_refl v)

pub same_slot_apart :
    (b : Option ℕ) (v v' : Text) → text_eq v v' ≡ false → same_slot b v b v' ≡ false
same_slot_apart b v v' h = rw (option_eq_refl b, h)

pub same_slot_sound :
    (b : Option ℕ) (v : Text) (b' : Option ℕ) (v' : Text)
    → same_slot b v b' v' ≡ true
    → (b ≡ b') × (v ≡ v')
same_slot_sound b v b' v' h = elim (Bool-cases (option_eq b b')) [
  | inr e ↦ cc (rw e at h)
  | inl e ↦ (option_eq_sound b b' e, text_eq_sound v v' (rw e at h))
]

-- A write of one slot is not seen in another.
find-update_apart :
    (b b' : Option ℕ) (v v' : Text) (n : ℤ) (cs : List ParkingCounter)
    → same_slot b v b' v' ≡ false
    → find
        (slot b' v')
        (update_first (slot b v) (λ (c : ParkingCounter). record c { occupied = n }) cs)
      ≡ find (slot b' v') cs
unfolding find update_first
find-update_apart b b' v v' n [] h = refl
find-update_apart b b' v v' n (c ∷ cs) h = elim (Bool-cases (slot b v c)) [
  | inl e ↦
      let (x, y) = same_slot_sound c.building_id c.vehicle_type b v e in
      let other : slot b' v' c ≡ false = rw (x, y) h in rw (e, other)
  | inr e ↦ elim (Bool-cases (slot b' v' c)) [
    | inl f ↦ rw (e, f)
    | inr f ↦ rw (e, f) (find-update_apart b b' v v' n cs h)
  ]
]

find-update_same :
    (b : Option ℕ) (v : Text) (n : ℤ) (cs : List ParkingCounter) (c : ParkingCounter)
    → find (slot b v) cs ≡ some c
    → occupied_of (
        find
          (slot b v)
          (update_first (slot b v) (λ (c : ParkingCounter). record c { occupied = n }) cs))
      ≡ n
unfolding find update_first
find-update_same b v n [] c h = cc
find-update_same b v n (d ∷ cs) c h = elim (Bool-cases (slot b v d)) [
  | inl e ↦ rw (e, e)
  | inr e ↦ rw (e, e) (find-update_same b v n cs c (rw e at h))
]

pub occupancy-write_occupied :
    (b b' : Option ℕ) (v v' : Text) (n : ℤ) (db : CounterStore) (c : ParkingCounter)
    → find (slot b v) db.counters ≡ some c
    → occupancy b' v' (write_occupied b v n db)
      ≡ (if same_slot b v b' v' then n else occupancy b' v' db)
unfolding write_occupied
occupancy-write_occupied b b' v v' n db c h = elim (Bool-cases (same_slot b v b' v')) [
  | inl e ↦
      let (x, y) = same_slot_sound b v b' v' e in
      rw e (rw (sym x, sym y) (find-update_same b v n db.counters c h))
  | inr e ↦ rw (e, find-update_apart b b' v v' n db.counters e)
]

-- The counter is the slot's, and no count has changed.
abbrev pub Got : CounterStore → Option ℕ → Text → ParkingCounter → CounterStore → Type 0
Got db b v c found =
    (find (slot b v) found.counters ≡ some c)
    × (c.occupied ≡ occupancy b v db)
    × ((b' : Option ℕ) (v' : Text) → occupancy b' v' found ≡ occupancy b' v' db)
    × (found.events ≡ db.events)

-- A new counter is its slot's and leaves the other slots as they were.
new_counter-Got :
    (id : ℕ) (db : CounterStore) (b : Option ℕ) (v : Text)
    → find (slot b v) db.counters ≡ none
    → Got db b v (new_counter id b v) (record db { counters = new_counter id b v ∷ db.counters })
unfolding find
new_counter-Got id db b v e = (
  rw (same_slot_refl b v),
  rw e,
  λ b' v'. elim (Bool-cases (same_slot b v b' v')) [
    | inl s ↦
        let (x, y) = same_slot_sound b v b' v' s in
        let nothing : find (slot b' v') db.counters ≡ none = rw (sym x, sym y) e in rw (s, nothing)
    | inr s ↦ rw s
  ],
  refl,
)

pub get_or_create_counter-Got :
    (u : Unicode) (id : ℕ) (db : CounterStore) (b : Option ℕ) (v : Text)
    → upper u v ≡ v
    → Got db b v (get_or_create_counter u id db b v).0 (get_or_create_counter u id db b v).1
unfolding get_or_create_counter
get_or_create_counter-Got u id db b v h = elim (Option-cases (find (slot b v) db.counters)) [
  | inr (c, e) ↦
      let same : get_or_create_counter u id db b v ≡ counter_or_new id db b v (some c) =
        rw (h, e) in
      subst (λ (x : ParkingCounter × CounterStore). Got db b v x.0 x.1) (sym same)
        (e, rw e, λ _ _. refl, refl)
  | inl e ↦
      let same : get_or_create_counter u id db b v ≡ counter_or_new id db b v none = rw (h, e) in
      subst (λ (x : ParkingCounter × CounterStore). Got db b v x.0 x.1) (sym same)
        (new_counter-Got id db b v e)
]
